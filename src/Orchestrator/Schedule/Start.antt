-- ===== src/Orchestrator/Schedule/Start.antt =====
-- internal/orchestrator/orchestrator.go: which experiments StartExperiment starts.
use manteion_go.Base.{◌≡◌, inl, inr, String, true, some, List, Bool-cases, Option-cases}
use manteion_go.Model.Experiment.{Experiment, ExperimentRun, ExperimentStatus}
use manteion_go.RunGraph.{validate_run_graph}
use manteion_go.RunGraph.Spec.{IsValidGraph}
use manteion_go.RunGraph.Decides.{validate_run_graph_iff, validate_run_graph_answers}
use manteion_go.Store.Runs.{find_experiment, list_runs_by_experiment}
use manteion_go.Orchestrator.World.{
  Ctx, World, Env, wrong_status, M, ◌>>=◌, ◌>>◌, continue, pure, fail, require, query, is_done,
  get_experiment, ok,
}
use manteion_go.Orchestrator.Schedule.{
  list_runs, set_experiment_status, advance_experiment, is_planned, graph_answer, start_experiment,
}

-- The experiment is there, planned, and its runs have a valid graph.
abbrev pub CanStart : String → World → Type 0
CanStart id w =
    (exp : Experiment) × (find_experiment id w.db.experiments ≡ some exp)
    × (is_planned exp.status ≡ true)
    × IsValidGraph (list_runs_by_experiment id w.db.runs)

graph_checked :
    (k : M (Unit {0})) (rs : List ExperimentRun) (w u : World)
    → (graph_answer (validate_run_graph rs) >> k) w ≡ (ok tt, u)
    → IsValidGraph rs
unfolding graph_answer fail continue ◌>>=◌
graph_checked k rs w u e = elim (validate_run_graph_answers rs) [
  | inl accepted ↦ (validate_run_graph_iff rs).0 accepted
  | inr (bad, rejected) ↦ let e' = rw rejected at e in cc
]

runs_checked :
    (ctx : Ctx) (id : String) (k : List ExperimentRun → M (Unit {0})) (w u : World)
    → (list_runs ctx id >>= λ rs. graph_answer (validate_run_graph rs) >> k rs) w ≡ (ok tt, u)
    → IsValidGraph (list_runs_by_experiment id w.db.runs)
unfolding list_runs query fail continue ◌>>=◌
runs_checked ctx id k w u e = elim (Bool-cases (is_done ctx w)) [
  | inl done ↦ let e' = rw done at e in cc
  | inr live ↦
      graph_checked (k (list_runs_by_experiment id w.db.runs))
        (list_runs_by_experiment id w.db.runs) w u (rw live at e)
]

planned_ok :
    (ctx : Ctx) (id : String) (k : M (Unit {0})) (w u : World)
    → (get_experiment ctx id >>= λ exp. require (is_planned exp.status) wrong_status >> k) w
      ≡ (ok tt, u)
    → (exp : Experiment) × (find_experiment id w.db.experiments ≡ some exp)
      × (is_planned exp.status ≡ true)
      × (k w ≡ (ok tt, u))
unfolding get_experiment query require fail pure continue ◌>>=◌
planned_ok ctx id k w u e = elim (Bool-cases (is_done ctx w)) [
  | inl done ↦ let e' = rw done at e in cc
  | inr live ↦ elim (Option-cases (find_experiment id w.db.experiments)) [
    | inl missing ↦ let e' = rw (live, missing) at e in cc
    | inr (exp, found) ↦ elim (Bool-cases (is_planned exp.status)) [
      | inr other_status ↦ let e' = rw (live, found, other_status) at e in cc
      | inl planned ↦ (exp, found, planned, rw (live, found, planned) at e)
    ]
  ]
]

-- Where StartExperiment answers without an error, the experiment was planned, and the dependencies
-- of its runs had the form that RunGraph's specification asks for.
pub start_experiment_ok :
    (env : Env) (ctx : Ctx) (id : String) (w u : World)
    → start_experiment env ctx id w ≡ (ok tt, u)
    → CanStart id w
unfolding start_experiment
start_experiment_ok env ctx id w u e =
    let (exp, found, planned, e') =
      planned_ok ctx id
        (list_runs ctx id >>= λ rs.
          graph_answer (validate_run_graph rs)
          >> (set_experiment_status ctx id ExperimentStatus.running
              >> advance_experiment env ctx id))
        w u e in
    (
      exp,
      found,
      planned,
      runs_checked ctx id
          (λ rs.
            set_experiment_status ctx id ExperimentStatus.running >> advance_experiment env ctx id)
          w u e',
    )
