-- ===== src/Orchestrator/Schedule.antt =====
-- internal/orchestrator/orchestrator.go: StartExperiment and advanceExperiment, the order in which the
-- runs of an experiment start.
pub mod Kept
pub mod Cascade
pub mod Start
use manteion_go.Base.{
  ℕ, zero, suc, ◌+◌, String, ◌==◌, Bool, true, false, not, ◌&&◌, ◌||◌, Option, none, some, List, [],
  ◌∷◌, length, if◌then◌else◌,
}
use manteion_go.Base.Update.{update}
use manteion_go.Model.Experiment.{Experiment, ExperimentRun, ExperimentStatus, RunStatus}
use manteion_go.RunGraph.{GraphError, Outcome, validate_run_graph}
use manteion_go.Store.Runs.{
  is_pending, is_running, is_paused, is_completed, is_failed, find_experiment,
  list_runs_by_experiment, update_status,
}
use manteion_go.Orchestrator.World.{
  Ctx, World, Env, Failure, not_found, wrong_status, invalid_graph, M, ◌>>=◌, ◌>>◌, pure, fail,
  require, attempt, when, query, get_experiment, set_run_status, ok, err,
}
use manteion_go.Orchestrator.Lifecycle.{start_run}

unfoldable pub list_runs : Ctx → String → M (List ExperimentRun)
unfolding query
list_runs ctx id = query ctx λ w. (ok (list_runs_by_experiment id w.db.runs), w)

unfoldable pub set_experiment_status : Ctx → String → ExperimentStatus → M (Unit {0})
unfolding query
set_experiment_status ctx id status = query ctx λ w. elim (find_experiment id w.db.experiments) [
  | none ↦ (err not_found, w)
  | some e ↦ (ok tt, record w { db = update_status id status w.now w.db })
]

-- `statusByID`: a missing key reads as the empty text, here `none`.
abbrev pub Statuses : Type 0
Statuses = String → Option RunStatus

abbrev pub statuses_of : List ExperimentRun → Statuses → Statuses
statuses_of [] m = m
statuses_of (r ∷ rs) m = statuses_of rs (update m r.id (some r.status))

abbrev pub holds : (RunStatus → Bool) → Option RunStatus → Bool
holds test none = false
holds test (some s) = test s

-- The loop over the dependencies of a pending run: whether the run was marked failed. A failed write
-- goes on with the next dependency.
unfoldable pub cascade_deps : Ctx → String → List String → Statuses → M Bool
cascade_deps ctx id [] m = pure false
cascade_deps ctx id (dep ∷ deps) m =
    let rest = cascade_deps ctx id deps m in
    if holds is_failed (m dep)
    then (do
      written ← attempt (do set_run_status ctx id RunStatus.failed; pure true) false
      if written then pure true else rest)
    else rest

-- What one pass of the cascade leaves: the runs, their statuses, and `changed`.
pub record Pass : Type 0 where
  pub runs : List ExperimentRun
  pub statuses : Statuses
  pub changed : Bool

abbrev pub keep : ExperimentRun → Pass → Pass
keep r p = record p { runs = r ∷ p.runs }

abbrev pub mark : ExperimentRun → Pass → Pass
mark r p = record p { runs = record r { status = RunStatus.failed } ∷ p.runs; changed = true }

unfoldable pub cascade_pass : Ctx → List ExperimentRun → Statuses → M Pass
unfolding cascade_deps
cascade_pass ctx [] m = pure (record { runs = []; statuses = m; changed = false })
cascade_pass ctx (r ∷ rs) m =
    if not (is_pending r.status) then (do p ← cascade_pass ctx rs m; pure (keep r p)) else (do
      failed ← cascade_deps ctx r.id r.depends_on m
      if failed
          then (do p ← cascade_pass ctx rs (update m r.id (some RunStatus.failed)); pure (mark r p))
          else (do p ← cascade_pass ctx rs m; pure (keep r p)))

-- `for changed := true; changed;`, on fuel; `none` is its end.
unfoldable pub cascade : ℕ → Ctx → List ExperimentRun → Statuses → M (Option Pass)
unfolding cascade_pass
cascade zero ctx rs m = pure none
cascade (suc fuel) ctx rs m = do
  p ← cascade_pass ctx rs m
  if p.changed then cascade fuel ctx p.runs p.statuses else pure (some p)

abbrev pub all_completed : List String → Statuses → Bool
all_completed [] m = true
all_completed (dep ∷ deps) m = holds is_completed (m dep) && all_completed deps m

-- The starts of the runs that are ready; an error is logged.
unfoldable pub start_ready : Env → Ctx → Statuses → List ExperimentRun → M (Unit {0})
start_ready env ctx m [] = pure tt
start_ready env ctx m (r ∷ rs) = do
  when (is_pending r.status && all_completed r.depends_on m) (attempt (start_run env ctx r.id) tt)
  start_ready env ctx m rs

abbrev pub is_live : RunStatus → Bool
is_live s = is_pending s || is_running s || is_paused s

abbrev pub any_run : (RunStatus → Bool) → Statuses → List ExperimentRun → Bool
any_run test m [] = false
any_run test m (r ∷ rs) = holds test (m r.id) || any_run test m rs

-- The experiment's own status, by the statuses from before the starts.
unfoldable pub finalize_experiment : Ctx → String → Statuses → List ExperimentRun → M (Unit {0})
unfolding set_experiment_status
finalize_experiment ctx id m rs = when (not (any_run is_live m rs)) (
    attempt
      (set_experiment_status ctx id
        (if any_run is_failed m rs then ExperimentStatus.failed else ExperimentStatus.completed))
      tt)

-- advanceExperiment behind its list of the runs. The fuel is one more than the number of runs.
unfoldable pub advance_runs : Env → Ctx → String → List ExperimentRun → M (Unit {0})
unfolding cascade start_ready finalize_experiment
advance_runs env ctx id rs = do
  o ← cascade (suc (length rs)) ctx rs (statuses_of rs (λ id. none))
  elim o [
    | none ↦ pure tt
    | some p ↦ (do
      start_ready env ctx p.statuses p.runs
      finalize_experiment ctx id p.statuses p.runs)
  ]

unfoldable pub advance_experiment : Env → Ctx → String → M (Unit {0})
unfolding advance_runs list_runs
advance_experiment env ctx id = attempt (do rs ← list_runs ctx id; advance_runs env ctx id rs) tt

abbrev pub is_planned : ExperimentStatus → Bool
is_planned ExperimentStatus.planned = true
is_planned _ = false

-- The answer of ValidateRunGraph, as this method takes it. The last two outcomes stand for a
-- nil dereference and for the end of the fuel, and are no answers of the code.
unfoldable pub graph_answer : Outcome (Unit {0}) → M (Unit {0})
graph_answer (Outcome.ok u) = pure tt
graph_answer (Outcome.err e) = fail (invalid_graph e)
graph_answer Outcome.panic = fail not_found
graph_answer Outcome.out_of_fuel = fail not_found

unfoldable pub start_experiment : Env → Ctx → String → M (Unit {0})
unfolding list_runs set_experiment_status advance_experiment graph_answer
start_experiment env ctx id = do
  exp ← get_experiment ctx id
  require (is_planned exp.status) wrong_status
  rs ← list_runs ctx id
  graph_answer (validate_run_graph rs)
  set_experiment_status ctx id ExperimentStatus.running
  advance_experiment env ctx id
