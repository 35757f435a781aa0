-- ===== src/Orchestrator/Success.antt =====
-- internal/orchestrator: what a method that answers without an error has done to the run's status.
use manteion_go.Base.{
  String, Bool, true, some, ◌≡◌, ◌∙◌, ap, sym, inl, inr, Bool-cases, if◌then◌else◌,
}
use manteion_go.Model.Experiment.{ExperimentRun, RunStatus}
use manteion_go.Store.Runs.{is_pending, is_running, is_paused, is_terminal}
use manteion_go.Orchestrator.World.{
  Ctx, World, Env, Result, ok, M, ◌>>=◌, ◌>>◌, pure, fail, require, get_run, set_run_status,
  cancel_handles, wrong_status,
}
use manteion_go.Orchestrator.Lifecycle.{
  start_run, pause_run, resume_run, stop_run, finish_run, start_load, start_drivers,
}
use manteion_go.Orchestrator.Keeps.{
  status_in, status_of, go-Keeps, attempt-Keeps, require-Keeps, when-Keeps, >>=-Keeps,
  get_run-Keeps, cancel_handles-Keeps, each_call-Keeps, enter_phase-Keeps, preload_cache-Keeps,
  start_load-Keeps, start_drivers-Keeps, release_run-Keeps,
}
use manteion_go.Orchestrator.Reaches.{
  Reaches, continue_ok, >>=-Reaches, Reaches->>=, guarded_ok, set_run_status-Reaches,
  finalize-Reaches, find_run_id, get_run_ok,
}

-- The run had the first status, and now it has one that satisfies the second predicate.
abbrev pub Moved : String → (RunStatus → Bool) → (RunStatus → Bool) → World → World → Type 0
Moved id before after w u =
    (s : RunStatus) × (status_of id w ≡ some s)
    × (before s ≡ true)
    × (t : RunStatus) × (status_of id u ≡ some t)
    × (after t ≡ true)

begin_run-Reaches :
    (env : Env) (ctx : Ctx) (id : String) (s : RunStatus) (run : ExperimentRun) (watched : Bool)
    → Reaches id s
        (λ t. is_running t ≡ true)
        (set_run_status ctx id RunStatus.running
          >> (start_load env ctx run >>= start_drivers watched))
begin_run-Reaches env ctx id s run watched =
    Reaches->>= (as_test (set_run_status-Reaches ctx id s RunStatus.running))
      (λ _. >>=-Keeps (start_load-Keeps env ctx run) (λ run'. start_drivers-Keeps watched run'))
  where
    as_test :
        {m : M (Unit {0})}
        → Reaches id s (λ t. t ≡ RunStatus.running) m
        → Reaches id s (λ t. is_running t ≡ true) m
    as_test k = record {
      reaches =
          λ w u a at e. let (t, now, same) = k.reaches w u a at e in (t, now, ap is_running same);
    }

-- Where StartRun answers without an error, the run was pending and is running.
pub start_run_ok :
    (env : Env) (ctx : Ctx) (id : String) (w u : World)
    → start_run env ctx id w ≡ (ok tt, u)
    → Moved id is_pending is_running w u
unfolding start_run
start_run_ok env ctx id w u e =
    guarded_ok ctx id is_pending wrong_status _ w u tt
      (λ run. >>=-Reaches (when-Keeps _ (attempt-Keeps _ (preload_cache-Keeps ctx run))) (λ _.
        >>=-Reaches (enter_phase-Keeps env run 0)
          (λ _. begin_run-Reaches env ctx id run.status run _)))
      e

-- Where PauseRun answers without an error, the run was running and is paused.
pub pause_run_ok :
    (env : Env) (ctx : Ctx) (id : String) (w u : World)
    → pause_run env ctx id w ≡ (ok tt, u)
    → Moved id is_running is_paused w u
unfolding pause_run
pause_run_ok env ctx id w u e =
    guarded_ok ctx id is_running wrong_status _ w u tt
      (λ run. >>=-Reaches (cancel_handles-Keeps id) (λ _.
        >>=-Reaches (require-Keeps _ _)
          (λ _. >>=-Reaches (each_call-Keeps _ _) (λ _. written run.status))))
      e
  where
    written :
        (s : RunStatus)
        → Reaches id s (λ t. is_paused t ≡ true) (set_run_status ctx id RunStatus.paused)
    written s = record {
      reaches = λ w u a at e.
          let (t, now, same) =
            (set_run_status-Reaches ctx id s RunStatus.paused).reaches w u a at e in
          (t, now, ap is_paused same);
    }

-- Where ResumeRun answers without an error, the run was paused and is running.
pub resume_run_ok :
    (env : Env) (ctx : Ctx) (id : String) (w u : World)
    → resume_run env ctx id w ≡ (ok tt, u)
    → Moved id is_paused is_running w u
unfolding resume_run
resume_run_ok env ctx id w u e =
    guarded_ok ctx id is_paused wrong_status _ w u tt
      (λ run.
        >>=-Reaches (enter_phase-Keeps env run run.current_phase)
          (λ _. begin_run-Reaches env ctx id run.status run _))
      e

finish_run-Reaches :
    (env : Env) (ctx : Ctx) (run : ExperimentRun) (s status : RunStatus)
    → is_terminal status ≡ true
    → Reaches run.id s (λ t. is_terminal t ≡ true) (finish_run env ctx run status)
unfolding finish_run
finish_run-Reaches env ctx run s status last = >>=-Reaches (release_run-Keeps env run status) (λ _.
    Reaches->>= (finalize-Reaches ctx run.id s status last) (λ done. when-Keeps done (go-Keeps _)))

-- StopRun behind its look-up of the run.
stop_loaded_ok :
    (env : Env) (ctx : Ctx) (id : String) (status : RunStatus) (run : ExperimentRun) (v u : World)
    → is_terminal status ≡ true
    → run.id ≡ id
    → status_of id v ≡ some run.status
    → (if is_terminal run.status then pure tt else finish_run env ctx run status) v ≡ (ok tt, u)
    → (t : RunStatus) × (status_of id u ≡ some t) × (is_terminal t ≡ true)
unfolding pure
stop_loaded_ok env ctx id status run v u last same_id status_now e =
    elim (Bool-cases (is_terminal run.status)) [
      | inl over ↦
          let e' = rw over at e in
          (
            run.status,
            ap (λ (x : Result (Unit {0}) × World). status_of id x.1) (sym e') ∙ status_now,
            over,
          )
      | inr live ↦
          let e' = rw live at e in
          let (t, now, good) =
            (finish_run-Reaches env ctx run run.status status last).reaches v u tt
              (ap (λ j. status_of j v) same_id ∙ status_now) e' in
          (t, ap (λ j. status_of j u) (sym same_id) ∙ now, good)
    ]

-- Where StopRun answers without an error, the run is completed or failed.
pub stop_run_ok :
    (env : Env) (ctx : Ctx) (id : String) (status : RunStatus) (w u : World)
    → stop_run env ctx id status w ≡ (ok tt, u)
    → (t : RunStatus) × (status_of id u ≡ some t) × (is_terminal t ≡ true)
unfolding stop_run ◌>>=◌ require fail pure
stop_run_ok env ctx id status w u e = elim (Bool-cases (is_terminal status)) [
  | inr held ↦ let e' = rw held at e in cc
  | inl last ↦
      let e' = rw last at e in
      let v = (cancel_handles id w).1 in
      let (_, _, e1) = continue_ok (cancel_handles id w).0 _ v u tt e' in
      let (run, answered, e2) = continue_ok (get_run ctx id v).0 _ (get_run ctx id v).1 u tt e1 in
      let (found, _) =
        get_run_ok ctx id v (get_run ctx id v).1 run
          (ap (λ r. (r, (get_run ctx id v).1)) answered) in
      stop_loaded_ok env ctx id status run (get_run ctx id v).1 u last
        (find_run_id id v.db.runs run found)
        ((get_run-Keeps ctx id).keeps v id ∙ ap status_in found) e2
]
