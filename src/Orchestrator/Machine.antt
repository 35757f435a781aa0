-- ===== src/Orchestrator/Machine.antt =====
-- internal/orchestrator: every method that changes a run's status follows the state machine, alone
-- and in any sequence.
use manteion_go.Base.{String, Bool, true, false, ◌≡◌, refl, List, [], ◌∷◌, arith}
use manteion_go.Model.Experiment.{ExperimentRun, RunStatus}
use manteion_go.Store.Runs.{is_pending, is_running, is_paused, is_terminal}
use manteion_go.Orchestrator.World.{Ctx, World, Env, ◌>>=◌, ◌>>◌, set_run_status, wrong_status}
use manteion_go.Orchestrator.Lifecycle.{
  start_run, pause_run, resume_run, stop_run, finish_run, start_load, start_drivers,
}
use manteion_go.Orchestrator.Drivers.{poll_done, poll_tick, poll_deadline, check_attack_statuses}
use manteion_go.Orchestrator.Keeps.{
  pure-Keeps, go-Keeps, attempt-Keeps, require-Keeps, when-Keeps, >>=-Keeps, get_run-Keeps,
  cancel_handles-Keeps, each_call-Keeps, enter_phase-Keeps, preload_cache-Keeps, start_load-Keeps,
  start_drivers-Keeps, release_run-Keeps,
}
use manteion_go.Orchestrator.Follows.{
  Allowed, start, pause, resume, Follows, Follows-trans, same-Follows, Obeys, ObeysAt, Keeps-Obeys,
  >>=-Obeys, attempt-Obeys, if-Obeys, require-Obeys, >>=-ObeysAt, ObeysAt->>=, guarded-Obeys,
  set_run_status-ObeysAt, finalize-Obeys,
}

is_pending_eq : (s : RunStatus) → is_pending s ≡ true → s ≡ RunStatus.pending
is_pending_eq s h = ground arith

is_running_eq : (s : RunStatus) → is_running s ≡ true → s ≡ RunStatus.running
is_running_eq s h = ground arith

is_paused_eq : (s : RunStatus) → is_paused s ≡ true → s ≡ RunStatus.paused
is_paused_eq s h = ground arith

-- The end of StartRun and of ResumeRun, from the write of the status on.
begin_run-ObeysAt :
    (env : Env) (ctx : Ctx) (id : String) (s : RunStatus) (run : ExperimentRun) (watched : Bool)
    → Allowed s RunStatus.running
    → ObeysAt id s (
        set_run_status ctx id RunStatus.running
        >> (start_load env ctx run >>= start_drivers watched))
begin_run-ObeysAt env ctx id s run watched a =
    ObeysAt->>= (set_run_status-ObeysAt ctx id s RunStatus.running a) (λ _.
      Keeps-Obeys
        (>>=-Keeps (start_load-Keeps env ctx run) (λ run'. start_drivers-Keeps watched run')))

pub start_run-Obeys : (env : Env) (ctx : Ctx) (id : String) → Obeys (start_run env ctx id)
unfolding start_run
start_run-Obeys env ctx id = guarded-Obeys ctx id is_pending wrong_status _ (λ run h.
    >>=-ObeysAt (when-Keeps _ (attempt-Keeps _ (preload_cache-Keeps ctx run))) (λ _.
      >>=-ObeysAt (enter_phase-Keeps env run 0) (λ _.
        begin_run-ObeysAt env ctx id run.status run _ (rw (is_pending_eq run.status h) start))))

pub pause_run-Obeys : (env : Env) (ctx : Ctx) (id : String) → Obeys (pause_run env ctx id)
unfolding pause_run
pause_run-Obeys env ctx id = guarded-Obeys ctx id is_running wrong_status _ (λ run h.
    >>=-ObeysAt (cancel_handles-Keeps id) (λ _. >>=-ObeysAt (require-Keeps _ _) (λ _.
      >>=-ObeysAt (each_call-Keeps _ _) (λ _.
        set_run_status-ObeysAt ctx id run.status RunStatus.paused
          (rw (is_running_eq run.status h) pause)))))

pub resume_run-Obeys : (env : Env) (ctx : Ctx) (id : String) → Obeys (resume_run env ctx id)
unfolding resume_run
resume_run-Obeys env ctx id = guarded-Obeys ctx id is_paused wrong_status _ (λ run h.
    >>=-ObeysAt (enter_phase-Keeps env run run.current_phase)
      (λ _. begin_run-ObeysAt env ctx id run.status run _ (rw (is_paused_eq run.status h) resume)))

finish_run-Obeys :
    (env : Env) (ctx : Ctx) (run : ExperimentRun) (status : RunStatus)
    → is_terminal status ≡ true
    → Obeys (finish_run env ctx run status)
unfolding finish_run
finish_run-Obeys env ctx run status last =
    >>=-Obeys (Keeps-Obeys (release_run-Keeps env run status)) (λ _.
      >>=-Obeys (finalize-Obeys ctx run.id status last)
        (λ done. Keeps-Obeys (when-Keeps done (go-Keeps _))))

pub stop_run-Obeys :
    (env : Env) (ctx : Ctx) (id : String) (status : RunStatus) → Obeys (stop_run env ctx id status)
unfolding stop_run
stop_run-Obeys env ctx id status = require-Obeys (is_terminal status) _ (λ last.
    >>=-Obeys (Keeps-Obeys (cancel_handles-Keeps id)) (λ _.
      >>=-Obeys (Keeps-Obeys (get_run-Keeps ctx id)) (λ run.
        if-Obeys (is_terminal run.status) (Keeps-Obeys (pure-Keeps tt))
          (finish_run-Obeys env ctx run status last))))

poll_done-Obeys : (env : Env) (ctx : Ctx) (run : ExperimentRun) → Obeys (poll_done env ctx run)
unfolding poll_done
poll_done-Obeys env ctx run =
    >>=-Obeys
      (Keeps-Obeys
        (attempt-Keeps tt (>>=-Keeps (get_run-Keeps ctx run.id) (λ latest. each_call-Keeps _ _))))
      (λ _. attempt-Obeys tt (stop_run-Obeys env ctx run.id RunStatus.completed))

pub poll_tick-Obeys : (env : Env) (ctx : Ctx) (run : ExperimentRun) → Obeys (poll_tick env ctx run)
unfolding poll_tick
poll_tick-Obeys env ctx run =
    if-Obeys (check_attack_statuses env run).1
      (>>=-Obeys (attempt-Obeys tt (stop_run-Obeys env ctx run.id RunStatus.failed))
        (λ _. Keeps-Obeys (pure-Keeps false)))
      (if-Obeys (check_attack_statuses env run).0
        (>>=-Obeys (poll_done-Obeys env ctx run) (λ _. Keeps-Obeys (pure-Keeps false)))
        (Keeps-Obeys (pure-Keeps true)))

poll_deadline-Obeys :
    (env : Env) (ctx : Ctx) (run : ExperimentRun) → Obeys (poll_deadline env ctx run)
unfolding poll_deadline
poll_deadline-Obeys env ctx run = attempt-Obeys tt (stop_run-Obeys env ctx run.id RunStatus.failed)

-- The methods by which the API, the poller and the scheduler change a run's status, with what the
-- outside answers during the call. Errors are the caller's affair.
pub data Method : Type 0 where
  start_run_of pause_run_of resume_run_of : Env → Ctx → String → Method
  stop_run_of : Env → Ctx → String → RunStatus → Method
  tick deadline : Env → Ctx → ExperimentRun → Method

unfoldable pub perform : Method → World → World
perform (start_run_of env ctx id) w = (start_run env ctx id w).1
perform (pause_run_of env ctx id) w = (pause_run env ctx id w).1
perform (resume_run_of env ctx id) w = (resume_run env ctx id w).1
perform (stop_run_of env ctx id status) w = (stop_run env ctx id status w).1
perform (tick env ctx run) w = (poll_tick env ctx run w).1
perform (deadline env ctx run) w = (poll_deadline env ctx run w).1

unfoldable pub perform_all : List Method → World → World
perform_all [] w = w
perform_all (m ∷ ms) w = perform_all ms (perform m w)

perform-Follows : (m : Method) (w : World) → Follows w (perform m w)
unfolding perform
perform-Follows (start_run_of env ctx id) w = (start_run-Obeys env ctx id).obeys w
perform-Follows (pause_run_of env ctx id) w = (pause_run-Obeys env ctx id).obeys w
perform-Follows (resume_run_of env ctx id) w = (resume_run-Obeys env ctx id).obeys w
perform-Follows (stop_run_of env ctx id status) w = (stop_run-Obeys env ctx id status).obeys w
perform-Follows (tick env ctx run) w = (poll_tick-Obeys env ctx run).obeys w
perform-Follows (deadline env ctx run) w = (poll_deadline-Obeys env ctx run).obeys w

-- After any sequence of starts, pauses, resumes, stops and ticks of the poller, on any runs and with
-- any answers from the outside, a run that was there still is, and its status was reached by
-- transitions of the state machine: pending to running, running to paused and back, and from each
-- status that is not terminal to a terminal one.
pub perform_all-Follows : (ms : List Method) (w : World) → Follows w (perform_all ms w)
unfolding perform_all
perform_all-Follows [] w = same-Follows w w (λ id. refl)
perform_all-Follows (m ∷ ms) w =
    Follows-trans w (perform m w) (perform_all ms (perform m w)) (perform-Follows m w)
      (perform_all-Follows ms (perform m w))
