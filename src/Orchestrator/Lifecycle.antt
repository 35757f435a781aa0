-- ===== src/Orchestrator/Lifecycle.antt =====
-- internal/orchestrator/orchestrator.go: StartRun, PauseRun, ResumeRun and StopRun.
use manteion_go.Base.{
  ℕ, ◌+◌, String, ◌==◌, Bool, true, false, not, ◌&&◌, ◌||◌, Option, none, some, List, [], ◌∷◌, ltb,
  length, is_nil, if◌then◌else◌,
}
use manteion_go.Base.Int.{pos, lez}
use manteion_go.Model.Trace.{is_none}
use manteion_go.Model.Experiment.{Experiment, ExperimentRun, RunStatus, is_baseline}
use manteion_go.Store.Runs.{
  is_pending, is_running, is_paused, is_completed, is_terminal, get_baseline_run,
}
use manteion_go.Orchestrator.World.{
  Ctx, child, AttackRequest, push_rules, preload, start_attack, stop_attack, harvest, Task, watch,
  poll, auto_stop, advance, Env, wrong_status, bad_stop_status, attack_failed, nil_client, M, ◌>>=◌,
  ◌>>◌, pure, fail, require, attempt, when, query, get_run, get_experiment, set_run_status,
  finalize, set_attacks, append_attack_id, call, go, new_ctx, fresh_id, register, cancel_handles,
  collect_services, each_call, enter_phase, attack_ids, has_attacks, ok,
}

-- preloadCacheEntries, in runner.go; the cache of a service may be empty, which Call leaves open.
unfoldable pub preload_cache : Ctx → ExperimentRun → M (Unit {0})
preload_cache ctx run = query ctx λ w. elim (get_baseline_run run.experiment_id w.db.runs) [
  | none ↦ (ok tt, w)
  | some base ↦ each_call (λ svc. preload base.id svc) (collect_services run) w
]

-- The request of startOneAttack, with the defaults of its method and its duration.
abbrev pub attack_request : String → ExperimentRun → Experiment → AttackRequest
attack_request id run exp = record {
  id = id;
  url = exp.target_url;
  method = if exp.target_method == "" then "GET" else exp.target_method;
  rate = exp.rate;
  duration_s = if lez exp.duration_sec (pos 0) then pos 30 else exp.duration_sec;
  meta_trace_id = run.meta_trace_id;
  experiment_id = exp.id;
  workflow_label = exp.primary_workflow_id;
}

-- startOneAttack: the ID is stored before Zeus is asked, and Zeus's own ID is preferred.
unfoldable pub start_one_attack : Env → Ctx → ExperimentRun → Experiment → M String
start_one_attack env ctx run exp = do
  id ← fresh_id env
  append_attack_id ctx run.id id
  call (start_attack (attack_request id run exp))
  elim (env.start_attack id) [
    | none ↦ fail attack_failed
    | some zeus_id ↦ pure (if not (zeus_id == "") && not (zeus_id == id) then zeus_id else id)
  ]

unfoldable pub start_zeus_attacks : Env → Ctx → ExperimentRun → M (List String)
unfolding start_one_attack
start_zeus_attacks env ctx run = do
  exp ← get_experiment ctx run.experiment_id
  if exp.target_url == ""
      then pure []
      else (do id ← start_one_attack env ctx run exp; pure (id ∷ []))

-- The run with the attacks that were started: what StartRun and ResumeRun do behind
-- `o.zeusClient != nil`. Errors are logged.
unfoldable pub record_attacks : Ctx → ExperimentRun → List String → M ExperimentRun
record_attacks ctx run [] = pure run
record_attacks ctx run (id ∷ ids) = do
  attempt (set_attacks ctx run.id (id ∷ ids)) tt
  pure (record run { zeus_attack_ids = id ∷ ids; zeus_attack_id = id })

unfoldable pub start_load : Env → Ctx → ExperimentRun → M ExperimentRun
unfolding start_zeus_attacks record_attacks
start_load env ctx run =
    if env.has_zeus
    then (do ids ← attempt (start_zeus_attacks env ctx run) []; record_attacks ctx run ids)
    else pure run

-- `if wants { ctx, cancel := context.WithCancel(…); go …(ctx, run) }`
unfoldable pub spawn : Bool → (Ctx → Task) → M (Option ℕ)
spawn true task = do c ← new_ctx; go (task (child c)); pure (some c)
spawn false task = pure none

-- The goroutines that drive a run, recorded in `o.running`. A run with none is completed at once.
unfoldable pub start_drivers : Bool → ExperimentRun → M (Unit {0})
unfolding spawn
start_drivers wants_watch run = do
  watcher ← spawn wants_watch (λ c. watch c run)
  poller ← spawn (has_attacks run) (λ c. poll c run)
  register run.id (record { watcher = watcher; poller = poller })
  when (is_none watcher && is_none poller) (go (auto_stop run.id))

unfoldable pub start_run : Env → Ctx → String → M (Unit {0})
unfolding preload_cache start_load start_drivers
start_run env ctx id = do
  run ← get_run ctx id
  require (is_pending run.status) wrong_status
  when (not (is_baseline run.run_type)) (attempt (preload_cache ctx run) tt)
  enter_phase env run 0
  set_run_status ctx id RunStatus.running
  run' ← start_load env ctx run
  start_drivers (ltb 1 (length run.phase_rules) && not (is_none run.transition_cond)) run'

unfoldable pub pause_run : Env → Ctx → String → M (Unit {0})
pause_run env ctx id = do
  run ← get_run ctx id
  require (is_running run.status) wrong_status
  cancel_handles id
  require (env.has_zeus || is_nil (attack_ids run)) nil_client
  each_call stop_attack (attack_ids run)
  set_run_status ctx id RunStatus.paused

-- A later phase is left, and a condition says when to enter it.
abbrev pub wants_watch : ExperimentRun → Bool
wants_watch run =
    ltb (run.current_phase + 1) (length run.phase_rules) && not (is_none run.transition_cond)

unfoldable pub resume_run : Env → Ctx → String → M (Unit {0})
unfolding start_load start_drivers
resume_run env ctx id = do
  run ← get_run ctx id
  require (is_paused run.status) wrong_status
  enter_phase env run run.current_phase
  set_run_status ctx id RunStatus.running
  run' ← start_load env ctx run
  start_drivers (wants_watch run) run'

-- The effects of StopRun on a run that is not terminal, before its status is written.
unfoldable pub release_run : Env → ExperimentRun → RunStatus → M (Unit {0})
release_run env run status = do
  each_call (λ svc. push_rules svc []) (collect_services run)
  when env.has_zeus (each_call stop_attack (attack_ids run))
  when (is_completed status) (require (env.has_zeus || is_nil (attack_ids run)) nil_client)
  when (is_completed status) (each_call (harvest run.id) (attack_ids run))

-- StopRun from there on: whichever call makes the run terminal also has the experiment advanced.
unfoldable pub finish_run : Env → Ctx → ExperimentRun → RunStatus → M (Unit {0})
unfolding release_run
finish_run env ctx run status = do
  release_run env run status
  transitioned ← finalize ctx run.id status
  when transitioned (go (advance run.experiment_id))

unfoldable pub stop_run : Env → Ctx → String → RunStatus → M (Unit {0})
unfolding finish_run
stop_run env ctx id status = do
  require (is_terminal status) bad_stop_status
  cancel_handles id
  run ← get_run ctx id
  if is_terminal run.status then pure tt else finish_run env ctx run status
