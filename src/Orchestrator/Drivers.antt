-- ===== src/Orchestrator/Drivers.antt =====
-- internal/orchestrator/runner.go and poller.go: the goroutines that drive a run. Each function here
-- is what one tick does, once the answers that it waited for are there.
use manteion_go.Base.{
  ℕ, suc, ◌+◌, String, Bool, true, false, not, ◌||◌, none, some, List, [], ◌∷◌, length, eqb, leb,
  is_nil, if◌then◌else◌,
}
use manteion_go.Base.Update.{update}
use manteion_go.Model.Experiment.{ExperimentRun, RunStatus}
use manteion_go.Orchestrator.World.{
  Ctx, child, harvest, watch, Env, attack_pending, attack_running, attack_completed, attack_stopped,
  unexpected, M, ◌>>=◌, ◌>>◌, pure, attempt, when, get_run, set_run_phase, go, new_ctx, each_call,
  enter_phase, attack_ids, cancel, ok, err,
}
use manteion_go.Orchestrator.Lifecycle.{stop_run, wants_watch}

-- checkAttackStatuses over the IDs: how many attacks ended, and whether one failed.
unfoldable pub count_ended : Env → List String → ℕ × Bool
count_ended env [] = (0, false)
count_ended env (id ∷ ids) =
    let (ended, failed) = count_ended env ids in
    elim (env.get_attack id) [
      | none ↦ (ended, failed)
      | some attack_completed ↦ (suc ended, failed)
      | some attack_stopped ↦ (suc ended, failed)
      | some attack_pending ↦ (ended, failed)
      | some attack_running ↦ (ended, failed)
      | some unexpected ↦ (ended, true)
    ]

-- checkAttackStatuses: all attacks ended, one failed.
unfoldable pub check_attack_statuses : Env → ExperimentRun → Bool × Bool
unfolding count_ended
check_attack_statuses env run =
    if is_nil (attack_ids run) || not env.has_zeus
    then (false, false)
    else (let (ended, failed) = count_ended env (attack_ids run) in
        (eqb ended (length (attack_ids run)), failed))

-- The poller's tick where all attacks have ended: results are harvested, which is a call here, and
-- the run is stopped. The rows that the harvest inserts are those of Orchestrator.Harvest.
unfoldable pub poll_done : Env → Ctx → ExperimentRun → M (Unit {0})
poll_done env ctx run = do
  attempt (do latest ← get_run ctx run.id; each_call (harvest run.id) (attack_ids latest)) tt
  attempt (stop_run env ctx run.id RunStatus.completed) tt

-- One tick of pollZeusStatus, in the poller's own context: whether the goroutine goes on.
unfoldable pub poll_tick : Env → Ctx → ExperimentRun → M Bool
unfolding check_attack_statuses poll_done
poll_tick env ctx run =
    let (done, failed) = check_attack_statuses env run in
    if failed
    then (do attempt (stop_run env ctx run.id RunStatus.failed) tt; pure false)
    else if done
    then (do poll_done env ctx run; pure false)
    else pure true

-- The deadline of pollZeusStatus.
unfoldable pub poll_deadline : Env → Ctx → ExperimentRun → M (Unit {0})
poll_deadline env ctx run = attempt (stop_run env ctx run.id RunStatus.failed) tt

-- The handles of the run, with its watcher replaced; without handles the new watcher is cancelled.
unfoldable pub rebind_watcher : String → ℕ → M (Unit {0})
rebind_watcher id c w = elim (w.running id) [
  | none ↦ (ok tt, record w { cancelled = cancel (some c) w.cancelled })
  | some h ↦ (
    ok tt,
    record w {
      running = update w.running id (some (record h { watcher = some c }));
      cancelled = cancel h.watcher w.cancelled;
    },
  )
]

-- advancePhase behind a successful enterPhase.
unfoldable pub next_phase : Ctx → ExperimentRun → M (Unit {0})
unfolding rebind_watcher
next_phase ctx run =
    let run' = record run { current_phase = run.current_phase + 1 } in
    do
      attempt (set_run_phase ctx run.id run'.current_phase) tt
      when (wants_watch run') (do c ← new_ctx; rebind_watcher run.id c; go (watch (child c) run'))

-- advancePhase: called by the watcher, in its context.
unfoldable pub advance_phase : Env → Ctx → ExperimentRun → M (Unit {0})
unfolding next_phase
advance_phase env ctx run =
    if leb (length run.phase_rules) (run.current_phase + 1)
    then attempt (stop_run env ctx run.id RunStatus.completed) tt
    else λ w.
        let (r, w') = enter_phase env run (run.current_phase + 1) w in
        elim r [
          | ok _ ↦ next_phase ctx run w'
          | err e ↦ attempt (stop_run env ctx run.id RunStatus.failed) tt w'
        ]
