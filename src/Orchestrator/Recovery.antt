-- ===== src/Orchestrator/Recovery.antt =====
-- internal/orchestrator/orchestrator.go: Recover, which restores the drivers of the runs that were in
-- flight when the process ended. Whether the n-th check of an attack finds it at Zeus is a parameter.
pub mod Listed
pub mod Steps
pub mod Restores
use manteion_go.Base.{
  ℕ, suc, ◌+◌, String, Bool, true, false, not, ◌&&◌, ◌||◌, List, [], ◌∷◌, length, eqb, is_nil,
  if◌then◌else◌,
}
use manteion_go.Model.Experiment.{ExperimentRun, RunStatus}
use manteion_go.Store.Runs.{is_paused}
use manteion_go.Store.Experiments.{list_runs_by_status}
use manteion_go.Orchestrator.World.{
  Ctx, Env, M, ok, ◌>>=◌, ◌>>◌, pure, attempt, query, set_run_status, attack_ids, has_attacks,
}
use manteion_go.Orchestrator.Lifecycle.{start_drivers, wants_watch}

module _ (checks : String → ℕ → Bool) where
  -- reconcileOneAttack: one of three checks finds the attack.
  abbrev pub reconcile_one_attack : String → Bool
  reconcile_one_attack id = checks id 0 || checks id 1 || checks id 2

  unfoldable pub count_lost : List String → ℕ
  count_lost [] = 0
  count_lost (id ∷ ids) =
      let rest = count_lost ids in if reconcile_one_attack id then rest else suc rest

  -- reconcileAttacks: whether all attacks of the run are lost.
  unfoldable pub lost_all : ExperimentRun → Bool
  unfolding count_lost
  lost_all run =
      not (is_nil (attack_ids run)) && eqb (count_lost (attack_ids run)) (length (attack_ids run))

  -- The loop's body.
  unfoldable pub recover_run : Env → Ctx → ExperimentRun → M (Unit {0})
  unfolding lost_all start_drivers
  recover_run env ctx run =
      if is_paused run.status
      then pure tt
      else if env.has_zeus && lost_all run && has_attacks run
      then attempt (set_run_status ctx run.id RunStatus.failed) tt
      else start_drivers (wants_watch run) run

  unfoldable pub recover_runs : Env → Ctx → List ExperimentRun → M (Unit {0})
  unfolding recover_run
  recover_runs env ctx [] = pure tt
  recover_runs env ctx (r ∷ rs) = do recover_run env ctx r; recover_runs env ctx rs

  unfoldable pub recover : Env → Ctx → M (Unit {0})
  unfolding recover_runs list_runs_by_status
  recover env ctx = do
    runs ←
        query ctx
          (λ w. (ok (list_runs_by_status (RunStatus.running ∷ RunStatus.paused ∷ []) w.db), w))
    recover_runs env ctx runs
