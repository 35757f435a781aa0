-- ===== src/Orchestrator/Recovery/Restores.antt =====
-- internal/orchestrator/orchestrator.go: Recover leaves no run in flight without drivers.
use mathlib.Core.Path.{subst}
use manteion_go.Base.{
  ℕ, ◌≡◌, refl, sym, ap, ◌∙◌, inl, inr, String, ◌==◌, Bool, true, false, ◌&&◌, some, List, [], ◌∷◌,
  Bool-cases, All,
}
use manteion_go.Model.Experiment.{ExperimentRun, RunStatus}
use manteion_go.Store.Runs.{is_paused, has_run, find_run}
use manteion_go.Store.Experiments.{list_runs_by_status}
use manteion_go.Orchestrator.World.{
  Ctx, Env, World, Result, ok, ◌>>=◌, pure, attempt, continue, query, set_run_status, has_attacks,
  is_done,
}
use manteion_go.Orchestrator.Lifecycle.{start_drivers, wants_watch}
use manteion_go.Orchestrator.Keeps.{status_in, status_of}
use manteion_go.Orchestrator.Schedule.Kept.{HasNone, IsDistinct, different}
use manteion_go.Orchestrator.Recovery.{lost_all, recover_run, recover_runs, recover}
use manteion_go.Orchestrator.Recovery.Listed.{all_found, listed, listed-IsDistinct}
use manteion_go.Orchestrator.Recovery.Steps.{
  Leaves, done_same, IsDriven, start_drivers-IsDriven, fail_run-Leaves,
}

-- The handles and the row of a run are as they were.
abbrev pub SameRun : String → World → World → Type 0
SameRun id w w' = (w'.running id ≡ w.running id) × (find_run id w'.db.runs ≡ find_run id w.db.runs)

module _ (checks : String → ℕ → Bool) (env : Env) where
  -- Zeus does not know any of the run's attacks.
  abbrev pub is_lost : ExperimentRun → Bool
  is_lost run = env.has_zeus && lost_all checks run && has_attacks run

  -- What becomes of a run that was in flight: a paused one is left as it is, one whose attacks are lost
  -- is failed, and any other one keeps its row and has its drivers.
  pub record IsRestored (run : ExperimentRun) (w w' : World) : Type 0 where
    pub paused : is_paused run.status ≡ true → SameRun run.id w w'
    pub lost :
        is_paused run.status ≡ false
        → is_lost run ≡ true
        → status_of run.id w' ≡ some RunStatus.failed
    pub driven :
        is_paused run.status ≡ false
        → is_lost run ≡ false
        → IsDriven (wants_watch run) run w'
          × (find_run run.id w'.db.runs ≡ find_run run.id w.db.runs)

  same_step : (rs : List ExperimentRun) (w : World) → Leaves rs w (ok tt, w)
  same_step rs w = record {
    answers = refl;
    calls = refl;
    cancelled = refl;
    tasks = λ t i. i;
    running = λ j h. refl;
    rows = λ j h. refl;
  }

  recovers :
      (ctx : Ctx) (run : ExperimentRun) (w : World)
      → is_done ctx w ≡ false
      → has_run run.id w.db.runs ≡ true
      → Leaves (run ∷ []) w (recover_run checks env ctx run w)
        × IsRestored run w (recover_run checks env ctx run w).1
  unfolding recover_run pure
  recovers ctx run w live there = elim (Bool-cases (is_paused run.status)) [
    | inl p ↦
        let e : recover_run checks env ctx run w ≡ (ok tt, w) = rw (recover_run, p) refl in
        (
          subst (Leaves (run ∷ []) w) (sym e) (same_step (run ∷ []) w),
          subst (λ (x : Result (Unit {0}) × World). IsRestored run w x.1) (sym e)
              (record { paused = λ h. (refl, refl); lost = λ h l. cc; driven = λ h l. cc }),
        )
    | inr p ↦ elim (Bool-cases (is_lost run)) [
      | inl l ↦
          let x = attempt (set_run_status ctx run.id RunStatus.failed) tt w in
          let e : recover_run checks env ctx run w ≡ x = rw (recover_run, p, l) refl in
          let (leaves, failed) = fail_run-Leaves ctx run w live there in
          (
            subst (Leaves (run ∷ []) w) (sym e) leaves,
            subst (λ (x : Result (Unit {0}) × World). IsRestored run w x.1) (sym e)
                (record { paused = λ h. cc; lost = λ h k. failed; driven = λ h k. cc }),
          )
      | inr l ↦
          let x = start_drivers (wants_watch run) run w in
          let e : recover_run checks env ctx run w ≡ x = rw (recover_run, p, l) refl in
          let (leaves, drivers, same) = start_drivers-IsDriven (wants_watch run) run w in
          (
            subst (Leaves (run ∷ []) w) (sym e) leaves,
            subst (λ (x : Result (Unit {0}) × World). IsRestored run w x.1) (sym e)
                (record {
                  paused = λ h. cc;
                  lost = λ h k. cc;
                  driven = λ h k. (drivers, ap (λ db. find_run run.id db.runs) same);
                }),
          )
    ]
  ]

  -- A later step on other runs.
  still_IsRestored :
      (run : ExperimentRun) (rs : List ExperimentRun) (w w1 : World) (x : Result (Unit {0}) × World)
      → HasNone run.id rs
      → Leaves rs w1 x
      → IsRestored run w w1
      → IsRestored run w x.1
  still_IsRestored run rs w w1 x new leaves r = record {
    paused = λ h.
        let (handles, row) = r.paused h in
        (leaves.running run.id new ∙ handles, leaves.rows run.id new ∙ row);
    lost = λ h l. ap status_in (leaves.rows run.id new) ∙ r.lost h l;
    driven = λ h l.
        let (d, row) = r.driven h l in
        (
          record {
            handles = d.handles;
            registered = leaves.running run.id new ∙ d.registered;
            watched = λ k. let (c, e, i) = d.watched k in (c, e, leaves.tasks _ i);
            polled = λ k. let (c, e, i) = d.polled k in (c, e, leaves.tasks _ i);
            stopped = λ k. leaves.tasks _ (d.stopped k);
          },
          leaves.rows run.id new ∙ row,
        );
  }

  -- An earlier step on another run.
  since_IsRestored :
      (run : ExperimentRun) (w w1 w2 : World)
      → SameRun run.id w w1
      → IsRestored run w1 w2
      → IsRestored run w w2
  since_IsRestored run w w1 w2 (handles, row) r = record {
    paused = λ h. let (handles', row') = r.paused h in (handles' ∙ handles, row' ∙ row);
    lost = r.lost;
    driven = λ h l. let (d, row') = r.driven h l in (d, row' ∙ row);
  }

  since_all :
      (id : String) (rs : List ExperimentRun) (w w1 w2 : World)
      → HasNone id rs
      → ((j : String) → (id == j) ≡ false → SameRun j w w1)
      → All (λ r. IsRestored r w1 w2) rs
      → All (λ r. IsRestored r w w2) rs
  since_all id [] w w1 w2 new same h = tt
  since_all id (r ∷ rs) w w1 w2 (new, news) same (h, hs) = (
    since_IsRestored r w w1 w2 (same r.id (different r.id id new)) h,
    since_all id rs w w1 w2 news same hs,
  )

  there_still :
      (id : String) (rs : List ExperimentRun) (w w1 : World)
      → HasNone id rs
      → ((j : String) → (id == j) ≡ false → SameRun j w w1)
      → All (λ r. has_run r.id w.db.runs ≡ true) rs
      → All (λ r. has_run r.id w1.db.runs ≡ true) rs
  there_still id [] w w1 new same h = tt
  there_still id (r ∷ rs) w w1 (new, news) same (h, hs) =
      (rw (has_run, (same r.id (different r.id id new)).1) h, there_still id rs w w1 news same hs)

  recovers_all :
      (ctx : Ctx) (rs : List ExperimentRun) (w : World)
      → is_done ctx w ≡ false
      → IsDistinct rs
      → All (λ r. has_run r.id w.db.runs ≡ true) rs
      → Leaves rs w (recover_runs checks env ctx rs w)
        × All (λ r. IsRestored r w (recover_runs checks env ctx rs w).1) rs
  unfolding recover_runs pure ◌>>=◌ continue
  recovers_all ctx [] w live d there = (same_step [] w, tt)
  recovers_all ctx (run ∷ rs) w live (new, d) (here, there) =
      let (step, restored) = recovers ctx run w live here in
      let w1 = (recover_run checks env ctx run w).1 in
      let same : (j : String) → (run.id == j) ≡ false → SameRun j w w1 =
        λ j other. (step.running j (other, tt), step.rows j (other, tt)) in
      let (rest, restored') =
        recovers_all ctx rs w1 (done_same ctx w w1 step.cancelled live) d
          (there_still run.id rs w w1 new same there) in
      let x = recover_runs checks env ctx rs w1 in
      let e : recover_runs checks env ctx (run ∷ rs) w ≡ x = rw (recover_runs, step.answers) refl in
      (
        subst (Leaves (run ∷ rs) w) (sym e) (record {
          answers = rest.answers;
          calls = rest.calls ∙ step.calls;
          cancelled = rest.cancelled ∙ step.cancelled;
          tasks = λ t i. rest.tasks t (step.tasks t i);
          running = λ j h. rest.running j h.1 ∙ (same j h.0).0;
          rows = λ j h. rest.rows j h.1 ∙ (same j h.0).1;
        }),
        subst (λ (y : Result (Unit {0}) × World). All (λ r. IsRestored r w y.1) (run ∷ rs)) (sym e)
            (
              still_IsRestored run rs w w1 x new rest restored,
              since_all run.id rs w w1 x.1 new same restored',
            ),
      )

  -- Where its context is not done and the runs have different IDs, Recover succeeds and asks nothing of
  -- SDK instances. Each run that was paused is left as it is, each that was running and has lost all
  -- its attacks is failed, and each other one that was running keeps its row and has its handles, with
  -- the goroutine of a watcher where a later phase awaits its condition and that of a poller where it
  -- has attacks, or one that completes it where it has neither.
  pub recover-IsRestored :
      (ctx : Ctx) (w : World)
      → is_done ctx w ≡ false
      → IsDistinct w.db.runs
      → let runs = list_runs_by_status (RunStatus.running ∷ RunStatus.paused ∷ []) w.db in
        let x = recover checks env ctx w in
        (x.0 ≡ ok tt) × (x.1.calls ≡ w.calls) × All (λ r. IsRestored r w x.1) runs
  unfolding recover ◌>>=◌ continue query list_runs_by_status
  recover-IsRestored ctx w live distinct =
      let ss = RunStatus.running ∷ RunStatus.paused ∷ [] in
      let runs = list_runs_by_status ss w.db in
      let e : recover checks env ctx w ≡ recover_runs checks env ctx runs w =
        rw (recover, live) refl in
      let (leaves, restored) =
        recovers_all ctx runs w live (listed-IsDistinct ss w.db.runs distinct)
          (listed (λ r. has_run r.id w.db.runs ≡ true) ss w.db.runs (all_found w.db.runs)) in
      (
        ap (λ x. x.0) e ∙ leaves.answers,
        ap (λ x. x.1.calls) e ∙ leaves.calls,
        subst (λ (x : Result (Unit {0}) × World). All (λ r. IsRestored r w x.1) runs) (sym e)
            restored,
      )
