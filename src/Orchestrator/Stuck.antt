-- ===== src/Orchestrator/Stuck.antt =====
-- internal/orchestrator: what StopRun does when the goroutine that it cancels is its own caller.
use manteion_go.Base.{
  ℕ, String, Bool, true, false, ◌||◌, Option, none, some, ◌≡◌, refl, ◌⊎◌, inl, inr, List, [], ◌∷◌,
  arith, Bool-cases, Option-cases, eq→eqb,
}
use manteion_go.Base.Update.{update, update_self}
use manteion_go.Model.Experiment.{ExperimentRun, RunStatus}
use manteion_go.Store.Runs.{is_terminal, find_run}
use manteion_go.Orchestrator.World.{
  Ctx, child, Handles, Call, harvest, World, Env, Result, ok, err, canceled, M, ◌>>=◌, settle, pure,
  require, attempt, query, get_run, cancel, cancel_handles, each_call, call, modify, is_done,
  attack_ids,
}
use manteion_go.Orchestrator.Lifecycle.{stop_run}
use manteion_go.Orchestrator.Drivers.{poll_done, poll_tick, check_attack_statuses}

-- The context is the one that a goroutine of the run was given.
abbrev pub Drives : ℕ → Handles → Type 0
Drives c h = (h.poller ≡ some c) ⊎ (h.watcher ≡ some c)

cancel_self : (c : ℕ) (done : ℕ → Bool) → cancel (some c) done c ≡ true
cancel_self c done = rw (eq→eqb c c refl)

cancel_keeps : (o : Option ℕ) (c : ℕ) (done : ℕ → Bool) → done c ≡ true → cancel o done c ≡ true
cancel_keeps none c done h = h
cancel_keeps (some d) c done h = ground arith

cancel_all_done :
    (c : ℕ) (h : Handles) (done : ℕ → Bool)
    → Drives c h
    → cancel h.poller (cancel h.watcher done) c ≡ true
cancel_all_done c h done (inl e) = rw e (cancel_self c (cancel h.watcher done))
cancel_all_done c h done (inr e) =
    cancel_keeps h.poller c (cancel h.watcher done) (rw e (cancel_self c done))

-- The world after cancelAll and the deletion of the handles.
abbrev pub deregistered : String → Handles → World → World
deregistered id h w = record w {
  running = update w.running id none;
  cancelled = cancel h.poller (cancel h.watcher w.cancelled);
}

-- A goroutine of the run that stops it, in the context that it was given, has cancelled that context
-- before the run is read: StopRun answers with the context's error, no row is changed, no service's
-- rules are cleared, no goroutine started, and the run has no handles any more.
pub stop_run_own_context :
    (env : Env) (c : ℕ) (id : String) (status : RunStatus) (h : Handles) (w : World)
    → w.running id ≡ some h
    → Drives c h
    → is_terminal status ≡ true
    → stop_run env (child c) id status w ≡ (err canceled, deregistered id h w)
unfolding stop_run get_run query ◌>>=◌ require cancel_handles
stop_run_own_context env c id status h w registered drives last =
    rw (last, registered, cancel_all_done c h w.cancelled drives) refl

-- The part of the state that holds the rows, the handles and the contexts.
abbrev SameState : World → World → Type 0
SameState u w = (u.db ≡ w.db) × (u.running ≡ w.running) × (u.cancelled ≡ w.cancelled)

each_call-SameState :
    {A : Type 0} (f : A → Call) (xs : List A) (w : World) → SameState (each_call f xs w).1 w
unfolding each_call call ◌>>=◌ modify pure
each_call-SameState f [] w = (refl, refl, refl)
each_call-SameState f (x ∷ xs) w = each_call-SameState f xs _

-- The harvest of the poller's tick, whose errors are dropped.
unfoldable harvest_latest : Ctx → ExperimentRun → M (Unit {0})
harvest_latest ctx run =
    attempt (get_run ctx run.id >>= λ latest. each_call (harvest run.id) (attack_ids latest)) tt

settled :
    (r : Result (Unit {0})) (u w : World)
    → SameState u w
    → (v : World) × (settle r tt u ≡ (ok tt, v)) × SameState v w
unfolding settle pure
settled (ok a) u w p = (u, refl, p)
settled (err e) u w p = (u, refl, p)

harvest_latest-SameState :
    (ctx : Ctx) (run : ExperimentRun) (w : World)
    → (v : World) × (harvest_latest ctx run w ≡ (ok tt, v)) × SameState v w
unfolding harvest_latest attempt settle get_run query ◌>>=◌
harvest_latest-SameState ctx run w = elim (Bool-cases (is_done ctx w)) [
  | inl done ↦ rw done (w, refl, (refl, refl, refl))
  | inr live ↦ elim (Option-cases (find_run run.id w.db.runs)) [
    | inl missing ↦ rw (live, missing) (w, refl, (refl, refl, refl))
    | inr (r, found) ↦
        rw (live, found)
          (settled (each_call (harvest run.id) (attack_ids r) w).0
            (each_call (harvest run.id) (attack_ids r) w).1 w
            (each_call-SameState (harvest run.id) (attack_ids r) w))
  ]
]

-- What the poller leaves behind: the rows of runs and experiments as they were, and no handles.
abbrev pub Abandons : String → World → World → Type 0
Abandons id w w' = (w'.db ≡ w.db) × (w'.running id ≡ none)

poll_done-Abandons :
    (env : Env) (c : ℕ) (run : ExperimentRun) (h : Handles) (w : World)
    → w.running run.id ≡ some h
    → Drives c h
    → (v : World) × (poll_done env (child c) run w ≡ (ok tt, v)) × Abandons run.id w v
unfolding poll_done ◌>>=◌ harvest_latest attempt settle pure
poll_done-Abandons env c run h w registered drives =
    let (v, e, (same, handles, done)) = harvest_latest-SameState (child c) run w in
    let here : v.running run.id ≡ some h = rw handles registered in
    (
      deregistered run.id h v,
      rw (e, stop_run_own_context env c run.id RunStatus.completed h v here drives refl) refl,
      (same, update_self v.running run.id none),
    )

-- A tick of the poller, in its own context, that finds an attack failed or all attacks ended: the
-- goroutine ends and the handles are gone, but the rows of runs and experiments are as they were, so
-- the run stays `running`. The results that a harvest adds are not among these rows.
pub poll_tick-Abandons :
    (env : Env) (c : ℕ) (run : ExperimentRun) (h : Handles) (w : World)
    → w.running run.id ≡ some h
    → Drives c h
    → ((check_attack_statuses env run).0 || (check_attack_statuses env run).1) ≡ true
    → (v : World) × (poll_tick env (child c) run w ≡ (ok false, v)) × Abandons run.id w v
unfolding poll_tick ◌>>=◌ attempt settle pure
poll_tick-Abandons env c run h w registered drives over =
    elim (Bool-cases (check_attack_statuses env run).1) [
      | inl failed ↦ (
        deregistered run.id h w,
        rw (failed, stop_run_own_context env c run.id RunStatus.failed h w registered drives refl)
            refl,
        (refl, update_self w.running run.id none),
      )
      | inr well ↦
          let (v, e, gone) = poll_done-Abandons env c run h w registered drives in
          let all_ended : (check_attack_statuses env run).0 ≡ true = ground arith in
          (v, rw (well, all_ended, e) refl, gone)
    ]
