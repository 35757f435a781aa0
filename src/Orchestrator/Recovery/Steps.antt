-- ===== src/Orchestrator/Recovery/Steps.antt =====
-- internal/orchestrator/orchestrator.go: what the steps of Recover on a run do to that run, and that
-- they leave the others.
use mathlib.Core.Path.{subst}
use mathlib.Core.List.{Memᴰ, append_assoc}
use manteion_go.Base.{
  ℕ, suc, ◌≡◌, refl, sym, ap, ◌∙◌, inl, inr, String, Bool, true, false, ◌||◌, none, some, List, [],
  ◌∷◌, ◌++◌, Bool-cases, Option-cases, text_self,
}
use manteion_go.Base.Update.{update, update_self}
use manteion_go.Model.Experiment.{ExperimentRun, RunStatus}
use manteion_go.Store.Runs.{has_run, find_run, update_run_status, set_status}
use manteion_go.Store.Runs.Laws.{find_run-update_runs}
use manteion_go.Orchestrator.World.{
  Ctx, background, child, World, Handles, Task, watch, poll, auto_stop, Result, ok, ◌>>=◌, pure,
  attempt, settle, continue, query, set_run_status, has_attacks, new_ctx, go, modify, register,
  when, is_done,
}
use manteion_go.Orchestrator.Lifecycle.{start_drivers, spawn}
use manteion_go.Orchestrator.Keeps.{status_of}
use manteion_go.Orchestrator.Schedule.Kept.{HasNone}

-- A step that answers, asks nothing of another service, cancels nothing, ends no goroutine, and leaves
-- the handles and the rows of all other runs.
pub record Leaves (rs : List ExperimentRun) (w : World) (x : Result (Unit {0}) × World)
    : Type 0 where
  pub answers : x.0 ≡ ok tt
  pub calls : x.1.calls ≡ w.calls
  pub cancelled : x.1.cancelled ≡ w.cancelled
  pub tasks : (t : Task) → Memᴰ t w.tasks → Memᴰ t x.1.tasks
  pub running : (j : String) → HasNone j rs → x.1.running j ≡ w.running j
  pub rows : (j : String) → HasNone j rs → find_run j x.1.db.runs ≡ find_run j w.db.runs

pub done_same :
    (ctx : Ctx) (w w' : World)
    → w'.cancelled ≡ w.cancelled
    → is_done ctx w ≡ false
    → is_done ctx w' ≡ false
done_same background w w' e h = refl
done_same (child n) w w' e h = ap (λ f. f n) e ∙ h

mem_before {ℓ} : {A : Type ℓ} (a : A) (xs ys : List A) → Memᴰ a xs → Memᴰ a (xs ++ ys)
mem_before a [] ys i = elim i [ ]
mem_before a (x ∷ xs) ys (Memᴰ.head e) = Memᴰ.head e
mem_before a (x ∷ xs) ys (Memᴰ.tail i) = Memᴰ.tail (mem_before a xs ys i)

mem_after {ℓ} : {A : Type ℓ} (a : A) (xs ys : List A) → Memᴰ a ys → Memᴰ a (xs ++ ys)
mem_after a [] ys i = i
mem_after a (x ∷ xs) ys i = Memᴰ.tail (mem_after a xs ys i)

-- What start_drivers leaves: the handles, and the goroutines that were started.
record Started (wants : Bool) (run : ExperimentRun) (w : World) (x : Result (Unit {0}) × World)
    : Type 0 where
  pub handles : Handles
  pub more : List Task
  pub answers : x.0 ≡ ok tt
  pub calls : x.1.calls ≡ w.calls
  pub cancelled : x.1.cancelled ≡ w.cancelled
  pub db : x.1.db ≡ w.db
  pub running : x.1.running ≡ update w.running run.id (some handles)
  pub tasks : x.1.tasks ≡ w.tasks ++ more
  pub watched :
      wants ≡ true → (c : ℕ) × (handles.watcher ≡ some c) × Memᴰ (watch (child c) run) more
  pub polled :
      has_attacks run ≡ true → (c : ℕ) × (handles.poller ≡ some c) × Memᴰ (poll (child c) run) more
  pub stopped : (wants || has_attacks run) ≡ false → Memᴰ (auto_stop run.id) more

start_drivers-Started :
    (wants : Bool) (run : ExperimentRun) (w : World)
    → Started wants run w (start_drivers wants run w)
unfolding start_drivers spawn ◌>>=◌ continue new_ctx go modify pure register when
start_drivers-Started true run w = elim (Bool-cases (has_attacks run)) [
  | inl e ↦ record {
    handles = record { watcher = some w.next_ctx; poller = some (suc w.next_ctx) };
    more = watch (child w.next_ctx) run ∷ poll (child (suc w.next_ctx)) run ∷ [];
    answers = rw (e) refl;
    calls = rw (e) refl;
    cancelled = rw (e) refl;
    db = rw (e) refl;
    running = rw (e) refl;
    tasks = rw (e) (
        append_assoc w.tasks (watch (child w.next_ctx) run ∷ [])
          (poll (child (suc w.next_ctx)) run ∷ []));
    watched = λ h. (w.next_ctx, refl, Memᴰ.head refl);
    polled = λ h. (suc w.next_ctx, refl, Memᴰ.tail (Memᴰ.head refl));
    stopped = λ h. cc;
  }
  | inr e ↦ record {
    handles = record { watcher = some w.next_ctx; poller = none };
    more = watch (child w.next_ctx) run ∷ [];
    answers = rw (e) refl;
    calls = rw (e) refl;
    cancelled = rw (e) refl;
    db = rw (e) refl;
    running = rw (e) refl;
    tasks = rw (e) refl;
    watched = λ h. (w.next_ctx, refl, Memᴰ.head refl);
    polled = λ h. cc;
    stopped = λ h. cc;
  }
]
start_drivers-Started false run w = elim (Bool-cases (has_attacks run)) [
  | inl e ↦ record {
    handles = record { watcher = none; poller = some w.next_ctx };
    more = poll (child w.next_ctx) run ∷ [];
    answers = rw (e) refl;
    calls = rw (e) refl;
    cancelled = rw (e) refl;
    db = rw (e) refl;
    running = rw (e) refl;
    tasks = rw (e) refl;
    watched = λ h. cc;
    polled = λ h. (w.next_ctx, refl, Memᴰ.head refl);
    stopped = λ h. cc;
  }
  | inr e ↦ record {
    handles = record { watcher = none; poller = none };
    more = auto_stop run.id ∷ [];
    answers = rw (e) refl;
    calls = rw (e) refl;
    cancelled = rw (e) refl;
    db = rw (e) refl;
    running = rw (e) refl;
    tasks = rw (e) refl;
    watched = λ h. cc;
    polled = λ h. cc;
    stopped = λ h. Memᴰ.head refl;
  }
]

-- The run has its handles, a watcher exactly as wanted and a poller exactly where it has attacks, each
-- with its goroutine; or, with neither, a goroutine that completes it.
pub record IsDriven (wants : Bool) (run : ExperimentRun) (w : World) : Type 0 where
  pub handles : Handles
  pub registered : w.running run.id ≡ some handles
  pub watched :
      wants ≡ true → (c : ℕ) × (handles.watcher ≡ some c) × Memᴰ (watch (child c) run) w.tasks
  pub polled :
      has_attacks run ≡ true
      → (c : ℕ) × (handles.poller ≡ some c) × Memᴰ (poll (child c) run) w.tasks
  pub stopped : (wants || has_attacks run) ≡ false → Memᴰ (auto_stop run.id) w.tasks

pub start_drivers-IsDriven :
    (wants : Bool) (run : ExperimentRun) (w : World)
    → Leaves (run ∷ []) w (start_drivers wants run w)
      × IsDriven wants run (start_drivers wants run w).1
      × ((start_drivers wants run w).1.db ≡ w.db)
start_drivers-IsDriven wants run w =
    let s = start_drivers-Started wants run w in
    let into : (t : Task) → Memᴰ t s.more → Memᴰ t (start_drivers wants run w).1.tasks =
      λ t i. subst (λ ts. Memᴰ t ts) (sym s.tasks) (mem_after t w.tasks s.more i) in
    (
      record {
        answers = s.answers;
        calls = s.calls;
        cancelled = s.cancelled;
        tasks = λ t i. subst (λ ts. Memᴰ t ts) (sym s.tasks) (mem_before t w.tasks s.more i);
        running = λ j other. ap (λ f. f j) s.running ∙ rw (other.0) refl;
        rows = λ j other. ap (λ db. find_run j db.runs) s.db;
      },
      record {
        handles = s.handles;
        registered = ap (λ f. f run.id) s.running ∙ update_self w.running run.id (some s.handles);
        watched = λ h. let (c, e, i) = s.watched h in (c, e, into (watch (child c) run) i);
        polled = λ h. let (c, e, i) = s.polled h in (c, e, into (poll (child c) run) i);
        stopped = λ h. into (auto_stop run.id) (s.stopped h);
      },
      s.db,
    )

-- The write of the status `failed`, in a live context and of a run that is there.
pub fail_run-Leaves :
    (ctx : Ctx) (run : ExperimentRun) (w : World)
    → is_done ctx w ≡ false
    → has_run run.id w.db.runs ≡ true
    → Leaves (run ∷ []) w (attempt (set_run_status ctx run.id RunStatus.failed) tt w)
      × (status_of run.id (attempt (set_run_status ctx run.id RunStatus.failed) tt w).1
          ≡ some RunStatus.failed)
unfolding attempt settle set_run_status query pure update_run_status
fail_run-Leaves ctx run w live there =
    let f = set_status RunStatus.failed w.now in
    (
      record {
        answers = rw (live, there) refl;
        calls = rw (live, there) refl;
        cancelled = rw (live, there) refl;
        tasks = λ t i. rw (live, there) i;
        running = λ j other. rw (live, there) refl;
        rows = λ j other.
            rw (live, there)
              (rw (find_run-update_runs run.id j f w.db.runs (λ r. refl), other.0) refl);
      },
      elim (Option-cases (find_run run.id w.db.runs)) [
        | inl gone ↦ let there' = rw (has_run, gone) at there in cc
        | inr (r, found) ↦
            rw (live, there)
              (rw
                (
                  find_run-update_runs run.id run.id f w.db.runs (λ r. refl),
                  text_self run.id,
                  found,
                )
                refl)
      ],
    )
