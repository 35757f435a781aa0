-- ===== src/Orchestrator/Follows.antt =====
-- internal/orchestrator: the state machine of a run's status, and how to tell that a method follows
-- it whatever it answers.
use manteion_go.Base.{
  ℕ, String, ◌==◌, Bool, true, false, none, some, ◌≡◌, refl, ◌∙◌, ap, inl, inr, arith, Bool-cases,
  Option-cases, if◌then◌else◌, text-cases,
}
use manteion_go.Model.Experiment.{ExperimentRun, RunStatus}
use manteion_go.Store.Runs.{
  find_run, is_terminal, update_runs, set_status, set_final, update_run_status, finalize_run_status,
  has_run,
}
use manteion_go.Store.Runs.Laws.{find_run-update_runs, map_run}
use manteion_go.Orchestrator.World.{
  Ctx, World, Result, ok, err, Failure, M, ◌>>=◌, ◌>>◌, continue, settle, require, attempt, is_done,
  query, get_run, set_run_status, finalize,
}
use manteion_go.Orchestrator.Keeps.{Keeps, status_in, status_of, SameStatuses}

-- The transitions of a run's status.
pub data Allowed : RunStatus → RunStatus → Type 0 where
  start : Allowed RunStatus.pending RunStatus.running
  pause : Allowed RunStatus.running RunStatus.paused
  resume : Allowed RunStatus.paused RunStatus.running
  stop : {s t : RunStatus} → is_terminal s ≡ false → is_terminal t ≡ true → Allowed s t

-- Some transitions, one after another.
pub data Route : RunStatus → RunStatus → Type 0 where
  stay : {s : RunStatus} → Route s s
  step : {s t u : RunStatus} → Allowed s t → Route t u → Route s u

pub Route-append : {s t u : RunStatus} → Route s t → Route t u → Route s u
Route-append stay q = q
Route-append (step a p) q = step a (Route-append p q)

-- Every run is still there, and transitions lead to its status.
abbrev pub Follows : World → World → Type 0
Follows w w' =
    (id : String) (s : RunStatus)
    → status_of id w ≡ some s
    → (t : RunStatus) × (status_of id w' ≡ some t) × Route s t

pub Follows-trans : (u v w : World) → Follows u v → Follows v w → Follows u w
Follows-trans u v w f g id s h =
    let (t, at, p) = f id s h in let (r, at', q) = g id t at in (r, at', Route-append p q)

pub same-Follows : (w w' : World) → SameStatuses w w' → Follows w w'
same-Follows w w' same id s h = (s, same id ∙ h, stay)

-- Whatever the method answers, and wherever it stops, the statuses follow the state machine.
pub record Obeys {A : Type 0} (m : M A) : Type 0 where
  pub obeys : (w : World) → Follows w (m w).1

-- The same where the run has the status.
pub record ObeysAt {A : Type 0} (id : String) (s : RunStatus) (m : M A) : Type 0 where
  pub obeys : (w : World) → status_of id w ≡ some s → Follows w (m w).1

pub Keeps-Obeys : {A : Type 0} {m : M A} → Keeps m → Obeys m
Keeps-Obeys {A} {m} k = record { obeys = λ w. same-Follows w (m w).1 (k.keeps w) }

pub >>=-Obeys :
    {A B : Type 0} {m : M A} {f : A → M B} → Obeys m → ((a : A) → Obeys (f a)) → Obeys (m >>= f)
unfolding ◌>>=◌
>>=-Obeys {A} {B} {m} {f} k h = record {
  obeys = λ w.
      Follows-trans w (m w).1 (continue (m w).0 f (m w).1).1 (k.obeys w) (after (m w).0 (m w).1);
}
  where
    after : (r : Result A) (w : World) → Follows w (continue r f w).1
    after (ok a) w = (h a).obeys w
    after (err e) w = same-Follows w w (λ id. refl)

pub attempt-Obeys : {A : Type 0} {m : M A} (a : A) → Obeys m → Obeys (attempt m a)
unfolding attempt
attempt-Obeys {A} {m} a k = record {
  obeys =
      λ w. Follows-trans w (m w).1 (settle (m w).0 a (m w).1).1 (k.obeys w) (after (m w).0 (m w).1);
}
  where
    after : (r : Result A) (w : World) → Follows w (settle r a w).1
    after (ok b) w = same-Follows w w (λ id. refl)
    after (err e) w = same-Follows w w (λ id. refl)

pub if-Obeys : {A : Type 0} {m n : M A} (b : Bool) → Obeys m → Obeys n → Obeys (if b then m else n)
if-Obeys true k l = k
if-Obeys false k l = l

-- A method that goes on only behind a test.
pub require-Obeys :
    {B : Type 0} (b : Bool) (e : Failure) {m : M B}
    → (b ≡ true → Obeys m)
    → Obeys (require b e >> m)
unfolding require ◌>>=◌
require-Obeys true e k = record { obeys = λ w. (k refl).obeys w }
require-Obeys false e k = record { obeys = λ w. same-Follows w w (λ id. refl) }

-- Steps that change no status may come before a step that relies on it, and any that obey after it.
pub >>=-ObeysAt :
    {A B : Type 0} {id : String} {s : RunStatus} {m : M A} {f : A → M B}
    → Keeps m
    → ((a : A) → ObeysAt id s (f a))
    → ObeysAt id s (m >>= f)
unfolding ◌>>=◌
>>=-ObeysAt {A} {B} {id} {s} {m} {f} k h = record {
  obeys = λ w e.
      Follows-trans w (m w).1 (continue (m w).0 f (m w).1).1 (same-Follows w (m w).1 (k.keeps w))
        (after (m w).0 (m w).1 (k.keeps w id ∙ e));
}
  where
    after : (r : Result A) (w : World) → status_of id w ≡ some s → Follows w (continue r f w).1
    after (ok a) w e = (h a).obeys w e
    after (err x) w e = same-Follows w w (λ id. refl)

pub ObeysAt->>= :
    {A B : Type 0} {id : String} {s : RunStatus} {m : M A} {f : A → M B}
    → ObeysAt id s m
    → ((a : A) → Obeys (f a))
    → ObeysAt id s (m >>= f)
unfolding ◌>>=◌
ObeysAt->>= {A} {B} {id} {s} {m} {f} k h = record {
  obeys = λ w e.
      Follows-trans w (m w).1 (continue (m w).0 f (m w).1).1 (k.obeys w e) (after (m w).0 (m w).1);
}
  where
    after : (r : Result A) (w : World) → Follows w (continue r f w).1
    after (ok a) w = (h a).obeys w
    after (err x) w = same-Follows w w (λ id. refl)

-- A test of the status that a look-up reads.
pub guarded-Obeys :
    {B : Type 0} (ctx : Ctx) (id : String) (test : RunStatus → Bool) (e : Failure)
    (k : ExperimentRun → M B)
    → ((run : ExperimentRun) → test run.status ≡ true → ObeysAt id run.status (k run))
    → Obeys (get_run ctx id >>= λ run. require (test run.status) e >> k run)
unfolding get_run query ◌>>=◌ require
guarded-Obeys ctx id test e k h = record { obeys = after }
  where
    after :
        (w : World)
        → Follows w ((get_run ctx id >>= λ run. require (test run.status) e >> k run) w).1
    after w = elim (Bool-cases (is_done ctx w)) [
      | inl done ↦ rw done (same-Follows w w (λ id. refl))
      | inr live ↦ elim (Option-cases (find_run id w.db.runs)) [
        | inl missing ↦ rw (live, missing) (same-Follows w w (λ id. refl))
        | inr (run, found) ↦ elim (Bool-cases (test run.status)) [
          | inl pass ↦ rw (live, found, pass) ((h run pass).obeys w (ap status_in found))
          | inr held ↦ rw (live, found, held) (same-Follows w w (λ id. refl))
        ]
      ]
    ]

-- An update of the rows of an ID follows the state machine where it moves their status by it.
pub update_runs-Follows :
    (id : String) (f : ExperimentRun → ExperimentRun) (w w' : World)
    → w'.db.runs ≡ update_runs id f w.db.runs
    → ((r : ExperimentRun) → (f r).id ≡ r.id)
    → ((r : ExperimentRun) → find_run id w.db.runs ≡ some r → Route r.status (f r).status)
    → Follows w w'
update_runs-Follows id f w w' e keep move j s h =
    let now : status_of j w'
        ≡ status_in (if id == j then map_run f (find_run j w.db.runs) else find_run j w.db.runs) =
      ap (λ rs. status_in (find_run j rs)) e
      ∙ ap status_in (find_run-update_runs id j f w.db.runs keep) in
    elim (Option-cases (find_run j w.db.runs)) [
      | inl missing ↦ absurd (absent (rw missing at h))
      | inr (r, found) ↦
          let same : s ≡ r.status = some_status (rw found at h) in
          elim (text-cases id j) [
            | inl (p, t) ↦ ((f r).status, now ∙ rw (t, found) refl, rw same (move r (rw p found)))
            | inr (p, t) ↦ (s, now ∙ rw t refl ∙ h, stay)
          ]
    ]
  where
    absent : none ≡ some s → ⊥
    absent p = cc

    some_status : {r : RunStatus} → some r ≡ some s → s ≡ r
    some_status p = cc

pub set_run_status-ObeysAt :
    (ctx : Ctx) (id : String) (s status : RunStatus)
    → Allowed s status
    → ObeysAt id s (set_run_status ctx id status)
unfolding set_run_status query update_run_status
set_run_status-ObeysAt ctx id s status a = record {
  obeys = λ w h. elim (Bool-cases (is_done ctx w)) [
    | inl done ↦ rw done (same-Follows w w (λ j. refl))
    | inr live ↦ elim (Bool-cases (has_run id w.db.runs)) [
      | inl known ↦
          rw (live, known)
            (update_runs-Follows id (set_status status w.now) w
              (record w { db = update_run_status id status w.now w.db }) refl (λ r. refl)
              (λ r found. rw (status_at w h found) (step a stay)))
      | inr missing ↦ rw (live, missing) (same-Follows w w (λ j. refl))
    ]
  ];
}
  where
    status_at :
        (w : World) {r : ExperimentRun}
        → status_of id w ≡ some s
        → find_run id w.db.runs ≡ some r
        → r.status ≡ s
    status_at w {r} h found = let e = ap status_in found in cc

-- A conditional update leaves a terminal status alone.
pub finalize-Obeys :
    (ctx : Ctx) (id : String) (status : RunStatus)
    → is_terminal status ≡ true
    → Obeys (finalize ctx id status)
unfolding finalize query finalize_run_status
finalize-Obeys ctx id status last = record {
  obeys = λ w. elim (Bool-cases (is_done ctx w)) [
    | inl done ↦ rw done (same-Follows w w (λ j. refl))
    | inr live ↦ rw live (
        update_runs-Follows id (set_final status w.now) w
          (record w { db = finalize_run_status id status w.now w.db }) refl (λ r. same_id r w.now)
          (λ r found. moved r w.now))
  ];
}
  where
    same_id : (r : ExperimentRun) (now : ℕ) → (set_final status now r).id ≡ r.id
    same_id r now = ground arith

    moved : (r : ExperimentRun) (now : ℕ) → Route r.status (set_final status now r).status
    moved r now = elim (Bool-cases (is_terminal r.status)) [
      | inl e ↦ rw e stay
      | inr e ↦ rw e (step (stop e last) stay)
    ]
