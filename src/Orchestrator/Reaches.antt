-- ===== src/Orchestrator/Reaches.antt =====
-- internal/orchestrator: how to follow a run's status through a method that answers without an error.
use manteion_go.Base.{
  ℕ, String, Bool, true, false, none, some, ◌≡◌, refl, ◌∙◌, ap, sym, inl, inr, List, [], ◌∷◌, arith,
  Bool-cases, Option-cases, eq_iff, text_self,
}
use manteion_go.Model.Experiment.{ExperimentRun, RunStatus}
use manteion_go.Store.Runs.{
  is_terminal, find_run, has_run, set_status, set_final, update_run_status, finalize_run_status,
}
use manteion_go.Store.Runs.Laws.{find_run-update_runs}
use manteion_go.Orchestrator.World.{
  Ctx, World, Result, ok, err, Failure, M, ◌>>=◌, ◌>>◌, continue, pure, fail, require, query,
  is_done, get_run, set_run_status, finalize,
}
use manteion_go.Orchestrator.Keeps.{Keeps, status_in, status_of}

-- Where the run has the status `s`, a success leaves it with one that satisfies `T`.
pub record Reaches {A : Type 0} (id : String) (s : RunStatus) (T : RunStatus → Type 0) (m : M A)
    : Type 0 where
  pub reaches :
      (w u : World) (a : A)
      → status_of id w ≡ some s
      → m w ≡ (ok a, u)
      → (t : RunStatus) × (status_of id u ≡ some t) × T t

pub continue_ok :
    {A B : Type 0} (r : Result A) (f : A → M B) (w u : World) (b : B)
    → continue r f w ≡ (ok b, u)
    → (a : A) × (r ≡ ok a) × (f a w ≡ (ok b, u))
unfolding continue fail
continue_ok (ok a) f w u b h = (a, refl, h)
continue_ok (err e) f w u b h = cc

module _ {A B : Type 0} {id : String} {s : RunStatus} {T : RunStatus → Type 0} where
  pub >>=-Reaches :
      {m : M A} {f : A → M B}
      → Keeps m
      → ((a : A) → Reaches id s T (f a))
      → Reaches id s T (m >>= f)
  unfolding ◌>>=◌
  >>=-Reaches {m} {f} k h = record {
    reaches = λ w u b at e.
        let (a, _, e') = continue_ok (m w).0 f (m w).1 u b e in
        (h a).reaches (m w).1 u b (k.keeps w id ∙ at) e';
  }

  pub Reaches->>= :
      {m : M A} {f : A → M B}
      → Reaches id s T m
      → ((a : A) → Keeps (f a))
      → Reaches id s T (m >>= f)
  unfolding ◌>>=◌
  Reaches->>= {m} {f} k h = record {
    reaches = λ w u b at e.
        let (a, answered, e') = continue_ok (m w).0 f (m w).1 u b e in
        let (t, now, good) = k.reaches w (m w).1 a at (ap (λ r. (r, (m w).1)) answered) in
        (
          t,
          ap (λ (x : Result B × World). status_of id x.1) (sym e') ∙ (h a).keeps (m w).1 id ∙ now,
          good,
        );
  }

-- A success behind a test of the run's status: the test held.
pub guarded_ok :
    {B : Type 0} {T : RunStatus → Type 0} (ctx : Ctx) (id : String) (test : RunStatus → Bool)
    (e : Failure) (k : ExperimentRun → M B) (w u : World) (b : B)
    → ((run : ExperimentRun) → Reaches id run.status T (k run))
    → (get_run ctx id >>= λ run. require (test run.status) e >> k run) w ≡ (ok b, u)
    → (s : RunStatus) × (status_of id w ≡ some s)
      × (test s ≡ true)
      × (t : RunStatus) × (status_of id u ≡ some t)
      × T t
unfolding get_run query ◌>>=◌ require continue fail pure
guarded_ok {B} {T} ctx id test e k w u b h p = elim (Bool-cases (is_done ctx w)) [
  | inl done ↦ absurd (refused_query done p)
  | inr live ↦ elim (Option-cases (find_run id w.db.runs)) [
    | inl missing ↦ absurd (no_row live missing p)
    | inr (run, found) ↦ elim (Bool-cases (test run.status)) [
      | inl pass ↦
          let at : status_of id w ≡ some run.status = ap status_in found in
          let (t, now, good) = (h run).reaches w u b at (rw (live, found, pass) at p) in
          (run.status, at, pass, t, now, good)
      | inr held ↦ absurd (refused live found held p)
    ]
  ]
]
  where
    start : Type 0
    start = (get_run ctx id >>= λ run. require (test run.status) e >> k run) w ≡ (ok b, u)

    refused_query : is_done ctx w ≡ true → start → ⊥
    refused_query done q = let q' = rw done at q in cc

    no_row : is_done ctx w ≡ false → find_run id w.db.runs ≡ none → start → ⊥
    no_row live missing q = let q' = rw (live, missing) at q in cc

    refused :
        {run : ExperimentRun}
        → is_done ctx w ≡ false
        → find_run id w.db.runs ≡ some run
        → test run.status ≡ false
        → start
        → ⊥
    refused live found held q = let q' = rw (live, found, held) at q in cc

pub set_run_status-Reaches :
    (ctx : Ctx) (id : String) (s status : RunStatus)
    → Reaches id s (λ t. t ≡ status) (set_run_status ctx id status)
unfolding set_run_status query update_run_status
set_run_status-Reaches ctx id s status = record { reaches = after }
  where
    written :
        (w : World) (r : ExperimentRun)
        → find_run id w.db.runs ≡ some r
        → status_of id (record w { db = update_run_status id status w.now w.db }) ≡ some status
    written w r found =
        ap status_in (find_run-update_runs id id (set_status status w.now) w.db.runs (λ r. refl))
        ∙ rw (text_self id, found) refl

    after :
        (w u : World) (a : Unit {0})
        → status_of id w ≡ some s
        → set_run_status ctx id status w ≡ (ok a, u)
        → (t : RunStatus) × (status_of id u ≡ some t) × (t ≡ status)
    after w u a at e = elim (Bool-cases (is_done ctx w)) [
      | inl done ↦ let e' = rw done at e in cc
      | inr live ↦ elim (Option-cases (find_run id w.db.runs)) [
        | inl missing ↦ let at' = rw missing at at in cc
        | inr (r, found) ↦
            let known : has_run id w.db.runs ≡ true = rw (found, has_run) refl in
            let e' = rw (live, known) at e in
            (
              status,
              ap (λ (x : Result (Unit {0}) × World). status_of id x.1) (sym e') ∙ written w r found,
              refl,
            )
      ]
    ]

-- StopRun's end: whoever writes the status, the row is terminal after a successful statement.
pub finalize-Reaches :
    (ctx : Ctx) (id : String) (s status : RunStatus)
    → is_terminal status ≡ true
    → Reaches id s (λ t. is_terminal t ≡ true) (finalize ctx id status)
unfolding finalize query finalize_run_status
finalize-Reaches ctx id s status last = record { reaches = after }
  where
    same_id : (now : ℕ) (r : ExperimentRun) → (set_final status now r).id ≡ r.id
    same_id now r = ground arith

    final : (now : ℕ) (r : ExperimentRun) → is_terminal (set_final status now r).status ≡ true
    final now r = ground arith

    written :
        (w : World) (r : ExperimentRun)
        → find_run id w.db.runs ≡ some r
        → status_of id (record w { db = finalize_run_status id status w.now w.db })
          ≡ some (set_final status w.now r).status
    written w r found =
        ap status_in (find_run-update_runs id id (set_final status w.now) w.db.runs (same_id w.now))
        ∙ rw (text_self id, found) refl

    after :
        (w u : World) (a : Bool)
        → status_of id w ≡ some s
        → finalize ctx id status w ≡ (ok a, u)
        → (t : RunStatus) × (status_of id u ≡ some t) × (is_terminal t ≡ true)
    after w u a at e = elim (Bool-cases (is_done ctx w)) [
      | inl done ↦ let e' = rw done at e in cc
      | inr live ↦ elim (Option-cases (find_run id w.db.runs)) [
        | inl missing ↦ let at' = rw missing at at in cc
        | inr (r, found) ↦
            let e' = rw live at e in
            (
              (set_final status w.now r).status,
              ap (λ (x : Result Bool × World). status_of id x.1) (sym e') ∙ written w r found,
              final w.now r,
            )
      ]
    ]

pub find_run_id :
    (id : String) (rs : List ExperimentRun) (r : ExperimentRun)
    → find_run id rs ≡ some r
    → r.id ≡ id
unfolding find_run
find_run_id id [] r e = cc
find_run_id id (x ∷ rs) r e = ground (arith, eq_iff x.id id, find_run_id id rs r)

pub get_run_ok :
    (ctx : Ctx) (id : String) (w u : World) (r : ExperimentRun)
    → get_run ctx id w ≡ (ok r, u)
    → (find_run id w.db.runs ≡ some r) × (u ≡ w)
unfolding get_run query
get_run_ok ctx id w u r e = elim (Bool-cases (is_done ctx w)) [
  | inl done ↦ let e' = rw done at e in cc
  | inr live ↦ elim (Option-cases (find_run id w.db.runs)) [
    | inl missing ↦ let e' = rw (live, missing) at e in cc
    | inr (x, found) ↦ let e' = rw (live, found) at e in (rw found cc, cc)
  ]
]
