-- ===== src/RunGraph/Spec.antt =====
-- What ValidateRunGraph is to decide, said of the dependency graph alone.
use mathlib.Core.Path.{subst}
use mathlib.Core.List.{Memᴰ}
use manteion_go.Base.{
  ◌≡◌, ap, sym, ◌∙◌, String, true, false, Option, some, List, [], ◌∷◌, is_nil, arith, Option-cases,
  text_self, text-cases, inl, inr,
}
use manteion_go.Model.Experiment.{ExperimentRun, is_baseline}
use manteion_go.RunGraph.{by_id}

module _ (runs : List ExperimentRun) where
  -- The ID names a run.
  abbrev pub IsKnown : String → Type 0
  IsKnown id = (r : ExperimentRun) × (by_id runs id ≡ some r)

  -- The dependency names a run of the same experiment.
  abbrev pub IsResolved : ExperimentRun → String → Type 0
  IsResolved r dep =
      (d : ExperimentRun) × (by_id runs dep ≡ some d) × (d.experiment_id ≡ r.experiment_id)

  -- The run's transitive dependencies all name runs of its experiment, and each chain of them ends.
  pub data IsGrounded : String → Type 0 where
    grounded :
        {id : String} (r : ExperimentRun)
        → by_id runs id ≡ some r
        → ((dep : String) → Memᴰ dep r.depends_on → IsResolved r dep)
        → ((dep : String) → Memᴰ dep r.depends_on → IsGrounded dep)
        → IsGrounded id

  -- Run `a` lists `b` in its DependsOn.
  abbrev pub Needs : String → String → Type 0
  Needs a b = (r : ExperimentRun) × (by_id runs a ≡ some r) × Memᴰ b r.depends_on

  -- A chain of one dependency or more.
  pub data Chain : String → String → Type 0 where
    one : {a b : String} → Needs a b → Chain a b
    more : {a b c : String} → Needs a b → Chain b c → Chain a c

  pub Chain-append : {a b c : String} → Chain a b → Chain b c → Chain a c
  Chain-append (one n) q = more n q
  Chain-append (more n p) q = more n (Chain-append p q)

  abbrev pub HasBaselineAncestor : String → Type 0
  HasBaselineAncestor id =
      (a : String) × (r : ExperimentRun) × Chain id a
      × (by_id runs a ≡ some r)
      × (is_baseline r.run_type ≡ true)

  pub some_injective :
      {o : Option ExperimentRun} {r s : ExperimentRun} → o ≡ some r → o ≡ some s → r ≡ s
  some_injective p q = cc

  pub Needs-run :
      (a b : String) {r : ExperimentRun} → by_id runs a ≡ some r → Needs a b → Memᴰ b r.depends_on
  Needs-run a b e (s, e', m) =
      subst (λ (x : ExperimentRun). Memᴰ b x.depends_on) (some_injective e' e) m

  -- A run whose dependencies are all resolved, to any depth, does not depend on itself.
  pub IsGrounded-acyclic : {a : String} → IsGrounded a → ¬ Chain a a
  IsGrounded-acyclic (grounded r e known below) (one n) =
      IsGrounded-acyclic (below _ (Needs-run _ _ e n)) (one n)
  IsGrounded-acyclic (grounded r e known below) (more n p) =
      IsGrounded-acyclic (below _ (Needs-run _ _ e n)) (Chain-append p (one n))

  pub IsGrounded-Chain : {a b : String} → IsGrounded a → Chain a b → IsGrounded b
  IsGrounded-Chain (grounded r e known below) (one n) = below _ (Needs-run _ _ e n)
  IsGrounded-Chain (grounded r e known below) (more n p) =
      IsGrounded-Chain (below _ (Needs-run _ _ e n)) p

  pub IsGrounded-deps :
      {a : String} {r : ExperimentRun}
      → by_id runs a ≡ some r
      → IsGrounded a
      → (dep : String) → Memᴰ dep r.depends_on
      → IsResolved r dep × IsGrounded dep
  IsGrounded-deps {a} {r} e (grounded s e' known below) dep m =
      let same = some_injective e' e in
      let m' = subst (λ (x : ExperimentRun). Memᴰ dep x.depends_on) (sym same) m in
      (subst (λ (x : ExperimentRun). IsResolved x dep) same (known dep m'), below dep m')

  pub IsGrounded-IsKnown : {a : String} → IsGrounded a → IsKnown a
  IsGrounded-IsKnown (grounded r e known below) = (r, e)

-- Each run of the list is found under its ID, though it may be another run of that ID.
pub by_id_of_mem : (runs : List ExperimentRun) (r : ExperimentRun) → Memᴰ r runs → IsKnown runs r.id
unfolding by_id
by_id_of_mem [] r m = elim m [ ]
by_id_of_mem (x ∷ xs) r (Memᴰ.head e) = elim (Option-cases (by_id xs r.id)) [
  | inl missing ↦ (x, simp (missing, ← ap (λ (s : ExperimentRun). s.id) e, text_self))
  | inr (s, found) ↦ (s, rw found)
]
by_id_of_mem (x ∷ xs) r (Memᴰ.tail m) = let (s, found) = by_id_of_mem xs r m in (s, rw found)

-- What is found under an ID is a run of the list that has it.
pub by_id-eq-some :
    (runs : List ExperimentRun) (id : String) (r : ExperimentRun)
    → by_id runs id ≡ some r
    → (r.id ≡ id) × Memᴰ r runs
unfolding by_id
by_id-eq-some [] id r h = cc
by_id-eq-some (x ∷ xs) id r h = elim (Option-cases (by_id xs id)) [
  | inl missing ↦ elim (text-cases x.id id) [
    | inl (e, t) ↦
        let same : x ≡ r = ground arith in
        (sym (ap (λ (s : ExperimentRun). s.id) same) ∙ e, Memᴰ.head (sym same))
    | inr (e, t) ↦ ground arith
  ]
  | inr (s, found) ↦
      let same : s ≡ r = ground arith in
      let (e, m) = by_id-eq-some xs id r (found ∙ ap some same) in (e, Memᴰ.tail m)
]

-- The graph is one that an experiment can be started with.
pub record IsValidGraph (runs : List ExperimentRun) : Type 0 where
  pub all_grounded : (r : ExperimentRun) → Memᴰ r runs → IsGrounded runs r.id
  pub all_based :
      (r : ExperimentRun)
      → Memᴰ r runs
      → is_baseline r.run_type ≡ false
      → is_nil r.frozen_services ≡ false
      → HasBaselineAncestor runs r.id
