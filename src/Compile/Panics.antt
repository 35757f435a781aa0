-- ===== src/Compile/Panics.antt =====
-- internal/ruleconv/ruleconv.go: the nil dereference of the compiler, and what rules it out.
use manteion_go.Base.{
  ℕ, zero, suc, ◌+◌, ◌≡◌, refl, inl, inr, ◌⊎◌, ◌≢◌, String, ◌==◌, Option, none, some, List, [], ◌∷◌,
  Error, Option-cases, Bool-cases,
}
use manteion_go.Base.Result.{Result, ok, err, panic, ◌>>=◌, wrapped}
use manteion_go.Model.Fault.{FaultSpec, FaultComposition, FaultCompositionMember}
use manteion_go.Model.Rule.{Rule, ActionType, validate_action, validate_action_type}
use manteion_go.Compile.{
  Lookup, found, missing, failed, CompiledComposition, resolve_spec, resolve_members,
  resolve_composition, compile_action, compile_rule,
}

-- The call returns.
abbrev pub Returns : {A : Type 0} → Result A → Type 0
Returns panic = ⊥
Returns _ = Unit

pub >>=-Returns :
    {A B : Type 0} (m : Result A) (f : A → Result B)
    → Returns m
    → ((a : A) → Returns (f a))
    → Returns (m >>= f)
>>=-Returns (ok a) f p q = q a
>>=-Returns (err e) f p q = tt
>>=-Returns panic f p q = p

pub wrapped-Returns :
    {A : Type 0} (f : Error → Error) (m : Result A) → Returns m → Returns (wrapped f m)
wrapped-Returns f (ok a) p = tt
wrapped-Returns f (err e) p = tt
wrapped-Returns f panic p = p

Lookup-cases :
    {A : Type 0} (l : Lookup A)
    → ((e : Error) × (l ≡ failed e)) ⊎ ((l ≡ missing) ⊎ ((a : A) × (l ≡ found a)))
Lookup-cases (failed e) = inl (e, refl)
Lookup-cases missing = inr (inl refl)
Lookup-cases (found a) = inr (inr (a, refl))

some_not_none : {A : Type 0} {a : A} → some a ≢ none
some_not_none h = cc

module _ (specs : String → Lookup FaultSpec) where
  resolve_spec-Returns : (id : String) → Returns (resolve_spec specs id)
  unfolding resolve_spec
  resolve_spec-Returns id = elim (Lookup-cases (specs id)) [
    | inl (e, p) ↦ rw (p, resolve_spec) tt
    | inr (inl p) ↦ rw (p, resolve_spec) tt
    | inr (inr (spec, p)) ↦ rw (p, resolve_spec) tt
  ]

  resolve_members-Returns :
      (visit : String → Result CompiledComposition)
      → ((id : String) → Returns (visit id))
      → (i : ℕ) (ms : List FaultCompositionMember) → Returns (resolve_members specs visit i ms)
  unfolding resolve_members
  resolve_members-Returns visit v i [] = tt
  resolve_members-Returns visit v i (m ∷ ms) =
      let rest = resolve_members-Returns visit v (i + 1) ms in
      elim (Bool-cases (m.fault_spec_id == "")) [
        | inr e ↦ rw (e) (
            >>=-Returns _ _ (wrapped-Returns _ _ (resolve_spec-Returns m.fault_spec_id))
              (λ f. >>=-Returns _ _ rest (λ o. tt)))
        | inl e ↦ elim (Bool-cases (m.child_composition_id == "")) [
          | inr e' ↦
              rw (e, e')
                (>>=-Returns _ _ (wrapped-Returns _ _ (v m.child_composition_id))
                  (λ c. >>=-Returns _ _ rest (λ o. tt)))
          | inl e' ↦ rw (e, e') (>>=-Returns _ _ rest (λ o. tt))
        ]
      ]

  resolve_composition-Returns :
      (comps : String → Lookup FaultComposition) (left : ℕ) (id : String)
      → Returns (resolve_composition specs comps left id)
  unfolding resolve_composition
  resolve_composition-Returns comps zero id = tt
  resolve_composition-Returns comps (suc left) id = elim (Lookup-cases (comps id)) [
    | inl (e, p) ↦ rw (p, resolve_composition) tt
    | inr (inl p) ↦ rw (p, resolve_composition) tt
    | inr (inr (c, p)) ↦
        rw (p, resolve_composition)
          (>>=-Returns _ _
            (resolve_members-Returns (resolve_composition specs comps left)
              (resolve_composition-Returns comps left) 0 c.members)
            (λ ms. tt))
  ]

  compile_action-Returns :
      (comps : Option (String → Lookup FaultComposition)) (r : Rule) (t : ActionType)
      → validate_action_type t r.action ≡ none
      → Returns (compile_action specs comps r t)
  unfolding compile_action validate_action_type
  compile_action-Returns comps r ActionType.fault_spec valid =
      >>=-Returns _ _ (wrapped-Returns _ _ (resolve_spec-Returns r.action.fault_spec_id)) (λ f. tt)
  compile_action-Returns none r ActionType.fault_composition valid = tt
  compile_action-Returns (some g) r ActionType.fault_composition valid =
      >>=-Returns _ _ (wrapped-Returns _ _ (resolve_composition-Returns g 3 r.action.fault_comp_id))
        (λ c. tt)
  compile_action-Returns comps r ActionType.cachebox valid =
      elim (Option-cases r.action.cache_box) [
        | inr (b, here) ↦ rw (here, compile_action) tt
        | inl gone ↦ let v = rw (gone) at valid in absurd (some_not_none v)
      ]
  compile_action-Returns comps r (ActionType.other s) valid = tt

  -- The compiler returns, with a rule or an error, on every rule whose action passes its validation:
  -- it does not dereference a missing cache-box configuration.
  pub compile_rule-Returns :
      (comps : Option (String → Lookup FaultComposition)) (r : Rule)
      → validate_action r.action ≡ none
      → Returns (compile_rule specs comps r)
  unfolding compile_rule validate_action
  compile_rule-Returns comps r valid = compile_action-Returns comps r r.action.type valid
