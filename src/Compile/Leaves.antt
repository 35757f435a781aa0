-- ===== src/Compile/Leaves.antt =====
-- internal/ruleconv/ruleconv.go and internal/model/composition_validate.go: the compiler resolves a
-- composition exactly where the checks can collect its leaves, and to the same leaves.
use manteion_go.Base.{
  ℕ, zero, suc, ◌+◌, ◌≡◌, refl, ap, ◌∙◌, inl, inr, String, ◌==◌, Option, none, some, List, [], ◌∷◌,
  ◌++◌, Error, errorf, wrap_at, Bool-cases, Option-cases,
}
use manteion_go.Base.Text.{concat}
use manteion_go.Base.Result.{Result, ok, err, panic, ◌>>=◌, wrapped}
use manteion_go.Model.Fault.{
  FaultSpec, FaultComposition, FaultCompositionMember, direction_text, execution_mode_text,
}
use manteion_go.Composition as Check
use manteion_go.Composition.{
  FaultSpecResolver, CompositionResolver, Answer, member_items, members_items, collect,
  collect_leaves, type_text,
}
use manteion_go.Compile.{
  func_resolver, found, missing, CompiledFault, CompiledComposition, composition, CompiledMembers,
  none_left, bare, with_fault, with_child, compile_spec, resolve_spec, resolve_members,
  resolve_composition,
}

-- The fault types on the wire, from left to right.
abbrev pub fault_text : CompiledFault → String
fault_text f = concat (concat f.category ":") f.fault_type

mutual
  pub tree_leaves : CompiledComposition → List String
  tree_leaves (composition n e d u w ms) = member_leaves ms

  pub member_leaves : CompiledMembers → List String
  member_leaves none_left = []
  member_leaves (bare d ms) = member_leaves ms
  member_leaves (with_fault d f ms) = fault_text f ∷ member_leaves ms
  member_leaves (with_child d c ms) = tree_leaves c ++ member_leaves ms

-- Both succeed, with the same leaves, or neither does; the compiler does not panic.
abbrev pub Agrees : {A : Type 0} → (A → List String) → Answer (List String) → Result A → Type 0
Agrees f (Answer.ok ls) (ok a) = f a ≡ ls
Agrees f (Answer.err e) (err e') = Unit
Agrees f Answer.out_of_fuel (err e') = Unit
Agrees f _ _ = ⊥

-- A member, and then the others.
Agrees-step :
    {X : Type 0} (g : X → List String) (k : X → CompiledMembers → CompiledMembers)
    → ((x : X) (ms : CompiledMembers) → member_leaves (k x ms) ≡ g x ++ member_leaves ms)
    → (a : Answer (List String)) (r : Result X) (b : Answer (List String))
      (s : Result CompiledMembers)
    → Agrees g a r
    → Agrees member_leaves b s
    → Agrees member_leaves
        (Check.◌>>=◌ a (λ items. Check.◌>>=◌ b (λ rest. Answer.ok (items ++ rest))))
        (r >>= λ x. s >>= λ ms. ok (k x ms))
Agrees-step g k law (Answer.ok ls) (ok x) (Answer.ok ls') (ok ms) p q =
    law x ms ∙ ap (λ l. l ++ member_leaves ms) p ∙ ap (λ l. ls ++ l) q
Agrees-step g k law (Answer.ok ls) (ok x) (Answer.err e) (err e') p q = tt
Agrees-step g k law (Answer.ok ls) (ok x) Answer.out_of_fuel (err e') p q = tt
Agrees-step g k law (Answer.ok ls) (ok x) (Answer.ok ls') (err e') p q = absurd q
Agrees-step g k law (Answer.ok ls) (ok x) (Answer.ok ls') panic p q = absurd q
Agrees-step g k law (Answer.ok ls) (ok x) (Answer.err e) (ok ms) p q = absurd q
Agrees-step g k law (Answer.ok ls) (ok x) (Answer.err e) panic p q = absurd q
Agrees-step g k law (Answer.ok ls) (ok x) Answer.out_of_fuel (ok ms) p q = absurd q
Agrees-step g k law (Answer.ok ls) (ok x) Answer.out_of_fuel panic p q = absurd q
Agrees-step g k law (Answer.ok ls) (err e) b s p q = absurd p
Agrees-step g k law (Answer.ok ls) panic b s p q = absurd p
Agrees-step g k law (Answer.err e) (err e') b s p q = tt
Agrees-step g k law (Answer.err e) (ok x) b s p q = absurd p
Agrees-step g k law (Answer.err e) panic b s p q = absurd p
Agrees-step g k law Answer.out_of_fuel (err e') b s p q = tt
Agrees-step g k law Answer.out_of_fuel (ok x) b s p q = absurd p
Agrees-step g k law Answer.out_of_fuel panic b s p q = absurd p

Agrees-wrapped :
    {X : Type 0} (g : X → List String) (f : Error → Error) (a : Answer (List String)) (r : Result X)
    → Agrees g a r
    → Agrees g (Check.◌>>=◌ a (λ items. Answer.ok items)) (wrapped f r)
Agrees-wrapped g f (Answer.ok ls) (ok x) p = p
Agrees-wrapped g f (Answer.err e) (err e') p = tt
Agrees-wrapped g f Answer.out_of_fuel (err e') p = tt
Agrees-wrapped g f (Answer.ok ls) (err e) p = absurd p
Agrees-wrapped g f (Answer.ok ls) panic p = absurd p
Agrees-wrapped g f (Answer.err e) (ok x) p = absurd p
Agrees-wrapped g f (Answer.err e) panic p = absurd p
Agrees-wrapped g f Answer.out_of_fuel (ok x) p = absurd p
Agrees-wrapped g f Answer.out_of_fuel panic p = absurd p

func_resolver-some :
    {A : Type 0} (fn : String → Option A) (id : String) {a : A}
    → fn id ≡ some a
    → func_resolver fn id ≡ found a
unfolding func_resolver
func_resolver-some fn id e = rw (e, func_resolver) refl

func_resolver-none :
    {A : Type 0} (fn : String → Option A) (id : String)
    → fn id ≡ none
    → func_resolver fn id ≡ missing
unfolding func_resolver
func_resolver-none fn id e = rw (e, func_resolver) refl

module _ (faults : FaultSpecResolver) (comps : CompositionResolver) where
  -- What collectLeaves takes from a member.
  abbrev leaf_text : FaultSpec → FaultCompositionMember → List String
  leaf_text spec m = type_text spec ∷ []

  abbrev same_items : FaultCompositionMember → List String → List String
  same_items m leaves = leaves

  abbrev VisitsAgree :
      (FaultComposition → Answer (List String)) → (String → Result CompiledComposition) → Type 0
  VisitsAgree collected resolved =
      (id : String)
      → ((c : FaultComposition)
          → comps id ≡ some c
          → Agrees tree_leaves (collected c) (resolved id))
        × (comps id ≡ none → (e : Error) × (resolved id ≡ err e))

  resolve_spec_found :
      (id : String) (spec : FaultSpec)
      → faults id ≡ some spec
      → resolve_spec (func_resolver faults) id ≡ ok (compile_spec spec)
  unfolding resolve_spec
  resolve_spec_found id spec e = rw (func_resolver-some faults id e, resolve_spec) refl

  resolve_spec_missing :
      (id : String)
      → faults id ≡ none
      → (e : Error) × (resolve_spec (func_resolver faults) id ≡ err e)
  unfolding resolve_spec
  resolve_spec_missing id e = (
    errorf "fault spec %q not found" (id ∷ []),
    rw (func_resolver-none faults id e, resolve_spec) refl,
  )

  members-Agrees :
      (collected : FaultComposition → Answer (List String))
      (resolved : String → Result CompiledComposition)
      → VisitsAgree collected resolved
      → (i : ℕ) (ms : List FaultCompositionMember)
      → Agrees member_leaves
          (members_items faults comps (member_items faults comps leaf_text same_items collected) ms)
          (resolve_members (func_resolver faults) resolved i ms)
  unfolding members_items member_items resolve_members compile_spec member_leaves
  members-Agrees collected resolved v i [] = refl
  members-Agrees collected resolved v i (m ∷ ms) =
      let rest = members-Agrees collected resolved v (i + 1) ms in
      let others =
        members_items faults comps (member_items faults comps leaf_text same_items collected) ms in
      let compiled = resolve_members (func_resolver faults) resolved (i + 1) ms in
      elim (Bool-cases (m.fault_spec_id == "")) [
        | inr is_leaf ↦ elim (Option-cases (faults m.fault_spec_id)) [
          | inl gone ↦
              let (x, refused) = resolve_spec_missing m.fault_spec_id gone in
              rw (is_leaf, gone, refused) tt
          | inr (spec, here) ↦
              rw (is_leaf, here, resolve_spec_found m.fault_spec_id spec here)
                (Agrees-step (λ f. fault_text f ∷ []) (with_fault (direction_text m.direction))
                  (λ f ms'. refl) (Answer.ok (type_text spec ∷ [])) (ok (compile_spec spec)) others
                  compiled refl rest)
        ]
        | inl no_leaf ↦ elim (Bool-cases (m.child_composition_id == "")) [
          | inl e ↦
              rw (no_leaf, e)
                (Agrees-step {X = Unit {0}} (λ u. [])
                  (λ u ms'. bare (direction_text m.direction) ms') (λ u ms'. refl) (Answer.ok [])
                  (ok tt) others compiled refl rest)
          | inr e ↦ elim (Option-cases (comps m.child_composition_id)) [
            | inl gone ↦
                let (x, refused) = (v m.child_composition_id).1 gone in
                rw (no_leaf, e, gone, refused) tt
            | inr (c, here) ↦
                rw (no_leaf, e, here)
                  (Agrees-step tree_leaves (with_child (direction_text m.direction))
                    (λ c' ms'. refl) (Check.◌>>=◌ (collected c) (λ items. Answer.ok items))
                    (wrapped (wrap_at "composition %q member[%d]: %w" i)
                      (resolved m.child_composition_id))
                    others compiled
                    (Agrees-wrapped tree_leaves (wrap_at "composition %q member[%d]: %w" i)
                      (collected c) (resolved m.child_composition_id)
                      ((v m.child_composition_id).0 c here))
                    rest)
          ]
        ]
      ]

  -- At each level, the compiler's resolution of a composition and the collection of its leaves agree.
  pub resolve_composition-Agrees :
      (left : ℕ)
      → VisitsAgree
          (collect_leaves faults comps left)
          (resolve_composition (func_resolver faults) (func_resolver comps) left)
  unfolding collect_leaves collect resolve_composition tree_leaves
  resolve_composition-Agrees zero id =
      (λ c here. tt, λ gone. (errorf "composition %q nesting exceeds max depth %d" (id ∷ []), refl))
  resolve_composition-Agrees (suc left) id = (
    λ c here.
        rw (func_resolver-some comps id here, resolve_composition)
          (composed c
            (members_items faults comps
              (member_items faults comps leaf_text same_items (collect_leaves faults comps left))
              c.members)
            (resolve_members (func_resolver faults)
              (resolve_composition (func_resolver faults) (func_resolver comps) left) 0 c.members)
            (members-Agrees (collect_leaves faults comps left)
              (resolve_composition (func_resolver faults) (func_resolver comps) left)
              (resolve_composition-Agrees left) 0 c.members)),
    λ gone. (
      errorf "composition %q not found" (id ∷ []),
      rw (func_resolver-none comps id gone, resolve_composition) refl,
    ),
  )
    where
      composed :
          (c : FaultComposition) (a : Answer (List String)) (r : Result CompiledMembers)
          → Agrees member_leaves a r
          → Agrees tree_leaves a (
              r >>= λ members. ok (
                composition c.name
                  (execution_mode_text c.execution_mode)
                  c.duration_ms
                  c.ramp_up_ms
                  c.ramp_down_ms
                  members))
      composed c (Answer.ok ls) (ok ms) p = p
      composed c (Answer.err e) (err e') p = tt
      composed c Answer.out_of_fuel (err e') p = tt
      composed c (Answer.ok ls) (err e) p = absurd p
      composed c (Answer.ok ls) panic p = absurd p
      composed c (Answer.err e) (ok ms) p = absurd p
      composed c (Answer.err e) panic p = absurd p
      composed c Answer.out_of_fuel (ok ms) p = absurd p
      composed c Answer.out_of_fuel panic p = absurd p
