-- ===== src/Compile/Order.antt =====
-- internal/ruleconv/ruleconv.go: what the compiler keeps of the rules it is given.
use mathlib.Core.Path.{subst}
use manteion_go.Base.{
  ◌≡◌, refl, sym, ap, ◌∙◌, inl, inr, String, Option, none, some, List, [], ◌∷◌, map, Option-cases,
  Error, wrap,
}
use manteion_go.Base.Result.{Result, ok, err, panic, wrapped, chain_inversion}
use manteion_go.Model.Fault.{FaultSpec, FaultComposition}
use manteion_go.Model.Rule.{Rule, RuleAction, ActionType, validate_action, validate_action_type}
use manteion_go.Compile.{
  Lookup, CompiledRule, resolve_spec, resolve_composition, bare_rule, compile_action, compile_rule,
  compile_rules,
}

-- A compiled rule without what was resolved.
abbrev pub stripped : CompiledRule → CompiledRule
stripped c = record c { fault = none; composition_tree = none; cache_box = none }

-- Exactly one of the three is set.
abbrev pub HasOne : {A B C : Type 0} → Option A → Option B → Option C → Type 0
HasOne (some a) none none = Unit
HasOne none (some b) none = Unit
HasOne none none (some c) = Unit
HasOne _ _ _ = ⊥

wrapped-eq-ok :
    {A : Type 0} (f : Error → Error) (m : Result A) {a : A} → wrapped f m ≡ ok a → m ≡ ok a
wrapped-eq-ok f (ok a) h = h
wrapped-eq-ok f (err e) h = cc
wrapped-eq-ok f panic h = cc

ok_injective : {A : Type 0} {a b : A} → ok a ≡ ok b → a ≡ b
ok_injective h = cc

-- The kinds of action that RuleAction.Validate accepts.
abbrev IsKnown : ActionType → Type 0
IsKnown (ActionType.other s) = ⊥
IsKnown _ = Unit

validate_action-IsKnown : (a : RuleAction) → validate_action a ≡ none → IsKnown a.type
unfolding validate_action
validate_action-IsKnown a h = of_type a.type h
  where
    of_type : (t : ActionType) → validate_action_type t a ≡ none → IsKnown t
    of_type ActionType.fault_spec h = tt
    of_type ActionType.fault_composition h = tt
    of_type ActionType.cachebox h = tt
    of_type (ActionType.other s) h = cc

module _ (specs : String → Lookup FaultSpec) where
  -- What a compiled rule keeps of the rule, and what it adds for a known kind of action.
  abbrev Keeps : Rule → ActionType → CompiledRule → Type 0
  Keeps r t c =
      (stripped c ≡ bare_rule specs r) × (IsKnown t → HasOne c.fault c.composition_tree c.cache_box)

  compile_action-Keeps :
      (comps : Option (String → Lookup FaultComposition)) (r : Rule) (t : ActionType)
      (c : CompiledRule)
      → compile_action specs comps r t ≡ ok c
      → Keeps r t c
  unfolding compile_action
  compile_action-Keeps comps r ActionType.fault_spec c h =
      let (f, _, last) =
        chain_inversion (wrapped (wrap "rule %q: %w") (resolve_spec specs r.action.fault_spec_id)) _
          h in
      subst (Keeps r ActionType.fault_spec) (ok_injective last) (refl, λ k. tt)
  compile_action-Keeps none r ActionType.fault_composition c h = cc
  compile_action-Keeps (some g) r ActionType.fault_composition c h =
      let (t, _, last) =
        chain_inversion
          (wrapped (wrap "rule %q: %w") (resolve_composition specs g 3 r.action.fault_comp_id)) _
          h in
      subst (Keeps r ActionType.fault_composition) (ok_injective last) (refl, λ k. tt)
  compile_action-Keeps comps r ActionType.cachebox c h = elim (Option-cases r.action.cache_box) [
    | inl gone ↦ let h' = rw (gone, compile_action) at h in cc
    | inr (b, here) ↦
        let h' = rw (here, compile_action) at h in
        subst (Keeps r ActionType.cachebox) (ok_injective h') (refl, λ k. tt)
  ]
  compile_action-Keeps comps r (ActionType.other s) c h =
      subst (Keeps r (ActionType.other s)) (ok_injective h) (refl, λ k. absurd k)

  -- A rule whose action passes its validation compiles to a rule with exactly one of a fault, a
  -- composition and a cache-box configuration.
  pub compile_rule-HasOne :
      (comps : Option (String → Lookup FaultComposition)) (r : Rule) (c : CompiledRule)
      → validate_action r.action ≡ none
      → compile_rule specs comps r ≡ ok c
      → HasOne c.fault c.composition_tree c.cache_box
  unfolding compile_rule
  compile_rule-HasOne comps r c valid h =
      (compile_action-Keeps comps r r.action.type c h).1 (validate_action-IsKnown r.action valid)

  -- The compiled rules are those of the list, in its order and none left out, with every field that
  -- is not resolved copied.
  pub compile_rules_in_order :
      (comps : Option (String → Lookup FaultComposition)) (rs : List Rule) (cs : List CompiledRule)
      → compile_rules specs comps rs ≡ ok cs
      → map stripped cs ≡ map (bare_rule specs) rs
  unfolding compile_rules compile_rule
  compile_rules_in_order comps [] cs h = ap (map stripped) (sym (ok_injective h))
  compile_rules_in_order comps (r ∷ rs) cs h =
      let (c, first, h1) = chain_inversion (compile_rule specs comps r) _ h in
      let (cs', others, last) = chain_inversion (compile_rules specs comps rs) _ h1 in
      ap (map stripped) (sym (ok_injective last))
      ∙ ap (λ x. x ∷ map stripped cs') (compile_action-Keeps comps r r.action.type c first).0
      ∙ ap (λ l. bare_rule specs r ∷ l) (compile_rules_in_order comps rs cs' others)
