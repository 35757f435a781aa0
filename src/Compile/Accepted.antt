-- ===== src/Compile/Accepted.antt =====
-- internal/ruleconv/ruleconv.go: the rules that compile, by the checks of internal/model.
use manteion_go.Base.{ℕ, ◌≡◌, refl, ◌↔◌, String, some, List}
use manteion_go.Base.Result.{Result, ok, err, panic}
use manteion_go.Model.Fault.{FaultComposition, default_incompatibilities}
use manteion_go.Model.Rule.{Rule, ActionType}
use manteion_go.Composition.{
  FaultSpecResolver, CompositionResolver, Answer, collect_leaves, validate_composition,
}
use manteion_go.Composition.Pairs.{PairsAllowed}
use manteion_go.Composition.Accepted.{validate_composition_sound}
use manteion_go.Compile.{
  func_resolver, CompiledComposition, resolve_composition, bare_rule, compile_action, compile_rule,
}
use manteion_go.Compile.Leaves.{tree_leaves, Agrees, resolve_composition-Agrees}

Agrees-iff :
    {A : Type 0} (f : A → List String) (a : Answer (List String)) (r : Result A)
    → Agrees f a r
    → (leaves : List String) → (a ≡ Answer.ok leaves) ↔ ((x : A) × (r ≡ ok x) × (f x ≡ leaves))
Agrees-iff f (Answer.ok ls) (ok x) p leaves = (λ h. (x, refl, cc), λ (y, h, q). cc)
Agrees-iff f (Answer.err e) (err e') p leaves = (λ h. cc, λ (y, h, q). cc)
Agrees-iff f Answer.out_of_fuel (err e') p leaves = (λ h. cc, λ (y, h, q). cc)
Agrees-iff f (Answer.ok ls) (err e) p leaves = absurd p
Agrees-iff f (Answer.ok ls) panic p leaves = absurd p
Agrees-iff f (Answer.err e) (ok x) p leaves = absurd p
Agrees-iff f (Answer.err e) panic p leaves = absurd p
Agrees-iff f Answer.out_of_fuel (ok x) p leaves = absurd p
Agrees-iff f Answer.out_of_fuel panic p leaves = absurd p

-- The compiler resolves a composition into a tree with certain leaves exactly where the checks
-- collect those leaves, at any number of levels.
pub resolve_composition_iff :
    (faults : FaultSpecResolver) (comps : CompositionResolver) (left : ℕ) (id : String)
    (comp : FaultComposition)
    → comps id ≡ some comp
    → (leaves : List String)
    → (collect_leaves faults comps left comp ≡ Answer.ok leaves) ↔ (
        (tree : CompiledComposition) × (resolve_composition
            (func_resolver faults)
            (func_resolver comps)
            left
            id
          ≡ ok tree)
        × (tree_leaves tree ≡ leaves))
resolve_composition_iff faults comps left id comp here leaves =
    Agrees-iff tree_leaves (collect_leaves faults comps left comp)
      (resolve_composition (func_resolver faults) (func_resolver comps) left id)
      ((resolve_composition-Agrees faults comps left id).0 comp here) leaves

-- A rule whose action is a composition that ValidateComposition accepts compiles, into a tree whose
-- leaves no hard default rule forbids together.
pub compile_rule_accepted :
    (faults : FaultSpecResolver) (comps : CompositionResolver) (r : Rule) (comp : FaultComposition)
    → r.action.type ≡ ActionType.fault_composition
    → comps r.action.fault_comp_id ≡ some comp
    → validate_composition faults comps comp ≡ Answer.ok tt
    → (tree : CompiledComposition) × (compile_rule
          (func_resolver faults)
          (some (func_resolver comps))
          r
        ≡ ok (record (bare_rule (func_resolver faults) r) { composition_tree = some tree }))
      × PairsAllowed comp.execution_mode comp.id default_incompatibilities (tree_leaves tree)
unfolding compile_rule compile_action
compile_rule_accepted faults comps r comp is_composition here accepted =
    let (_, _, leaves, collected, allowed) =
      validate_composition_sound faults comps comp accepted in
    let (tree, resolved, same) =
      (resolve_composition_iff faults comps 3 r.action.fault_comp_id comp here leaves).0
        collected in
    (tree, rw (is_composition, resolved) refl, rw (same) allowed)
