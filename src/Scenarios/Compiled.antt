-- ===== src/Scenarios/Compiled.antt =====
-- A rule with a composition of two faults, and a rule that freezes a service, compiled.
use manteion_go.Base.{◌≡◌, refl, ◌↔◌, String, ◌==◌, Option, none, some, [], ◌∷◌, if◌then◌else◌}
use manteion_go.Base.Result.{ok}
use manteion_go.Model.Fault.{
  FaultComposition, validate_composition_fields, default_incompatibilities,
}
use manteion_go.Model.Rule.{
  Rule, ActionType, validate_action, validate_action_type, validate_cache_box_rule,
}
use manteion_go.Composition.{Answer, walk_depth, collect_leaves, validate_composition}
use manteion_go.Composition.Pairs.{PairsAllowed}
use manteion_go.Compile.{
  func_resolver, CompiledComposition, CompiledRule, resolve_composition, bare_rule, compile_action,
  compile_rule, compile_rules,
}
use manteion_go.Compile.Leaves.{tree_leaves}
use manteion_go.Compile.Accepted.{resolve_composition_iff, compile_rule_accepted}
use manteion_go.Scenarios.Compositions.{faults, pair_of_faults}
use manteion_go.Scenarios.Rules.{sparse}

abbrev comps : String → Option FaultComposition
comps id = if id == "pair" then some pair_of_faults else none

abbrev pair_rule : Rule
pair_rule = record sparse {
  id = "r2";
  name = "slow and busy";
  action = record {
    type = ActionType.fault_composition;
    fault_spec_id = "";
    fault_comp_id = "pair";
    cache_box = none;
  };
}

pair_valid : validate_composition faults comps pair_of_faults ≡ Answer.ok tt
unfolding validate_composition validate_composition_fields walk_depth default_incompatibilities
pair_valid = refl

resolve_composition_iff_example :
    (collect_leaves faults comps 3 pair_of_faults
      ≡ Answer.ok ("network:latency" ∷ "resource:cpu" ∷ []))
    ↔ ((tree : CompiledComposition) × (resolve_composition
            (func_resolver faults)
            (func_resolver comps)
            3
            "pair"
          ≡ ok tree)
        × (tree_leaves tree ≡ "network:latency" ∷ "resource:cpu" ∷ []))
resolve_composition_iff_example =
    resolve_composition_iff faults comps 3 "pair" pair_of_faults refl
      ("network:latency" ∷ "resource:cpu" ∷ [])

compile_rule_accepted_example :
    (tree : CompiledComposition) × (compile_rule
        (func_resolver faults)
        (some (func_resolver comps))
        pair_rule
      ≡ ok (record (bare_rule (func_resolver faults) pair_rule) { composition_tree = some tree }))
    × PairsAllowed pair_of_faults.execution_mode pair_of_faults.id default_incompatibilities
        (tree_leaves tree)
compile_rule_accepted_example =
    compile_rule_accepted faults comps pair_rule pair_of_faults refl refl pair_valid

abbrev frozen : CompiledRule
frozen = record (bare_rule (func_resolver faults) sparse) {
  cache_box = some (record { mode = "replay"; key_strategy = "exact" });
}

pub sparse_valid : validate_action sparse.action ≡ none
unfolding validate_action validate_action_type validate_cache_box_rule
sparse_valid = refl

sparse_compiled : compile_rule (func_resolver faults) none sparse ≡ ok frozen
unfolding compile_rule compile_action
sparse_compiled = refl

two_compiled :
    compile_rules (func_resolver faults) none (sparse ∷ sparse ∷ []) ≡ ok (frozen ∷ frozen ∷ [])
unfolding compile_rules compile_rule compile_action
two_compiled = refl
