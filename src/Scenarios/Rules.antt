-- ===== src/Scenarios/Rules.antt =====
-- A rule that freezes a service, with the defaults left to Validate.
use manteion_go.Base.{◌≡◌, refl, true, none, some, []}
use manteion_go.Base.Int.{pos}
use manteion_go.Model.Rule.{
  Rule, ActionType, validate_rule_fields, validate_rule, validate_action, validate_action_type,
  validate_cache_box_rule,
}

abbrev pub sparse : Rule
sparse = record {
  id = "r1";
  name = "freeze cart";
  service = "cart";
  enabled = true;
  priority = pos 1;
  match = record { injection_point = ""; labels = [] };
  action = record {
    type = ActionType.cachebox;
    fault_spec_id = "";
    fault_comp_id = "";
    cache_box = some (record { mode = "replay"; key_strategy = "exact" });
  };
  mode = "";
  match_expr = "";
  start_policy = "";
  created_at = 0;
  updated_at = 0;
}

abbrev pub filled : Rule
filled = record sparse { mode = "inline"; start_policy = "deduplicate_by_rule" }

pub sparse_accepted : validate_rule sparse ≡ (filled, none)
unfolding validate_rule validate_rule_fields validate_action validate_action_type
    validate_cache_box_rule
sparse_accepted = refl
