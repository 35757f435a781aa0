-- ===== src/Scenarios/Stores.antt =====
-- A rule that is created, updated and read, and an instance that registers.
use manteion_go.Base.{◌+◌, ◌*◌, ◌≡◌, refl, ◌==◌, Bool, true, false, none, some, [], ◌∷◌, leb}
use manteion_go.Base.Int.{pos, pos_part}
use manteion_go.Base.Result.{ok}
use manteion_go.Model.Rule.{
  Rule, validate_rule, validate_rule_fields, validate_action, validate_action_type,
  validate_cache_box_rule,
}
use manteion_go.Model.Sdk.{SdkInstance, validate_instance, validate_routes}
use manteion_go.Control.{filter_alive_or_suspect}
use manteion_go.Store.Rules as Rules
use manteion_go.Store.Rules.{
  Codec, RuleRow, RuleTable, find_row, update_rows, to_row, create, update,
}
use manteion_go.Store.Rules.RoundTrip.{create-get, update-get}
use manteion_go.Store.Sdk as Sdk
use manteion_go.Store.Sdk.{
  read_row, find_instance, with_default_interval, registered, register, update_instances,
  purge_dead, status_at,
}
use manteion_go.Store.Sdk.Liveness.{register-get}
use manteion_go.Scenarios.Rules.{sparse, filled}

-- The rules of these examples have no labels.
abbrev pub no_labels : Codec
no_labels = record { encode = λ l. "null"; decode = λ text. some [] }

abbrev pub all_admitted : RuleRow → Bool
all_admitted row = true

abbrev empty_table : RuleTable
empty_table = record { rows = []; version = 4 }

abbrev one_rule : RuleTable
one_rule = record { rows = to_row no_labels filled ∷ []; version = 5 }

sparse_created : create no_labels all_admitted sparse empty_table ≡ (none, filled, one_rule)
unfolding create validate_rule validate_rule_fields validate_action validate_action_type
    validate_cache_box_rule find_row
sparse_created = refl

create-get_example :
    (validate_rule sparse ≡ (filled, none)) × (Rules.get no_labels "r1" one_rule ≡ ok filled)
create-get_example =
    create-get no_labels all_admitted sparse filled empty_table one_rule sparse_created refl

abbrev renamed : Rule
renamed = record sparse { name = "freeze basket" }

abbrev filled_again : Rule
filled_again = record filled { name = "freeze basket" }

unfoldable updated_table : RuleTable
updated_table = (update no_labels all_admitted renamed 70 one_rule).2

renamed_updated :
    update no_labels all_admitted renamed 70 one_rule ≡ (none, filled_again, updated_table)
unfolding updated_table update validate_rule validate_rule_fields validate_action
    validate_action_type validate_cache_box_rule find_row update_rows
renamed_updated = refl

update-get_example :
    (old : RuleRow) × (find_row "r1" one_rule.rows ≡ some old)
    × (Rules.get no_labels "r1" updated_table
        ≡ ok (record filled_again { created_at = old.created_at; updated_at = 70 }))
update-get_example =
    update-get no_labels all_admitted renamed filled_again 70 one_rule updated_table renamed_updated
      refl

abbrev cart_instance : SdkInstance
cart_instance = record {
  id = "cart-1";
  service = "cart";
  version = "v1";
  address = "10.0.0.1";
  poll_interval_ms = pos 0;
  registered_at = 0;
  last_poll_at = 0;
  status = "";
  routes = [];
}

cart_registered : register cart_instance 100 [] ≡ (none, registered 100 cart_instance ∷ [])
unfolding register validate_instance validate_routes find_instance
cart_registered = refl

register-get_example :
    (Sdk.get "cart-1" 500 (registered 100 cart_instance ∷ [])
      ≡ ok (read_row 500 (registered 100 cart_instance)))
    × (filter_alive_or_suspect (read_row 500 (registered 100 cart_instance))
        ≡ leb 500 (100 + 2000 * pos_part (with_default_interval (pos 0))))
register-get_example =
    register-get cart_instance 100 [] (registered 100 cart_instance ∷ []) cart_registered 500

cart_found :
    find_instance "cart-1" (registered 100 cart_instance ∷ []) ≡ some (registered 100 cart_instance)
unfolding find_instance
cart_found = refl

-- Thirty seconds later the instance is stale.
cart_stale : (status_at 30000000 (registered 100 cart_instance) == "dead") ≡ false
unfolding status_at
cart_stale = refl
