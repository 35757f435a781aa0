-- ===== src/Scenarios/Api.antt =====
-- Polls around a change of a rule and the deletion of an active fault, pages, and events.
use manteion_go.Base.{
  ℕ, ◌≡◌, refl, String, ◌==◌, false, Option, none, some, List, [], ◌∷◌, if◌then◌else◌, arith,
}
use manteion_go.Base.Int.{ℤ, pos}
use manteion_go.Model.FaultConfig.{FaultConfig, FaultConfigStatus, can_fire, validate_fault_config}
use manteion_go.Model.Trace.{is_none}
use manteion_go.FaultLife.{
  find_config, delete_config, done, fire, create_config, list_active_for_service,
  insert_by_creation,
}
use manteion_go.Store.Rules.{delete, find_row}
use manteion_go.Store.Rules.Versions as Rules
use manteion_go.Api.Poll.{Tables, fault_table, PollRequest, not_modified, handle_poll_rules}
use manteion_go.Api.Poll.Versions.{
  Change, rule_change, fires, creates_config, with_faults, apply_all, SameDesired, any_deletion,
}
use manteion_go.Api.Poll.Protocol.{not_modified_safe, delete_not_told}
use manteion_go.Api.Pages.{parse_pagination, parse_pagination_asked}
use manteion_go.Api.Broker.{
  new_event_broker, subscribe, unsubscribe, broadcast, has_subscriber, drop_subscriber, send_all,
}
use manteion_go.Api.Broker.Buffers.{
  Operation, subscribes, unsubscribes, broadcasts, perform_all, Invariant,
}
use manteion_go.Api.Broker.Laws.{perform_all-Invariant}
use manteion_go.Scenarios.Faults.{slow_cart}
use manteion_go.Scenarios.Stores.{no_labels, all_admitted}

abbrev active_cart : FaultConfig
active_cart = record slow_cart { status = FaultConfigStatus.active; fired_at = some 0 }

abbrev tables : Tables
tables = record { rules = []; configs = active_cart ∷ []; version = 7 }

abbrev parse_uint : String → ℕ
parse_uint text = if text == "7" then 7 else 0

abbrev cart_poll : PollRequest
cart_poll = record { service = "cart"; version = "7"; instance_id = "" }

-- A request for a fault is its ID here.
abbrev make_request : String → String → String → ℤ → String → String
make_request id category type duration config = id

-- Two changes that are refused, since no rule has the ID and the fault is active, and the creation of
-- a fault that is not fired.
abbrev quiet_changes : List Change
quiet_changes =
    rule_change (Rules.deletes "r9")
    ∷ fires "f1" 50
    ∷ creates_config "f2" 55 (record slow_cart { id = "" })
    ∷ []

quiet_poll :
    (handle_poll_rules {F = String} {D = String} make_request no_labels parse_uint
      (λ id. none)
      (λ id. none)
      cart_poll
      none
      60
      (apply_all no_labels all_admitted quiet_changes tables)
      []).0
    ≡ not_modified
unfolding handle_poll_rules delete find_row fire find_config can_fire create_config
    validate_fault_config
quiet_poll = refl

-- The fault was created.
quiet_created :
    is_none (find_config "f2" (apply_all no_labels all_admitted quiet_changes tables).configs)
    ≡ false
unfolding delete find_row fire find_config can_fire create_config validate_fault_config
quiet_created = refl

not_modified_safe_example :
    SameDesired
      (any_deletion quiet_changes)
      tables
      (apply_all no_labels all_admitted quiet_changes tables)
not_modified_safe_example =
    not_modified_safe {F = String} {D = String} make_request no_labels all_admitted parse_uint
      (λ id. none) (λ id. none) quiet_changes tables cart_poll none 60 [] refl quiet_poll

-- The fault that is deleted is applied at that time.
still_applied : list_active_for_service "cart" 1000 tables.configs ≡ active_cart ∷ []
unfolding list_active_for_service insert_by_creation
still_applied = refl

cart_found : find_config "f1" tables.configs ≡ some active_cart
unfolding find_config
cart_found = refl

delete_not_told_example :
    ((delete_config "f1" (fault_table tables)).0 ≡ done)
    × (find_config "f1" (delete_config "f1" (fault_table tables)).1.configs ≡ none)
    × ((handle_poll_rules {F = String} {D = String} make_request no_labels parse_uint
          (λ id. none)
          (λ id. none)
          cart_poll
          none
          1000
          (with_faults tables (delete_config "f1" (fault_table tables)).1)
          []).0
        ≡ not_modified)
delete_not_told_example =
    delete_not_told {F = String} {D = String} make_request no_labels all_admitted parse_uint
      (λ id. none) (λ id. none) "f1" active_cart tables cart_poll none 1000 [] cart_found refl refl

-- strconv.Atoi at two texts.
abbrev atoi : String → Option ℤ
atoi text = if text == "500" then some (pos 500) else if text == "40" then some (pos 40) else none

page_asked : parse_pagination atoi "40" "500" ≡ (pos 40, pos 500)
page_asked =
    parse_pagination_asked atoi "40" "500" (pos 40) (pos 500) refl refl refl refl (omega arith)
      (omega arith) (omega arith)

abbrev traffic : List Operation
traffic =
    subscribes "cart"
    ∷ subscribes "pay"
    ∷ broadcasts "cart" (record { type = "rules_changed"; data_text = "{}" })
    ∷ unsubscribes "cart" 0
    ∷ unsubscribes "cart" 0
    ∷ []

perform_all-Invariant_example : Invariant (perform_all traffic new_event_broker)
perform_all-Invariant_example = perform_all-Invariant traffic

-- The second Unsubscribe closes nothing.
closed_once : (perform_all traffic new_event_broker).closed ≡ 0 ∷ []
unfolding subscribe unsubscribe broadcast has_subscriber drop_subscriber send_all
closed_once = refl
