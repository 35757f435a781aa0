-- ===== src/Api/Handlers/Rules.antt =====
-- internal/api/rule_handler.go: the handlers of rules over the rule store, and the event that tells the
-- subscribers of a rule's service of a change. The new ID, the time and the JSON of the event's version
-- are arguments.
pub mod Broadcasts
use manteion_go.Base.{
  ℕ, suc, String, ◌==◌, Bool, Option, none, some, List, Check, Error, if◌then◌else◌,
}
use manteion_go.Base.Result.{Result, ok, err, panic}
use manteion_go.Model.Rule.{Rule}
use manteion_go.Store.Rules as Rules
use manteion_go.Store.Rules.{Codec, RuleRow, RuleTable}
use manteion_go.Api.Broker.{EventBroker, Event, broadcast}
use manteion_go.Api.Handlers.{Reply, json, error, no_content, store_error, get_reply, list_reply}
use manteion_go.Api.Handlers.Faults.{or_fresh}

-- The part of the server that these handlers use.
pub record RuleServer : Type 0 where
  pub rules : RuleTable
  pub broker : EventBroker

module _ (event_data : ℕ → String) where
  -- The version is read after the change.
  unfoldable pub broadcast_rules_changed : String → RuleServer → RuleServer
  unfolding broadcast
  broadcast_rules_changed service s = record s {
    broker =
        broadcast service
          (record { type = "rules_changed"; data_text = event_data s.rules.version }) s.broker;
  }

module _ (codec : Codec) (event_data : ℕ → String) (admits : RuleRow → Bool) where
  -- The end of the two handlers, from the store's answer, the rule as the store leaves it, and the table.
  abbrev pub saved :
      ℕ → (Error → Reply Rule) → Check × Rule × RuleTable → RuleServer → Reply Rule × RuleServer
  saved code refuse (none, rule, t) s =
      (json code rule, broadcast_rules_changed event_data rule.service (record s { rules = t }))
  saved code refuse (some cause, rule, t) s = (refuse cause, record s { rules = t })

  unfoldable pub handle_create_rule :
      String → ℕ → Option Rule → RuleServer → Reply Rule × RuleServer
  unfolding Rules.create broadcast_rules_changed
  handle_create_rule fresh now none s = (error 400, s)
  handle_create_rule fresh now (some body) s =
      let rule = record body { id = or_fresh fresh body.id; created_at = now; updated_at = now } in
      saved 201 (λ cause. error 400) (Rules.create codec admits rule s.rules) s

  unfoldable pub handle_update_rule :
      String → ℕ → Option Rule → RuleServer → Reply Rule × RuleServer
  unfolding Rules.update broadcast_rules_changed store_error
  handle_update_rule id now none s = (error 400, s)
  handle_update_rule id now (some body) s =
      let rule = record body { id = id; updated_at = now } in
      saved 200 (store_error 400) (Rules.update codec admits rule now s.rules) s

  -- The end of handleDeleteRule, once the rule's service is known.
  abbrev pub deleted : String → Check × RuleTable → RuleServer → Reply Rule × RuleServer
  deleted service (none, t) s =
      (no_content, broadcast_rules_changed event_data service (record s { rules = t }))
  deleted service (some cause, t) s = (store_error 500 cause, record s { rules = t })

  abbrev pub delete_found : String → Result Rule → RuleServer → Reply Rule × RuleServer
  delete_found id (ok existing) s = deleted existing.service (Rules.delete id s.rules) s
  delete_found id (err cause) s = (store_error 500 cause, s)
  delete_found id panic s = (error 500, s)

  unfoldable pub handle_delete_rule : String → RuleServer → Reply Rule × RuleServer
  unfolding Rules.get Rules.delete broadcast_rules_changed store_error
  handle_delete_rule id s = delete_found id (Rules.get codec id s.rules) s

  unfoldable pub handle_get_rule : String → RuleServer → Reply Rule
  unfolding Rules.get get_reply
  handle_get_rule id s = get_reply (Rules.get codec id s.rules)

  unfoldable pub handle_list_rules : RuleServer → Reply (List Rule)
  unfolding Rules.list
  handle_list_rules s = list_reply (Rules.list codec s.rules)
