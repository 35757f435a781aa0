-- ===== src/Model/Rule.antt =====
-- internal/model/rule.go: rules, their actions and match criteria. Validate of a rule fills in
-- defaults, so it returns the rule too.
pub mod Defaults
use manteion_go.Base.{
  ℕ, String, ◌==◌, Bool, true, false, not, ◌&&◌, ◌||◌, Option, none, some, List, [], ◌∷◌, new,
  errorf, wrap, Check, reject, context, ◌>>◌, has_text, if◌then◌else◌,
}
use manteion_go.Base.Int.{ℤ}
use manteion_go.Model.Trace.{is_none, valid_key_strategies}

pub record CacheBoxRuleConfig : Type 0 where
  pub mode : String
  pub key_strategy : String

abbrev pub valid_rule_modes : List String
valid_rule_modes = "passthrough" ∷ "replay" ∷ "replay_with_delay" ∷ []

unfoldable pub validate_cache_box_rule : CacheBoxRuleConfig → Check
validate_cache_box_rule c = do
  reject (not (has_text c.mode valid_rule_modes))
      (errorf "cachebox rule: invalid mode %q" (c.mode ∷ []))
  reject (not (has_text c.key_strategy valid_key_strategies))
      (errorf "cachebox rule: invalid key_strategy %q" (c.key_strategy ∷ []))

pub data ActionType : Type 0 where
  fault_spec fault_composition cachebox : ActionType
  other : String → ActionType

pub record RuleAction : Type 0 where
  pub type : ActionType
  pub fault_spec_id : String
  pub fault_comp_id : String
  pub cache_box : Option CacheBoxRuleConfig

-- `return a.CacheBox.Validate()`, behind the test that it is there.
abbrev pub validate_cache_box_action : Option CacheBoxRuleConfig → Check
validate_cache_box_action none = none
validate_cache_box_action (some c) = validate_cache_box_rule c

unfoldable pub validate_action_type : ActionType → RuleAction → Check
unfolding validate_cache_box_rule
validate_action_type ActionType.fault_spec a = do
  reject (a.fault_spec_id == "") (new "rule action: fault_spec_id required for type=fault_spec")
  reject (not (a.fault_comp_id == "") || not (is_none a.cache_box))
      (new "rule action: only fault_spec_id allowed for type=fault_spec")
validate_action_type ActionType.fault_composition a = do
  reject (a.fault_comp_id == "")
      (new "rule action: fault_composition_id required for type=fault_composition")
  reject (not (a.fault_spec_id == "") || not (is_none a.cache_box))
      (new "rule action: only fault_composition_id allowed for type=fault_composition")
validate_action_type ActionType.cachebox a = do
  reject (is_none a.cache_box) (new "rule action: cachebox config required for type=cachebox")
  reject (not (a.fault_spec_id == "") || not (a.fault_comp_id == ""))
      (new "rule action: only cachebox allowed for type=cachebox")
  validate_cache_box_action a.cache_box
validate_action_type (ActionType.other s) a = some (errorf "rule action: invalid type %q" (s ∷ []))

unfoldable pub validate_action : RuleAction → Check
unfolding validate_action_type
validate_action a = validate_action_type a.type a

pub record MatchCriteria : Type 0 where
  pub injection_point : String
  pub labels : List (String × String)

abbrev pub valid_injection_points : List String
valid_injection_points = "" ∷ "ingress" ∷ "egress" ∷ "transient" ∷ "custom" ∷ []

unfoldable pub validate_match : MatchCriteria → Check
validate_match m =
    reject (not (has_text m.injection_point valid_injection_points))
      (errorf "match criteria: invalid injection_point %q" (m.injection_point ∷ []))

pub record Rule : Type 0 where
  pub id : String
  pub name : String
  pub service : String
  pub enabled : Bool
  pub priority : ℤ
  pub match : MatchCriteria
  pub action : RuleAction
  pub mode : String
  pub match_expr : String
  pub start_policy : String
  pub created_at : ℕ
  pub updated_at : ℕ

abbrev pub valid_start_policies : List String
valid_start_policies = "deduplicate_by_rule" ∷ "always_start" ∷ []

abbrev pub is_cachebox : ActionType → Bool
is_cachebox ActionType.cachebox = true
is_cachebox _ = false

-- The rule with the mode, or the start policy, that Validate fills in.
abbrev pub with_default_mode : Rule → Rule
with_default_mode r =
    if is_cachebox r.action.type && r.mode == "" then record r { mode = "inline" } else r

abbrev pub with_default_policy : Rule → Rule
with_default_policy r =
    if r.start_policy == "" then record r { start_policy = "deduplicate_by_rule" } else r

abbrev pub valid_mode : String → Bool
valid_mode mode = mode == "inline" || mode == "background"

-- The checks before a default is filled in.
unfoldable pub validate_rule_fields : Rule → Check
unfolding validate_action
validate_rule_fields r = do
  reject (r.id == "") (new "rule: id required")
  reject (r.name == "") (new "rule: name required")
  reject (r.service == "") (new "rule: service required")
  context (wrap "rule: %w") (validate_action r.action)

-- The rule as Validate leaves it, and its answer.
unfoldable pub validate_rule : Rule → Rule × Check
unfolding validate_rule_fields
validate_rule r = elim (validate_rule_fields r) [
  | some e ↦ (r, some e)
  | none ↦
      let r' = with_default_mode r in
      if valid_mode r'.mode
      then (let r'' = with_default_policy r' in
          (
            r'',
            reject (not (has_text r''.start_policy valid_start_policies))
                (errorf "rule: invalid start_policy %q" (r''.start_policy ∷ [])),
          ))
      else (r', some (errorf "rule: invalid mode %q" (r'.mode ∷ [])))
]
