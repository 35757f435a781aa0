-- ===== src/Model/Policy.antt =====
-- internal/model/policy.go: rules that act when a metric passes a threshold.
use manteion_go.Base.{
  ℕ, String, ◌==◌, Bool, not, Option, none, some, List, [], ◌∷◌, new, errorf, wrap, Check, reject,
  context, ◌>>◌, is_nil,
}
use manteion_go.Base.Int.{ℤ, pos, ltz, lez}
use manteion_go.Base.Float.{Float64}
use manteion_go.Model.Trace.{CacheBoxConfig, validate_cache_box}
use manteion_go.Model.Experiment.{Operator, valid_operator}

pub record PolicyCondition : Type 0 where
  pub metric : String
  pub operator : Operator
  pub threshold : Float64

unfoldable pub validate_condition : PolicyCondition → Check
validate_condition c = do
  reject (c.metric == "") (new "condition: metric required")
  reject (not (valid_operator c.operator)) (new "condition: invalid operator %q")

pub record AttackTargetSpec : Type 0 where
  pub url : String
  pub method : String
  pub rate : ℤ
  pub duration_ms : ℤ
  pub dedup_bypass : String

unfoldable pub validate_attack_target : AttackTargetSpec → Check
validate_attack_target s = do
  reject (s.url == "") (new "attack target: url required")
  reject (s.method == "") (new "attack target: method required")
  reject (lez s.rate (pos 0)) (new "attack target: rate must be > 0")
  reject (lez s.duration_ms (pos 0)) (new "attack target: duration_ms must be > 0")

pub record PushRulesAction : Type 0 where
  pub service : String
  pub rule_ids : List String

unfoldable pub validate_push_rules : PushRulesAction → Check
validate_push_rules a = do
  reject (a.service == "") (new "push_rules: service required")
  reject (is_nil a.rule_ids) (new "push_rules: at least one rule_id required")

pub data ActionType : Type 0 where
  push_rules clear_rules attack cachebox_mode_change : ActionType
  other : String → ActionType

pub record PolicyAction : Type 0 where
  pub action_type : ActionType
  pub attack_target : Option AttackTargetSpec
  pub cache_box_change : Option CacheBoxConfig
  pub push_rules : Option PushRulesAction

abbrev require {ℓ} : {A : Type ℓ} → Option A → String → (A → Check) → Check
require none text check = some (new text)
require (some a) text check = check a

unfoldable pub validate_policy_action_type : ActionType → PolicyAction → Check
unfolding validate_attack_target validate_push_rules
validate_policy_action_type ActionType.attack a =
    require a.attack_target "action: attack_target required for action_type=attack"
      validate_attack_target
validate_policy_action_type ActionType.cachebox_mode_change a =
    require a.cache_box_change
      "action: cachebox_change required for action_type=cachebox_mode_change" validate_cache_box
validate_policy_action_type ActionType.push_rules a =
    require a.push_rules "action: push_rules required for action_type=push_rules"
      validate_push_rules
validate_policy_action_type ActionType.clear_rules a =
    require a.push_rules "action: push_rules.service required for action_type=clear_rules" (λ p.
      reject (p.service == "")
        (new "action: push_rules.service required for action_type=clear_rules"))
validate_policy_action_type (ActionType.other s) a =
    some (errorf "action: invalid action_type %q" (s ∷ []))

unfoldable pub validate_policy_action : PolicyAction → Check
unfolding validate_policy_action_type
validate_policy_action a = validate_policy_action_type a.action_type a

-- The cooldown is a `time.Duration`, in nanoseconds.
pub record PolicyRule : Type 0 where
  pub id : String
  pub name : String
  pub enabled : Bool
  pub condition : PolicyCondition
  pub action : PolicyAction
  pub cooldown : ℤ
  pub created_at : ℕ

unfoldable pub validate_policy_rule : PolicyRule → Check
unfolding validate_condition validate_policy_action
validate_policy_rule r = do
  reject (r.id == "") (new "policy rule: id required")
  reject (r.name == "") (new "policy rule: name required")
  context (wrap "policy rule: %w") (validate_condition r.condition)
  context (wrap "policy rule: %w") (validate_policy_action r.action)
  reject (ltz r.cooldown (pos 0)) (new "policy rule: cooldown must be non-negative")
