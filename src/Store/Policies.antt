-- ===== src/Store/Policies.antt =====
-- internal/store/policy_repo.go: the table of policy rules. The JSON of a condition and of an action is
-- a parameter; database errors other than a taken key are not modelled.
pub mod RoundTrip
use manteion_go.Base.{
  ℕ, String, ◌==◌, Bool, Option, none, some, List, ◌∷◌, Check, new, leb, if◌then◌else◌,
}
use manteion_go.Base.Int.{ℤ}
use manteion_go.Base.Result.{Result, ok, err, ◌>>=◌}
use manteion_go.Model.Policy.{PolicyRule, PolicyCondition, PolicyAction, validate_policy_rule}
use manteion_go.Store.Rules.{not_found}
use manteion_go.Store.Tables.{
  find_key, has_key, update_key, delete_key, affected_or_not_found, select, order_by, scan_all,
}

-- json.Marshal and json.Unmarshal of the two columns.
pub record PolicyCodec : Type 0 where
  pub condition_json : PolicyCondition → String
  pub read_condition : String → Option PolicyCondition
  pub action_json : PolicyAction → String
  pub read_action : String → Option PolicyAction

pub record PolicyRow : Type 0 where
  pub id : String
  pub name : String
  pub enabled : Bool
  pub condition : String
  pub action : String
  pub cooldown_ns : ℤ
  pub created_at : ℕ

abbrev pub policy_key : PolicyRow → String
policy_key r = r.id

abbrev pub unmarshal {ℓ} : {A : Type ℓ} → Option A → String → Result A
unmarshal none text = err (new text)
unmarshal (some a) text = ok a

abbrev pub policy_older : PolicyRow → PolicyRow → Bool
policy_older a b = leb a.created_at b.created_at

module _ (codec : PolicyCodec) where
  abbrev pub policy_row : PolicyRule → PolicyRow
  policy_row r = record {
    id = r.id;
    name = r.name;
    enabled = r.enabled;
    condition = codec.condition_json r.condition;
    action = codec.action_json r.action;
    cooldown_ns = r.cooldown;
    created_at = r.created_at;
  }

  -- The loop's body of scanPolicyRules, and the end of Get.
  unfoldable pub scan_policy : PolicyRow → Result PolicyRule
  scan_policy row =
      unmarshal (codec.read_condition row.condition) "unmarshal condition: %w" >>= λ c.
      unmarshal (codec.read_action row.action) "unmarshal action: %w" >>= λ a. ok (record {
        id = row.id;
        name = row.name;
        enabled = row.enabled;
        condition = c;
        action = a;
        cooldown = row.cooldown_ns;
        created_at = row.created_at;
      })

  unfoldable pub create : PolicyRule → List PolicyRow → Check × List PolicyRow
  unfolding find_key
  create r rows = elim (validate_policy_rule r) [
    | some cause ↦ (some cause, rows)
    | none ↦
        if has_key policy_key r.id rows
        then (some (new "insert policy_rule: %w"), rows)
        else (none, policy_row r ∷ rows)
  ]

  unfoldable pub get : String → List PolicyRow → Result PolicyRule
  unfolding find_key scan_policy
  get id rows = elim (find_key policy_key id rows) [ none ↦ err not_found | some r ↦ scan_policy r ]

  unfoldable pub list : List PolicyRow → Result (List PolicyRule)
  unfolding order_by scan_all scan_policy
  list rows = scan_all scan_policy (order_by policy_older rows)

  unfoldable pub list_enabled : List PolicyRow → Result (List PolicyRule)
  unfolding order_by select scan_all scan_policy
  list_enabled rows = scan_all scan_policy (order_by policy_older (select (λ r. r.enabled) rows))

unfoldable pub set_enabled : String → Bool → List PolicyRow → Check × List PolicyRow
unfolding find_key update_key
set_enabled id enabled rows = (
  affected_or_not_found policy_key id rows,
  update_key policy_key id (λ r. record r { enabled = enabled }) rows,
)

unfoldable pub delete : String → List PolicyRow → Check × List PolicyRow
unfolding find_key delete_key
delete id rows = (affected_or_not_found policy_key id rows, delete_key policy_key id rows)
