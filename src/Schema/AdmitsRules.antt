-- ===== src/Schema/AdmitsRules.antt =====
-- internal/db/migrations.go: the constraints of rules admit what Rule.Validate and
-- MatchCriteria.Validate accept.
use manteion_go.Base.{
  ◌≡◌, refl, String, ◌==◌, Bool, true, false, not, ◌&&◌, ◌||◌, Option, none, some, [], ◌∷◌,
  has_text, chain_passed, reject, wrap, context, context-eq-none, reject-eq-none, >>-eq-none, arith,
}
use manteion_go.Model.Trace.{is_none}
use manteion_go.Model.Rule.{
  Rule, ActionType, CacheBoxRuleConfig, valid_mode, validate_cache_box_action, is_cachebox,
  validate_action_type, validate_action, validate_match, validate_rule_fields, validate_rule,
}
use manteion_go.Model.Rule.Defaults.{validate_rule_fills}
use manteion_go.Store.Rules.{null_string, null_cache_box_mode, Codec, RuleRow, to_row}
use manteion_go.Schema.{
  is_there, admits_rule, rules_action_check, rules_injection_point_check, initial_rules_check,
}

-- One ID is set, and not the other nor a cache-box configuration.
id_alone :
    (a b : String) (c : Option CacheBoxRuleConfig)
    → (a == "") ≡ false
    → (not (b == "") || not (is_none c)) ≡ false
    → (is_there (null_string a) && is_none (null_string b) && is_none (null_cache_box_mode c))
      ≡ true
id_alone a b none h k = ground arith
id_alone a b (some c) h k = ground arith

config_alone :
    (a b : String) (c : Option CacheBoxRuleConfig)
    → is_none c ≡ false
    → (not (a == "") || not (b == "")) ≡ false
    → (is_there (null_cache_box_mode c) && is_none (null_string a) && is_none (null_string b))
      ≡ true
config_alone a b none h k = cc
config_alone a b (some c) h k = ground arith

mode_column :
    (mode : String) → valid_mode mode ≡ true → has_text mode ("inline" ∷ "background" ∷ []) ≡ true
mode_column mode h = ground arith

module _ (codec : Codec) where
  action_known :
      (t : ActionType) (r : Rule)
      → validate_action_type t r.action ≡ none
      → rules_action_check t (to_row codec r) ≡ true
  unfolding validate_action_type
  action_known ActionType.fault_spec r h =
      let (one, two) = (>>-eq-none (reject (r.action.fault_spec_id == "") _) (reject _ _)).0 h in
      id_alone r.action.fault_spec_id r.action.fault_comp_id r.action.cache_box
        ((reject-eq-none _ _).0 one) ((reject-eq-none _ _).0 two)
  action_known ActionType.fault_composition r h =
      let (one, two) = (>>-eq-none (reject (r.action.fault_comp_id == "") _) (reject _ _)).0 h in
      id_alone r.action.fault_comp_id r.action.fault_spec_id r.action.cache_box
        ((reject-eq-none _ _).0 one) ((reject-eq-none _ _).0 two)
  action_known ActionType.cachebox r h =
      let ((one, (two, _)), _) =
        chain_passed
          (reject (is_none r.action.cache_box) _
            ∷ reject (not (r.action.fault_spec_id == "") || not (r.action.fault_comp_id == "")) _
            ∷ [])
          (validate_cache_box_action r.action.cache_box) h in
      config_alone r.action.fault_spec_id r.action.fault_comp_id r.action.cache_box
        ((reject-eq-none _ _).0 one) ((reject-eq-none _ _).0 two)
  action_known (ActionType.other s) r h = refl

  -- The initial check, which asks for a fault spec or a composition.
  initial_known :
      (t : ActionType) (r : Rule)
      → validate_action_type t r.action ≡ none
      → initial_rules_check (to_row codec r) ≡ not (is_cachebox t)
  unfolding validate_action_type
  initial_known ActionType.fault_spec r h = ground arith
  initial_known ActionType.fault_composition r h = ground arith
  initial_known ActionType.cachebox r h = ground arith
  initial_known (ActionType.other s) r h = cc

  point_known :
      (r : Rule)
      → validate_match r.match ≡ none
      → rules_injection_point_check (to_row codec r) ≡ true
  unfolding validate_match
  point_known r h = ground arith

  action_checked :
      (r : Rule)
      → validate_rule_fields r ≡ none
      → validate_action_type r.action.type r.action ≡ none
  unfolding validate_rule_fields validate_action
  action_checked r h =
      (context-eq-none _ (validate_action r.action)).0
        (chain_passed
          (reject (r.id == "") _ ∷ reject (r.name == "") _ ∷ reject (r.service == "") _ ∷ [])
          (context (wrap "rule: %w") (validate_action r.action)) h).1

  -- The row of a rule that Validate accepts, with valid match criteria, is admitted by the CHECK
  -- constraints of rules exactly if it is no cache-box rule or migration 12 dropped the initial check:
  -- where that check is still there, the valid rules that are refused are those for the cache box.
  pub admits-to_row :
      (dropped : Bool) (r r' : Rule)
      → validate_rule r ≡ (r', none)
      → validate_match r'.match ≡ none
      → admits_rule dropped (to_row codec r') ≡ (dropped || not (is_cachebox r'.action.type))
  unfolding admits_rule
  admits-to_row dropped r r' h point =
      let (fields, mode, policy) = validate_rule_fills r r' h in
      let checked = action_checked r' fields in
      let known = action_known r'.action.type r' checked in
      let kept = initial_known r'.action.type r' checked in
      rw (known, mode_column r'.mode mode, point_known r' point, policy, kept) refl

  -- Where the initial check of rules is still there, no row of a cache-box rule that the other
  -- constraints admit is admitted.
  pub admits_rule_cachebox :
      (row : RuleRow) → is_cachebox row.action_type ≡ true → admits_rule false row ≡ false
  unfolding admits_rule
  admits_rule_cachebox row h = ground arith
