-- ===== src/Model/Rule/Defaults.antt =====
-- internal/model/rule.go: the rule that Rule.Validate leaves where it accepts.
use mathlib.Core.Path.{subst}
use manteion_go.Base.{
  ◌≡◌, refl, ap, ◌∙◌, inl, inr, ◌==◌, Bool, true, false, not, ◌&&◌, none, [], ◌∷◌, Check, Error,
  errorf, reject, has_text, Bool-cases, Option-cases, arith,
}
use manteion_go.Model.Rule.{
  Rule, is_cachebox, with_default_mode, with_default_policy, valid_mode, valid_start_policies,
  validate_rule_fields, validate_rule,
}

fields-default_mode :
    (r : Rule) → validate_rule_fields (with_default_mode r) ≡ validate_rule_fields r
unfolding validate_rule_fields
fields-default_mode r = elim (Bool-cases (is_cachebox r.action.type && r.mode == "")) [
  | inl e ↦ ap validate_rule_fields (picked e) ∙ refl
  | inr e ↦ ap validate_rule_fields (kept e)
]
  where
    picked :
        (is_cachebox r.action.type && r.mode == "") ≡ true
        → with_default_mode r ≡ record r { mode = "inline" }
    picked e = rw (e, with_default_mode) refl

    kept : (is_cachebox r.action.type && r.mode == "") ≡ false → with_default_mode r ≡ r
    kept e = rw (e, with_default_mode) refl

fields-default_policy :
    (r : Rule) → validate_rule_fields (with_default_policy r) ≡ validate_rule_fields r
unfolding validate_rule_fields
fields-default_policy r = elim (Bool-cases (r.start_policy == "")) [
  | inl e ↦ ap validate_rule_fields (picked e) ∙ refl
  | inr e ↦ ap validate_rule_fields (kept e)
]
  where
    picked :
        (r.start_policy == "") ≡ true
        → with_default_policy r ≡ record r { start_policy = "deduplicate_by_rule" }
    picked e = rw (e, with_default_policy) refl

    kept : (r.start_policy == "") ≡ false → with_default_policy r ≡ r
    kept e = rw (e, with_default_policy) refl

mode-default_policy : (r : Rule) → (with_default_policy r).mode ≡ r.mode
mode-default_policy r = ground arith

pub validate_rule_fills :
    (r r' : Rule)
    → validate_rule r ≡ (r', none)
    → (validate_rule_fields r' ≡ none)
      × (valid_mode r'.mode ≡ true)
      × (has_text r'.start_policy valid_start_policies ≡ true)
unfolding validate_rule
validate_rule_fills r r' h = elim (Option-cases (validate_rule_fields r)) [
  | inr (e, failed) ↦ let h' = rw (failed, validate_rule) at h in cc
  | inl passed ↦ elim (Bool-cases (valid_mode (with_default_mode r).mode)) [
    | inr bad ↦ let h' = rw (passed, validate_rule, bad) at h in cc
    | inl good ↦
        let h' = rw (passed, validate_rule, good) at h in
        let d = with_default_policy (with_default_mode r) in
        let same : d ≡ r' = ap (λ (x : Rule × Check). x.0) h' in
        let passes : (validate_rule_fields d ≡ none)
            × (valid_mode d.mode ≡ true)
            × (has_text d.start_policy valid_start_policies ≡ true) =
          (
            fields-default_policy (with_default_mode r) ∙ fields-default_mode r ∙ passed,
            ap valid_mode (mode-default_policy (with_default_mode r)) ∙ good,
            known (has_text d.start_policy valid_start_policies)
                (errorf "rule: invalid start_policy %q" (d.start_policy ∷ []))
                (ap (λ (x : Rule × Check). x.1) h'),
          ) in
        subst
          (λ (x : Rule).
            (validate_rule_fields x ≡ none)
            × (valid_mode x.mode ≡ true)
            × (has_text x.start_policy valid_start_policies ≡ true))
          same passes
  ]
]
  where
    known : (b : Bool) (e : Error) → reject (not b) e ≡ none → b ≡ true
    known true e p = refl
    known false e p = cc
