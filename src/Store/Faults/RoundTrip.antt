-- ===== src/Store/Faults/RoundTrip.antt =====
-- internal/store/fault_repo.go: what GetSpec and GetComposition read after a create, and that the rows
-- of the members always have their composition.
use manteion_go.Base.{
  zero, suc, ◌≡◌, refl, sym, ap, inl, inr, if◌then◌else◌, String, ◌==◌, Bool, true, false, not,
  ◌&&◌, ◌||◌, Option, none, some, [], ◌∷◌, Bool-cases, Option-cases, text_self, Check, wrap,
  context, chain_passed, reject, arith,
}
use manteion_go.Base.Int.{pos, negsuc, lez}
use manteion_go.Base.Float.{
  Float64, finite, nan, pos_inf, neg_inf, lt_float, zero_float, is_nan, eq_float,
}
use manteion_go.Base.Result.{ok}
use manteion_go.Model.Trace.{is_none}
use manteion_go.Model.Fault.{
  Direction, direction_text, valid_direction, NetworkEnvelope, FaultSpec, validate_fault_spec,
  check_envelope, check_fault_type, check_host, is_null_json,
}
use manteion_go.Store.Rules.{null_string}
use manteion_go.Store.Rules.RoundTrip.{string_back}
use manteion_go.Store.Tables.{find_key, has_key}
use manteion_go.Store.Faults.{
  SpecRow, FaultTables, spec_key, direction_of, target_column, direction_column, scope_column,
  scope_or_zero, hydrate_network_envelope, spec_row, scan_spec, get_spec, create_spec,
}

pub direction_back :
    (d : Direction) → valid_direction d ≡ true → direction_of (direction_text d) ≡ d
direction_back Direction.upstream h = refl
direction_back Direction.downstream h = refl
direction_back Direction.unset h = refl
direction_back (Direction.other s) h = cc

-- The envelope without content is stored like none.
abbrev pub is_unset : Direction → Bool
is_unset Direction.unset = true
is_unset _ = false

abbrev pub kept_network : Option NetworkEnvelope → Option NetworkEnvelope
kept_network none = none
kept_network (some e) =
    if e.target == "" && is_unset e.direction && eq_float e.scope zero_float then none else some e

abbrev pub scope_is_nan : Option NetworkEnvelope → Bool
scope_is_nan none = false
scope_is_nan (some e) = is_nan e.scope

scope_back :
    (x : Float64)
    → lt_float x zero_float ≡ false
    → is_nan x ≡ false
    → (is_none (if lt_float zero_float x then some x else none) ≡ eq_float x zero_float)
      × (scope_or_zero (if lt_float zero_float x then some x else none) ≡ x)
scope_back nan h k = cc
scope_back pos_inf h k = (refl, refl)
scope_back neg_inf h k = cc
scope_back (finite (pos zero)) h k = (refl, refl)
scope_back (finite (pos (suc n))) h k = (ground arith, ground arith)
scope_back (finite (negsuc n)) h k = ground arith

blank_text : (s : String) → is_none (null_string s) ≡ (s == "")
blank_text s = elim (Bool-cases (s == "")) [ inl e ↦ rw (e) refl | inr e ↦ rw (e) refl ]

blank_direction :
    (d : Direction)
    → valid_direction d ≡ true
    → is_none (null_string (direction_text d)) ≡ is_unset d
blank_direction Direction.upstream h = refl
blank_direction Direction.downstream h = refl
blank_direction Direction.unset h = refl
blank_direction (Direction.other s) h = cc

envelope_back :
    (e : NetworkEnvelope)
    → valid_direction e.direction ≡ true
    → lt_float e.scope zero_float ≡ false
    → is_nan e.scope ≡ false
    → hydrate_network_envelope
        (target_column (some e))
        (direction_column (some e))
        (scope_column (some e))
      ≡ kept_network (some e)
unfolding hydrate_network_envelope
envelope_back e valid low number =
    let (blank, back) = scope_back e.scope low number in
    rw
      (
        blank_text e.target,
        blank_direction e.direction valid,
        blank,
        string_back e.target,
        string_back (direction_text e.direction),
        direction_back e.direction valid,
        back,
      )
      refl

network_back :
    (n : Option NetworkEnvelope) (category : String)
    → check_envelope n category ≡ none
    → scope_is_nan n ≡ false
    → hydrate_network_envelope (target_column n) (direction_column n) (scope_column n)
      ≡ kept_network n
unfolding hydrate_network_envelope
network_back none category h k = refl
network_back (some e) category h k = elim (Bool-cases (category == "network")) [
  | inr c ↦ let h' = rw (c) at h in cc
  | inl c ↦ elim (Bool-cases (valid_direction e.direction)) [
    | inr d ↦ let h' = rw (c, d) at h in cc
    | inl d ↦ elim (Bool-cases (lt_float e.scope zero_float)) [
      | inl l ↦ let h' = rw (c, d, l) at h in cc
      | inr l ↦ envelope_back e d l k
    ]
  ]
]

envelope_checked :
    (f : FaultSpec) → validate_fault_spec f ≡ none → check_envelope f.network f.category ≡ none
unfolding validate_fault_spec
envelope_checked f h =
    (chain_passed
      (reject (f.id == "") _
        ∷ reject (f.name == "") _
        ∷ context (wrap "fault spec: %w") (check_fault_type f.category f.fault_type)
        ∷ reject (f.category == "inline" && f.fault_type == "hang" && lez f.duration_ms (pos 0)) _
        ∷ reject (is_null_json f.params) _
        ∷ check_host f.host f.category
        ∷ [])
      (check_envelope f.network f.category) h).1

spec_back :
    (f : FaultSpec)
    → validate_fault_spec f ≡ none
    → scope_is_nan f.network ≡ false
    → scan_spec (spec_row f) ≡ record f { network = kept_network f.network }
unfolding scan_spec
spec_back f valid number =
    rw (string_back f.host, network_back f.network f.category (envelope_checked f valid) number)
      refl

module _ (admits : SpecRow → Bool) where
  -- A spec that CreateSpec accepts is read back by GetSpec as it was, and so does its resolver, but
  -- for an envelope without target, direction and scope, which is read back as none, if its scope is
  -- a number.
  pub create_spec-get_spec :
      (f : FaultSpec) (t t' : FaultTables)
      → create_spec admits f t ≡ (none, t')
      → scope_is_nan f.network ≡ false
      → get_spec f.id t' ≡ ok (record f { network = kept_network f.network })
  unfolding create_spec get_spec find_key
  create_spec-get_spec f t t' h number = elim (Option-cases (validate_fault_spec f)) [
    | inr (e, bad) ↦ let h' = rw (bad, create_spec) at h in cc
    | inl good ↦ elim (Bool-cases (has_key spec_key f.id t.specs || not (admits (spec_row f)))) [
      | inl taken ↦ let h' = rw (good, create_spec, taken) at h in cc
      | inr free ↦
          let h' = rw (good, create_spec, free) at h in
          let made : t' ≡ record t { specs = spec_row f ∷ t.specs } =
            ap (λ (x : Check × FaultTables). x.1) (sym h') in
          rw (made, text_self f.id, get_spec) (ap (λ x. ok x) (spec_back f good number))
    ]
  ]
