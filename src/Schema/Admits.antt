-- ===== src/Schema/Admits.antt =====
-- internal/db/migrations.go: the constraints of the tables admit what the validation of internal/model
-- accepts.
use manteion_go.Base.{
  ℕ, ◌+◌, ◌≡◌, refl, inl, inr, String, ◌==◌, true, false, not, ◌&&◌, ◌||◌, Option, none, some, List,
  [], ◌∷◌, Bool-cases, has_text, chain_passed, reject, wrap, wrap_at, context, check_passed,
  context-eq-none, reject-eq-none, arith, ltb, length,
}
use manteion_go.Base.Int.{pos, lez}
use manteion_go.Model.Trace.{is_none}
use manteion_go.Model.Fault.{
  FaultSpec, FaultComposition, FaultCompositionMember, Direction, direction_text, valid_direction,
  ExecutionMode, valid_execution_mode, execution_mode_text, NetworkEnvelope, validate_fault_spec,
  check_fault_type, check_host, check_envelope, is_null_json, validate_member, validate_members,
  validate_composition_fields, beq_bool,
}
use manteion_go.Store.Rules.{null_string}
use manteion_go.Store.Faults.Members.{fields_members}
use manteion_go.Store.Faults.{
  spec_row, composition_row, member_row, member_rows, all_admitted, target_column, direction_column,
  scope_column,
}
use manteion_go.Schema.{
  in_or_null, categories, directions, admits_spec, admits_composition, admits_member, one_of_both,
}

pub category_known :
    (category fault_type : String)
    → check_fault_type category fault_type ≡ none
    → has_text category categories ≡ true
category_known category fault_type h = ground arith

host_known :
    (host category : String)
    → check_host host category ≡ none
    → in_or_null ("proxy" ∷ "inline" ∷ "process" ∷ []) (null_string host) ≡ true
host_known host category h = ground arith

direction_known :
    (d : Direction)
    → valid_direction d ≡ true
    → in_or_null directions (null_string (direction_text d)) ≡ true
direction_known Direction.upstream h = refl
direction_known Direction.downstream h = refl
direction_known Direction.unset h = refl
direction_known (Direction.other s) h = cc

envelope_known :
    (n : Option NetworkEnvelope) (category : String)
    → check_envelope n category ≡ none
    → ((category == "network")
          || (is_none (target_column n) && is_none (direction_column n) && is_none (scope_column n))
        ≡ true)
      × (in_or_null directions (direction_column n) ≡ true)
envelope_known none category h = (ground arith, refl)
envelope_known (some e) category h = elim (Bool-cases (category == "network")) [
  | inr c ↦ let h' = rw (c) at h in cc
  | inl c ↦ elim (Bool-cases (valid_direction e.direction)) [
    | inr d ↦ let h' = rw (c, d) at h in cc
    | inl d ↦ (rw (c) refl, direction_known e.direction d)
  ]
]

-- A valid fault spec is admitted by the constraints of fault_specs.
pub admits-spec_row :
    (f : FaultSpec) → validate_fault_spec f ≡ none → admits_spec (spec_row f) ≡ true
unfolding validate_fault_spec admits_spec
admits-spec_row f h =
    let ((_, (_, (category, (_, (_, (host, _)))))), envelope) =
      chain_passed
        (reject (f.id == "") _
          ∷ reject (f.name == "") _
          ∷ context (wrap "fault spec: %w") (check_fault_type f.category f.fault_type)
          ∷ reject (f.category == "inline" && f.fault_type == "hang" && lez f.duration_ms (pos 0)) _
          ∷ reject (is_null_json f.params) _
          ∷ check_host f.host f.category
          ∷ [])
        (check_envelope f.network f.category) h in
    let known =
      category_known f.category f.fault_type
        ((context-eq-none _ (check_fault_type f.category f.fault_type)).0 category) in
    let (network, direction) = envelope_known f.network f.category envelope in
    rw (known, host_known f.host f.category host, network, direction) refl

mode_known :
    (m : ExecutionMode)
    → valid_execution_mode m ≡ true
    → has_text (execution_mode_text m) ("parallel" ∷ "sequential" ∷ []) ≡ true
mode_known ExecutionMode.parallel h = refl
mode_known ExecutionMode.sequential h = refl
mode_known (ExecutionMode.other s) h = cc

one_known :
    (a b : String)
    → beq_bool (not (a == "")) (not (b == "")) ≡ false
    → one_of_both (null_string a) (null_string b) ≡ true
one_known a b h = ground arith

member_known :
    (id : String) (i : ℕ) (m : FaultCompositionMember)
    → validate_member m ≡ none
    → admits_member (member_row id i m) ≡ true
unfolding validate_member admits_member
member_known id i m h =
    let (one, direction) =
      check_passed
        (reject (beq_bool (not (m.fault_spec_id == "")) (not (m.child_composition_id == ""))) _)
        (reject (not (valid_direction m.direction)) _) h in
    rw
      (
        direction_known m.direction (ground (arith, direction)),
        one_known m.fault_spec_id m.child_composition_id ((reject-eq-none _ _).0 one),
      )
      refl

members_known :
    (id : String) (i j : ℕ) (ms : List FaultCompositionMember)
    → validate_members j ms ≡ none
    → all_admitted admits_member (member_rows id i ms) ≡ true
unfolding validate_members member_rows
members_known id i j [] h = refl
members_known id i j (m ∷ ms) h =
    let (first, rest) =
      check_passed (context (wrap_at "fault composition member[%d]: %w" j) (validate_member m))
        (validate_members (j + 1) ms) h in
    rw
      (
        member_known id i m ((context-eq-none _ (validate_member m)).0 first),
        members_known id (i + 1) (j + 1) ms rest,
      )
      refl

mode_checked :
    (c : FaultComposition)
    → validate_composition_fields c ≡ none
    → valid_execution_mode c.execution_mode ≡ true
unfolding validate_composition_fields
mode_checked c h =
    let ((_, (_, (mode, _))), _) =
      chain_passed
        (reject (c.id == "") _
          ∷ reject (c.name == "") _
          ∷ reject (not (valid_execution_mode c.execution_mode)) _
          ∷ reject (ltb (length c.members) 2) _
          ∷ [])
        (validate_members 0 c.members) h in
    ground (arith, mode)

-- A composition with valid fields is admitted by the constraints of fault_compositions, and its
-- members by those of fault_composition_members.
pub admits-composition_row :
    (c : FaultComposition)
    → validate_composition_fields c ≡ none
    → (admits_composition (composition_row c) ≡ true)
      × (all_admitted admits_member (member_rows c.id 0 c.members) ≡ true)
unfolding admits_composition
admits-composition_row c h = (
  mode_known c.execution_mode (mode_checked c h),
  members_known c.id 0 0 c.members (fields_members c h),
)
