-- ===== src/Store/Faults/Members.antt =====
-- internal/store/fault_repo.go: the rows of the members always have their composition, and a
-- composition is read back with its members in order.
use manteion_go.Base.{
  ℕ, ◌+◌, ◌≡◌, refl, sym, ap, ◌∙◌, inl, inr, String, ◌==◌, Bool, true, false, not, none, List, [],
  ◌∷◌, ◌++◌, map, Bool-cases, Option-cases, text-cases, text_self, Check, All, leb, ltb, length,
  wrap_at, context, chain_passed, reject, check_passed, context-eq-none, arith,
}
use manteion_go.Base.Result.{ok}
use manteion_go.Model.Fault.{
  direction_text, valid_direction, valid_execution_mode, FaultCompositionMember, FaultComposition,
  validate_composition_fields, validate_members, validate_member, beq_bool,
}
use manteion_go.Store.Rules.RoundTrip.{string_back}
use manteion_go.Store.Tables.{find_key, has_key, select, order_by, insert_by}
use manteion_go.Store.Tables.Orders.{select-append}
use manteion_go.Store.Faults.{
  CompositionRow, MemberRow, FaultTables, composition_key, composition_row, member_row, member_rows,
  scan_member, is_member_of, before, load_members, get_composition, create_composition,
  all_admitted,
}
use manteion_go.Store.Faults.RoundTrip.{direction_back}

-- The composition of a member's row is there.
abbrev pub has_owner : List CompositionRow → MemberRow → Bool
has_owner comps r = has_key composition_key r.composition_id comps

abbrev pub HaveOwners : FaultTables → Type 0
HaveOwners t = All (λ r. has_owner t.compositions r ≡ true) t.members

no_members :
    (comps : List CompositionRow) (id : String) (rows : List MemberRow)
    → All (λ r. has_owner comps r ≡ true) rows
    → has_key composition_key id comps ≡ false
    → select (is_member_of id) rows ≡ []
unfolding select
no_members comps id [] h free = refl
no_members comps id (r ∷ rows) (h, hs) free = elim (text-cases r.composition_id id) [
  | inl (same, e) ↦
      let h' : has_key composition_key id comps ≡ true =
        ap (λ x. has_key composition_key x comps) (sym same) ∙ h in
      cc
  | inr (_, e) ↦ rw (e) (no_members comps id rows hs free)
]

own_members :
    (id : String) (i : ℕ) (ms : List FaultCompositionMember)
    → select (is_member_of id) (member_rows id i ms) ≡ member_rows id i ms
unfolding select member_rows
own_members id i [] = refl
own_members id i (m ∷ ms) =
    rw (text_self id) (ap (λ l. member_row id i m ∷ l) (own_members id (i + 1) ms))

members_ordered :
    (id : String) (i : ℕ) (ms : List FaultCompositionMember)
    → order_by before (member_rows id i ms) ≡ member_rows id i ms
unfolding order_by insert_by member_rows
members_ordered id i [] = refl
members_ordered id i (m ∷ []) = refl
members_ordered id i (m ∷ n ∷ ms) =
    let next : leb i (i + 1) ≡ true = ground arith in
    rw (members_ordered id (i + 1) (n ∷ ms), next) refl

member_back :
    (id : String) (i : ℕ) (m : FaultCompositionMember)
    → validate_member m ≡ none
    → scan_member (member_row id i m) ≡ m
unfolding validate_member
member_back id i m h = elim (Bool-cases (valid_direction m.direction)) [
  | inr bad ↦
      let last =
        (check_passed
          (reject (beq_bool (not (m.fault_spec_id == "")) (not (m.child_composition_id == ""))) _)
          (reject (not (valid_direction m.direction)) _) h).1 in
      let last' = rw (bad) at last in cc
  | inl good ↦
      rw
        (
          string_back m.fault_spec_id,
          string_back m.child_composition_id,
          string_back (direction_text m.direction),
          direction_back m.direction good,
        )
        refl
]

members_back :
    (id : String) (i j : ℕ) (ms : List FaultCompositionMember)
    → validate_members j ms ≡ none
    → map scan_member (member_rows id i ms) ≡ ms
unfolding validate_members member_rows
members_back id i j [] h = refl
members_back id i j (m ∷ ms) h =
    let (first, rest) =
      check_passed (context (wrap_at "fault composition member[%d]: %w" j) (validate_member m))
        (validate_members (j + 1) ms) h in
    let valid = (context-eq-none _ (validate_member m)).0 first in
    ap (λ x. x ∷ map scan_member (member_rows id (i + 1) ms)) (member_back id i m valid)
    ∙ ap (λ l. m ∷ l) (members_back id (i + 1) (j + 1) ms rest)

pub fields_members :
    (c : FaultComposition)
    → validate_composition_fields c ≡ none
    → validate_members 0 c.members ≡ none
unfolding validate_composition_fields
fields_members c h =
    (chain_passed
      (reject (c.id == "") _
        ∷ reject (c.name == "") _
        ∷ reject (not (valid_execution_mode c.execution_mode)) _
        ∷ reject (ltb (length c.members) 2) _
        ∷ [])
      (validate_members 0 c.members) h).1

members_loaded :
    (c : FaultComposition) (t : FaultTables)
    → HaveOwners t
    → has_key composition_key c.id t.compositions ≡ false
    → validate_composition_fields c ≡ none
    → load_members c.id (t.members ++ member_rows c.id 0 c.members) ≡ c.members
unfolding load_members
members_loaded c t owned free valid =
    rw
      (
        select-append (is_member_of c.id) t.members (member_rows c.id 0 c.members),
        no_members t.compositions c.id t.members owned free,
        own_members c.id 0 c.members,
        members_ordered c.id 0 c.members,
      )
      (members_back c.id 0 0 c.members (fields_members c valid))

module _ (admits : CompositionRow → Bool) (admits_member : MemberRow → Bool) where
  create_composition_done :
      (c : FaultComposition) (t t' : FaultTables)
      → create_composition admits admits_member c t ≡ (none, t')
      → (validate_composition_fields c ≡ none)
        × (has_key composition_key c.id t.compositions ≡ false)
        × (t' ≡ record t {
          compositions = composition_row c ∷ t.compositions;
          members = t.members ++ member_rows c.id 0 c.members;
        })
  unfolding create_composition
  create_composition_done c t t' h = elim (Option-cases (validate_composition_fields c)) [
    | inr (e, bad) ↦ let h' = rw (bad, create_composition) at h in cc
    | inl good ↦ elim (Bool-cases (has_key composition_key c.id t.compositions)) [
      | inl taken ↦ let h' = rw (good, create_composition, taken) at h in cc
      | inr free ↦ elim (Bool-cases (admits (composition_row c))) [
        | inr refused ↦ let h' = rw (good, create_composition, free, refused) at h in cc
        | inl fits ↦ elim (Bool-cases (all_admitted admits_member (member_rows c.id 0 c.members))) [
          | inr refused ↦ let h' = rw (good, create_composition, free, fits, refused) at h in cc
          | inl fit ↦
              let h' = rw (good, create_composition, free, fits, fit) at h in
              (good, free, ap (λ (x : Check × FaultTables). x.1) (sym h'))
        ]
      ]
    ]
  ]

  -- A composition that CreateComposition accepts, in tables whose members have their composition, is
  -- read back by GetComposition as it was, with its members in order.
  pub create_composition-get_composition :
      (c : FaultComposition) (t t' : FaultTables)
      → HaveOwners t
      → create_composition admits admits_member c t ≡ (none, t')
      → get_composition c.id t' ≡ ok c
  unfolding get_composition find_key
  create_composition-get_composition c t t' owned h =
      let (valid, free, made) = create_composition_done c t t' h in
      let loaded = members_loaded c t owned free valid in
      ap (λ x. get_composition c.id x) made ∙ rw (text_self c.id, loaded, get_composition) refl
