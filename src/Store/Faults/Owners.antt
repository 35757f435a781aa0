-- ===== src/Store/Faults/Owners.antt =====
-- internal/store/fault_repo.go: every statement leaves each member's row with its composition.
use manteion_go.Base.{
  ℕ, ◌+◌, ◌≡◌, sym, inl, inr, String, Bool, true, not, ◌||◌, List, [], ◌∷◌, Bool-cases,
  Option-cases, text-cases, Check, All, All-weaken, All-append,
}
use manteion_go.Model.Fault.{
  FaultSpec, FaultCompositionMember, FaultComposition, validate_fault_spec,
  validate_composition_fields,
}
use manteion_go.Store.Tables.{find_key, has_key, delete_key}
use manteion_go.Store.Tables.Laws.{has_key_first, has_key_next, has-delete_key}
use manteion_go.Store.Tables.Orders.{All-select}
use manteion_go.Store.Faults.{
  CompositionRow, MemberRow, SpecRow, FaultTables, spec_key, spec_row, set_spec, composition_key,
  composition_row, member_rows, is_member_of, create_spec, update_spec, delete_spec,
  create_composition, delete_composition, all_admitted,
}
use manteion_go.Store.Faults.Members.{has_owner, HaveOwners}

own_owner :
    (comps : List CompositionRow) (c : FaultComposition) (i : ℕ) (ms : List FaultCompositionMember)
    → All (λ r. has_owner (composition_row c ∷ comps) r ≡ true) (member_rows c.id i ms)
unfolding member_rows
own_owner comps c i [] = tt
own_owner comps c i (m ∷ ms) =
    (has_key_first composition_key (composition_row c) comps, own_owner comps c (i + 1) ms)

other_owner :
    (comps : List CompositionRow) (id : String) (r : MemberRow)
    → not (is_member_of id r) ≡ true
    → has_owner comps r ≡ true
    → has_owner (delete_key composition_key id comps) r ≡ true
other_owner comps id r other h = elim (text-cases r.composition_id id) [
  | inl (_, e) ↦ let other' = rw (e) at other in cc
  | inr (ne, _) ↦ has-delete_key composition_key id r.composition_id comps (λ p. ne (sym p)) h
]

-- A call of the repository that changes its tables.
pub data Statement : Type 0 where
  spec_create spec_update : FaultSpec → Statement
  spec_delete composition_delete : String → Statement
  composition_create : FaultComposition → Statement

module _ (admits : SpecRow → Bool) (admits_composition : CompositionRow → Bool)
    (admits_member : MemberRow → Bool) (referenced : String → FaultTables → Bool) where
  -- The answer and the tables after the call.
  unfoldable pub execute : Statement → FaultTables → Check × FaultTables
  execute (Statement.spec_create f) t = create_spec admits f t
  execute (Statement.spec_update f) t = update_spec admits f t
  execute (Statement.spec_delete id) t = delete_spec referenced id t
  execute (Statement.composition_delete id) t = delete_composition referenced id t
  execute (Statement.composition_create c) t =
      create_composition admits_composition admits_member c t

  -- Whatever a call of the repository answers, each member's row has its composition after it if
  -- each had it before.
  pub execute-HaveOwners :
      (s : Statement) (t : FaultTables) → HaveOwners t → HaveOwners (execute s t).1
  unfolding execute create_spec update_spec delete_spec delete_composition create_composition
  execute-HaveOwners (Statement.spec_create f) t h = elim (Option-cases (validate_fault_spec f)) [
    | inr (e, bad) ↦ rw (bad, create_spec) h
    | inl good ↦ elim (Bool-cases (has_key spec_key f.id t.specs || not (admits (spec_row f)))) [
      | inl e ↦ rw (good, create_spec, e) h
      | inr e ↦ rw (good, create_spec, e) h
    ]
  ]
  execute-HaveOwners (Statement.spec_update f) t h = elim (Option-cases (validate_fault_spec f)) [
    | inr (e, bad) ↦ rw (bad, update_spec) h
    | inl good ↦ elim (Option-cases (find_key spec_key f.id t.specs)) [
      | inl gone ↦ rw (good, update_spec, gone) h
      | inr (old, there) ↦ elim (Bool-cases (not (admits (set_spec f old)))) [
        | inl e ↦ rw (good, update_spec, there, e) h
        | inr e ↦ rw (good, update_spec, there, e) h
      ]
    ]
  ]
  execute-HaveOwners (Statement.spec_delete id) t h =
      elim (Bool-cases (has_key spec_key id t.specs)) [
        | inr gone ↦ rw (delete_spec, gone) h
        | inl there ↦ elim (Bool-cases (referenced id t)) [
          | inl e ↦ rw (delete_spec, there, e) h
          | inr e ↦ rw (delete_spec, there, e) h
        ]
      ]
  execute-HaveOwners (Statement.composition_delete id) t h =
      elim (Bool-cases (has_key composition_key id t.compositions)) [
        | inr gone ↦ rw (delete_composition, gone) h
        | inl there ↦ elim (Bool-cases (referenced id t)) [
          | inl e ↦ rw (delete_composition, there, e) h
          | inr e ↦
              rw (delete_composition, there, e)
                (All-select (λ r. has_owner t.compositions r ≡ true)
                  (λ r. has_owner (delete_key composition_key id t.compositions) r ≡ true)
                  (λ r. not (is_member_of id r)) t.members (other_owner t.compositions id) h)
        ]
      ]
  execute-HaveOwners (Statement.composition_create c) t h =
      elim (Option-cases (validate_composition_fields c)) [
        | inr (e, bad) ↦ rw (bad, create_composition) h
        | inl good ↦
            elim (Bool-cases (
              has_key composition_key c.id t.compositions
              || not (admits_composition (composition_row c)))) [
                | inl e ↦ rw (good, create_composition, e) h
                | inr e ↦
                    elim (Bool-cases
                      (not (all_admitted admits_member (member_rows c.id 0 c.members)))) [
                        | inl f ↦ rw (good, create_composition, e, f) h
                        | inr f ↦
                            rw (good, create_composition, e, f)
                              (All-append
                                (λ r. has_owner (composition_row c ∷ t.compositions) r ≡ true)
                                t.members (member_rows c.id 0 c.members)
                                (All-weaken t.members
                                  (λ r.
                                    has_key_next composition_key r.composition_id
                                      (composition_row c) t.compositions)
                                  h)
                                (own_owner t.compositions c 0 c.members))
                      ]
              ]
      ]
