-- ===== src/Store/Faults.antt =====
-- internal/store/fault_repo.go: the tables of fault specs, of compositions and of their members.
-- The raw JSON of the parameters is stored as it is. The constraints of the tables other than their
-- keys are a parameter, and so is what else stops a delete; other database errors are not modelled.
pub mod RoundTrip
pub mod Members
pub mod Owners
use manteion_go.Base.{
  ℕ, ◌+◌, String, ◌==◌, Bool, true, false, not, ◌&&◌, ◌||◌, Option, none, some, List, [], ◌∷◌, ◌++◌,
  map, Check, new, leb, length, if◌then◌else◌,
}
use manteion_go.Base.Int.{ℤ}
use manteion_go.Base.Float.{Float64, lt_float, zero_float}
use manteion_go.Base.Result.{Result, ok, err, ◌>>=◌}
use manteion_go.Model.Trace.{is_none}
use manteion_go.Model.Fault.{
  Direction, direction_text, ExecutionMode, NetworkEnvelope, FaultSpec, FaultCompositionMember,
  FaultComposition, validate_fault_spec, validate_composition_fields,
}
use manteion_go.Composition.{FaultSpecResolver, CompositionResolver}
use manteion_go.Store.Rules.{null_string, from_null_string, not_found}
use manteion_go.Store.Tables.{
  find_key, has_key, update_key, delete_key, affected_or_not_found, select, order_by,
}
unfoldable pub use manteion_go.Store.FaultRows.{hydrate_network_envelope, scan_spec, member_rows}
pub use manteion_go.Store.FaultRows.{
  SpecRow, CompositionRow, MemberRow, FaultTables, spec_key, composition_key, direction_of,
  target_column, direction_column, scope_column, scope_or_zero, spec_row, set_spec, composition_row,
  member_row, scan_member, scan_composition, is_member_of, before,
}

unfoldable pub get_spec : String → FaultTables → Result FaultSpec
unfolding find_key scan_spec
get_spec id t = elim (find_key spec_key id t.specs) [
  | none ↦ err not_found
  | some row ↦ ok (scan_spec row)
]

abbrev pub spec_older : SpecRow → SpecRow → Bool
spec_older a b = leb a.created_at b.created_at

unfoldable pub list_specs : FaultTables → List FaultSpec
unfolding order_by scan_spec
list_specs t = map scan_spec (order_by spec_older t.specs)

unfoldable pub load_members : String → List MemberRow → List FaultCompositionMember
unfolding select order_by
load_members id rows = map scan_member (order_by before (select (is_member_of id) rows))

unfoldable pub get_composition : String → FaultTables → Result FaultComposition
unfolding find_key load_members
get_composition id t = elim (find_key composition_key id t.compositions) [
  | none ↦ err not_found
  | some row ↦ ok (scan_composition row (load_members id t.members))
]

abbrev pub composition_older : CompositionRow → CompositionRow → Bool
composition_older a b = leb a.created_at b.created_at

-- ListCompositions, which loads no members.
unfoldable pub list_compositions : FaultTables → List FaultComposition
unfolding order_by
list_compositions t = map (λ r. scan_composition r []) (order_by composition_older t.compositions)

module _ (admits : SpecRow → Bool) where
  unfoldable pub create_spec : FaultSpec → FaultTables → Check × FaultTables
  unfolding find_key
  create_spec f t = elim (validate_fault_spec f) [
    | some e ↦ (some e, t)
    | none ↦
        if has_key spec_key f.id t.specs || not (admits (spec_row f))
        then (some (new "insert fault_spec: %w"), t)
        else (none, record t { specs = spec_row f ∷ t.specs })
  ]

  unfoldable pub update_spec : FaultSpec → FaultTables → Check × FaultTables
  unfolding find_key update_key
  update_spec f t = elim (validate_fault_spec f) [
    | some e ↦ (some e, t)
    | none ↦ elim (find_key spec_key f.id t.specs) [
      | none ↦ (some not_found, t)
      | some old ↦
          if not (admits (set_spec f old))
          then (some (new "update fault_spec: %w"), t)
          else (none, record t { specs = update_key spec_key f.id (set_spec f) t.specs })
    ]
  ]

-- The inserts of the members, each of which may fail.
abbrev pub all_admitted : (MemberRow → Bool) → List MemberRow → Bool
all_admitted p [] = true
all_admitted p (r ∷ rs) = p r && all_admitted p rs

-- The transaction of CreateComposition, as one step: the row and every member, or nothing.
unfoldable pub create_composition :
    (CompositionRow → Bool)
    → (MemberRow → Bool)
    → FaultComposition
    → FaultTables
    → Check × FaultTables
unfolding find_key member_rows
create_composition admits admits_member c t = elim (validate_composition_fields c) [
  | some e ↦ (some e, t)
  | none ↦
      if has_key composition_key c.id t.compositions || not (admits (composition_row c))
      then (some (new "insert fault_composition: %w"), t)
      else if not (all_admitted admits_member (member_rows c.id 0 c.members))
      then (some (new "insert composition member[%d]: %w"), t)
      else (
        none,
        record t {
          compositions = composition_row c ∷ t.compositions;
          members = t.members ++ member_rows c.id 0 c.members;
        },
      )
]

-- A row that other rows refer to cannot be deleted.
unfoldable pub delete_spec :
    (String → FaultTables → Bool) → String → FaultTables → Check × FaultTables
unfolding find_key delete_key
delete_spec referenced id t =
    if not (has_key spec_key id t.specs)
    then (some not_found, t)
    else if referenced id t
    then (some (new "delete fault_spec: %w"), t)
    else (none, record t { specs = delete_key spec_key id t.specs })

-- The members go with the composition (ON DELETE CASCADE).
unfoldable pub delete_composition :
    (String → FaultTables → Bool) → String → FaultTables → Check × FaultTables
unfolding find_key delete_key select
delete_composition referenced id t =
    if not (has_key composition_key id t.compositions)
    then (some not_found, t)
    else if referenced id t
    then (some (new "delete fault_composition: %w"), t)
    else (
      none,
      record t {
        compositions = delete_key composition_key id t.compositions;
        members = select (λ r. not (is_member_of id r)) t.members;
      },
    )

-- The resolvers, for which every error is a missing item.
unfoldable pub spec_resolver : FaultTables → FaultSpecResolver
unfolding get_spec
spec_resolver t id = elim (get_spec id t) [ ok f ↦ some f | _ ↦ none ]

unfoldable pub composition_resolver : FaultTables → CompositionResolver
unfolding get_composition
composition_resolver t id = elim (get_composition id t) [ ok c ↦ some c | _ ↦ none ]
