-- ===== src/Store/FaultRows.antt =====
-- internal/store/fault_repo.go: the rows of fault specs, of compositions and of their members, what is
-- written to them and what is read back.
use manteion_go.Base.{
  ℕ, ◌+◌, String, ◌==◌, Bool, ◌&&◌, Option, none, some, List, [], ◌∷◌, leb, if◌then◌else◌,
}
use manteion_go.Base.Int.{ℤ}
use manteion_go.Base.Float.{Float64, lt_float, zero_float}
use manteion_go.Model.Trace.{is_none}
use manteion_go.Model.Fault.{
  Direction, direction_text, ExecutionMode, NetworkEnvelope, FaultSpec, FaultCompositionMember,
  FaultComposition,
}
use manteion_go.Store.Rules.{null_string, from_null_string}

pub record SpecRow : Type 0 where
  pub id : String
  pub name : String
  pub category : String
  pub fault_type : String
  pub host : Option String
  pub params : String
  pub description : String
  pub network_target : Option String
  pub network_direction : Option String
  pub network_scope : Option Float64
  pub duration_ms : ℤ
  pub ramp_up_ms : ℤ
  pub ramp_down_ms : ℤ
  pub created_at : ℕ

pub record CompositionRow : Type 0 where
  pub id : String
  pub name : String
  pub execution_mode : ExecutionMode
  pub duration_ms : ℤ
  pub ramp_up_ms : ℤ
  pub ramp_down_ms : ℤ
  pub created_at : ℕ

pub record MemberRow : Type 0 where
  pub composition_id : String
  pub position : ℕ
  pub fault_spec_id : Option String
  pub child_composition_id : Option String
  pub direction : Option String

pub record FaultTables : Type 0 where
  pub specs : List SpecRow
  pub compositions : List CompositionRow
  pub members : List MemberRow

abbrev pub spec_key : SpecRow → String
spec_key r = r.id

abbrev pub composition_key : CompositionRow → String
composition_key r = r.id

-- `string(d)` the other way: a conversion of a text.
abbrev pub direction_of : String → Direction
direction_of s =
    if s == "upstream"
    then Direction.upstream
    else if s == "downstream"
    then Direction.downstream
    else if s == ""
    then Direction.unset
    else Direction.other s

-- The nullable columns of the envelope: `if spec.Network != nil { … }`.
abbrev pub target_column : Option NetworkEnvelope → Option String
target_column none = none
target_column (some e) = null_string e.target

abbrev pub direction_column : Option NetworkEnvelope → Option String
direction_column none = none
direction_column (some e) = null_string (direction_text e.direction)

abbrev pub scope_column : Option NetworkEnvelope → Option Float64
scope_column none = none
scope_column (some e) = if lt_float zero_float e.scope then some e.scope else none

abbrev pub scope_or_zero : Option Float64 → Float64
scope_or_zero none = zero_float
scope_or_zero (some x) = x

-- hydrateNetworkEnvelope
unfoldable pub hydrate_network_envelope :
    Option String → Option String → Option Float64 → Option NetworkEnvelope
hydrate_network_envelope target direction scope =
    if is_none target && is_none direction && is_none scope
    then none
    else some (record {
      target = from_null_string target;
      direction = direction_of (from_null_string direction);
      scope = scope_or_zero scope;
    })

-- The values of CreateSpec.
abbrev pub spec_row : FaultSpec → SpecRow
spec_row f = record {
  id = f.id;
  name = f.name;
  category = f.category;
  fault_type = f.fault_type;
  host = null_string f.host;
  params = f.params;
  description = f.description;
  network_target = target_column f.network;
  network_direction = direction_column f.network;
  network_scope = scope_column f.network;
  duration_ms = f.duration_ms;
  ramp_up_ms = f.ramp_up_ms;
  ramp_down_ms = f.ramp_down_ms;
  created_at = f.created_at;
}

-- The assignments of UpdateSpec, which leave the time of creation.
abbrev pub set_spec : FaultSpec → SpecRow → SpecRow
set_spec f old = record (spec_row f) { id = old.id; created_at = old.created_at }

-- A row as GetSpec reads it.
unfoldable pub scan_spec : SpecRow → FaultSpec
unfolding hydrate_network_envelope
scan_spec r = record {
  id = r.id;
  name = r.name;
  category = r.category;
  fault_type = r.fault_type;
  host = from_null_string r.host;
  network = hydrate_network_envelope r.network_target r.network_direction r.network_scope;
  params = r.params;
  description = r.description;
  duration_ms = r.duration_ms;
  ramp_up_ms = r.ramp_up_ms;
  ramp_down_ms = r.ramp_down_ms;
  created_at = r.created_at;
}

-- The values of CreateComposition: its row, and the rows of its members, from position `i`.
abbrev pub composition_row : FaultComposition → CompositionRow
composition_row c = record {
  id = c.id;
  name = c.name;
  execution_mode = c.execution_mode;
  duration_ms = c.duration_ms;
  ramp_up_ms = c.ramp_up_ms;
  ramp_down_ms = c.ramp_down_ms;
  created_at = c.created_at;
}

abbrev pub member_row : String → ℕ → FaultCompositionMember → MemberRow
member_row id i m = record {
  composition_id = id;
  position = i;
  fault_spec_id = null_string m.fault_spec_id;
  child_composition_id = null_string m.child_composition_id;
  direction = null_string (direction_text m.direction);
}

unfoldable pub member_rows : String → ℕ → List FaultCompositionMember → List MemberRow
member_rows id i [] = []
member_rows id i (m ∷ ms) = member_row id i m ∷ member_rows id (i + 1) ms

-- `for rows.Next() { … }` of GetComposition.
abbrev pub scan_member : MemberRow → FaultCompositionMember
scan_member r = record {
  fault_spec_id = from_null_string r.fault_spec_id;
  child_composition_id = from_null_string r.child_composition_id;
  direction = direction_of (from_null_string r.direction);
}

abbrev pub scan_composition : CompositionRow → List FaultCompositionMember → FaultComposition
scan_composition r members = record {
  id = r.id;
  name = r.name;
  execution_mode = r.execution_mode;
  duration_ms = r.duration_ms;
  ramp_up_ms = r.ramp_up_ms;
  ramp_down_ms = r.ramp_down_ms;
  members = members;
  created_at = r.created_at;
}

-- `WHERE composition_id = $1 ORDER BY position`
abbrev pub is_member_of : String → MemberRow → Bool
is_member_of id r = r.composition_id == id

abbrev pub before : MemberRow → MemberRow → Bool
before a b = leb a.position b.position
