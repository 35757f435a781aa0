-- ===== src/Model/Fault.antt =====
-- internal/model/fault.go: fault specs, compositions of faults, and the compatibility matrix. The
-- checks that resolve the members of a composition are in Composition.
mod Matrix
unfoldable pub use Matrix.*
use manteion_go.Base.{
  ℕ, suc, ◌+◌, String, ◌==◌, Bool, true, false, not, ◌&&◌, ◌||◌, Option, none, some, List, [], ◌∷◌,
  new, errorf, wrap, wrap_at, Check, reject, context, ◌>>◌, has_text, length, ltb, if◌then◌else◌,
}
use manteion_go.Base.Int.{ℤ, pos, lez}
use manteion_go.Base.Float.{Float64, lt_float, zero_float, one_float}

pub data ExecutionMode : Type 0 where
  parallel sequential : ExecutionMode
  other : String → ExecutionMode

abbrev pub valid_execution_mode : ExecutionMode → Bool
valid_execution_mode (ExecutionMode.other _) = false
valid_execution_mode _ = true

-- `string(mode)`
abbrev pub execution_mode_text : ExecutionMode → String
execution_mode_text ExecutionMode.parallel = "parallel"
execution_mode_text ExecutionMode.sequential = "sequential"
execution_mode_text (ExecutionMode.other s) = s

-- `unset` is the empty text, DirectionNone.
pub data Direction : Type 0 where
  upstream downstream unset : Direction
  other : String → Direction

abbrev pub valid_direction : Direction → Bool
valid_direction (Direction.other _) = false
valid_direction _ = true

-- `string(direction)`
abbrev pub direction_text : Direction → String
direction_text Direction.upstream = "upstream"
direction_text Direction.downstream = "downstream"
direction_text Direction.unset = ""
direction_text (Direction.other s) = s

pub record NetworkEnvelope : Type 0 where
  pub target : String
  pub direction : Direction
  pub scope : Float64

pub record FaultSpec : Type 0 where
  pub id : String
  pub name : String
  pub category : String
  pub fault_type : String
  pub host : String
  pub network : Option NetworkEnvelope
  pub params : String
  pub description : String
  pub duration_ms : ℤ
  pub ramp_up_ms : ℤ
  pub ramp_down_ms : ℤ
  pub created_at : ℕ

-- validFaultTypes: the fault types of a category, if it is one.
abbrev pub valid_fault_types : String → Option (List String)
valid_fault_types category =
    if category == "inline"
    then some ("error" ∷ "hang" ∷ "latency" ∷ [])
    else if category == "network"
    then some ("blackhole" ∷ "drip" ∷ "latency" ∷ "retransmit_delay" ∷ "rst" ∷ "throttle" ∷ [])
    else if category == "resource"
    then some ("cpu" ∷ "disk" ∷ "io" ∷ "memory" ∷ [])
    else none

-- The category is one of the table, and the type is one of its types.
abbrev pub check_fault_type : String → String → Check
check_fault_type category fault_type = elim (valid_fault_types category) [
  | none ↦ some (errorf "invalid category %q" (category ∷ []))
  | some types ↦
      reject (not (has_text fault_type types))
        (errorf "invalid fault_type %q for category %q" (fault_type ∷ category ∷ []))
]

-- `switch f.Host`, behind `f.Host != ""`.
abbrev pub check_host : String → String → Check
check_host host category =
    if host == ""
    then none
    else if host == "proxy" || host == "inline"
    then reject (not (category == "network")) (
        errorf "fault spec: host=%q only valid for network category, got %q" (host ∷ category ∷ []))
    else if host == "process"
    then reject (category == "network")
        (new "fault spec: host=process invalid for network category")
    else some (errorf "fault spec: invalid host %q" (host ∷ []))

-- `if f.Network != nil { … }`
abbrev pub check_envelope : Option NetworkEnvelope → String → Check
check_envelope none category = none
check_envelope (some e) category = do
  reject (not (category == "network")) (
      errorf "fault spec: network envelope only valid for network category, got %q" (category ∷ []))
  reject (not (valid_direction e.direction))
      (errorf "fault spec: invalid direction %q" (direction_text e.direction ∷ []))
  reject (lt_float e.scope zero_float || lt_float one_float e.scope)
      (new "fault spec: scope %.2f out of [0,1]")

-- A raw JSON value that is absent or `null`.
abbrev pub is_null_json : String → Bool
is_null_json text = text == "" || text == "null"

unfoldable pub validate_fault_spec : FaultSpec → Check
validate_fault_spec f = do
  reject (f.id == "") (new "fault spec: id required")
  reject (f.name == "") (new "fault spec: name required")
  context (wrap "fault spec: %w") (check_fault_type f.category f.fault_type)
  reject (f.category == "inline" && f.fault_type == "hang" && lez f.duration_ms (pos 0))
      (new "fault spec: inline:hang requires duration_ms > 0")
  reject (is_null_json f.params) (new "fault spec: params required")
  check_host f.host f.category
  check_envelope f.network f.category

pub record FaultCompositionMember : Type 0 where
  pub fault_spec_id : String
  pub child_composition_id : String
  pub direction : Direction

pub record FaultComposition : Type 0 where
  pub id : String
  pub name : String
  pub execution_mode : ExecutionMode
  pub duration_ms : ℤ
  pub ramp_up_ms : ℤ
  pub ramp_down_ms : ℤ
  pub members : List FaultCompositionMember
  pub created_at : ℕ

abbrev pub beq_bool : Bool → Bool → Bool
beq_bool true b = b
beq_bool false b = not b

unfoldable pub validate_member : FaultCompositionMember → Check
validate_member m = do
  reject (beq_bool (not (m.fault_spec_id == "")) (not (m.child_composition_id == "")))
      (new "exactly one of fault_spec_id or child_composition_id must be set")
  reject (not (valid_direction m.direction))
      (errorf "invalid direction %q" (direction_text m.direction ∷ []))

-- `for i, m := range c.Members`, from index `i`.
unfoldable pub validate_members : ℕ → List FaultCompositionMember → Check
validate_members i [] = none
validate_members i (m ∷ ms) = do
  context (wrap_at "fault composition member[%d]: %w" i) (validate_member m)
  validate_members (i + 1) ms

unfoldable pub validate_composition_fields : FaultComposition → Check
unfolding validate_member validate_members
validate_composition_fields c = do
  reject (c.id == "") (new "fault composition: id required")
  reject (c.name == "") (new "fault composition: name required")
  reject (not (valid_execution_mode c.execution_mode)) (
      errorf "fault composition: invalid execution_mode %q"
        (execution_mode_text c.execution_mode ∷ []))
  reject (ltb (length c.members) 2) (new "fault composition: at least 2 members required")
  validate_members 0 c.members
