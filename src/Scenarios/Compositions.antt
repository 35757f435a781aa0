-- ===== src/Scenarios/Compositions.antt =====
-- Compositions of two faults, and one that contains itself.
use manteion_go.Base.{
  ◌≡◌, refl, ◌↔◌, String, ◌==◌, Option, none, some, List, [], ◌∷◌, if◌then◌else◌,
}
use manteion_go.Base.Int.{pos}
use manteion_go.Model.Fault.{
  ExecutionMode, Direction, FaultSpec, FaultCompositionMember, FaultComposition,
  validate_composition_fields, default_incompatibilities,
}
use manteion_go.Composition.Directions.{DirectionsDiffer, check_groups_iff}
use manteion_go.Composition.{
  NetworkMemberInfo, group_by_direction, check_groups, ok, walk_depth, validate_composition_depth,
  check_pairs, validate_composition,
}
use manteion_go.Composition.Answers.{Answers, validate_composition-Answers}
use manteion_go.Composition.Pairs.{PairsAllowed, check_pairs_iff}
use manteion_go.Composition.Depth.{IsWithin, validate_composition_depth_iff}

abbrev pub fault : String → String → String → FaultSpec
fault id category type = record {
  id = id;
  name = id;
  category = category;
  fault_type = type;
  host = "";
  network = none;
  params = "{}";
  description = "";
  duration_ms = pos 100;
  ramp_up_ms = pos 0;
  ramp_down_ms = pos 0;
  created_at = 0;
}

abbrev pub faults : String → Option FaultSpec
faults id =
    if id == "slow"
    then some (fault "slow" "network" "latency")
    else if id == "busy"
    then some (fault "busy" "resource" "cpu")
    else none

abbrev leaf : String → FaultCompositionMember
leaf id = record { fault_spec_id = id; child_composition_id = ""; direction = Direction.unset }

abbrev inner : String → FaultCompositionMember
inner id = record { fault_spec_id = ""; child_composition_id = id; direction = Direction.unset }

abbrev composition : String → List FaultCompositionMember → FaultComposition
composition id members = record {
  id = id;
  name = id;
  execution_mode = ExecutionMode.parallel;
  duration_ms = pos 100;
  ramp_up_ms = pos 0;
  ramp_down_ms = pos 0;
  members = members;
  created_at = 0;
}

abbrev pub pair_of_faults : FaultComposition
pair_of_faults = composition "pair" (leaf "slow" ∷ leaf "busy" ∷ [])

abbrev endless : FaultComposition
endless = composition "endless" (leaf "slow" ∷ inner "endless" ∷ [])

abbrev comps : String → Option FaultComposition
comps id = if id == "endless" then some endless else none

pair_accepted : validate_composition faults comps pair_of_faults ≡ ok tt
unfolding validate_composition validate_composition_fields walk_depth default_incompatibilities
pair_accepted = refl

validate_composition-Answers_example : Answers (validate_composition faults comps endless)
validate_composition-Answers_example = validate_composition-Answers faults comps endless

-- The resolver knows the composition that contains itself: its chains have any length.
validate_composition_depth_iff_example :
    (validate_composition_depth comps 3 endless ≡ none) ↔ IsWithin comps 3 endless
validate_composition_depth_iff_example = validate_composition_depth_iff comps 3 endless

abbrev clashing : List String
clashing = "network:drip" ∷ "resource:cpu" ∷ "network:throttle" ∷ []

check_pairs_iff_example :
    ((warnings : List String) × (check_pairs ExecutionMode.parallel "clash"
          default_incompatibilities clashing
        ≡ ok warnings))
    ↔ PairsAllowed ExecutionMode.parallel "clash" default_incompatibilities clashing
check_pairs_iff_example =
    check_pairs_iff ExecutionMode.parallel "clash" default_incompatibilities clashing

-- Two network faults on the way up, and one without a direction.
abbrev network_faults : List NetworkMemberInfo
network_faults =
    record { fault_type = "latency"; direction = Direction.upstream }
    ∷ record { fault_type = "drip"; direction = Direction.unset }
    ∷ record { fault_type = "throttle"; direction = Direction.upstream }
    ∷ []

check_groups_iff_example :
    (check_groups "clash" (group_by_direction network_faults []) ≡ none)
    ↔ DirectionsDiffer network_faults
check_groups_iff_example = check_groups_iff "clash" network_faults
