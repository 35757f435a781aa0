-- ===== src/Composition.antt =====
-- internal/model/composition_validate.go: the checks of a composition that resolve its members.
pub mod Answers
pub mod Pairs
pub mod Accepted
pub mod Directions
pub mod Depth
use manteion_go.Base.{
  ℕ, zero, suc, ◌+◌, String, ◌==◌, Bool, true, false, not, ◌&&◌, ◌||◌, Option, none, some, List, [],
  ◌∷◌, ◌++◌, Error, new, errorf, Check, ◌>>◌, if◌then◌else◌,
}
use manteion_go.Base.Text.{concat, has_prefix, has_suffix, trim_suffix}
use manteion_go.Model.Fault.{
  ExecutionMode, execution_mode_text, Direction, direction_text, FaultSpec, FaultCompositionMember,
  FaultComposition, FaultConstraint, validate_composition_fields, default_incompatibilities,
}

-- FaultSpecResolver and CompositionResolver; `none` is nil.
abbrev pub FaultSpecResolver : Type 0
FaultSpecResolver = String → Option FaultSpec

abbrev pub CompositionResolver : Type 0
CompositionResolver = String → Option FaultComposition

-- `(A, error)`. The recursion over child compositions has fuel, and `out_of_fuel` is no answer.
pub data Answer {ℓ} (A : Type ℓ) : Type ℓ where
  ok : A → Answer A
  err : Error → Answer A
  out_of_fuel : Answer A

infixl 5 ◌>>=◌
abbrev pub ◌>>=◌ : {A B : Type 0} → Answer A → (A → Answer B) → Answer B
ok a >>= f = f a
err e >>= f = err e
out_of_fuel >>= f = out_of_fuel

abbrev pub check_answer : Check → Answer (Unit {0})
check_answer none = ok tt
check_answer (some e) = err e

-- The loop of walkDepth over a composition's members, with the recursive call as `visit`.
unfoldable pub walk_members :
    CompositionResolver → (FaultComposition → Check) → String → List FaultCompositionMember → Check
walk_members resolve visit id [] = none
walk_members resolve visit id (m ∷ ms) =
    let rest = walk_members resolve visit id ms in
    if m.child_composition_id == "" then rest else elim (resolve m.child_composition_id) [
      | none ↦ some (errorf "composition %q: child %q not found" (id ∷ m.child_composition_id ∷ []))
      | some child ↦ visit child >> rest
    ]

-- walkDepth, where `max + 1 - current` levels are left.
unfoldable pub walk_depth : CompositionResolver → ℕ → FaultComposition → Check
unfolding walk_members
walk_depth resolve zero comp = some (errorf "composition %q exceeds max depth %d" (comp.id ∷ []))
walk_depth resolve (suc left) comp =
    walk_members resolve (walk_depth resolve left) comp.id comp.members

abbrev pub validate_composition_depth : CompositionResolver → ℕ → FaultComposition → Check
validate_composition_depth resolve max comp = walk_depth resolve max comp

pub record NetworkMemberInfo : Type 0 where
  pub fault_type : String
  pub direction : Direction

-- `spec.Category + ":" + spec.FaultType`
abbrev pub type_text : FaultSpec → String
type_text spec = concat (concat spec.category ":") spec.fault_type

abbrev pub network_infos : FaultSpec → Direction → List NetworkMemberInfo
network_infos spec direction =
    if spec.category == "network"
    then (record { fault_type = type_text spec; direction = direction }) ∷ []
    else []

-- Child members inherit the parent member's direction if they have none.
unfoldable pub inherit : Direction → List NetworkMemberInfo → List NetworkMemberInfo
inherit d [] = []
inherit d (m ∷ ms) =
    (if direction_text m.direction == "" && not (direction_text d == "")
      then record m { direction = d }
      else m)
    ∷ inherit d ms

module _ {B : Type 0} (faults : FaultSpecResolver) (comps : CompositionResolver) where
  -- What one member gives, by what its fault spec or its child composition gives: the cases that
  -- collectNetworkMembers and collectLeaves share.
  unfoldable pub member_items :
      (FaultSpec → FaultCompositionMember → List B)
      → (FaultCompositionMember → List B → List B)
      → (FaultComposition → Answer (List B))
      → FaultCompositionMember
      → Answer (List B)
  member_items leaf inner visit m =
      if not (m.fault_spec_id == "")
      then elim (faults m.fault_spec_id) [
        | none ↦ err (errorf "fault spec %q not found" (m.fault_spec_id ∷ []))
        | some spec ↦ ok (leaf spec m)
      ]
      else if not (m.child_composition_id == "")
      then elim (comps m.child_composition_id) [
        | none ↦ err (errorf "child composition %q not found" (m.child_composition_id ∷ []))
        | some child ↦ visit child >>= λ items. ok (inner m items)
      ]
      else ok []

  unfoldable pub members_items :
      (FaultCompositionMember → Answer (List B)) → List FaultCompositionMember → Answer (List B)
  members_items one [] = ok []
  members_items one (m ∷ ms) =
      one m >>= λ items. members_items one ms >>= λ rest. ok (items ++ rest)

  -- The recursion, with its fuel.
  unfoldable pub collect :
      (FaultSpec → FaultCompositionMember → List B)
      → (FaultCompositionMember → List B → List B)
      → ℕ
      → FaultComposition
      → Answer (List B)
  unfolding member_items members_items
  collect leaf inner zero comp = out_of_fuel
  collect leaf inner (suc fuel) comp =
      members_items (member_items leaf inner (collect leaf inner fuel)) comp.members

unfoldable pub collect_network_members :
    FaultSpecResolver → CompositionResolver → ℕ → FaultComposition → Answer (List NetworkMemberInfo)
unfolding collect
collect_network_members faults comps =
    collect faults comps (λ spec m. network_infos spec m.direction)
      (λ m infos. inherit m.direction infos)

unfoldable pub collect_leaves :
    FaultSpecResolver → CompositionResolver → ℕ → FaultComposition → Answer (List String)
unfolding collect
collect_leaves faults comps =
    collect faults comps (λ spec m. type_text spec ∷ []) (λ m leaves. leaves)

-- The key of `byDirection`.
abbrev pub direction_key : NetworkMemberInfo → String
direction_key m =
    if direction_text m.direction == "" then "unspecified" else direction_text m.direction

-- `byDirection[dir] = append(byDirection[dir], …)`, with the keys in the order of their first use.
unfoldable pub add_to : String → String → List (String × List String) → List (String × List String)
add_to key type [] = (key, type ∷ []) ∷ []
add_to key type ((k, types) ∷ rest) =
    let added = add_to key type rest in
    if k == key then (k, types ++ type ∷ []) ∷ rest else (k, types) ∷ added

unfoldable pub group_by_direction :
    List NetworkMemberInfo → List (String × List String) → List (String × List String)
unfolding add_to
group_by_direction [] groups = groups
group_by_direction (m ∷ ms) groups =
    group_by_direction ms (add_to (direction_key m) m.fault_type groups)

-- The loop over `byDirection`. Go's order over a map is unspecified; which of several crowded
-- directions the error names is left to the order of their first use.
unfoldable pub check_groups : String → List (String × List String) → Check
check_groups id [] = none
check_groups id ((dir, a ∷ b ∷ types) ∷ rest) = some (
    errorf "parallel composition %q: multiple network toxics in direction %q: %v"
      (id ∷ dir ∷ a ∷ b ∷ types))
check_groups id ((dir, types) ∷ rest) = check_groups id rest

abbrev pub is_parallel : ExecutionMode → Bool
is_parallel ExecutionMode.parallel = true
is_parallel _ = false

unfoldable pub validate_network_directions :
    FaultSpecResolver → CompositionResolver → ℕ → FaultComposition → Answer (Unit {0})
unfolding collect_network_members group_by_direction check_groups
validate_network_directions faults comps fuel comp =
    if not (is_parallel comp.execution_mode)
    then ok tt
    else collect_network_members faults comps fuel comp >>= λ infos.
        check_answer (check_groups comp.id (group_by_direction infos []))

unfoldable pub matches_type : String → String → Bool
matches_type concrete pattern =
    if pattern == concrete
    then true
    else has_suffix pattern ":*" && has_prefix concrete (concat (trim_suffix pattern ":*") ":")

unfoldable pub matches_pair : String → String → FaultConstraint → ExecutionMode → Bool
unfolding matches_type
matches_pair a b rule mode =
    if not (rule.kind == "") && not (rule.kind == "pair")
    then false
    else if not (rule.scope == "any") && not (rule.scope == execution_mode_text mode)
    then false
    else if rule.scope == "sequential"
    then matches_type a rule.subject && matches_type b rule.object
    else matches_type a rule.subject && matches_type b rule.object
      || matches_type a rule.object && matches_type b rule.subject

-- The loops of ValidateCompositionIncompatibilities over the rules, over `j` and over `i`: the soft
-- warnings, or the first hard incompatibility.
module _ (mode : ExecutionMode) (id : String) (rules : List FaultConstraint) where
  unfoldable pub check_rules : String → String → List FaultConstraint → Answer (List String)
  unfolding matches_pair
  check_rules a b [] = ok []
  check_rules a b (r ∷ rs) =
      let rest = check_rules a b rs in
      if not (matches_pair a b r mode)
      then rest
      else if r.constraint_type == "hard"
      then err (errorf "hard incompatibility in composition %q: %s" (id ∷ a ∷ b ∷ r.reason ∷ []))
      else rest >>= λ warnings.
          ok (concat (concat (concat a " + ") (concat b ": ")) r.reason ∷ warnings)

  unfoldable pub check_with : String → List String → Answer (List String)
  unfolding check_rules
  check_with a [] = ok []
  check_with a (b ∷ bs) =
      check_rules a b rules >>= λ here. check_with a bs >>= λ rest. ok (here ++ rest)

  unfoldable pub check_pairs : List String → Answer (List String)
  unfolding check_with
  check_pairs [] = ok []
  check_pairs (a ∷ bs) = check_with a bs >>= λ here. check_pairs bs >>= λ rest. ok (here ++ rest)

unfoldable pub validate_composition_incompatibilities :
    FaultSpecResolver
    → CompositionResolver
    → ℕ
    → List FaultConstraint
    → FaultComposition
    → Answer (List String)
unfolding collect_leaves check_pairs
validate_composition_incompatibilities faults comps fuel rules comp =
    collect_leaves faults comps fuel comp >>= check_pairs comp.execution_mode comp.id rules

-- ValidateComposition. The depth that it allows is also the fuel of the checks behind that one.
unfoldable pub validate_composition :
    FaultSpecResolver → CompositionResolver → FaultComposition → Answer (Unit {0})
unfolding validate_network_directions validate_composition_incompatibilities
validate_composition faults comps comp = check_answer (validate_composition_fields comp) >>= λ _.
    check_answer (validate_composition_depth comps 3 comp) >>= λ _.
    validate_network_directions faults comps 3 comp >>= λ _.
    validate_composition_incompatibilities faults comps 3 default_incompatibilities comp >>= λ _.
    ok tt
