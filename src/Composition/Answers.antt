-- ===== src/Composition/Answers.antt =====
-- internal/model/composition_validate.go: within the depth that was checked, the recursion over child
-- compositions ends.
use manteion_go.Base.{
  ℕ, zero, suc, ◌≡◌, refl, inl, inr, String, ◌==◌, Bool, true, false, not, Option, none, some, List,
  [], ◌∷◌, Error, Check, ◌>>◌, Bool-cases, Option-cases, if◌then◌else◌,
}
use manteion_go.Model.Fault.{
  FaultSpec, FaultCompositionMember, FaultComposition, FaultConstraint, ExecutionMode,
  validate_composition_fields, default_incompatibilities,
}
use manteion_go.Composition.{
  FaultSpecResolver, CompositionResolver, Answer, ok, err, ◌>>=◌, check_answer, walk_members,
  walk_depth, member_items, members_items, collect, collect_network_members, collect_leaves,
  validate_network_directions, check_rules, check_with, check_pairs, is_parallel, matches_pair,
  validate_composition_incompatibilities, validate_composition,
}

-- A result or an error, and not the end of the fuel.
pub data Answers {A : Type 0} : Answer A → Type 0 where
  result : {a : A} → Answers (ok a)
  error : {e : Error} → Answers (err e)

pub >>=-Answers :
    {A B : Type 0} {m : Answer A} {f : A → Answer B}
    → Answers m
    → ((a : A) → m ≡ ok a → Answers (f a))
    → Answers (m >>= f)
>>=-Answers (result {a}) h = h a refl
>>=-Answers error h = error

if-Answers :
    {A : Type 0} {m n : Answer A} (b : Bool) → Answers m → Answers n → Answers (if b then m else n)
if-Answers true p q = p
if-Answers false p q = q

pub check-Answers : (c : Check) → Answers (check_answer c)
check-Answers none = result
check-Answers (some e) = error

-- Where a sequence of checks passes, each passes.
pub both_pass : (c d : Check) → (c >> d) ≡ none → (c ≡ none) × (d ≡ none)
both_pass none d h = (refl, h)
both_pass (some e) d h = cc

module _ {B : Type 0} (faults : FaultSpecResolver) (comps : CompositionResolver)
    (leaf : FaultSpec → FaultCompositionMember → List B)
    (inner : FaultCompositionMember → List B → List B) where
  -- Behind a passed check of depth, each child composition that a member names answers.
  abbrev ChildrenAnswer : (FaultComposition → Check) → (FaultComposition → Answer (List B)) → Type 0
  ChildrenAnswer check visit = (c : FaultComposition) → check c ≡ none → Answers (visit c)

  -- What a passed loop of walkDepth says of its first member, and of the others.
  walk_members-passed :
      (check : FaultComposition → Check) (id : String) (m : FaultCompositionMember)
      (ms : List FaultCompositionMember)
      → walk_members comps check id (m ∷ ms) ≡ none
      → ((m.child_composition_id == "") ≡ false
          → (c : FaultComposition) → comps m.child_composition_id ≡ some c
          → check c ≡ none)
        × (walk_members comps check id ms ≡ none)
  unfolding walk_members
  walk_members-passed check id m ms h = elim (Bool-cases (m.child_composition_id == "")) [
    | inl e ↦ (λ e' c found. cc, rw e at h)
    | inr e ↦ elim (Option-cases (comps m.child_composition_id)) [
      | inl missing ↦ let h' = rw (e, missing) at h in cc
      | inr (c, found) ↦
          let h' = rw (e, found) at h in
          let (here, rest) = both_pass (check c) (walk_members comps check id ms) h' in
          (λ e' d found'. let same : d ≡ c = some_child found' found in rw same here, rest)
    ]
  ]
    where
      some_child :
          {o : Option FaultComposition} {d c : FaultComposition} → o ≡ some d → o ≡ some c → d ≡ c
      some_child p q = cc

  member_items-Answers :
      (check : FaultComposition → Check) (visit : FaultComposition → Answer (List B))
      (m : FaultCompositionMember)
      → ChildrenAnswer check visit
      → ((m.child_composition_id == "") ≡ false
          → (c : FaultComposition) → comps m.child_composition_id ≡ some c
          → check c ≡ none)
      → Answers (member_items faults comps leaf inner visit m)
  unfolding member_items
  member_items-Answers check visit m child h = elim (Bool-cases (m.fault_spec_id == "")) [
    | inr is_leaf ↦ elim (Option-cases (faults m.fault_spec_id)) [
      | inl missing ↦ rw (is_leaf, missing) error
      | inr (spec, found) ↦ rw (is_leaf, found) result
    ]
    | inl no_leaf ↦ elim (Bool-cases (m.child_composition_id == "")) [
      | inl e ↦ rw (no_leaf, e) result
      | inr e ↦ elim (Option-cases (comps m.child_composition_id)) [
        | inl missing ↦ rw (no_leaf, e, missing) error
        | inr (c, found) ↦
            rw (no_leaf, e, found) (>>=-Answers (child c (h e c found)) (λ items _. result))
      ]
    ]
  ]

  members_items-Answers :
      (check : FaultComposition → Check) (visit : FaultComposition → Answer (List B)) (id : String)
      (ms : List FaultCompositionMember)
      → ChildrenAnswer check visit
      → walk_members comps check id ms ≡ none
      → Answers (members_items faults comps (member_items faults comps leaf inner visit) ms)
  unfolding members_items
  members_items-Answers check visit id [] child h = result
  members_items-Answers check visit id (m ∷ ms) child h =
      let (here, rest) = walk_members-passed check id m ms h in
      >>=-Answers (member_items-Answers check visit m child here) (λ items _.
        >>=-Answers (members_items-Answers check visit id ms child rest) (λ items' _. result))

  -- The recursion goes no deeper than the check of depth did.
  pub collect-Answers :
      (fuel : ℕ) (comp : FaultComposition)
      → walk_depth comps fuel comp ≡ none
      → Answers (collect faults comps leaf inner fuel comp)
  unfolding collect walk_depth
  collect-Answers zero comp h = cc
  collect-Answers (suc fuel) comp h =
      members_items-Answers (walk_depth comps fuel) (collect faults comps leaf inner fuel) comp.id
        comp.members (λ c passed. collect-Answers fuel c passed) h

module _ (mode : ExecutionMode) (id : String) (rules : List FaultConstraint) where
  check_rules-Answers :
      (a b : String) (rs : List FaultConstraint) → Answers (check_rules mode id rules a b rs)
  unfolding check_rules
  check_rules-Answers a b [] = result
  check_rules-Answers a b (r ∷ rs) =
      let rest = check_rules-Answers a b rs in
      if-Answers (not (matches_pair a b r mode)) rest
        (if-Answers (r.constraint_type == "hard") error (>>=-Answers rest (λ _ _. result)))

  check_with-Answers : (a : String) (bs : List String) → Answers (check_with mode id rules a bs)
  unfolding check_with
  check_with-Answers a [] = result
  check_with-Answers a (b ∷ bs) =
      >>=-Answers (check_rules-Answers a b rules)
        (λ _ _. >>=-Answers (check_with-Answers a bs) (λ _ _. result))

  check_pairs-Answers : (leaves : List String) → Answers (check_pairs mode id rules leaves)
  unfolding check_pairs
  check_pairs-Answers [] = result
  check_pairs-Answers (a ∷ bs) =
      >>=-Answers (check_with-Answers a bs)
        (λ _ _. >>=-Answers (check_pairs-Answers bs) (λ _ _. result))

pub check_answer_ok : (c : Check) (u : Unit {0}) → check_answer c ≡ ok u → c ≡ none
check_answer_ok none u h = refl
check_answer_ok (some e) u h = cc

directions-Answers :
    (faults : FaultSpecResolver) (comps : CompositionResolver) (comp : FaultComposition)
    → walk_depth comps 3 comp ≡ none
    → Answers (validate_network_directions faults comps 3 comp)
unfolding validate_network_directions collect_network_members
directions-Answers faults comps comp h =
    if-Answers (not (is_parallel comp.execution_mode)) result
      (>>=-Answers (collect-Answers faults comps _ _ 3 comp h) (λ infos _. check-Answers _))

-- The check of a composition always answers with an acceptance or an error, whatever the resolvers
-- give and even where compositions contain each other: the check of depth bounds the recursion of
-- the checks behind it.
pub validate_composition-Answers :
    (faults : FaultSpecResolver) (comps : CompositionResolver) (comp : FaultComposition)
    → Answers (validate_composition faults comps comp)
unfolding validate_composition validate_composition_incompatibilities collect_leaves
validate_composition-Answers faults comps comp =
    >>=-Answers (check-Answers (validate_composition_fields comp)) (λ _ _.
      >>=-Answers (check-Answers (walk_depth comps 3 comp)) (λ u passed.
        let deep = check_answer_ok (walk_depth comps 3 comp) u passed in
        >>=-Answers (directions-Answers faults comps comp deep) (λ _ _.
          >>=-Answers
            (>>=-Answers (collect-Answers faults comps _ _ 3 comp deep) (λ leaves _.
              check_pairs-Answers comp.execution_mode comp.id default_incompatibilities leaves))
            (λ _ _. result))))
