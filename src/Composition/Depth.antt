-- ===== src/Composition/Depth.antt =====
-- internal/model/composition_validate.go: ValidateCompositionDepth and walkDepth, as what they say of
-- the compositions that contain each other.
use mathlib.Core.List.{Memᴰ}
use manteion_go.Base.{
  ℕ, zero, suc, ◌≤◌, ◌≡◌, ◌↔◌, refl, inl, inr, String, ◌==◌, false, none, some, List, [], ◌∷◌,
  Check, >>-eq-none, Bool-cases, Option-cases, arith,
}
use manteion_go.Model.Fault.{FaultCompositionMember, FaultComposition}
use manteion_go.Composition.{
  CompositionResolver, walk_members, walk_depth, validate_composition_depth,
}

module _ (comps : CompositionResolver) where
  -- The member is a child composition, and the resolver knows it.
  abbrev pub Holds : FaultCompositionMember → FaultComposition → Type 0
  Holds m d = ((m.child_composition_id == "") ≡ false) × (comps m.child_composition_id ≡ some d)

  -- A chain of so many compositions, each a child of the one before, ends at the second.
  pub data Chain : FaultComposition → ℕ → FaultComposition → Type 0 where
    self : (c : FaultComposition) → Chain c 1 c
    inner :
        {n : ℕ} {e : FaultComposition} (c : FaultComposition) (m : FaultCompositionMember)
        (d : FaultComposition)
        → Memᴰ m c.members
        → Holds m d
        → Chain d n e
        → Chain c (suc n) e

  -- Each child that the composition names is known.
  abbrev pub HasChildren : FaultComposition → Type 0
  HasChildren c =
      (m : FaultCompositionMember)
      → Memᴰ m c.members
      → (m.child_composition_id == "") ≡ false
      → (d : FaultComposition) × (comps m.child_composition_id ≡ some d)

  -- No chain from the composition is longer, and every composition on one has its children.
  abbrev pub IsWithin : ℕ → FaultComposition → Type 0
  IsWithin max c = (n : ℕ) (e : FaultComposition) → Chain c n e → (n ≤ max) × HasChildren e

  -- What the loop over the members has checked.
  abbrev Visited : (FaultComposition → Check) → List FaultCompositionMember → Type 0
  Visited visit ms =
      (m : FaultCompositionMember)
      → Memᴰ m ms
      → (m.child_composition_id == "") ≡ false
      → (d : FaultComposition) × (comps m.child_composition_id ≡ some d) × (visit d ≡ none)

  Visited-cons :
      (visit : FaultComposition → Check) (m : FaultCompositionMember)
      (ms : List FaultCompositionMember)
      → ((m.child_composition_id == "") ≡ false
          → (d : FaultComposition) × (comps m.child_composition_id ≡ some d) × (visit d ≡ none))
      → Visited visit ms
      → Visited visit (m ∷ ms)
  Visited-cons visit m ms here rest x (Memᴰ.head e) inside =
      let (d, known, passed) = here (rw (e) at inside) in (d, rw (e) known, passed)
  Visited-cons visit m ms here rest x (Memᴰ.tail p) inside = rest x p inside

  walk_members-Visited :
      (visit : FaultComposition → Check) (id : String) (ms : List FaultCompositionMember)
      → walk_members comps visit id ms ≡ none
      → Visited visit ms
  unfolding walk_members
  walk_members-Visited visit id [] h = λ m p. elim p [ ]
  walk_members-Visited visit id (m ∷ ms) h = elim (Bool-cases (m.child_composition_id == "")) [
    | inl leaf ↦
        let h' = rw (leaf) at h in
        Visited-cons visit m ms (λ inside. cc) (walk_members-Visited visit id ms h')
    | inr child ↦ elim (Option-cases (comps m.child_composition_id)) [
      | inl gone ↦ let h' = rw (child, gone) at h in cc
      | inr (d, known) ↦
          let h' = rw (child, known) at h in
          let (passed, rest) = (>>-eq-none (visit d) (walk_members comps visit id ms)).0 h' in
          Visited-cons visit m ms (λ inside. (d, known, passed))
            (walk_members-Visited visit id ms rest)
    ]
  ]

  Visited-walk_members :
      (visit : FaultComposition → Check) (id : String) (ms : List FaultCompositionMember)
      → Visited visit ms
      → walk_members comps visit id ms ≡ none
  unfolding walk_members
  Visited-walk_members visit id [] v = refl
  Visited-walk_members visit id (m ∷ ms) v =
      let rest = Visited-walk_members visit id ms (λ x p. v x (Memᴰ.tail p)) in
      elim (Bool-cases (m.child_composition_id == "")) [
        | inl leaf ↦ rw (leaf) rest
        | inr child ↦
            let (d, known, passed) = v m (Memᴰ.head refl) child in
            rw (child, known)
              ((>>-eq-none (visit d) (walk_members comps visit id ms)).1 (passed, rest))
      ]

  -- A chain from an accepted composition.
  chain_within :
      (left : ℕ) {n : ℕ} {c e : FaultComposition}
      → Chain c n e
      → walk_depth comps left c ≡ none
      → (n ≤ left) × HasChildren e
  unfolding walk_depth
  chain_within zero chain h = cc
  chain_within (suc left) (self c) h =
      let visited = walk_members-Visited (walk_depth comps left) c.id c.members h in
      (omega arith, λ m p inside. let (d, known, _) = visited m p inside in (d, known))
  chain_within (suc left) (inner c m d p (inside, known) chain) h =
      let (d', known', passed) =
        walk_members-Visited (walk_depth comps left) c.id c.members h m p inside in
      let same : d' ≡ d = cc in
      let (less, found) = chain_within left chain (rw (same) at passed) in
      (omega (arith, less), found)

  IsWithin-walk_depth :
      (left : ℕ) (c : FaultComposition) → IsWithin left c → walk_depth comps left c ≡ none
  unfolding walk_depth
  IsWithin-walk_depth zero c w = absurd (omega (arith, (w 1 c (self c)).0))
  IsWithin-walk_depth (suc left) c w =
      Visited-walk_members (walk_depth comps left) c.id c.members λ m p inside.
        let (d, known) = (w 1 c (self c)).1 m p inside in
        (
          d,
          known,
          IsWithin-walk_depth left d λ n e chain.
              let (less, found) = w (suc n) e (inner c m d p (inside, known) chain) in
              (omega (arith, less), found),
        )

  -- ValidateCompositionDepth accepts a composition exactly if no chain of compositions that starts
  -- with it, each a child of the one before, is longer than the maximum, and the resolver knows every
  -- child that is named on such a chain.
  pub validate_composition_depth_iff :
      (max : ℕ) (c : FaultComposition)
      → (validate_composition_depth comps max c ≡ none) ↔ IsWithin max c
  validate_composition_depth_iff max c =
      (λ h n e chain. chain_within max chain h, IsWithin-walk_depth max c)
