-- ===== src/RunGraph/Walk.antt =====
-- The closure `walk` of hasBaselineAncestor: in a grounded graph it finds a baseline run among the
-- ancestors exactly when there is one, it ends, and it dereferences no nil pointer.
use mathlib.Core.List.{Memᴰ}
use manteion_go.Base.{
  ℕ, zero, suc, ◌<◌, ◌≡◌, refl, ◌⊎◌, inl, inr, String, Bool, true, false, some, List, [], ◌∷◌,
  length, if◌then◌else◌, arith, Bool-cases, text-cases,
}
use manteion_go.Base.Update.{update}
use manteion_go.Model.Experiment.{ExperimentRun, is_baseline}
use manteion_go.RunGraph.{
  Outcome, ok, err, panic, out_of_fuel, ◌>>=◌, by_id, walk_deps, walk, has_baseline_ancestor,
}
use manteion_go.RunGraph.Spec.{
  IsGrounded, IsGrounded-acyclic, IsGrounded-deps, IsGrounded-IsKnown, Needs-run, Chain, one, more,
  Chain-append, HasBaselineAncestor, some_injective,
}
use manteion_go.RunGraph.Fuel.{off, off-le, off-enter, Grows, Grows-update, off-anti}

module _ (runs : List ExperimentRun) where
  abbrev OrSelf : String → String → Type 0
  OrSelf v a = (v ≡ a) ⊎ Chain runs v a

  -- A baseline run stands at `v` or among its ancestors.
  abbrev IsBased : String → Type 0
  IsBased v =
      (a : String) × (r : ExperimentRun) × OrSelf v a
      × (by_id runs a ≡ some r)
      × (is_baseline r.run_type ≡ true)

  abbrev IsBarren : String → Type 0
  IsBarren v = ¬ IsBased v

  -- What `seen` records: runs with no baseline run, and the runs above the current one.
  abbrev SeenAbove : (String → Bool) → String → Type 0
  SeenAbove seen cur = (v : String) → seen v ≡ true → IsBarren v ⊎ Chain runs v cur

  abbrev Explored : (String → Bool) → (String → Bool) → Type 0
  Explored seen seen' =
      Grows seen seen' × ((v : String) → seen' v ≡ true → IsBarren v ⊎ (seen v ≡ true))

  abbrev Post : String → (String → Bool) → Outcome (Bool × (String → Bool)) → Type 0
  Post cur seen (ok (true, seen')) = IsBased cur
  Post cur seen (ok (false, seen')) = IsBarren cur × Explored seen seen'
  Post cur seen (err e) = ⊥
  Post cur seen panic = ⊥
  Post cur seen out_of_fuel = ⊥

  abbrev PostDeps : List String → (String → Bool) → Outcome (Bool × (String → Bool)) → Type 0
  PostDeps deps seen (ok (true, seen')) = (dep : String) × Memᴰ dep deps × IsBased dep
  PostDeps deps seen (ok (false, seen')) =
      ((dep : String) → Memᴰ dep deps → IsBarren dep) × Explored seen seen'
  PostDeps deps seen (err e) = ⊥
  PostDeps deps seen panic = ⊥
  PostDeps deps seen out_of_fuel = ⊥

  abbrev VisitPost : ℕ → (String → (String → Bool) → Outcome (Bool × (String → Bool))) → Type 0
  VisitPost fuel visit =
      (cur : String) (seen : String → Bool)
      → IsGrounded runs cur
      → off seen runs < fuel
      → SeenAbove seen cur
      → Post cur seen (visit cur seen)

  Explored-trans : (s t u : String → Bool) → Explored s t → Explored t u → Explored s u
  Explored-trans s t u (g, e) (g', e') = (λ v h. g' v (g v h), both)
    where
      both : (v : String) → u v ≡ true → IsBarren v ⊎ (s v ≡ true)
      both v h = elim (e' v h) [ inl b ↦ inl b | inr k ↦ e v k ]

  PostDeps-cons :
      (dep : String) (deps : List String) (seen : String → Bool)
      (o : Outcome (Bool × (String → Bool)))
      (k : (String → Bool) → Outcome (Bool × (String → Bool)))
      → Post dep seen o
      → ((seen' : String → Bool) → Explored seen seen' → PostDeps deps seen' (k seen'))
      → PostDeps
          (dep ∷ deps)
          seen
          (o >>= λ (found, seen'). if found then ok (true, seen') else k seen')
  PostDeps-cons dep deps seen (ok (true, seen')) k b rest = (dep, Memᴰ.head refl, b)
  PostDeps-cons dep deps seen (ok (false, seen')) k (barren, ex) rest =
      finish (k seen') (rest seen' ex)
    where
      finish :
          (o : Outcome (Bool × (String → Bool)))
          → PostDeps deps seen' o
          → PostDeps (dep ∷ deps) seen o
      finish (ok (true, seen'')) (d, p, b) = (d, Memᴰ.tail p, b)
      finish (ok (false, seen'')) (all, ex') = (both, Explored-trans seen seen' seen'' ex ex')
        where
          both : (d : String) → Memᴰ d (dep ∷ deps) → IsBarren d
          both d (Memᴰ.head e) = rw e barren
          both d (Memᴰ.tail p) = all d p
      finish (err e) p = p
      finish panic p = p
      finish out_of_fuel p = p
  PostDeps-cons dep deps seen (err e) k p rest = p
  PostDeps-cons dep deps seen panic k p rest = p
  PostDeps-cons dep deps seen out_of_fuel k p rest = p

  SeenAbove-Explored :
      (seen seen' : String → Bool) (dep : String)
      → SeenAbove seen dep
      → Explored seen seen'
      → SeenAbove seen' dep
  SeenAbove-Explored seen seen' dep above (g, e) v h = elim (e v h) [
    | inl b ↦ inl b
    | inr k ↦ above v k
  ]

  walk_deps-PostDeps :
      (fuel : ℕ) (visit : String → (String → Bool) → Outcome (Bool × (String → Bool)))
      → VisitPost fuel visit
      → (deps : List String) (seen : String → Bool)
      → ((dep : String) → Memᴰ dep deps → IsGrounded runs dep × SeenAbove seen dep)
      → off seen runs < fuel
      → PostDeps deps seen (walk_deps runs visit deps seen)
  unfolding walk_deps
  walk_deps-PostDeps fuel visit v [] seen fit h = (λ dep p. elim p [ ], (λ x k. k, λ x k. inr k))
  walk_deps-PostDeps fuel visit v (dep ∷ deps) seen fit h =
      let (g, above) = fit dep (Memᴰ.head refl) in
      PostDeps-cons dep deps seen (visit dep seen) (walk_deps runs visit deps)
        (v dep seen g h above)
        (λ seen' ex.
          walk_deps-PostDeps fuel visit v deps seen'
            (λ d p. let (g', a) = fit d (Memᴰ.tail p) in (g', SeenAbove-Explored seen seen' d a ex))
            (omega (arith, off-anti seen seen' runs ex.0)))

  -- A run that is no baseline run, and has none at its dependencies or above, has none.
  IsBarren-deps :
      (cur : String) (r : ExperimentRun)
      → by_id runs cur ≡ some r
      → is_baseline r.run_type ≡ false
      → ((dep : String) → Memᴰ dep r.depends_on → IsBarren dep)
      → IsBarren cur
  IsBarren-deps cur r found not_base all (a, s, inl e, found', base) =
      let same : r ≡ s = some_injective runs found (rw e found') in
      let base' : is_baseline r.run_type ≡ true = rw same base in cc
  IsBarren-deps cur r found not_base all (a, s, inr (one n), found', base) =
      all a (Needs-run runs cur a found n) (a, s, inl refl, found', base)
  IsBarren-deps cur r found not_base all (a, s, inr (more {b = b} n p), found', base) =
      all b (Needs-run runs cur b found n) (a, s, inr p, found', base)

  -- The end of a visit, where the run is no baseline run.
  visit-Post :
      (cur : String) (seen : String → Bool) (r : ExperimentRun)
      (o : Outcome (Bool × (String → Bool)))
      → by_id runs cur ≡ some r
      → is_baseline r.run_type ≡ false
      → PostDeps r.depends_on (update seen cur true) o
      → Post cur seen o
  visit-Post cur seen r (ok (true, seen')) found not_base (dep, p, (a, s, path, found', base)) =
      (a, s, extend path, found', base)
    where
      extend : OrSelf dep a → OrSelf cur a
      extend (inl e) = inr (rw e at (one {a = cur} (r, found, p)))
      extend (inr c) = inr (more (r, found, p) c)
  visit-Post cur seen r (ok (false, seen')) found not_base (all, (g, e)) =
      (barren, (λ v h. g v (Grows-update seen cur v h), back))
    where
      barren : IsBarren cur
      barren = IsBarren-deps cur r found not_base all

      back : (v : String) → seen' v ≡ true → IsBarren v ⊎ (seen v ≡ true)
      back v h = elim (text-cases cur v) [
        | inl (same, t) ↦ inl (rw same at barren)
        | inr (other, t) ↦ elim (e v h) [ inl b ↦ inl b | inr k ↦ inr (rw t at k) ]
      ]
  visit-Post cur seen r (err e) found not_base p = p
  visit-Post cur seen r panic found not_base p = p
  visit-Post cur seen r out_of_fuel found not_base p = p

  SeenAbove-enter :
      (cur dep : String) (seen : String → Bool) (r : ExperimentRun)
      → by_id runs cur ≡ some r
      → Memᴰ dep r.depends_on
      → SeenAbove seen cur
      → SeenAbove (update seen cur true) dep
  SeenAbove-enter cur dep seen r found p above v h = elim (text-cases cur v) [
    | inl (e, t) ↦ inr (rw e at (one {a = cur} (r, found, p)))
    | inr (e, t) ↦ elim (above v (rw t at h)) [
      | inl b ↦ inl b
      | inr c ↦ inr (Chain-append runs c (one (r, found, p)))
    ]
  ]

  pub walk-Post : (fuel : ℕ) → VisitPost fuel (walk runs fuel)
  unfolding walk
  walk-Post zero cur seen g h above = elim h [ ]
  walk-Post (suc fuel) cur seen g h above = elim (Bool-cases (seen cur)) [
    | inl old ↦ rw old (again (above cur old), (λ v k. k, λ v k. inr k))
    | inr fresh ↦
        let (r, found) = IsGrounded-IsKnown runs g in
        elim (Bool-cases (is_baseline r.run_type)) [
          | inl base ↦ rw (fresh, found, base) (cur, r, inl refl, found, base)
          | inr not_base ↦
              rw (fresh, found, not_base)
                (visit-Post cur seen r
                  (walk_deps runs (walk runs fuel) r.depends_on (update seen cur true)) found
                  not_base
                  (walk_deps-PostDeps fuel (walk runs fuel) (walk-Post fuel) r.depends_on
                    (update seen cur true)
                    (λ dep p. (
                      (IsGrounded-deps runs found g dep p).1,
                      SeenAbove-enter cur dep seen r found p above,
                    ))
                    (omega (arith, off-enter runs cur r seen found fresh))))
        ]
  ]
    where
      again : IsBarren cur ⊎ Chain runs cur cur → IsBarren cur
      again (inl b) = b
      again (inr c) = absurd (IsGrounded-acyclic runs g c)

  abbrev pub AncestorPost : String → Outcome Bool → Type 0
  AncestorPost id (ok true) = HasBaselineAncestor runs id
  AncestorPost id (ok false) = ¬ HasBaselineAncestor runs id
  AncestorPost id (err e) = ⊥
  AncestorPost id panic = ⊥
  AncestorPost id out_of_fuel = ⊥

  ancestor_end :
      (id : String) (r : ExperimentRun) (o : Outcome (Bool × (String → Bool)))
      → by_id runs id ≡ some r
      → PostDeps r.depends_on (λ _. false) o
      → AncestorPost id (o >>= λ (found, seen). ok found)
  ancestor_end id r (ok (true, seen)) found (dep, p, (a, s, path, found', base)) =
      (a, s, extend path, found', base)
    where
      extend : OrSelf dep a → Chain runs id a
      extend (inl e) = rw e at (one {a = id} (r, found, p))
      extend (inr c) = more (r, found, p) c
  ancestor_end id r (ok (false, seen)) found (all, ex) = none_above
    where
      none_above : ¬ HasBaselineAncestor runs id
      none_above (a, s, one n, found', base) =
          all a (Needs-run runs id a found n) (a, s, inl refl, found', base)
      none_above (a, s, more {b = b} n p, found', base) =
          all b (Needs-run runs id b found n) (a, s, inr p, found', base)
  ancestor_end id r (err e) found p = p
  ancestor_end id r panic found p = p
  ancestor_end id r out_of_fuel found p = p

  pub has_baseline_ancestor-AncestorPost :
      (fuel : ℕ) (id : String)
      → IsGrounded runs id
      → length runs < fuel
      → AncestorPost id (has_baseline_ancestor runs fuel id)
  unfolding has_baseline_ancestor
  has_baseline_ancestor-AncestorPost fuel id g h =
      let (r, found) = IsGrounded-IsKnown runs g in
      rw (found, has_baseline_ancestor)
        (ancestor_end id r (walk_deps runs (walk runs fuel) r.depends_on (λ _. false)) found (
          walk_deps-PostDeps fuel (walk runs fuel) (walk-Post fuel) r.depends_on (λ _. false)
            (λ dep p. ((IsGrounded-deps runs found g dep p).1, λ v k. cc))
            (omega (arith, off-le (λ _. false) runs))))
