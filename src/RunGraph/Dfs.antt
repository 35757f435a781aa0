-- ===== src/RunGraph/Dfs.antt =====
-- The closure `dfs` of ValidateRunGraph: on every branch it tells a grounded run from any other, it
-- ends, and it dereferences no nil pointer.
use mathlib.Core.List.{Memᴰ}
use mathlib.Core.Path.{fun_ext}
use manteion_go.Base.{
  ℕ, zero, suc, ◌<◌, ◌≡◌, refl, sym, ap, ◌∙◌, inl, inr, String, Bool, true, false, some, List, [],
  ◌∷◌, arith, Bool-cases, Option-cases, text-cases,
}
use manteion_go.Base.Update.{update, update_ne}
use manteion_go.Model.Experiment.{ExperimentRun}
use manteion_go.RunGraph.{
  Outcome, ok, err, panic, out_of_fuel, ◌>>=◌, by_id, Marks, visit_deps, enter, leave, dfs,
}
use manteion_go.RunGraph.Fuel.{off, off-enter}
use manteion_go.RunGraph.Spec.{
  IsKnown, IsResolved, IsGrounded, grounded, Chain, one, Chain-append, IsGrounded-acyclic,
  IsGrounded-deps, some_injective,
}

module _ (runs : List ExperimentRun) where
  -- What `visited` records: the search below these runs found no fault.
  abbrev pub AllGrounded : Marks → Type 0
  AllGrounded m = (v : String) → m.visited v ≡ true → IsGrounded runs v

  -- What `onPath` records: the runs above the current one.
  abbrev pub OnPath : Marks → String → Type 0
  OnPath m id = (v : String) → m.on_path v ≡ true → Chain runs v id

  abbrev pub Post : String → Marks → Outcome Marks → Type 0
  Post id m (ok m') = (m'.on_path ≡ m.on_path) × AllGrounded m' × IsGrounded runs id
  Post id m (err e) = ¬ IsGrounded runs id
  Post id m panic = ⊥
  Post id m out_of_fuel = ⊥

  abbrev DepsGrounded : ExperimentRun → List String → Type 0
  DepsGrounded run deps =
      (dep : String) → Memᴰ dep deps → IsResolved runs run dep × IsGrounded runs dep

  abbrev PostDeps : ExperimentRun → List String → Marks → Outcome Marks → Type 0
  PostDeps run deps m (ok m') = (m'.on_path ≡ m.on_path) × AllGrounded m' × DepsGrounded run deps
  PostDeps run deps m (err e) = ¬ DepsGrounded run deps
  PostDeps run deps m panic = ⊥
  PostDeps run deps m out_of_fuel = ⊥

  abbrev VisitPost : ℕ → (String → Marks → Outcome Marks) → Type 0
  VisitPost fuel visit =
      (id : String) (m : Marks)
      → IsKnown runs id
      → off m.on_path runs < fuel
      → AllGrounded m
      → OnPath m id
      → Post id m (visit id m)

  PostDeps-cons :
      (run : ExperimentRun) (dep : String) (deps : List String) (m : Marks) (o : Outcome Marks)
      (k : Marks → Outcome Marks)
      → IsResolved runs run dep
      → Post dep m o
      → ((m' : Marks) → m'.on_path ≡ m.on_path → AllGrounded m' → PostDeps run deps m' (k m'))
      → PostDeps run (dep ∷ deps) m (o >>= k)
  PostDeps-cons run dep deps m (ok m') k known (same, good, g) rest =
      finish (k m') (rest m' same good)
    where
      finish : (o : Outcome Marks) → PostDeps run deps m' o → PostDeps run (dep ∷ deps) m o
      finish (ok m'') (same', good', all) = (same' ∙ same, good', both)
        where
          both : DepsGrounded run (dep ∷ deps)
          both d (Memᴰ.head e) = rw e (known, g)
          both d (Memᴰ.tail h) = all d h
      finish (err e) bad = λ all. bad (λ d h. all d (Memᴰ.tail h))
      finish panic p = p
      finish out_of_fuel p = p
  PostDeps-cons run dep deps m (err e) k known bad rest = λ all. bad (all dep (Memᴰ.head refl)).1
  PostDeps-cons run dep deps m panic k known p rest = p
  PostDeps-cons run dep deps m out_of_fuel k known p rest = p

  visit_deps-PostDeps :
      (fuel : ℕ) (visit : String → Marks → Outcome Marks)
      → VisitPost fuel visit
      → (run : ExperimentRun) (deps : List String) (m : Marks)
      → ((dep : String) → Memᴰ dep deps → OnPath m dep)
      → off m.on_path runs < fuel
      → AllGrounded m
      → PostDeps run deps m (visit_deps runs visit run deps m)
  unfolding visit_deps
  visit_deps-PostDeps fuel visit v run [] m above h good = (refl, good, λ d p. elim p [ ])
  visit_deps-PostDeps fuel visit v run (dep ∷ deps) m above h good =
      elim (Option-cases (by_id runs dep)) [
        | inl missing ↦
            rw (missing, visit_deps) (λ all. let (d, e, _) = (all dep (Memᴰ.head refl)).0 in cc)
        | inr (d, found) ↦ elim (text-cases d.experiment_id run.experiment_id) [
          | inl (e, t) ↦
              rw (found, visit_deps, t)
                (PostDeps-cons run dep deps m (visit dep m)
                  (λ m'. visit_deps runs visit run deps m') (d, found, e)
                  (v dep m (d, found) h good (above dep (Memᴰ.head refl)))
                  (λ m' same good'.
                    visit_deps-PostDeps fuel visit v run deps m'
                      (λ x p w marked. above x (Memᴰ.tail p) w (rw same at marked)) (rw same h)
                      good'))
          | inr (e, t) ↦
              rw (found, visit_deps, t)
                (λ all.
                  let (d', found', e') = (all dep (Memᴰ.head refl)).0 in
                  let same = some_injective runs found found' in
                  e (ap (λ (s : ExperimentRun). s.experiment_id) same ∙ e'))
        ]
      ]

  -- The end of a visit: `onPath` is restored, and the run is recorded as visited.
  leave-Post :
      (id : String) (r : ExperimentRun) (m : Marks) (o : Outcome Marks)
      → by_id runs id ≡ some r
      → m.on_path id ≡ false
      → PostDeps r r.depends_on (enter runs m id) o
      → Post id m (o >>= λ m'. ok (leave runs m' id))
  leave-Post id r m (ok m') found off_path (same, good, all) = (fun_ext restored, visited, done)
    where
      done : IsGrounded runs id
      done = grounded r found (λ d p. (all d p).0) (λ d p. (all d p).1)

      restored : (v : String) → update m'.on_path id false v ≡ m.on_path v
      restored v = elim (text-cases id v) [
        | inl (e, t) ↦ rw t (rw (← e) (sym off_path))
        | inr (e, t) ↦ rw t (ap (λ (f : String → Bool). f v) same ∙ update_ne m.on_path id v true e)
      ]

      visited : (v : String) → update m'.visited id true v ≡ true → IsGrounded runs v
      visited v h = elim (text-cases id v) [
        | inl (e, t) ↦ rw e at done
        | inr (e, t) ↦ good v (rw t at h)
      ]
  leave-Post id r m (err e) found off_path bad = λ g. bad (IsGrounded-deps runs found g)
  leave-Post id r m panic found off_path p = p
  leave-Post id r m out_of_fuel found off_path p = p

  -- The runs on the path stand above each dependency of the run that is entered.
  OnPath-enter :
      (id dep : String) (r : ExperimentRun) (m : Marks)
      → by_id runs id ≡ some r
      → Memᴰ dep r.depends_on
      → OnPath m id
      → OnPath (enter runs m id) dep
  OnPath-enter id dep r m found p above v marked = elim (text-cases id v) [
    | inl (e, t) ↦ rw (← e) (one (r, found, p))
    | inr (e, t) ↦ Chain-append runs (above v (rw t at marked)) (one (r, found, p))
  ]

  pub dfs-Post : (fuel : ℕ) → VisitPost fuel (dfs runs fuel)
  unfolding dfs
  dfs-Post zero id m known h good above = elim h [ ]
  dfs-Post (suc fuel) id m (r, found) h good above = elim (Bool-cases (m.on_path id)) [
    | inl on ↦ rw on (λ g. IsGrounded-acyclic runs g (above id on))
    | inr off_path ↦ elim (Bool-cases (m.visited id)) [
      | inl seen ↦ rw (off_path, seen) (refl, good, good id seen)
      | inr fresh ↦
          rw (off_path, fresh, found)
            (leave-Post id r m (visit_deps runs (dfs runs fuel) r r.depends_on (enter runs m id))
              found off_path
              (visit_deps-PostDeps fuel (dfs runs fuel) (dfs-Post fuel) r r.depends_on
                (enter runs m id) (λ dep p. OnPath-enter id dep r m found p above)
                (omega (arith, off-enter runs id r m.on_path found off_path)) good))
    ]
  ]
