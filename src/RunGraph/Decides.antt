-- ===== src/RunGraph/Decides.antt =====
-- ValidateRunGraph as a whole: what it accepts, and that it always answers.
use mathlib.Core.List.{Memᴰ}
use mathlib.Core.Path.{subst}
use manteion_go.Base.{
  ℕ, suc, ◌<◌, ◌≡◌, refl, sym, ap, ◌∙◌, ◌↔◌, ◌⊎◌, inl, inr, String, Bool, true, false, ◌||◌, List,
  [], ◌∷◌, is_nil, length, if◌then◌else◌, arith, Bool-cases,
}
use manteion_go.Model.Experiment.{ExperimentRun, is_baseline}
use manteion_go.RunGraph.{
  GraphError, no_baseline, Outcome, ok, err, panic, out_of_fuel, ◌>>=◌, Marks, dfs, visit_runs,
  has_baseline_ancestor, check_baselines, no_marks, validate_run_graph,
}
use manteion_go.RunGraph.Spec.{
  IsGrounded, IsGrounded-acyclic, Chain, HasBaselineAncestor, by_id_of_mem, IsValidGraph,
}
use manteion_go.RunGraph.Fuel.{off-le}
use manteion_go.RunGraph.Dfs.{AllGrounded, Post, dfs-Post}
use manteion_go.RunGraph.Walk.{AncestorPost, has_baseline_ancestor-AncestorPost}

-- An answer that decides `P`: success where it holds, an error where it does not, nothing else.
abbrev Decides : {A : Type 0} → Type 0 → Outcome A → Type 0
Decides P (ok a) = P
Decides P (err e) = ¬ P
Decides P panic = ⊥
Decides P out_of_fuel = ⊥

module _ (runs : List ExperimentRun) where
  abbrev RunsGrounded : List ExperimentRun → Type 0
  RunsGrounded rs = (r : ExperimentRun) → Memᴰ r rs → IsGrounded runs r.id

  abbrev RunsBased : List ExperimentRun → Type 0
  RunsBased rs =
      (r : ExperimentRun)
      → Memᴰ r rs
      → is_baseline r.run_type ≡ false
      → is_nil r.frozen_services ≡ false
      → HasBaselineAncestor runs r.id

  abbrev Clear : Marks → Type 0
  Clear m = m.on_path ≡ (λ _. false)

  visit_rest :
      (fuel : ℕ) (r : ExperimentRun) (rs : List ExperimentRun) (m : Marks) (o : Outcome Marks)
      → Clear m
      → Post runs r.id m o
      → ((m' : Marks)
          → Clear m'
          → AllGrounded runs m'
          → Decides (RunsGrounded rs) (visit_runs runs fuel rs m'))
      → Decides (RunsGrounded (r ∷ rs)) (o >>= visit_runs runs fuel rs)
  visit_rest fuel r rs m (ok m') clear (same, good, g) rest =
      finish (visit_runs runs fuel rs m') (rest m' (same ∙ clear) good)
    where
      finish : (o : Outcome Marks) → Decides (RunsGrounded rs) o → Decides (RunsGrounded (r ∷ rs)) o
      finish (ok m'') all = both
        where
          both : RunsGrounded (r ∷ rs)
          both x (Memᴰ.head e) = rw e g
          both x (Memᴰ.tail p) = all x p
      finish (err e) bad = λ all. bad (λ x p. all x (Memᴰ.tail p))
      finish panic p = p
      finish out_of_fuel p = p
  visit_rest fuel r rs m (err e) clear bad rest = λ all. bad (all r (Memᴰ.head refl))
  visit_rest fuel r rs m panic clear p rest = p
  visit_rest fuel r rs m out_of_fuel clear p rest = p

  visit_runs-Decides :
      (fuel : ℕ) (rs : List ExperimentRun) (m : Marks)
      → ((r : ExperimentRun) → Memᴰ r rs → Memᴰ r runs)
      → length runs < fuel
      → Clear m
      → AllGrounded runs m
      → Decides (RunsGrounded rs) (visit_runs runs fuel rs m)
  unfolding visit_runs
  visit_runs-Decides fuel [] m sub h clear good = λ r p. elim p [ ]
  visit_runs-Decides fuel (r ∷ rs) m sub h clear good =
      visit_rest fuel r rs m (dfs runs fuel r.id m) clear
        (dfs-Post runs fuel r.id m (by_id_of_mem runs r (sub r (Memᴰ.head refl)))
          (omega (arith, off-le m.on_path runs)) good
          (λ v on. let off_path = ap (λ (f : String → Bool). f v) clear in cc))
        (λ m' clear' good'.
          visit_runs-Decides fuel rs m' (λ x p. sub x (Memᴰ.tail p)) h clear' good')

  RunsBased-cons :
      (r : ExperimentRun) (rs : List ExperimentRun)
      → (is_baseline r.run_type ≡ false
          → is_nil r.frozen_services ≡ false
          → HasBaselineAncestor runs r.id)
      → RunsBased rs
      → RunsBased (r ∷ rs)
  RunsBased-cons r rs here all x (Memᴰ.head e) =
      subst
        (λ (y : ExperimentRun).
          is_baseline y.run_type ≡ false
          → is_nil y.frozen_services ≡ false
          → HasBaselineAncestor runs y.id)
        (sym e) here
  RunsBased-cons r rs here all x (Memᴰ.tail p) = all x p

  skip_rest :
      (r : ExperimentRun) (rs : List ExperimentRun) (o : Outcome (Unit {0}))
      → (is_baseline r.run_type || is_nil r.frozen_services) ≡ true
      → Decides (RunsBased rs) o
      → Decides (RunsBased (r ∷ rs)) o
  skip_rest r rs (ok u) skip all = RunsBased-cons r rs (λ p q. ground arith) all
  skip_rest r rs (err e) skip bad = λ all. bad (λ x p. all x (Memᴰ.tail p))
  skip_rest r rs panic skip p = p
  skip_rest r rs out_of_fuel skip p = p

  based_rest :
      (r : ExperimentRun) (rs : List ExperimentRun) (o : Outcome Bool) (rest : Outcome (Unit {0}))
      → (is_baseline r.run_type || is_nil r.frozen_services) ≡ false
      → AncestorPost runs r.id o
      → Decides (RunsBased rs) rest
      → Decides (RunsBased (r ∷ rs)) (o >>= λ found. if found then rest else err (no_baseline r.id))
  based_rest r rs (ok true) (ok u) needs above all = RunsBased-cons r rs (λ p q. above) all
  based_rest r rs (ok true) (err e) needs above bad = λ all. bad (λ x p. all x (Memᴰ.tail p))
  based_rest r rs (ok true) panic needs above p = p
  based_rest r rs (ok true) out_of_fuel needs above p = p
  based_rest r rs (ok false) rest needs above h =
      λ all. above (all r (Memᴰ.head refl) (ground arith) (ground arith))
  based_rest r rs (err e) rest needs p h = absurd p
  based_rest r rs panic rest needs p h = p
  based_rest r rs out_of_fuel rest needs p h = p

  check_baselines-Decides :
      (fuel : ℕ) (rs : List ExperimentRun)
      → RunsGrounded rs
      → length runs < fuel
      → Decides (RunsBased rs) (check_baselines runs fuel rs)
  unfolding check_baselines
  check_baselines-Decides fuel [] g h = λ r p. elim p [ ]
  check_baselines-Decides fuel (r ∷ rs) g h =
      let rest = check_baselines-Decides fuel rs (λ x p. g x (Memᴰ.tail p)) h in
      elim (Bool-cases (is_baseline r.run_type || is_nil r.frozen_services)) [
        | inl skip ↦ rw skip (skip_rest r rs (check_baselines runs fuel rs) skip rest)
        | inr needs ↦ rw needs (
            based_rest r rs (has_baseline_ancestor runs fuel r.id) (check_baselines runs fuel rs)
              needs (has_baseline_ancestor-AncestorPost runs fuel r.id (g r (Memᴰ.head refl)) h)
              rest)
      ]

  graph_rest :
      (o : Outcome Marks)
      (k : RunsGrounded runs
        → Decides (RunsBased runs) (check_baselines runs (suc (length runs)) runs))
      → Decides (RunsGrounded runs) o
      → Decides (IsValidGraph runs) (o >>= λ _. check_baselines runs (suc (length runs)) runs)
  graph_rest (ok m) k g = finish (check_baselines runs (suc (length runs)) runs) (k g)
    where
      finish : (o : Outcome (Unit {0})) → Decides (RunsBased runs) o → Decides (IsValidGraph runs) o
      finish (ok u) all = record { all_grounded = g; all_based = all }
      finish (err e) bad = λ v. bad v.all_based
      finish panic p = p
      finish out_of_fuel p = p
  graph_rest (err e) k bad = λ v. bad v.all_grounded
  graph_rest panic k p = p
  graph_rest out_of_fuel k p = p

  validate_run_graph-Decides : Decides (IsValidGraph runs) (validate_run_graph runs)
  unfolding validate_run_graph
  validate_run_graph-Decides =
      graph_rest (visit_runs runs (suc (length runs)) runs no_marks)
        (λ g. check_baselines-Decides (suc (length runs)) runs g (omega arith))
        (visit_runs-Decides (suc (length runs)) runs no_marks (λ r p. p) (omega arith) refl
          (λ v h. cc))

Decides-iff : {P : Type 0} (o : Outcome (Unit {0})) → Decides P o → (o ≡ ok tt) ↔ P
Decides-iff (ok tt) p = (λ e. p, λ q. refl)
Decides-iff (err e) n = (λ p. cc, λ q. absurd (n q))
Decides-iff panic p = absurd p
Decides-iff out_of_fuel p = absurd p

Decides-answers :
    (P : Type 0) (o : Outcome (Unit {0}))
    → Decides P o
    → (o ≡ ok tt) ⊎ ((e : GraphError) × (o ≡ err e))
Decides-answers P (ok u) p = inl refl
Decides-answers P (err e) n = inr (e, refl)
Decides-answers P panic p = absurd p
Decides-answers P out_of_fuel p = absurd p

-- The run graph of an experiment is accepted exactly where each run's transitive dependencies are
-- runs of its experiment in chains that end, and each run that is no baseline run but has frozen
-- services has a baseline run among its transitive dependencies.
pub validate_run_graph_iff :
    (runs : List ExperimentRun) → (validate_run_graph runs ≡ ok tt) ↔ IsValidGraph runs
validate_run_graph_iff runs =
    Decides-iff (validate_run_graph runs) (validate_run_graph-Decides runs)

-- For every list of runs the check ends with an acceptance or an error: the recursion is at most as
-- deep as the list is long, and no look-up in `byID` that is dereferenced misses.
pub validate_run_graph_answers :
    (runs : List ExperimentRun)
    → (validate_run_graph runs ≡ ok tt) ⊎ ((e : GraphError) × (validate_run_graph runs ≡ err e))
validate_run_graph_answers runs =
    Decides-answers (IsValidGraph runs) (validate_run_graph runs) (validate_run_graph-Decides runs)

-- In an accepted graph no run depends on itself, directly or through other runs.
pub validate_run_graph_acyclic :
    (runs : List ExperimentRun)
    → validate_run_graph runs ≡ ok tt
    → (r : ExperimentRun) → Memᴰ r runs
    → ¬ Chain runs r.id r.id
validate_run_graph_acyclic runs h r m =
    let valid = (validate_run_graph_iff runs).0 h in
    IsGrounded-acyclic runs (valid.all_grounded r m)
