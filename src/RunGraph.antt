-- ===== src/RunGraph.antt =====
-- internal/model/experiment.go: ValidateRunGraph and hasBaselineAncestor, the check of the
-- dependency graph between the runs of an experiment. The closures `dfs` and `walk` mutate maps that
-- they capture; here the maps are passed along. Recursion takes fuel; `panic` is the dereference of
-- the nil pointer that `byID` gives for a missing key.
pub mod Spec
pub mod Fuel
pub mod Dfs
pub mod Walk
pub mod Decides
use manteion_go.Base.{
  ℕ, zero, suc, String, ◌==◌, Bool, true, false, ◌&&◌, ◌||◌, Option, none, some, List, [], ◌∷◌,
  is_nil, length, if◌then◌else◌,
}
use manteion_go.Base.Update.{update}
use manteion_go.Model.Experiment.{ExperimentRun, is_baseline}

pub data GraphError : Type 0 where
  cycle : (run : String) → GraphError
  unknown_run : (run dep : String) → GraphError
  different_experiment : (run dep : String) → GraphError
  no_baseline : (run : String) → GraphError

pub data Outcome {ℓ} (A : Type ℓ) : Type ℓ where
  ok : A → Outcome A
  err : GraphError → Outcome A
  panic out_of_fuel : Outcome A

infixl 5 ◌>>=◌ ◌>>◌
abbrev pub ◌>>=◌ {ℓ κ} : {A : Type ℓ} {B : Type κ} → Outcome A → (A → Outcome B) → Outcome B
ok a >>= f = f a
err e >>= f = err e
panic >>= f = panic
out_of_fuel >>= f = out_of_fuel

abbrev pub ◌>>◌ {ℓ} : {B : Type ℓ} → Outcome (Unit {0}) → Outcome B → Outcome B
m >> k = m >>= λ _. k

-- `byID`: the last run of an ID wins.
unfoldable pub by_id : List ExperimentRun → String → Option ExperimentRun
by_id [] id = none
by_id (r ∷ rs) id = elim (by_id rs id) [
  | some x ↦ some x
  | none ↦ if r.id == id then some r else none
]

pub record Marks : Type 0 where
  pub visited : String → Bool
  pub on_path : String → Bool

module _ (runs : List ExperimentRun) where
  -- The loop over `run.DependsOn` in `dfs`, where `visit` is the recursive call.
  pub visit_deps :
      (visit : String → Marks → Outcome Marks) → ExperimentRun → List String → Marks → Outcome Marks
  visit_deps visit run [] m = ok m
  visit_deps visit run (dep ∷ deps) m = elim (by_id runs dep) [
    | none ↦ err (unknown_run run.id dep)
    | some dep_run ↦
        if dep_run.experiment_id == run.experiment_id
        then (do m' ← visit dep m; visit_deps visit run deps m')
        else err (different_experiment run.id dep)
  ]

  abbrev pub enter : Marks → String → Marks
  enter m id = record m { on_path = update m.on_path id true }

  abbrev pub leave : Marks → String → Marks
  leave m id = record { visited = update m.visited id true; on_path = update m.on_path id false }

  pub dfs : ℕ → String → Marks → Outcome Marks
  dfs zero id m = out_of_fuel
  dfs (suc fuel) id m =
      if m.on_path id then err (cycle id) else if m.visited id then ok m else elim (by_id runs id) [
        | none ↦ panic
        | some run ↦ do m' ← visit_deps (dfs fuel) run run.depends_on (enter m id); ok (leave m' id)
      ]

  -- `for _, r := range runs { dfs(r.ID) }`
  pub visit_runs : ℕ → List ExperimentRun → Marks → Outcome Marks
  visit_runs fuel [] m = ok m
  visit_runs fuel (r ∷ rs) m = do m' ← dfs fuel r.id m; visit_runs fuel rs m'

  -- The loop over `r.DependsOn` in `walk`: the answer and the map `seen`.
  pub walk_deps :
      (visit : String → (String → Bool) → Outcome (Bool × (String → Bool)))
      → List String
      → (String → Bool)
      → Outcome (Bool × (String → Bool))
  walk_deps visit [] seen = ok (false, seen)
  walk_deps visit (dep ∷ deps) seen = do
    (found, seen') ← visit dep seen
    if found then ok (true, seen') else walk_deps visit deps seen'

  pub walk : ℕ → String → (String → Bool) → Outcome (Bool × (String → Bool))
  walk zero cur seen = out_of_fuel
  walk (suc fuel) cur seen = if seen cur then ok (false, seen) else elim (by_id runs cur) [
    | none ↦ panic
    | some r ↦
        if is_baseline r.run_type
        then ok (true, update seen cur true)
        else walk_deps (walk fuel) r.depends_on (update seen cur true)
  ]

  pub has_baseline_ancestor : ℕ → String → Outcome Bool
  has_baseline_ancestor fuel id = elim (by_id runs id) [
    | none ↦ panic
    | some r ↦ do (found, _) ← walk_deps (walk fuel) r.depends_on (λ _. false); ok found
  ]

  -- The second loop of ValidateRunGraph.
  pub check_baselines : ℕ → List ExperimentRun → Outcome (Unit {0})
  check_baselines fuel [] = ok tt
  check_baselines fuel (r ∷ rs) =
      let rest = check_baselines fuel rs in
      if is_baseline r.run_type || is_nil r.frozen_services then rest else (do
        found ← has_baseline_ancestor fuel r.id
        if found then rest else err (no_baseline r.id))

abbrev pub no_marks : Marks
no_marks = record { visited = λ _. false; on_path = λ _. false }

-- ValidateRunGraph, with the fuel that RunGraph.Ends shows to suffice.
unfoldable pub validate_run_graph : List ExperimentRun → Outcome (Unit {0})
unfolding by_id visit_deps dfs visit_runs walk_deps walk has_baseline_ancestor check_baselines
validate_run_graph runs =
    let fuel = suc (length runs) in
    do _ ← visit_runs runs fuel runs no_marks; check_baselines runs fuel runs
