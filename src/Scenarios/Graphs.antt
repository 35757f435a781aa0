-- ===== src/Scenarios/Graphs.antt =====
-- Run graphs: a baseline run, and an isolation run that replays its cache.
use manteion_go.Base.{◌≡◌, refl, ◌↔◌, ◌⊎◌, String, false, none, List, [], ◌∷◌}
use manteion_go.Base.Int.{pos}
use manteion_go.Model.Trace.{CacheBoxConfig, CacheBoxMode, MutationPolicy}
use manteion_go.Model.Experiment.{ExperimentRun, RunType, RunStatus}
use manteion_go.RunGraph.{
  GraphError, cycle, unknown_run, different_experiment, no_baseline, ok, err, validate_run_graph,
}
use manteion_go.RunGraph.Spec.{IsValidGraph}
use manteion_go.RunGraph.Decides.{validate_run_graph_iff, validate_run_graph_answers}

abbrev pub frozen_cart : CacheBoxConfig
frozen_cart = record {
  service = "cart";
  mode = CacheBoxMode.replay;
  workflow_scope = "";
  key_strategy = "exact";
  mutation_policy = MutationPolicy.deny;
  safe_methods = [];
  synthetic_delay = none;
  warmup_duration_ms = pos 0;
  cache_ttl_ms = pos 0;
}

abbrev pub run : String → String → RunType → List CacheBoxConfig → List String → ExperimentRun
run id exp type frozen deps = record {
  id = id;
  experiment_id = exp;
  run_type = type;
  run_index = pos 0;
  frozen_services = frozen;
  meta_trace_id = "";
  status = RunStatus.pending;
  node_placement = [];
  started_at = none;
  completed_at = none;
  created_at = 0;
  phase_rules = [];
  transition_cond = none;
  current_phase = 0;
  depends_on = deps;
  persist_cache = false;
  zeus_attack_id = "";
  workflow_ids = [];
  zeus_attack_ids = [];
}

abbrev pub base_run : ExperimentRun
base_run = run "base" "e1" RunType.baseline [] []

abbrev pub cart_run : ExperimentRun
cart_run = run "cart" "e1" RunType.isolation (frozen_cart ∷ []) ("base" ∷ [])

abbrev pub two_runs : List ExperimentRun
two_runs = cart_run ∷ base_run ∷ []

two_runs_accepted : validate_run_graph two_runs ≡ ok tt
unfolding validate_run_graph
two_runs_accepted = refl

cycle_rejected :
    validate_run_graph (
      run "a" "e1" RunType.baseline [] ("b" ∷ [])
      ∷ run "b" "e1" RunType.baseline [] ("a" ∷ [])
      ∷ [])
    ≡ err (cycle "a")
unfolding validate_run_graph
cycle_rejected = refl

unknown_rejected : validate_run_graph (cart_run ∷ []) ≡ err (unknown_run "cart" "base")
unfolding validate_run_graph
unknown_rejected = refl

other_experiment_rejected :
    validate_run_graph (cart_run ∷ run "base" "e2" RunType.baseline [] [] ∷ [])
    ≡ err (different_experiment "cart" "base")
unfolding validate_run_graph
other_experiment_rejected = refl

baseless_rejected :
    validate_run_graph (run "cart" "e1" RunType.isolation (frozen_cart ∷ []) [] ∷ [])
    ≡ err (no_baseline "cart")
unfolding validate_run_graph
baseless_rejected = refl

validate_run_graph_iff_example : (validate_run_graph two_runs ≡ ok tt) ↔ IsValidGraph two_runs
validate_run_graph_iff_example = validate_run_graph_iff two_runs

validate_run_graph_answers_example :
    (validate_run_graph two_runs ≡ ok tt)
    ⊎ ((e : GraphError) × (validate_run_graph two_runs ≡ err e))
validate_run_graph_answers_example = validate_run_graph_answers two_runs
