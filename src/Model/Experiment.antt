-- ===== src/Model/Experiment.antt =====
-- internal/model/experiment.go: experiments and their runs. The check of the dependency graph
-- between runs is in RunGraph.
use manteion_go.Base.{
  ℕ, ◌+◌, String, ◌==◌, Bool, true, false, not, ◌&&◌, Option, none, some, List, [], ◌∷◌, new,
  wrap_at, Check, reject, context, ◌>>◌, is_nil,
}
use manteion_go.Base.Int.{ℤ, pos, lez}
use manteion_go.Base.Float.{Float64}
use manteion_go.Model.Trace.{CacheBoxConfig, validate_cache_box}

-- gt, gte, lt, lte, eq; `other` stands for every other text.
pub data Operator : Type 0 where
  gt gte lt lte eq : Operator
  other : String → Operator

pub record PhaseTransition : Type 0 where
  pub metric : String
  pub operator : Operator
  pub threshold : Float64
  pub window : ℤ

pub record PhaseRuleSet : Type 0 where
  pub phase : ℤ
  pub description : String
  pub rule_ids : List String

pub data ExperimentStatus : Type 0 where
  planned running completed failed cancelled : ExperimentStatus
  other : String → ExperimentStatus

pub record Experiment : Type 0 where
  pub id : String
  pub name : String
  pub description : String
  pub primary_workflow_id : String
  pub status : ExperimentStatus
  pub created_at : ℕ
  pub started_at : Option ℕ
  pub completed_at : Option ℕ
  pub target_url : String
  pub target_method : String
  pub rate : ℤ
  pub duration_sec : ℤ

abbrev pub valid_experiment_status : ExperimentStatus → Bool
valid_experiment_status (ExperimentStatus.other _) = false
valid_experiment_status _ = true

unfoldable pub validate_experiment : Experiment → Check
validate_experiment e = do
  reject (e.id == "") (new "experiment: id required")
  reject (e.name == "") (new "experiment: name required")
  reject (e.primary_workflow_id == "") (new "experiment: primary_workflow_id required")
  reject (not (valid_experiment_status e.status)) (new "experiment: invalid status %q")

pub data RunType : Type 0 where
  baseline isolation combination : RunType
  other : String → RunType

pub data RunStatus : Type 0 where
  pending running paused completed failed : RunStatus
  other : String → RunStatus

pub record ExperimentRun : Type 0 where
  pub id : String
  pub experiment_id : String
  pub run_type : RunType
  pub run_index : ℤ
  pub frozen_services : List CacheBoxConfig
  pub meta_trace_id : String
  pub status : RunStatus
  pub node_placement : List (String × String)
  pub started_at : Option ℕ
  pub completed_at : Option ℕ
  pub created_at : ℕ
  pub phase_rules : List PhaseRuleSet
  pub transition_cond : Option PhaseTransition
  pub current_phase : ℕ
  pub depends_on : List String
  pub persist_cache : Bool
  pub zeus_attack_id : String
  pub workflow_ids : List String
  pub zeus_attack_ids : List String

abbrev pub valid_run_type : RunType → Bool
valid_run_type (RunType.other _) = false
valid_run_type _ = true

abbrev pub valid_run_status : RunStatus → Bool
valid_run_status (RunStatus.other _) = false
valid_run_status _ = true

abbrev pub is_baseline : RunType → Bool
is_baseline RunType.baseline = true
is_baseline _ = false

abbrev pub is_replayed : RunType → Bool
is_replayed RunType.isolation = true
is_replayed RunType.combination = true
is_replayed _ = false

abbrev pub valid_operator : Operator → Bool
valid_operator (Operator.other _) = false
valid_operator _ = true

-- `for i, cfg := range r.FrozenServices`, from index `i`.
pub validate_frozen : ℕ → List CacheBoxConfig → Check
validate_frozen i [] = none
validate_frozen i (c ∷ cs) = do
  context (wrap_at "experiment run: frozen_services[%d]: %w" i) (validate_cache_box c)
  validate_frozen (i + 1) cs

-- `if r.TransitionCond != nil { … }`
pub validate_transition : Option PhaseTransition → Check
validate_transition none = none
validate_transition (some t) = do
  reject (t.metric == "") (new "experiment run: transition_condition.metric required")
  reject (not (valid_operator t.operator))
      (new "experiment run: transition_condition.operator %q invalid")
  reject (lez t.window (pos 0)) (new "experiment run: transition_condition.window_ns must be > 0")

abbrev pub eqz : ℤ → ℤ → Bool
eqz a b = lez a b && lez b a

-- `for i, ps := range r.PhaseRules`, from index `i`.
pub validate_phases : ℕ → List PhaseRuleSet → Check
validate_phases i [] = none
validate_phases i (p ∷ ps) = do
  reject (not (eqz p.phase (pos i)))
      (new "experiment run: phase_rules[%d].phase must be %d (sequential from 0)")
  validate_phases (i + 1) ps

-- `for _, dep := range r.DependsOn`
pub validate_deps : String → List String → Check
validate_deps id [] = none
validate_deps id (dep ∷ deps) = do
  reject (dep == id) (new "experiment run: depends_on must not include own id")
  reject (dep == "") (new "experiment run: depends_on must not contain empty id")
  validate_deps id deps

unfoldable pub validate_run : ExperimentRun → Check
unfolding validate_frozen validate_transition validate_phases validate_deps
validate_run r = do
  reject (r.id == "") (new "experiment run: id required")
  reject (r.experiment_id == "") (new "experiment run: experiment_id required")
  reject (not (valid_run_type r.run_type)) (new "experiment run: invalid run_type %q")
  reject (not (valid_run_status r.status)) (new "experiment run: invalid status %q")
  reject (is_baseline r.run_type && not (is_nil r.frozen_services))
      (new "experiment run: baseline run must not have frozen services")
  reject (is_replayed r.run_type && is_nil r.frozen_services)
      (new "experiment run: isolation/combination run requires frozen services")
  validate_frozen 0 r.frozen_services
  validate_transition r.transition_cond
  validate_phases 0 r.phase_rules
  validate_deps r.id r.depends_on
