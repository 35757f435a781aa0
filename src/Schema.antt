-- ===== src/Schema.antt =====
-- internal/db/migrations.go: the CHECK constraints of the tables after all migrations, and the loop that
-- applies the migrations. A constraint that is NULL is met. The types and the foreign keys of columns
-- are left out; keys are in Store.
pub mod Admits
pub mod AdmitsRules
pub mod AdmitsRuns
pub mod Migrations
use manteion_go.Base.{
  String, ◌==◌, Bool, true, false, not, ◌&&◌, ◌||◌, Option, none, some, List, [], ◌∷◌, has_text,
  if◌then◌else◌,
}
use manteion_go.Model.Trace.{is_none, TraceAnchor}
use manteion_go.Model.Experiment.{
  Experiment, ExperimentRun, ExperimentStatus, RunType, valid_experiment_status,
}
use manteion_go.Model.Fault.{execution_mode_text}
use manteion_go.Model.FaultConfig.{FaultConfig, FaultConfigStatus}
use manteion_go.Model.Results.{ContributionResult}
use manteion_go.Model.Rule.{ActionType}
use manteion_go.Store.Rules.{RuleRow}
use manteion_go.Store.Faults.{SpecRow, CompositionRow, MemberRow}
use manteion_go.Store.Experiments.{run_status_text}

-- `column IN (…)`, of a column that may be NULL.
abbrev pub in_or_null : List String → Option String → Bool
in_or_null texts none = true
in_or_null texts (some s) = has_text s texts

abbrev pub is_there {ℓ} : {A : Type ℓ} → Option A → Bool
is_there o = not (is_none o)

-- fault_specs
abbrev pub categories : List String
categories = "inline" ∷ "network" ∷ "resource" ∷ []

abbrev pub spec_category_check : SpecRow → Bool
spec_category_check r = has_text r.category categories

abbrev pub fault_specs_host_check : SpecRow → Bool
fault_specs_host_check r = in_or_null ("proxy" ∷ "inline" ∷ "process" ∷ []) r.host

abbrev pub fault_specs_envelope_check : SpecRow → Bool
fault_specs_envelope_check r =
    r.category == "network"
    || (is_none r.network_target && is_none r.network_direction && is_none r.network_scope)

abbrev pub directions : List String
directions = "upstream" ∷ "downstream" ∷ []

abbrev pub fault_specs_direction_check : SpecRow → Bool
fault_specs_direction_check r = in_or_null directions r.network_direction

unfoldable pub admits_spec : SpecRow → Bool
admits_spec r =
    spec_category_check r
    && fault_specs_host_check r
    && fault_specs_envelope_check r
    && fault_specs_direction_check r

-- fault_compositions, and fault_composition_members
unfoldable pub admits_composition : CompositionRow → Bool
admits_composition r =
    has_text (execution_mode_text r.execution_mode) ("parallel" ∷ "sequential" ∷ [])

abbrev pub one_of_both {ℓ} : {A : Type ℓ} → Option A → Option A → Bool
one_of_both a b = (is_there a && is_none b) || (is_none a && is_there b)

unfoldable pub admits_member : MemberRow → Bool
admits_member r =
    in_or_null directions r.direction && one_of_both r.fault_spec_id r.child_composition_id

-- rules: the CASE of rules_action_check is NULL for any other type.
abbrev pub rules_action_check : ActionType → RuleRow → Bool
rules_action_check ActionType.fault_spec r =
    is_there r.fault_spec_id && is_none r.fault_composition_id && is_none r.cachebox_mode
rules_action_check ActionType.fault_composition r =
    is_there r.fault_composition_id && is_none r.fault_spec_id && is_none r.cachebox_mode
rules_action_check ActionType.cachebox r =
    is_there r.cachebox_mode && is_none r.fault_spec_id && is_none r.fault_composition_id
rules_action_check (ActionType.other s) r = true

abbrev pub rules_mode_check : RuleRow → Bool
rules_mode_check r = has_text r.mode ("inline" ∷ "background" ∷ [])

abbrev pub rules_injection_point_check : RuleRow → Bool
rules_injection_point_check r =
    in_or_null ("ingress" ∷ "egress" ∷ "transient" ∷ "custom" ∷ []) r.injection_point

abbrev pub rules_start_policy_check : RuleRow → Bool
rules_start_policy_check r = has_text r.start_policy ("deduplicate_by_rule" ∷ "always_start" ∷ [])

-- The unnamed check of the initial schema, which migration 12 looks up by its text and drops.
abbrev pub initial_rules_check : RuleRow → Bool
initial_rules_check r = one_of_both r.fault_spec_id r.fault_composition_id

-- The CHECK constraints, but not the foreign keys; `dropped` tells whether migration 12 found the
-- initial check.
unfoldable pub admits_rule : (dropped : Bool) → RuleRow → Bool
admits_rule dropped r =
    rules_action_check r.action_type r
    && rules_mode_check r
    && rules_injection_point_check r
    && rules_start_policy_check r
    && (dropped || initial_rules_check r)

-- experiments, and experiment_runs
abbrev pub experiment_status_text : ExperimentStatus → String
experiment_status_text ExperimentStatus.planned = "planned"
experiment_status_text ExperimentStatus.running = "running"
experiment_status_text ExperimentStatus.completed = "completed"
experiment_status_text ExperimentStatus.failed = "failed"
experiment_status_text ExperimentStatus.cancelled = "cancelled"
experiment_status_text (ExperimentStatus.other s) = s

unfoldable pub admits_experiment : Experiment → Bool
admits_experiment e =
    has_text (experiment_status_text e.status)
      ("planned" ∷ "running" ∷ "completed" ∷ "failed" ∷ "cancelled" ∷ [])

abbrev pub run_type_text : RunType → String
run_type_text RunType.baseline = "baseline"
run_type_text RunType.isolation = "isolation"
run_type_text RunType.combination = "combination"
run_type_text (RunType.other s) = s

abbrev pub run_type_check : ExperimentRun → Bool
run_type_check r =
    has_text (run_type_text r.run_type) ("baseline" ∷ "isolation" ∷ "combination" ∷ [])

abbrev pub experiment_runs_status_check : ExperimentRun → Bool
experiment_runs_status_check r =
    has_text (run_status_text r.status)
      ("pending" ∷ "running" ∷ "paused" ∷ "completed" ∷ "failed" ∷ [])

unfoldable pub admits_run : ExperimentRun → Bool
admits_run r = run_type_check r && experiment_runs_status_check r

-- contribution_results
unfoldable pub admits_contribution : ContributionResult → Bool
admits_contribution c = has_text c.cache_box_mode ("replay" ∷ "replay_with_delay" ∷ [])

-- trace_anchors
unfoldable pub admits_anchor : TraceAnchor → Bool
admits_anchor a = has_text a.backend ("jaeger" ∷ "prometheus" ∷ "tempo" ∷ [])

-- fault_configs: a request without bytes is NULL.
abbrev pub fault_config_status_text : FaultConfigStatus → String
fault_config_status_text FaultConfigStatus.ready = "ready"
fault_config_status_text FaultConfigStatus.active = "active"
fault_config_status_text FaultConfigStatus.completed = "completed"
fault_config_status_text FaultConfigStatus.cancelled = "cancelled"
fault_config_status_text (FaultConfigStatus.other s) = s

abbrev pub fault_request_or_composition : FaultConfig → Bool
fault_request_or_composition f = not (f.fault_req == "") || is_there f.fault_composition_id

unfoldable pub admits_fault_config : FaultConfig → Bool
admits_fault_config f =
    has_text f.category categories
    && has_text (fault_config_status_text f.status)
        ("ready" ∷ "active" ∷ "completed" ∷ "cancelled" ∷ [])
    && fault_request_or_composition f
