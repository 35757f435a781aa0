-- ===== src/Schema/AdmitsRuns.antt =====
-- internal/db/migrations.go: the constraints of experiments, runs, contributions, trace anchors and
-- long-running faults admit what the validation of internal/model accepts.
use manteion_go.Base.{
  ℕ, Check, ◌≡◌, refl, String, ◌==◌, Bool, true, false, not, ◌&&◌, ◌||◌, Option, none, some, [],
  ◌∷◌, has_text, chain_passed, reject, reject-eq-none, wrap, context, context-eq-none, is_nil,
  arith,
}
use manteion_go.Base.Int.{pos, lez, ltz}
use manteion_go.Model.Trace.{is_none, TraceAnchor, validate_trace_anchor}
use manteion_go.Model.Experiment.{
  Experiment, ExperimentRun, ExperimentStatus, RunType, RunStatus, valid_experiment_status,
  valid_run_type, valid_run_status, validate_experiment, validate_run, is_baseline, is_replayed,
  validate_frozen, validate_transition, validate_phases, validate_deps,
}
use manteion_go.Model.Fault.{is_null_json, beq_bool, check_fault_type}
use manteion_go.Model.FaultConfig.{FaultConfig, validate_fault_config}
use manteion_go.Model.Results.{ContributionResult, validate_contribution, valid_contribution_modes}
use manteion_go.FaultLife.{new_config}
use manteion_go.Store.Experiments.{run_status_text}
use manteion_go.Schema.{
  admits_experiment, experiment_status_text, admits_run, run_type_text, admits_contribution,
  admits_anchor, admits_fault_config, is_there,
}
use manteion_go.Schema.Admits.{category_known}

experiment_status_known :
    (s : ExperimentStatus)
    → valid_experiment_status s ≡ true
    → has_text
        (experiment_status_text s)
        ("planned" ∷ "running" ∷ "completed" ∷ "failed" ∷ "cancelled" ∷ [])
      ≡ true
experiment_status_known ExperimentStatus.planned h = refl
experiment_status_known ExperimentStatus.running h = refl
experiment_status_known ExperimentStatus.completed h = refl
experiment_status_known ExperimentStatus.failed h = refl
experiment_status_known ExperimentStatus.cancelled h = refl
experiment_status_known (ExperimentStatus.other s) h = cc

run_type_known :
    (t : RunType)
    → valid_run_type t ≡ true
    → has_text (run_type_text t) ("baseline" ∷ "isolation" ∷ "combination" ∷ []) ≡ true
run_type_known RunType.baseline h = refl
run_type_known RunType.isolation h = refl
run_type_known RunType.combination h = refl
run_type_known (RunType.other s) h = cc

run_status_known :
    (s : RunStatus)
    → valid_run_status s ≡ true
    → has_text (run_status_text s) ("pending" ∷ "running" ∷ "paused" ∷ "completed" ∷ "failed" ∷ [])
      ≡ true
run_status_known RunStatus.pending h = refl
run_status_known RunStatus.running h = refl
run_status_known RunStatus.paused h = refl
run_status_known RunStatus.completed h = refl
run_status_known RunStatus.failed h = refl
run_status_known (RunStatus.other s) h = cc

admits-experiment : (e : Experiment) → validate_experiment e ≡ none → admits_experiment e ≡ true
unfolding validate_experiment admits_experiment
admits-experiment e h =
    let (_, last) =
      chain_passed
        (reject (e.id == "") _
          ∷ reject (e.name == "") _
          ∷ reject (e.primary_workflow_id == "") _
          ∷ [])
        (reject (not (valid_experiment_status e.status)) _) h in
    experiment_status_known e.status (ground (arith, last))

admits-run : (r : ExperimentRun) → validate_run r ≡ none → admits_run r ≡ true
unfolding validate_run admits_run
admits-run r h =
    let ((_, (_, (type, (status, _)))), _) =
      chain_passed
        (reject (r.id == "") _
          ∷ reject (r.experiment_id == "") _
          ∷ reject (not (valid_run_type r.run_type)) _
          ∷ reject (not (valid_run_status r.status)) _
          ∷ reject (is_baseline r.run_type && not (is_nil r.frozen_services)) _
          ∷ reject (is_replayed r.run_type && is_nil r.frozen_services) _
          ∷ validate_frozen 0 r.frozen_services
          ∷ validate_transition r.transition_cond
          ∷ validate_phases 0 r.phase_rules
          ∷ [])
        (validate_deps r.id r.depends_on) h in
    rw
      (
        run_type_known r.run_type (ground (arith, type)),
        run_status_known r.status (ground (arith, status)),
      )
      refl

admits-contribution :
    (c : ContributionResult) → validate_contribution c ≡ none → admits_contribution c ≡ true
unfolding validate_contribution admits_contribution
admits-contribution c h =
    let ((_, (_, (_, (_, (mode, _))))), _) =
      chain_passed
        (reject (c.id == "") _
          ∷ reject (c.experiment_id == "") _
          ∷ reject (c.service == "") _
          ∷ reject (c.workflow == "") _
          ∷ reject (not (has_text c.cache_box_mode valid_contribution_modes)) _
          ∷ reject (c.baseline_run_id == "") _
          ∷ [])
        (reject (c.isolation_run_id == "") _) h in
    ground (arith, mode)

admits-anchor : (a : TraceAnchor) → validate_trace_anchor a ≡ none → admits_anchor a ≡ true
unfolding validate_trace_anchor admits_anchor
admits-anchor a h =
    let (_, last) =
      chain_passed
        (reject (a.id == "") _
          ∷ reject (a.experiment_run_id == "") _
          ∷ reject (a.meta_trace_id == "") _
          ∷ reject (a.service == "") _
          ∷ [])
        (reject (not (has_text a.backend ("jaeger" ∷ "prometheus" ∷ "tempo" ∷ []))) _) h in
    ground (arith, last)

request_known :
    (req : String) (comp : Option String)
    → beq_bool (not (is_null_json req)) (not (is_none comp)) ≡ false
    → (not (req == "") || is_there comp) ≡ true
request_known req none h = ground arith
request_known req (some c) h = ground arith

admits-config :
    (fresh : String) (now : ℕ) (f : FaultConfig)
    → validate_fault_config (new_config fresh now f) ≡ none
    → admits_fault_config (new_config fresh now f) ≡ true
unfolding validate_fault_config admits_fault_config
admits-config fresh now body h =
    let f = new_config fresh now body in
    let ((_, (_, (_, (category, (_, (request, _)))))), _) =
      chain_passed
        (reject (f.id == "") _
          ∷ reject (f.name == "") _
          ∷ reject (f.service == "") _
          ∷ context (wrap "fault config: %w") (check_fault_type f.category f.fault_type)
          ∷ reject (f.category == "inline" && f.fault_type == "hang" && lez f.duration_ms (pos 0)) _
          ∷ reject
              (beq_bool (not (is_null_json f.fault_req)) (not (is_none f.fault_composition_id))) _
          ∷ [])
        (reject (ltz f.duration_ms (pos 0)) _) h in
    rw
      (
        category_known f.category f.fault_type
            ((context-eq-none _ (check_fault_type f.category f.fault_type)).0 category),
        request_known f.fault_req f.fault_composition_id ((reject-eq-none _ _).0 request),
      )
      refl

-- What a table takes, of a value that its Validate accepts.
pub data Entry : Type 0 where
  experiment : Experiment → Entry
  run : ExperimentRun → Entry
  contribution : ContributionResult → Entry
  anchor : TraceAnchor → Entry
  config : (fresh : String) (now : ℕ) → FaultConfig → Entry

abbrev pub valid : Entry → Check
valid (experiment e) = validate_experiment e
valid (run r) = validate_run r
valid (contribution c) = validate_contribution c
valid (anchor a) = validate_trace_anchor a
valid (config fresh now f) = validate_fault_config (new_config fresh now f)

abbrev pub admitted : Entry → Bool
admitted (experiment e) = admits_experiment e
admitted (run r) = admits_run r
admitted (contribution c) = admits_contribution c
admitted (anchor a) = admits_anchor a
admitted (config fresh now f) = admits_fault_config (new_config fresh now f)

-- Experiments, runs, contributions, trace anchors, and long-running faults as their handler makes them
-- are admitted by the constraints of their tables if they are valid.
pub admitted-valid : (e : Entry) → valid e ≡ none → admitted e ≡ true
admitted-valid (experiment e) h = admits-experiment e h
admitted-valid (run r) h = admits-run r h
admitted-valid (contribution c) h = admits-contribution c h
admitted-valid (anchor a) h = admits-anchor a h
admitted-valid (config fresh now f) h = admits-config fresh now f h
