-- ===== src/Model/Results.antt =====
-- internal/model/experiment.go: the results of a run and the contribution that is derived from them.
use manteion_go.Base.{
  String, ◌==◌, not, Option, List, [], ◌∷◌, new, errorf, Check, reject, ◌>>◌, has_text,
}
use manteion_go.Base.Int.{ℤ}
use manteion_go.Base.Float.{Float64}

pub record WorkflowRunResult : Type 0 where
  pub id : String
  pub experiment_run_id : String
  pub workflow : String
  pub latency_p50_us : ℤ
  pub latency_p95_us : ℤ
  pub latency_p99_us : ℤ
  pub latency_p999_us : ℤ
  pub request_count : ℤ
  pub error_rate : Float64
  pub throughput_rps : Float64
  pub raw_metrics : String

unfoldable pub validate_workflow_result : WorkflowRunResult → Check
validate_workflow_result r = do
  reject (r.id == "") (new "workflow run result: id required")
  reject (r.experiment_run_id == "") (new "workflow run result: experiment_run_id required")
  reject (r.workflow == "") (new "workflow run result: workflow required")

pub record ServiceRunResult : Type 0 where
  pub id : String
  pub experiment_run_id : String
  pub service : String
  pub workflow : String
  pub latency_p50_us : Option ℤ
  pub latency_p95_us : Option ℤ
  pub latency_p99_us : Option ℤ
  pub cpu_millicores : Option ℤ
  pub memory_mb : Option ℤ
  pub cache_hit_rate : Option Float64
  pub cache_exact_match : Option Float64
  pub cache_staleness : Option Float64
  pub raw_metrics : String

unfoldable pub validate_service_result : ServiceRunResult → Check
validate_service_result r = do
  reject (r.id == "") (new "service run result: id required")
  reject (r.experiment_run_id == "") (new "service run result: experiment_run_id required")
  reject (r.service == "") (new "service run result: service required")

pub record ContributionResult : Type 0 where
  pub id : String
  pub experiment_id : String
  pub service : String
  pub workflow : String
  pub cache_box_mode : String
  pub baseline_run_id : String
  pub isolation_run_id : String
  pub delta_p50_us : ℤ
  pub delta_p95_us : ℤ
  pub delta_p99_us : ℤ
  pub interaction_effect : Option Float64
  pub combination_run_id : String

abbrev pub valid_contribution_modes : List String
valid_contribution_modes = "replay" ∷ "replay_with_delay" ∷ []

unfoldable pub validate_contribution : ContributionResult → Check
validate_contribution c = do
  reject (c.id == "") (new "contribution result: id required")
  reject (c.experiment_id == "") (new "contribution result: experiment_id required")
  reject (c.service == "") (new "contribution result: service required")
  reject (c.workflow == "") (new "contribution result: workflow required")
  reject (not (has_text c.cache_box_mode valid_contribution_modes))
      (errorf "contribution result: invalid cachebox_mode %q" (c.cache_box_mode ∷ []))
  reject (c.baseline_run_id == "") (new "contribution result: baseline_run_id required")
  reject (c.isolation_run_id == "") (new "contribution result: isolation_run_id required")
