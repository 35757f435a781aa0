-- ===== src/Model/Attack.antt =====
-- internal/model/workload.go: attacks, their results, and references to workflows.
use manteion_go.Base.{ℕ, String, ◌==◌, Option, List, new, Check, reject, ◌>>◌}
use manteion_go.Base.Int.{ℤ, pos, lez}
use manteion_go.Base.Float.{Float64}

pub record Attack : Type 0 where
  pub id : String
  pub experiment_run_id : String
  pub policy_rule_id : String
  pub service : String
  pub target_url : String
  pub target_method : String
  pub target_headers : List (String × String)
  pub rate : ℤ
  pub duration_ms : ℤ
  pub dedup_bypass : String
  pub meta_trace_id : String
  pub zeus_attack_id : String
  pub latency_p50_us : ℤ
  pub latency_p90_us : ℤ
  pub latency_p95_us : ℤ
  pub latency_p99_us : ℤ
  pub total_requests : ℕ
  pub success_rate : Float64
  pub status_codes : List (String × ℤ)
  pub errors : List String
  pub created_at : ℕ
  pub completed_at : Option ℕ

unfoldable pub validate_attack : Attack → Check
validate_attack a = do
  reject (a.id == "") (new "attack: id required")
  reject (a.service == "") (new "attack: service required")
  reject (a.target_url == "") (new "attack: target_url required")
  reject (a.target_method == "") (new "attack: target_method required")
  reject (lez a.rate (pos 0)) (new "attack: rate must be > 0")
  reject (lez a.duration_ms (pos 0)) (new "attack: duration_ms must be > 0")

pub record AttackResult : Type 0 where
  pub attack_id : String
  pub service : String
  pub total_requests : ℕ
  pub duration_ms : ℤ
  pub rate_actual : Float64
  pub success_rate : Float64
  pub status_codes : List (String × ℤ)
  pub latency_p50_us : ℤ
  pub latency_p90_us : ℤ
  pub latency_p95_us : ℤ
  pub latency_p99_us : ℤ
  pub latency_min_us : ℤ
  pub latency_max_us : ℤ
  pub bytes_in_total : ℤ
  pub bytes_out_total : ℤ
  pub errors : List String
  pub completed_at : ℕ

unfoldable pub validate_attack_result : AttackResult → Check
validate_attack_result r = do
  reject (r.attack_id == "") (new "attack result: attack_id required")
  reject (r.service == "") (new "attack result: service required")

pub record WorkflowRef : Type 0 where
  pub workflow_id : String
  pub rate : ℤ
  pub vus : ℤ

unfoldable pub validate_workflow_ref : WorkflowRef → Check
validate_workflow_ref w = reject (w.workflow_id == "") (new "workflow_ref: workflow_id required")
