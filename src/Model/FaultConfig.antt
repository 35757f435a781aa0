-- ===== src/Model/FaultConfig.antt =====
-- internal/model/fault_config.go: long-running faults.
use manteion_go.Base.{
  ℕ, String, ◌==◌, Bool, true, false, not, ◌&&◌, Option, new, Check, reject, wrap, context, ◌>>◌,
}
use manteion_go.Base.Int.{ℤ, pos, ltz, lez}
use manteion_go.Model.Trace.{is_none}
use manteion_go.Model.Fault.{check_fault_type, is_null_json, beq_bool}

pub data FaultConfigStatus : Type 0 where
  ready active completed cancelled : FaultConfigStatus
  other : String → FaultConfigStatus

pub record FaultConfig : Type 0 where
  pub id : String
  pub name : String
  pub description : String
  pub service : String
  pub category : String
  pub fault_type : String
  pub fault_req : String
  pub fault_composition_id : Option String
  pub duration_ms : ℤ
  pub experiment_run_id : Option String
  pub status : FaultConfigStatus
  pub created_at : ℕ
  pub updated_at : ℕ
  pub fired_at : Option ℕ
  pub completed_at : Option ℕ

unfoldable pub validate_fault_config : FaultConfig → Check
validate_fault_config f = do
  reject (f.id == "") (new "fault config: id required")
  reject (f.name == "") (new "fault config: name required")
  reject (f.service == "") (new "fault config: service required")
  context (wrap "fault config: %w") (check_fault_type f.category f.fault_type)
  reject (f.category == "inline" && f.fault_type == "hang" && lez f.duration_ms (pos 0))
      (new "fault config: inline:hang requires duration_ms > 0")
  reject (beq_bool (not (is_null_json f.fault_req)) (not (is_none f.fault_composition_id)))
      (new "fault config: exactly one of fault_request or fault_composition_id required")
  reject (ltz f.duration_ms (pos 0)) (new "fault config: duration_ms must be >= 0")

abbrev pub is_active : FaultConfigStatus → Bool
is_active FaultConfigStatus.active = true
is_active _ = false

unfoldable pub can_fire : FaultConfig → Bool
can_fire f = not (is_active f.status)
