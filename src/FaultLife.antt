-- ===== src/FaultLife.antt =====
-- The life of a long-running fault: internal/store/fault_config_repo.go, the create, delete, fire and
-- cancel handlers of internal/api/fault_config_handler.go, and internal/api/fault_config_reaper.go.
-- Times count microseconds; the database answers every query.
pub mod Laws
use manteion_go.Base.{
  ℕ, suc, ◌+◌, ◌*◌, String, ◌==◌, Bool, true, false, not, ◌&&◌, ◌||◌, Option, none, some, List, [],
  ◌∷◌, ltb, leb, is_nil, if◌then◌else◌,
}
use manteion_go.Base.Int.{ℤ, pos, ltz, pos_part, neg_part}
use manteion_go.Model.Trace.{is_none}
use manteion_go.Model.Experiment.{eqz}
use manteion_go.Model.FaultConfig.{
  FaultConfig, FaultConfigStatus, is_active, can_fire, validate_fault_config,
}

-- The table, and the version of the desired state.
pub record Faults : Type 0 where
  pub configs : List FaultConfig
  pub version : ℕ

unfoldable pub find_config : String → List FaultConfig → Option FaultConfig
find_config id [] = none
find_config id (f ∷ fs) = let rest = find_config id fs in if f.id == id then some f else rest

unfoldable pub update_configs :
    String → (FaultConfig → FaultConfig) → List FaultConfig → List FaultConfig
update_configs id g [] = []
update_configs id g (f ∷ fs) = (if f.id == id then g f else f) ∷ update_configs id g fs

-- `fired_at + (duration_ms * INTERVAL '1 millisecond') > now()`; NULL is not true.
abbrev pub ends_after : ℕ → FaultConfig → Bool
ends_after now f = elim f.fired_at [
  | none ↦ false
  | some t ↦ ltb (now + 1000 * neg_part f.duration_ms) (t + 1000 * pos_part f.duration_ms)
]

abbrev pub ended_by : ℕ → FaultConfig → Bool
ended_by now f = elim f.fired_at [
  | none ↦ false
  | some t ↦ leb (t + 1000 * pos_part f.duration_ms) (now + 1000 * neg_part f.duration_ms)
]

-- The conditions of ListActiveForService, but for the service, and of ListExpired.
abbrev pub is_applied : ℕ → FaultConfig → Bool
is_applied now f = is_active f.status && (eqz f.duration_ms (pos 0) || ends_after now f)

abbrev pub is_expired : ℕ → FaultConfig → Bool
is_expired now f = is_active f.status && ltz (pos 0) f.duration_ms && ended_by now f

-- `ORDER BY created_at`; rows of one time keep the table's order.
unfoldable pub insert_by_creation : FaultConfig → List FaultConfig → List FaultConfig
insert_by_creation f [] = f ∷ []
insert_by_creation f (x ∷ xs) =
    let rest = insert_by_creation f xs in
    if leb f.created_at x.created_at then f ∷ x ∷ xs else x ∷ rest

unfoldable pub list_active_for_service : String → ℕ → List FaultConfig → List FaultConfig
unfolding insert_by_creation
list_active_for_service service now [] = []
list_active_for_service service now (f ∷ fs) =
    let rest = list_active_for_service service now fs in
    if f.service == service && is_applied now f then insert_by_creation f rest else rest

unfoldable pub list_expired : ℕ → List FaultConfig → List FaultConfig
list_expired now [] = []
list_expired now (f ∷ fs) =
    let rest = list_expired now fs in if is_expired now f then f ∷ rest else rest

abbrev pub set_fired : ℕ → FaultConfig → FaultConfig
set_fired now f = record f {
  status = FaultConfigStatus.active;
  fired_at = some now;
  updated_at = now;
}

abbrev pub set_terminal : FaultConfigStatus → ℕ → FaultConfig → FaultConfig
set_terminal status now f = record f { status = status; completed_at = some now; updated_at = now }

-- affectedOrNotFound: whether the update touched a row.
abbrev pub has_config : String → List FaultConfig → Bool
has_config id fs = not (is_none (find_config id fs))

-- The status codes of the two handlers.
pub data Response : Type 0 where
  done not_found conflict bad_request server_error : Response

-- handleCreateFaultConfig, of a decoded body, with the ID and the time at hand.
abbrev pub new_config : String → ℕ → FaultConfig → FaultConfig
new_config fresh now cfg = record cfg {
  id = if cfg.id == "" then fresh else cfg.id;
  status = FaultConfigStatus.ready;
  created_at = now;
  updated_at = now;
  fired_at = none;
  completed_at = none;
}

unfoldable pub create_config : String → ℕ → FaultConfig → Faults → Response × Faults
create_config fresh now cfg s =
    let f = new_config fresh now cfg in
    if not (is_none (validate_fault_config f))
    then (bad_request, s)
    else if has_config f.id s.configs
    then (server_error, s)
    else (done, record s { configs = f ∷ s.configs })

unfoldable pub delete_configs : String → List FaultConfig → List FaultConfig
delete_configs id [] = []
delete_configs id (f ∷ fs) =
    let rest = delete_configs id fs in if f.id == id then rest else f ∷ rest

-- handleDeleteFaultConfig
unfoldable pub delete_config : String → Faults → Response × Faults
unfolding find_config delete_configs
delete_config id s =
    if has_config id s.configs
    then (done, record s { configs = delete_configs id s.configs })
    else (not_found, s)

-- handleFireFaultConfig: MarkFired and BumpVersion, neither of which fails here, are one step.
unfoldable pub fire : String → ℕ → Faults → Response × Faults
unfolding can_fire
fire id now s = elim (find_config id s.configs) [
  | none ↦ (not_found, s)
  | some f ↦
      if not (can_fire f)
      then (conflict, s)
      else if not (is_none f.fault_composition_id)
      then (bad_request, s)
      else (
        done,
        record { configs = update_configs id (set_fired now) s.configs; version = suc s.version },
      )
]

unfoldable pub cancel_config : String → ℕ → Faults → Response × Faults
cancel_config id now s = elim (find_config id s.configs) [
  | none ↦ (not_found, s)
  | some f ↦ if not (is_active f.status) then (conflict, s) else (
    done,
    record {
      configs = update_configs id (set_terminal FaultConfigStatus.cancelled now) s.configs;
      version = suc s.version;
    },
  )
]

-- The loop of reapExpiredFaultConfigs: the rows after it, and whether one was completed.
unfoldable pub complete_all : ℕ → List FaultConfig → List FaultConfig → List FaultConfig × Bool
unfolding find_config update_configs
complete_all now [] fs = (fs, false)
complete_all now (f ∷ expired) fs =
    let (fs', any) =
      complete_all now expired
        (update_configs f.id (set_terminal FaultConfigStatus.completed now) fs) in
    (fs', has_config f.id fs || any)

unfoldable pub reap : ℕ → Faults → Faults
unfolding complete_all list_expired
reap now s =
    let (fs, any) = complete_all now (list_expired now s.configs) s.configs in
    record { configs = fs; version = if any then suc s.version else s.version }
