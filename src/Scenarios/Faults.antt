-- ===== src/Scenarios/Faults.antt =====
-- Long-running faults that are fired, and reaped when their time is over.
use manteion_go.Base.{ℕ, ◌+◌, ◌*◌, ◌≡◌, refl, ◌||◌, some, none, [], ◌∷◌, ltb}
use manteion_go.Base.Int.{pos, pos_part, neg_part}
use manteion_go.Model.Experiment.{eqz}
use manteion_go.Model.FaultConfig.{FaultConfig, FaultConfigStatus, can_fire}
use manteion_go.FaultLife.{
  Faults, find_config, update_configs, is_applied, list_expired, fire, reap, complete_all, done,
}
use manteion_go.FaultLife.Laws.{fire_applies, list_expired-reap}

abbrev pub slow_cart : FaultConfig
slow_cart = record {
  id = "f1";
  name = "slow cart";
  description = "";
  service = "cart";
  category = "inline";
  fault_type = "latency";
  fault_req = "{}";
  fault_composition_id = none;
  duration_ms = pos 5;
  experiment_run_id = none;
  status = FaultConfigStatus.ready;
  created_at = 0;
  updated_at = 0;
  fired_at = none;
  completed_at = none;
}

abbrev pub faults_before : Faults
faults_before = record { configs = slow_cart ∷ []; version = 1 }

unfoldable fired_faults : Faults
fired_faults = (fire "f1" 100 faults_before).1

fired_ok : fire "f1" 100 faults_before ≡ (done, fired_faults)
unfolding fired_faults fire find_config update_configs can_fire
fired_ok = refl

fire_applies_example :
    (f : FaultConfig) × (find_config "f1" fired_faults.configs ≡ some f)
    × ((t : ℕ)
        → is_applied t f ≡ (
            eqz f.duration_ms (pos 0)
            || ltb (t + 1000 * neg_part f.duration_ms) (100 + 1000 * pos_part f.duration_ms)))
fire_applies_example = fire_applies "f1" 100 faults_before fired_faults fired_ok

list_expired-reap_example : list_expired 5100 (reap 5100 fired_faults).configs ≡ []
list_expired-reap_example = list_expired-reap 5100 fired_faults

-- The fault was there to be reaped, and the version shows it.
reaped_version : (reap 5100 fired_faults).version ≡ 3
unfolding fired_faults fire find_config update_configs can_fire reap list_expired complete_all
reaped_version = refl
