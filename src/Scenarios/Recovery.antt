-- ===== src/Scenarios/Recovery.antt =====
-- A restart with a run in flight, a phase that ends, and a harvest.
use manteion_go.Base.{
  ℕ, ◌≡◌, refl, String, true, false, Bool, none, some, List, [], ◌∷◌, All, eqb, if◌then◌else◌,
}
use manteion_go.Base.Int.{pos}
use manteion_go.Base.Float.{finite}
use manteion_go.Model.Experiment.{PhaseTransition, ExperimentRun, RunStatus, Operator}
use manteion_go.Store.Experiments.{ExperimentTables, list_runs_by_status}
use manteion_go.Orchestrator.World.{World, background, ok}
use manteion_go.Orchestrator.Recovery.{recover}
use manteion_go.Orchestrator.Recovery.Restores.{IsRestored, recover-IsRestored}
use manteion_go.Orchestrator.Watch.{Tick, watch_phase, Held, watch_phase-Held}
use manteion_go.Orchestrator.Harvest.{
  HttpAnswer, Arithmetic, AttackResultInfo, try_fetch, backoff, harvest_results,
}
use manteion_go.Orchestrator.Harvest.Retries.{Sound, try_fetch_lem}
use manteion_go.Orchestrator.Harvest.Rows.{Adds, harvest_results-Adds}
use manteion_go.PolicyEngine.{met}
use manteion_go.Scenarios.Graphs.{base_run}
use manteion_go.Scenarios.Lives.{ended_zeus, world}

abbrev running_run : ExperimentRun
running_run = record base_run { status = RunStatus.running; zeus_attack_id = "attack" }

abbrev restarted : World
restarted = world (running_run ∷ [])

-- Zeus still knows the attack at the second check.
abbrev second_check : String → ℕ → Bool
second_check id n = eqb n 1

recover-IsRestored_example :
    let runs = list_runs_by_status (RunStatus.running ∷ RunStatus.paused ∷ []) restarted.db in
    let x = recover second_check ended_zeus background restarted in
    (x.0 ≡ ok tt)
    × (x.1.calls ≡ [])
    × All (λ r. IsRestored second_check ended_zeus r restarted x.1) runs
recover-IsRestored_example =
    recover-IsRestored second_check ended_zeus background restarted refl (tt, tt)

-- The load is at least 5 for ten nanoseconds.
abbrev under_load : PhaseTransition
under_load = record {
  metric = "load";
  operator = Operator.gte;
  threshold = finite (pos 5);
  window = pos 10;
}

abbrev ticks : List Tick
ticks =
    record { value = some (finite (pos 7)); now = 100 }
    ∷ record { value = none; now = 105 }
    ∷ record { value = some (finite (pos 6)); now = 110 }
    ∷ record { value = some (finite (pos 8)); now = 120 }
    ∷ []

phase_ends : watch_phase under_load ticks none ≡ true
unfolding watch_phase met
phase_ends = refl

watch_phase-Held_example : Held under_load ticks
watch_phase-Held_example = watch_phase-Held under_load ticks phase_ends

abbrev summary : AttackResultInfo
summary = record {
  attack_id = "attack";
  service = "cart";
  total_requests = pos 600;
  duration_ms = pos 60000;
  rate_actual = finite (pos 10);
  success_rate = finite (pos 1);
  latency_p50_us = pos 900;
  latency_p90_us = pos 1500;
  latency_p95_us = pos 2000;
  latency_p99_us = pos 4000;
  throughput_rps = finite (pos 10);
}

-- The result is there at the third request.
abbrev third_request : ℕ → HttpAnswer
third_request n =
    if eqb n 2 then HttpAnswer.answered 200 (some summary) else HttpAnswer.answered 404 none

try_fetch_lem_example :
    Sound third_request (λ n. false) 0 backoff (try_fetch third_request (λ n. false) 0 backoff)
try_fetch_lem_example = try_fetch_lem third_request (λ n. false)

abbrev plain : Arithmetic
plain = record { complement = λ x. x; per_second = λ n ms. finite n; raw_json = λ info. "{}" }

abbrev empty_results : ExperimentTables
empty_results = record {
  db = restarted.db;
  workflow_results = [];
  service_results = [];
  contributions = [];
}

harvest_results-Adds_example : Adds "base" 1 empty_results (
    harvest_results plain
      (λ text. true)
      (λ id. third_request)
      (λ id n. false)
      (λ n. "u")
      running_run
      0
      empty_results)
harvest_results-Adds_example =
    harvest_results-Adds plain (λ text. true) (λ id. third_request) (λ id n. false) (λ n. "u")
      running_run 0 empty_results
