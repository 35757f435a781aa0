-- ===== src/Orchestrator/Harvest.antt =====
-- internal/orchestrator/harvest.go, with GetAttackResult of internal/zeus/client.go: the results of a
-- run's attacks, from Zeus into the result store. What Zeus answers to the n-th request, whether the
-- context ends the n-th wait, the float64 arithmetic and the JSON of a result are parameters. What is
-- only logged is left out.
pub mod Retries
pub mod Rows
use manteion_go.Base.{
  ℕ, suc, ◌+◌, String, ◌==◌, Bool, true, false, not, ◌&&◌, Option, none, some, List, [], ◌∷◌, Check,
  Error, new, wrap, eqb, if◌then◌else◌,
}
use manteion_go.Base.Text.{concat}
use manteion_go.Base.Int.{ℤ, pos, ltz}
use manteion_go.Base.Float.{Float64, eq_float, zero_float}
use manteion_go.Model.Experiment.{ExperimentRun}
use manteion_go.Model.Results.{WorkflowRunResult}
use manteion_go.Store.Experiments.{ExperimentTables, create_workflow_result}
use manteion_go.Orchestrator.World.{attack_ids}

-- AttackResultInfo
pub record AttackResultInfo : Type 0 where
  pub attack_id : String
  pub service : String
  pub total_requests : ℤ
  pub duration_ms : ℤ
  pub rate_actual : Float64
  pub success_rate : Float64
  pub latency_p50_us : ℤ
  pub latency_p90_us : ℤ
  pub latency_p95_us : ℤ
  pub latency_p99_us : ℤ
  pub throughput_rps : Float64

-- What GetAttackResult answers.
pub data Fetch : Type 0 where
  ready : AttackResultInfo → Fetch
  not_ready : Fetch
  failed : Error → Fetch

-- An HTTP answer: no answer, or its status with what its body decodes to.
pub data HttpAnswer : Type 0 where
  unreachable : Error → HttpAnswer
  answered : (status : ℕ) → Option AttackResultInfo → HttpAnswer

abbrev pub decoded : Option AttackResultInfo → Fetch
decoded none = failed (new "zeus: decode attack result: %w")
decoded (some info) = ready info

unfoldable pub get_attack_result : HttpAnswer → Fetch
get_attack_result (unreachable cause) = failed cause
get_attack_result (answered status body) =
    if eqb status 404
    then not_ready
    else if not (eqb status 200)
    then failed (new "zeus: get attack result %q: status %d: %s")
    else decoded body

-- The end of harvestOne's loop.
pub data Outcome : Type 0 where
  found : AttackResultInfo → Outcome
  gave_up : Outcome
  refused : Error → Outcome
  ended : Outcome

-- The outcome, the number of requests, and the seconds that were waited.
pub record Tries : Type 0 where
  pub outcome : Outcome
  pub requests : ℕ
  pub waited : ℕ

-- `backoff`, in seconds.
abbrev pub backoff : List ℕ
backoff = 1 ∷ 2 ∷ 4 ∷ []

abbrev pub after_wait : ℕ → Tries → Tries
after_wait seconds t = record t { requests = suc t.requests; waited = seconds + t.waited }

abbrev pub stop : Outcome → Tries
stop outcome = record { outcome = outcome; requests = 1; waited = 0 }

module _ (fetch : ℕ → HttpAnswer) (done : ℕ → Bool) where
  -- The loop from an attempt on, with the waits that are left.
  unfoldable pub try_fetch : ℕ → List ℕ → Tries
  unfolding get_attack_result
  try_fetch attempt [] = elim (get_attack_result (fetch attempt)) [
    | ready info ↦ stop (found info)
    | not_ready ↦ stop gave_up
    | failed cause ↦ stop (refused (wrap "get attack result: %w" cause))
  ]
  try_fetch attempt (b ∷ bs) =
      let rest = try_fetch (suc attempt) bs in
      elim (get_attack_result (fetch attempt)) [
        | ready info ↦ stop (found info)
        | not_ready ↦ if done attempt then stop ended else after_wait b rest
        | failed cause ↦ stop (refused (wrap "get attack result: %w" cause))
      ]

-- `1.0 - x`, `float64(n) / (float64(ms) / 1000)`, and json.Marshal of a result.
pub record Arithmetic : Type 0 where
  pub complement : Float64 → Float64
  pub per_second : ℤ → ℤ → Float64
  pub raw_json : AttackResultInfo → String

module _ (arithmetic : Arithmetic) where
  -- The throughput, derived where it is not provided.
  abbrev pub throughput : AttackResultInfo → Float64
  throughput info =
      if eq_float info.throughput_rps zero_float && ltz (pos 0) info.duration_ms
      then arithmetic.per_second info.total_requests info.duration_ms
      else info.throughput_rps

  unfoldable pub result_row : String → String → AttackResultInfo → WorkflowRunResult
  result_row id run info = record {
    id = id;
    experiment_run_id = run;
    workflow = info.service;
    latency_p50_us = info.latency_p50_us;
    latency_p95_us = info.latency_p95_us;
    latency_p99_us = info.latency_p99_us;
    latency_p999_us = info.latency_p99_us;
    request_count = info.total_requests;
    error_rate = arithmetic.complement info.success_rate;
    throughput_rps = throughput info;
    raw_metrics = arithmetic.raw_json info;
  }

  module _ (is_json : String → Bool) where
    -- The end of harvestOne, from the loop's outcome, with a new ID at hand.
    unfoldable pub store_outcome :
        String → String → Outcome → ExperimentTables → Check × ExperimentTables
    unfolding create_workflow_result result_row
    store_outcome id run (found info) t =
        let (answer, t') = create_workflow_result is_json (result_row id run info) t in
        (
          elim answer [ none ↦ none | some cause ↦ some (wrap "store workflow result: %w" cause) ],
          t',
        )
    store_outcome id run gave_up t = (none, t)
    store_outcome id run (refused cause) t = (some cause, t)
    store_outcome id run ended t = (some (new "context canceled"), t)

    module _ (zeus : String → ℕ → HttpAnswer) (done : String → ℕ → Bool) (uuid : ℕ → String) where
      -- generateRunID, of the n-th new UUID.
      abbrev pub generate_run_id : ℕ → String
      generate_run_id n = concat "res-" (uuid n)

      unfoldable pub harvest_one : String → String → ℕ → ExperimentTables → Check × ExperimentTables
      unfolding try_fetch store_outcome
      harvest_one run attack n t =
          store_outcome (generate_run_id n) run
            (try_fetch (zeus attack) (done attack) 0 backoff).outcome t

      -- `for _, attackID := range attackIDs`; an error is logged, and the next attack follows.
      unfoldable pub harvest_all : String → List String → ℕ → ExperimentTables → ExperimentTables
      unfolding harvest_one
      harvest_all run [] n t = t
      harvest_all run (attack ∷ attacks) n t =
          harvest_all run attacks (suc n) (harvest_one run attack n t).1

      unfoldable pub harvest_results : ExperimentRun → ℕ → ExperimentTables → ExperimentTables
      unfolding harvest_all
      harvest_results run n t = harvest_all run.id (attack_ids run) n t
