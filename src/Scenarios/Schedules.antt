-- ===== src/Scenarios/Schedules.antt =====
-- Experiments whose runs depend on each other.
use manteion_go.Base.{suc, ◌≡◌, refl, some, none, List, [], ◌∷◌, length}
use manteion_go.Model.Experiment.{ExperimentRun, ExperimentStatus, RunType, RunStatus}
use manteion_go.RunGraph.{validate_run_graph}
use manteion_go.Store.Runs.{
  find_run, find_experiment, update_runs, update_run_status, update_run_zeus_attacks,
  append_run_attack_id, get_baseline_run, list_runs_by_experiment, insert_by_index, update_status,
  update_experiments,
}
use manteion_go.Orchestrator.World.{
  ◌>>=◌, continue, pure, fail, modify, require, settle, attempt, when, query, get_run,
  get_experiment, set_run_status, finalize, set_attacks, append_attack_id, call, go, new_ctx,
  fresh_id, register, cancel_handles, each_call, enter_phase, background, World, ok,
}
use manteion_go.Orchestrator.Lifecycle.{
  start_run, preload_cache, record_attacks, spawn, start_one_attack, start_zeus_attacks, start_load,
  start_drivers,
}
use manteion_go.Orchestrator.Keeps.{status_of}
use manteion_go.Orchestrator.Schedule.{
  list_runs, set_experiment_status, cascade_deps, cascade_pass, cascade, start_ready,
  finalize_experiment, advance_runs, advance_experiment, graph_answer, start_experiment, Pass,
  statuses_of,
}
use manteion_go.Orchestrator.Schedule.Cascade.{IsCascaded, cascade-IsCascaded}
use manteion_go.Orchestrator.Schedule.Start.{CanStart, start_experiment_ok}
use manteion_go.Scenarios.Graphs.{run, two_runs}
use manteion_go.Scenarios.Lives.{ended_zeus, shop, world}

abbrev planned_world : World
planned_world = record (world two_runs) {
  db = record {
    runs = two_runs;
    experiments = record shop { status = ExperimentStatus.planned } ∷ [];
  };
}

unfoldable begun_world : World
begun_world = (start_experiment ended_zeus background "e1" planned_world).1

begin_ok : start_experiment ended_zeus background "e1" planned_world ≡ (ok tt, begun_world)
unfolding begun_world validate_run_graph ◌>>=◌ continue pure fail modify require settle attempt when
    query get_run get_experiment set_run_status finalize set_attacks append_attack_id call go
    new_ctx fresh_id register cancel_handles each_call enter_phase start_run preload_cache
    record_attacks spawn start_one_attack start_zeus_attacks start_load start_drivers find_run
    find_experiment update_runs update_run_status update_run_zeus_attacks append_run_attack_id
    get_baseline_run list_runs_by_experiment insert_by_index update_status update_experiments
    list_runs set_experiment_status cascade_deps cascade_pass cascade start_ready
    finalize_experiment advance_runs advance_experiment graph_answer start_experiment
begin_ok = refl

-- The baseline run starts, and the run that depends on it waits.
base_started : status_of "base" begun_world ≡ some RunStatus.running
unfolding begun_world validate_run_graph ◌>>=◌ continue pure fail modify require settle attempt when
    query get_run get_experiment set_run_status finalize set_attacks append_attack_id call go
    new_ctx fresh_id register cancel_handles each_call enter_phase start_run preload_cache
    record_attacks spawn start_one_attack start_zeus_attacks start_load start_drivers find_run
    find_experiment update_runs update_run_status update_run_zeus_attacks append_run_attack_id
    get_baseline_run list_runs_by_experiment insert_by_index update_status update_experiments
    list_runs set_experiment_status cascade_deps cascade_pass cascade start_ready
    finalize_experiment advance_runs advance_experiment graph_answer start_experiment
base_started = refl

cart_waits : status_of "cart" begun_world ≡ some RunStatus.pending
unfolding begun_world validate_run_graph ◌>>=◌ continue pure fail modify require settle attempt when
    query get_run get_experiment set_run_status finalize set_attacks append_attack_id call go
    new_ctx fresh_id register cancel_handles each_call enter_phase start_run preload_cache
    record_attacks spawn start_one_attack start_zeus_attacks start_load start_drivers find_run
    find_experiment update_runs update_run_status update_run_zeus_attacks append_run_attack_id
    get_baseline_run list_runs_by_experiment insert_by_index update_status update_experiments
    list_runs set_experiment_status cascade_deps cascade_pass cascade start_ready
    finalize_experiment advance_runs advance_experiment graph_answer start_experiment
cart_waits = refl

start_experiment_ok_example : CanStart "e1" planned_world
start_experiment_ok_example =
    start_experiment_ok ended_zeus background "e1" planned_world begun_world begin_ok

-- A failed run, and two that depend on it one after the other, the later one first.
abbrev failed_chain : List ExperimentRun
failed_chain =
    run "c" "e1" RunType.baseline [] ("b" ∷ [])
    ∷ run "b" "e1" RunType.baseline [] ("a" ∷ [])
    ∷ record (run "a" "e1" RunType.baseline [] []) { status = RunStatus.failed }
    ∷ []

cascade-IsCascaded_example :
    (p : Pass) × (u : World) × (cascade
        (suc (length failed_chain))
        background
        failed_chain
        (statuses_of failed_chain (λ id. none))
        (world failed_chain)
      ≡ (ok (some p), u))
    × IsCascaded background failed_chain p u
cascade-IsCascaded_example =
    cascade-IsCascaded background failed_chain (world failed_chain)
      ((refl, (refl, tt)), ((refl, tt), (tt, tt)))

unfoldable settled_world : World
settled_world =
    (cascade (suc (length failed_chain)) background failed_chain
      (statuses_of failed_chain (λ id. none)) (world failed_chain)).1

chain_failed : status_of "c" settled_world ≡ some RunStatus.failed
unfolding settled_world ◌>>=◌ continue pure fail modify require settle attempt when query get_run
    get_experiment set_run_status finalize set_attacks append_attack_id call go new_ctx fresh_id
    register cancel_handles each_call enter_phase start_run preload_cache record_attacks spawn
    start_one_attack start_zeus_attacks start_load start_drivers find_run find_experiment
    update_runs update_run_status update_run_zeus_attacks append_run_attack_id get_baseline_run
    list_runs_by_experiment insert_by_index update_status update_experiments list_runs
    set_experiment_status cascade_deps cascade_pass cascade start_ready finalize_experiment
    advance_runs advance_experiment graph_answer start_experiment
chain_failed = refl
