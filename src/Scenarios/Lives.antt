-- ===== src/Scenarios/Lives.antt =====
-- Runs that are started, paused, resumed, stopped and polled.
use manteion_go.Base.{◌≡◌, refl, inl, true, false, ◌||◌, none, some, List, [], ◌∷◌}
use manteion_go.Base.Int.{pos}
use manteion_go.Model.Experiment.{Experiment, ExperimentRun, ExperimentStatus, RunStatus}
use manteion_go.Store.Runs.{
  find_run, find_experiment, update_runs, update_run_status, finalize_run_status,
  update_run_zeus_attacks, append_run_attack_id, get_baseline_run,
}
use manteion_go.Orchestrator.World.{
  ◌>>=◌, continue, pure, fail, modify, require, settle, attempt, when, query, get_run,
  get_experiment, set_run_status, finalize, set_attacks, append_attack_id, call, go, new_ctx,
  fresh_id, register, cancel_handles, each_call, enter_phase, background, child, Handles, World,
  Env, attack_completed, ok, err, canceled,
}
use manteion_go.Orchestrator.Lifecycle.{
  preload_cache, record_attacks, spawn, start_one_attack, start_zeus_attacks, start_load,
  start_drivers, finish_run, release_run, start_run, pause_run, resume_run, stop_run,
}
use manteion_go.Orchestrator.Drivers.{poll_tick, check_attack_statuses}
use manteion_go.Orchestrator.Keeps.{status_of}
use manteion_go.Orchestrator.Follows.{Follows}
use manteion_go.Orchestrator.Machine.{
  Method, start_run_of, pause_run_of, resume_run_of, tick, perform_all, perform_all-Follows,
}
use manteion_go.Orchestrator.Stuck.{
  Abandons, deregistered, stop_run_own_context, poll_tick-Abandons,
}
use manteion_go.Scenarios.Graphs.{base_run}

-- Zeus runs every attack under the ID that it was given, and each has ended when it is asked.
abbrev pub ended_zeus : Env
ended_zeus = record {
  has_zeus = true;
  start_attack = λ id. some id;
  get_attack = λ id. some attack_completed;
  new_id = λ n. "attack";
  rules_load = λ ids. true;
}

abbrev pub shop : Experiment
shop = record {
  id = "e1";
  name = "shop";
  description = "";
  primary_workflow_id = "w1";
  status = ExperimentStatus.running;
  created_at = 0;
  started_at = none;
  completed_at = none;
  target_url = "http://shop";
  target_method = "GET";
  rate = pos 10;
  duration_sec = pos 60;
}

abbrev pub world : List ExperimentRun → World
world runs = record {
  db = record { runs = runs; experiments = shop ∷ [] };
  running = λ id. none;
  cancelled = λ c. false;
  next_ctx = 0;
  next_id = 0;
  now = 7;
  calls = [];
  tasks = [];
}

abbrev pending_world : World
pending_world = world (base_run ∷ [])

unfoldable started_world : World
started_world = (start_run ended_zeus background "base" pending_world).1

unfoldable paused_world : World
paused_world = (pause_run ended_zeus background "base" started_world).1

unfoldable resumed_world : World
resumed_world = (resume_run ended_zeus background "base" paused_world).1

unfoldable stopped_world : World
stopped_world = (stop_run ended_zeus background "base" RunStatus.completed resumed_world).1

start_ok : start_run ended_zeus background "base" pending_world ≡ (ok tt, started_world)
unfolding start_run started_world ◌>>=◌ continue pure fail modify require settle attempt when query
    get_run get_experiment set_run_status finalize set_attacks append_attack_id call go new_ctx
    fresh_id register cancel_handles each_call enter_phase preload_cache record_attacks spawn
    start_one_attack start_zeus_attacks start_load start_drivers finish_run release_run find_run
    find_experiment update_runs update_run_status finalize_run_status update_run_zeus_attacks
    append_run_attack_id get_baseline_run
start_ok = refl

pause_ok : pause_run ended_zeus background "base" started_world ≡ (ok tt, paused_world)
unfolding start_run started_world pause_run paused_world ◌>>=◌ continue pure fail modify require
    settle attempt when query get_run get_experiment set_run_status finalize set_attacks
    append_attack_id call go new_ctx fresh_id register cancel_handles each_call enter_phase
    preload_cache record_attacks spawn start_one_attack start_zeus_attacks start_load start_drivers
    finish_run release_run find_run find_experiment update_runs update_run_status
    finalize_run_status update_run_zeus_attacks append_run_attack_id get_baseline_run
pause_ok = refl

resume_ok : resume_run ended_zeus background "base" paused_world ≡ (ok tt, resumed_world)
unfolding start_run started_world pause_run paused_world resume_run resumed_world ◌>>=◌ continue
    pure fail modify require settle attempt when query get_run get_experiment set_run_status
    finalize set_attacks append_attack_id call go new_ctx fresh_id register cancel_handles each_call
    enter_phase preload_cache record_attacks spawn start_one_attack start_zeus_attacks start_load
    start_drivers finish_run release_run find_run find_experiment update_runs update_run_status
    finalize_run_status update_run_zeus_attacks append_run_attack_id get_baseline_run
resume_ok = refl

stop_ok :
    stop_run ended_zeus background "base" RunStatus.completed resumed_world ≡ (ok tt, stopped_world)
unfolding start_run started_world pause_run paused_world resume_run resumed_world stop_run
    stopped_world ◌>>=◌ continue pure fail modify require settle attempt when query get_run
    get_experiment set_run_status finalize set_attacks append_attack_id call go new_ctx fresh_id
    register cancel_handles each_call enter_phase preload_cache record_attacks spawn
    start_one_attack start_zeus_attacks start_load start_drivers finish_run release_run find_run
    find_experiment update_runs update_run_status finalize_run_status update_run_zeus_attacks
    append_run_attack_id get_baseline_run
stop_ok = refl

stopped_status : status_of "base" stopped_world ≡ some RunStatus.completed
unfolding start_run started_world pause_run paused_world resume_run resumed_world stop_run
    stopped_world ◌>>=◌ continue pure fail modify require settle attempt when query get_run
    get_experiment set_run_status finalize set_attacks append_attack_id call go new_ctx fresh_id
    register cancel_handles each_call enter_phase preload_cache record_attacks spawn
    start_one_attack start_zeus_attacks start_load start_drivers finish_run release_run find_run
    find_experiment update_runs update_run_status finalize_run_status update_run_zeus_attacks
    append_run_attack_id get_baseline_run
stopped_status = refl

-- Another start, and a tick of the poller, after the run was stopped.
abbrev life : List Method
life =
    start_run_of ended_zeus background "base"
    ∷ pause_run_of ended_zeus background "base"
    ∷ resume_run_of ended_zeus background "base"
    ∷ tick ended_zeus background base_run
    ∷ []

perform_all-Follows_example : Follows pending_world (perform_all life pending_world)
perform_all-Follows_example = perform_all-Follows life pending_world

-- The handles of the started run: its poller has the first context.
abbrev handles : Handles
handles = record { watcher = none; poller = some 0 }

started_handles : started_world.running "base" ≡ some handles
unfolding start_run started_world ◌>>=◌ continue pure fail modify require settle attempt when query
    get_run get_experiment set_run_status finalize set_attacks append_attack_id call go new_ctx
    fresh_id register cancel_handles each_call enter_phase preload_cache record_attacks spawn
    start_one_attack start_zeus_attacks start_load start_drivers finish_run release_run find_run
    find_experiment update_runs update_run_status finalize_run_status update_run_zeus_attacks
    append_run_attack_id get_baseline_run
started_handles = refl

stop_run_own_context_example :
    stop_run ended_zeus (child 0) "base" RunStatus.completed started_world
    ≡ (err canceled, deregistered "base" handles started_world)
stop_run_own_context_example =
    stop_run_own_context ended_zeus 0 "base" RunStatus.completed handles started_world
      started_handles (inl refl) refl

-- The run as the poller holds it.
abbrev polled_run : ExperimentRun
polled_run = record base_run { zeus_attack_ids = "attack" ∷ []; zeus_attack_id = "attack" }

all_ended :
    ((check_attack_statuses ended_zeus polled_run).0
      || (check_attack_statuses ended_zeus polled_run).1)
    ≡ true
unfolding check_attack_statuses
all_ended = refl

poll_tick-Abandons_example :
    (v : World) × (poll_tick ended_zeus (child 0) polled_run started_world ≡ (ok false, v))
    × Abandons "base" started_world v
poll_tick-Abandons_example =
    poll_tick-Abandons ended_zeus 0 polled_run handles started_world started_handles (inl refl)
      all_ended
