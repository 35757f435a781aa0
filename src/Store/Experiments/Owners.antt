-- ===== src/Store/Experiments/Owners.antt =====
-- internal/store/experiment_repo.go: every statement leaves each run with its experiment.
use manteion_go.Base.{ℕ, ◌≡◌, String, Bool, true, some, List, if◌then◌else◌, All}
use manteion_go.Model.Experiment.{Experiment, ExperimentRun, RunStatus, ExperimentStatus}
use manteion_go.Store.Runs.{
  Db, update_run_status, finalize_run_status, update_run_phase, update_run_zeus_attacks,
  append_run_attack_id, update_status, is_running_experiment, is_closed_experiment, or_now,
}
use manteion_go.Store.Tables.{has_key}
use manteion_go.Store.Experiments.{
  ExperimentTables, experiment_key, create, create_run, update_run_zeus_attack, delete,
}

abbrev pub HaveExperiments : Db → Type 0
HaveExperiments db = All (λ r. has_key experiment_key r.experiment_id db.experiments ≡ true) db.runs

-- The statements that change the tables of experiments and runs.
pub data Statement : Type 0 where
  experiment_create : Experiment → Statement
  experiment_delete : (attacked : Bool) → String → Statement
  run_create : ExperimentRun → Statement
  run_status run_final : String → RunStatus → ℕ → Statement
  run_phase : String → ℕ → RunStatus → Statement
  run_attack : String → String → Statement
  run_attacks : String → List String → Statement
  run_append : String → String → Statement
  experiment_status : String → ExperimentStatus → ℕ → Statement

-- The tables after the statement.
unfoldable pub execute : Statement → ExperimentTables → ExperimentTables
execute (Statement.experiment_create e) t = record t { db = (create e t.db).1 }
execute (Statement.experiment_delete attacked id) t = (delete attacked id t).1
execute (Statement.run_create r) t = record t { db = (create_run r t.db).1 }
execute (Statement.run_status id s now) t = record t { db = update_run_status id s now t.db }
execute (Statement.run_final id s now) t = record t { db = finalize_run_status id s now t.db }
execute (Statement.run_phase id phase s) t = record t { db = update_run_phase id phase s t.db }
execute (Statement.run_attack id attack) t = record t { db = update_run_zeus_attack id attack t.db }
execute (Statement.run_attacks id ids) t = record t { db = update_run_zeus_attacks id ids t.db }
execute (Statement.run_append id attack) t = record t { db = append_run_attack_id id attack t.db }
execute (Statement.experiment_status id s now) t = record t { db = update_status id s now t.db }

abbrev set_experiment : ExperimentStatus → ℕ → Experiment → Experiment
set_experiment s now e = record e {
  status = s;
  started_at = if is_running_experiment s then or_now now e.started_at else e.started_at;
  completed_at = if is_closed_experiment s then some now else e.completed_at;
}
