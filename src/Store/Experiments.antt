-- ===== src/Store/Experiments.antt =====
-- internal/store/experiment_repo.go: the creation, the deletion and the lists of experiments, runs and
-- results, over the rows of Store.Runs. A row stands here as it is read back: the JSON of a run's
-- columns is read as it was written, and 0 for NULL. The foreign keys are those of
-- internal/db/migrations.go; whether an attack refers to a run, whether the database takes a text as
-- JSON, and the order of texts are parameters; other database errors are not modelled.
pub mod Laws
pub mod Owners
use manteion_go.Base.{
  String, ◌==◌, Bool, true, false, not, ◌&&◌, ◌||◌, Option, none, some, List, [], ◌∷◌, Check, new,
  leb, if◌then◌else◌,
}
use manteion_go.Base.Int.{lez}
use manteion_go.Base.Result.{Result, ok, err}
use manteion_go.Model.Experiment.{
  Experiment, ExperimentRun, RunStatus, validate_experiment, validate_run,
}
use manteion_go.Model.Results.{
  WorkflowRunResult, ServiceRunResult, ContributionResult, validate_workflow_result,
  validate_service_result, validate_contribution,
}
use manteion_go.Store.Rules.{null_string, from_null_string, not_found}
use manteion_go.Store.Runs.{Db, update_runs, is_pending}
use manteion_go.Store.Tables.{
  find_key, has_key, delete_key, affected_or_not_found, select, order_by, null_int, from_null_int,
}

pub record ExperimentTables : Type 0 where
  pub db : Db
  pub workflow_results : List WorkflowRunResult
  pub service_results : List ServiceRunResult
  pub contributions : List ContributionResult

abbrev pub experiment_key : Experiment → String
experiment_key e = e.id

abbrev pub run_key : ExperimentRun → String
run_key r = r.id

-- The row of Create, as Get reads it.
abbrev pub as_read : Experiment → Experiment
as_read e = record e {
  description = from_null_string (null_string e.description);
  target_url = from_null_string (null_string e.target_url);
  target_method = from_null_string (null_string e.target_method);
  rate = from_null_int (null_int e.rate);
  duration_sec = from_null_int (null_int e.duration_sec);
}

unfoldable pub create : Experiment → Db → Check × Db
unfolding find_key
create e db = elim (validate_experiment e) [
  | some cause ↦ (some cause, db)
  | none ↦
      if has_key experiment_key e.id db.experiments
      then (some (new "insert experiment: %w"), db)
      else (none, record db { experiments = as_read e ∷ db.experiments })
]

unfoldable pub get : String → Db → Result Experiment
unfolding find_key
get id db = elim (find_key experiment_key id db.experiments) [
  | none ↦ err not_found
  | some e ↦ ok e
]

-- `ORDER BY created_at DESC`
abbrev pub newer_experiment : Experiment → Experiment → Bool
newer_experiment a b = leb b.created_at a.created_at

unfoldable pub list : Db → List Experiment
unfolding order_by
list db = order_by newer_experiment db.experiments

-- CreateRun, which leaves out the column zeus_attack_id.
unfoldable pub create_run : ExperimentRun → Db → Check × Db
unfolding find_key
create_run r db = elim (validate_run r) [
  | some cause ↦ (some cause, db)
  | none ↦
      if has_key run_key r.id db.runs || not (has_key experiment_key r.experiment_id db.experiments)
      then (some (new "insert experiment_run: %w"), db)
      else (none, record db { runs = record r { zeus_attack_id = "" } ∷ db.runs })
]

unfoldable pub get_run : String → Db → Result ExperimentRun
unfolding find_key
get_run id db = elim (find_key run_key id db.runs) [ none ↦ err not_found | some r ↦ ok r ]

unfoldable pub update_run_zeus_attack : String → String → Db → Db
update_run_zeus_attack id attack db = record db {
  runs = update_runs id (λ r. record r { zeus_attack_id = attack }) db.runs;
}

-- `string(run.Status)`
abbrev pub run_status_text : RunStatus → String
run_status_text RunStatus.pending = "pending"
run_status_text RunStatus.running = "running"
run_status_text RunStatus.paused = "paused"
run_status_text RunStatus.completed = "completed"
run_status_text RunStatus.failed = "failed"
run_status_text (RunStatus.other s) = s

-- `WHERE status IN (…)`
abbrev pub in_statuses : List RunStatus → ExperimentRun → Bool
in_statuses [] r = false
in_statuses (s ∷ ss) r = run_status_text r.status == run_status_text s || in_statuses ss r

abbrev pub run_older : ExperimentRun → ExperimentRun → Bool
run_older a b = leb a.created_at b.created_at

unfoldable pub list_runs_by_status : List RunStatus → Db → List ExperimentRun
unfolding select order_by
list_runs_by_status [] db = []
list_runs_by_status (s ∷ ss) db = order_by run_older (select (in_statuses (s ∷ ss)) db.runs)

abbrev pub by_index : ExperimentRun → ExperimentRun → Bool
by_index a b = lez a.run_index b.run_index

abbrev pub is_pending_of : String → ExperimentRun → Bool
is_pending_of id r = r.experiment_id == id && is_pending r.status

unfoldable pub list_pending_runs : String → Db → List ExperimentRun
unfolding select order_by
list_pending_runs id db = order_by by_index (select (is_pending_of id) db.runs)

abbrev pub workflow_result_key : WorkflowRunResult → String
workflow_result_key r = r.id

abbrev pub service_result_key : ServiceRunResult → String
service_result_key r = r.id

abbrev pub contribution_key : ContributionResult → String
contribution_key r = r.id

module _ (is_json : String → Bool) where
  unfoldable pub create_workflow_result :
      WorkflowRunResult → ExperimentTables → Check × ExperimentTables
  unfolding find_key
  create_workflow_result r t = elim (validate_workflow_result r) [
    | some cause ↦ (some cause, t)
    | none ↦
        if has_key workflow_result_key r.id t.workflow_results
          || not (has_key run_key r.experiment_run_id t.db.runs)
          || not (is_json r.raw_metrics)
        then (some (new "insert workflow_run_result: %w"), t)
        else (none, record t { workflow_results = r ∷ t.workflow_results })
  ]

  unfoldable pub create_service_result :
      ServiceRunResult → ExperimentTables → Check × ExperimentTables
  unfolding find_key
  create_service_result r t = elim (validate_service_result r) [
    | some cause ↦ (some cause, t)
    | none ↦
        if has_key service_result_key r.id t.service_results
          || not (has_key run_key r.experiment_run_id t.db.runs)
          || not (is_json r.raw_metrics)
        then (some (new "insert service_run_result: %w"), t)
        else (none, record t { service_results = r ∷ t.service_results })
  ]

-- The runs that a contribution names are there; the last of them may be NULL.
abbrev pub contribution_fits : ContributionResult → Db → Bool
contribution_fits c db =
    has_key experiment_key c.experiment_id db.experiments
    && has_key run_key c.baseline_run_id db.runs
    && has_key run_key c.isolation_run_id db.runs
    && (c.combination_run_id == "" || has_key run_key c.combination_run_id db.runs)

unfoldable pub create_contribution :
    ContributionResult → ExperimentTables → Check × ExperimentTables
unfolding find_key
create_contribution c t = elim (validate_contribution c) [
  | some cause ↦ (some cause, t)
  | none ↦
      if has_key contribution_key c.id t.contributions || not (contribution_fits c t.db)
      then (some (new "insert contribution_result: %w"), t)
      else (none, record t { contributions = c ∷ t.contributions })
]

module _ (text_le : String → String → Bool) where
  abbrev pub by_workflow : WorkflowRunResult → WorkflowRunResult → Bool
  by_workflow a b = text_le a.workflow b.workflow

  abbrev pub result_of : String → WorkflowRunResult → Bool
  result_of run r = r.experiment_run_id == run

  unfoldable pub list_workflow_results : String → ExperimentTables → List WorkflowRunResult
  unfolding select order_by
  list_workflow_results run t = order_by by_workflow (select (result_of run) t.workflow_results)

  -- `ORDER BY service, workflow`
  abbrev pub by_service : ContributionResult → ContributionResult → Bool
  by_service a b =
      text_le a.service b.service
      && (not (text_le b.service a.service) || text_le a.workflow b.workflow)

  unfoldable pub list_contributions : String → ExperimentTables → List ContributionResult
  unfolding select order_by
  list_contributions id t =
      order_by by_service (select (λ c. c.experiment_id == id) t.contributions)

abbrev pub any_row {ℓ} : {Row : Type ℓ} → (Row → Bool) → List Row → Bool
any_row p [] = false
any_row p (r ∷ rs) = p r || any_row p rs

-- A run of the experiment has the ID.
abbrev pub is_run_of : String → List ExperimentRun → String → Bool
is_run_of id runs run = any_row (λ r. r.id == run && r.experiment_id == id) runs

-- The foreign keys of contribution_results, which do not cascade.
abbrev pub refers_to : String → List ExperimentRun → ContributionResult → Bool
refers_to id runs c =
    c.experiment_id == id
    || is_run_of id runs c.baseline_run_id
    || is_run_of id runs c.isolation_run_id
    || is_run_of id runs c.combination_run_id

-- Delete, with the rows that go with the experiment's (ON DELETE CASCADE); `attacked` tells whether
-- an attack refers to a run of the experiment.
unfoldable pub delete : Bool → String → ExperimentTables → Check × ExperimentTables
unfolding find_key delete_key select
delete attacked id t =
    if not (has_key experiment_key id t.db.experiments)
    then (some not_found, t)
    else if attacked || any_row (refers_to id t.db.runs) t.contributions
    then (some (new "delete experiment: %w"), t)
    else (
      none,
      record t {
        db = record {
          runs = select (λ r. not (r.experiment_id == id)) t.db.runs;
          experiments = delete_key experiment_key id t.db.experiments;
        };
        workflow_results =
            select (λ r. not (is_run_of id t.db.runs r.experiment_run_id)) t.workflow_results;
        service_results =
            select (λ r. not (is_run_of id t.db.runs r.experiment_run_id)) t.service_results;
      },
    )
