-- ===== src/Store/Runs.antt =====
-- internal/store/experiment_repo.go: the tables of experiments and their runs, and the queries that
-- the orchestrator makes. A run's ID is the primary key; an update touches the rows of its ID.
-- A database error other than a missing row or a cancelled context is not modelled.
pub mod Laws
use manteion_go.Base.{
  ℕ, String, ◌==◌, Bool, true, false, not, ◌&&◌, ◌||◌, Option, none, some, List, [], ◌∷◌, ◌++◌, leb,
  if◌then◌else◌,
}
use manteion_go.Base.Int.{lez}
use manteion_go.Model.Experiment.{
  Experiment, ExperimentRun, ExperimentStatus, RunStatus, is_baseline,
}

pub record Db : Type 0 where
  pub runs : List ExperimentRun
  pub experiments : List Experiment

-- `WHERE id = $1`
unfoldable pub find_run : String → List ExperimentRun → Option ExperimentRun
find_run id [] = none
find_run id (r ∷ rs) = if r.id == id then some r else find_run id rs

unfoldable pub find_experiment : String → List Experiment → Option Experiment
find_experiment id [] = none
find_experiment id (e ∷ es) = if e.id == id then some e else find_experiment id es

-- `UPDATE experiment_runs SET … WHERE id = $1`
unfoldable pub update_runs :
    String → (ExperimentRun → ExperimentRun) → List ExperimentRun → List ExperimentRun
update_runs id f [] = []
update_runs id f (r ∷ rs) = (if r.id == id then f r else r) ∷ update_runs id f rs

abbrev pub is_completed : RunStatus → Bool
is_completed RunStatus.completed = true
is_completed _ = false

abbrev pub is_failed : RunStatus → Bool
is_failed RunStatus.failed = true
is_failed _ = false

abbrev pub is_running : RunStatus → Bool
is_running RunStatus.running = true
is_running _ = false

abbrev pub is_pending : RunStatus → Bool
is_pending RunStatus.pending = true
is_pending _ = false

abbrev pub is_paused : RunStatus → Bool
is_paused RunStatus.paused = true
is_paused _ = false

-- `status IN ('completed','failed')`
abbrev pub is_terminal : RunStatus → Bool
is_terminal s = is_completed s || is_failed s

-- `COALESCE(old, now())`
abbrev pub or_now : ℕ → Option ℕ → Option ℕ
or_now now none = some now
or_now now (some t) = some t

-- The assignments of UpdateRunStatus and of FinalizeRunStatus.
abbrev pub set_status : RunStatus → ℕ → ExperimentRun → ExperimentRun
set_status status now r = record r {
  status = status;
  started_at = if is_running status then or_now now r.started_at else r.started_at;
  completed_at = if is_terminal status then some now else r.completed_at;
}

abbrev pub set_final : RunStatus → ℕ → ExperimentRun → ExperimentRun
set_final status now r =
    if is_terminal r.status then r else record r { status = status; completed_at = some now }

-- The ID is that of a row; the answer of affectedOrNotFound.
abbrev pub has_run : String → List ExperimentRun → Bool
has_run id rs = elim (find_run id rs) [ none ↦ false | some _ ↦ true ]

unfoldable pub update_run_status : String → RunStatus → ℕ → Db → Db
update_run_status id status now db = record db {
  runs = update_runs id (set_status status now) db.runs;
}

-- A row of the ID is not terminal, so that the conditional update affects it.
abbrev pub can_finalize : String → List ExperimentRun → Bool
can_finalize id rs = elim (find_run id rs) [ none ↦ false | some r ↦ not (is_terminal r.status) ]

unfoldable pub finalize_run_status : String → RunStatus → ℕ → Db → Db
finalize_run_status id status now db = record db {
  runs = update_runs id (set_final status now) db.runs;
}

unfoldable pub update_run_phase : String → ℕ → RunStatus → Db → Db
update_run_phase id phase status db = record db {
  runs = update_runs id (λ r. record r { current_phase = phase; status = status }) db.runs;
}

-- The first ID, `NULL` for none, which reads back as the empty text.
abbrev pub primary_id : List String → String
primary_id [] = ""
primary_id (id ∷ ids) = id

unfoldable pub update_run_zeus_attacks : String → List String → Db → Db
update_run_zeus_attacks id ids db = record db {
  runs =
      update_runs id (λ r. record r { zeus_attack_id = primary_id ids; zeus_attack_ids = ids })
        db.runs;
}

abbrev pub append_attack : String → ExperimentRun → ExperimentRun
append_attack attack r = record r {
  zeus_attack_ids = r.zeus_attack_ids ++ attack ∷ [];
  zeus_attack_id = if r.zeus_attack_id == "" then attack else r.zeus_attack_id;
}

unfoldable pub append_run_attack_id : String → String → Db → Db
append_run_attack_id id attack db = record db {
  runs = update_runs id (append_attack attack) db.runs;
}

-- `ORDER BY run_index`; rows of one index keep the table's order.
unfoldable pub insert_by_index : ExperimentRun → List ExperimentRun → List ExperimentRun
insert_by_index r [] = r ∷ []
insert_by_index r (x ∷ xs) =
    let rest = insert_by_index r xs in if lez r.run_index x.run_index then r ∷ x ∷ xs else x ∷ rest

unfoldable pub list_runs_by_experiment : String → List ExperimentRun → List ExperimentRun
unfolding insert_by_index
list_runs_by_experiment id [] = []
list_runs_by_experiment id (r ∷ rs) =
    let rest = list_runs_by_experiment id rs in
    if r.experiment_id == id then insert_by_index r rest else rest

-- GetBaselineRun: the newest completed baseline run of the experiment.
abbrev pub newer : ExperimentRun → Option ExperimentRun → ExperimentRun
newer r none = r
newer r (some x) = if leb x.created_at r.created_at then r else x

unfoldable pub get_baseline_run : String → List ExperimentRun → Option ExperimentRun
get_baseline_run id [] = none
get_baseline_run id (r ∷ rs) =
    let rest = get_baseline_run id rs in
    if r.experiment_id == id && is_baseline r.run_type && is_completed r.status
    then some (newer r rest)
    else rest

-- The tests of UpdateStatus on an experiment's new status.
abbrev pub is_running_experiment : ExperimentStatus → Bool
is_running_experiment ExperimentStatus.running = true
is_running_experiment _ = false

abbrev pub is_closed_experiment : ExperimentStatus → Bool
is_closed_experiment ExperimentStatus.completed = true
is_closed_experiment ExperimentStatus.failed = true
is_closed_experiment ExperimentStatus.cancelled = true
is_closed_experiment _ = false

unfoldable pub update_experiments :
    String → ExperimentStatus → ℕ → List Experiment → List Experiment
update_experiments id status now [] = []
update_experiments id status now (e ∷ es) =
    (if e.id == id
      then record e {
        status = status;
        started_at = if is_running_experiment status then or_now now e.started_at else e.started_at;
        completed_at = if is_closed_experiment status then some now else e.completed_at;
      }
      else e)
    ∷ update_experiments id status now es

unfoldable pub update_status : String → ExperimentStatus → ℕ → Db → Db
unfolding update_experiments
update_status id status now db = record db {
  experiments = update_experiments id status now db.experiments;
}
