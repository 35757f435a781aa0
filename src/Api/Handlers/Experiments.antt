-- ===== src/Api/Handlers/Experiments.antt =====
-- internal/api/experiment_handler.go: the handlers of experiments and of runs over the stores, and the
-- replies to the orchestrator's answers. The handlers do not compare a run's experiment with the path's.
use manteion_go.Base.{ℕ, String, Bool, Option, none, some, List, [], ◌∷◌, Check, if◌then◌else◌}
use manteion_go.Base.Result.{Result, ok, err, panic}
use manteion_go.Model.Experiment.{Experiment, ExperimentRun, PhaseRuleSet}
use manteion_go.Model.Results.{WorkflowRunResult, ContributionResult}
use manteion_go.Model.Rule.{Rule}
use manteion_go.Store.Runs.{Db, list_runs_by_experiment}
use manteion_go.Store.Rules as Rules
use manteion_go.Store.Rules.{Codec, RuleTable}
use manteion_go.Store.Experiments as Experiments
use manteion_go.Store.Experiments.{
  ExperimentTables, create_run, get_run, list_workflow_results, list_contributions,
}
use manteion_go.Api.Handlers.{
  Reply, json, error, is_not_found, store_error, get_reply, list_reply, done_reply,
}
use manteion_go.Api.Handlers.Faults.{or_fresh}

abbrev pub created {ℓ} : {A : Type ℓ} → A → Check × Db → Reply A × Db
created x (none, db) = (json 201 x, db)
created x (some cause, db) = (error 400, db)

unfoldable pub handle_create_experiment :
    String → ℕ → Option Experiment → Db → Reply Experiment × Db
unfolding Experiments.create
handle_create_experiment fresh now none db = (error 400, db)
handle_create_experiment fresh now (some body) db =
    let e = record body { id = or_fresh fresh body.id; created_at = now } in
    created e (Experiments.create e db)

unfoldable pub handle_list_experiments : Db → Reply (List Experiment)
unfolding Experiments.list
handle_list_experiments db = list_reply (ok (Experiments.list db))

unfoldable pub handle_get_experiment : String → Db → Reply Experiment
unfolding Experiments.get get_reply
handle_get_experiment id db = get_reply (Experiments.get id db)

unfoldable pub handle_delete_experiment :
    Bool → String → ExperimentTables → Reply Experiment × ExperimentTables
unfolding Experiments.delete done_reply
handle_delete_experiment attacked id t =
    let (answer, t') = Experiments.delete attacked id t in (done_reply answer, t')

module _ (codec : Codec) (rules : RuleTable) where
  -- The reply to a rule that cannot be read, if there is one.
  abbrev pub rule_verdict : Result Rule → Option ℕ
  rule_verdict (ok rule) = none
  rule_verdict (err cause) = some (if is_not_found cause then 422 else 500)
  rule_verdict panic = some 500

  -- `if … { return }`, and then the rest.
  abbrev pub or_else : Option ℕ → Option ℕ → Option ℕ
  or_else none rest = rest
  or_else (some code) rest = some code

  -- The two loops over the phases' rules: the status of the first refusal.
  unfoldable pub check_rule_ids : List String → Option ℕ
  unfolding Rules.get is_not_found
  check_rule_ids [] = none
  check_rule_ids (id ∷ ids) = or_else (rule_verdict (Rules.get codec id rules)) (check_rule_ids ids)

  unfoldable pub check_phase_rules : List PhaseRuleSet → Option ℕ
  unfolding check_rule_ids
  check_phase_rules [] = none
  check_phase_rules (p ∷ ps) = or_else (check_rule_ids p.rule_ids) (check_phase_rules ps)

  abbrev pub verified : Option ℕ → Db → Reply ExperimentRun × Db → Reply ExperimentRun × Db
  verified none db rest = rest
  verified (some code) db rest = (error code, db)

  unfoldable pub handle_create_run :
      String → String → ℕ → Option ExperimentRun → Db → Reply ExperimentRun × Db
  unfolding check_phase_rules create_run
  handle_create_run experiment fresh now none db = (error 400, db)
  handle_create_run experiment fresh now (some body) db =
      let r = record body {
        id = or_fresh fresh body.id;
        experiment_id = experiment;
        created_at = now;
      } in
      verified (check_phase_rules r.phase_rules) db (created r (create_run r db))

unfoldable pub handle_list_runs : String → Db → Reply (List ExperimentRun)
unfolding list_runs_by_experiment
handle_list_runs experiment db = list_reply (ok (list_runs_by_experiment experiment db.runs))

unfoldable pub handle_get_run : String → Db → Reply ExperimentRun
unfolding get_run get_reply
handle_get_run run db = get_reply (get_run run db)

-- The reply to a call of the orchestrator, from its error, with the status of the other errors.
unfoldable pub orchestrated : (other : ℕ) → String → Check → Reply String
unfolding store_error
orchestrated other text none = json 200 text
orchestrated other text (some cause) = store_error other cause

abbrev pub handle_start_run : Check → Reply String
handle_start_run answer = orchestrated 409 "running" answer

abbrev pub handle_stop_run : Check → Reply String
handle_stop_run answer = orchestrated 500 "completed" answer

abbrev pub handle_pause_run : Check → Reply String
handle_pause_run answer = orchestrated 409 "paused" answer

abbrev pub handle_resume_run : Check → Reply String
handle_resume_run answer = orchestrated 409 "running" answer

abbrev pub handle_start_experiment : Check → Reply String
handle_start_experiment answer = orchestrated 409 "running" answer

module _ (text_le : String → String → Bool) where
  unfoldable pub handle_list_run_results :
      String → ExperimentTables → Reply (List WorkflowRunResult)
  unfolding list_workflow_results
  handle_list_run_results run t = list_reply (ok (list_workflow_results text_le run t))

  unfoldable pub handle_list_contributions :
      String → ExperimentTables → Reply (List ContributionResult)
  unfolding list_contributions
  handle_list_contributions id t = list_reply (ok (list_contributions text_le id t))
