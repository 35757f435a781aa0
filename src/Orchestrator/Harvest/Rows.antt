-- ===== src/Orchestrator/Harvest/Rows.antt =====
-- internal/orchestrator/harvest.go: the rows that a harvest adds to the results.
use manteion_go.Base.{
  ℕ, suc, ◌≤◌, ◌≡◌, refl, sym, ap, ◌∙◌, inl, inr, String, Bool, true, false, not, ◌||◌, none, List,
  [], ◌∷◌, ◌++◌, Bool-cases, Option-cases, All, All-append, length, length-append, arith,
}
use mathlib.Core.List.{append_assoc}
use manteion_go.Model.Experiment.{ExperimentRun}
use manteion_go.Model.Results.{WorkflowRunResult, validate_workflow_result}
use manteion_go.Store.Tables.{has_key}
use manteion_go.Store.Experiments.{
  ExperimentTables, run_key, workflow_result_key, create_workflow_result,
}
use manteion_go.Orchestrator.World.{attack_ids}
use manteion_go.Orchestrator.Harvest.{
  AttackResultInfo, HttpAnswer, Outcome, found, gave_up, refused, ended, Arithmetic, backoff,
  try_fetch, result_row, store_outcome, generate_run_id, harvest_one, harvest_all, harvest_results,
}

-- Some rows of the run were added, at most `n`, and nothing else was changed.
abbrev pub Adds : String → ℕ → ExperimentTables → ExperimentTables → Type 0
Adds run n t t' =
    (added : List WorkflowRunResult) × (t'
      ≡ record t { workflow_results = added ++ t.workflow_results })
    × (length added ≤ n)
    × All (λ r. (r.experiment_run_id ≡ run) × (r.latency_p999_us ≡ r.latency_p99_us)) added

Adds-none : (run : String) (n : ℕ) (t : ExperimentTables) → Adds run n t t
Adds-none run n t = ([], refl, omega arith, tt)

Adds-then :
    (run : String) (m : ℕ) (t u v : ExperimentTables)
    → Adds run 1 t u
    → Adds run m u v
    → Adds run (suc m) t v
Adds-then run m t u v (xs, e, few, all) (ys, f, few', all') =
    let P : WorkflowRunResult → Type 0 =
      λ r. (r.experiment_run_id ≡ run) × (r.latency_p999_us ≡ r.latency_p99_us) in
    let with_results : List WorkflowRunResult → ExperimentTables =
      λ l. record t { workflow_results = l } in
    let prepend : ExperimentTables → ExperimentTables =
      λ x. record x { workflow_results = ys ++ x.workflow_results } in
    (
      ys ++ xs,
      f ∙ ap prepend e ∙ ap with_results (sym (append_assoc ys xs t.workflow_results)),
      omega (arith, length-append ys xs, few, few'),
      All-append P ys xs all' all,
    )

module _ (arithmetic : Arithmetic) (is_json : String → Bool) where
  -- A result that is valid is stored, if its ID is new, its run is there and its JSON is taken.
  stored :
      (r : WorkflowRunResult) (t : ExperimentTables)
      → validate_workflow_result r ≡ none
      → (has_key workflow_result_key r.id t.workflow_results
          || not (has_key run_key r.experiment_run_id t.db.runs)
          || not (is_json r.raw_metrics))
        ≡ false
      → create_workflow_result is_json r t
        ≡ (none, record t { workflow_results = r ∷ t.workflow_results })
  unfolding create_workflow_result
  stored r t valid free = rw (valid, create_workflow_result, free) refl

  create-Adds :
      (run : String) (r : WorkflowRunResult) (t : ExperimentTables)
      → r.experiment_run_id ≡ run
      → r.latency_p999_us ≡ r.latency_p99_us
      → Adds run 1 t (create_workflow_result is_json r t).1
  unfolding create_workflow_result
  create-Adds run r t same p999 = elim (Option-cases (validate_workflow_result r)) [
    | inr (cause, bad) ↦
        let e : (create_workflow_result is_json r t).1 ≡ t =
          rw (bad, create_workflow_result) refl in
        ([], e, omega arith, tt)
    | inl good ↦
        elim (Bool-cases (
          has_key workflow_result_key r.id t.workflow_results
          || not (has_key run_key r.experiment_run_id t.db.runs)
          || not (is_json r.raw_metrics))) [
            | inl taken ↦
                let e : (create_workflow_result is_json r t).1 ≡ t =
                  rw (good, create_workflow_result, taken) refl in
                ([], e, omega arith, tt)
            | inr free ↦
                (r ∷ [], ap (λ x. x.1) (stored r t good free), omega arith, ((same, p999), tt))
          ]
  ]

  store_outcome-Adds :
      (id run : String) (o : Outcome) (t : ExperimentTables)
      → Adds run 1 t (store_outcome arithmetic is_json id run o t).1
  unfolding store_outcome result_row
  store_outcome-Adds id run (found info) t =
      create-Adds run (result_row arithmetic id run info) t refl refl
  store_outcome-Adds id run gave_up t = Adds-none run 1 t
  store_outcome-Adds id run (refused cause) t = Adds-none run 1 t
  store_outcome-Adds id run ended t = Adds-none run 1 t

  module _ (zeus : String → ℕ → HttpAnswer) (done : String → ℕ → Bool) (uuid : ℕ → String) where
    harvest_all-Adds :
        (run : String) (attacks : List String) (n : ℕ) (t : ExperimentTables)
        → Adds run
            (length attacks)
            t
            (harvest_all arithmetic is_json zeus done uuid run attacks n t)
    unfolding harvest_all harvest_one
    harvest_all-Adds run [] n t = Adds-none run 0 t
    harvest_all-Adds run (attack ∷ attacks) n t =
        let outcome = (try_fetch (zeus attack) (done attack) 0 backoff).outcome in
        let id = generate_run_id arithmetic is_json zeus done uuid n in
        let t' = (store_outcome arithmetic is_json id run outcome t).1 in
        Adds-then run (length attacks) t t'
          (harvest_all arithmetic is_json zeus done uuid run attacks (suc n) t')
          (store_outcome-Adds id run outcome t) (harvest_all-Adds run attacks (suc n) t')

    -- A harvest adds results of its run alone, at most one for each of the run's attacks, each with the
    -- 99th percentile for the 99.9th, and changes nothing else, whatever Zeus answers.
    pub harvest_results-Adds :
        (run : ExperimentRun) (n : ℕ) (t : ExperimentTables)
        → Adds run.id
            (length (attack_ids run))
            t
            (harvest_results arithmetic is_json zeus done uuid run n t)
    unfolding harvest_results
    harvest_results-Adds run n t = harvest_all-Adds run.id (attack_ids run) n t

    -- Where the tries for an attack find its result, harvestOne stores it under a new ID, if the result
    -- names a service, the run is there, the ID is new and the database takes the JSON.
    pub harvest_one_stores :
        (run attack : String) (n : ℕ) (info : AttackResultInfo) (t : ExperimentTables)
        → (try_fetch (zeus attack) (done attack) 0 backoff).outcome ≡ found info
        → validate_workflow_result
            (result_row arithmetic (generate_run_id arithmetic is_json zeus done uuid n) run info)
          ≡ none
        → has_key workflow_result_key
            (generate_run_id arithmetic is_json zeus done uuid n)
            t.workflow_results
          ≡ false
        → has_key run_key run t.db.runs ≡ true
        → is_json (arithmetic.raw_json info) ≡ true
        → harvest_one arithmetic is_json zeus done uuid run attack n t ≡ (
          none,
          record t {
            workflow_results =
                result_row arithmetic (generate_run_id arithmetic is_json zeus done uuid n) run info
                ∷ t.workflow_results;
          },
        )
    unfolding harvest_one store_outcome result_row
    harvest_one_stores run attack n info t tries valid fresh there json =
        let id = generate_run_id arithmetic is_json zeus done uuid n in
        let row = result_row arithmetic id run info in
        let e = stored row t valid (rw (fresh, there, json) refl) in rw (tries, e) refl
