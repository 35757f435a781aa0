-- ===== src/Api/Handlers/Reads.antt =====
-- internal/api: what a read is answered with after a create or an update of a workflow or a policy.
use manteion_go.Base.{
  ℕ, ◌≡◌, sym, ap, ◌∙◌, String, Option, none, some, List, Check, Error, inl, inr, Bool-cases,
}
use manteion_go.Base.Result.{Result, ok, err, panic}
use manteion_go.Model.Sdk.{Workflow}
use manteion_go.Store.Workflows as Workflows
use manteion_go.Store.Workflows.{TargetCodec, WorkflowRow}
use manteion_go.Store.Workflows.RoundTrip as RoundTrip
use manteion_go.Api.Handlers.{Reply, json, get_reply, store_error, is_not_found}
use manteion_go.Api.Handlers.Faults.{or_fresh}
use manteion_go.Api.Handlers.Workflows.{
  CreateWorkflowRequest, requested, created, updated, reloaded, handle_create_workflow,
  handle_update_workflow, handle_get_workflow,
}

created_inversion :
    (w w' : Workflow) (x : Check × List WorkflowRow) (rows' : List WorkflowRow)
    → created w x ≡ (json 201 w', rows')
    → (w ≡ w') × (x ≡ (none, rows'))
created_inversion w w' (none, rows) rows' h =
    (cc, ap (λ (p : Reply Workflow × List WorkflowRow). (none, p.1)) h)
created_inversion w w' (some cause, rows) rows' h = cc

module _ (codec : TargetCodec) where
  -- A workflow that the handler creates is answered by a read of its ID, with the time of its creation
  -- for that of its update, if its targets can be read back.
  pub handle_create_workflow-get :
      (fresh : String) (now : ℕ) (req : Option CreateWorkflowRequest) (w : Workflow)
      → (rows rows' : List WorkflowRow)
      → handle_create_workflow codec fresh now req rows ≡ (json 201 w, rows')
      → RoundTrip.RoundTrips codec w
      → handle_get_workflow codec w.id rows' ≡ json 200 (record w { updated_at = w.created_at })
  unfolding handle_create_workflow handle_get_workflow get_reply
  handle_create_workflow-get fresh now none w rows rows' h back = cc
  handle_create_workflow-get fresh now (some req) w rows rows' h back =
      let made = requested (or_fresh fresh req.id) now req in
      let (same, stored) = created_inversion made w (Workflows.create codec made rows) rows' h in
      let stored' = ap (λ x. Workflows.create codec x rows) (sym same) ∙ stored in
      ap get_reply (RoundTrip.create-get codec w rows rows' stored' back)

  reloaded_get :
      (r : Result Workflow) (w : Workflow) → reloaded r ≡ json 200 w → get_reply r ≡ json 200 w
  unfolding get_reply
  reloaded_get (ok x) w h = h
  reloaded_get (err cause) w h = cc
  reloaded_get panic w h = cc

  not_json : (cause : Error) (w : Workflow) → store_error 400 cause ≡ json 200 w → ⊥
  unfolding store_error
  not_json cause w h = elim (Bool-cases (is_not_found cause)) [
    | inl e ↦ let h' = rw (e) at h in cc
    | inr e ↦ let h' = rw (e) at h in cc
  ]

  updated-get :
      (id : String) (x : Check × List WorkflowRow) (w : Workflow) (rows' : List WorkflowRow)
      → updated codec id x ≡ (json 200 w, rows')
      → get_reply (Workflows.get codec id rows') ≡ json 200 w
  updated-get id (none, rows) w rows' h =
      let same : rows ≡ rows' = ap (λ (p : Reply Workflow × List WorkflowRow). p.1) h in
      ap (λ r. get_reply (Workflows.get codec id r)) (sym same)
      ∙ reloaded_get (Workflows.get codec id rows) w
          (ap (λ (p : Reply Workflow × List WorkflowRow). p.0) h)
  updated-get id (some cause, rows) w rows' h =
      absurd (not_json cause w (ap (λ (p : Reply Workflow × List WorkflowRow). p.0) h))

  -- The workflow that an update is answered with is the one that a read of its ID is answered with.
  pub handle_update_workflow-get :
      (id : String) (now : ℕ) (req : Option CreateWorkflowRequest) (w : Workflow)
      → (rows rows' : List WorkflowRow)
      → handle_update_workflow codec id now req rows ≡ (json 200 w, rows')
      → handle_get_workflow codec id rows' ≡ json 200 w
  unfolding handle_update_workflow handle_get_workflow
  handle_update_workflow-get id now none w rows rows' h = cc
  handle_update_workflow-get id now (some req) w rows rows' h =
      updated-get id (Workflows.update codec (requested id 0 req) now rows) w rows' h
