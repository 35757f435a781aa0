-- ===== src/Api/Handlers/Workflows.antt =====
-- internal/api/workflow_handler.go: the handlers of workflow definitions over the workflow store. A
-- workflow is answered as it is read; the printing of times, the counting of request nodes and the
-- proxying to Zeus are left out.
use manteion_go.Base.{ℕ, String, Bool, Option, none, some, List, Check}
use manteion_go.Base.Int.{ℤ}
use manteion_go.Base.Float.{Float64}
use manteion_go.Base.Result.{Result, ok, err, panic}
use manteion_go.Model.Sdk.{Workflow}
use manteion_go.Store.Workflows as Workflows
use manteion_go.Store.Workflows.{TargetCodec, WorkflowRow, list_page}
use manteion_go.Api.Handlers.{Reply, json, error, store_error, get_reply, list_reply, done_reply}
use manteion_go.Api.Handlers.Faults.{or_fresh}

-- createWorkflowRequest
pub record CreateWorkflowRequest : Type 0 where
  pub id : String
  pub name : String
  pub description : String
  pub targets : List String
  pub estimated_rps_per_vu : Float64
  pub steps : String
  pub thresholds : String

abbrev pub requested : String → ℕ → CreateWorkflowRequest → Workflow
requested id now req = record {
  id = id;
  name = req.name;
  description = req.description;
  targets = req.targets;
  estimated_rps_per_vu = req.estimated_rps_per_vu;
  steps = req.steps;
  thresholds = req.thresholds;
  created_at = now;
  updated_at = now;
}

abbrev pub created : Workflow → Check × List WorkflowRow → Reply Workflow × List WorkflowRow
created w (none, rows) = (json 201 w, rows)
created w (some cause, rows) = (error 400, rows)

-- The reload behind an update.
abbrev pub reloaded : Result Workflow → Reply Workflow
reloaded (ok w) = json 200 w
reloaded (err cause) = error 500
reloaded panic = error 500

module _ (codec : TargetCodec) where
  unfoldable pub handle_create_workflow :
      String
      → ℕ
      → Option CreateWorkflowRequest
      → List WorkflowRow
      → Reply Workflow × List WorkflowRow
  unfolding Workflows.create
  handle_create_workflow fresh now none rows = (error 400, rows)
  handle_create_workflow fresh now (some req) rows =
      let w = requested (or_fresh fresh req.id) now req in created w (Workflows.create codec w rows)

  unfoldable pub handle_get_workflow : String → List WorkflowRow → Reply Workflow
  unfolding Workflows.get get_reply
  handle_get_workflow id rows = get_reply (Workflows.get codec id rows)

  abbrev pub updated : String → Check × List WorkflowRow → Reply Workflow × List WorkflowRow
  updated id (none, rows) = (reloaded (Workflows.get codec id rows), rows)
  updated id (some cause, rows) = (store_error 400 cause, rows)

  -- The times of the request's workflow are zero and are not stored.
  unfoldable pub handle_update_workflow :
      String
      → ℕ
      → Option CreateWorkflowRequest
      → List WorkflowRow
      → Reply Workflow × List WorkflowRow
  unfolding Workflows.update Workflows.get store_error
  handle_update_workflow id now none rows = (error 400, rows)
  handle_update_workflow id now (some req) rows =
      updated id (Workflows.update codec (requested id 0 req) now rows)

  unfoldable pub handle_list_workflows :
      (String → String → Bool) → ℤ → ℤ → List WorkflowRow → Reply (List Workflow × ℕ)
  unfolding list_page
  handle_list_workflows text_le limit offset rows =
      list_reply (list_page codec text_le limit offset rows)

unfoldable pub handle_delete_workflow :
    String → List WorkflowRow → Reply Workflow × List WorkflowRow
unfolding Workflows.delete done_reply
handle_delete_workflow id rows =
    let (answer, rows') = Workflows.delete id rows in (done_reply answer, rows')
