-- ===== src/Api/Handlers/Policies.antt =====
-- internal/api/policy_handler.go: the handlers of policies over the policy store.
use manteion_go.Base.{ℕ, String, Bool, true, false, Option, none, some, List, Check}
use manteion_go.Model.Policy.{PolicyRule}
use manteion_go.Store.Policies as Policies
use manteion_go.Store.Policies.{PolicyCodec, PolicyRow, set_enabled}
use manteion_go.Api.Handlers.{Reply, json, error, get_reply, list_reply, done_reply}
use manteion_go.Api.Handlers.Faults.{or_fresh}

abbrev pub created : PolicyRule → Check × List PolicyRow → Reply PolicyRule × List PolicyRow
created p (none, rows) = (json 201 p, rows)
created p (some cause, rows) = (error 400, rows)

module _ (codec : PolicyCodec) where
  unfoldable pub handle_create_policy :
      String → ℕ → Option PolicyRule → List PolicyRow → Reply PolicyRule × List PolicyRow
  unfolding Policies.create
  handle_create_policy fresh now none rows = (error 400, rows)
  handle_create_policy fresh now (some body) rows =
      let p = record body { id = or_fresh fresh body.id; created_at = now } in
      created p (Policies.create codec p rows)

  unfoldable pub handle_get_policy : String → List PolicyRow → Reply PolicyRule
  unfolding Policies.get get_reply
  handle_get_policy id rows = get_reply (Policies.get codec id rows)

  unfoldable pub handle_list_policies : List PolicyRow → Reply (List PolicyRule)
  unfolding Policies.list
  handle_list_policies rows = list_reply (Policies.list codec rows)

unfoldable pub handle_delete_policy : String → List PolicyRow → Reply PolicyRule × List PolicyRow
unfolding Policies.delete done_reply
handle_delete_policy id rows =
    let (answer, rows') = Policies.delete id rows in (done_reply answer, rows')

unfoldable pub set_policy_enabled :
    String → Bool → List PolicyRow → Reply PolicyRule × List PolicyRow
unfolding set_enabled done_reply
set_policy_enabled id enabled rows =
    let (answer, rows') = set_enabled id enabled rows in (done_reply answer, rows')

abbrev pub handle_enable_policy : String → List PolicyRow → Reply PolicyRule × List PolicyRow
handle_enable_policy id rows = set_policy_enabled id true rows

abbrev pub handle_disable_policy : String → List PolicyRow → Reply PolicyRule × List PolicyRow
handle_disable_policy id rows = set_policy_enabled id false rows
