-- ===== src/Api/Handlers/Faults.antt =====
-- internal/api/fault_handler.go: the handlers of fault specs and of compositions over the fault store.
-- The new ID and the time are arguments.
pub mod Laws
use manteion_go.Base.{ℕ, String, ◌==◌, Bool, Option, none, some, List, Check, new, if◌then◌else◌}
use manteion_go.Base.Result.{ok}
use manteion_go.Model.Fault.{FaultSpec, FaultComposition, validate_fault_spec}
use manteion_go.Composition as Composition
use manteion_go.Composition.{validate_composition}
use manteion_go.Store.Faults.{
  SpecRow, CompositionRow, MemberRow, FaultTables, create_spec, update_spec, get_spec, list_specs,
  delete_spec, create_composition, get_composition, list_compositions, delete_composition,
  spec_resolver, composition_resolver,
}
use manteion_go.Api.Handlers.{Reply, json, error, store_error, get_reply, list_reply, done_reply}

abbrev pub or_fresh : String → String → String
or_fresh fresh id = if id == "" then fresh else id

-- `if err := x.Validate(); err != nil { … 400 … }`, before the rest.
abbrev pub checked {ℓ} :
    {A : Type ℓ} → Check → FaultTables → Reply A × FaultTables → Reply A × FaultTables
checked (some cause) t rest = (error 400, t)
checked none t rest = rest

-- The reply to a create, for which every error of the store is the server's.
abbrev pub created {ℓ} : {A : Type ℓ} → A → Check × FaultTables → Reply A × FaultTables
created x (none, t) = (json 201 x, t)
created x (some cause, t) = (error 500, t)

abbrev pub updated {ℓ} : {A : Type ℓ} → A → Check × FaultTables → Reply A × FaultTables
updated x (none, t) = (json 200 x, t)
updated x (some cause, t) = (store_error 500 cause, t)

module _ (admits : SpecRow → Bool) where
  unfoldable pub handle_create_fault_spec :
      String → ℕ → Option FaultSpec → FaultTables → Reply FaultSpec × FaultTables
  unfolding create_spec
  handle_create_fault_spec fresh now none t = (error 400, t)
  handle_create_fault_spec fresh now (some body) t =
      let f = record body { id = or_fresh fresh body.id; created_at = now } in
      checked (validate_fault_spec f) t (created f (create_spec admits f t))

  unfoldable pub handle_update_fault_spec :
      String → Option FaultSpec → FaultTables → Reply FaultSpec × FaultTables
  unfolding update_spec store_error
  handle_update_fault_spec id none t = (error 400, t)
  handle_update_fault_spec id (some body) t =
      let f = record body { id = id } in
      checked (validate_fault_spec f) t (updated f (update_spec admits f t))

unfoldable pub handle_get_fault_spec : String → FaultTables → Reply FaultSpec
unfolding get_spec get_reply
handle_get_fault_spec id t = get_reply (get_spec id t)

unfoldable pub handle_list_fault_specs : FaultTables → Reply (List FaultSpec)
unfolding list_specs
handle_list_fault_specs t = list_reply (ok (list_specs t))

unfoldable pub handle_delete_fault_spec :
    (String → FaultTables → Bool) → String → FaultTables → Reply FaultSpec × FaultTables
unfolding delete_spec done_reply
handle_delete_fault_spec referenced id t =
    let (answer, t') = delete_spec referenced id t in (done_reply answer, t')

-- The error of ValidateComposition, whose recursion always has enough fuel.
abbrev pub verdict {ℓ} : {A : Type ℓ} → Composition.Answer A → Check
verdict (Composition.ok _) = none
verdict (Composition.err cause) = some cause
verdict Composition.out_of_fuel = some (new "out of fuel")

module _ (admits : CompositionRow → Bool) (admits_member : MemberRow → Bool) where
  unfoldable pub handle_create_fault_composition :
      String → ℕ → Option FaultComposition → FaultTables → Reply FaultComposition × FaultTables
  unfolding create_composition validate_composition spec_resolver composition_resolver
  handle_create_fault_composition fresh now none t = (error 400, t)
  handle_create_fault_composition fresh now (some body) t =
      let c = record body { id = or_fresh fresh body.id; created_at = now } in
      checked (verdict (validate_composition (spec_resolver t) (composition_resolver t) c)) t
        (created c (create_composition admits admits_member c t))

unfoldable pub handle_get_fault_composition : String → FaultTables → Reply FaultComposition
unfolding get_composition get_reply
handle_get_fault_composition id t = get_reply (get_composition id t)

unfoldable pub handle_list_fault_compositions : FaultTables → Reply (List FaultComposition)
unfolding list_compositions
handle_list_fault_compositions t = list_reply (ok (list_compositions t))

unfoldable pub handle_delete_fault_composition :
    (String → FaultTables → Bool) → String → FaultTables → Reply FaultComposition × FaultTables
unfolding delete_composition done_reply
handle_delete_fault_composition referenced id t =
    let (answer, t') = delete_composition referenced id t in (done_reply answer, t')
