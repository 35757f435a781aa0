-- ===== src/Scenarios/Handlers.antt =====
-- A composition that is created through the API, rules that are written, and rows that the schema
-- admits.
use Prim.Native.Nat.{min}
use manteion_go.Base.{
  ℕ, ◌≡◌, refl, ◌<◌, ◌≤◌, ◌-◌, length, String, Bool, true, false, none, some, [], ◌∷◌,
}
use manteion_go.Base.Int.{pos}
use manteion_go.Base.Float.{zero_float}
use manteion_go.Base.Result.{ok}
use manteion_go.Model.Fault.{validate_composition_fields, default_incompatibilities}
use manteion_go.Model.Rule.{validate_match}
use manteion_go.Model.Sdk.{Workflow}
use manteion_go.Composition as Composition
use manteion_go.Composition.{validate_composition, walk_depth}
use manteion_go.Store.Rules.{to_row}
use manteion_go.Store.Faults.{
  SpecRow, CompositionRow, MemberRow, FaultTables, spec_row, spec_resolver, composition_resolver,
  create_composition,
}
use manteion_go.Store.Faults.Members.{HaveOwners}
use manteion_go.Store.Faults.Owners.{Statement, execute, execute-HaveOwners}
use manteion_go.Store.Workflows.{
  TargetCodec, WorkflowRow, list_page, page_limit, page_offset, drop_rows, take_rows, scan_workflow,
}
use manteion_go.Store.Workflows.Paging.{IsPage, list_page_lem}
use manteion_go.Schema.{admits_rule}
use manteion_go.Schema.AdmitsRules.{admits-to_row}
use manteion_go.Api.Handlers.{json}
use manteion_go.Api.Handlers.Faults.{
  handle_update_fault_spec, handle_create_fault_composition, handle_get_fault_composition,
}
use manteion_go.Api.Handlers.Faults.Laws as FaultRequests
use manteion_go.Api.Handlers.Faults.Laws.{handle_create_fault_composition-get, handle_refused}
use manteion_go.Api.Handlers.Rules.{RuleServer}
use manteion_go.Api.Handlers.Rules.Broadcasts as RuleRequests
use manteion_go.Api.Handlers.Rules.Broadcasts.{Told, handle-Told}
use manteion_go.Api.Broker.{new_event_broker}
use manteion_go.Scenarios.Rules.{sparse, filled, sparse_accepted}
use manteion_go.Scenarios.Compositions.{fault, pair_of_faults}
use manteion_go.Scenarios.Stores.{no_labels, all_admitted}

abbrev two_specs : FaultTables
two_specs = record {
  specs =
      spec_row (fault "slow" "network" "latency") ∷ spec_row (fault "busy" "resource" "cpu") ∷ [];
  compositions = [];
  members = [];
}

abbrev any_composition : CompositionRow → Bool
any_composition row = true

abbrev any_member : MemberRow → Bool
any_member row = true

abbrev any_spec : SpecRow → Bool
any_spec row = true

abbrev unreferenced : String → FaultTables → Bool
unreferenced id t = false

unfoldable with_pair : FaultTables
with_pair =
    (handle_create_fault_composition any_composition any_member "fresh" 0 (some pair_of_faults)
      two_specs).1

pair_created :
    handle_create_fault_composition any_composition any_member "fresh" 0
      (some pair_of_faults)
      two_specs
    ≡ (json 201 pair_of_faults, with_pair)
unfolding with_pair handle_create_fault_composition create_composition validate_composition_fields
    walk_depth default_incompatibilities
pair_created = refl

handle_create_fault_composition-get_example :
    (validate_composition (spec_resolver two_specs) (composition_resolver two_specs) pair_of_faults
      ≡ Composition.ok tt)
    × (handle_get_fault_composition "pair" with_pair ≡ json 200 pair_of_faults)
handle_create_fault_composition-get_example =
    handle_create_fault_composition-get any_composition any_member "fresh" 0 (some pair_of_faults)
      pair_of_faults two_specs with_pair tt pair_created

execute-HaveOwners_example :
    HaveOwners
      (execute any_spec any_composition any_member unreferenced
        (Statement.composition_create pair_of_faults)
        two_specs).1
execute-HaveOwners_example =
    execute-HaveOwners any_spec any_composition any_member unreferenced
      (Statement.composition_create pair_of_faults) two_specs tt

-- The body of the request cannot be read.
handle_refused_example :
    (FaultRequests.handle any_spec any_composition any_member unreferenced
      (FaultRequests.Request.spec_update "slow" none)
      two_specs).1
    ≡ two_specs
unfolding FaultRequests.handle handle_update_fault_spec
handle_refused_example =
    handle_refused any_spec any_composition any_member unreferenced
      (FaultRequests.Request.spec_update "slow" none) two_specs refl

abbrev server : RuleServer
server = record { rules = record { rows = []; version = 4 }; broker = new_event_broker }

handle-Told_example :
    Told no_labels
      (λ v. "{}")
      all_admitted
      "cart"
      server
      (RuleRequests.handle no_labels
        (λ v. "{}")
        all_admitted
        (RuleRequests.Request.rule_create "fresh" 0 (some sparse))
        server)
handle-Told_example =
    handle-Told no_labels (λ v. "{}") all_admitted
      (RuleRequests.Request.rule_create "fresh" 0 (some sparse)) server

-- A cache-box rule under the initial check.
admits-to_row_example : admits_rule false (to_row no_labels filled) ≡ false
unfolding validate_match
admits-to_row_example = admits-to_row no_labels false sparse filled sparse_accepted refl

abbrev no_targets : TargetCodec
no_targets = record {
  targets_json = λ ts. "[]";
  read_targets = λ text. some [];
  is_json = λ text. true;
}

abbrev checkout : WorkflowRow
checkout = record {
  id = "w1";
  name = "checkout";
  description = none;
  targets = "[]";
  estimated_rps_per_vu = zero_float;
  steps = "[]";
  thresholds = none;
  created_at = 0;
  updated_at = 0;
}

abbrev shown : Workflow
shown = record {
  id = "w1";
  name = "checkout";
  description = "";
  targets = [];
  estimated_rps_per_vu = zero_float;
  steps = "[]";
  thresholds = "";
  created_at = 0;
  updated_at = 0;
}

abbrev one : ℕ
one = 1

one_page :
    list_page no_targets (λ a b. true) (pos 500) (pos 0) (checkout ∷ []) ≡ ok (shown ∷ [], one)
unfolding list_page drop_rows take_rows scan_workflow
one_page = refl

list_page_lem_example :
    IsPage no_targets (λ a b. true) (page_offset (pos 0)) (checkout ∷ []) (shown ∷ [])
    × (length (shown ∷ [])
        ≡ min (page_limit (pos 500)) (length (checkout ∷ []) - page_offset (pos 0)))
    × (length (shown ∷ []) ≤ 200)
    × (page_offset (pos 0) < length (checkout ∷ []) → one ≡ length (checkout ∷ []))
    × (length (checkout ∷ []) ≤ page_offset (pos 0) → one ≡ 0)
list_page_lem_example =
    list_page_lem no_targets (λ a b. true) (pos 500) (pos 0) (checkout ∷ []) (shown ∷ []) one
      (λ a b e. cc) one_page
