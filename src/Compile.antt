-- ===== src/Compile.antt =====
-- internal/ruleconv/ruleconv.go: rules with their faults and compositions resolved, as SDK instances
-- receive them.
pub mod Leaves
pub mod Accepted
pub mod Order
pub mod Panics
use manteion_go.Base.{
  ℕ, zero, suc, ◌+◌, String, ◌==◌, Bool, true, false, not, Option, none, some, List, [], ◌∷◌, Error,
  errorf, wrap, wrap_at, if◌then◌else◌,
}
use manteion_go.Base.Int.{ℤ, pos}
use manteion_go.Base.Float.{Float64, zero_float}
use manteion_go.Base.Result.{Result, ok, err, panic, ◌>>=◌, wrapped}
use manteion_go.Model.Fault.{
  FaultSpec, FaultComposition, FaultCompositionMember, execution_mode_text, direction_text,
}
use manteion_go.Model.Rule.{Rule, ActionType, CacheBoxRuleConfig}

-- `(*T, error)`: the pointer, nil, or an error.
pub data Lookup (A : Type 0) : Type 0 where
  found : A → Lookup A
  missing : Lookup A
  failed : Error → Lookup A

-- FuncResolver and FuncCompositionResolver.
unfoldable pub func_resolver : {A : Type 0} → (String → Option A) → String → Lookup A
func_resolver fn id = elim (fn id) [ none ↦ missing | some a ↦ found a ]

pub record CompiledNetworkEnvelope : Type 0 where
  pub host : String
  pub target : String
  pub direction : String
  pub scope : Float64

pub record CompiledFault : Type 0 where
  pub category : String
  pub fault_type : String
  pub duration_ms : ℤ
  pub ramp_up_ms : ℤ
  pub ramp_down_ms : ℤ
  pub network : Option CompiledNetworkEnvelope
  pub params : String

-- CompiledComposition, and its list of CompiledCompositionMember: a member has a fault, a child
-- composition, or neither.
mutual
  pub data CompiledComposition : Type 0 where
    composition :
        (name execution_mode : String) (duration_ms ramp_up_ms ramp_down_ms : ℤ)
        → CompiledMembers
        → CompiledComposition

  pub data CompiledMembers : Type 0 where
    none_left : CompiledMembers
    bare : (direction : String) → CompiledMembers → CompiledMembers
    with_fault : (direction : String) → CompiledFault → CompiledMembers → CompiledMembers
    with_child : (direction : String) → CompiledComposition → CompiledMembers → CompiledMembers

-- CompiledCacheBox has the fields of CacheBoxRuleConfig.
pub record CompiledRule : Type 0 where
  pub name : String
  pub injection_point : String
  pub labels : List (String × String)
  pub mode : String
  pub priority : ℤ
  pub start_policy : String
  pub match_expr : String
  pub fault : Option CompiledFault
  pub composition_tree : Option CompiledComposition
  pub cache_box : Option CacheBoxRuleConfig

-- The envelope of a network fault, with the default of its host.
abbrev pub network_envelope : FaultSpec → CompiledNetworkEnvelope
network_envelope spec =
    let host : String = if spec.host == "" then "proxy" else spec.host in
    elim spec.network [
      | none ↦ record { host = host; target = ""; direction = ""; scope = zero_float }
      | some e ↦ record {
        host = host;
        target = e.target;
        direction = direction_text e.direction;
        scope = e.scope;
      }
    ]

unfoldable pub compile_spec : FaultSpec → CompiledFault
compile_spec spec = record {
  category = spec.category;
  fault_type = spec.fault_type;
  duration_ms = spec.duration_ms;
  ramp_up_ms = spec.ramp_up_ms;
  ramp_down_ms = spec.ramp_down_ms;
  network = if spec.category == "network" then some (network_envelope spec) else none;
  params = spec.params;
}

module _ (specs : String → Lookup FaultSpec) where
  unfoldable pub resolve_spec : String → Result CompiledFault
  resolve_spec id = elim (specs id) [
    | failed e ↦ err (wrap "resolve fault spec %q: %w" e)
    | missing ↦ err (errorf "fault spec %q not found" (id ∷ []))
    | found spec ↦ ok (compile_spec spec)
  ]

  -- The loop of resolveComposition over the members from index `i`, with the recursive call as
  -- `visit`.
  unfoldable pub resolve_members :
      (String → Result CompiledComposition)
      → ℕ
      → List FaultCompositionMember
      → Result CompiledMembers
  unfolding resolve_spec
  resolve_members visit i [] = ok none_left
  resolve_members visit i (m ∷ ms) =
      let rest = resolve_members visit (i + 1) ms in
      if not (m.fault_spec_id == "")
      then (wrapped (wrap_at "composition %q member[%d]: %w" i) (resolve_spec m.fault_spec_id)
          >>= λ f. rest >>= λ others. ok (with_fault (direction_text m.direction) f others))
      else if not (m.child_composition_id == "")
      then (wrapped (wrap_at "composition %q member[%d]: %w" i) (visit m.child_composition_id)
          >>= λ c. rest >>= λ others. ok (with_child (direction_text m.direction) c others))
      else (rest >>= λ others. ok (bare (direction_text m.direction) others))

  -- resolveComposition, where `maxCompositionDepth - depth` levels are left.
  unfoldable pub resolve_composition :
      (String → Lookup FaultComposition) → ℕ → String → Result CompiledComposition
  unfolding resolve_members
  resolve_composition comps zero id =
      err (errorf "composition %q nesting exceeds max depth %d" (id ∷ []))
  resolve_composition comps (suc left) id = elim (comps id) [
    | failed e ↦ err (wrap "resolve composition %q: %w" e)
    | missing ↦ err (errorf "composition %q not found" (id ∷ []))
    | found comp ↦ resolve_members (resolve_composition comps left) 0 comp.members >>= λ members.
        ok (
          composition comp.name (execution_mode_text comp.execution_mode) comp.duration_ms
            comp.ramp_up_ms comp.ramp_down_ms members)
  ]

  -- The fields that are copied from the rule.
  abbrev pub bare_rule : Rule → CompiledRule
  bare_rule r = record {
    name = r.name;
    injection_point = r.match.injection_point;
    labels = r.match.labels;
    mode = r.mode;
    priority = r.priority;
    start_policy = r.start_policy;
    match_expr = r.match_expr;
    fault = none;
    composition_tree = none;
    cache_box = none;
  }

  -- `switch r.Action.Type`; without a cache-box configuration its case dereferences nil.
  unfoldable pub compile_action :
      Option (String → Lookup FaultComposition) → Rule → ActionType → Result CompiledRule
  unfolding resolve_composition
  compile_action comps r ActionType.fault_spec =
      wrapped (wrap "rule %q: %w") (resolve_spec r.action.fault_spec_id) >>= λ f.
      ok (record (bare_rule r) { fault = some f })
  compile_action none r ActionType.fault_composition =
      err (errorf "rule %q: composition resolver required for fault_composition" (r.id ∷ []))
  compile_action (some comps) r ActionType.fault_composition =
      wrapped (wrap "rule %q: %w") (resolve_composition comps 3 r.action.fault_comp_id) >>= λ c.
      ok (record (bare_rule r) { composition_tree = some c })
  compile_action comps r ActionType.cachebox = elim r.action.cache_box [
    | none ↦ panic
    | some c ↦ ok (record (bare_rule r) { cache_box = some c })
  ]
  compile_action comps r (ActionType.other s) = ok (bare_rule r)

  unfoldable pub compile_rule :
      Option (String → Lookup FaultComposition) → Rule → Result CompiledRule
  unfolding compile_action
  compile_rule comps r = compile_action comps r r.action.type

  unfoldable pub compile_rules :
      Option (String → Lookup FaultComposition) → List Rule → Result (List CompiledRule)
  unfolding compile_rule
  compile_rules comps [] = ok []
  compile_rules comps (r ∷ rs) =
      compile_rule comps r >>= λ c. compile_rules comps rs >>= λ cs. ok (c ∷ cs)
