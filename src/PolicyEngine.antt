-- ===== src/PolicyEngine.antt =====
-- internal/conditions/conditions.go and internal/policy/engine.go: the conditions on metrics, and the
-- engine that acts on those that are met, at most once in a cooldown.
pub mod Conditions
pub mod Cooldown
pub mod Panics
use manteion_go.Base.{
  ℕ, suc, ◌+◌, ◌-◌, ◌^◌, String, Bool, true, false, not, ◌&&◌, ◌||◌, Option, none, some, List, [],
  ◌∷◌, Error, errorf, wrap, leb, if◌then◌else◌,
}
use manteion_go.Base.Int.{ℤ, pos, sub_ℕ, ltz}
use manteion_go.Base.Float.{Float64, is_nan, is_inf, lt_float, le_float, eq_float}
use manteion_go.Base.Result.{Result, ok, err, panic, ◌>>=◌, wrapped}
use manteion_go.Base.Update.{update}
use manteion_go.Model.Experiment.{Operator}
use manteion_go.Model.Fault.{FaultSpec, FaultComposition}
use manteion_go.Model.Rule.{Rule}
use manteion_go.Model.Policy.{PolicyRule, PolicyAction, PushRulesAction, ActionType}
use manteion_go.Compile.{func_resolver, CompiledRule, compile_rules}
use manteion_go.Control as Control
use manteion_go.Control.{FanoutResult, IntentTracker}

unfoldable pub met : Float64 → Operator → Float64 → Bool
met value operator threshold = if is_nan value || is_inf value then false else elim operator [
  | Operator.gt ↦ lt_float threshold value
  | Operator.gte ↦ le_float threshold value
  | Operator.lt ↦ lt_float value threshold
  | Operator.lte ↦ le_float value threshold
  | Operator.eq ↦ eq_float value threshold
  | Operator.other s ↦ false
]

pub record Effect : Type 0 where
  pub action_type : ActionType
  pub service : String
  pub rule_ids : List String

-- `time.Since(last)` at the reading `now` of the clock, in nanoseconds. A missing entry is the zero
-- time, which is so far back that the difference saturates.
abbrev pub max_duration : ℕ
max_duration = 2 ^ 63 - 1

abbrev pub since : ℕ → Option ℕ → ℤ
since now none = pos max_duration
since now (some last) = if leb max_duration (now - last) then pos max_duration else sub_ℕ now last

module _ (F D : Type 0) where
  -- The engine, the number of readings of the clock so far, and the intents that its controller
  -- writes.
  pub record Engine : Type 0 where
    pub last_fired_at : String → Option ℕ
    pub readings : ℕ
    pub intents : IntentTracker F D

  -- What one tick finds: the answers of Prometheus, the stores, and the controller's instances.
  pub record Surroundings (Entry : Type 0) : Type 0 where
    pub query_instant : String → Result Float64
    pub get_rule : String → Result Rule
    pub spec_resolver : String → Option FaultSpec
    pub composition_resolver : String → Option FaultComposition
    pub control : Control.Env F D Entry

-- The effect of a rule that Decide lets fire.
abbrev pub effects_of : PolicyAction → List Effect → List Effect
effects_of a rest = elim a.push_rules [
  | none ↦ rest
  | some p ↦
      record {
        action_type = a.action_type;
        service = p.service;
        rule_ids = elim a.action_type [ ActionType.push_rules ↦ p.rule_ids | _ ↦ [] ];
      }
      ∷ rest
]

module _ {F D : Type 0} (clock : ℕ → ℕ) where
  -- The part under the mutex: whether the cooldown has passed, and then the new time of firing. The
  -- clock is read once for the test and once more for the entry.
  unfoldable pub claim : PolicyRule → Engine F D → Bool × Engine F D
  claim rule e =
      if ltz (since (clock e.readings) (e.last_fired_at rule.id)) rule.cooldown
      then (false, record e { readings = e.readings + 1 })
      else (
        true,
        record e {
          last_fired_at = update e.last_fired_at rule.id (some (clock (e.readings + 1)));
          readings = e.readings + 2;
        },
      )

  -- The tests of a rule, by Decide and by evaluate.
  unfoldable pub decide_rule : PolicyRule → Option Float64 → Engine F D → Bool × Engine F D
  unfolding claim met
  decide_rule rule none e = (false, e)
  decide_rule rule (some value) e =
      if not (met value rule.condition.operator rule.condition.threshold)
      then (false, e)
      else claim rule e

  -- Decide; `metrics` is a map.
  unfoldable pub decide :
      List PolicyRule → (String → Option Float64) → Engine F D → List Effect × Engine F D
  unfolding decide_rule
  decide [] metrics e = ([], e)
  decide (rule ∷ rules) metrics e =
      let (fires, e1) = decide_rule rule (metrics rule.condition.metric) e in
      let (effects, e2) = decide rules metrics e1 in
      (if fires then effects_of rule.action effects else effects, e2)

  module _ {Entry : Type 0} (here : Surroundings F D Entry) where
    unfoldable pub get_rules : List String → Result (List Rule)
    get_rules [] = ok []
    get_rules (id ∷ ids) =
        let rest = get_rules ids in
        wrapped (wrap "get rule %q: %w") (here.get_rule id) >>= λ r. rest >>= λ rs. ok (r ∷ rs)

    unfoldable pub load_compiled_rules : List String → Result (List CompiledRule)
    unfolding get_rules
    load_compiled_rules ids = get_rules ids >>= λ rules. wrapped (wrap "compile rules: %w") (
        compile_rules (func_resolver here.spec_resolver)
          (some (func_resolver here.composition_resolver)) rules)

    -- The call of the controller, whose result but for the error is dropped.
    abbrev pub push : String → List CompiledRule → Engine F D → Result {0} Unit × Engine F D
    push service rules e =
        let (r, intents) = Control.push_rules here.control service rules [] e.intents in
        (r >>= λ fanned. ok tt, record e { intents = intents })

    unfoldable pub do_push_rules : PushRulesAction → Engine F D → Result {0} Unit × Engine F D
    unfolding load_compiled_rules Control.push_rules
    do_push_rules a e = elim (load_compiled_rules a.rule_ids) [
      | ok compiled ↦ push a.service compiled e
      | err x ↦ (err x, e)
      | panic ↦ (panic, e)
    ]

    abbrev no_config : PolicyRule → Error
    no_config rule = errorf "policy engine: rule %q: push_rules config is nil" (rule.id ∷ [])

    -- `switch rule.Action.ActionType`
    unfoldable pub execute_by_type :
        PolicyRule → Engine F D → ActionType → Option PushRulesAction → Result {0} Unit × Engine F D
    unfolding do_push_rules
    execute_by_type rule e ActionType.push_rules none = (err (no_config rule), e)
    execute_by_type rule e ActionType.push_rules (some a) = do_push_rules a e
    execute_by_type rule e ActionType.clear_rules none = (err (no_config rule), e)
    execute_by_type rule e ActionType.clear_rules (some a) = push a.service [] e
    execute_by_type rule e _ a = (ok tt, e)

    unfoldable pub execute_action : PolicyRule → Engine F D → Result {0} Unit × Engine F D
    unfolding execute_by_type
    execute_action rule e = execute_by_type rule e rule.action.action_type rule.action.push_rules

    -- evaluate; an error of the query fires nothing.
    unfoldable pub evaluate : PolicyRule → Engine F D → Result {0} Unit × Engine F D
    unfolding decide_rule execute_action
    evaluate rule e = elim (here.query_instant rule.condition.metric) [
      | err x ↦ (err (wrap "query metric %q: %w" x), e)
      | panic ↦ (panic, e)
      | ok value ↦
          let (fires, e1) = decide_rule rule (some value) e in
          if fires then execute_action rule e1 else (ok tt, e1)
    ]

    -- The loop of tick over the enabled rules: an error is logged, a panic ends the process.
    unfoldable pub tick_rules : List PolicyRule → Engine F D → Result {0} Unit × Engine F D
    unfolding evaluate
    tick_rules [] e = (ok tt, e)
    tick_rules (rule ∷ rules) e =
        let (r, e1) = evaluate rule e in
        let rest = tick_rules rules e1 in elim r [ panic ↦ (panic, e1) | _ ↦ rest ]

    -- tick, where the query of the enabled rules may fail.
    unfoldable pub tick : Option (List PolicyRule) → Engine F D → Result {0} Unit × Engine F D
    unfolding tick_rules
    tick none e = (ok tt, e)
    tick (some enabled) e = tick_rules enabled e

    -- What Run does when its ticker fires: the first time it evaluates nothing.
    unfoldable pub on_tick :
        (first_tick : Bool)
        → Option (List PolicyRule)
        → Engine F D
        → Bool × Result {0} Unit × Engine F D
    unfolding tick
    on_tick true enabled e = (false, ok tt, e)
    on_tick false enabled e = let (r, e') = tick enabled e in (false, r, e')
