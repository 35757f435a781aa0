-- ===== src/PolicyEngine/Panics.antt =====
-- internal/policy/engine.go and internal/ruleconv/ruleconv.go: ticks over the rules of the store.
use mathlib.Core.Path.{subst}
use manteion_go.Base.{
  ℕ, ◌≡◌, inl, inr, String, Option, none, some, List, [], ◌∷◌, All, Bool-cases, is_nil, Error, wrap,
}
use manteion_go.Base.Int.{ℤ}
use manteion_go.Base.Result.{Result, ok, err, panic, wrapped, Result-cases, chain_inversion}
use manteion_go.Model.Fault.{FaultSpec, FaultComposition}
use manteion_go.Model.Rule.{Rule, validate_action}
use manteion_go.Model.Policy.{PolicyRule, PushRulesAction, ActionType}
use manteion_go.Compile.{Lookup, func_resolver, CompiledRule, compile_rules}
use manteion_go.Compile.Panics.{Returns, >>=-Returns, wrapped-Returns, compile_rule-Returns}
use manteion_go.Control.{CallOpts, select_targets, resolve_targets, call_service, push_rules}
use manteion_go.PolicyEngine.{
  Engine, Surroundings, push, decide_rule, get_rules, load_compiled_rules, do_push_rules,
  execute_by_type, execute_action, evaluate, tick_rules, tick,
}

abbrev IsValidRule : Rule → Type 0
IsValidRule r = validate_action r.action ≡ none

wrapped-eq-ok :
    {A : Type 0} (f : Error → Error) (m : Result A) {a : A} → wrapped f m ≡ ok a → m ≡ ok a
wrapped-eq-ok f (ok a) h = h
wrapped-eq-ok f (err e) h = cc
wrapped-eq-ok f panic h = cc

ok_injective : {A : Type 0} {a b : A} → ok a ≡ ok b → a ≡ b
ok_injective h = cc

compile_rules-Returns :
    (specs : String → Lookup FaultSpec) (comps : Option (String → Lookup FaultComposition))
    (rs : List Rule)
    → All IsValidRule rs
    → Returns (compile_rules specs comps rs)
unfolding compile_rules
compile_rules-Returns specs comps [] h = tt
compile_rules-Returns specs comps (r ∷ rs) (h, hs) =
    >>=-Returns _ _ (compile_rule-Returns specs comps r h)
      (λ c. >>=-Returns _ _ (compile_rules-Returns specs comps rs hs) (λ cs. tt))

-- What a tick finds outside does not panic, and the store has rules with valid actions only.
abbrev pub IsSafe : {F D Entry : Type 0} → Surroundings F D Entry → Type 0
IsSafe here =
    ((metric : String) → Returns (here.query_instant metric))
    × ((id : String) → Returns (here.get_rule id))
    × ((id : String) (r : Rule) → here.get_rule id ≡ ok r → IsValidRule r)
    × ((service : String) → Returns (here.control.for_service service))

module _ {F D : Type 0} (clock : ℕ → ℕ) {Entry : Type 0} (here : Surroundings F D Entry)
    (safe : IsSafe here) where
  get_rules-Returns :
      (ids : List String)
      → Returns (get_rules clock here ids)
        × ((rs : List Rule) → get_rules clock here ids ≡ ok rs → All IsValidRule rs)
  unfolding get_rules
  get_rules-Returns [] = (tt, λ rs h. subst (All IsValidRule) (ok_injective h) tt)
  get_rules-Returns (id ∷ ids) =
      let (rest, valid) = get_rules-Returns ids in
      let f : Error → Error = wrap "get rule %q: %w" in
      (
        >>=-Returns _ _ (wrapped-Returns f (here.get_rule id) (safe.1 id))
            (λ r. >>=-Returns _ _ rest (λ rs. tt)),
        λ rs h.
            let (r, first, h1) = chain_inversion (wrapped f (here.get_rule id)) _ h in
            let (rs', others, last) = chain_inversion (get_rules clock here ids) _ h1 in
            subst (All IsValidRule) (ok_injective last)
              (safe.2 id r (wrapped-eq-ok f (here.get_rule id) first), valid rs' others),
      )

  load_compiled_rules-Returns : (ids : List String) → Returns (load_compiled_rules clock here ids)
  unfolding load_compiled_rules
  load_compiled_rules-Returns ids =
      let (returns, valid) = get_rules-Returns ids in
      let compile : List Rule → Result (List CompiledRule) =
        compile_rules (func_resolver here.spec_resolver)
          (some (func_resolver here.composition_resolver)) in
      let f : Error → Error = wrap "compile rules: %w" in
      elim (Result-cases (get_rules clock here ids)) [
        | inl (rs, h) ↦
            rw (h, load_compiled_rules)
              (wrapped-Returns f (compile rs) (
                compile_rules-Returns (func_resolver here.spec_resolver)
                  (some (func_resolver here.composition_resolver)) rs (valid rs h)))
        | inr (inl (e, h)) ↦ rw (h, load_compiled_rules) tt
        | inr (inr h) ↦ let returns' = rw (h) at returns in absurd returns'
      ]

  call_service-Returns :
      (service : String) (co : CallOpts) (op : ℤ → String → Option Error)
      → Returns (call_service here.control service co op)
  unfolding call_service resolve_targets
  call_service-Returns service co op =
      >>=-Returns _ _
        (>>=-Returns _ _
          (wrapped-Returns (wrap "resolve service %q: %w") (here.control.for_service service)
            (safe.3 service))
          (λ instances. elim (Bool-cases (is_nil (select_targets co.filter instances))) [
            | inl empty ↦ rw (empty) tt
            | inr some_left ↦ rw (some_left) tt
          ]))
        (λ targets. tt)

  push-Returns :
      (service : String) (rules : List CompiledRule) (e : Engine F D)
      → Returns (push clock here service rules e).0
  unfolding push_rules
  push-Returns service rules e =
      let op : ℤ → String → Option Error =
        λ timeout address. here.control.post_rules timeout address rules in
      >>=-Returns {B = Unit {0}} (call_service here.control service here.control.defaults op)
        (λ fanned. ok tt) (call_service-Returns service here.control.defaults op) (λ fanned. tt)

  do_push_rules-Returns :
      (a : PushRulesAction) (e : Engine F D) → Returns (do_push_rules clock here a e).0
  unfolding do_push_rules
  do_push_rules-Returns a e =
      let returns = load_compiled_rules-Returns a.rule_ids in
      elim (Result-cases (load_compiled_rules clock here a.rule_ids)) [
        | inl (cs, h) ↦ rw (h, do_push_rules) (push-Returns a.service cs e)
        | inr (inl (x, h)) ↦ rw (h, do_push_rules) tt
        | inr (inr h) ↦ let returns' = rw (h) at returns in absurd returns'
      ]

  execute_by_type-Returns :
      (rule : PolicyRule) (e : Engine F D) (t : ActionType) (p : Option PushRulesAction)
      → Returns (execute_by_type clock here rule e t p).0
  unfolding execute_by_type
  execute_by_type-Returns rule e ActionType.push_rules none = tt
  execute_by_type-Returns rule e ActionType.push_rules (some a) = do_push_rules-Returns a e
  execute_by_type-Returns rule e ActionType.clear_rules none = tt
  execute_by_type-Returns rule e ActionType.clear_rules (some a) = push-Returns a.service [] e
  execute_by_type-Returns rule e ActionType.attack p = tt
  execute_by_type-Returns rule e ActionType.cachebox_mode_change p = tt
  execute_by_type-Returns rule e (ActionType.other s) p = tt

  evaluate-Returns : (rule : PolicyRule) (e : Engine F D) → Returns (evaluate clock here rule e).0
  unfolding evaluate execute_action
  evaluate-Returns rule e =
      let asked = safe.0 rule.condition.metric in
      elim (Result-cases (here.query_instant rule.condition.metric)) [
        | inr (inl (x, h)) ↦ rw (h, evaluate) tt
        | inr (inr h) ↦ let asked' = rw (h) at asked in absurd asked'
        | inl (v, h) ↦ elim (Bool-cases (decide_rule clock rule (some v) e).0) [
          | inl b ↦
              rw (h, evaluate, b)
                (execute_by_type-Returns rule (decide_rule clock rule (some v) e).1
                  rule.action.action_type rule.action.push_rules)
          | inr b ↦ rw (h, evaluate, b) tt
        ]
      ]

  tick_rules-Returns :
      (rules : List PolicyRule) (e : Engine F D) → Returns (tick_rules clock here rules e).0
  unfolding tick_rules
  tick_rules-Returns [] e = tt
  tick_rules-Returns (rule ∷ rules) e =
      let first = evaluate-Returns rule e in
      let rest = tick_rules-Returns rules (evaluate clock here rule e).1 in
      elim (Result-cases (evaluate clock here rule e).0) [
        | inl (u, h) ↦ rw (h, tick_rules) rest
        | inr (inl (x, h)) ↦ rw (h, tick_rules) rest
        | inr (inr h) ↦ let first' = rw (h) at first in absurd first'
      ]

  -- A tick of the engine, with whatever rules are enabled, returns: compiling the rules that it
  -- pushes dereferences no nil, if the actions of the rules in the store are valid and the calls
  -- outside return.
  pub tick-Returns :
      (enabled : Option (List PolicyRule)) (e : Engine F D) → Returns (tick clock here enabled e).0
  unfolding tick
  tick-Returns none e = tt
  tick-Returns (some rules) e = tick_rules-Returns rules e
