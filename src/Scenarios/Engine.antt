-- ===== src/Scenarios/Engine.antt =====
-- A policy rule that fires when the error rate passes a half, with a cooldown of ten nanoseconds.
use mathlib.Core.Path.{subst}
use manteion_go.Base.{
  ℕ, ◌*◌, ◌≡◌, refl, ◌↔◌, String, ◌==◌, true, Option, none, some, List, [], ◌∷◌, if◌then◌else◌,
}
use manteion_go.Base.Int.{ℤ, pos}
use manteion_go.Base.Float.{Float64, finite}
use manteion_go.Model.Experiment.{Operator}
use manteion_go.Model.Policy.{PolicyRule, ActionType}
use manteion_go.Base.Result.{ok}
use manteion_go.Model.Rule.{Rule, validate_action}
use manteion_go.Compile.Panics.{Returns}
use manteion_go.PolicyEngine.Panics.{IsSafe, tick-Returns}
use manteion_go.Scenarios.Rules.{sparse}
use manteion_go.Scenarios.Compiled.{sparse_valid}
use manteion_go.Scenarios.Control.{unreachable}
use manteion_go.PolicyEngine.{Surroundings, tick, Engine, Effect, met, claim, decide_rule, decide}
use manteion_go.PolicyEngine.Conditions.{Compares, met_iff}
use manteion_go.PolicyEngine.Cooldown.{Operation, decides}

met_iff_example :
    (met (finite (pos 3)) Operator.gte (finite (pos 2)) ≡ true)
    ↔ ((v : ℤ) × (finite (pos 3) ≡ finite v) × Compares Operator.gte v (finite (pos 2)))
met_iff_example = met_iff (finite (pos 3)) Operator.gte (finite (pos 2))

abbrev errors_high : PolicyRule
errors_high = record {
  id = "p1";
  name = "stop on errors";
  enabled = true;
  condition = record { metric = "errors"; operator = Operator.gt; threshold = finite (pos 5) };
  action = record {
    action_type = ActionType.attack;
    attack_target = none;
    cache_box_change = none;
    push_rules = some (record { service = "cart"; rule_ids = "r1" ∷ [] });
  };
  cooldown = pos 10;
  created_at = 0;
}

abbrev metrics : String → Option Float64
metrics name = if name == "errors" then some (finite (pos 9)) else none

-- Four nanoseconds pass between readings.
abbrev clock : ℕ → ℕ
clock k = 4 * k

abbrev idle : Engine String String
idle = record { last_fired_at = λ id. none; readings = 0; intents = λ s. none }

-- Three calls of Decide: the first one fires, the second and the third are too early.
unfoldable fired_thrice : List Effect × Engine String String
fired_thrice = decide clock (errors_high ∷ errors_high ∷ errors_high ∷ []) metrics idle

fired_once :
    fired_thrice.0
    ≡ record { action_type = ActionType.attack; service = "cart"; rule_ids = [] } ∷ []
unfolding fired_thrice decide decide_rule claim met
fired_once = refl

abbrev rounds : List (Operation String String String)
rounds = decides (errors_high ∷ []) metrics ∷ decides (errors_high ∷ []) metrics ∷ []

-- A store whose only rule freezes a service, and no instances.
abbrev around : Surroundings String String String
around = record {
  query_instant = λ metric. ok (finite (pos 9));
  get_rule = λ id. ok sparse;
  spec_resolver = λ id. none;
  composition_resolver = λ id. none;
  control = unreachable;
}

around-IsSafe : IsSafe around
around-IsSafe = (
  λ metric. tt,
  λ id. tt,
  λ id r h. subst (λ x. validate_action x.action ≡ none) (found r h) sparse_valid,
  λ service. tt,
)
  where
    found : (r : Rule) → ok sparse ≡ ok r → sparse ≡ r
    found r h = cc

abbrev pushes_rules : PolicyRule
pushes_rules = record errors_high {
  action = record errors_high.action { action_type = ActionType.push_rules };
}

tick-Returns_example : Returns (tick clock around (some (pushes_rules ∷ [])) idle).0
tick-Returns_example = tick-Returns clock around around-IsSafe (some (pushes_rules ∷ [])) idle
