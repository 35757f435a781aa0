-- ===== src/PolicyEngine/Cooldown.antt =====
-- internal/policy/engine.go: how far apart a rule fires, over any ticks and calls of Decide.
use manteion_go.Base.{ℕ, ◌+◌, ◌≤◌, ◌≡◌, String, Bool, Option, some, List, [], ◌∷◌}
use manteion_go.Base.Int.{ltz}
use manteion_go.Base.Float.{Float64}
use manteion_go.Base.Update.{update}
use manteion_go.Model.Policy.{PolicyRule}
use manteion_go.PolicyEngine.{Engine, Surroundings, since, decide, tick}

abbrev pub IsMonotone : (ℕ → ℕ) → Type 0
IsMonotone clock = (k : ℕ) → clock k ≤ clock (k + 1)

-- A tick of the engine's loop, and a call of Decide.
pub data Operation (F D Entry : Type 0) : Type 0 where
  ticks : Surroundings F D Entry → Option (List PolicyRule) → Operation F D Entry
  decides : List PolicyRule → (String → Option Float64) → Operation F D Entry

module _ {F D : Type 0} (clock : ℕ → ℕ) where
  -- The cooldown has not passed.
  abbrev waits : PolicyRule → Engine F D → Bool
  waits rule e = ltz (since (clock e.readings) (e.last_fired_at rule.id)) rule.cooldown

  abbrev entered : PolicyRule → Engine F D → Engine F D
  entered rule e = record e {
    last_fired_at = update e.last_fired_at rule.id (some (clock (e.readings + 1)));
    readings = e.readings + 2;
  }

  -- A rule with this ID fired at `t0`, or later and at most now.
  abbrev Fired : String → ℕ → Engine F D → Type 0
  Fired id t0 e = (t : ℕ) × (e.last_fired_at id ≡ some t) × (t0 ≤ t) × (t ≤ clock e.readings)

  abbrev pub perform_all : {Entry : Type 0} → List (Operation F D Entry) → Engine F D → Engine F D
  perform_all [] e = e
  perform_all (ticks here enabled ∷ os) e = perform_all os (tick clock here enabled e).1
  perform_all (decides rules metrics ∷ os) e = perform_all os (decide clock rules metrics e).1
