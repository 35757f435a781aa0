-- ===== src/Base/Update.antt =====
-- Go maps with text keys, as functions: a missing key reads as the default that the function gives.
use Prim.Native.String.{String}
use mathlib.Core.Path.{◌≡◌}
use mathlib.Core.Logic.{◌≢◌}
use text.Mathlib.Text.{◌==◌}
use text.Mathlib.TextPositions.{eq_refl}
use manteion_go.Base.Tests.{if◌then◌else◌, text_ne}

module _ {ℓ} {V : Type ℓ} where
  -- `m[k] = v`
  abbrev pub update : (String → V) → String → V → String → V
  update m k v j = if k == j then v else m j

  pub update_self : (m : String → V) (k : String) (v : V) → update m k v k ≡ v
  update_self m k v = rw (eq_refl k)

  pub update_ne : (m : String → V) (k j : String) (v : V) → k ≢ j → update m k v j ≡ m j
  update_ne m k j v h = rw (text_ne k j h)
