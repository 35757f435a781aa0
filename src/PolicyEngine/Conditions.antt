-- ===== src/PolicyEngine/Conditions.antt =====
-- internal/conditions/conditions.go: the values for which a condition is met.
use mathlib.Core.Path.{subst}
use manteion_go.Base.{◌≡◌, refl, sym, ap, ◌↔◌, true, ◌&&◌, ◌||◌, arith}
use manteion_go.Base.Int.{ℤ, pos, negsuc, ltz, lez, ◌<ℤ◌, ◌≤ℤ◌}
use manteion_go.Base.Float.{Float64, nan, pos_inf, neg_inf, finite}
use manteion_go.Model.Experiment.{Operator}
use manteion_go.PolicyEngine.{met}

-- A number compared with a threshold that may be infinite; nothing compares with NaN.
abbrev pub Compares : Operator → ℤ → Float64 → Type 0
Compares Operator.gt v (finite t) = t <ℤ v
Compares Operator.gt v neg_inf = Unit
Compares Operator.gte v (finite t) = t ≤ℤ v
Compares Operator.gte v neg_inf = Unit
Compares Operator.lt v (finite t) = v <ℤ t
Compares Operator.lt v pos_inf = Unit
Compares Operator.lte v (finite t) = v ≤ℤ t
Compares Operator.lte v pos_inf = Unit
Compares Operator.eq v (finite t) = v ≡ t
Compares _ v _ = ⊥

less : (a b : ℤ) → (ltz a b ≡ true) ↔ (a <ℤ b)
less a b = (λ h. ground arith, λ h. ground arith)

at_most : (a b : ℤ) → (lez a b ≡ true) ↔ (a ≤ℤ b)
at_most a b = (λ h. ground arith, λ h. ground arith)

equal : (a b : ℤ) → ((lez a b && lez b a) ≡ true) ↔ (a ≡ b)
equal (pos a) (pos b) = (λ h. ap pos (ground arith), λ h. let same : a ≡ b = cc in ground arith)
equal (pos a) (negsuc b) = (λ h. absurd (ground arith), λ h. cc)
equal (negsuc a) (pos b) = (λ h. absurd (ground arith), λ h. cc)
equal (negsuc a) (negsuc b) =
    (λ h. ap negsuc (ground arith), λ h. let same : a ≡ b = cc in ground arith)

at_most' : (a b : ℤ) → ((ltz a b || (lez a b && lez b a)) ≡ true) ↔ (a ≤ℤ b)
at_most' a b = (λ h. ground arith, λ h. ground arith)

compares : (v : ℤ) (o : Operator) (t : Float64) → (met (finite v) o t ≡ true) ↔ Compares o v t
unfolding met
compares v Operator.gt (finite t) = less t v
compares v Operator.gt nan = (λ h. cc, λ u. absurd u)
compares v Operator.gt pos_inf = (λ h. cc, λ u. absurd u)
compares v Operator.gt neg_inf = (λ h. tt, λ u. refl)
compares v Operator.gte (finite t) = at_most' t v
compares v Operator.gte nan = (λ h. cc, λ u. absurd u)
compares v Operator.gte pos_inf = (λ h. cc, λ u. absurd u)
compares v Operator.gte neg_inf = (λ h. tt, λ u. refl)
compares v Operator.lt (finite t) = less v t
compares v Operator.lt nan = (λ h. cc, λ u. absurd u)
compares v Operator.lt pos_inf = (λ h. tt, λ u. refl)
compares v Operator.lt neg_inf = (λ h. cc, λ u. absurd u)
compares v Operator.lte (finite t) = at_most' v t
compares v Operator.lte nan = (λ h. cc, λ u. absurd u)
compares v Operator.lte pos_inf = (λ h. tt, λ u. refl)
compares v Operator.lte neg_inf = (λ h. cc, λ u. absurd u)
compares v Operator.eq (finite t) = equal v t
compares v Operator.eq nan = (λ h. cc, λ u. absurd u)
compares v Operator.eq pos_inf = (λ h. cc, λ u. absurd u)
compares v Operator.eq neg_inf = (λ h. cc, λ u. absurd u)
compares v (Operator.other s) nan = (λ h. cc, λ u. absurd u)
compares v (Operator.other s) pos_inf = (λ h. cc, λ u. absurd u)
compares v (Operator.other s) neg_inf = (λ h. cc, λ u. absurd u)
compares v (Operator.other s) (finite t) = (λ h. cc, λ u. absurd u)

-- A condition is met exactly where the value is a finite number that compares to the threshold as the
-- operator says: never for NaN or an infinite value, nor for an unknown operator.
pub met_iff :
    (value : Float64) (operator : Operator) (threshold : Float64)
    → (met value operator threshold ≡ true)
      ↔ ((v : ℤ) × (value ≡ finite v) × Compares operator v threshold)
unfolding met
met_iff nan o t = (λ h. cc, λ (v, h, c). cc)
met_iff pos_inf o t = (λ h. cc, λ (v, h, c). cc)
met_iff neg_inf o t = (λ h. cc, λ (v, h, c). cc)
met_iff (finite v) o t = (
  λ h. (v, refl, (compares v o t).0 h),
  λ (w, e, c). (compares v o t).1 (subst (λ x. Compares o x t) (sym (finite_injective v w e)) c),
)
  where
    finite_injective : (v w : ℤ) → finite v ≡ finite w → v ≡ w
    finite_injective v w e = cc
