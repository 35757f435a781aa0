-- ===== src/Base/Float.antt =====
-- Go's `float64`, of which the program only compares values.
use mathlib.Core.Bool.{Bool, true, false, ◌&&◌, ◌||◌}
use manteion_go.Base.Int.{ℤ, pos, ltz, lez}
use Prim.Native.Nat.{◌^◌}

-- Every finite float64 is an integer multiple of 2^-1074, the least positive one: `finite k` stands
-- for k * 2^-1074. The two zeros are one value here, as they are for every comparison.
pub data Float64 : Type 0 where
  nan pos_inf neg_inf : Float64
  finite : ℤ → Float64

abbrev pub is_nan : Float64 → Bool
is_nan nan = true
is_nan _ = false

-- `math.IsInf(x, 0)`
abbrev pub is_inf : Float64 → Bool
is_inf pos_inf = true
is_inf neg_inf = true
is_inf _ = false

-- `x < y`, false where one of the two is NaN.
abbrev pub lt_float : Float64 → Float64 → Bool
lt_float (finite a) (finite b) = ltz a b
lt_float (finite a) pos_inf = true
lt_float neg_inf (finite b) = true
lt_float neg_inf pos_inf = true
lt_float _ _ = false

-- `x == y`, false where one of the two is NaN.
abbrev pub eq_float : Float64 → Float64 → Bool
eq_float (finite a) (finite b) = lez a b && lez b a
eq_float pos_inf pos_inf = true
eq_float neg_inf neg_inf = true
eq_float _ _ = false

abbrev pub le_float : Float64 → Float64 → Bool
le_float x y = lt_float x y || eq_float x y

abbrev pub zero_float : Float64
zero_float = finite (pos 0)

abbrev pub one_float : Float64
one_float = finite (pos (2 ^ 1074))
