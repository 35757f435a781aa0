-- ===== src/Base/Int32.antt =====
-- Go's conversion `int32(n)` of an `int`: the low 32 bits, read in two's complement.
use Prim.Native.Nat.{ℕ, ◌-◌, ◌^◌, ◌%◌, ◌<◌}
use mathlib.Core.Path.{◌≡◌}
use native.Mathlib.Omega.{arith}
use manteion_go.Base.Tests.{ltb, if◌then◌else◌}
use manteion_go.Base.Int.{ℤ, pos, negsuc}

-- The value of 32 bits whose unsigned value is `u`.
abbrev pub signed : ℕ → ℤ
signed u = if ltb u (2 ^ 31) then pos u else negsuc (2 ^ 32 - 1 - u)

-- The bits of -(n + 1) are those of n, inverted.
abbrev pub to_int32 : ℤ → ℤ
to_int32 (pos n) = signed (n % 2 ^ 32)
to_int32 (negsuc n) = signed (2 ^ 32 - 1 - n % 2 ^ 32)

abbrev pub FitsInt32 : ℤ → Type 0
FitsInt32 (pos n) = n < 2 ^ 31
FitsInt32 (negsuc n) = n < 2 ^ 31

-- A value of 32 bits is kept.
pub to_int32_same : (n : ℤ) → FitsInt32 n → to_int32 n ≡ n
to_int32_same (pos n) h = ground arith
to_int32_same (negsuc n) h = ground arith
