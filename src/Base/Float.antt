-- ===== src/Base/Float.antt =====
-- Go's float64 as its 64-bit pattern. The comparisons are defined on the pattern; the arithmetic,
-- which rounds, is a parameter of the definitions that use it.
use Prim.Native.Nat.{ℕ, ◌+◌, ◌-◌, ◌*◌, ◌%◌, ◌^◌}
use mathlib.Core.Bool.{Bool, ◌&&◌, not}
use goipay.Base.Tests.{ltb, leb, if◌then◌else◌}

abbrev pub Float64 : Type 0
Float64 = ℕ

-- The exponent and the fraction, without the sign bit.
abbrev pub magnitude : Float64 → ℕ
magnitude x = x % 2 ^ 63

abbrev pub infinity : ℕ
infinity = 2047 * 2 ^ 52

abbrev pub is_nan : Float64 → Bool
is_nan x = ltb infinity (magnitude x)

-- A number that grows with the value: zero of either sign is 2 ^ 63.
abbrev pub rank : Float64 → ℕ
rank x = if ltb x (2 ^ 63) then 2 ^ 63 + magnitude x else 2 ^ 63 - magnitude x

-- `a <= b` and `a < b`: false where either is not a number.
unfoldable pub le_float : Float64 → Float64 → Bool
le_float a b = not (is_nan a) && not (is_nan b) && leb (rank a) (rank b)

unfoldable pub lt_float : Float64 → Float64 → Bool
lt_float a b = not (is_nan a) && not (is_nan b) && ltb (rank a) (rank b)

abbrev pub float_zero : Float64
float_zero = 0

-- The rounding operations that the program uses: addition, division by 1e18, and the float64
-- nearest to the quotient of two integers.
pub record FloatOps : Type 0 where
  pub add : Float64 → Float64 → Float64
  pub of_u64 : ℕ → Float64
  pub div_1e18 : Float64 → Float64
  pub quo : ℕ → ℕ → Float64
  pub of_piconero : ℕ → Float64
