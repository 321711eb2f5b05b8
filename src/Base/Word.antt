-- ===== src/Base/Word.antt =====
-- Go's fixed-width integers as natural numbers below the modulus. A signed integer is its
-- two's-complement bit pattern; the conversions between widths are written out.
use Prim.Native.Nat.{ℕ, ◌+◌, ◌-◌, ◌*◌, ◌%◌, ◌^◌}
use mathlib.Core.Bool.{Bool}
use goipay.Base.Tests.{ltb, if◌then◌else◌}

abbrev pub u64_mod : ℕ
u64_mod = 2 ^ 64

abbrev pub u32_mod : ℕ
u32_mod = 2 ^ 32

-- `int16(x)` of an unsigned integer: the low sixteen bits.
abbrev pub to_i16 : ℕ → ℕ
to_i16 x = x % 2 ^ 16

-- `uint64(x)` and `uint32(x)` of an `int16`: the sign bit is copied upwards.
abbrev pub i16_to_u64 : ℕ → ℕ
i16_to_u64 x = if ltb x (2 ^ 15) then x else x + (2 ^ 64 - 2 ^ 16)

abbrev pub i16_to_u32 : ℕ → ℕ
i16_to_u32 x = if ltb x (2 ^ 15) then x else x + (2 ^ 32 - 2 ^ 16)

-- `a - b` on `uint64`.
abbrev pub sub_u64 : ℕ → ℕ → ℕ
sub_u64 a b = (a + 2 ^ 64 - b) % 2 ^ 64

-- `a * b` on `int64`, on bit patterns.
abbrev pub mul_i64 : ℕ → ℕ → ℕ
mul_i64 a b = (a * b) % 2 ^ 64

-- `a < b` on `int64`: flipping the sign bit turns the signed order into the unsigned one.
abbrev pub lt_i64 : ℕ → ℕ → Bool
lt_i64 a b = ltb ((a + 2 ^ 63) % 2 ^ 64) ((b + 2 ^ 63) % 2 ^ 64)
