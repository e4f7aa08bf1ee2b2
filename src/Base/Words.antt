-- ===== src/Base/Words.antt =====
-- Unsigned machine words as numbers: casts and sums wrap, shifts are `*` and `/` by a power of 2.
-- A signed integer is the number of its two's complement bit pattern.
use fpga_postgresql_hash_joi.Base.Tests.{ltb, if◌then◌else◌}
use Prim.Native.Nat.{ℕ, ◌+◌, ◌-◌, ◌%◌, ◌^◌}
use mathlib.Core.Path.{◌≡◌}
use native.Mathlib.Omega.{arith}

abbrev pub u8 : ℕ → ℕ
u8 x = x % 2 ^ 8

abbrev pub u16 : ℕ → ℕ
u16 x = x % 2 ^ 16

abbrev pub u32 : ℕ → ℕ
u32 x = x % 2 ^ 32

abbrev pub u64 : ℕ → ℕ
u64 x = x % 2 ^ 64

abbrev pub add16 : ℕ → ℕ → ℕ
add16 a b = u16 (a + b)

abbrev pub add32 : ℕ → ℕ → ℕ
add32 a b = u32 (a + b)

abbrev pub add64 : ℕ → ℕ → ℕ
add64 a b = u64 (a + b)

-- `a - b` for words below 2 ^ 32.
abbrev pub sub32 : ℕ → ℕ → ℕ
sub32 a b = u32 (a + 2 ^ 32 - b)

-- `(int64_t)(int32_t)u`: the bit pattern of the 64-bit integer.
abbrev pub sign_extend : ℕ → ℕ
sign_extend u = if ltb u (2 ^ 31) then u else u + (2 ^ 64 - 2 ^ 32)

pub u32-u32 : (x : ℕ) → u32 (u32 x) ≡ u32 x
u32-u32 x = omega arith
