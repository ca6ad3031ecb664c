-- ===== src/Prelude/Int.antt =====
-- Go's signed integers over the native numbers, and their conversions to and from unsigned words.
use Prim.Native.Nat.{ℕ, ◌+◌, ◌-◌, ◌%◌, ◌^◌, ◌<◌}
use mathlib.Core.Path.{◌≡◌}
use native.Mathlib.Omega.{arith}
use fear_online_server.Prelude.Tests.{ltb, if◌then◌else◌}

-- `negsuc n` is -(n + 1).
pub data ℤ : Type 0 where
  pos : ℕ → ℤ
  negsuc : ℕ → ℤ

-- The conversion `uint32(v)` of an int: its value mod 2^32.
abbrev pub to_u32 : ℤ → ℕ
to_u32 (pos n) = n % 2 ^ 32
to_u32 (negsuc n) = 2 ^ 32 - 1 - n % 2 ^ 32

-- The value of an int32 whose bits are those of `x`.
abbrev pub from_bits32 : ℕ → ℤ
from_bits32 x = if ltb x (2 ^ 31) then pos x else negsuc (2 ^ 32 - 1 - x)

abbrev pub IsInt32 : ℤ → Type 0
IsInt32 (pos n) = n < 2 ^ 31
IsInt32 (negsuc n) = n < 2 ^ 31

pub to_u32_bound : (v : ℤ) → to_u32 v < 2 ^ 32
to_u32_bound (pos n) = omega arith
to_u32_bound (negsuc n) = omega arith

pub from_bits32-to_u32 : (v : ℤ) → IsInt32 v → from_bits32 (to_u32 v) ≡ v
from_bits32-to_u32 (pos n) h = ground arith
from_bits32-to_u32 (negsuc n) h = ground arith

-- The bits of an int (64 of them), and the int with given bits.
abbrev pub to_bits64 : ℤ → ℕ
to_bits64 (pos n) = n % 2 ^ 64
to_bits64 (negsuc n) = 2 ^ 64 - 1 - n % 2 ^ 64

abbrev pub from_bits64 : ℕ → ℤ
from_bits64 x = if ltb x (2 ^ 63) then pos x else negsuc (2 ^ 64 - 1 - x)

-- Addition of ints, which wraps.
abbrev pub add_int : ℤ → ℤ → ℤ
add_int a b = from_bits64 ((to_bits64 a + to_bits64 b) % 2 ^ 64)
