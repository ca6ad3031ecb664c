-- ===== src/Prelude/Bits.antt =====
-- Go's `&` and `|` on words, in plain arithmetic.
use Prim.Native.Nat.{
  ℕ, zero, suc, ◌+◌, ◌*◌, ◌/◌, ◌%◌, ◌^◌, ◌≤◌, ◌<◌, min, max, bit_and, bit_or, digits,
  bit_and-bitwise, bit_or-bitwise,
}
use mathlib.Core.Path.{◌≡◌, refl, ap}
use mathlib.Core.Bool.{Bool, true, false}
use mathlib.Core.Logic.{ite}
use native.Mathlib.Decide.{ℕ_discrete}
use native.Mathlib.Nat.{pow-suc}
use native.Mathlib.Omega.{arith}

-- A table over the bytes decides an equation of two functions.
module _ (f g : ℕ → ℕ) where
  same_below : ℕ → Bool
  unfolding ℕ_discrete
  same_below zero = true
  same_below (suc n) = ite (ℕ_discrete (f n) (g n)) (same_below n) false

  same_below→eq : (n : ℕ) → same_below n ≡ true → (i : ℕ) → i < n → f i ≡ g i
  unfolding same_below
  same_below→eq zero e i h = absurd (omega arith)
  same_below→eq (suc n) e i h = ground (arith, same_below→eq n (ground arith) i)

pub and_0x80 : (b : ℕ) → b < 256 → bit_and b 0x80 ≡ b / 128 * 128
unfolding same_below
and_0x80 = same_below→eq _ _ 256 refl

pub and_0x40 : (b : ℕ) → b < 256 → bit_and b 0x40 ≡ b / 64 % 2 * 64
unfolding same_below
and_0x40 = same_below→eq _ _ 256 refl

pub or_0x80 : (b : ℕ) → b < 128 → bit_or b 0x80 ≡ b + 128
unfolding same_below
or_0x80 = same_below→eq _ _ 128 refl

-- Any count of digits from the first number on gives the same word, for either operation.
module _ (z : ℕ → ℕ) (f : ℕ → ℕ → ℕ) where
  digits_enough : (m n a b : ℕ) → a ≤ m → a ≤ n → digits z f m a b ≡ digits z f n a b
  digits_enough zero zero zero b p q = refl
  digits_enough zero (suc n) zero b p q = refl
  digits_enough (suc m) zero zero b p q = refl
  digits_enough (suc m) (suc n) zero b p q = refl
  digits_enough zero n (suc a) b p q = absurd (omega arith)
  digits_enough (suc m) zero (suc a) b p q = absurd (omega arith)
  digits_enough (suc m) (suc n) (suc a) b p q =
      ap (λ t. t * 2 + f (suc a % 2) (b % 2))
        (digits_enough m n (suc a / 2) (b / 2) (omega arith) (omega arith))

  digit_first :
      (a b : ℕ)
      → 0 < a
      → digits z f a a b ≡ digits z f (a / 2) (a / 2) (b / 2) * 2 + f (a % 2) (b % 2)
  digit_first zero b h = absurd (omega arith)
  digit_first (suc a) b h =
      ap (λ t. t * 2 + f (suc a % 2) (b % 2))
        (digits_enough a (suc a / 2) (suc a / 2) (b / 2) (omega arith) (omega arith))

pub zero-bit_or : (b : ℕ) → bit_or 0 b ≡ b
zero-bit_or b = bit_or-bitwise 0 b

zero-bit_and : (b : ℕ) → bit_and 0 b ≡ 0
zero-bit_and b = bit_and-bitwise 0 b

or_digit : (a b : ℕ) → bit_or a b ≡ bit_or (a / 2) (b / 2) * 2 + max (a % 2) (b % 2)
or_digit zero b = omega (arith, zero-bit_or b, zero-bit_or (b / 2))
or_digit (suc a) b = omega (
  arith,
  bit_or-bitwise (suc a) b,
  bit_or-bitwise (suc a / 2) (b / 2),
  digit_first (λ b. b) max (suc a) b (omega arith),
)

and_digit : (a b : ℕ) → bit_and a b ≡ bit_and (a / 2) (b / 2) * 2 + min (a % 2) (b % 2)
and_digit zero b = omega (arith, zero-bit_and b, zero-bit_and (b / 2))
and_digit (suc a) b = omega (
  arith,
  bit_and-bitwise (suc a) b,
  bit_and-bitwise (suc a / 2) (b / 2),
  digit_first (λ b. 0) min (suc a) b (omega arith),
)

or_even : (a b : ℕ) → bit_or a (b * 2) ≡ bit_or (a / 2) b * 2 + a % 2
or_even a b = omega (arith, or_digit a (b * 2), ap (bit_or (a / 2)) (half_even b))
  where
    half_even : (b : ℕ) → b * 2 / 2 ≡ b
    half_even b = omega arith

upper_double : (s g : ℕ) → g * 2 ^ suc s ≡ g * 2 ^ s * 2
upper_double s g = omega (arith, ap (λ (t : ℕ). g * t) (pow-suc 2 s))

-- Bits below `s` and bits from `s` on do not meet, so `|` adds.
pub or_apart : (s a g : ℕ) → a < 2 ^ s → bit_or a (g * 2 ^ s) ≡ a + g * 2 ^ s
or_apart zero zero g h = omega (arith, zero-bit_or (g * 1))
or_apart zero (suc a) g h = absurd (omega arith)
or_apart (suc s) a g h = omega (
  arith,
  upper_double s g,
  or_even a (g * 2 ^ s),
  ap (bit_or a) (upper_double s g),
  or_apart s (a / 2) g (omega (arith, pow-suc 2 s)),
)

and-zero_fuel : (n a : ℕ) → a ≤ n → bit_and a 0 ≡ 0
and-zero_fuel n zero h = zero-bit_and 0
and-zero_fuel zero (suc a) h = absurd (omega arith)
and-zero_fuel (suc n) (suc a) h =
    omega (arith, and_digit (suc a) 0, and-zero_fuel n (suc a / 2) (omega arith))

and_odd : (a m : ℕ) → bit_and a (m * 2 + 1) ≡ bit_and (a / 2) m * 2 + a % 2
and_odd a m = omega (arith, and_digit a (m * 2 + 1), ap (bit_and (a / 2)) (half_odd m))
  where
    half_odd : (m : ℕ) → (m * 2 + 1) / 2 ≡ m
    half_odd m = omega arith

and_0x01 : (a : ℕ) → bit_and a 1 ≡ a % 2
and_0x01 a = omega (arith, and_digit a 1, and-zero_fuel (a / 2) (a / 2) (omega arith))

and_0x07 : (a : ℕ) → bit_and a 7 ≡ a % 8
and_0x07 a = omega (arith, and_odd a 3, and_odd (a / 2) 1, and_0x01 (a / 2 / 2))

pub and_0x7f : (a : ℕ) → bit_and a 0x7f ≡ a % 128
and_0x7f a = omega (
  arith,
  and_odd a 63,
  and_odd (a / 2) 31,
  and_odd (a / 2 / 2) 15,
  and_odd (a / 2 / 2 / 2) 7,
  and_0x07 (a / 2 / 2 / 2 / 2),
)
