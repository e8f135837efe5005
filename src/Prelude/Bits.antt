-- ===== src/Prelude/Bits.antt =====
-- Bits of words: a single bit by shifting, and what `|` does to the lowest two.
use Prim.Native.Nat.{
  ℕ, zero, suc, ◌+◌, ◌*◌, ◌/◌, ◌%◌, ◌^◌, ◌≤◌, ◌<◌, max, bit_or, digits, bit_or-bitwise,
}
use mathlib.Core.Path.{◌≡◌, refl}
use native.Mathlib.Omega.{arith}

-- `(x >> i) & 1`, that is, whether `x & (1 << i)` is not zero.
abbrev pub bit : ℕ → ℕ → ℕ
bit x i = x / 2 ^ i % 2

or_digits_fuel :
    (n m a b : ℕ) → a ≤ n → a ≤ m → digits (λ c. c) max n a b ≡ digits (λ c. c) max m a b
or_digits_fuel zero zero a b p q = refl
or_digits_fuel zero (suc m) zero b p q = refl
or_digits_fuel zero (suc m) (suc a) b p q = absurd (omega arith)
or_digits_fuel (suc n) zero zero b p q = refl
or_digits_fuel (suc n) zero (suc a) b p q = absurd (omega arith)
or_digits_fuel (suc n) (suc m) zero b p q = refl
or_digits_fuel (suc n) (suc m) (suc a) b p q =
    omega (arith, or_digits_fuel n m (suc a / 2) (b / 2) (omega arith) (omega arith))

pub zero-bit_or : (b : ℕ) → bit_or 0 b ≡ b
zero-bit_or b = bit_or-bitwise 0 b

-- `|` by its lowest digit.
pub bit_or_step : (a b : ℕ) → bit_or a b ≡ bit_or (a / 2) (b / 2) * 2 + max (a % 2) (b % 2)
bit_or_step zero b = omega (arith, zero-bit_or b, zero-bit_or (b / 2))
bit_or_step (suc a) b = omega (
  arith,
  bit_or-bitwise (suc a) b,
  bit_or-bitwise (suc a / 2) (b / 2),
  or_digits_fuel a (suc a / 2) (suc a / 2) (b / 2) (omega arith) (omega arith),
)

bit_or-zero_fuel : (n a : ℕ) → a ≤ n → bit_or a 0 ≡ a
bit_or-zero_fuel n zero h = refl
bit_or-zero_fuel zero (suc a) h = absurd (omega arith)
bit_or-zero_fuel (suc n) (suc a) h =
    omega (arith, bit_or_step (suc a) 0, bit_or-zero_fuel n (suc a / 2) (omega arith))

pub bit_or-zero : (a : ℕ) → bit_or a 0 ≡ a
bit_or-zero a = bit_or-zero_fuel a a (omega arith)

bit_or_absent : (a m : ℕ) → m ≡ 0 → bit_or a m ≡ a
bit_or_absent a m h = rw h (bit_or-zero a)

-- The second word has the lowest two bits alone.
pub bit_or_low :
    (a m : ℕ)
    → m < 4
    → (bit_or a m / 4 ≡ a / 4)
      × (bit_or a m % 2 ≡ max (a % 2) (m % 2))
      × (bit_or a m / 2 % 2 ≡ max (a / 2 % 2) (m / 2 % 2))
bit_or_low a m h = omega (
  arith,
  bit_or_step a m,
  bit_or_step (a / 2) (m / 2),
  bit_or_absent (a / 2 / 2) (m / 2 / 2) (omega arith),
)
