-- ===== src/Base/Bits.antt =====
-- Laws of `|` and `&` for disjoint fields and masks, from the recursion over binary digits.
use Prim.Native.Nat.{
  ℕ, zero, suc, ◌+◌, ◌*◌, ◌/◌, ◌%◌, ◌≤◌, ◌<◌, min, max, bit_and, bit_or, digits, bit_and-bitwise,
  bit_or-bitwise,
}
use mathlib.Core.Path.{◌≡◌, refl, ap}
use native.Mathlib.Nat.{le_refl}
use native.Mathlib.Omega.{arith}

module _ (z : ℕ → ℕ) (f : ℕ → ℕ → ℕ) where
  -- Any two amounts of fuel that suffice give the same digits.
  digits_fuel : (n m a b : ℕ) → a ≤ n → a ≤ m → digits z f n a b ≡ digits z f m a b
  digits_fuel zero zero zero b p q = refl
  digits_fuel zero (suc m) zero b p q = refl
  digits_fuel (suc n) zero zero b p q = refl
  digits_fuel (suc n) (suc m) zero b p q = refl
  digits_fuel zero m (suc a) b p q = absurd (omega arith)
  digits_fuel (suc n) zero (suc a) b p q = absurd (omega arith)
  digits_fuel (suc n) (suc m) (suc a) b p q =
      omega (arith, digits_fuel n m (suc a / 2) (b / 2) (omega arith) (omega arith))

  -- One digit at a time.
  digits_step :
      (a b : ℕ)
      → digits z f (suc a) (suc a) b
        ≡ digits z f (suc a / 2) (suc a / 2) (b / 2) * 2 + f (suc a % 2) (b % 2)
  digits_step a b =
      omega (arith, digits_fuel a (suc a / 2) (suc a / 2) (b / 2) (omega arith) (omega arith))

bit_or_step : (a b : ℕ) → bit_or a b ≡ bit_or (a / 2) (b / 2) * 2 + max (a % 2) (b % 2)
bit_or_step zero b = omega (arith, bit_or-bitwise 0 b, bit_or-bitwise 0 (b / 2))
bit_or_step (suc a) b = omega (
  arith,
  bit_or-bitwise (suc a) b,
  bit_or-bitwise (suc a / 2) (b / 2),
  digits_step (λ b. b) max a b,
)

bit_and_step : (a b : ℕ) → bit_and a b ≡ bit_and (a / 2) (b / 2) * 2 + min (a % 2) (b % 2)
bit_and_step zero b = omega (arith, bit_and-bitwise 0 b, bit_and-bitwise 0 (b / 2))
bit_and_step (suc a) b = omega (
  arith,
  bit_and-bitwise (suc a) b,
  bit_and-bitwise (suc a / 2) (b / 2),
  digits_step (λ b. 0) min a b,
)

bit_or-zero_below : (n a b : ℕ) → a ≤ n → b ≡ 0 → bit_or a b ≡ a
bit_or-zero_below n zero b h e = omega (arith, bit_or-bitwise 0 b)
bit_or-zero_below zero (suc a) b h e = absurd (omega arith)
bit_or-zero_below (suc n) (suc a) b h e = omega (
  arith,
  bit_or_step (suc a) b,
  bit_or-zero_below n (suc a / 2) (b / 2) (omega arith) (omega arith),
)

bit_and-zero_below : (n a b : ℕ) → a ≤ n → b ≡ 0 → bit_and a b ≡ 0
bit_and-zero_below n zero b h e = omega (arith, bit_and-bitwise 0 b)
bit_and-zero_below zero (suc a) b h e = absurd (omega arith)
bit_and-zero_below (suc n) (suc a) b h e = omega (
  arith,
  bit_and_step (suc a) b,
  bit_and-zero_below n (suc a / 2) (b / 2) (omega arith) (omega arith),
)

bit_or_even : (c a b : ℕ) → c ≡ a * 2 → bit_or c b ≡ bit_or a (b / 2) * 2 + b % 2
bit_or_even c a b h =
    let e : c / 2 ≡ a = omega arith in
    omega (arith, bit_or_step c b, ap (λ (t : ℕ). bit_or t (b / 2)) e)

bit_and_odd : (a m : ℕ) → bit_and a (m * 2 + 1) ≡ bit_and (a / 2) m * 2 + a % 2
bit_and_odd a m =
    let e : (m * 2 + 1) / 2 ≡ m = omega arith in
    omega (arith, bit_and_step a (m * 2 + 1), ap (λ (t : ℕ). bit_and (a / 2) t) e)

-- `(hi << 8) | lo` of a byte `lo`: the two fields share no bit.
pub bit_or_bytes : (hi lo : ℕ) → lo < 256 → bit_or (hi * 256) lo ≡ hi * 256 + lo
bit_or_bytes hi lo h = omega (
  arith,
  bit_or_even (hi * 256) (hi * 128) lo (omega arith),
  bit_or_even (hi * 128) (hi * 64) (lo / 2) (omega arith),
  bit_or_even (hi * 64) (hi * 32) (lo / 2 / 2) (omega arith),
  bit_or_even (hi * 32) (hi * 16) (lo / 2 / 2 / 2) (omega arith),
  bit_or_even (hi * 16) (hi * 8) (lo / 2 / 2 / 2 / 2) (omega arith),
  bit_or_even (hi * 8) (hi * 4) (lo / 2 / 2 / 2 / 2 / 2) (omega arith),
  bit_or_even (hi * 4) (hi * 2) (lo / 2 / 2 / 2 / 2 / 2 / 2) (omega arith),
  bit_or_even (hi * 2) (hi * 1) (lo / 2 / 2 / 2 / 2 / 2 / 2 / 2) (omega arith),
  bit_or-zero_below _ (hi * 1) (lo / 2 / 2 / 2 / 2 / 2 / 2 / 2 / 2) (le_refl _) (omega arith),
)

-- `x & 0xff`
pub bit_and_byte : (x : ℕ) → bit_and x 0xff ≡ x % 256
bit_and_byte x = omega (
  arith,
  bit_and_odd x 127,
  bit_and_odd (x / 2) 63,
  bit_and_odd (x / 2 / 2) 31,
  bit_and_odd (x / 2 / 2 / 2) 15,
  bit_and_odd (x / 2 / 2 / 2 / 2) 7,
  bit_and_odd (x / 2 / 2 / 2 / 2 / 2) 3,
  bit_and_odd (x / 2 / 2 / 2 / 2 / 2 / 2) 1,
  bit_and_odd (x / 2 / 2 / 2 / 2 / 2 / 2 / 2) 0,
  bit_and-zero_below _ (x / 2 / 2 / 2 / 2 / 2 / 2 / 2 / 2) 0 (le_refl _) refl,
)
