-- ===== src/Prelude/Bits.antt =====
-- Masks on one byte as arithmetic, checked over the whole range by evaluation.
use Prim.Native.Nat.{
  ℕ, zero, suc, ◌+◌, ◌*◌, ◌/◌, ◌%◌, ◌<◌, ◌≤◌, min, bit_and, digits, bit_and-bitwise,
}
use mathlib.Core.Path.{◌≡◌, refl}
use mathlib.Core.Bool.{Bool, true, ◌&&◌}
use native.Mathlib.Omega.{arith}

-- Whether a test holds at every number under a bound.
unfoldable pub all_below : ℕ → (ℕ → Bool) → Bool
all_below zero test = true
all_below (suc bound) test = all_below bound test && test bound

-- What the test says at one of these numbers.
pub all_below_sound :
    (bound : ℕ) (test : ℕ → Bool) (i : ℕ) → all_below bound test ≡ true → i < bound → test i ≡ true
unfolding all_below
all_below_sound zero test i passed under = absurd (omega (arith, under))
all_below_sound (suc bound) test i passed under = ground (all_below_sound bound test i, arith)

-- The digits of `bit_and`, with the fuel of its definition.
abbrev common : ℕ → ℕ → ℕ → ℕ
common fuel = digits (λ b. zero) min fuel

-- Any fuel that is at least the first number gives the same digits.
common_enough :
    (left right mask other : ℕ)
    → mask ≤ left
    → mask ≤ right
    → common left mask other ≡ common right mask other
common_enough zero zero mask other l r = refl
common_enough zero (suc right) zero other l r = refl
common_enough (suc left) zero zero other l r = refl
common_enough (suc left) (suc right) zero other l r = refl
common_enough zero right (suc mask) other l r = absurd (omega (arith, l))
common_enough (suc left) zero (suc mask) other l r = absurd (omega (arith, r))
common_enough (suc left) (suc right) (suc mask) other l r =
    let halves : common left (suc mask / 2) (other / 2) ≡ common right (suc mask / 2) (other / 2) =
      common_enough left right (suc mask / 2) (other / 2) (omega (arith, l)) (omega (arith, r)) in
    omega (arith, halves)

-- `bit_and` works digit by digit, the lowest one apart.
pub bit_and-halves :
    (mask other : ℕ)
    → bit_and mask other ≡ min (mask % 2) (other % 2) + 2 * bit_and (mask / 2) (other / 2)
bit_and-halves zero other = omega (arith, bit_and-bitwise 0 other, bit_and-bitwise 0 (other / 2))
bit_and-halves (suc mask) other =
    let inner : ℕ = suc mask / 2 in
    let same : common mask inner (other / 2) ≡ common inner inner (other / 2) =
      common_enough mask inner inner (other / 2) (omega arith) (omega arith) in
    omega (arith, same, bit_and-bitwise inner (other / 2), bit_and-bitwise (suc mask) other)

bit_and_none : (fuel n : ℕ) → n ≤ fuel → bit_and n 0 ≡ 0
bit_and_none fuel zero h = bit_and-bitwise 0 0
bit_and_none zero (suc n) h = absurd (omega (arith, h))
bit_and_none (suc fuel) (suc n) h =
    omega (arith, bit_and_none fuel (suc n / 2) (omega (arith, h)), bit_and-halves (suc n) 0)

-- `n & 63`, for every n.
pub bit_and_63 : (n : ℕ) → bit_and n 63 ≡ n % 64
bit_and_63 n = omega (
  arith,
  bit_and-halves n 63,
  bit_and-halves (n / 2) 31,
  bit_and-halves (n / 2 / 2) 15,
  bit_and-halves (n / 2 / 2 / 2) 7,
  bit_and-halves (n / 2 / 2 / 2 / 2) 3,
  bit_and-halves (n / 2 / 2 / 2 / 2 / 2) 1,
  bit_and_none (n / 2 / 2 / 2 / 2 / 2 / 2) (n / 2 / 2 / 2 / 2 / 2 / 2) (omega arith),
)

-- `n & 15`, for every n.
pub bit_and_15 : (n : ℕ) → bit_and n 15 ≡ n % 16
bit_and_15 n = omega (
  arith,
  bit_and-halves n 15,
  bit_and-halves (n / 2) 7,
  bit_and-halves (n / 2 / 2) 3,
  bit_and-halves (n / 2 / 2 / 2) 1,
  bit_and_none (n / 2 / 2 / 2 / 2) (n / 2 / 2 / 2 / 2) (omega arith),
)
