-- ===== src/Base/Bits.antt =====
-- `|` and `&` of flag words, from the digit recursions that the native operations stand for.
use Prim.Native.Nat.{
  ℕ, zero, suc, ◌+◌, ◌-◌, ◌*◌, ◌/◌, ◌%◌, ◌≤◌, min, max, digits, bit_and-bitwise, bit_or-bitwise,
}
use mathlib.Core.Path.{◌≡◌, refl, ap}
use native.Mathlib.Omega.{arith}
pub use Prim.Native.Nat.{bit_and, bit_or}

module _ (rest : ℕ → ℕ) (digit : ℕ → ℕ → ℕ) where
  -- Any two amounts of fuel that suffice give the same word.
  enough_fuel :
      (n : ℕ) (b : ℕ) (m a : ℕ)
      → (a ≤ n) × (a ≤ m)
      → digits rest digit n a b ≡ digits rest digit m a b
  enough_fuel zero b zero a le = refl
  enough_fuel zero b (suc m) zero le = refl
  enough_fuel (suc n) b zero zero le = refl
  enough_fuel (suc n) b (suc m) zero le = refl
  enough_fuel zero b (suc m) (suc a) le = absurd (omega arith)
  enough_fuel (suc n) b zero (suc a) le = absurd (omega arith)
  enough_fuel (suc n) b (suc m) (suc a) le =
      let half = suc a / 2 in
      ap (λ (t : ℕ). t * 2 + digit (suc a % 2) (b % 2)) (enough_fuel n (b / 2) m half (omega arith))

-- The lowest digit of each operation, and the digits above it.
bit_or_unfold : (a b : ℕ) → bit_or a b ≡ bit_or (a / 2) (b / 2) * 2 + max (a % 2) (b % 2)
bit_or_unfold zero b = omega (arith, bit_or-bitwise 0 b, bit_or-bitwise 0 (b / 2))
bit_or_unfold (suc a) b = omega (
  arith,
  bit_or-bitwise (suc a) b,
  bit_or-bitwise (suc a / 2) (b / 2),
  enough_fuel (λ y. y) max a (b / 2) (suc a / 2) (suc a / 2) (omega arith),
)

bit_and_unfold : (a b : ℕ) → bit_and a b ≡ bit_and (a / 2) (b / 2) * 2 + min (a % 2) (b % 2)
bit_and_unfold zero b = omega (arith, bit_and-bitwise 0 b, bit_and-bitwise 0 (b / 2))
bit_and_unfold (suc a) b = omega (
  arith,
  bit_and-bitwise (suc a) b,
  bit_and-bitwise (suc a / 2) (b / 2),
  enough_fuel (λ y. 0) min a (b / 2) (suc a / 2) (suc a / 2) (omega arith),
)

bit_and-zero_below : (n a : ℕ) → a ≤ n → bit_and a 0 ≡ 0
bit_and-zero_below n zero h = refl
bit_and-zero_below zero (suc a) h = absurd (omega arith)
bit_and-zero_below (suc n) (suc a) h =
    omega (arith, bit_and_unfold (suc a) 0, bit_and-zero_below n (suc a / 2) (omega arith))

bit_or-zero_below : (n a : ℕ) → a ≤ n → bit_or a 0 ≡ a
bit_or-zero_below n zero h = refl
bit_or-zero_below zero (suc a) h = absurd (omega arith)
bit_or-zero_below (suc n) (suc a) h =
    omega (arith, bit_or_unfold (suc a) 0, bit_or-zero_below n (suc a / 2) (omega arith))

-- A mask of one bit takes that bit.
pub bit_and-one : (a : ℕ) → bit_and a 1 ≡ a % 2
bit_and-one a = omega (arith, bit_and_unfold a 1, bit_and-zero_below (a / 2) (a / 2) (omega arith))

pub bit_and-four : (a : ℕ) → bit_and a 4 ≡ a / 4 % 2 * 4
bit_and-four a =
    omega (arith, bit_and_unfold a 4, bit_and_unfold (a / 2) 2, bit_and-one (a / 2 / 2))

-- `a | 4` has bit 2 and keeps all others.
pub bit_or-four : (a : ℕ) → bit_or a 4 ≡ a + (1 - a / 4 % 2) * 4
bit_or-four a = omega (
  arith,
  bit_or_unfold a 4,
  bit_or_unfold (a / 2) 2,
  bit_or_unfold (a / 2 / 2) 1,
  bit_or-zero_below (a / 2 / 2 / 2) (a / 2 / 2 / 2) (omega arith),
)
