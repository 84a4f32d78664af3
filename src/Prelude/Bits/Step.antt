-- ===== src/Prelude/Bits/Step.antt =====
-- One binary digit of `bit_or` and `bit_and`. The libraries define both by `digits`, on fuel.
use Prim.Native.Nat.{
  ℕ, zero, suc, ◌+◌, ◌*◌, ◌/◌, ◌%◌, ◌≤◌, min, max, digits, bit_and, bit_or, bit_and-bitwise,
  bit_or-bitwise,
}
use mathlib.Core.Path.{◌≡◌, refl}
use native.Mathlib.Omega.{arith}

module _ (rest : ℕ → ℕ) (op : ℕ → ℕ → ℕ) where
  -- Any fuel that the first operand does not exceed gives one result.
  enough_fuel :
      (k : ℕ) (x y : ℕ) (l : ℕ) → x ≤ k → x ≤ l → digits rest op k x y ≡ digits rest op l x y
  enough_fuel zero zero y zero p q = refl
  enough_fuel zero zero y (suc l) p q = refl
  enough_fuel (suc k) zero y zero p q = refl
  enough_fuel (suc k) zero y (suc l) p q = refl
  enough_fuel zero (suc x) y l p q = absurd (omega arith)
  enough_fuel (suc k) (suc x) y zero p q = absurd (omega arith)
  enough_fuel (suc k) (suc x) y (suc l) p q =
      omega (arith, enough_fuel k (suc x / 2) (y / 2) l (omega arith) (omega arith))

  lowest_digit :
      (x y : ℕ)
      → digits rest op (suc x) (suc x) y
        ≡ digits rest op (suc x / 2) (suc x / 2) (y / 2) * 2 + op (suc x % 2) (y % 2)
  lowest_digit x y =
      omega (arith, enough_fuel x (suc x / 2) (y / 2) (suc x / 2) (omega arith) (omega arith))

pub bit_or_step : (x y : ℕ) → bit_or x y ≡ bit_or (x / 2) (y / 2) * 2 + max (x % 2) (y % 2)
bit_or_step zero y = omega (arith, bit_or-bitwise 0 y, bit_or-bitwise 0 (y / 2))
bit_or_step (suc x) y = omega (
  arith,
  bit_or-bitwise (suc x) y,
  bit_or-bitwise (suc x / 2) (y / 2),
  lowest_digit (λ z. z) max x y,
)

pub bit_and_step : (x y : ℕ) → bit_and x y ≡ bit_and (x / 2) (y / 2) * 2 + min (x % 2) (y % 2)
bit_and_step zero y = omega (arith, bit_and-bitwise 0 y, bit_and-bitwise 0 (y / 2))
bit_and_step (suc x) y = omega (
  arith,
  bit_and-bitwise (suc x) y,
  bit_and-bitwise (suc x / 2) (y / 2),
  lowest_digit (λ z. 0) min x y,
)
