-- ===== src/Prelude/Bits.antt =====
-- Laws of `bit_and` and `bit_or`, from the digit recursion that the native operations stand for:
-- fields of a word, disjoint fields, and masks.
mod Step
use Prim.Native.Nat.{
  ℕ, zero, suc, ◌+◌, ◌-◌, ◌*◌, ◌/◌, ◌%◌, ◌^◌, ◌≤◌, ◌<◌, min, max, bit_and, bit_or, bit_or-bitwise,
}
use mathlib.Core.Path.{◌≡◌, refl, ◌∙◌, ap, ap₂}
use native.Mathlib.Nat.{pow-suc, one-le-pow}
use native.Mathlib.Omega.{arith}
use Step.{bit_or_step, bit_and_step}

-- `w` bits of `x` from bit `lo` on.
abbrev pub field : ℕ → ℕ → ℕ → ℕ
field lo w x = x / 2 ^ lo % 2 ^ w

two-pow-suc : (k : ℕ) → 2 ^ suc k ≡ 2 * 2 ^ k
two-pow-suc k = omega (arith, pow-suc 2 k)

div_halves : (x m : ℕ) → x / (2 * m) ≡ x / 2 / m
div_halves x m = grind arith

mod_halves : (x m : ℕ) → 1 ≤ m → x % (2 * m) ≡ 2 * (x / 2 % m) + x % 2
mod_halves x m h = grind arith

mod-one : (x : ℕ) → x % 2 ^ 0 ≡ 0
mod-one x = omega arith

-- One law for both operations: `f` is `bit_or` or `bit_and`, and `op` acts on one digit.
module _ (f : ℕ → ℕ → ℕ) (op : ℕ → ℕ → ℕ)
    (step : (a b : ℕ) → f a b ≡ f (a / 2) (b / 2) * 2 + op (a % 2) (b % 2))
    (digit : (a b : ℕ) → a < 2 → b < 2 → op a b < 2) where
  half : (a b : ℕ) → f a b / 2 ≡ f (a / 2) (b / 2)
  half a b = omega (arith, step a b, digit (a % 2) (b % 2) (omega arith) (omega arith))

  parity : (a b : ℕ) → f a b % 2 ≡ op (a % 2) (b % 2)
  parity a b = omega (arith, step a b, digit (a % 2) (b % 2) (omega arith) (omega arith))

  shift : (k a b : ℕ) → f a b / 2 ^ k ≡ f (a / 2 ^ k) (b / 2 ^ k)
  shift zero a b = ground arith
  shift (suc k) a b =
      rw (two-pow-suc k, div_halves (f a b) (2 ^ k), div_halves a (2 ^ k), div_halves b (2 ^ k))
        (rw (half a b) (shift k (a / 2) (b / 2)))

  append_digit : (p q c d : ℕ) → c < 2 → d < 2 → f (2 * p + c) (2 * q + d) ≡ f p q * 2 + op c d
  append_digit p q c d hc hd =
      let e : (2 * p + c) / 2 ≡ p = omega arith in
      let e' : (2 * q + d) / 2 ≡ q = omega arith in
      let g : (2 * p + c) % 2 ≡ c = omega arith in
      let g' : (2 * q + d) % 2 ≡ d = omega arith in
      step (2 * p + c) (2 * q + d) ∙ ap₂ (λ x y. x * 2 + y) (ap₂ f e e') (ap₂ op g g')

  low : (k a b : ℕ) → f 0 0 ≡ 0 → f a b % 2 ^ k ≡ f (a % 2 ^ k) (b % 2 ^ k)
  low zero a b z = omega (arith, z, ap₂ f (mod-one a) (mod-one b))
  low (suc k) a b z =
      rw
        (
          two-pow-suc k,
          mod_halves (f a b) (2 ^ k) (one-le-pow k 2 (omega arith)),
          mod_halves a (2 ^ k) (one-le-pow k 2 (omega arith)),
          mod_halves b (2 ^ k) (one-le-pow k 2 (omega arith)),
        )
        (omega (
          arith,
          ap (λ x. x % 2 ^ k) (half a b),
          low k (a / 2) (b / 2) z,
          parity a b,
          append_digit (a / 2 % 2 ^ k) (b / 2 % 2 ^ k) (a % 2) (b % 2) (omega arith) (omega arith),
        ))

max_digit : (a b : ℕ) → a < 2 → b < 2 → max a b < 2
max_digit a b h k = omega arith

min_digit : (a b : ℕ) → a < 2 → b < 2 → min a b < 2
min_digit a b h k = omega arith

-- A field of a disjunction or a conjunction is that of the fields.
pub field-bit_or : (lo w a b : ℕ) → field lo w (bit_or a b) ≡ bit_or (field lo w a) (field lo w b)
field-bit_or lo w a b =
    ap (λ x. x % 2 ^ w) (shift bit_or max bit_or_step max_digit lo a b)
    ∙ low bit_or max bit_or_step max_digit w (a / 2 ^ lo) (b / 2 ^ lo) refl

pub field-bit_and :
    (lo w a b : ℕ) → field lo w (bit_and a b) ≡ bit_and (field lo w a) (field lo w b)
field-bit_and lo w a b =
    ap (λ x. x % 2 ^ w) (shift bit_and min bit_and_step min_digit lo a b)
    ∙ low bit_and min bit_and_step min_digit w (a / 2 ^ lo) (b / 2 ^ lo) refl

bit_or-zero_fuel : (fuel x : ℕ) → x ≤ fuel → bit_or x 0 ≡ x
bit_or-zero_fuel fuel zero le = refl
bit_or-zero_fuel zero (suc x) le = absurd (omega arith)
bit_or-zero_fuel (suc fuel) (suc x) le =
    omega (arith, bit_or_step (suc x) 0, bit_or-zero_fuel fuel (suc x / 2) (omega arith))

pub bit_or-zero : (x : ℕ) → bit_or x 0 ≡ x
bit_or-zero x = bit_or-zero_fuel x x (omega arith)

pub zero-bit_or : (a : ℕ) → bit_or 0 a ≡ a
zero-bit_or a = omega (arith, bit_or-bitwise 0 a)

bit_and-zero_fuel : (fuel x : ℕ) → x ≤ fuel → bit_and x 0 ≡ 0
bit_and-zero_fuel fuel zero le = refl
bit_and-zero_fuel zero (suc x) le = absurd (omega arith)
bit_and-zero_fuel (suc fuel) (suc x) le =
    omega (arith, bit_and_step (suc x) 0, bit_and-zero_fuel fuel (suc x / 2) (omega arith))

pub bit_and-zero : (x : ℕ) → bit_and x 0 ≡ 0
bit_and-zero x = bit_and-zero_fuel x x (omega arith)

mul-two-pow-suc : (y w : ℕ) → y * 2 ^ suc w ≡ 2 * (y * 2 ^ w)
mul-two-pow-suc y w = omega (arith, ap (λ (p : ℕ). y * p) (two-pow-suc w))

-- `x | (q << k)` is a sum when `x` fits `w` bits.
pub bit_or_fields : (w x y : ℕ) → x < 2 ^ w → bit_or x (y * 2 ^ w) ≡ x + y * 2 ^ w
bit_or_fields zero x y fits =
    let e : x ≡ 0 = omega arith in rw e (omega (arith, zero-bit_or (y * 2 ^ 0)))
bit_or_fields (suc w) x y fits =
    let e : y * 2 ^ suc w / 2 ≡ y * 2 ^ w = omega (arith, mul-two-pow-suc y w) in
    omega (
      arith,
      bit_or_step x (y * 2 ^ suc w),
      ap (bit_or (x / 2)) e,
      bit_or_fields w (x / 2) y (omega (arith, two-pow-suc w)),
      mul-two-pow-suc y w,
    )

-- The lowest `w` bits are a remainder.
pub bit_and_mask : (w x : ℕ) → bit_and x (2 ^ w - 1) ≡ x % 2 ^ w
bit_and_mask zero x = omega (arith, bit_and-zero x)
bit_and_mask (suc w) x =
    let pos : 1 ≤ 2 ^ w = one-le-pow w 2 (omega arith) in
    let half_mask : (2 ^ suc w - 1) / 2 ≡ 2 ^ w - 1 = omega (arith, two-pow-suc w) in
    omega (
      arith,
      bit_and_step x (2 ^ suc w - 1),
      ap (bit_and (x / 2)) half_mask,
      bit_and_mask w (x / 2),
      two-pow-suc w,
      ap (λ m. x % m) (two-pow-suc w),
      mod_halves x (2 ^ w) pos,
    )

pub bit_and-div : (k a b : ℕ) → bit_and a b / 2 ^ k ≡ bit_and (a / 2 ^ k) (b / 2 ^ k)
bit_and-div k a b = shift bit_and min bit_and_step min_digit k a b

pub bit_or-div : (k a b : ℕ) → bit_or a b / 2 ^ k ≡ bit_or (a / 2 ^ k) (b / 2 ^ k)
bit_or-div k a b = shift bit_or max bit_or_step max_digit k a b

-- A set bit.
pub bit_or-one : (b : ℕ) → b < 2 → bit_or b 1 ≡ 1
bit_or-one zero h = refl
bit_or-one (suc zero) h = refl
bit_or-one (suc (suc b)) h = absurd (omega arith)

-- The operations stay within `w` bits.
lt_of_high : (w x : ℕ) → x / 2 ^ w ≡ 0 → x < 2 ^ w
lt_of_high w x e = grind (arith, one-le-pow w 2 (omega arith))

high_of_lt : (w x : ℕ) → x < 2 ^ w → x / 2 ^ w ≡ 0
high_of_lt w x h = grind (arith, one-le-pow w 2 (omega arith))

pub bit_or_lt : (w a b : ℕ) → a < 2 ^ w → b < 2 ^ w → bit_or a b < 2 ^ w
bit_or_lt w a b h k =
    lt_of_high w (bit_or a b)
      (bit_or-div w a b ∙ ap₂ bit_or (high_of_lt w a h) (high_of_lt w b k) ∙ bit_or-zero 0)

pub bit_and_lt : (w a b : ℕ) → b < 2 ^ w → bit_and a b < 2 ^ w
bit_and_lt w a b k =
    lt_of_high w (bit_and a b)
      (bit_and-div w a b ∙ ap (bit_and (a / 2 ^ w)) (high_of_lt w b k) ∙ bit_and-zero _)
