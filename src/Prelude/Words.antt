-- ===== src/Prelude/Words.antt =====
-- Machine words as native numbers: the C operations of `uint32_t`, and of `int` on bit patterns
-- (a pattern below 2 ^ 32 in two's complement).
use sddf_i2c_driver.Prelude.Tests.{ltb, if◌then◌else◌}
use Prim.Native.Nat.{ℕ, ◌+◌, ◌-◌, ◌*◌, ◌/◌, ◌%◌, ◌^◌, ◌<◌}
use mathlib.Core.Path.{◌≡◌}
use mathlib.Core.Bool.{Bool}
use native.Mathlib.Omega.{arith}

abbrev pub u8 : ℕ → ℕ
u8 n = n % 2 ^ 8

abbrev pub u32 : ℕ → ℕ
u32 n = n % 2 ^ 32

abbrev pub u64 : ℕ → ℕ
u64 n = n % 2 ^ 64

-- The difference of two `uint32_t`, and of two `int` patterns.
abbrev pub sub32 : ℕ → ℕ → ℕ
sub32 a b = (a + 2 ^ 32 - b) % 2 ^ 32

-- `a < b` for two `int` patterns.
abbrev pub int_lt : ℕ → ℕ → Bool
int_lt a b = ltb ((a + 2 ^ 31) % 2 ^ 32) ((b + 2 ^ 31) % 2 ^ 32)

-- An `int` pattern widened to 64 bits.
abbrev pub sext64 : ℕ → ℕ
sext64 a = if ltb a (2 ^ 31) then a else a + 2 ^ 64 - 2 ^ 32

infixl 75 ◌<<<◌ ◌>>>◌
abbrev pub ◌<<<◌ : ℕ → ℕ → ℕ
x <<< k = x * 2 ^ k

abbrev pub ◌>>>◌ : ℕ → ℕ → ℕ
x >>> k = x / 2 ^ k

-- `~x` of a `uint32_t`.
abbrev pub not32 : ℕ → ℕ
not32 x = 2 ^ 32 - 1 - x

pub int_lt-ltb : (a b : ℕ) → a < 2 ^ 31 → b < 2 ^ 31 → int_lt a b ≡ ltb a b
int_lt-ltb a b ha hb = ground arith

pub sext64_of_lt : (a : ℕ) → a < 2 ^ 31 → sext64 a ≡ a
sext64_of_lt a h = ground arith
