-- ===== src/Setup/Fields.antt =====
-- A field of a register under the writes of setupi2c (i2c/i2c-odroid-c4.c).
use native.Mathlib.Nat.{mod-mod}
use sddf_i2c_driver.Prelude.{ℕ, ◌-◌, ◌/◌, ◌^◌, ◌≡◌, ◌∙◌, arith}
use sddf_i2c_driver.Prelude.Bits.{
  field, field-bit_and, field-bit_or, bit_and-zero, bit_or-zero, zero-bit_or, bit_and_mask,
  bit_or-one,
}
use sddf_i2c_driver.Prelude.Words.{not32}
use sddf_i2c_driver.Setup.{set_bits, clear_bits}

-- One field under a write of `bits`, by what the field of `bits` is.
module _ (lo w x bits : ℕ) where
  pub set-value : field lo w x ≡ 0 → field lo w (set_bits x bits) ≡ field lo w bits
  set-value e = field-bit_or lo w x bits ∙ rw e (zero-bit_or _)

  pub set-keeps : field lo w bits ≡ 0 → field lo w (set_bits x bits) ≡ field lo w x
  set-keeps e = field-bit_or lo w x bits ∙ rw e (bit_or-zero _)

  pub clear-zero : field lo w (not32 bits) ≡ 0 → field lo w (clear_bits x bits) ≡ 0
  clear-zero e = field-bit_and lo w x (not32 bits) ∙ rw e (bit_and-zero _)

  pub clear-keeps :
      field lo w (not32 bits) ≡ 2 ^ w - 1 → field lo w (clear_bits x bits) ≡ field lo w x
  clear-keeps e =
      field-bit_and lo w x (not32 bits)
      ∙ rw e (bit_and_mask w (field lo w x))
      ∙ mod-mod (x / 2 ^ lo) (2 ^ w)

-- A bit that a write sets.
pub set-one : (k x bits : ℕ) → field k 1 bits ≡ 1 → field k 1 (set_bits x bits) ≡ 1
set-one k x bits e = field-bit_or k 1 x bits ∙ rw e (bit_or-one (field k 1 x) (omega arith))
