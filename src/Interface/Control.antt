-- ===== src/Interface/Control.antt =====
-- The control register: i2cStart, i2cHalt and i2cGetError of i2c/i2c-odroid-c4.c, by its fields.
use sddf_i2c_driver.Prelude.{
  ℕ, ◌*◌, ◌%◌, ◌^◌, ◌≡◌, refl, ◌∙◌, arith, ◌==◌, if◌then◌else◌, bit_and, bit_or, pos,
}
use sddf_i2c_driver.Prelude.Bits.{
  field, field-bit_and, field-bit_or, bit_and-zero, bit_or-zero, bit_and_mask, bit_or-one,
}
use sddf_i2c_driver.Prelude.Words.{u8, not32}
use sddf_i2c_driver.Interface.{Interface, i2c_get_error, i2c_start, i2c_halt, neg}

read_count : (ctl : ℕ) → u8 (bit_and ctl 0xf00) ≡ 0
read_count ctl =
    let e : field 0 8 (bit_and ctl 0xf00) ≡ 0 = field-bit_and 0 8 ctl 0xf00 ∙ bit_and-zero _ in
    omega (arith, e)

current_token : (ctl : ℕ) → u8 (bit_and ctl 0xf0) ≡ 16 * field 4 4 ctl
current_token ctl =
    let low : field 0 4 (bit_and ctl 0xf0) ≡ 0 = field-bit_and 0 4 ctl 0xf0 ∙ bit_and-zero _ in
    let high : field 4 4 (bit_and ctl 0xf0) ≡ field 4 4 ctl % 2 ^ 4 =
      field-bit_and 4 4 ctl 0xf0 ∙ bit_and_mask 4 _ in
    omega (arith, low, high)

error_bit : (ctl : ℕ) → u8 (bit_and ctl 0x8) ≡ 8 * field 3 1 ctl
error_bit ctl =
    let low : field 0 3 (bit_and ctl 0x8) ≡ 0 = field-bit_and 0 3 ctl 0x8 ∙ bit_and-zero _ in
    let one : field 3 1 (bit_and ctl 0x8) ≡ field 3 1 ctl % 2 ^ 1 =
      field-bit_and 3 1 ctl 0x8 ∙ bit_and_mask 1 _ in
    let high : field 4 4 (bit_and ctl 0x8) ≡ 0 = field-bit_and 4 4 ctl 0x8 ∙ bit_and-zero _ in
    omega (arith, low, one, high)

-- `i2cGetError` is 0 where the error bit of the control register is clear, and minus sixteen times
-- the current token where it is set; it never gives the number of bytes read.
pub i2c_get_error_lem :
    (r : Interface)
    → i2c_get_error r ≡ (if field 3 1 r.ctl == 0 then pos 0 else neg (16 * field 4 4 r.ctl))
unfolding i2c_get_error
i2c_get_error_lem r = ground (arith, read_count r.ctl, current_token r.ctl, error_bit r.ctl)

-- `i2cStart` returns 0 and sets the start bit; the other bits of the control register are kept.
pub i2c_start_lem :
    (r : Interface)
    → ((i2c_start r).0 ≡ pos 0)
      × (field 0 1 (i2c_start r).1.ctl ≡ 1)
      × (field 1 31 (i2c_start r).1.ctl ≡ field 1 31 r.ctl)
unfolding i2c_start
i2c_start_lem r =
    let c = bit_and r.ctl (not32 0x1) in
    let one : field 0 1 (bit_or c 0x1) ≡ 1 =
      field-bit_or 0 1 c 0x1 ∙ bit_or-one (field 0 1 c) (omega arith) in
    let set : bit_and (bit_or c 0x1) 0x1 ≡ 1 = bit_and_mask 1 _ ∙ (omega (arith, one)) in
    let rest : field 1 31 c ≡ field 1 31 r.ctl =
      field-bit_and 1 31 r.ctl (not32 0x1) ∙ bit_and_mask 31 _ ∙ (omega arith) in
    (rw set refl, one, field-bit_or 1 31 c 0x1 ∙ bit_or-zero _ ∙ rest)

-- `i2cHalt` returns 0 and clears the start bit; the other bits of the control register are kept.
pub i2c_halt_lem :
    (r : Interface)
    → ((i2c_halt r).0 ≡ pos 0)
      × (field 0 1 (i2c_halt r).1.ctl ≡ 0)
      × (field 1 31 (i2c_halt r).1.ctl ≡ field 1 31 r.ctl)
unfolding i2c_halt
i2c_halt_lem r =
    let c = bit_and r.ctl (not32 0x1) in
    let none_set : field 0 1 c ≡ 0 = field-bit_and 0 1 r.ctl (not32 0x1) ∙ bit_and-zero _ in
    let clear : bit_and c 0x1 ≡ 0 = bit_and_mask 1 c ∙ (omega (arith, none_set)) in
    let rest : field 1 31 c ≡ field 1 31 r.ctl =
      field-bit_and 1 31 r.ctl (not32 0x1) ∙ bit_and_mask 31 _ ∙ (omega arith) in
    (rw clear refl, none_set, rest)
