-- ===== src/Setup/Pads.antt =====
-- What setupi2c (i2c/i2c-odroid-c4.c) reports of its own writes.
use Prim.Native.Nat.{bit_and-bitwise}
use sddf_i2c_driver.Prelude.{
  ℕ, ◌+◌, ◌/◌, ◌^◌, ◌≡◌, refl, ◌∙◌, ap, ◌≢◌, [], ◌∷◌, arith, bit_and, bit_or, ==_of_ne,
}
use sddf_i2c_driver.Prelude.Bits.{
  field, field-bit_and, field-bit_or, bit_and-zero, bit_and_mask, bit_or-one, bit_and-div,
}
use sddf_i2c_driver.Prelude.Words.{not32}
use sddf_i2c_driver.Setup.{
  Pins, ds_m2_unset, setup_pins, setup_failures, ds2b_value, set_bits, clear_bits,
}

-- A bit that is written is read back, in any mask that has it.
set_reads : (k p v m : ℕ) → field k 1 v ≡ 1 → field k 1 m ≡ 1 → bit_and (set_bits p v) m ≢ 0
set_reads k p v m e f z =
    let one : field k 1 (set_bits p v) ≡ 1 =
      field-bit_or k 1 p v ∙ ap (bit_or (field k 1 p)) e ∙ bit_or-one (field k 1 p) (omega arith) in
    let read : field k 1 (bit_and (set_bits p v) m) ≡ 1 =
      field-bit_and k 1 (set_bits p v) m ∙ rw (one, f) refl in
    let nothing : field k 1 0 ≡ 1 = rw z at read in grind (arith, nothing)

zero-bit_and : (a : ℕ) → bit_and 0 a ≡ 0
zero-bit_and a = omega (arith, bit_and-bitwise 0 a)

-- Nothing is read of a mask outside its bits `lo` to `lo + w`.
outside_mask :
    (lo w x m : ℕ)
    → field 0 lo m ≡ 0
    → m / 2 ^ (lo + w) ≡ 0
    → (field 0 lo (bit_and x m) ≡ 0) × (bit_and x m / 2 ^ (lo + w) ≡ 0)
outside_mask lo w x m e f = (
  field-bit_and 0 lo x m ∙ rw e (bit_and-zero _),
  bit_and-div (lo + w) x m ∙ rw f (bit_and-zero _),
)

-- The bits that a mask clears read as zero.
cleared_field : (lo w p n m : ℕ) → field lo w n ≡ 0 → field lo w (bit_and (bit_and p n) m) ≡ 0
cleared_field lo w p n m e =
    field-bit_and lo w (bit_and p n) m
    ∙ rw (field-bit_and lo w p n, e, bit_and-zero (field lo w p)) (zero-bit_and _)

bias2 : (p : ℕ) → bit_and (clear_bits p 0x6_0000) 0x6_0000 ≡ 0
bias2 p =
    let x = clear_bits p 0x6_0000 in
    omega (
      arith,
      outside_mask 17 2 x 0x6_0000 refl refl,
      cleared_field 17 2 p (not32 0x6_0000) 0x6_0000 refl,
    )

bias5 : (p : ℕ) → bit_and (clear_bits p 0xc000) 0xc000 ≡ 0
bias5 p =
    let x = clear_bits p 0xc000 in
    omega
      (arith, outside_mask 14 2 x 0xc000 refl refl, cleared_field 14 2 p (not32 0xc000) 0xc000 refl)

-- The drive strengths of M3 are read back, those of M2 are wider than the mask.
drive5 :
    (p : ℕ) → bit_and (set_bits (clear_bits p 0xf000_0000) 0xf000_0000) 0xf000_0000 ≡ 0xf000_0000
drive5 p =
    let c = clear_bits p 0xf000_0000 in
    let x = set_bits c 0xf000_0000 in
    let cleared : field 28 4 c ≡ 0 = field-bit_and 28 4 p (not32 0xf000_0000) ∙ bit_and-zero _ in
    let set : field 28 4 x ≡ 15 = field-bit_or 28 4 c 0xf000_0000 ∙ rw cleared refl in
    let read : field 28 4 (bit_and x 0xf000_0000) ≡ 15 =
      field-bit_and 28 4 x 0xf000_0000 ∙ rw set refl in
    omega (arith, outside_mask 28 4 x 0xf000_0000 refl refl, read)

drive2 : (x : ℕ) → bit_and x 0xf ≢ ds2b_value
drive2 x e = omega (arith, bit_and_mask 4 x, e)

-- Whatever the registers held, `setupi2c` reports one failure of its own writes and no other: that
-- the drive strength of M2 is not set.
pub setup_failures-setup_pins : (p : Pins) → setup_failures (setup_pins p) ≡ ds_m2_unset ∷ []
unfolding setup_failures setup_pins
setup_failures-setup_pins p =
    let a = ==_of_ne _ 0 (set_reads 4 p.pinmux5 0x110 0xff0 refl refl) in
    let b = ==_of_ne _ 0 (set_reads 24 p.pinmux_e 0x3300_0000 0xff00_0000 refl refl) in
    let c = ==_of_ne _ _ (drive2 (set_bits (clear_bits p.pad_ds2b 0xf) ds2b_value)) in
    let g = ==_of_ne _ 0 (set_reads 9 p.clk81 512 512 refl refl) in
    rw (a, b, c, drive5 p.pad_ds5a, bias2 p.pad_bias2, bias5 p.pad_bias5, g)
