-- ===== src/Driver/Address.antt =====
-- The address of a request (i2cLoadTokens, i2c/i2c-odroid-c4.c).
use sddf_i2c_driver.Prelude.{ℕ, ◌*◌, ◌%◌, ◌^◌, ◌≡◌, refl, ◌∙◌, arith, bit_and, bit_or}
use sddf_i2c_driver.Prelude.Bits.{
  field, field-bit_and, field-bit_or, bit_and-zero, bit_or-zero, bit_and_mask,
}
use sddf_i2c_driver.Prelude.Words.{not32, ◌<<<◌}
use sddf_i2c_driver.Interface.{Interface}
use sddf_i2c_driver.Driver.Load.{set_address}

old_bit : (x : ℕ) → field 1 7 (bit_and x (not32 0x7f)) ≡ 64 * field 7 1 x
old_bit x =
    let y = bit_and x (not32 0x7f) in
    let low : field 1 6 y ≡ 0 = field-bit_and 1 6 x (not32 0x7f) ∙ bit_and-zero _ in
    let high : field 7 1 y ≡ field 7 1 x % 2 ^ 1 =
      field-bit_and 7 1 x (not32 0x7f) ∙ bit_and_mask 1 _ in
    omega (arith, low, high)

-- The address field of the register once an address is written is the address, with its highest
-- bit set too if it was set before, as that bit is not cleared; the bit below the field is 0, and
-- the bits above are kept.
pub set_address_lem :
    (r : Interface) (addr : ℕ)
    → (field 1 7 (set_address r addr).addr ≡ bit_or (64 * field 7 1 r.addr) (addr % 128))
      × (field 0 1 (set_address r addr).addr ≡ 0)
      × (field 8 24 (set_address r addr).addr ≡ field 8 24 r.addr)
unfolding set_address
set_address_lem r addr =
    let a = bit_and r.addr (not32 0x7f) in
    let b = bit_and addr 0x7f <<< 1 in
    let m : bit_and addr 0x7f ≡ addr % 2 ^ 7 = bit_and_mask 7 addr in
    let written : field 1 7 b ≡ addr % 128 = omega (arith, m) in
    let low : field 0 1 a ≡ 0 = field-bit_and 0 1 r.addr (not32 0x7f) ∙ bit_and-zero _ in
    let low' : field 0 1 b ≡ 0 = omega arith in
    let high : field 8 24 a ≡ field 8 24 r.addr =
      field-bit_and 8 24 r.addr (not32 0x7f) ∙ bit_and_mask 24 _ ∙ (omega arith) in
    let high' : field 8 24 b ≡ 0 = omega (arith, m) in
    (
      field-bit_or 1 7 a b ∙ rw (old_bit r.addr, written) refl,
      field-bit_or 0 1 a b ∙ rw (low, low') refl,
      field-bit_or 8 24 a b ∙ rw (high, high') (bit_or-zero _),
    )

-- The address register `after` holds the address `to` in its address field, with the highest bit of
-- the field set too if it was set in `before`; the rest is as it was, with the lowest bit 0.
pub record Addressed (before after : Interface) (to : ℕ) : Type 0 where
  pub at_field : field 1 7 after.addr ≡ bit_or (64 * field 7 1 before.addr) (to % 128)
  pub low : field 0 1 after.addr ≡ 0
  pub high : field 8 24 after.addr ≡ field 8 24 before.addr

pub set_address-Addressed :
    (before r after : Interface) (to : ℕ)
    → r.addr ≡ before.addr
    → after.addr ≡ (set_address r to).addr
    → Addressed before after to
set_address-Addressed before r after to same e =
    let (at_field, low, high) = set_address_lem r to in
    record { at_field = rw (e, ← same) at_field; low = rw e low; high = rw (e, ← same) high }

pub Addressed-before :
    (r before after : Interface) {to : ℕ}
    → r.addr ≡ before.addr
    → Addressed r after to
    → Addressed before after to
Addressed-before r before after e a = record {
  at_field = rw (← e) a.at_field;
  low = a.low;
  high = rw (← e) a.high;
}
