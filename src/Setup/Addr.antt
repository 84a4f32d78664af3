-- ===== src/Setup/Addr.antt =====
-- The fields of a master's address register that setupi2c (i2c/i2c-odroid-c4.c) sets, by
-- i2c/include/odroidc4-i2c-mem.h.
use sddf_i2c_driver.Prelude.{ℕ, ◌-◌, ◌^◌, ◌<◌, ◌≡◌, refl, ◌∙◌, arith}
use sddf_i2c_driver.Prelude.Bits.{field, bit_or_lt, bit_and_lt}
use sddf_i2c_driver.Prelude.Words.{not32, ◌<<<◌}
use sddf_i2c_driver.Setup.Reg
use sddf_i2c_driver.Setup.{set_bits, clear_bits, setup_addr, div_l}
use sddf_i2c_driver.Setup.Fields.{set-value, set-keeps, clear-zero, clear-keeps, set-one}

module _ (addr : ℕ) where
  abbrev scl_clear : ℕ
  scl_clear = clear_bits addr Reg.addr_sclfilter

  abbrev scl_zero : ℕ
  scl_zero = set_bits scl_clear (0x0 <<< 11)

  abbrev sda_clear : ℕ
  sda_clear = clear_bits scl_zero Reg.addr_sdafilter

  abbrev sda_zero : ℕ
  sda_zero = set_bits sda_clear (0x0 <<< 8)

  abbrev delay_clear : ℕ
  delay_clear = clear_bits sda_zero (0x1ff <<< 16)

  abbrev delay_set : ℕ
  delay_set = set_bits delay_clear (div_l <<< 16)

  -- A field outside the delay.
  delay-keeps :
      (lo w : ℕ)
      → field lo w (not32 (0x1ff <<< 16)) ≡ 2 ^ w - 1
      → field lo w (div_l <<< 16) ≡ 0
      → field lo w Reg.addr_scldelay_enable ≡ 0
      → field lo w (setup_addr addr) ≡ field lo w sda_zero
  unfolding setup_addr
  delay-keeps lo w e1 e2 e3 =
      set-keeps lo w delay_set Reg.addr_scldelay_enable e3
      ∙ set-keeps lo w delay_clear (div_l <<< 16) e2
      ∙ clear-keeps lo w sda_zero (0x1ff <<< 16) e1

  pub addr-keeps :
      (lo w : ℕ)
      → field lo w (not32 Reg.addr_sclfilter) ≡ 2 ^ w - 1
      → field lo w 0 ≡ 0
      → field lo w (not32 Reg.addr_sdafilter) ≡ 2 ^ w - 1
      → field lo w (not32 (0x1ff <<< 16)) ≡ 2 ^ w - 1
      → field lo w (div_l <<< 16) ≡ 0
      → field lo w Reg.addr_scldelay_enable ≡ 0
      → field lo w (setup_addr addr) ≡ field lo w addr
  addr-keeps lo w e1 z e2 e3 e4 e5 =
      delay-keeps lo w e3 e4 e5
      ∙ set-keeps lo w sda_clear 0 z
      ∙ clear-keeps lo w scl_zero Reg.addr_sdafilter e2
      ∙ set-keeps lo w scl_clear 0 z
      ∙ clear-keeps lo w addr Reg.addr_sclfilter e1

  pub addr-sda : field 8 3 (setup_addr addr) ≡ 0
  addr-sda =
      delay-keeps 8 3 refl refl refl
      ∙ set-keeps 8 3 sda_clear 0 refl
      ∙ clear-zero 8 3 scl_zero Reg.addr_sdafilter refl

  pub addr-scl : field 11 3 (setup_addr addr) ≡ 0
  addr-scl =
      delay-keeps 11 3 refl refl refl
      ∙ set-keeps 11 3 sda_clear 0 refl
      ∙ clear-keeps 11 3 scl_zero Reg.addr_sdafilter refl
      ∙ set-keeps 11 3 scl_clear 0 refl
      ∙ clear-zero 11 3 addr Reg.addr_sclfilter refl

  pub addr-delay : field 16 9 (setup_addr addr) ≡ div_l
  unfolding setup_addr
  addr-delay =
      set-keeps 16 9 delay_set Reg.addr_scldelay_enable refl
      ∙ set-value 16 9 delay_clear (div_l <<< 16) (clear-zero 16 9 sda_zero (0x1ff <<< 16) refl)

  pub addr-delay_on : field 28 1 (setup_addr addr) ≡ 1
  unfolding setup_addr
  addr-delay_on = set-one 28 delay_set Reg.addr_scldelay_enable refl

  pub addr-Fit32 : setup_addr addr < 2 ^ 32
  unfolding setup_addr
  addr-Fit32 =
      let cleared = bit_and_lt 32 sda_zero (not32 (0x1ff <<< 16)) (omega arith) in
      let set = bit_or_lt 32 delay_clear (div_l <<< 16) cleared (omega arith) in
      bit_or_lt 32 delay_set Reg.addr_scldelay_enable set (omega arith)
