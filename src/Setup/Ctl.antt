-- ===== src/Setup/Ctl.antt =====
-- The fields of a master's control register that setupi2c (i2c/i2c-odroid-c4.c) sets, by
-- i2c/include/odroidc4-i2c-mem.h.
use sddf_i2c_driver.Prelude.{ℕ, ◌-◌, ◌^◌, ◌<◌, ◌≡◌, refl, ◌∙◌, arith}
use sddf_i2c_driver.Prelude.Bits.{field, bit_or_lt, bit_and_lt}
use sddf_i2c_driver.Prelude.Words.{not32, ◌<<<◌}
use sddf_i2c_driver.Setup.Reg
use sddf_i2c_driver.Setup.{set_bits, clear_bits, setup_ctl, div_h}
use sddf_i2c_driver.Setup.Fields.{set-value, set-keeps, clear-zero, clear-keeps, set-one}

module _ (ctl : ℕ) where
  abbrev manual_off : ℕ
  manual_off = clear_bits ctl Reg.ctrl_manual

  abbrev ack_on : ℕ
  ack_on = clear_bits manual_off Reg.ctrl_ack_ignore

  abbrev jic_on : ℕ
  jic_on = set_bits ack_on Reg.ctrl_cntl_jic

  abbrev div_clear : ℕ
  div_clear = clear_bits jic_on Reg.ctrl_clkdiv_mask

  pub ctl-keeps :
      (lo w : ℕ)
      → field lo w (not32 Reg.ctrl_manual) ≡ 2 ^ w - 1
      → field lo w (not32 Reg.ctrl_ack_ignore) ≡ 2 ^ w - 1
      → field lo w Reg.ctrl_cntl_jic ≡ 0
      → field lo w (not32 Reg.ctrl_clkdiv_mask) ≡ 2 ^ w - 1
      → field lo w (div_h <<< 12) ≡ 0
      → field lo w (setup_ctl ctl) ≡ field lo w ctl
  unfolding setup_ctl
  ctl-keeps lo w e1 e2 e3 e4 e5 =
      set-keeps lo w div_clear (div_h <<< 12) e5
      ∙ clear-keeps lo w jic_on Reg.ctrl_clkdiv_mask e4
      ∙ set-keeps lo w ack_on Reg.ctrl_cntl_jic e3
      ∙ clear-keeps lo w manual_off Reg.ctrl_ack_ignore e2
      ∙ clear-keeps lo w ctl Reg.ctrl_manual e1

  pub ctl-divider : field 12 10 (setup_ctl ctl) ≡ div_h
  unfolding setup_ctl
  ctl-divider =
      set-value 12 10 div_clear (div_h <<< 12) (clear-zero 12 10 jic_on Reg.ctrl_clkdiv_mask refl)

  pub ctl-automatic : field 22 1 (setup_ctl ctl) ≡ 0
  unfolding setup_ctl
  ctl-automatic =
      set-keeps 22 1 div_clear (div_h <<< 12) refl
      ∙ clear-keeps 22 1 jic_on Reg.ctrl_clkdiv_mask refl
      ∙ set-keeps 22 1 ack_on Reg.ctrl_cntl_jic refl
      ∙ clear-keeps 22 1 manual_off Reg.ctrl_ack_ignore refl
      ∙ clear-zero 22 1 ctl Reg.ctrl_manual refl

  pub ctl-acknowledged : field 1 1 (setup_ctl ctl) ≡ 0
  unfolding setup_ctl
  ctl-acknowledged =
      set-keeps 1 1 div_clear (div_h <<< 12) refl
      ∙ clear-keeps 1 1 jic_on Reg.ctrl_clkdiv_mask refl
      ∙ set-keeps 1 1 ack_on Reg.ctrl_cntl_jic refl
      ∙ clear-zero 1 1 manual_off Reg.ctrl_ack_ignore refl

  pub ctl-ungated : field 31 1 (setup_ctl ctl) ≡ 1
  unfolding setup_ctl
  ctl-ungated =
      set-keeps 31 1 div_clear (div_h <<< 12) refl
      ∙ clear-keeps 31 1 jic_on Reg.ctrl_clkdiv_mask refl
      ∙ set-one 31 ack_on Reg.ctrl_cntl_jic refl

  pub ctl-Fit32 : setup_ctl ctl < 2 ^ 32
  unfolding setup_ctl
  ctl-Fit32 =
      bit_or_lt 32 div_clear (div_h <<< 12)
        (bit_and_lt 32 jic_on (not32 Reg.ctrl_clkdiv_mask) (omega arith)) (omega arith)
