-- ===== src/Setup.antt =====
-- setupi2c of i2c/i2c-odroid-c4.c, with i2c/include/gpio.h, i2c/include/clk.h and the register
-- fields of i2c/include/odroidc4-i2c-mem.h. A register is memory: it reads as it was written.
pub mod Pads
pub mod Fields
pub mod Ctl
pub mod Addr
pub mod Masters
pub mod Gpio
pub mod Reg
use sddf_i2c_driver.Prelude.{
  ℕ, ◌-◌, ◌*◌, ◌^◌, Bool, true, false, List, [], ◌∷◌, ◌++◌, ◌==◌, if◌then◌else◌, bit_and, bit_or,
}
use sddf_i2c_driver.Prelude.Words.{u32, ◌<<<◌, not32}
use sddf_i2c_driver.Interface.{Interface}

-- The registers that the seven pointers of setupi2c reach.
pub record Pins : Type 0 where
  pub pinmux5 : ℕ
  pub pinmux_e : ℕ
  pub pad_ds2b : ℕ
  pub pad_ds5a : ℕ
  pub pad_bias2 : ℕ
  pub pad_bias5 : ℕ
  pub clk81 : ℕ

-- The failures that setupi2c can report.
pub data Failure : Type 0 where
  pinmux5_unset pinmux_e_unset ds_m2_unset ds_m3_unset bias_m2_set bias_m3_set clock_off : Failure

-- I2C_CLK81_BIT
abbrev pub clk81_bit : ℕ
clk81_bit = 2 ^ 9

abbrev pub ds : ℕ
ds = 3

abbrev pub div_h : ℕ
div_h = 154

abbrev pub div_l : ℕ
div_l = 116

-- `reg &= ~bits` and `reg |= bits`
abbrev pub clear_bits : ℕ → ℕ → ℕ
clear_bits reg bits = bit_and reg (not32 bits)

abbrev pub set_bits : ℕ → ℕ → ℕ
set_bits reg bits = bit_or reg bits

abbrev pub ds2b_value : ℕ
ds2b_value = bit_or (ds <<< Gpio.ds_2b_x17_shift) (ds <<< Gpio.ds_2b_x18_shift)

abbrev pub ds5a_value : ℕ
ds5a_value = bit_or (ds <<< Gpio.ds_5a_a14_shift) (u32 (ds <<< Gpio.ds_5a_a15_shift))

abbrev pub report : Bool → Failure → List Failure
report failed f = if failed then f ∷ [] else []

unfoldable pub setup_pins : Pins → Pins
setup_pins p = record {
  pinmux5 = set_bits p.pinmux5 (bit_or (Gpio.pm5_x_i2c <<< 4) (Gpio.pm5_x_i2c <<< 8));
  pinmux_e = set_bits p.pinmux_e (bit_or (Gpio.pe_a_i2c <<< 24) (Gpio.pe_a_i2c <<< 28));
  pad_ds2b = set_bits (clear_bits p.pad_ds2b (bit_or Gpio.ds_2b_x17 Gpio.ds_2b_x18)) ds2b_value;
  pad_ds5a = set_bits (clear_bits p.pad_ds5a (bit_or Gpio.ds_5a_a14 Gpio.ds_5a_a15)) ds5a_value;
  pad_bias2 = clear_bits p.pad_bias2 (bit_or (2 ^ 18) (2 ^ 17));
  pad_bias5 = clear_bits p.pad_bias5 (bit_or (2 ^ 14) (2 ^ 15));
  clk81 = set_bits p.clk81 clk81_bit;
}

-- The tests after the writes, in order; `p` is what the registers then read.
unfoldable pub setup_failures : Pins → List Failure
setup_failures p =
    report (bit_and p.pinmux5 (bit_or Gpio.pm5_x18 Gpio.pm5_x17) == 0) pinmux5_unset
    ++ (report (bit_and p.pinmux_e (bit_or Gpio.pe_a15 Gpio.pe_a14) == 0) pinmux_e_unset
        ++ (report
              (if bit_and p.pad_ds2b (bit_or Gpio.ds_2b_x17 Gpio.ds_2b_x18) == ds2b_value
                then false
                else true)
              ds_m2_unset
            ++ (report
                  (if bit_and p.pad_ds5a (bit_or Gpio.ds_5a_a14 Gpio.ds_5a_a15) == ds5a_value
                    then false
                    else true)
                  ds_m3_unset
                ++ (report
                      (if bit_and p.pad_bias2 (bit_or (2 ^ 18) (2 ^ 17)) == 0 then false else true)
                      bias_m2_set
                    ++ (report
                          (if bit_and p.pad_bias5 (bit_or (2 ^ 14) (2 ^ 15)) == 0
                            then false
                            else true)
                          bias_m3_set
                        ++ (report (bit_and p.clk81 clk81_bit == 0) clock_off
                            ++ report (bit_and p.pinmux5 (bit_or Gpio.pm5_x18 Gpio.pm5_x17) == 0)
                                pinmux5_unset))))))

-- The fields that are set in each of the two masters.
unfoldable pub setup_ctl : ℕ → ℕ
setup_ctl ctl =
    let enabled =
      set_bits (clear_bits (clear_bits ctl Reg.ctrl_manual) Reg.ctrl_ack_ignore)
        Reg.ctrl_cntl_jic in
    set_bits (clear_bits enabled Reg.ctrl_clkdiv_mask) (div_h <<< Reg.ctrl_clkdiv_shift)

unfoldable pub setup_addr : ℕ → ℕ
setup_addr addr =
    let scl = set_bits (clear_bits addr Reg.addr_sclfilter) (0x0 <<< 11) in
    let sda = set_bits (clear_bits scl Reg.addr_sdafilter) (0x0 <<< 8) in
    let delay =
      set_bits (clear_bits sda (0x1ff <<< Reg.addr_scldelay_shft))
        (div_l <<< Reg.addr_scldelay_shft) in
    set_bits delay Reg.addr_scldelay_enable

unfoldable pub setup_interface : Interface → Interface
unfolding setup_ctl setup_addr
setup_interface r = record r { ctl = setup_ctl r.ctl; addr = setup_addr r.addr }
