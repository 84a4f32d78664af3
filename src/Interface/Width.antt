-- ===== src/Interface/Width.antt =====
-- The registers of a master have 32 bits; i2cStart, i2cHalt and i2cFlush keep them so.
use sddf_i2c_driver.Prelude.{◌^◌, ◌<◌, arith, bit_and}
use sddf_i2c_driver.Prelude.Bits.{bit_or_lt, bit_and_lt}
use sddf_i2c_driver.Prelude.Words.{not32}
use sddf_i2c_driver.Interface.{Interface, i2c_start, i2c_halt, i2c_flush}

pub record Fit32 (r : Interface) : Type 0 where
  pub ctl : r.ctl < 2 ^ 32
  pub addr : r.addr < 2 ^ 32
  pub tk_list0 : r.tk_list0 < 2 ^ 32
  pub tk_list1 : r.tk_list1 < 2 ^ 32
  pub wdata0 : r.wdata0 < 2 ^ 32
  pub wdata1 : r.wdata1 < 2 ^ 32
  pub rdata0 : r.rdata0 < 2 ^ 32
  pub rdata1 : r.rdata1 < 2 ^ 32

pub i2c_halt-Fit32 : (r : Interface) → Fit32 r → Fit32 (i2c_halt r).1
unfolding i2c_halt
i2c_halt-Fit32 r k = ground (arith, bit_and_lt 32 r.ctl (not32 0x1) (omega arith))

pub i2c_start-Fit32 : (r : Interface) → Fit32 r → Fit32 (i2c_start r).1
unfolding i2c_start
i2c_start-Fit32 r k =
    let c = bit_and r.ctl (not32 0x1) in
    ground (arith, bit_or_lt 32 c 0x1 (bit_and_lt 32 r.ctl (not32 0x1) (omega arith)) (omega arith))

pub i2c_flush-Fit32 : (r : Interface) → Fit32 r → Fit32 (i2c_flush r)
unfolding i2c_flush
i2c_flush-Fit32 r k = ground arith
