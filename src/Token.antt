-- ===== src/Token.antt =====
-- i2c/include/i2c-token.h and the OC4_I2C_TK constants of i2c/include/odroidc4-i2c-mem.h: the
-- tokens of the transport layer, those of the hardware, and the switch that translates them.
pub mod I2cTk
pub mod Oc4Tk
use sddf_i2c_driver.Prelude.{ℕ, Bool, true, false, Option, none, some, ◌==◌, if◌then◌else◌}

-- The switch of i2cLoadTokens: the hardware token, or none for an invalid one.
unfoldable pub translate : ℕ → Option ℕ
translate tok =
    if tok == I2cTk.tk_end
    then some Oc4Tk.tk_end
    else if tok == I2cTk.start
    then some Oc4Tk.start
    else if tok == I2cTk.addrw
    then some Oc4Tk.addrw
    else if tok == I2cTk.addrr
    then some Oc4Tk.addrr
    else if tok == I2cTk.dat
    then some Oc4Tk.dat
    else if tok == I2cTk.data_end
    then some Oc4Tk.data_end
    else if tok == I2cTk.stop
    then some Oc4Tk.stop
    else none

-- The data direction after the switch: `true` is a read.
unfoldable pub direction : ℕ → Bool → Bool
direction tok ddr = if tok == I2cTk.addrw then false else if tok == I2cTk.addrr then true else ddr
