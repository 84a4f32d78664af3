-- ===== src/Token/Oc4Tk.antt =====
-- The hardware tokens of i2c/include/odroidc4-i2c-mem.h.
use sddf_i2c_driver.Prelude.{ℕ}

abbrev pub tk_end : ℕ
tk_end = 0

abbrev pub start : ℕ
start = 1

abbrev pub addrw : ℕ
addrw = 2

abbrev pub addrr : ℕ
addrr = 3

abbrev pub dat : ℕ
dat = 4

abbrev pub data_end : ℕ
data_end = 5

abbrev pub stop : ℕ
stop = 6
