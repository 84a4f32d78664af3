-- ===== src/Setup/Reg.antt =====
-- The register fields of i2c/include/odroidc4-i2c-mem.h that setupi2c sets.
use sddf_i2c_driver.Prelude.{ℕ, ◌-◌, ◌^◌}
use sddf_i2c_driver.Prelude.Words.{◌<<<◌}

abbrev pub ctrl_ack_ignore : ℕ
ctrl_ack_ignore = 2 ^ 1

abbrev pub ctrl_manual : ℕ
ctrl_manual = 2 ^ 22

abbrev pub ctrl_cntl_jic : ℕ
ctrl_cntl_jic = 2 ^ 31

abbrev pub ctrl_clkdiv_shift : ℕ
ctrl_clkdiv_shift = 12

abbrev pub ctrl_clkdiv_mask : ℕ
ctrl_clkdiv_mask = (2 ^ 10 - 1) <<< 12

abbrev pub addr_scldelay_shft : ℕ
addr_scldelay_shft = 16

abbrev pub addr_sdafilter : ℕ
addr_sdafilter = 0x700

abbrev pub addr_sclfilter : ℕ
addr_sclfilter = 0x3800

abbrev pub addr_scldelay_enable : ℕ
addr_scldelay_enable = 2 ^ 28
