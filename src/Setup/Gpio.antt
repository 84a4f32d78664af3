-- ===== src/Setup/Gpio.antt =====
-- The constants of i2c/include/gpio.h.
use sddf_i2c_driver.Prelude.{ℕ}

abbrev pub pm5_x17 : ℕ
pm5_x17 = 0xf0

abbrev pub pm5_x18 : ℕ
pm5_x18 = 0xf00

abbrev pub pm5_x_i2c : ℕ
pm5_x_i2c = 1

abbrev pub pe_a14 : ℕ
pe_a14 = 0xf00_0000

abbrev pub pe_a15 : ℕ
pe_a15 = 0xf000_0000

abbrev pub pe_a_i2c : ℕ
pe_a_i2c = 3

abbrev pub ds_2b_x17 : ℕ
ds_2b_x17 = 0xc

abbrev pub ds_2b_x18 : ℕ
ds_2b_x18 = 0x3

abbrev pub ds_2b_x17_shift : ℕ
ds_2b_x17_shift = 2

abbrev pub ds_2b_x18_shift : ℕ
ds_2b_x18_shift = 4

abbrev pub ds_5a_a14 : ℕ
ds_5a_a14 = 0x3000_0000

abbrev pub ds_5a_a15 : ℕ
ds_5a_a15 = 0xc000_0000

abbrev pub ds_5a_a14_shift : ℕ
ds_5a_a14_shift = 28

abbrev pub ds_5a_a15_shift : ℕ
ds_5a_a15_shift = 30
