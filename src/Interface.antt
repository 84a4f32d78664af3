-- ===== src/Interface.antt =====
-- The registers of one i2c master (`i2c_if_t` of i2c/i2c-odroid-c4.c, fields of
-- i2c/include/odroidc4-i2c-mem.h) and the functions on them. Within a handler of the driver a
-- register reads as it was last written; what the hardware does happens between handlers.
pub mod Control
pub mod Width
use sddf_i2c_driver.Prelude.{
  ℕ, zero, suc, ◌+◌, ◌-◌, ◌*◌, ◌/◌, ◌^◌, Bool, true, false, not, List, [], ◌∷◌, ◌==◌, if◌then◌else◌,
  ℤ, pos, negsuc, bit_and, bit_or,
}
use sddf_i2c_driver.Prelude.Words.{u8, u32, ◌<<<◌, ◌>>>◌, not32}

pub record Interface : Type 0 where
  pub ctl : ℕ
  pub addr : ℕ
  pub tk_list0 : ℕ
  pub tk_list1 : ℕ
  pub wdata0 : ℕ
  pub wdata1 : ℕ
  pub rdata0 : ℕ
  pub rdata1 : ℕ

-- What i2cDump prints.
pub record Dump : Type 0 where
  pub start : ℕ
  pub status : ℕ
  pub error : ℕ
  pub curr_tk : ℕ
  pub rd_cnt : ℕ
  pub addr : ℕ
  pub tokens0 : List ℕ
  pub tokens1 : List ℕ
  pub wdata0 : List ℕ
  pub wdata1 : List ℕ
  pub rdata0 : List ℕ
  pub rdata1 : List ℕ

-- `x ? 1 : 0`
abbrev pub flag : ℕ → ℕ
flag x = if x == 0 then 0 else 1

-- A loop of i2cDump at round `i`, with `n` rounds left: `(reg >> (i * width)) & mask`.
unfoldable pub dump_fields : ℕ → ℕ → ℕ → ℕ → ℕ → List ℕ
dump_fields width mask reg zero i = []
dump_fields width mask reg (suc n) i =
    u8 (bit_and (reg >>> (i * width)) mask) ∷ dump_fields width mask reg n (i + 1)

-- REG_CTRL_CURR_TK and REG_CTRL_RD_CNT are sums of bits with no parentheses, so in
-- `ctl & REG_CTRL_CURR_TK` only the first bit is a mask and the others are set.
unfoldable pub i2c_dump : Interface → Dump
unfolding dump_fields
i2c_dump r = record {
  start = flag (bit_and r.ctl 0x1);
  status = flag (bit_and r.ctl 0x4);
  error = flag (bit_and r.ctl 0x8);
  curr_tk = u8 (bit_or (bit_or (bit_or (bit_and r.ctl 0x10) 0x20) 0x40) 0x80 >>> 4);
  rd_cnt = u8 (bit_or (bit_or (bit_or (bit_and r.ctl 0x100) 0x200) 0x400) 0x800 >>> 8);
  addr = bit_and (r.addr >>> 1) 0x7f;
  tokens0 = dump_fields 4 0xf r.tk_list0 8 0;
  tokens1 = dump_fields 4 0xf r.tk_list1 8 0;
  wdata0 = dump_fields 8 0xff r.wdata0 4 0;
  wdata1 = dump_fields 8 0xff r.wdata1 4 0;
  rdata0 = dump_fields 8 0xff r.rdata0 4 0;
  rdata1 = dump_fields 8 0xff r.rdata1 4 0;
}

-- `-n` of a `uint8_t`.
abbrev pub neg : ℕ → ℤ
neg zero = pos 0
neg (suc n) = negsuc n

-- All three fields are stored in a `uint8_t`.
unfoldable pub i2c_get_error : Interface → ℤ
i2c_get_error r =
    if u8 (bit_and r.ctl 0x8) == 0
    then pos (u8 (bit_and r.ctl 0xf00))
    else neg (u8 (bit_and r.ctl 0xf0))

unfoldable pub i2c_start : Interface → ℤ × Interface
i2c_start r =
    let ctl' = bit_or (bit_and r.ctl (not32 0x1)) 0x1 in
    (if bit_and ctl' 0x1 == 0 then negsuc 0 else pos 0, record r { ctl = ctl' })

unfoldable pub i2c_halt : Interface → ℤ × Interface
i2c_halt r =
    let ctl' = bit_and r.ctl (not32 0x1) in
    (if bit_and ctl' 0x1 == 0 then pos 0 else negsuc 0, record r { ctl = ctl' })

unfoldable pub i2c_flush : Interface → Interface
i2c_flush r = record r { tk_list0 = 0; tk_list1 = 0 }
