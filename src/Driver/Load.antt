-- ===== src/Driver/Load.antt =====
-- The loop of i2cLoadTokens (i2c/i2c-odroid-c4.c): tokens of a request into the registers of an
-- interface. `int` values are bit patterns below 2 ^ 32.
pub mod Spec
pub mod Slots
pub mod Steps
mod Padding
pub mod Loop
pub mod Fuel
pub mod Width
use sddf_i2c_driver.Prelude.{
  ℕ, zero, suc, ◌+◌, ◌-◌, ◌*◌, ◌^◌, Bool, true, false, not, ◌&&◌, Option, none, some, ◌==◌, ltb,
  if◌then◌else◌, bit_and, bit_or,
}
use sddf_i2c_driver.Prelude.Words.{u32, u64, int_lt, sext64, ◌<<<◌, not32}
use sddf_i2c_driver.Token.{translate, direction}
use sddf_i2c_driver.Token.Oc4Tk
use sddf_i2c_driver.Interface.{Interface}
use sddf_i2c_driver.Transport.{Memory}

-- The registers, the data direction and the loop's variables.
pub record Loader : Type 0 where
  pub regs : Interface
  pub ddr : Bool
  pub tk_offset : ℕ
  pub wdat_offset : ℕ
  pub i : ℕ

-- `tokens[k]` for an `int` k.
abbrev pub tokens_at : Memory → ℕ → ℕ → ℕ
tokens_at m req k = m (u64 (req + sext64 k))

-- The address goes into bits 1 to 7; bits 0 to 6 are cleared for it.
unfoldable pub set_address : Interface → ℕ → Interface
set_address r addr = record r {
  addr = bit_or (bit_and r.addr (not32 0x7f)) (bit_and addr 0x7f <<< 1);
}

-- `tk` into the slot `n` of the token registers.
unfoldable pub put_token : ℕ → ℕ → Interface → Interface
put_token n tk r =
    if ltb n 8
    then record r { tk_list0 = bit_or r.tk_list0 (bit_and tk 0xf <<< (n * 4)) }
    else record r { tk_list1 = bit_or r.tk_list1 (tk <<< ((n - 8) * 4)) }

-- A byte into the slot `n` of the write data registers.
unfoldable pub put_data : ℕ → ℕ → Interface → Interface
put_data n byte r =
    if ltb n 4
    then record r { wdata0 = bit_or r.wdata0 (byte <<< (n * 8)) }
    else record r { wdata1 = bit_or r.wdata1 (byte <<< ((n - 4) * 8)) }

-- The padding of the loop: an END token for a slot behind the request.
unfoldable pub pad : Loader → Loader
unfolding put_token
pad l = record l {
  regs = put_token l.tk_offset Oc4Tk.tk_end l.regs;
  tk_offset = l.tk_offset + 1;
  i = u32 (l.i + 1);
}

-- The rest of the loop's body for the hardware token `tk`; `byte` follows the token in the
-- request.
unfoldable pub put : ℕ → ℕ → Loader → Loader
unfolding put_token put_data
put tk byte l =
    let l' = record l { regs = put_token l.tk_offset tk l.regs; tk_offset = l.tk_offset + 1 } in
    if (tk == Oc4Tk.dat) && not l.ddr
    then record l' {
      regs = put_data l.wdat_offset byte l'.regs;
      wdat_offset = l.wdat_offset + 1;
      i = u32 (l.i + 2);
    }
    else record l' { i = u32 (l.i + 1) }

module _ (tokens : ℕ → ℕ) (len : ℕ) where
  -- One round; none at an invalid token.
  unfoldable pub load_step : Loader → Option Loader
  unfolding pad put translate direction
  load_step l =
      let tok = tokens (u32 (2 + l.i)) in
      if not (int_lt l.i len) then some (pad l) else elim (translate tok) [
        | none ↦ none
        | some tk ↦ some (put tk (tokens (u32 (3 + l.i))) (record l { ddr = direction tok l.ddr }))
      ]

  -- `tk_offset < 16 && wdat_offset < 8`
  abbrev pub load_test : Loader → Bool
  load_test l = ltb l.tk_offset 16 && ltb l.wdat_offset 8

  -- The loop with fuel: whether it ended by its test, and the registers and variables then.
  unfoldable pub load_loop : ℕ → Loader → Bool × Loader
  unfolding load_step
  load_loop zero l = (true, l)
  load_loop (suc fuel) l = elim (load_test l) [
    | false ↦ (true, l)
    | true ↦ elim (load_step l) [ none ↦ (false, l) | some l' ↦ load_loop fuel l' ]
  ]
