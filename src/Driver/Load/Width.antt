-- ===== src/Driver/Load/Width.antt =====
-- The loop of i2cLoadTokens (i2c/i2c-odroid-c4.c) stays within the 32 bits of the registers, so no
-- shift in it loses a bit.
use native.Mathlib.Nat.{pow-le-pow_right, mul-lt-mul_of_pos_right, mul-le-mul_right, one-le-pow}
use sddf_i2c_driver.Prelude.{
  ℕ, zero, suc, ◌+◌, ◌-◌, ◌*◌, ◌^◌, ◌≤◌, ◌<◌, ◌≡◌, inl, inr, true, none, some, arith, Bool-cases,
  Option, Option-cases, bit_and, ltb, lt_of_ltb, not, ◌&&◌, ◌==◌,
}
use sddf_i2c_driver.Prelude.Bits.{bit_or_lt, bit_and_lt}
use sddf_i2c_driver.Prelude.Words.{u32, int_lt, not32, ◌<<<◌}
use sddf_i2c_driver.Token.{translate, direction}
use sddf_i2c_driver.Token.Oc4Tk
use sddf_i2c_driver.Interface.{Interface}
use sddf_i2c_driver.Interface.Width.{Fit32}
use sddf_i2c_driver.Driver.Load.{
  Loader, set_address, put_token, put_data, pad, put, load_step, load_test, load_loop,
}
use sddf_i2c_driver.Driver.Load.Fuel.{load_loop-stop, load_loop-step, load_loop-invalid}
use sddf_i2c_driver.Driver.Load.Slots.{pow-add}
use sddf_i2c_driver.Driver.Load.Steps.{translate-lt}

-- A value of `w` bits in the last slot, `top`, or a lower one.
slot_lt : (n top w x : ℕ) → n ≤ top → x < 2 ^ w → x * 2 ^ (n * w) < 2 ^ (top * w + w)
slot_lt n top w x h k =
    let pos : 0 < 2 ^ (n * w) = one-le-pow (n * w) 2 (omega arith) in
    let below : x * 2 ^ (n * w) < 2 ^ w * 2 ^ (n * w) = mul-lt-mul_of_pos_right k pos in
    let up : w + n * w ≤ top * w + w = omega (arith, mul-le-mul_right w h) in
    let most : 2 ^ (w + n * w) ≤ 2 ^ (top * w + w) = pow-le-pow_right (omega arith) up in
    omega (arith, below, most, pow-add w (n * w))

pub set_address-Fit32 : (r : Interface) (a : ℕ) → Fit32 r → Fit32 (set_address r a)
unfolding set_address
set_address-Fit32 r a k =
    let low : bit_and a 0x7f < 2 ^ 7 = bit_and_lt 7 a 0x7f (omega arith) in
    let kept = bit_and_lt 32 r.addr (not32 0x7f) (omega arith) in
    ground
      (arith, bit_or_lt 32 (bit_and r.addr (not32 0x7f)) (bit_and a 0x7f <<< 1) kept (omega arith))

put_token-Fit32 : (n tk : ℕ) (r : Interface) → n < 16 → tk < 16 → Fit32 r → Fit32 (put_token n tk r)
unfolding put_token
put_token-Fit32 n tk r h j k = elim (Bool-cases (ltb n 8)) [
  | inl e ↦
      let low = bit_and_lt 4 tk 0xf (omega arith) in
      let slot = slot_lt n 7 4 (bit_and tk 0xf) (omega (arith, lt_of_ltb n 8 e)) low in
      let fits = bit_or_lt 32 r.tk_list0 (bit_and tk 0xf <<< (n * 4)) k.tk_list0 slot in
      rw e (ground (arith, fits))
  | inr e ↦
      let fits =
        bit_or_lt 32 r.tk_list1 (tk <<< ((n - 8) * 4)) k.tk_list1
          (slot_lt (n - 8) 7 4 tk (omega arith) j) in
      rw e (ground (arith, fits))
]

put_data-Fit32 :
    (n byte : ℕ) (r : Interface) → n < 8 → byte < 256 → Fit32 r → Fit32 (put_data n byte r)
unfolding put_data
put_data-Fit32 n byte r h j k = elim (Bool-cases (ltb n 4)) [
  | inl e ↦
      let fits =
        bit_or_lt 32 r.wdata0 (byte <<< (n * 8)) k.wdata0
          (slot_lt n 3 8 byte (omega (arith, lt_of_ltb n 4 e)) j) in
      rw e (ground (arith, fits))
  | inr e ↦
      let fits =
        bit_or_lt 32 r.wdata1 (byte <<< ((n - 4) * 8)) k.wdata1
          (slot_lt (n - 4) 3 8 byte (omega arith) j) in
      rw e (ground (arith, fits))
]

put-Fit32 :
    (tk byte : ℕ) (l : Loader)
    → l.tk_offset < 16
    → l.wdat_offset < 8
    → tk < 16
    → byte < 256
    → Fit32 l.regs
    → Fit32 (put tk byte l).regs
unfolding put put_token put_data
put-Fit32 tk byte l h h' j j' k =
    let a = put_token-Fit32 l.tk_offset tk l.regs h j k in
    elim (Bool-cases ((tk == Oc4Tk.dat) && not l.ddr)) [
      | inl e ↦ rw e (put_data-Fit32 l.wdat_offset byte (put_token l.tk_offset tk l.regs) h' j' a)
      | inr e ↦ rw e a
    ]

module _ (tokens : ℕ → ℕ) (len : ℕ) (octets : (k : ℕ) → tokens k < 256) where
  abbrev Held : Option Loader → Type 0
  Held none = Unit
  Held (some l) = Fit32 l.regs

  token-Held :
      (tok byte : ℕ) (l : Loader)
      → l.tk_offset < 16
      → l.wdat_offset < 8
      → byte < 256
      → Fit32 l.regs
      → Held (elim (translate tok) as (λ x. Option Loader) [
        | none ↦ none
        | some tk ↦ some (put tk byte (record l { ddr = direction tok l.ddr }))
      ])
  token-Held tok byte l h h' j k = elim (Option-cases (translate tok)) [
    | inl e ↦ rw e tt
    | inr (tk, e) ↦ rw e (
        put-Fit32 tk byte (record l { ddr = direction tok l.ddr }) h h' (translate-lt tok tk e) j k)
  ]

  load_step-Held :
      (l : Loader)
      → l.tk_offset < 16
      → l.wdat_offset < 8
      → Fit32 l.regs
      → Held (load_step tokens len l)
  unfolding load_step pad
  load_step-Held l h h' k = elim (Bool-cases (int_lt l.i len)) [
    | inl e ↦
        rw e (token-Held (tokens (u32 (2 + l.i))) (tokens (u32 (3 + l.i))) l h h' (octets _) k)
    | inr e ↦ rw e (put_token-Fit32 l.tk_offset 0 l.regs h (omega arith) k)
  ]

  load_step-Fit32 :
      (l l' : Loader)
      → load_test tokens len l ≡ true
      → load_step tokens len l ≡ some l'
      → Fit32 l.regs
      → Fit32 l'.regs
  load_step-Fit32 l l' e f k =
      let room : (l.tk_offset < 16) × (l.wdat_offset < 8) = ground (arith, e) in
      rw f at (load_step-Held l room.0 room.1 k)

  pub load_loop-Fit32 :
      (fuel : ℕ) (l : Loader) → Fit32 l.regs → Fit32 (load_loop tokens len fuel l).1.regs
  unfolding load_loop
  load_loop-Fit32 zero l k = k
  load_loop-Fit32 (suc fuel) l k = elim (Bool-cases (load_test tokens len l)) [
    | inr over ↦ rw (load_loop-stop tokens len (suc fuel) l over) k
    | inl e ↦ elim (Option-cases (load_step tokens len l)) [
      | inl f ↦ rw (load_loop-invalid tokens len fuel l e f) k
      | inr (l', f) ↦
          rw (load_loop-step tokens len fuel l e f)
            (load_loop-Fit32 fuel l' (load_step-Fit32 l l' e f k))
    ]
  ]
