-- ===== src/System/Answer.antt =====
-- What an interrupt writes into the return buffer (i2cirq, i2c/i2c-odroid-c4.c).
use sddf_i2c_driver.Prelude.{
  ◌⊎◌, inl, inr, some, Bool-cases, refl, ap, ◌∙◌, true, false, ℕ, zero, suc, ◌+◌, ◌*◌, ◌<◌, ◌≡◌,
  ◌≢◌, arith, ◌==◌, if◌then◌else◌, pos, negsuc, Bool, ==_of_ne,
}
use sddf_i2c_driver.Prelude.Bits.{field}
use sddf_i2c_driver.Interface.{Interface, i2c_get_error, i2c_halt, neg}
use sddf_i2c_driver.Interface.Control.{i2c_get_error_lem, i2c_halt_lem}
use sddf_i2c_driver.Transport.{Memory, ret_buf_err, ret_buf_err_tk}
use sddf_i2c_driver.Driver.{
  i2cirq, complete, Driver, interface, store_result, copy_read, error_code, is_negative,
  err_timeout, err_nack,
}
use sddf_i2c_driver.Token.I2cTk
use sddf_i2c_driver.Transport.{push_ret_buf, release_req_buf}
use sddf_i2c_driver.Transport.Lens.{IsBus}
use sddf_i2c_driver.System.BusInv.{load-some, load-LoadFrame}
use sddf_i2c_driver.System.Irq.{answered, finished, i2cirq-goes_on, i2cirq-finished}

-- Two bytes of `m'` are given, the others are those of `m`.
pub record Written (m m' : Memory) (ret err tok : ℕ) : Type 0 where
  pub error : m' (ret + ret_buf_err) ≡ err
  pub token : m' (ret + ret_buf_err_tk) ≡ tok
  pub rest : (a : ℕ) → a ≢ ret + ret_buf_err → a ≢ ret + ret_buf_err_tk → m' a ≡ m a

-- The code of an error at the token `t` of the hardware.
abbrev pub code : Bool → ℕ → ℕ
code timeout t = if t == 0 then 0 else if timeout then err_timeout else err_nack

-- The token that an error stands at, by the control register; 0 if there is no error.
abbrev pub failed_at : ℕ → ℕ
failed_at ctl = if field 3 1 ctl == 0 then 0 else field 4 4 ctl

success-Written :
    (timeout : Bool) (rdata0 ret : ℕ) (m : Memory)
    → Written m (store_result timeout (pos 0) rdata0 ret m) ret 0 0
unfolding store_result copy_read
success-Written timeout rdata0 ret m = record {
  error = ground arith;
  token = ground arith;
  rest = λ a ne ne'. ground arith;
}

failure-Written :
    (timeout : Bool) (k rdata0 ret : ℕ) (m : Memory)
    → k < 255
    → I2cTk.addrr ≢ suc k
    → Written m
        (store_result timeout (negsuc k) rdata0 ret m)
        ret
        (if timeout then err_timeout else err_nack)
        (suc k)
unfolding store_result error_code
failure-Written timeout k rdata0 ret m h ne = record {
  error = ground arith;
  token = ground arith;
  rest = λ a ne ne'. ground arith;
}

result-Written :
    (timeout : Bool) (t rdata0 ret : ℕ) (m : Memory)
    → t < 16
    → Written m (store_result timeout (neg (16 * t)) rdata0 ret m) ret (code timeout t) (16 * t)
result-Written timeout zero rdata0 ret m h = success-Written timeout rdata0 ret m
result-Written timeout (suc k) rdata0 ret m h =
    let e : 16 * suc k ≡ suc (16 * k + 15) = omega arith in
    rw (e, ==_of_ne (suc k) 0 (omega arith))
      (failure-Written timeout (16 * k + 15) rdata0 ret m (omega arith) (omega arith))

-- Once the result is stored, two bytes of the return buffer differ.
pub answered-Written :
    (bus : ℕ) (timeout : Bool) (s : Driver)
    → Written s.transport.mem
        (answered bus timeout s).transport.mem
        (s.if_state bus).current_ret
        (code timeout (failed_at (i2c_halt (interface bus s)).1.ctl))
        (16 * failed_at (i2c_halt (interface bus s)).1.ctl)
answered-Written bus timeout s =
    let r = (i2c_halt (interface bus s)).1 in
    let e : i2c_get_error r ≡ neg (16 * failed_at r.ctl) = ground (arith, i2c_get_error_lem r) in
    rw e (
      result-Written timeout (failed_at r.ctl) r.rdata0 (s.if_state bus).current_ret s.transport.mem
        (ground arith))

-- The error that an interrupt brings, by a timeout or not and by the registers; 0 if there is none.
abbrev pub fault : Bool → Interface → ℕ
fault timeout r = code timeout (failed_at r.ctl)

failed_at-halt : (r : Interface) → failed_at (i2c_halt r).1.ctl ≡ failed_at r.ctl
failed_at-halt r =
    let error : field 3 1 (i2c_halt r).1.ctl ≡ field 3 1 r.ctl =
      omega (arith, (i2c_halt_lem r).2) in
    let token : field 4 4 (i2c_halt r).1.ctl ≡ field 4 4 r.ctl =
      omega (arith, (i2c_halt_lem r).2) in
    rw (error, token) refl

pub fault-halt :
    (timeout : Bool) (r : Interface) → code timeout (failed_at (i2c_halt r).1.ctl) ≡ fault timeout r
fault-halt timeout r = ap (code timeout) (failed_at-halt r)

neg-is_negative : (n : ℕ) → n ≢ 0 → is_negative (neg n) ≡ true
neg-is_negative zero ne = absurd (ne refl)
neg-is_negative (suc n) ne = refl

error_read : (r : Interface) → i2c_get_error (i2c_halt r).1 ≡ neg (16 * failed_at r.ctl)
error_read r =
    let e : i2c_get_error (i2c_halt r).1 ≡ neg (16 * failed_at (i2c_halt r).1.ctl) =
      ground (arith, i2c_get_error_lem (i2c_halt r).1) in
    e ∙ ap (λ n. neg (16 * n)) (failed_at-halt r)

-- i2cirq takes it for an error exactly if there is one.
pub fault-none :
    (timeout : Bool) (r : Interface)
    → fault timeout r ≡ 0
    → is_negative (i2c_get_error (i2c_halt r).1) ≡ false
fault-none timeout r e =
    let z : failed_at r.ctl ≡ 0 = ground (arith, e) in
    ap is_negative (error_read r ∙ ap (λ n. neg (16 * n)) z)

pub fault-some :
    (timeout : Bool) (r : Interface)
    → fault timeout r ≢ 0
    → is_negative (i2c_get_error (i2c_halt r).1) ≡ true
fault-some timeout r ne =
    let z : failed_at r.ctl ≢ 0 = λ e. ne (ap (code timeout) e) in
    ap is_negative (error_read r) ∙ neg-is_negative (16 * failed_at r.ctl) (omega (arith, z))

complete-mem : (bus : ℕ) (s : Driver) → (complete bus s).transport.mem ≡ s.transport.mem
unfolding complete push_ret_buf release_req_buf
complete-mem bus s = ground arith

-- The interrupt ends the request with no other one announced, or it goes on.
abbrev CanReturn : ℕ → Bool → Driver → Type 0
CanReturn bus timeout s =
    ((s.if_state bus).notified ≡ false)
    ⊎ ((fault timeout (interface bus s) ≡ 0) × ((s.if_state bus).remaining ≢ 0))

-- An interrupt with a request at work returns, and writes two bytes of the return buffer and
-- nothing else in memory, by the error bit and the current token of the control register, where it
-- ends the request with no other one announced, or brings no error and finds more to send. With no
-- error, or at the token END, both bytes are 0. Otherwise the first is the code of a timeout or of
-- a NACK, never that of a read without answer, and the second is sixteen times the token. No byte
-- that the hardware has read is copied.
pub i2cirq-Written :
    {bus : ℕ} (b : IsBus bus) (timeout : Bool) (s : Driver)
    → (s.if_state bus).current_req ≢ 0
    → (s.if_state bus).current_ret ≢ 0
    → CanReturn bus timeout s
    → (t : Driver) × (i2cirq bus timeout s ≡ some t)
      × Written s.transport.mem t.transport.mem
          (s.if_state bus).current_ret
          (code timeout (failed_at (interface bus s).ctl))
          (16 * failed_at (interface bus s).ctl)
i2cirq-Written {bus} b timeout s busy ret_busy can =
    let a = answered bus timeout s in
    let w : Written s.transport.mem a.transport.mem (s.if_state bus).current_ret
        (code timeout (failed_at (interface bus s).ctl)) (16 * failed_at (interface bus s).ctl) =
      rw (failed_at-halt (interface bus s)) at (answered-Written bus timeout s) in
    elim (Bool-cases (finished bus s)) [
      | inr f ↦
          let (t, e) = load-some bus a busy in
          let l = load-LoadFrame b a t e in
          (t, i2cirq-goes_on bus timeout s ret_busy f ∙ e, rw l.transport w)
      | inl f ↦
          let quiet : (s.if_state bus).notified ≡ false = elim can [
            | inl n ↦ n
            | inr (none, some_left) ↦
                let g = fault-none timeout (interface bus s) none in
                let h = ==_of_ne (s.if_state bus).remaining 0 some_left in
                let not_yet : finished bus s ≡ false = rw (g, h) refl in absurd (cc (f, not_yet))
          ] in
          (
            complete bus a,
            i2cirq-finished bus timeout s ret_busy f quiet,
            rw (complete-mem bus a) w,
          )
    ]
