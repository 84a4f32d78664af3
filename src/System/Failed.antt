-- ===== src/System/Failed.antt =====
-- A request that fails on the bus: the interrupt with the error (i2cirq, i2c/i2c-odroid-c4.c) ends
-- it, and the server (driverNotify, i2c/i2c.c) hears of it.
use sddf_i2c_driver.Prelude.{
  ℕ, zero, suc, ◌+◌, ◌*◌, ◌<◌, ◌≡◌, refl, ◌∙◌, ap, ◌≢◌, List, [], ◌∷◌, ◌++◌, arith, some, Bool,
  true, false, length, if◌then◌else◌, ==_of_ne,
}
use sddf_i2c_driver.Prelude.Bits.{field}
use sddf_i2c_driver.Interface.{Interface, i2c_get_error, i2c_halt, neg}
use sddf_i2c_driver.Interface.Control.{i2c_get_error_lem, i2c_halt_lem}
use sddf_i2c_driver.Ring.{Desc, desc}
use sddf_i2c_driver.Ring.Handle.{HandleHolds}
use sddf_i2c_driver.Transport.{Memory, buf_sz, ret_buf_err, req_ring, ret_ring}
use sddf_i2c_driver.Transport.Lens.{IsBus}
use sddf_i2c_driver.Driver.{Driver, interface, i2cirq, complete, is_negative, err_timeout, err_nack}
use sddf_i2c_driver.Server.{Server, failure, report_of, drain}
use sddf_i2c_driver.System.Complete.{CanEnd, complete-Completed}
use sddf_i2c_driver.System.Irq.{finished, answered, i2cirq-finished}
use sddf_i2c_driver.System.Answer.{code, failed_at, answered-Written}
use sddf_i2c_driver.System.Serve.{drain-Drained}
use sddf_i2c_driver.System.Steps.{at_server}

-- The registers report an error at a token other than END.
pub record HasError (r : Interface) : Type 0 where
  pub error : field 3 1 r.ctl ≡ 1
  pub token : field 4 4 r.ctl ≢ 0

halt-HasError : (r : Interface) → HasError r → HasError (i2c_halt r).1
halt-HasError r h = record {
  error = omega (arith, (i2c_halt_lem r).2, h.error);
  token = omega (arith, (i2c_halt_lem r).2, h.token);
}

neg-is_negative : (n : ℕ) → n ≢ 0 → is_negative (neg n) ≡ true
neg-is_negative zero ne = absurd (ne refl)
neg-is_negative (suc n) ne = refl

HasError-finished : (bus : ℕ) (s : Driver) → HasError (interface bus s) → finished bus s ≡ true
HasError-finished bus s h =
    let r = (i2c_halt (interface bus s)).1 in
    let k = halt-HasError (interface bus s) h in
    let e : i2c_get_error r ≡ neg (16 * field 4 4 r.ctl) =
      i2c_get_error_lem r ∙ rw (k.error) refl in
    rw (e, neg-is_negative (16 * field 4 4 r.ctl) (omega (arith, k.token)))

-- The error that the server is told.
abbrev pub reported : Bool → ℕ
reported timeout = if timeout then err_timeout else err_nack

reported-ne_zero : (timeout : Bool) → reported timeout ≢ 0
reported-ne_zero true = omega arith
reported-ne_zero false = omega arith

report_of-failure :
    (bus ret err client addr : ℕ) (m : Memory)
    → m (ret + ret_buf_err) ≡ err
    → err ≢ 0
    → m (ret + 2) ≡ client
    → m (ret + 3) ≡ addr
    → report_of bus ret m ≡ failure err bus client addr
unfolding report_of
report_of-failure bus ret err client addr m e ne f g = rw (e, f, g, ==_of_ne err 0 ne)

-- What an interrupt with an error leaves, and what the server then makes of it.
pub record Failed (bus : ℕ) (timeout : Bool) (s s' : Driver) (v after : Server)
    (rf ru tf : List Desc) : Type 0 where
  pub ends : i2cirq bus timeout s ≡ some s'
  pub idle : (s'.if_state bus).current_req ≡ 0
  pub req_rings :
      HandleHolds
        (req_ring bus s'.transport)
        (rf ++ desc (s.if_state bus).current_req buf_sz ∷ [])
        ru
  pub reports :
      drain bus (at_server v s')
      ≡ some (
        failure
              (reported timeout)
              bus
              (s.transport.mem ((s.if_state bus).current_ret + 2))
              (s.transport.mem ((s.if_state bus).current_ret + 3))
            ∷ [],
        after,
      )
  pub ret_rings :
      HandleHolds
        (ret_ring bus after.transport)
        (tf ++ desc (s.if_state bus).current_ret buf_sz ∷ [])
        []

-- An interrupt with an error at a token other than END ends the request at work, however much of
-- it is left: the interface is idle and the request buffer is free again. A round of
-- `driverNotify` of the server then reports a failure for the client and the address that stand in
-- the return buffer, by a timeout or a NACK as the interrupt was, and frees the return buffer. The
-- rings have room, no answer is unread on the bus before, and no other request was announced
-- meanwhile.
pub error-Failed :
    {bus : ℕ} {rf ru tf : List Desc} (b : IsBus bus) (timeout : Bool) (s : Driver) (v : Server)
    → CanEnd bus s rf ru tf []
    → (s.if_state bus).notified ≡ false
    → HasError (interface bus s)
    → length tf < 511
    → (s' : Driver) × (after : Server) × Failed bus timeout s s' v after rf ru tf
error-Failed {bus} {rf} {ru} {tf} b timeout s v can quiet h room =
    let ret = (s.if_state bus).current_ret in
    let a = answered bus timeout s in
    let m = s.transport.mem in
    let can' : CanEnd bus a rf ru tf [] = record {
      req_rings = can.req_rings;
      ret_rings = can.ret_rings;
      req_room = can.req_room;
      ret_room = can.ret_room;
      busy = can.busy;
      ret_busy = can.ret_busy;
      short = can.short;
    } in
    let c = complete-Completed b a can' in
    let s' = complete bus a in
    let w = answered-Written bus timeout s in
    let k = halt-HasError (interface bus s) h in
    let told : code timeout (failed_at (i2c_halt (interface bus s)).1.ctl) ≡ reported timeout =
      rw (k.error, ==_of_ne _ 0 k.token) refl in
    let (after, x) = drain-Drained b (at_server v s') c.ret_rings room can.ret_busy in
    let report =
      report_of-failure bus ret (reported timeout) (m (ret + 2)) (m (ret + 3)) s'.transport.mem
        (rw c.mem (w.error ∙ told)) (reported-ne_zero timeout)
        (rw c.mem (w.rest (ret + 2) (omega arith) (omega arith)))
        (rw c.mem (w.rest (ret + 3) (omega arith) (omega arith))) in
    (
      s',
      after,
      record {
        ends = i2cirq-finished bus timeout s can.ret_busy (HasError-finished bus s h) quiet;
        idle = ap (λ st. st.current_req) c.state;
        req_rings = c.req_rings;
        reports = x.works ∙ ap (λ z. some (z ∷ [], after)) report;
        ret_rings = x.ret_rings;
      },
    )
