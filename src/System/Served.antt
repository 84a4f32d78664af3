-- ===== src/System/Served.antt =====
-- A request at work is served: interrupt by interrupt (i2cirq, i2c/i2c-odroid-c4.c), until its
-- buffers go back.
use sddf_i2c_driver.Prelude.{
  ℕ, zero, suc, ◌≡◌, refl, ◌∙◌, ap, List, [], ◌∷◌, ◌++◌, some, Bool, true, false, if◌then◌else◌,
  ◌==◌,
}
use sddf_i2c_driver.Interface.{Interface}
use sddf_i2c_driver.Ring.{Desc, desc}
use sddf_i2c_driver.Ring.Handle.{HandleHolds}
use sddf_i2c_driver.Transport.{buf_sz, req_ring, ret_ring}
use sddf_i2c_driver.Transport.Lens.{IsBus, m2, m3}
use sddf_i2c_driver.Driver.{
  Driver, interface, with_interface, i2cirq, notify, server_notify_id, notified, acknowledge,
  irq_i2c_m2, irq_i2c_m2_to, irq_i2c_m3, irq_i2c_m3_to, Signal, irq_ack,
}
use sddf_i2c_driver.Driver.Load.Spec.{Means, done}
use sddf_i2c_driver.Driver.Sent.{Sent}
use sddf_i2c_driver.System.Job.{Working, OnlyHead, i2cirq-Ends}
use sddf_i2c_driver.System.Irq.{finished}
use sddf_i2c_driver.System.Answer.{fault}

-- The interrupts to come: whether each is a timeout, and the registers that the hardware leaves.
abbrev pub Interrupts : Type 0
Interrupts = ℕ → Bool × Interface

abbrev pub later : Interrupts → Interrupts
later hw k = hw (suc k)

-- The channel of an interrupt.
abbrev pub irq_of : ℕ → Bool → ℕ
irq_of bus timeout =
    if bus == 2
    then (if timeout then irq_i2c_m2_to else irq_i2c_m2)
    else if timeout
    then irq_i2c_m3_to
    else irq_i2c_m3

-- What the driver tells during `n` interrupts and one more, which ends a request: it acknowledges
-- each of them, and notifies the server in the last.
abbrev pub signalled : ℕ → ℕ → Interrupts → List Signal → List Signal
signalled bus zero hw l = irq_ack (irq_of bus (hw 0).0) ∷ notify server_notify_id ∷ l
signalled bus (suc n) hw l = signalled bus n (later hw) (irq_ack (irq_of bus (hw 0).0) ∷ l)

-- From `s` to `t` the interrupts `hw`, `n` of them, have the tokens and the data sent to the
-- address `to`, part by part, and the last one ends the request.
pub data Served (bus to : ℕ)
    : ℕ → Interrupts → (toks bytes : List ℕ) → Driver → Driver → Type 0 where
  ends :
      {hw : Interrupts} {s t : Driver}
      → notified (irq_of bus (hw 0).0) (with_interface bus (hw 0).1 s) ≡ some t
      → Served bus to (suc zero) hw [] [] s t
  batch :
      {n : ℕ} {hw : Interrupts} {now rest now_bytes rest_bytes : List ℕ} {s s' t : Driver}
      → notified (irq_of bus (hw 0).0) (with_interface bus (hw 0).1 s) ≡ some s'
      → Sent (hw 0).1 (interface bus s') to now now_bytes
      → Served bus to n (later hw) rest rest_bytes s' t
      → Served bus to (suc n) hw (now ++ rest) (now_bytes ++ rest_bytes) s t

-- The error of the `i`-th interrupt.
abbrev pub fault_at : Interrupts → ℕ → ℕ
fault_at hw i = fault (hw i).0 (hw i).1

-- What serving the request at work in `s` leaves, where the last interrupt has the error `err`.
pub record Returned (bus err n : ℕ) (hw : Interrupts) (s t : Driver) (rf ru tf tu : List Desc)
    : Type 0 where
  pub req_rings :
      HandleHolds
        (req_ring bus t.transport)
        (rf ++ desc (s.if_state bus).current_req buf_sz ∷ [])
        ru
  pub ret_rings :
      HandleHolds
        (ret_ring bus t.transport)
        tf
        (tu ++ desc (s.if_state bus).current_ret (s.if_state bus).current_req_len ∷ [])
  pub idle : (t.if_state bus).current_req ≡ 0
  pub only : OnlyHead (s.if_state bus).current_ret s.transport.mem t.transport.mem
  pub error : t.transport.mem (s.if_state bus).current_ret ≡ err
  pub told : t.signals ≡ signalled bus n hw s.signals

pub Means-nil :
    {ddr : Bool} {toks bytes : List ℕ} → Means ddr [] toks bytes → (toks ≡ []) × (bytes ≡ [])
Means-nil done = (refl, refl)

pub interface_back :
    {bus : ℕ} (b : IsBus bus) (r : Interface) (s : Driver)
    → interface bus (with_interface bus r s) ≡ r
interface_back m2 r s = refl
interface_back m3 r s = refl

-- An interrupt is served by i2cirq, and acknowledged.
pub notified-i2cirq :
    {bus : ℕ} (b : IsBus bus) (timeout : Bool) (s : Driver)
    → notified (irq_of bus timeout) s ≡ acknowledge (irq_of bus timeout) (i2cirq bus timeout s)
unfolding notified
notified-i2cirq m2 true s = refl
notified-i2cirq m2 false s = refl
notified-i2cirq m3 true s = refl
notified-i2cirq m3 false s = refl

abbrev pub with_signals : List Signal → Driver → Driver
with_signals l s = record s { signals = l }

pub acknowledged :
    {bus : ℕ} (b : IsBus bus) (timeout : Bool) (s t : Driver)
    → i2cirq bus timeout s ≡ some t
    → notified (irq_of bus timeout) s
      ≡ some (with_signals (irq_ack (irq_of bus timeout) ∷ t.signals) t)
acknowledged {bus} b timeout s t e =
    notified-i2cirq b timeout s ∙ ap (acknowledge (irq_of bus timeout)) e

module _ {bus : ℕ} (b : IsBus bus) {rf ru tf tu : List Desc} where
  -- The other registers, signals and bus do not matter to the request at work.
  pub Working-same :
      {told : Bool} {request toks bytes : List ℕ} (s s' : Driver)
      → s'.transport ≡ s.transport
      → s'.if_state bus ≡ s.if_state bus
      → Working told bus s rf ru tf tu request toks bytes
      → Working told bus s' rf ru tf tu request toks bytes
  Working-same s s' e f w = record {
    can_end = record {
      req_rings = rw e w.can_end.req_rings;
      ret_rings = rw e w.can_end.ret_rings;
      req_room = w.can_end.req_room;
      ret_room = w.can_end.ret_room;
      busy = rw f w.can_end.busy;
      ret_busy = rw f w.can_end.ret_busy;
      short = rw f w.can_end.short;
    };
    pending = rw (e, f) w.pending;
    small = rw (e, f) w.small;
    flag = rw f w.flag;
    apart = rw f w.apart;
  }

  -- The last interrupt.
  pub Working-last :
      {request toks bytes : List ℕ} (to : ℕ) (hw : Interrupts) (s : Driver)
      → Working false bus s rf ru tf tu request toks bytes
      → finished bus (with_interface bus (hw 0).1 s) ≡ true
      → (t : Driver) × Served bus to (suc zero) hw [] [] s t
        × Returned bus (fault_at hw 0) zero hw s t rf ru tf tu
  Working-last to hw s w f =
      let w' = Working-same s (with_interface bus (hw 0).1 s) refl refl w in
      let (t, e, c, only, told) = i2cirq-Ends b (hw 0).0 (with_interface bus (hw 0).1 s) w' f in
      (
        with_signals (irq_ack (irq_of bus (hw 0).0) ∷ t.signals) t,
        ends (acknowledged b (hw 0).0 (with_interface bus (hw 0).1 s) t e),
        record {
          req_rings = c.req_rings;
          ret_rings = c.ret_rings;
          idle = ap (λ st. st.current_req) c.state;
          only = only;
          error = rw (interface_back b (hw 0).1 s) at told;
          told = ap (λ l. irq_ack (irq_of bus (hw 0).0) ∷ l) c.signals;
        },
      )
