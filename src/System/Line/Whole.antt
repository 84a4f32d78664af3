-- ===== src/System/Line/Whole.antt =====
-- The whole programs with requests on bus 2: the handlers `notified` of both (i2c/i2c-odroid-c4.c
-- and i2c/i2c.c), which go through both buses, and the requests of the test functions of i2c/i2c.c.
use mathlib.Core.Option.{some-injective, none-ne-some}
use sddf_i2c_driver.Prelude.{
  length, ℕ, ◌≡◌, refl, sym, ◌∙◌, ap, subst, inl, inr, List, [], some, Bool, Option-cases,
  append-nil,
}
use sddf_i2c_driver.Transport.{alloc_faults}
use sddf_i2c_driver.Transport.Lens.{m2}
use sddf_i2c_driver.Interface.{Interface}
use sddf_i2c_driver.Driver
use sddf_i2c_driver.Driver.{
  Driver, IfState, with_state, with_interface, check_buf, server_notify, server_notify_id, i2cirq,
  acknowledge,
}
use sddf_i2c_driver.Server
use sddf_i2c_driver.Server.{Server, Report, driver_notify_id, drain, submit, driver_notify}
use sddf_i2c_driver.System.BusInv.{Untouched, Untouched-trans}
use sddf_i2c_driver.System.Take.{at_transport}
use sddf_i2c_driver.System.Irq.{i2cirq-Keeps}
use sddf_i2c_driver.System.Steps.{at_server, Pools, NoNull, Sound, irq-Sound, driver_notify-drains}
use sddf_i2c_driver.System.Served.{Interrupts, Served, ends, batch, irq_of, notified-i2cirq}
use sddf_i2c_driver.System.Line.{Programs}
use sddf_i2c_driver.System.Line.Waits.{Waits, Waits-rings}

-- A request of a test function, and the handlers of the two programs.
abbrev pub whole : Programs
whole = record {
  post_faults = λ r x. alloc_faults x.0.transport 2 (length r.message);
  on_post = λ r x. (
    at_transport x.0 (submit r.message r.client r.addr (at_server x.1 x.0)).1.transport,
    (submit r.message r.client r.addr (at_server x.1 x.0)).1,
  );
  on_driver = Driver.notified server_notify_id;
  on_server = Server.notified driver_notify_id;
}

-- What the handlers do where one bus after the other is gone through.
pub notified-check_buf :
    (s u t : Driver)
    → check_buf 2 s ≡ some u
    → check_buf 3 u ≡ some t
    → (Driver.notified server_notify_id s ≡ some t) × (server_notify s ≡ some t)
unfolding Driver.notified server_notify
notified-check_buf s u t e f = let x : server_notify s ≡ some t = rw (server_notify, e, f) in (x, x)

pub notified-drain :
    (v w : Server) (out : List Report)
    → drain 2 v ≡ some (out, w)
    → drain 3 w ≡ some ([], w)
    → Server.notified driver_notify_id v ≡ some (out, w)
unfolding Server.notified
notified-drain v w out e f = driver_notify-drains v e f ∙ ap (λ l. some (l, w)) (append-nil out)

-- Nobody waits on a bus that is left alone.
pub Waits-Untouched : {bus : ℕ} (s t : Driver) → Untouched bus s t → Waits bus s [] → Waits bus t []
Waits-Untouched s t f k = Waits-rings s t f.req f.ret (ap (λ z. z.current_req) f.state ∙ k.idle) k

module _ {g : Pools} (z : NoNull g) where
  -- An interrupt of bus 2 leaves bus 3 alone.
  irq-Untouched :
      (timeout : Bool) (s t : Driver)
      → Sound g s
      → Driver.notified (irq_of 2 timeout) s ≡ some t
      → Sound g t × Untouched 3 s t
  irq-Untouched timeout s t k e = elim (Option-cases (i2cirq 2 timeout s)) [
    | inl n ↦ absurd (none-ne-some t (sym (rw n at (notified-i2cirq m2 timeout s)) ∙ e))
    | inr (u, h) ↦
        let same : acknowledge (irq_of 2 timeout) (some u) ≡ some t =
          sym (rw h at (notified-i2cirq m2 timeout s)) ∙ e in
        let k' = irq-Sound z 2 m2 timeout s u k h in
        let f = (i2cirq-Keeps m2 timeout s u k.bus2 h).1 in
        subst (λ x. Sound g x × Untouched 3 s x) (some-injective _ _ same)
          (
            record { bus2 = k'.bus2; bus3 = k'.bus3 },
            record { req = f.req; ret = f.ret; state = f.state; regs = f.regs },
          )
  ]

  hardware-Sound :
      (r : Interface) (s : Driver)
      → Sound g s
      → Sound g (with_interface 2 r s) × Untouched 3 s (with_interface 2 r s)
  hardware-Sound r s k = (
    record { bus2 = k.bus2; bus3 = k.bus3 },
    record { req = refl; ret = refl; state = refl; regs = refl },
  )

  pub Served-Untouched :
      {to n : ℕ} {hw : Interrupts} {toks bytes : List ℕ} {s t : Driver}
      → Sound g s
      → Served 2 to n hw toks bytes s t
      → Sound g t × Untouched 3 s t
  Served-Untouched {hw = hw} {s = s} {t = t} k (ends e) =
      let (k', f) = hardware-Sound (hw 0).1 s k in
      let (l, h) = irq-Untouched (hw 0).0 (with_interface 2 (hw 0).1 s) t k' e in
      (l, Untouched-trans f h)
  Served-Untouched {hw = hw} {s = s} k (batch {s' = s'} e sent served) =
      let (k', f) = hardware-Sound (hw 0).1 s k in
      let (l, h) = irq-Untouched (hw 0).0 (with_interface 2 (hw 0).1 s) s' k' e in
      let (m, i) = Served-Untouched l served in (m, Untouched-trans f (Untouched-trans h i))
