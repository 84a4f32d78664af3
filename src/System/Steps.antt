-- ===== src/System/Steps.antt =====
-- The steps of the whole system: handlers of the two programs and the hardware between them, on
-- one transport. A program's handler runs to its end before another one starts.
use sddf_i2c_driver.Prelude.{
  ℕ, ◌≡◌, refl, sym, ◌∙◌, ap, subst, ◌⊎◌, inl, inr, List, [], ◌++◌, arith, ◌==◌, length, Option,
  none, some, if◌then◌else◌, Bool, true, false, Option-cases, get_or,
}
use mathlib.Core.Option.{some-injective, none-ne-some}
use sddf_i2c_driver.Interface.{Interface}
use sddf_i2c_driver.Transport.{Transport, alloc_req_buf, alloc_faults}
use sddf_i2c_driver.Transport.Lens.{IsBus, m2, m3}
use sddf_i2c_driver.Driver
use sddf_i2c_driver.Driver.{
  Driver, check_buf, server_notify, i2cirq, with_interface, acknowledge, server_notify_id,
  irq_i2c_m2, irq_i2c_m2_to, irq_i2c_m3, irq_i2c_m3_to,
}
use sddf_i2c_driver.Server
use sddf_i2c_driver.Server.{Server, Report, driver_notify_id, drain, submit, driver_notify}
use sddf_i2c_driver.System.BusInv.{Keeps, Untouched, Untouched-Keeps}
use sddf_i2c_driver.System.Work.{check_buf-Keeps}
use sddf_i2c_driver.System.Take.{at_transport}
use sddf_i2c_driver.System.Irq.{i2cirq-Keeps}
use sddf_i2c_driver.System.Serve.{Books, Kept-Books, drain-Books, alloc_req_buf-Books}

-- The buffers of each ring pair.
pub record Pools : Type 0 where
  pub m2_req : ℕ → ℕ
  pub m2_ret : ℕ → ℕ
  pub m3_req : ℕ → ℕ
  pub m3_ret : ℕ → ℕ

-- No buffer is at NULL.
pub record NoNull (g : Pools) : Type 0 where
  pub m2_req : g.m2_req 0 ≡ 0
  pub m2_ret : g.m2_ret 0 ≡ 0
  pub m3_req : g.m3_req 0 ≡ 0
  pub m3_ret : g.m3_ret 0 ≡ 0

-- The books of both buses.
pub record Sound (g : Pools) (s : Driver) : Type 0 where
  pub bus2 : Keeps g.m2_req g.m2_ret 2 s
  pub bus3 : Keeps g.m3_req g.m3_ret 3 s

-- The driver's state stands for the shared memory too; the server sees it through `at_server`.
abbrev pub at_server : Server → Driver → Server
at_server v s = record v { transport = s.transport }

-- A step of the driver, of the server, or of the hardware of one bus. None of them goes through NULL.
pub data Step : Driver × Server → Driver × Server → Type 0 where
  driver :
      (c : ℕ) {s s' : Driver} {v : Server} → Driver.notified c s ≡ some s' → Step (s, v) (s', v)
  server :
      (c : ℕ) {s : Driver} {v v' : Server} {out : List Report}
      → Server.notified c (at_server v s) ≡ some (out, v')
      → Step (s, v) (at_transport s v'.transport, v')
  request :
      (bytes : List ℕ) (cid addr : ℕ) {s : Driver} {v : Server}
      → alloc_faults s.transport 2 (length bytes) ≡ false
      → Step
          (s, v)
          (
            at_transport s (submit bytes cid addr (at_server v s)).1.transport,
            (submit bytes cid addr (at_server v s)).1,
          )
  hardware :
      (bus : ℕ) (r : Interface) {s : Driver} {v : Server} → Step (s, v) (with_interface bus r s, v)

-- Some number of steps.
pub data Steps (x : Driver × Server) : Driver × Server → Type 0 where
  start : Steps x x
  next : {y z : Driver × Server} → Steps x y → Step y z → Steps x z

pub submit-transport :
    (bytes : List ℕ) (cid addr : ℕ) (v : Server)
    → (submit bytes cid addr v).1.transport
      ≡ (alloc_req_buf v.transport 2 (length bytes) (λ k. get_or bytes k 0) cid addr).1
unfolding submit
submit-transport bytes cid addr v = ground arith

either_branch :
    {A : Type 0} (x : Bool) (a b : A) {c : A} → (if x then a else b) ≡ c → (a ≡ c) ⊎ (b ≡ c)
either_branch true a b e = inl e
either_branch false a b e = inr e

pub driver_notify-drains :
    (v : Server) {o o' : List Report} {w w' : Server}
    → drain 2 v ≡ some (o, w)
    → drain 3 w ≡ some (o', w')
    → driver_notify v ≡ some (o ++ o', w')
unfolding driver_notify
driver_notify-drains v e f = rw (driver_notify, e, f)

module _ {g : Pools} (z : NoNull g) where
  bus2-Sound :
      (s t : Driver) → Sound g s → Keeps g.m2_req g.m2_ret 2 t × Untouched 3 s t → Sound g t
  bus2-Sound s t v h = record { bus2 = h.0; bus3 = Untouched-Keeps h.1 v.bus3 }

  bus3-Sound :
      (s t : Driver) → Sound g s → Keeps g.m3_req g.m3_ret 3 t × Untouched 2 s t → Sound g t
  bus3-Sound s t v h = record { bus2 = Untouched-Keeps h.1 v.bus2; bus3 = h.0 }

  pub server_notify-Sound : (s t : Driver) → Sound g s → server_notify s ≡ some t → Sound g t
  unfolding server_notify
  server_notify-Sound s t v e = elim (Option-cases (check_buf 2 s)) [
    | inl n ↦ absurd (none-ne-some t (rw (server_notify, n) at e))
    | inr (u, h) ↦
        let v' = bus2-Sound s u v (check_buf-Keeps m2 z.m2_req z.m2_ret s u v.bus2 h) in
        bus3-Sound u t v'
          (check_buf-Keeps m3 z.m3_req z.m3_ret u t v'.bus3 (rw (server_notify, h) at e))
  ]

  acknowledge-Sound :
      (c : ℕ) (o : Option Driver) (t : Driver)
      → ((u : Driver) → o ≡ some u → Sound g u)
      → acknowledge c o ≡ some t
      → Sound g t
  acknowledge-Sound c none t f e = absurd (none-ne-some t e)
  acknowledge-Sound c (some u) t f e =
      let v = f u refl in
      subst (Sound g) (some-injective _ _ e) (record { bus2 = v.bus2; bus3 = v.bus3 })

  pub irq-Sound :
      (bus : ℕ) (b : IsBus bus) (timeout : Bool) (s t : Driver)
      → Sound g s
      → i2cirq bus timeout s ≡ some t
      → Sound g t
  irq-Sound _ m2 timeout s t v e = bus2-Sound s t v (i2cirq-Keeps m2 timeout s t v.bus2 e)
  irq-Sound _ m3 timeout s t v e = bus3-Sound s t v (i2cirq-Keeps m3 timeout s t v.bus3 e)

  pub driver-Sound : (c : ℕ) (s t : Driver) → Sound g s → Driver.notified c s ≡ some t → Sound g t
  unfolding Driver.notified
  driver-Sound c s t v e =
      let m3_to = if c == irq_i2c_m3_to then acknowledge c (i2cirq 3 true s) else some s in
      let m3_on = if c == irq_i2c_m3 then acknowledge c (i2cirq 3 false s) else m3_to in
      let m2_to = if c == irq_i2c_m2_to then acknowledge c (i2cirq 2 true s) else m3_on in
      let m2_on = if c == irq_i2c_m2 then acknowledge c (i2cirq 2 false s) else m2_to in
      let irq : (bus : ℕ)
          → IsBus bus
          → (timeout : Bool) → acknowledge c (i2cirq bus timeout s) ≡ some t
          → Sound g t =
        λ bus b timeout.
          acknowledge-Sound c (i2cirq bus timeout s) t (λ u. irq-Sound bus b timeout s u v) in
      elim (either_branch (c == server_notify_id) (server_notify s) m2_on e) [
        | inl h ↦ server_notify-Sound s t v h
        | inr e ↦ elim (either_branch (c == irq_i2c_m2) _ m2_to e) [
          | inl h ↦ irq 2 m2 false h
          | inr e ↦ elim (either_branch (c == irq_i2c_m2_to) _ m3_on e) [
            | inl h ↦ irq 2 m2 true h
            | inr e ↦ elim (either_branch (c == irq_i2c_m3) _ m3_to e) [
              | inl h ↦ irq 3 m3 false h
              | inr e ↦ elim (either_branch (c == irq_i2c_m3_to) _ (some s) e) [
                | inl h ↦ irq 3 m3 true h
                | inr h ↦ subst (Sound g) (some-injective _ _ h) v
              ]
            ]
          ]
        ]
      ]

  -- A transport that keeps the books of both buses.
  swapped :
      (s : Driver) (u : Transport)
      → Sound g s
      → Books g.m2_req g.m2_ret 2 u (s.if_state 2)
      → Books g.m3_req g.m3_ret 3 u (s.if_state 3)
      → Sound g (at_transport s u)
  swapped s u v a b = record { bus2 = a; bus3 = b }

  driver_notify-Sound :
      (s : Driver) (v v' : Server) (out : List Report)
      → Sound g s
      → driver_notify (at_server v s) ≡ some (out, v')
      → Sound g (at_transport s v'.transport)
  unfolding driver_notify
  driver_notify-Sound s v v' out k e =
      let (o, w, r, b, f) =
        drain-Books m2 z.m2_req z.m2_ret (at_server v s) (s.if_state 2) k.bus2 in
      let (o', w', r', b', f') =
        drain-Books m3 z.m3_req z.m3_ret w (s.if_state 3) (Kept-Books f k.bus3) in
      let done : some (o ++ o', w') ≡ some (out, v') = sym (driver_notify-drains _ r r') ∙ e in
      let same : w' ≡ v' = ap (λ z. z.1) (some-injective _ _ done) in
      subst (λ x. Sound g (at_transport s x.transport)) same
        (swapped s w'.transport k (Kept-Books f' b) b')

  pub server-Sound :
      (c : ℕ) (s : Driver) (v v' : Server) (out : List Report)
      → Sound g s
      → Server.notified c (at_server v s) ≡ some (out, v')
      → Sound g (at_transport s v'.transport)
  unfolding Server.notified
  server-Sound c s v v' out k e =
      let u = at_server v s in
      elim (either_branch (c == driver_notify_id) (driver_notify u) (some ([], u)) e) [
        | inl h ↦ driver_notify-Sound s v v' out k h
        | inr h ↦
            let same : at_server v s ≡ v' = ap (λ z. z.1) (some-injective _ _ h) in
            subst (λ x. Sound g (at_transport s x.transport)) same k
      ]

  pub request-Sound :
      (bytes : List ℕ) (cid addr : ℕ) (s : Driver) (v : Server)
      → Sound g s
      → Sound g (at_transport s (submit bytes cid addr (at_server v s)).1.transport)
  request-Sound bytes cid addr s v k =
      let (b, f) =
        alloc_req_buf-Books m2 z.m2_req z.m2_ret s.transport (s.if_state 2) (length bytes)
          (λ k. get_or bytes k 0) cid addr k.bus2 in
      rw (submit-transport bytes cid addr (at_server v s)) (swapped s _ k b (Kept-Books f k.bus3))

  -- A step of the system keeps the books of both buses, where no pool has a buffer at NULL: a
  -- notification of the driver or the server that returns, a request of the server, or a change of
  -- the registers of a bus.
  pub Step-Sound : (x y : Driver × Server) → Step x y → Sound g x.0 → Sound g y.0
  Step-Sound x y (driver c e) v = driver-Sound c _ _ v e
  Step-Sound x y (server c {s = s} {v = u} {v' = u'} {out = out} e) v =
      server-Sound c s u u' out v e
  Step-Sound x y (request bytes cid addr e) v = request-Sound bytes cid addr x.0 x.1 v
  Step-Sound x y (hardware bus r) v = record { bus2 = v.bus2; bus3 = v.bus3 }

  pub Steps-Sound : (x y : Driver × Server) → Sound g x.0 → Steps x y → Sound g y.0
  Steps-Sound x _ v start = v
  Steps-Sound x y v (next {y = w} h e) = Step-Sound w y e (Steps-Sound x w v h)
