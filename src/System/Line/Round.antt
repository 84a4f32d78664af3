-- ===== src/System/Line/Round.antt =====
-- One operation of the whole programs: a request of a test function (i2c/i2c.c), or a notification
-- of the driver and what follows from it (i2c/i2c-odroid-c4.c and driverNotify of i2c/i2c.c).
use sddf_i2c_driver.Prelude.{ℕ, suc, ◌≡◌, refl, ◌∙◌, ap, List, [], ◌∷◌, some, Bool, length}
use sddf_i2c_driver.Ring.{Desc}
use sddf_i2c_driver.Transport.{alloc_req_buf}
use sddf_i2c_driver.Transport.Lens.{m2, m3}
use sddf_i2c_driver.Transport.Message.{data_of}
use sddf_i2c_driver.Driver
use sddf_i2c_driver.Driver.{
  Driver, IfState, with_state, with_interface, check_buf, server_notify, server_notify_id, i2cirq,
  acknowledge,
}
use sddf_i2c_driver.Server.{Server, driver_notify_id}
use sddf_i2c_driver.System.Take.{at_transport}
use sddf_i2c_driver.System.Work.{check_buf-Keeps}
use sddf_i2c_driver.System.Serve.{alloc_req_buf-Books}
use sddf_i2c_driver.System.Steps.{
  at_server, Pools, NoNull, Sound, server_notify-Sound, server-Sound, request-Sound,
  submit-transport,
}
use sddf_i2c_driver.System.Delivery.{TakenUp, IsMessage}
use sddf_i2c_driver.System.Served.{Working-same, Interrupts}
use sddf_i2c_driver.System.Line.Fate.{outcome, outcome-least, outcome-most, Ended-Comes}
use sddf_i2c_driver.System.Line.{
  Comes, Request, CanSend, post, serve, Does, finds_none, serves, Outcome, line_step,
}
use sddf_i2c_driver.System.Line.Waits.{Waits, Waits-same, Waits-rings}
use sddf_i2c_driver.System.Line.Turn.{Turn, Turn-TakenUp, Turn-Carried, Carried-Waits}
use sddf_i2c_driver.System.Line.Post.{post-Waits}
use sddf_i2c_driver.System.Line.Serve.{nobody-check_buf, nobody-drain}
use sddf_i2c_driver.System.Line.Whole.{
  whole, notified-check_buf, notified-drain, Waits-Untouched, Served-Untouched,
}

-- The requests of the line wait on bus 2, nobody waits on bus 3, and both keep their books of the
-- buffers `g`.
pub record Rests (g : Pools) (x : Driver × Server) (w : List Request) : Type 0 where
  pub sound : Sound g x.0
  pub bus2 : Waits 2 x.0 w
  pub bus3 : Waits 3 x.0 []

-- The driver's state once bus 3 is gone through.
abbrev woken : Driver → Bool → Driver
woken u n = with_state 3 (record (u.if_state 3) { notified = n }) u

-- The driver's notification, on bus 3 too.
record Woken (g : Pools) (s u : Driver) : Type 0 where
  pub flag : Bool
  pub starts : Driver.notified server_notify_id s ≡ some (woken u flag)
  pub sound : Sound g (woken u flag)
  pub bus3 : Waits 3 (woken u flag) []

-- What is taken up on bus 2 is not changed by this.
TakenUp-Woken :
    {ddr : Bool} {message toks bytes : List ℕ} {client addr : ℕ}
    (msg : IsMessage ddr message toks bytes client addr) {d e : Desc} {rf ru tf tu : List Desc}
    (s u : Driver) (st : IfState)
    → TakenUp m2 msg s u d e rf ru tf tu
    → TakenUp m2 msg s (with_state 3 st u) d e rf ru tf tu
TakenUp-Woken msg s u st k = record {
  now = k.now;
  now_bytes = k.now_bytes;
  left = k.left;
  rest = k.rest;
  rest_bytes = k.rest_bytes;
  split = k.split;
  split_bytes = k.split_bytes;
  sent = k.sent;
  fewer = k.fewer;
  work = Working-same m2 u (with_state 3 st u) refl refl k.work;
  to = k.to;
  req = k.req;
  ret = k.ret;
  len = k.len;
  at_client = k.at_client;
  at_addr = k.at_addr;
  only = k.only;
  signals = k.signals;
}

module _ {g : Pools} (z : NoNull g) where
  pub post-Rests :
      (x : Driver × Server) (w : List Request) (r : Request)
      → CanSend r
      → Rests g x w
      → Rests g (whole.on_post r x) (line_step 2 (post r) w).1
  post-Rests (s, v) w r can k =
      let f =
        (alloc_req_buf-Books m2 z.m2_req z.m2_ret s.transport (s.if_state 2) (length r.message)
          (data_of r.message) r.client r.addr k.sound.bus2).1 in
      let t =
        (alloc_req_buf s.transport 2 (length r.message) (data_of r.message) r.client r.addr).1 in
      let same = submit-transport r.message r.client r.addr (at_server v s) in
      record {
        sound = request-Sound z r.message r.client r.addr s v k.sound;
        bus2 = rw same (post-Waits m2 (s, v) r can k.bus2);
        bus3 = rw same (Waits-rings s (at_transport s t) f.req f.ret k.bus3.idle k.bus3);
      }

  check_buf-Woken : (s u : Driver) → Sound g s → Waits 3 s [] → check_buf 2 s ≡ some u → Woken g s u
  check_buf-Woken s u k l e =
      let l' = Waits-Untouched s u (check_buf-Keeps m2 z.m2_req z.m2_ret s u k.bus2 e).1 l in
      let (n, f, l'') = nobody-check_buf m3 u l' in
      let (x, y) = notified-check_buf s u (woken u n) e f in
      record { flag = n; starts = x; sound = server_notify-Sound z s (woken u n) k y; bus3 = l'' }

  abbrev pub Front : Interrupts → Driver → Server → List Outcome → List Request → Type 0
  Front hw s v out w = (y : Driver × Server) × Does whole 2 hw serve (s, v) out y × Rests g y w

  pub nobody-Front :
      (hw : Interrupts) (s : Driver) (v : Server) → Rests g (s, v) [] → Front hw s v [] []
  nobody-Front hw s v k =
      let (n, e, l) = nobody-check_buf m2 s k.bus2 in
      let u = with_state 2 (record (s.if_state 2) { notified = n }) s in
      let x = check_buf-Woken s u k.sound k.bus3 e in
      let t = woken u x.flag in
      let k2 = Waits-same u t refl l.idle l in
      let silent =
        notified-drain (at_server v t) (at_server v t) []
          (nobody-drain m2 t (at_server v t) k2 refl)
          (nobody-drain m3 t (at_server v t) x.bus3 refl) in
      (
        (t, at_server v t),
        finds_none t (at_server v t) x.starts silent,
        record { sound = x.sound; bus2 = k2; bus3 = x.bus3 },
      )

  pub turn-Front :
      (hw : Interrupts) (s : Driver) (v : Server) {r : Request} {w : List Request}
      → Rests g (s, v) (r ∷ w)
      → (t : Turn 2 s w) → (o : Outcome) × Comes 2 hw t.item.request o × Front hw s v (o ∷ []) w
  turn-Front hw s v k t =
      let (u, e, taken) = Turn-TakenUp m2 s t in
      let x = check_buf-Woken s u k.sound k.bus3 e in
      let y = woken u x.flag in
      let c =
        Turn-Carried m2 s t {s' = y} v hw
          (TakenUp-Woken _ s u (record (u.if_state 3) { notified = x.flag }) taken) in
      let k = c.taken in
      let f = c.fate in
      let o = outcome t.item.request k.now k.now_bytes k.split k.split_bytes f in
      let (l, h) = Served-Untouched z x.sound f.served in
      let end = at_transport f.last c.after.transport in
      let k3 =
        Waits-rings f.last end c.kept.req c.kept.ret (ap (λ i. i.current_req) h.state ∙ x.bus3.idle)
          (Waits-Untouched y f.last h x.bus3) in
      let reads =
        notified-drain (at_server v f.last) c.after o.reports c.reports
          (nobody-drain m3 end c.after k3 refl) in
      (
        o,
        Ended-Comes t.item.request k.now k.now_bytes k.split k.split_bytes f c.few,
        (
          (end, c.after),
          serves y f.last c.after o (suc f.n) k.now f.now k.now_bytes f.now_bytes x.starts k.sent
              f.served (outcome-least t.item.request k.now k.now_bytes k.split k.split_bytes f)
              (outcome-most t.item.request k.now k.now_bytes k.split k.split_bytes f c.few) refl
              refl reads,
          record {
            sound = server-Sound z driver_notify_id f.last v c.after _ l reads;
            bus2 = Carried-Waits m2 s t v hw c;
            bus3 = k3;
          },
        ),
      )
