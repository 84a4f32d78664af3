-- ===== src/System/Line/Serve.antt =====
-- A notification of the driver (checkBuf and i2cirq, i2c/i2c-odroid-c4.c) serves the front of the
-- line, and driverNotify (i2c/i2c.c) reports it.
use sddf_i2c_driver.Prelude.{
  ℕ, Bool, some, map, suc, ◌≡◌, refl, ◌∙◌, ap, subst, inl, inr, List, [], ◌∷◌, map, arith, length,
  List-cases, update_self,
}
use sddf_i2c_driver.Ring.Handle.{HandleHolds}
use sddf_i2c_driver.Transport.{req_ring, ret_ring}
use sddf_i2c_driver.Transport.Lens.{IsBus}
use sddf_i2c_driver.Transport.Calls.{req_buf_empty_lem, ret_buf_empty_lem}
use sddf_i2c_driver.Driver.{Driver, check_buf, with_state}
use sddf_i2c_driver.Server.{Server, drain}
use sddf_i2c_driver.System.Take.{at_transport}
use sddf_i2c_driver.System.Work.{check_buf-flags}
use sddf_i2c_driver.System.Serve.{drain-empty}
use sddf_i2c_driver.System.Line.Fate.{outcome, outcome-least, outcome-most, Ended-Comes}
use sddf_i2c_driver.System.Served.{Interrupts}
use sddf_i2c_driver.System.Steps.{at_server}
use sddf_i2c_driver.System.Line.{
  Request, serve, one_bus, Does, finds_none, serves, Outcome, Comes, LineStep, nobody_waits,
  served_first,
}
use sddf_i2c_driver.System.Line.Turn.{Turn, Waits-Turn, Turn-TakenUp, Turn-Carried, Carried-Waits}
use sddf_i2c_driver.System.Line.Waits.{desc_of, Waits, Waits-same, Waits-length}

-- Nobody is in the line.
pub Waits-nobody : {bus : ℕ} {s : Driver} (k : Waits bus s []) → map desc_of k.items ≡ []
Waits-nobody k = elim (List-cases k.items) [
  | inl e ↦ ap (map desc_of) e
  | inr (i, is, e) ↦ absurd (omega (arith, Waits-length k, ap length e))
]

-- Then checkBuf finds nothing, and driverNotify has nothing to report.
pub nobody-check_buf :
    {bus : ℕ} (b : IsBus bus) (s : Driver)
    → Waits bus s []
    → (n : Bool) × (check_buf bus s
        ≡ some (with_state bus (record (s.if_state bus) { notified = n }) s))
      × Waits bus (with_state bus (record (s.if_state bus) { notified = n }) s) []
nobody-check_buf {bus} b s k =
    let reqs : HandleHolds (req_ring bus s.transport) k.free [] =
      rw (Waits-nobody k) at k.req_rings in
    let (n, x) = check_buf-flags bus s (inl ((req_buf_empty_lem b s.transport reqs).1 refl)) in
    let u = update_self s.if_state bus (record (s.if_state bus) { notified = n }) in
    (
      n,
      x,
      Waits-same s (with_state bus (record (s.if_state bus) { notified = n }) s) refl
          (ap (λ z. z.current_req) u ∙ k.idle) k,
    )

pub nobody-drain :
    {bus : ℕ} (b : IsBus bus) (s : Driver) (v : Server)
    → Waits bus s []
    → v.transport ≡ s.transport
    → drain bus v ≡ some ([], v)
nobody-drain {bus} b s v k same =
    let rets : HandleHolds (ret_ring bus v.transport) k.spare [] = rw same k.ret_rings in
    drain-empty bus v ((ret_buf_empty_lem b v.transport rets).1 refl)

-- What is done when the front of the line `o` is served, and what waits then.
abbrev Front : ℕ → Interrupts → Driver → Server → List Outcome → List Request → Type 0
Front bus hw s v out w =
    (y : Driver × Server) × Does (one_bus bus) bus hw serve (s, v) out y × Waits bus y.0 w

module _ {bus : ℕ} (b : IsBus bus) (hw : Interrupts) (s : Driver) (v : Server) where
  -- Nobody is in the line: the notification finds nothing.
  nobody-Front : Waits bus s [] → Front bus hw s v [] []
  nobody-Front k =
      let (n, x, k') = nobody-check_buf b s k in
      let s' = with_state bus (record (s.if_state bus) { notified = n }) s in
      (
        (s', at_server v s'),
        finds_none s' (at_server v s') x (nobody-drain b s' (at_server v s') k' refl),
        k',
      )

  -- The first request's turn, whatever comes of it.
  turn-Front :
      {w : List Request} (t : Turn bus s w)
      → (o : Outcome) × Comes bus hw t.item.request o × Front bus hw s v (o ∷ []) w
  turn-Front t =
      let (s', starts, k) = Turn-TakenUp b s t in
      let x = Turn-Carried b s t v hw k in
      let c = x.taken in
      let f = x.fate in
      let o = outcome t.item.request c.now c.now_bytes c.split c.split_bytes f in
      (
        o,
        Ended-Comes t.item.request c.now c.now_bytes c.split c.split_bytes f x.few,
        (
          (at_transport f.last x.after.transport, x.after),
          serves s' f.last x.after o (suc f.n) c.now f.now c.now_bytes f.now_bytes starts c.sent
              f.served (outcome-least t.item.request c.now c.now_bytes c.split c.split_bytes f)
              (outcome-most t.item.request c.now c.now_bytes c.split c.split_bytes f x.few) refl
              refl x.reports,
          Carried-Waits b s t v hw x,
        ),
      )

  pub serve-Does :
      {w : List Request}
      → Waits bus s w
      → (out : List Outcome) × (w' : List Request) × LineStep bus hw serve w out w'
        × Front bus hw s v out w'
  serve-Does {w = []} k = let front = nobody-Front k in ([], [], nobody_waits, front)
  serve-Does {w = r ∷ w} k =
      let (t, same) = Waits-Turn s k in
      let (o, comes, front) = turn-Front t in
      (o ∷ [], w, served_first o (subst (λ x. Comes bus hw x o) same comes), front)
