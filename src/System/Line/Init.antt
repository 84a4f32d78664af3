-- ===== src/System/Line/Init.antt =====
-- The lines after the start of the two programs (init of i2c/i2c.c and of i2c/i2c-odroid-c4.c): on
-- bus 2 the two requests of testds3231 (i2c/i2c.c) wait, on bus 3 nobody.
use sddf_i2c_driver.Prelude.{
  ℕ, ◌+◌, ◌^◌, ◌<◌, ◌≡◌, refl, ◌∙◌, ap, List, [], ◌∷◌, ◌++◌, arith, inl, inr, All, true, length,
  update, List-cases, ==_of_ne,
}
use sddf_i2c_driver.Token.{translate, direction}
use sddf_i2c_driver.Transport.{Transport, i2c_transport_init}
use sddf_i2c_driver.Transport.Lens.{m2}
use sddf_i2c_driver.Transport.Calls.{ReqFrame}
use sddf_i2c_driver.Transport.Pool.{length-share, i2c_transport_init-Free}
use sddf_i2c_driver.Driver
use sddf_i2c_driver.Driver.{Driver, IfState, cleared, notify}
use sddf_i2c_driver.Driver.Load.Spec.{done, plain, writes}
use sddf_i2c_driver.Server
use sddf_i2c_driver.Server.{
  Server, submit, driver_notify_id, submit_all, clear_lists, testds3231, security_list_sz,
  ds3231_set, ds3231_read,
}
use sddf_i2c_driver.System.Take.{at_transport}
use sddf_i2c_driver.System.Served.{Interrupts}
use sddf_i2c_driver.System.Session.{NoErrors}
use sddf_i2c_driver.System.Start.{
  pools, pools-NoNull, init-Sound, Region, i2c_transport_init-again, clear_lists-transport,
}
use sddf_i2c_driver.System.Line.{Request, CanSend, serve, succeeds, DoesAll, line_step, line_run}
use sddf_i2c_driver.System.Line.Bufs.{IsReqBuf, All-split}
use sddf_i2c_driver.System.Line.Waits.{
  bufs_of, Waits, Waits-length, Waits-same, Waits-rings, nobody-Waits, addrs_of,
}
use sddf_i2c_driver.System.Line.Post.{posts-Waits}
use sddf_i2c_driver.System.Steps.{Steps}
use sddf_i2c_driver.System.Line.Whole.{whole}
use sddf_i2c_driver.System.Line.Round.{Rests}
use sddf_i2c_driver.System.Line.Program.{programs-DoesAll}
use sddf_i2c_driver.System.Line.Shares.{share-Bufs}

-- The register of the clock chip is set, with START and the address for writing, 3 bytes, STOP and
-- the end.
abbrev pub set_clock : Request
set_clock = record {
  message = ds3231_set;
  toks = 1 ∷ 2 ∷ 4 ∷ 4 ∷ 4 ∷ 6 ∷ 0 ∷ [];
  bytes = 0x6 ∷ 0x20 ∷ 0x24 ∷ [];
  client = 1;
  addr = 0x68;
}

-- It is read back: one byte is written, and two are read.
abbrev pub read_clock : Request
read_clock = record {
  message = ds3231_read;
  toks = 1 ∷ 2 ∷ 4 ∷ 1 ∷ 3 ∷ 4 ∷ 5 ∷ 6 ∷ 0 ∷ [];
  bytes = 0x6 ∷ [];
  client = 1;
  addr = 0x68;
}

pub set_clock-CanSend : CanSend set_clock
unfolding translate direction
set_clock-CanSend ddr = record {
  octets = ground arith;
  short = omega arith;
  means = plain refl refl (
      plain refl refl (
        writes refl refl
          (writes refl refl (writes refl refl (plain refl refl (plain refl refl done))))));
  client_byte = omega arith;
  seven_bits = omega arith;
}

read_clock-CanSend : CanSend read_clock
unfolding translate direction
read_clock-CanSend ddr = record {
  octets = ground arith;
  short = omega arith;
  means = plain refl refl (
      plain refl refl (
        writes refl refl (
          plain refl refl (
            plain refl refl
              (plain refl refl (plain refl refl (plain refl refl (plain refl refl done))))))));
  client_byte = omega arith;
  seven_bits = omega arith;
}

-- A request that is submitted while there is room joins the line.
submit-Waits :
    (d : Driver) (v : Server) (r : Request) {w : List Request}
    → CanSend r
    → length w < 511
    → Waits 2 (at_transport d v.transport) w
    → (v' : Server) × (submit r.message r.client r.addr v ≡ (true, v'))
      × Waits 2 (at_transport d v'.transport) (w ++ r ∷ [])
      × ReqFrame 2 v.transport v'.transport
unfolding submit
submit-Waits d v r {w} can room k = elim (List-cases k.free) [
  | inl e ↦ absurd (omega (arith, Waits-length k, k.all_reqs, ap length e))
  | inr (a, f, e) ↦
      let (t, x, k', frame) = posts-Waits m2 (at_transport d v.transport) k r a f e can in
      let usable : All IsReqBuf (bufs_of k.items ++ a.encoded_addr ∷ addrs_of f) =
        rw e at k.bufs.usable in
      let ne = (All-split IsReqBuf (bufs_of k.items) (a.encoded_addr ∷ addrs_of f) usable).1.0.0 in
      (
        record v { transport = t; signals = notify driver_notify_id ∷ v.signals },
        rw (x, ==_of_ne a.encoded_addr 0 ne),
        k',
        frame,
      )
]

submit_all-next :
    (r : List ℕ) (rs : List (List ℕ)) (cid addr : ℕ) (v v' : Server)
    → submit r cid addr v ≡ (true, v')
    → submit_all (r ∷ rs) cid addr v ≡ submit_all rs cid addr v'
unfolding submit_all
submit_all-next r rs cid addr v v' e = rw e

-- Where nobody waits on the buses, testds3231 leaves its two requests on bus 2.
testds3231-Waits :
    (d : Driver) (v : Server)
    → Waits 2 (at_transport d v.transport) []
    → Waits 3 (at_transport d v.transport) []
    → Waits 2 (at_transport d (testds3231 v).transport) (set_clock ∷ read_clock ∷ [])
      × Waits 3 (at_transport d (testds3231 v).transport) []
unfolding testds3231 submit_all
testds3231-Waits d v k l =
    let (v1, e1, k1, f1) = submit-Waits d v set_clock set_clock-CanSend (omega arith) k in
    let (v2, e2, k2, f2) = submit-Waits d v1 read_clock read_clock-CanSend (omega arith) k1 in
    let runs =
      submit_all-next ds3231_set (ds3231_read ∷ []) 1 0x68 v v1 e1
      ∙ submit_all-next ds3231_read [] 1 0x68 v1 v2 e2 in
    rw runs (
      k2,
      Waits-rings (at_transport d v.transport) (at_transport d v2.transport) (f2.req ∙ f1.req)
          (f2.ret 3 ∙ f1.ret 3) l.idle l,
    )

module _ {base : ℕ} (r : Region base) (space : base + 2 ^ 32 < 2 ^ 64) where
  -- With all buffers free nobody waits.
  free-Waits :
      (d : Driver) (t : Transport)
      → (d.if_state 2).current_req ≡ 0
      → (d.if_state 3).current_req ≡ 0
      → Waits 2 (at_transport d (i2c_transport_init base true t)) []
        × Waits 3 (at_transport d (i2c_transport_init base true t)) []
  free-Waits d t idle idle' =
      let f = (i2c_transport_init-Free base t).0 in
      let s = at_transport d (i2c_transport_init base true t) in
      (
        nobody-Waits s f.m2_req f.m2_ret idle (length-share base 0 511 0)
            (length-share base 1 511 0) (share-Bufs r 0 space (omega arith)),
        nobody-Waits s f.m3_req f.m3_ret idle' (length-share base 2 511 0)
            (length-share base 3 511 0) (share-Bufs r 2 space (omega arith)),
      )

  server_init-Waits :
      (v : Server) (d : Driver)
      → (d.if_state 2).current_req ≡ 0
      → (d.if_state 3).current_req ≡ 0
      → Waits 2 (at_transport d (Server.init base v).transport) (set_clock ∷ read_clock ∷ [])
        × Waits 3 (at_transport d (Server.init base v).transport) []
  unfolding Server.init
  server_init-Waits v d idle idle' =
      let u : Server = record v { transport = i2c_transport_init base true v.transport } in
      let (k, l) = free-Waits d v.transport idle idle' in
      let same = clear_lists-transport security_list_sz 0 u in
      testds3231-Waits d (clear_lists security_list_sz 0 u) (rw same k) (rw same l)

  -- After the start of the server and then of the driver, whatever the state and the memory
  -- before, the two requests of `testds3231` wait on bus 2, in order and each in a buffer of its
  -- own, both are messages that the driver can send, nobody waits on bus 3, both interfaces are
  -- idle, and both buses keep their books. The region of the buffers is not at 0 and starts more
  -- than 2^32 bytes below 2^64.
  pub init-Rests :
      (v : Server) (d : Driver)
      → Rests
          (pools base)
          (Driver.init base (at_transport d (Server.init base v).transport), Server.init base v)
          (set_clock ∷ read_clock ∷ [])
  unfolding Driver.init
  init-Rests v d =
      let st = update (update d.if_state 2 (cleared (d.if_state 2))) 3 (cleared (d.if_state 3)) in
      let d' = record d { if_state = st } in
      let t = (Server.init base v).transport in
      let (k, l) = server_init-Waits v d' refl refl in
      let s = Driver.init base (at_transport d t) in
      let same = i2c_transport_init-again base t in
      record {
        sound = init-Sound r v d;
        bus2 = Waits-same (at_transport d' t) s same refl k;
        bus3 = Waits-same (at_transport d' t) s same refl l;
      }

  -- After the start of the server and then of the driver, two notifications of the driver, each of
  -- them followed by interrupts without an error, have both requests of `testds3231` loaded into
  -- the registers, one after the other and each with all its tokens and bytes, with 0x68 in the
  -- address field, which has its highest bit set anyway, and the list processor started for each
  -- part; and the handler of the server reports the success of each to client 1; then nobody
  -- waits. The run is one of steps of the system. The region of the buffers is not at 0 and starts
  -- more than 2^32 bytes below 2^64.
  pub init-DoesAll :
      (v : Server) (d : Driver) (hw : ℕ → Interrupts)
      → ((i : ℕ) → NoErrors (hw i))
      → (y : Driver × Server) × DoesAll whole 2 hw
          (serve ∷ serve ∷ [])
          (Driver.init base (at_transport d (Server.init base v).transport), Server.init base v)
          (succeeds 2 set_clock ∷ succeeds 2 read_clock ∷ [])
          y
        × Steps
            (Driver.init base (at_transport d (Server.init base v).transport), Server.init base v)
            y
        × Rests (pools base) y []
  unfolding line_step line_run
  init-DoesAll v d hw quiet =
      programs-DoesAll (pools-NoNull r) hw (serve ∷ serve ∷ [])
        (Driver.init base (at_transport d (Server.init base v).transport), Server.init base v)
        (set_clock ∷ read_clock ∷ []) quiet (tt, (tt, tt)) (init-Rests v d)
