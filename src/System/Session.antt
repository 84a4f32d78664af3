-- ===== src/System/Session.antt =====
-- A request from the server to the device and back: posted (i2c/i2c-transport.c), taken up and
-- served (i2c/i2c-odroid-c4.c), and reported (i2c/i2c.c).
use sddf_i2c_driver.Prelude.{
  refl, sym, ◌==◌, if◌then◌else◌, ◌≢◌, ◌<◌, ◌≤◌, ◌⊎◌, ℕ, ◌+◌, ◌≡◌, ◌∙◌, ap, subst, List, [], ◌∷◌,
  ◌++◌, arith, some, Bool, length,
}
use sddf_i2c_driver.Prelude.Bits.{field}
use sddf_i2c_driver.Ring.{Desc, desc}
use sddf_i2c_driver.Ring.Handle.{HandleHolds}
use sddf_i2c_driver.Transport.{Transport, Memory, buf_sz, req_ring, ret_ring, alloc_req_buf}
use sddf_i2c_driver.Transport.Lens.{IsBus, other}
use sddf_i2c_driver.Transport.Message.{data_of}
use sddf_i2c_driver.Driver.{Driver, check_buf}
use sddf_i2c_driver.Server.{Server, Report, success, failure, report_of, drain}
use sddf_i2c_driver.System.Take.{at_transport}
use sddf_i2c_driver.System.Delivery.{IsMessage, IsIdle, TakenUp, posted-TakenUp}
use sddf_i2c_driver.System.Served.{Interrupts, signalled}
use sddf_i2c_driver.System.Ended.{Ended, Working-Ended, no_error-fault}
use sddf_i2c_driver.System.Serve.{Kept, drain-Drained}
use sddf_i2c_driver.System.Steps.{at_server}

-- What the server reports of a request, by the error in the return buffer.
abbrev pub answer : (bus err client addr : ℕ) → Report
answer bus err client addr =
    if err == 0 then success bus client addr else failure err bus client addr

pub report_of-answer :
    (bus ret err client addr : ℕ) (m : Memory)
    → m ret ≡ err
    → m (ret + 2) ≡ client
    → m (ret + 3) ≡ addr
    → report_of bus ret m ≡ answer bus err client addr
unfolding report_of
report_of-answer bus ret err client addr m e f g =
    let z : m (ret + 0) ≡ err = ap m (omega arith) ∙ e in rw (z, f, g) refl

-- The interrupts report no error.
abbrev pub NoErrors : Interrupts → Type 0
NoErrors hw = (i : ℕ) → field 3 1 (hw i).1.ctl ≡ 0

module _ {bus : ℕ} (b : IsBus bus) {ddr : Bool} {message toks bytes : List ℕ} {client addr : ℕ}
    (msg : IsMessage ddr message toks bytes client addr) where
  -- From `s` to `started` the driver has taken up the request in the buffer `a`. It ends, with all of
  -- it sent or by an error, and the server then reads the answer in the buffer `e`.
  pub record Carried (s started : Driver) (v : Server) (hw : Interrupts) (a : ℕ) (e : Desc)
      (rf ru tf : List Desc) : Type 0 where
    pub taken : TakenUp b msg s started (desc a (length message + 2)) e rf ru tf []
    pub fate : Ended bus addr hw started rf ru tf [] taken.left taken.rest taken.rest_bytes
    pub few : fate.n ≤ length message
    pub told : fate.last.signals ≡ signalled bus fate.n hw s.signals
    pub idle : (fate.last.if_state bus).current_req ≡ 0
    pub after : Server
    pub reports :
        drain bus (at_server v fate.last) ≡ some (answer bus fate.err client addr ∷ [], after)
    pub req_rings : HandleHolds (req_ring bus after.transport) (rf ++ desc a buf_sz ∷ []) ru
    pub ret_rings :
        HandleHolds (ret_ring bus after.transport) (tf ++ desc e.encoded_addr buf_sz ∷ []) []
    pub kept : Kept (other bus) fate.last.transport after.transport
    pub only :
        (c : ℕ)
        → (c < e.encoded_addr) ⊎ (e.encoded_addr + 4 ≤ c)
        → after.transport.mem c ≡ s.transport.mem c

  -- What is at work ends, and is reported.
  pub TakenUp-Carried :
      {a : ℕ} {e : Desc} {rf ru tf : List Desc} (s s' : Driver) (v : Server) (hw : Interrupts)
      → TakenUp b msg s s' (desc a (length message + 2)) e rf ru tf []
      → length tf < 511
      → e.encoded_addr ≢ 0
      → Carried s s' v hw a e rf ru tf
  TakenUp-Carried {a} {e} {rf} {ru} {tf} s s' v hw k room ne =
      let f =
        subst (λ z. Ended bus z hw s' rf ru tf [] k.left k.rest k.rest_bytes) k.to
          (Working-Ended b hw s' k.work) in
      let u = f.last in
      let r = f.returned in
      let rets : HandleHolds (ret_ring bus u.transport) tf
          (desc e.encoded_addr (length message) ∷ []) =
        rw (k.ret, k.len) at r.ret_rings in
      let m = u.transport.mem in
      let base = e.encoded_addr in
      let ret = k.ret in
      let client_kept : m (base + 2) ≡ client =
        r.only (base + 2) (omega (arith, ret)) (omega (arith, ret)) ∙ k.at_client in
      let addr_kept : m (base + 3) ≡ addr =
        r.only (base + 3) (omega (arith, ret)) (omega (arith, ret)) ∙ k.at_addr in
      let (after, x) = drain-Drained b (at_server v u) rets room ne in
      let reqs : HandleHolds (req_ring bus u.transport) (rf ++ desc a buf_sz ∷ []) ru =
        rw k.req at r.req_rings in
      record {
        taken = k;
        fate = f;
        few = omega (arith, f.few, k.fewer);
        told = r.told ∙ ap (signalled bus f.n hw) k.signals;
        idle = r.idle;
        after = after;
        reports =
            x.works
            ∙ ap (λ z. some (z ∷ [], after))
                (report_of-answer bus base f.err client addr m (rw k.ret at r.error) client_kept
                  addr_kept);
        req_rings = rw x.req_ring_kept reqs;
        ret_rings = x.ret_rings;
        kept = x.kept;
        only = λ c outside.
            ap (λ z. z c) x.mem
            ∙ r.only c (omega (arith, ret, outside)) (omega (arith, ret, outside))
            ∙ k.only c (omega (arith, outside)) (omega (arith, outside));
      }

  -- The life of a request: it is posted, and carried to the device and back.
  pub record Session (s : Driver) (v : Server) (hw : Interrupts) (d e : Desc) (rf tf : List Desc)
      : Type 0 where
    pub posted : Transport
    pub posts :
        alloc_req_buf s.transport bus (length message) (data_of message) client addr
        ≡ (d.encoded_addr, posted)
    pub started : Driver
    pub starts : check_buf bus (at_transport s posted) ≡ some started
    pub carried : Carried (at_transport s posted) started v hw d.encoded_addr e rf [] tf
    pub none_left : carried.fate.rest ≡ []
    pub no_bytes_left : carried.fate.rest_bytes ≡ []
    pub reports :
        drain bus (at_server v carried.fate.last)
        ≡ some (success bus client addr ∷ [], carried.after)

  -- A request makes its way from the server to the registers of the master and back. On an idle
  -- bus with a free buffer for the request and one for the answer, which do not overlap,
  -- `allocReqBuf` posts any message of at most 510 bytes that the driver can send, `checkBuf`
  -- takes it up, and within as many interrupts as the message has bytes, and one more, none of
  -- which reports an error, all its tokens and write data are loaded into the registers in order,
  -- part by part, and the list processor is started for each part, with the message's address in
  -- the address field of the registers, its highest bit set too if it was set before. Each
  -- interrupt is acknowledged. Then the interface is idle, the server was notified in the last
  -- interrupt, the request buffer is free again, and a round of `driverNotify` reports success for
  -- the client and the address of the message and frees the return buffer. No answer waits on the
  -- bus, the return ring has room, and the interface starts in the direction that the message is
  -- read in.
  pub posted-Session :
      {d e : Desc} {rf tf : List Desc} (s : Driver) (v : Server) (hw : Interrupts)
      → IsIdle bus s d e rf tf []
      → (s.if_state bus).ddr ≡ ddr
      → length tf < 511
      → NoErrors hw
      → Session s v hw d e rf tf
  posted-Session s v hw i same room quiet =
      let (t, posts, s', starts, k) = posted-TakenUp b msg s i same in
      let c = TakenUp-Carried (at_transport s t) s' v hw k room i.ret_ne_zero in
      let f = c.fate in
      let none = sym f.error ∙ no_error-fault (hw f.n).0 (hw f.n).1 (quiet f.n) in
      let (x, y) = f.all none in
      record {
        posted = t;
        posts = posts;
        started = s';
        starts = starts;
        carried = c;
        none_left = x;
        no_bytes_left = y;
        reports = c.reports ∙ rw none refl;
      }
