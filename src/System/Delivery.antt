-- ===== src/System/Delivery.antt =====
-- A request that the server posts (allocReqBuf, i2c/i2c-transport.c) reaches an idle driver
-- (checkBuf, i2c/i2c-odroid-c4.c).
use sddf_i2c_driver.Prelude.{
  ℕ, ◌+◌, ◌-◌, ◌^◌, ◌≤◌, ◌<◌, ◌≡◌, refl, ◌∙◌, ap, subst, ◌≢◌, inl, inr, List, [], ◌∷◌, ◌++◌, arith,
  some, Bool, false, length, All, update_self, ==_of_eq, Bool-cases,
}
use sddf_i2c_driver.Prelude.Words.{u32}
use sddf_i2c_driver.Ring.{Desc, desc}
use sddf_i2c_driver.Ring.Handle.{HandleHolds}
use sddf_i2c_driver.Transport.{
  Transport, Memory, req_ring, ret_ring, ret_buf_client, ret_buf_addr, fill_req, alloc_req_buf,
  req_buf_empty, store,
}
use sddf_i2c_driver.Transport.Lens.{IsBus}
use sddf_i2c_driver.Transport.Message.{
  Stored, Stored-agree, data_of, fill_req-Stored, fill_req-client, fill_req-addr,
}
use sddf_i2c_driver.Transport.Calls.{alloc_req_buf-ok, req_buf_empty_lem}
use sddf_i2c_driver.Driver.{Driver, IfState, interface, begin_work, take_request, check_buf}
use sddf_i2c_driver.Driver.Load.Spec.{Means}
use sddf_i2c_driver.Driver.Batch.{Pending, target, tokens_at_lem, i2c_load_tokens-Dispatched}
use sddf_i2c_driver.Driver.Sent.{Sent, Dispatched-Sent}
use sddf_i2c_driver.System.Work.{begun}
use sddf_i2c_driver.System.Take.{at_transport, take_request-Taken}
use sddf_i2c_driver.System.Job.{Apart, Working, Dispatched-Working, load_of_tokens}

-- A message for the client `client` and the device at `addr`, which the driver can send.
pub record IsMessage (ddr : Bool) (message toks bytes : List ℕ) (client addr : ℕ) : Type 0 where
  pub octets : All (λ x. x < 256) message
  pub short : length message ≤ 510
  pub means : Means ddr message toks bytes
  pub client_byte : client < 256
  pub seven_bits : addr ≤ 0x7f

-- An idle bus: a free buffer `d` for the request and `e` for the answer, and no request waiting.
pub record IsIdle (bus : ℕ) (s : Driver) (d e : Desc) (rf tf tu : List Desc) : Type 0 where
  pub req_rings : HandleHolds (req_ring bus s.transport) (d ∷ rf) []
  pub ret_rings : HandleHolds (ret_ring bus s.transport) (e ∷ tf) tu
  pub req_room : length rf < 511
  pub ret_room : length tu < 511
  pub idle : (s.if_state bus).current_req ≡ 0
  pub req_ne_zero : d.encoded_addr ≢ 0
  pub ret_ne_zero : e.encoded_addr ≢ 0
  pub apart : Apart d.encoded_addr e.encoded_addr
  pub space : d.encoded_addr + 2 ^ 31 < 2 ^ 64

-- What the server has written into the request buffer at `req`.
pub record Holding (message : List ℕ) (client addr : ℕ) (m : Memory) (req : ℕ) : Type 0 where
  pub at_client : m req ≡ client
  pub at_addr : m (req + 1) ≡ addr
  pub at_message : Stored m (req + 2) message

pub check_buf-takes :
    {bus : ℕ} {d : Desc} {rf ru : List Desc} (b : IsBus bus) (s : Driver)
    → HandleHolds (req_ring bus s.transport) rf (d ∷ ru)
    → (s.if_state bus).current_req ≡ 0
    → check_buf bus s ≡ take_request bus s
unfolding check_buf
check_buf-takes {bus} b s w idle = elim (Bool-cases (req_buf_empty s.transport bus)) [
  | inl e ↦ absurd (cc ((req_buf_empty_lem b s.transport w).0 e))
  | inr e ↦ rw (e, ==_of_eq (s.if_state bus).current_req 0 idle)
]

module _ {bus : ℕ} (b : IsBus bus) {ddr : Bool} {message toks bytes : List ℕ} {client addr : ℕ}
    (msg : IsMessage ddr message toks bytes client addr) where
  -- The memory of a request that is taken up: the request, and the head of the return buffer.
  abbrev noted : Memory → ℕ → ℕ → Memory
  noted m req ret =
      let m' = store m (ret + ret_buf_client) (m req) in
      store m' (ret + ret_buf_addr) (m' (req + 1))

  noted_rest :
      (m : Memory) (req ret : ℕ) (c : ℕ) → c ≢ ret + 2 → c ≢ ret + 3 → noted m req ret c ≡ m c
  noted_rest m req ret c ne ne' = ground arith

  noted_client :
      (m : Memory) (req ret : ℕ)
      → Holding message client addr m req
      → noted m req ret (ret + 2) ≡ client
  noted_client m req ret h = ground (arith, h.at_client, msg.client_byte)

  noted_addr :
      (m : Memory) (req ret : ℕ)
      → Apart req ret
      → Holding message client addr m req
      → noted m req ret (ret + 3) ≡ addr
  noted_addr m req ret a h = ground (arith, h.at_addr, msg.seven_bits)

  begun-Pending :
      (st : IfState) (m : Memory) (req ret : ℕ)
      → st.ddr ≡ ddr
      → req ≢ 0
      → Apart req ret
      → req + 2 ^ 31 < 2 ^ 64
      → Holding message client addr m req
      → Pending (begun st req (length message + 2) ret) (noted m req ret) message toks bytes
  begun-Pending st m req ret same ne a space h =
      let len : u32 (length message + 2 + 2 ^ 64 - 2) ≡ length message = omega (arith, msg.short) in
      let zero_gone : req + 2 + (length message - length message) ≡ req + 2 = omega arith in
      record {
        busy = ne;
        space = space;
        short = omega (arith, msg.short);
        remains = omega (arith, msg.short);
        fits = omega (arith, msg.short);
        stored =
            rw (len, zero_gone)
              (Stored-agree m (noted m req ret) (req + 2) message
                (λ c le lt.
                  noted_rest m req ret c (omega (arith, msg.short)) (omega (arith, msg.short)))
                h.at_message);
        means = rw same msg.means;
      }

  -- From `s` to `s'` the driver has taken the message up, and has its first part sent.
  pub record TakenUp (s s' : Driver) (d e : Desc) (rf ru tf tu : List Desc) : Type 0 where
    pub now : List ℕ
    pub now_bytes : List ℕ
    pub left : List ℕ
    pub rest : List ℕ
    pub rest_bytes : List ℕ
    pub split : toks ≡ now ++ rest
    pub split_bytes : bytes ≡ now_bytes ++ rest_bytes
    pub sent : Sent (interface bus s) (interface bus s') addr now now_bytes
    pub fewer : length left ≤ length message
    pub work : Working false bus s' rf ru tf tu left rest rest_bytes
    pub to : target (s'.if_state bus) s'.transport.mem ≡ addr
    pub req : (s'.if_state bus).current_req ≡ d.encoded_addr
    pub ret : (s'.if_state bus).current_ret ≡ e.encoded_addr
    pub len : (s'.if_state bus).current_req_len ≡ length message
    pub at_client : s'.transport.mem (e.encoded_addr + 2) ≡ client
    pub at_addr : s'.transport.mem (e.encoded_addr + 3) ≡ addr
    pub only :
        (c : ℕ)
        → c ≢ e.encoded_addr + 2
        → c ≢ e.encoded_addr + 3
        → s'.transport.mem c ≡ s.transport.mem c
    pub signals : s'.signals ≡ s.signals

  -- The state that checkBuf hands to i2cLoadTokens.
  begin-Working :
      {rf ru tf tu : List Desc} (s : Driver) (req ret : ℕ)
      → (s.if_state bus).ddr ≡ ddr
      → req ≢ 0
      → ret ≢ 0
      → Apart req ret
      → req + 2 ^ 31 < 2 ^ 64
      → Holding message client addr s.transport.mem req
      → HandleHolds (req_ring bus s.transport) rf ru
      → HandleHolds (ret_ring bus s.transport) tf tu
      → length rf < 511
      → length tu < 511
      → Working false bus
          (begin_work bus req (length message + 2) ret s)
          rf
          ru
          tf
          tu
          message
          toks
          bytes
        × (target
              ((begin_work bus req (length message + 2) ret s).if_state bus)
              (begin_work bus req (length message + 2) ret s).transport.mem
            ≡ addr)
  unfolding begin_work
  begin-Working s req ret same ne ne' a space h reqs rets room room' =
      let st = begun (s.if_state bus) req (length message + 2) ret in
      let p = begun-Pending (s.if_state bus) s.transport.mem req ret same ne a space h in
      let at : target st (noted s.transport.mem req ret) ≡ addr =
        tokens_at_lem (noted s.transport.mem req ret) req space 1 (omega arith)
        ∙ noted_rest s.transport.mem req ret (req + 1) (omega (arith, a)) (omega (arith, a))
        ∙ h.at_addr in
      let u = update_self s.if_state bus st in
      (
        record {
          can_end = record {
            req_rings = reqs;
            ret_rings = rets;
            req_room = room;
            ret_room = room';
            busy = rw u ne;
            ret_busy = rw u ne';
            short = rw u (omega (arith, msg.short));
          };
          pending = rw u p;
          small = rw u (omega (arith, at, msg.seven_bits));
          flag = ap (λ x. x.notified) u;
          apart = rw u a;
        },
        rw u at,
      )

  -- The request that waits in the buffer `a`, the driver takes up.
  pub waiting-TakenUp :
      {a : ℕ} {e : Desc} {rf ru tf tu : List Desc} (s : Driver)
      → HandleHolds (req_ring bus s.transport) rf (desc a (length message + 2) ∷ ru)
      → HandleHolds (ret_ring bus s.transport) (e ∷ tf) tu
      → length rf < 511
      → length tu < 511
      → (s.if_state bus).current_req ≡ 0
      → a ≢ 0
      → e.encoded_addr ≢ 0
      → Apart a e.encoded_addr
      → a + 2 ^ 31 < 2 ^ 64
      → (s.if_state bus).ddr ≡ ddr
      → Holding message client addr s.transport.mem a
      → (s' : Driver) × (check_buf bus s ≡ some s')
        × TakenUp s s' (desc a (length message + 2)) e rf ru tf tu
  unfolding begin_work
  waiting-TakenUp {a} {e} {rf} {ru} {tf} {tu} s reqs rets room room' idle ne ne' apart space same
        h =
      let k = take_request-Taken b s reqs rets ne ne' (omega (arith, msg.short)) in
      let h' : Holding message client addr k.after.mem a = rw k.same_mem h in
      let y = at_transport s k.after in
      let (w, to) =
        begin-Working y a e.encoded_addr same ne ne' apart space h' k.req_rings k.ret_rings room
          room' in
      let z = begin_work bus a (length message + 2) e.encoded_addr y in
      let u =
        update_self s.if_state bus (begun (s.if_state bus) a (length message + 2) e.encoded_addr) in
      let (s', l, p, trans, sig, frame) = i2c_load_tokens-Dispatched bus z w.pending w.small in
      (
        s',
        check_buf-takes b s reqs idle ∙ k.works ∙ load_of_tokens bus z s' l,
        record {
          now = p.now;
          now_bytes = p.now_bytes;
          left = p.rest;
          rest = p.later;
          rest_bytes = p.later_bytes;
          split = p.split;
          split_bytes = p.split_bytes;
          sent =
              subst (λ x. Sent (interface bus s) (interface bus s') x p.now p.now_bytes) to
                (Dispatched-Sent refl p);
          fewer = omega (arith, p.taken);
          work = Dispatched-Working b z s' w p trans;
          to = rw (trans, p.kept.0) to;
          req = p.kept.0 ∙ ap (λ x. x.current_req) u;
          ret = p.kept.1 ∙ ap (λ x. x.current_ret) u;
          len = p.kept.2 ∙ ap (λ x. x.current_req_len) u ∙ omega (arith, msg.short);
          at_client = rw trans (noted_client k.after.mem a e.encoded_addr h');
          at_addr = rw trans (noted_addr k.after.mem a e.encoded_addr apart h');
          only = λ c x x'.
              ap (λ t. t.mem c) trans
              ∙ noted_rest k.after.mem a e.encoded_addr c x x'
              ∙ ap (λ m. m c) k.same_mem;
          signals = sig;
        },
      )

  pub fill_req-Holding :
      (m : Memory) (buf : ℕ)
      → Holding message client addr
          (fill_req m buf (length message) (data_of message) client addr)
          buf
  fill_req-Holding m buf = record {
    at_client = fill_req-client m buf message client addr msg.client_byte;
    at_addr = fill_req-addr m buf message client addr (omega (arith, msg.seven_bits));
    at_message = fill_req-Stored m buf message client addr msg.octets;
  }

  -- What the server posts to an idle bus, the driver takes up: `allocReqBuf` returns the oldest
  -- free buffer, `checkBuf` finds the request in it and takes it with the oldest free return
  -- buffer, notes the client and the address in that buffer, and loads the first part of the
  -- message's tokens and data, with the list processor started and the message's address in the
  -- address field of the registers, its highest bit set too if it was set before; the rest is at
  -- work. The message has at most 510 bytes that the driver can send, and the two buffers do not
  -- overlap.
  pub posted-TakenUp :
      {d e : Desc} {rf tf tu : List Desc} (s : Driver)
      → IsIdle bus s d e rf tf tu
      → (s.if_state bus).ddr ≡ ddr
      → (posted : Transport) × (alloc_req_buf s.transport bus
            (length message)
            (data_of message)
            client
            addr
          ≡ (d.encoded_addr, posted))
        × (s' : Driver) × (check_buf bus (at_transport s posted) ≡ some s')
        × TakenUp
            (at_transport s posted)
            s'
            (desc d.encoded_addr (length message + 2))
            e
            rf
            []
            tf
            tu
  posted-TakenUp {d} {e} {rf} {tf} {tu} s i same =
      let (t, r, w, m, f) =
        alloc_req_buf-ok b s.transport (length message) (data_of message) client addr i.req_rings
          (omega arith) msg.short in
      let rets : HandleHolds (ret_ring bus t) (e ∷ tf) tu = rw (f.ret bus) i.ret_rings in
      let h : Holding message client addr t.mem d.encoded_addr =
        rw m (fill_req-Holding s.transport.mem d.encoded_addr) in
      let (s', starts, k) =
        waiting-TakenUp (at_transport s t) w rets i.req_room i.ret_room i.idle i.req_ne_zero
          i.ret_ne_zero i.apart i.space same h in
      (t, r, s', starts, k)
