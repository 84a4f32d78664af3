-- ===== src/System/Machine/Moves.antt =====
-- What a change of the memory or of the rings leaves as it is on a bus: the request at work, and the
-- answers that are not read (i2c/i2c-odroid-c4.c, i2c/i2c.c).
use sddf_i2c_driver.Prelude.{
  ℕ, ◌+◌, ◌-◌, ◌≤◌, ◌<◌, ◌≡◌, refl, sym, ◌∙◌, ap, ◌⊎◌, Bool, Option, none, some, map, List, [], ◌∷◌,
  arith, All, length,
}
use sddf_i2c_driver.Ring.{Desc}
use sddf_i2c_driver.Ring.Handle.{HandleHolds}
use sddf_i2c_driver.Transport.{
  Memory, req_ring, ret_ring, ret_buf_err, ret_buf_client, ret_buf_addr,
}
use sddf_i2c_driver.Transport.Message.{Stored-agree}
use sddf_i2c_driver.Driver.{Driver}
use sddf_i2c_driver.Driver.Load.{tokens_at}
use sddf_i2c_driver.Driver.Batch.{target, tokens_at_lem}
use sddf_i2c_driver.Server.{report_of}
use sddf_i2c_driver.System.Job.{Apart, Working}
use sddf_i2c_driver.System.Machine.State.{
  Told, told_bufs, told_desc, Says, Works, cur_reqs, cur_rets,
}
use sddf_i2c_driver.System.Machine.{Task, busy}
use sddf_i2c_driver.System.Line.Bufs.{All-map}
use sddf_i2c_driver.System.Line.Waits.{Item, desc_of, length-map}

-- The request at work is the same one, with other rings and other memory outside of its buffer.
pub record Moved (bus : ℕ) (s s' : Driver) (told : Bool) (rf ru tf tu : List Desc) : Type 0 where
  pub state : s'.if_state bus ≡ record (s.if_state bus) { notified = told }
  pub req_rings : HandleHolds (req_ring bus s'.transport) rf ru
  pub ret_rings : HandleHolds (ret_ring bus s'.transport) tf tu
  pub req_room : length rf < 511
  pub ret_room : length tu < 511
  pub agree :
      (c : ℕ)
      → (s.if_state bus).current_req ≤ c
      → c < (s.if_state bus).current_req + 512
      → s'.transport.mem c ≡ s.transport.mem c

module _ {bus : ℕ} {told told' : Bool} {rf ru tf tu rf' ru' tf' tu' : List Desc}
    {request toks bytes : List ℕ} (s s' : Driver) (m : Moved bus s s' told' rf' ru' tf' tu')
    (w : Working told bus s rf ru tf tu request toks bytes) where
  pub target-Moved :
      target (s'.if_state bus) s'.transport.mem ≡ target (s.if_state bus) s.transport.mem
  target-Moved =
      let req = (s.if_state bus).current_req in
      let same : tokens_at s'.transport.mem req 1 ≡ tokens_at s.transport.mem req 1 =
        tokens_at_lem s'.transport.mem req w.pending.space 1 (omega arith)
        ∙ m.agree (req + 1) (omega arith) (omega arith)
        ∙ sym (tokens_at_lem s.transport.mem req w.pending.space 1 (omega arith)) in
      rw m.state same

  pub Working-Moved : Working told' bus s' rf' ru' tf' tu' request toks bytes
  Working-Moved =
      let st = s.if_state bus in
      record {
        can_end = record {
          req_rings = m.req_rings;
          ret_rings = m.ret_rings;
          req_room = m.req_room;
          ret_room = m.ret_room;
          busy = rw m.state w.can_end.busy;
          ret_busy = rw m.state w.can_end.ret_busy;
          short = rw m.state w.can_end.short;
        };
        pending = rw m.state (record {
          busy = w.pending.busy;
          space = w.pending.space;
          short = w.pending.short;
          remains = w.pending.remains;
          fits = w.pending.fits;
          stored =
              Stored-agree s.transport.mem s'.transport.mem
                (st.current_req + 2 + (st.current_req_len - length request)) request
                (λ c le lt.
                  m.agree c (omega (arith, w.can_end.short, w.pending.fits))
                    (omega (arith, w.can_end.short, w.pending.fits)))
                w.pending.stored;
          means = w.pending.means;
        });
        small = rw target-Moved w.small;
        flag = ap (λ x. x.notified) m.state;
        apart = rw m.state w.apart;
      }

report_of-agree :
    (bus ret : ℕ) (m m' : Memory)
    → ((c : ℕ) → ret ≤ c → c < ret + 512 → m' c ≡ m c)
    → report_of bus ret m' ≡ report_of bus ret m
unfolding report_of
report_of-agree bus ret m m' h =
    let e = h (ret + ret_buf_err) (omega arith) (omega arith) in
    let f = h (ret + ret_buf_client) (omega arith) (omega arith) in
    let g = h (ret + ret_buf_addr) (omega arith) (omega arith) in rw (e, f, g) refl

-- Answers outside of the buffer that is written to.
pub Says-outside :
    (bus : ℕ) (m m' : Memory) (a : ℕ) (ts : List Told)
    → ((c : ℕ) → (c < a) ⊎ (a + 512 ≤ c) → m' c ≡ m c)
    → All (Apart a) (told_bufs ts)
    → All (Says bus m) ts
    → All (Says bus m') ts
Says-outside bus m m' a [] same apart h = tt
Says-outside bus m m' a (t ∷ ts) same apart h = (
  report_of-agree bus t.buf m m' (λ c le lt. same c (omega (arith, apart.0))) ∙ h.0,
  Says-outside bus m m' a ts same apart.1 h.1,
)

-- The memory from `a` on is kept, as far as a buffer reaches.
abbrev pub Agree : Memory → Memory → ℕ → Type 0
Agree m m' a = (c : ℕ) → a ≤ c → c < a + 512 → m' c ≡ m c

pub Agree-outside :
    (m m' : Memory) (a : ℕ) (bs : List ℕ)
    → ((c : ℕ) → (c < a) ⊎ (a + 512 ≤ c) → m' c ≡ m c)
    → All (Apart a) bs
    → All (Agree m m') bs
Agree-outside m m' a bs same apart =
    All-map (λ d h c le lt. same c (omega (arith, h, le, lt))) bs apart

-- Whether or not a request is at work.
pub Works-Moved :
    {bus : ℕ} (s s' : Driver) (o : Option Task) (told told' : Bool) (free free' : List Desc)
    (items items' : List Item) (spare spare' : List Desc) (tolds tolds' : List Told)
    → s'.if_state bus ≡ record (s.if_state bus) { notified = told' }
    → HandleHolds (req_ring bus s'.transport) free' (map desc_of items')
    → HandleHolds (ret_ring bus s'.transport) spare' (map told_desc tolds')
    → busy o + (length items' + length free') ≡ 511
    → busy o + (length tolds' + length spare') ≡ 511
    → All (Agree s.transport.mem s'.transport.mem) (cur_reqs o (s.if_state bus))
    → All (Agree s.transport.mem s'.transport.mem) (cur_rets o (s.if_state bus))
    → Works bus s told free items spare tolds o
    → Works bus s' told' free' items' spare' tolds' o
Works-Moved s s' none told told' free free' items items' spare spare' tolds tolds' state reqs rets n
      n' agree agree' (k, l) =
    (rw state k, rw state l)
Works-Moved {bus} s s' (some j) told told' free free' items items' spare spare' tolds tolds' state
      reqs rets n n' agree agree' k =
    let st = s.if_state bus in
    let m : Moved bus s s' told' free' (map desc_of items') spare' (map told_desc tolds') = record {
      state = state;
      req_rings = reqs;
      ret_rings = rets;
      req_room = omega (arith, n);
      ret_room = omega (arith, n', length-map told_desc tolds');
      agree = agree.0;
    } in
    record {
      left = k.left;
      work = Working-Moved s s' m k.work;
      to = target-Moved s s' m k.work ∙ k.to;
      at_client =
          rw state (agree'.0 (st.current_ret + 2) (omega arith) (omega arith) ∙ k.at_client);
      at_addr = rw state (agree'.0 (st.current_ret + 3) (omega arith) (omega arith) ∙ k.at_addr);
    }

pub Agree-kept : (m m' : Memory) (bs : List ℕ) → m' ≡ m → All (Agree m m') bs
Agree-kept m m' [] e = tt
Agree-kept m m' (a ∷ bs) e = (λ c le lt. ap (λ x. x c) e, Agree-kept m m' bs e)
