-- ===== src/System/Work.antt =====
-- checkBuf (i2c/i2c-odroid-c4.c) and the ownership of the buffers it takes.
use sddf_i2c_driver.Prelude.{
  ℕ, ◌+◌, ◌-◌, ◌^◌, ◌≡◌, refl, sym, subst, ◌≢◌, ◌⊎◌, inl, inr, List, [], ◌∷◌, arith, ◌==◌, All,
  Option, none, some, Bool, true, false, update_ne, update_self, List-cases, ==_of_ne, ==_of_eq,
  Bool-cases, eq_of_==, ne_of_==,
}
use mathlib.Core.Option.{some-injective, none-ne-some}
use sddf_i2c_driver.Prelude.Words.{u32, u64}
use sddf_i2c_driver.Ring.{Desc}
use sddf_i2c_driver.Ring.Handle.{HandleHolds}
use sddf_i2c_driver.Transport.{Transport, req_ring, ret_ring, req_buf_empty}
use sddf_i2c_driver.Transport.Lens.{IsBus, other}
use sddf_i2c_driver.Transport.Calls.{pop_req_buf-ok, get_ret_buf-empty, req_buf_empty_lem}
use sddf_i2c_driver.Driver.{Driver, IfState, with_state, begin_work, take_request, check_buf, load}
use sddf_i2c_driver.System.Take.{at_transport, take_request-Taken}
use sddf_i2c_driver.System.Ledger.{Ledger, free_ne_zero, used_ne_zero, used-current, free-current}
use sddf_i2c_driver.System.BusInv.{
  Fits, Keeps, Untouched, Untouched-trans, BusInv-state, with_state-Untouched, load-LoadFrame,
  LoadFrame-Keeps, other_ne,
}

-- A bus that is idle, with the request `d` and the return buffer `e` waiting.
pub record CanBegin (p q : ℕ → ℕ) (bus : ℕ) (s : Driver) (d e : Desc) : Type 0 where
  pub req_free : List Desc
  pub more : List Desc
  pub spare : List Desc
  pub ret_used : List Desc
  pub req_rings : HandleHolds (req_ring bus s.transport) req_free (d ∷ more)
  pub ret_rings : HandleHolds (ret_ring bus s.transport) (e ∷ spare) ret_used
  pub req_ledger : Ledger p 0 req_free (d ∷ more)
  pub ret_ledger : Ledger q 0 (e ∷ spare) ret_used
  pub fit : All Fits (d ∷ more)

-- What checkBuf then hands to i2cLoadTokens.
pub record Begun (p q : ℕ → ℕ) (bus : ℕ) (s : Driver) (d e : Desc) : Type 0 where
  pub after : Transport
  pub works :
      take_request bus s
      ≡ load bus (begin_work bus d.encoded_addr d.len e.encoded_addr (at_transport s after))
  pub same_mem : after.mem ≡ s.transport.mem
  pub keeps :
      Keeps p q bus (begin_work bus d.encoded_addr d.len e.encoded_addr (at_transport s after))
  pub apart :
      Untouched
        (other bus)
        s
        (begin_work bus d.encoded_addr d.len e.encoded_addr (at_transport s after))
  pub req_ne_zero : d.encoded_addr ≢ 0
  pub ret_ne_zero : e.encoded_addr ≢ 0

-- The state of an interface that takes up a request.
abbrev pub begun : IfState → ℕ → ℕ → ℕ → IfState
begun st req sz ret = record st {
  current_req = req;
  current_req_len = u32 (sz + 2 ^ 64 - 2);
  remaining = u64 (sz + 2 ^ 64 - 2);
  notified = false;
  current_ret = ret;
}

pub begin_work-Untouched :
    {bus : ℕ} (b : IsBus bus) (req sz ret : ℕ) (s : Driver)
    → Untouched (other bus) s (begin_work bus req sz ret s)
unfolding begin_work
begin_work-Untouched {bus} b req sz ret s = record {
  req = refl;
  ret = refl;
  state = update_ne s.if_state bus (other bus) (begun (s.if_state bus) req sz ret) (other_ne b);
  regs = refl;
}

-- What checkBuf does with each state of the bus.
pub data Outcome (p q : ℕ → ℕ) (bus : ℕ) (s : Driver) : Option Driver → Type 0 where
  flag :
      (n : Bool)
      → Outcome p q bus s (some (with_state bus (record (s.if_state bus) { notified = n }) s))
  work :
      {d e : Desc} (c : Begun p q bus s d e)
      → Outcome p q bus s
          (load bus (begin_work bus d.encoded_addr d.len e.encoded_addr (at_transport s c.after)))
  fault : Outcome p q bus s none

pub check_buf-flags :
    (bus : ℕ) (s : Driver)
    → (req_buf_empty s.transport bus ≡ true) ⊎ ((s.if_state bus).current_req ≢ 0)
    → (n : Bool) × (check_buf bus s
        ≡ some (with_state bus (record (s.if_state bus) { notified = n }) s))
unfolding check_buf
check_buf-flags bus s (inl e) = (false, rw e)
check_buf-flags bus s (inr ne) = elim (Bool-cases (req_buf_empty s.transport bus)) [
  | inl e ↦ (false, rw e)
  | inr e ↦ (true, rw (e, ==_of_ne (s.if_state bus).current_req 0 ne))
]

module _ {p q : ℕ → ℕ} {bus : ℕ} (b : IsBus bus) (p0 : p 0 ≡ 0) (q0 : q 0 ≡ 0) where
  begin_work-Keeps :
      {s : Driver} {d e : Desc} (t : Transport) (c : CanBegin p q bus s d e)
      → HandleHolds (req_ring bus t) c.req_free c.more
      → HandleHolds (ret_ring bus t) c.spare c.ret_used
      → Keeps p q bus (begin_work bus d.encoded_addr d.len e.encoded_addr (at_transport s t))
  unfolding begin_work
  begin_work-Keeps {s} {d} {e} t c w v =
      let ne : d.encoded_addr ≢ 0 = used_ne_zero p0 c.req_ledger in
      let ne' : e.encoded_addr ≢ 0 = free_ne_zero q0 c.ret_ledger in
      rw (update_self s.if_state bus (begun (s.if_state bus) d.encoded_addr d.len e.encoded_addr))
        (record {
          req_free = c.req_free;
          req_used = c.more;
          ret_free = c.spare;
          ret_used = c.ret_used;
          req_rings = w;
          ret_rings = v;
          req_ledger = used-current p0 c.req_ledger;
          ret_ledger = free-current q0 c.ret_ledger;
          fit = c.fit.1;
          short = omega (arith, c.fit.0);
          paired = (λ z. absurd (ne z), λ z. absurd (ne' z));
        })

  pub CanBegin-Begun : {s : Driver} {d e : Desc} → CanBegin p q bus s d e → Begun p q bus s d e
  CanBegin-Begun {s} {d} {e} c =
      let ne : d.encoded_addr ≢ 0 = used_ne_zero p0 c.req_ledger in
      let ne' : e.encoded_addr ≢ 0 = free_ne_zero q0 c.ret_ledger in
      let t = take_request-Taken b s c.req_rings c.ret_rings ne ne' c.fit.0.1 in
      record {
        after = t.after;
        works = t.works;
        same_mem = t.same_mem;
        keeps = begin_work-Keeps t.after c t.req_rings t.ret_rings;
        apart =
            Untouched-trans t.apart
              (begin_work-Untouched b d.encoded_addr d.len e.encoded_addr (at_transport s t.after));
        req_ne_zero = ne;
        ret_ne_zero = ne';
      }

  can_begin :
      {s : Driver} {d e : Desc} {more spare : List Desc} (k : Keeps p q bus s)
      → (s.if_state bus).current_req ≡ 0
      → k.req_used ≡ d ∷ more
      → k.ret_free ≡ e ∷ spare
      → CanBegin p q bus s d e
  can_begin {s} {more = more} {spare = spare} k idle u f = record {
    req_free = k.req_free;
    more = more;
    spare = spare;
    ret_used = k.ret_used;
    req_rings = rw (← u) k.req_rings;
    ret_rings = rw (← f) k.ret_rings;
    req_ledger = rw (← u, ← idle) k.req_ledger;
    ret_ledger = rw (← f, ← k.paired.0 idle) k.ret_ledger;
    fit = subst (All Fits) u k.fit;
  }

  waiting :
      (s : Driver) {d : Desc} {more : List Desc} (k : Keeps p q bus s)
      → k.req_used ≡ d ∷ more
      → req_buf_empty s.transport bus ≡ false
  waiting s k u = elim (Bool-cases (req_buf_empty s.transport bus)) [
    | inl e ↦
        let none_left : k.req_used ≡ [] = (req_buf_empty_lem b s.transport k.req_rings).0 e in cc
    | inr e ↦ e
  ]

  -- checkBuf with a request and a return buffer at hand begins the work.
  pub check_buf-begins :
      (s : Driver) {d e : Desc} {more spare : List Desc} (k : Keeps p q bus s)
      → (s.if_state bus).current_req ≡ 0
      → k.req_used ≡ d ∷ more
      → k.ret_free ≡ e ∷ spare
      → (c : Begun p q bus s d e) × (check_buf bus s
          ≡ load bus (begin_work bus d.encoded_addr d.len e.encoded_addr (at_transport s c.after)))
  unfolding check_buf
  check_buf-begins s k idle u f =
      let c = CanBegin-Begun (can_begin k idle u f) in
      (c, rw (waiting s k u, ==_of_eq (s.if_state bus).current_req 0 idle) c.works)

  -- With no return buffer it writes through NULL.
  pub check_buf-faults :
      (s : Driver) {d : Desc} {more : List Desc} (k : Keeps p q bus s)
      → (s.if_state bus).current_req ≡ 0
      → k.req_used ≡ d ∷ more
      → k.ret_free ≡ []
      → check_buf bus s ≡ none
  unfolding check_buf take_request
  check_buf-faults s {d} k idle u f =
      let reqs = subst (λ x. HandleHolds (req_ring bus s.transport) k.req_free x) u k.req_rings in
      let (t, r, w, m, g) = pop_req_buf-ok b s.transport reqs in
      let rets = subst (λ x. HandleHolds (ret_ring bus s.transport) x k.ret_used) f k.ret_rings in
      let rets' : HandleHolds (ret_ring bus t) [] k.ret_used = rw (g.ret bus) rets in
      let ne : d.encoded_addr ≢ 0 =
        used_ne_zero p0
          (subst (λ x. Ledger p (s.if_state bus).current_req k.req_free x) u k.req_ledger) in
      rw (
        waiting s k u,
        ==_of_eq (s.if_state bus).current_req 0 idle,
        r,
        ==_of_ne d.encoded_addr 0 ne,
        get_ret_buf-empty b t rets',
      )

  flagged :
      (s : Driver) (st : IfState)
      → Keeps p q bus s
      → st.current_req ≡ (s.if_state bus).current_req
      → st.current_ret ≡ (s.if_state bus).current_ret
      → st.current_req_len ≡ (s.if_state bus).current_req_len
      → Keeps p q bus (with_state bus st s) × Untouched (other bus) s (with_state bus st s)
  flagged s st k x y z =
      (rw (update_self s.if_state bus st) (BusInv-state x y z k), with_state-Untouched b st s)

  pub check_buf-Outcome : (s : Driver) → Keeps p q bus s → Outcome p q bus s (check_buf bus s)
  check_buf-Outcome s k = elim (Bool-cases ((s.if_state bus).current_req == 0)) [
    | inr e ↦
        let (n, r) = check_buf-flags bus s (inr (ne_of_== _ _ e)) in
        subst (Outcome p q bus s) (sym r) (flag n)
    | inl e ↦
        let idle = eq_of_== _ _ e in
        elim (List-cases k.req_used) [
          | inl u ↦
              let r0 : req_buf_empty s.transport bus ≡ true =
                (req_buf_empty_lem b s.transport k.req_rings).1 u in
              let (n, r) = check_buf-flags bus s (inl r0) in
              subst (Outcome p q bus s) (sym r) (flag n)
          | inr (d, more, u) ↦ elim (List-cases k.ret_free) [
            | inl f ↦ subst (Outcome p q bus s) (sym (check_buf-faults s k idle u f)) fault
            | inr (e, spare, f) ↦
                let (c, r) = check_buf-begins s k idle u f in
                subst (Outcome p q bus s) (sym r) (work c)
          ]
        ]
  ]

  Outcome-Keeps :
      (s t : Driver) {o : Option Driver}
      → Keeps p q bus s
      → Outcome p q bus s o
      → o ≡ some t
      → Keeps p q bus t × Untouched (other bus) s t
  Outcome-Keeps s t k (flag n) e =
      subst (λ x. Keeps p q bus x × Untouched (other bus) s x) (some-injective _ _ e)
        (flagged s (record (s.if_state bus) { notified = n }) k refl refl refl)
  Outcome-Keeps s t k (work c) e =
      let f = load-LoadFrame b _ t e in (LoadFrame-Keeps f c.keeps, Untouched-trans c.apart f.apart)
  Outcome-Keeps s t k fault e = absurd (none-ne-some _ e)

  -- If `checkBuf` of a bus returns, then the bus keeps its books, and the other bus is left alone:
  -- its rings, its state and its registers. No pool of buffers has one at NULL.
  pub check_buf-Keeps :
      (s t : Driver)
      → Keeps p q bus s
      → check_buf bus s ≡ some t
      → Keeps p q bus t × Untouched (other bus) s t
  check_buf-Keeps s t k e = Outcome-Keeps s t k (check_buf-Outcome s k) e
