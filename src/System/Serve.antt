-- ===== src/System/Serve.antt =====
-- The server (i2c/i2c.c) and the ownership of the buffers it passes on.
use sddf_i2c_driver.Prelude.{
  ℤ, ℕ, ◌+◌, ◌≤◌, ◌<◌, ◌≡◌, refl, sym, ◌∙◌, ap, subst, ◌≢◌, ◌⊎◌, inl, inr, length, List, [], ◌∷◌,
  ◌++◌, arith, All-append, some, true, false, ==_of_ne, Bool-cases, List-cases,
}
use sddf_i2c_driver.Ring.{Desc, desc}
use sddf_i2c_driver.Ring.Handle.{HandleHolds}
use sddf_i2c_driver.Transport.{
  Transport, buf_sz, req_ring, ret_ring, alloc_req_buf, pop_ret_buf, ret_buf_empty, release_ret_buf,
}
use sddf_i2c_driver.Transport.Lens.{IsBus, other}
use sddf_i2c_driver.Transport.Calls.{
  alloc_req_buf-ok, alloc_req_buf-empty, alloc_req_buf-large, pop_ret_buf-ok, release_ret_buf-ok,
  ret_buf_empty_lem,
}
use sddf_i2c_driver.Driver.{IfState}
use sddf_i2c_driver.Server.{Server, Report, drain, report_of}
use sddf_i2c_driver.System.Ledger.{Ledger, used-free, free-used, used_ne_zero, used_room, free_room}
use sddf_i2c_driver.System.BusInv.{BusInv, Fits}

-- The books of one bus, by the transport layer.
abbrev pub Books : (p q : ℕ → ℕ) → ℕ → Transport → IfState → Type 0
Books p q bus t st = BusInv p q (req_ring bus t) (ret_ring bus t) st

-- From `t` to `u` the bus `c` is left alone.
pub record Kept (c : ℕ) (t u : Transport) : Type 0 where
  pub req : req_ring c u ≡ req_ring c t
  pub ret : ret_ring c u ≡ ret_ring c t

pub Kept-Books :
    {p q : ℕ → ℕ} {c : ℕ} {t u : Transport} {st : IfState}
    → Kept c t u
    → Books p q c t st
    → Books p q c u st
Kept-Books k v = rw (k.req, k.ret) v

pub Kept-trans : {c : ℕ} {t u v : Transport} → Kept c t u → Kept c u v → Kept c t v
Kept-trans f g = record { req = g.req ∙ f.req; ret = g.ret ∙ f.ret }

-- What the loop body of driverNotify does.
pub drain-empty :
    (bus : ℕ) (s : Server) → ret_buf_empty s.transport bus ≡ true → drain bus s ≡ some ([], s)
unfolding drain
drain-empty bus s e = rw e

drain-next :
    (bus : ℕ) (s : Server) (a sz : ℕ) (t u : Transport) (x : ℤ)
    → ret_buf_empty s.transport bus ≡ false
    → pop_ret_buf s.transport bus 0 ≡ (a, sz, t)
    → release_ret_buf t bus a ≡ (x, u)
    → a ≢ 0
    → drain bus s ≡ some (report_of bus a t.mem ∷ [], record s { transport = u })
unfolding drain
drain-next bus s a sz t u x e f g ne = rw (f, e, ==_of_ne a 0 ne, g)

-- What a round of driverNotify makes of the oldest returned buffer `d`.
pub record Drained (bus : ℕ) (s s' : Server) (d : Desc) (f u : List Desc) : Type 0 where
  pub works : drain bus s ≡ some (report_of bus d.encoded_addr s.transport.mem ∷ [], s')
  pub ret_rings : HandleHolds (ret_ring bus s'.transport) (f ++ desc d.encoded_addr buf_sz ∷ []) u
  pub req_ring_kept : req_ring bus s'.transport ≡ req_ring bus s.transport
  pub kept : Kept (other bus) s.transport s'.transport
  pub mem : s'.transport.mem ≡ s.transport.mem

pub drain-Drained :
    {bus : ℕ} {d : Desc} {f u : List Desc} (b : IsBus bus) (s : Server)
    → HandleHolds (ret_ring bus s.transport) f (d ∷ u)
    → length f < 511
    → d.encoded_addr ≢ 0
    → (s' : Server) × Drained bus s s' d f u
drain-Drained {bus} {d} b s used room ne =
    let (t, r, w, m, f) = pop_ret_buf-ok b s.transport used in
    let (u, r', w', m', g) = release_ret_buf-ok b t d.encoded_addr w room ne in
    let some_left : ret_buf_empty s.transport bus ≡ false =
      elim (Bool-cases (ret_buf_empty s.transport bus)) [
        | inl z ↦ absurd (cc ((ret_buf_empty_lem b s.transport used).0 z))
        | inr z ↦ z
      ] in
    (
      record s { transport = u },
      record {
        works =
            drain-next bus s _ _ t u _ some_left r r' ne
            ∙ ap (λ x. some (report_of bus d.encoded_addr x ∷ [], record s { transport = u })) m;
        ret_rings = w';
        req_ring_kept = g.req bus ∙ f.req bus;
        kept = record { req = g.req (other bus) ∙ f.req (other bus); ret = g.ret ∙ f.ret };
        mem = m' ∙ m;
      },
    )

module _ {p q : ℕ → ℕ} {bus : ℕ} (b : IsBus bus) (p0 : p 0 ≡ 0) (q0 : q 0 ≡ 0) where
  -- On a bus that keeps its books, where no pool has a buffer at NULL, a round of `driverNotify`
  -- returns: it never goes through NULL. The bus still keeps its books, and the rings of the other
  -- bus are left alone.
  pub drain-Books :
      (s : Server) (st : IfState)
      → Books p q bus s.transport st
      → (out : List Report) × (s' : Server) × (drain bus s ≡ some (out, s'))
        × Books p q bus s'.transport st
        × Kept (other bus) s.transport s'.transport
  drain-Books s st k = elim (List-cases k.ret_used) [
    | inl u ↦ (
      [],
      s,
      drain-empty bus s ((ret_buf_empty_lem b s.transport k.ret_rings).1 u),
      k,
      record { req = refl; ret = refl },
    )
    | inr (d, more, e) ↦
        let used = subst (λ x. HandleHolds (ret_ring bus s.transport) k.ret_free x) e k.ret_rings in
        let ledger = subst (λ x. Ledger q st.current_ret k.ret_free x) e k.ret_ledger in
        let ne = used_ne_zero q0 ledger in
        let (s', x) = drain-Drained b s used (free_room ledger) ne in
        (
          _,
          s',
          x.works,
          record {
            req_free = k.req_free;
            req_used = k.req_used;
            ret_free = k.ret_free ++ desc d.encoded_addr buf_sz ∷ [];
            ret_used = more;
            req_rings = rw x.req_ring_kept k.req_rings;
            ret_rings = x.ret_rings;
            req_ledger = k.req_ledger;
            ret_ledger = used-free buf_sz ledger;
            fit = k.fit;
            short = k.short;
            paired = k.paired;
          },
          x.kept,
        )
  ]

  -- `allocReqBuf`, of any size and whether it finds a buffer or not, keeps the books of its bus
  -- and leaves the rings of the other bus alone, where no pool has a buffer at NULL.
  pub alloc_req_buf-Books :
      (t : Transport) (st : IfState) (n : ℕ) (src : ℕ → ℕ) (client addr : ℕ)
      → Books p q bus t st
      → Books p q bus (alloc_req_buf t bus n src client addr).1 st
        × Kept (other bus) t (alloc_req_buf t bus n src client addr).1
  alloc_req_buf-Books t st n src client addr k =
      let same : (u : Transport) → u ≡ t → Books p q bus u st × Kept (other bus) t u = λ u e.
        subst (λ x. Books p q bus x st × Kept (other bus) t x) (sym e)
          (k, record { req = refl; ret = refl }) in
      let small_or_large : (n ≤ 510) ⊎ (510 < n) = ground arith in
      elim small_or_large [
        | inr lt ↦ same _ (ap (λ z. z.1) (alloc_req_buf-large b t n src client addr lt))
        | inl le ↦ elim (List-cases k.req_free) [
          | inl e ↦
              let v = subst (λ x. HandleHolds (req_ring bus t) x k.req_used) e k.req_rings in
              same _ (ap (λ z. z.1) (alloc_req_buf-empty b t n src client addr v))
          | inr (d, more, e) ↦
              let v = subst (λ x. HandleHolds (req_ring bus t) x k.req_used) e k.req_rings in
              let ledger = subst (λ x. Ledger p st.current_req x k.req_used) e k.req_ledger in
              let (u, r, w, m, f) =
                alloc_req_buf-ok b t n src client addr v (used_room ledger) le in
              subst (λ x. Books p q bus x st × Kept (other bus) t x) (sym (ap (λ z. z.1) r))
                (
                  record {
                    req_free = more;
                    req_used = k.req_used ++ desc d.encoded_addr (n + 2) ∷ [];
                    ret_free = k.ret_free;
                    ret_used = k.ret_used;
                    req_rings = w;
                    ret_rings = rw (f.ret bus) k.ret_rings;
                    req_ledger = free-used (n + 2) ledger;
                    ret_ledger = k.ret_ledger;
                    fit = All-append Fits k.req_used _ k.fit ((omega arith, omega arith), tt);
                    short = k.short;
                    paired = k.paired;
                  },
                  record { req = f.req; ret = f.ret (other bus) },
                )
        ]
      ]
