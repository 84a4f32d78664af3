-- ===== src/Transport/Calls.antt =====
-- The calls of i2c/i2c-transport.c by the contents of the rings: what each returns, and what it
-- moves. `f` and `u` are the free and the used descriptors of the ring that the bus selects.
use sddf_i2c_driver.Prelude.{
  ℕ, All, Bool-cases, inl, inr, ltb, false, ◌-◌, ◌+◌, ◌≤◌, ◌<◌, ◌≡◌, refl, ◌≢◌, ◌↔◌, true, List, [],
  ◌∷◌, ◌++◌, arith, length, negsuc, ltb_of_le, ltb_of_lt, ==_of_ne,
}
use sddf_i2c_driver.Prelude.Words.{u32}
use sddf_i2c_driver.Ring.{Desc, desc, RingHandle}
use sddf_i2c_driver.Ring.Refine.{ring_empty-Holds}
use sddf_i2c_driver.Ring.Handle.{
  HandleHolds, enqueue_free-ok, enqueue_used-ok, dequeue_free-ok, dequeue_used-ok,
  dequeue_free-empty,
}
use sddf_i2c_driver.Transport.{
  Transport, Memory, buf_sz, req_ring, ret_ring, with_req_ring, with_ret_ring, fill_req, post_req,
  alloc_faults, alloc_req_buf, get_ret_buf, push_ret_buf, low_word, pop_buf, pop_req_buf,
  pop_ret_buf, ret_buf_empty, req_buf_empty, release_req_buf, release_ret_buf,
}
use sddf_i2c_driver.Transport.Message.{Filled, fill_req-Filled}
use sddf_i2c_driver.Transport.Lens.{
  IsBus, other, good_bus, req_self, ret_self, req_other, ret_other,
}

-- Only the request ring of `bus` may differ; only the return ring of `bus` may differ.
pub record ReqFrame (bus : ℕ) (t t' : Transport) : Type 0 where
  pub ret : (c : ℕ) → ret_ring c t' ≡ ret_ring c t
  pub req : req_ring (other bus) t' ≡ req_ring (other bus) t

pub record RetFrame (bus : ℕ) (t t' : Transport) : Type 0 where
  pub req : (c : ℕ) → req_ring c t' ≡ req_ring c t
  pub ret : ret_ring (other bus) t' ≡ ret_ring (other bus) t

module _ {bus : ℕ} (b : IsBus bus) (t : Transport) where
  req_frame :
      (h : RingHandle) (m : Memory) → ReqFrame bus t (with_req_ring bus h (record t { mem = m }))
  req_frame h m = record { ret = λ c. refl; req = req_other bus h (record t { mem = m }) refl }

  ret_frame : (h : RingHandle) → RetFrame bus t (with_ret_ring bus h t)
  ret_frame h = record { req = λ c. refl; ret = ret_other bus h t refl }

  -- With a free buffer, fewer than 511 used ones and a size of at most 510, `allocReqBuf` returns
  -- the oldest free buffer, makes it the newest used one with the size and 2 as its length, and
  -- fills it. Only the request rings of the bus are changed.
  pub alloc_req_buf-ok :
      {d : Desc} {f u : List Desc} (n : ℕ) (src : ℕ → ℕ) (client addr : ℕ)
      → HandleHolds (req_ring bus t) (d ∷ f) u
      → length u < 511
      → n ≤ 510
      → (t' : Transport) × (alloc_req_buf t bus n src client addr ≡ (d.encoded_addr, t'))
        × HandleHolds (req_ring bus t') f (u ++ desc d.encoded_addr (n + 2) ∷ [])
        × (t'.mem ≡ fill_req t.mem d.encoded_addr n src client addr)
        × ReqFrame bus t t'
  unfolding alloc_req_buf post_req
  alloc_req_buf-ok {d} {f} {u} n src client addr v lt le =
      let (h, e, w) = dequeue_free-ok v in
      let (h', e', w') = enqueue_used-ok w d.encoded_addr (n + 2) lt in
      let m = fill_req t.mem d.encoded_addr n src client addr in
      let l : u32 (n + 2) ≡ n + 2 = omega arith in
      (
        with_req_ring bus h' (record t { mem = m }),
        rw (good_bus b, ltb_of_le 510 n le, e, alloc_req_buf) (rw (l, e', post_req)),
        rw (req_self bus h' (record t { mem = m })) w',
        refl,
        req_frame h' m,
      )

  -- With a free buffer that is not at NULL, fewer than 511 used ones and a size of at most 510,
  -- `allocReqBuf` does not go through NULL, returns the oldest free buffer, makes it the newest
  -- used one with the size and 2 as its length, and writes the low bytes of the client and of the
  -- address and then the bytes of the data into it, one behind the other. The rest of the memory
  -- is kept, and of the rings only the request rings of the bus are changed.
  pub alloc_req_buf-Filled :
      {d : Desc} {f u : List Desc} (n : ℕ) (src : ℕ → ℕ) (client addr : ℕ)
      → HandleHolds (req_ring bus t) (d ∷ f) u
      → d.encoded_addr ≢ 0
      → length u < 511
      → n ≤ 510
      → (alloc_faults t bus n ≡ false)
        × (t' : Transport) × (alloc_req_buf t bus n src client addr ≡ (d.encoded_addr, t'))
        × HandleHolds (req_ring bus t') f (u ++ desc d.encoded_addr (n + 2) ∷ [])
        × Filled t.mem t'.mem d.encoded_addr n src client addr
        × ReqFrame bus t t'
  unfolding alloc_faults
  alloc_req_buf-Filled {d} n src client addr v ne lt le =
      let (h, e, w) = dequeue_free-ok v in
      let (t', r, w', m, frame) = alloc_req_buf-ok n src client addr v lt le in
      (
        rw (good_bus b, ltb_of_le 510 n le, e, ==_of_ne d.encoded_addr 0 ne),
        t',
        r,
        w',
        rw m (fill_req-Filled t.mem d.encoded_addr n src client addr),
        frame,
      )

  -- With no free buffer at NULL, it does not go through NULL.
  pub alloc_faults-none :
      {u : List Desc} (f : List Desc) (n : ℕ)
      → HandleHolds (req_ring bus t) f u
      → All (λ d. d.encoded_addr ≢ 0) f
      → alloc_faults t bus n ≡ false
  unfolding alloc_faults
  alloc_faults-none [] n v ne = ground (arith, dequeue_free-empty v)
  alloc_faults-none (d ∷ f) n v ne =
      let (h, e, w) = dequeue_free-ok v in
      let z = ==_of_ne d.encoded_addr 0 ne.0 in
      elim (Bool-cases (ltb (buf_sz - 2) n)) [
        | inl l ↦ rw (good_bus b, l)
        | inr l ↦ rw (good_bus b, l, e, z)
      ]

  pub alloc_req_buf-empty :
      {u : List Desc} (n : ℕ) (src : ℕ → ℕ) (client addr : ℕ)
      → HandleHolds (req_ring bus t) [] u
      → alloc_req_buf t bus n src client addr ≡ (0, t)
  unfolding alloc_req_buf
  alloc_req_buf-empty n src client addr v = ground (arith, dequeue_free-empty v)

  pub alloc_req_buf-large :
      (n : ℕ) (src : ℕ → ℕ) (client addr : ℕ)
      → 510 < n
      → alloc_req_buf t bus n src client addr ≡ (0, t)
  unfolding alloc_req_buf
  alloc_req_buf-large n src client addr h = rw (good_bus b, ltb_of_lt 510 n h)

  -- With a used buffer, `popReqBuf` returns the oldest one and its length, and takes it off the
  -- used ring. Only the request rings of the bus are changed.
  pub pop_req_buf-ok :
      {d : Desc} {f u : List Desc}
      → HandleHolds (req_ring bus t) f (d ∷ u)
      → (t' : Transport) × (pop_req_buf t bus 0 ≡ (d.encoded_addr, u32 d.len, t'))
        × HandleHolds (req_ring bus t') f u
        × (t'.mem ≡ t.mem)
        × ReqFrame bus t t'
  unfolding pop_req_buf
  pop_req_buf-ok {d} v =
      let (h, e, w) = dequeue_used-ok v in
      let l : low_word 0 d.len ≡ u32 d.len = omega arith in
      (
        with_req_ring bus h t,
        rw (good_bus b, e, pop_buf) (rw l),
        rw (req_self bus h t) w,
        refl,
        req_frame h t.mem,
      )

  pub pop_ret_buf-ok :
      {d : Desc} {f u : List Desc}
      → HandleHolds (ret_ring bus t) f (d ∷ u)
      → (t' : Transport) × (pop_ret_buf t bus 0 ≡ (d.encoded_addr, u32 d.len, t'))
        × HandleHolds (ret_ring bus t') f u
        × (t'.mem ≡ t.mem)
        × RetFrame bus t t'
  unfolding pop_ret_buf
  pop_ret_buf-ok {d} v =
      let (h, e, w) = dequeue_used-ok v in
      let l : low_word 0 d.len ≡ u32 d.len = omega arith in
      (
        with_ret_ring bus h t,
        rw (good_bus b, e, pop_buf) (rw l),
        rw (ret_self bus h t) w,
        refl,
        ret_frame h,
      )

  -- With a free buffer, `getRetBuf` returns the oldest one and takes it off the free ring. Only
  -- the return rings of the bus are changed.
  pub get_ret_buf-ok :
      {d : Desc} {f u : List Desc}
      → HandleHolds (ret_ring bus t) (d ∷ f) u
      → (t' : Transport) × (get_ret_buf t bus ≡ (d.encoded_addr, t'))
        × HandleHolds (ret_ring bus t') f u
        × (t'.mem ≡ t.mem)
        × RetFrame bus t t'
  unfolding get_ret_buf
  get_ret_buf-ok v =
      let (h, e, w) = dequeue_free-ok v in
      (
        with_ret_ring bus h t,
        rw (good_bus b, e, get_ret_buf),
        rw (ret_self bus h t) w,
        refl,
        ret_frame h,
      )

  pub get_ret_buf-empty :
      {u : List Desc} → HandleHolds (ret_ring bus t) [] u → get_ret_buf t bus ≡ (0, t)
  unfolding get_ret_buf
  get_ret_buf-empty v = ground (arith, dequeue_free-empty v)

  -- With fewer than 511 used buffers, a buffer that is not NULL and a size of at most 512,
  -- `pushRetBuf` makes the buffer the newest used one and returns -1. Only the return rings of the
  -- bus are changed.
  pub push_ret_buf-ok :
      {f u : List Desc} (buf n : ℕ)
      → HandleHolds (ret_ring bus t) f u
      → length u < 511
      → buf ≢ 0
      → n ≤ 512
      → (t' : Transport) × (push_ret_buf t bus buf n ≡ (negsuc 0, t'))
        × HandleHolds (ret_ring bus t') f (u ++ desc buf n ∷ [])
        × (t'.mem ≡ t.mem)
        × RetFrame bus t t'
  unfolding push_ret_buf
  push_ret_buf-ok buf n v lt ne le =
      let (h, e, w) = enqueue_used-ok v buf n lt in
      let l : u32 n ≡ n = omega arith in
      (
        with_ret_ring bus h t,
        rw (good_bus b, ltb_of_le 512 n le, ==_of_ne buf 0 ne, l, e, push_ret_buf),
        rw (ret_self bus h t) w,
        refl,
        ret_frame h,
      )

  -- With fewer than 511 free buffers, `releaseReqBuf` makes a buffer that is not NULL the newest
  -- free one and returns -1. Only the request rings of the bus are changed.
  pub release_req_buf-ok :
      {f u : List Desc} (buf : ℕ)
      → HandleHolds (req_ring bus t) f u
      → length f < 511
      → buf ≢ 0
      → (t' : Transport) × (release_req_buf t bus buf ≡ (negsuc 0, t'))
        × HandleHolds (req_ring bus t') (f ++ desc buf buf_sz ∷ []) u
        × (t'.mem ≡ t.mem)
        × ReqFrame bus t t'
  unfolding release_req_buf
  release_req_buf-ok buf v lt ne =
      let (h, e, w) = enqueue_free-ok v buf buf_sz lt in
      (
        with_req_ring bus h t,
        rw (good_bus b, ==_of_ne buf 0 ne, e, release_req_buf),
        rw (req_self bus h t) w,
        refl,
        req_frame h t.mem,
      )

  pub release_ret_buf-ok :
      {f u : List Desc} (buf : ℕ)
      → HandleHolds (ret_ring bus t) f u
      → length f < 511
      → buf ≢ 0
      → (t' : Transport) × (release_ret_buf t bus buf ≡ (negsuc 0, t'))
        × HandleHolds (ret_ring bus t') (f ++ desc buf buf_sz ∷ []) u
        × (t'.mem ≡ t.mem)
        × RetFrame bus t t'
  unfolding release_ret_buf
  release_ret_buf-ok buf v lt ne =
      let (h, e, w) = enqueue_free-ok v buf buf_sz lt in
      (
        with_ret_ring bus h t,
        rw (good_bus b, ==_of_ne buf 0 ne, e, release_ret_buf),
        rw (ret_self bus h t) w,
        refl,
        ret_frame h,
      )

  -- The tests for an empty used ring.
  pub req_buf_empty_lem :
      {f u : List Desc} → HandleHolds (req_ring bus t) f u → (req_buf_empty t bus ≡ true) ↔ (u ≡ [])
  unfolding req_buf_empty
  req_buf_empty_lem v = rw (good_bus b) (ring_empty-Holds v.used)

  pub ret_buf_empty_lem :
      {f u : List Desc} → HandleHolds (ret_ring bus t) f u → (ret_buf_empty t bus ≡ true) ↔ (u ≡ [])
  unfolding ret_buf_empty
  ret_buf_empty_lem v = rw (good_bus b) (ring_empty-Holds v.used)
