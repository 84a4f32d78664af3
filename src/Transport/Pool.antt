-- ===== src/Transport/Pool.antt =====
-- i2cTransportInit: every ring starts with its own share of the shared buffers.
use sddf_i2c_driver.Prelude.{
  ℕ, zero, suc, ◌+◌, ◌*◌, ◌^◌, ◌≤◌, ◌<◌, ◌≡◌, refl, ap, ◌⊎◌, inl, inr, true, List, [], ◌∷◌, ◌++◌,
  append-nil, append_assoc, arith, length, length-append,
}
use native.Mathlib.Decide.{dec_lt}
use sddf_i2c_driver.Ring.{Desc, desc, RingHandle, ring_init}
use sddf_i2c_driver.Ring.Handle.{HandleHolds, enqueue_free-ok, ring_init-HandleHolds}
use sddf_i2c_driver.Transport.{
  Transport, buf_sz, buf_count, give, buf_addr, populate, i2c_transport_init,
}

pub give-ok :
    {h : RingHandle} {f u : List Desc} (a : ℕ)
    → HandleHolds h f u
    → length f < 511
    → HandleHolds (give h a) (f ++ desc a buf_sz ∷ []) u
unfolding give
give-ok a v lt = let (h', e, w) = enqueue_free-ok v a buf_sz lt in rw (e, give) w

module _ (driver_bufs : ℕ) where
  -- The buffers of the `k`-th ring from round `i` on.
  abbrev pub share : ℕ → ℕ → ℕ → List Desc
  share k zero i = []
  share k (suc n) i = desc (buf_addr driver_bufs k i) buf_sz ∷ share k n (i + 1)

  pub length-share : (k n i : ℕ) → length (share k n i) ≡ n
  length-share k zero i = refl
  length-share k (suc n) i = ap suc (length-share k n (i + 1))

  -- The body of the loop.
  abbrev one_round : ℕ → Transport → Transport
  one_round i t = record t {
    m2_req_ring = give t.m2_req_ring (buf_addr driver_bufs 0 i);
    m2_ret_ring = give t.m2_ret_ring (buf_addr driver_bufs 1 i);
    m3_req_ring = give t.m3_req_ring (buf_addr driver_bufs 2 i);
    m3_ret_ring = give t.m3_ret_ring (buf_addr driver_bufs 3 i);
  }

  abbrev emptied : Transport → Transport
  emptied t = record t {
    m2_req_ring = ring_init t.m2_req_ring.free_ring t.m2_req_ring.used_ring true;
    m2_ret_ring = ring_init t.m2_ret_ring.free_ring t.m2_ret_ring.used_ring true;
    m3_req_ring = ring_init t.m3_req_ring.free_ring t.m3_req_ring.used_ring true;
    m3_ret_ring = ring_init t.m3_ret_ring.free_ring t.m3_ret_ring.used_ring true;
  }

  -- The four free rings hold `f`, `g`, `h` and `j`, and the used rings are empty.
  pub record Free (t : Transport) (f g h j : List Desc) : Type 0 where
    pub m2_req : HandleHolds t.m2_req_ring f []
    pub m2_ret : HandleHolds t.m2_ret_ring g []
    pub m3_req : HandleHolds t.m3_req_ring h []
    pub m3_ret : HandleHolds t.m3_ret_ring j []

  populate-Free :
      (n i : ℕ) (t : Transport) (f g h j : List Desc)
      → Free t f g h j
      → length f + n ≤ 511
      → length g ≡ length f
      → length h ≡ length f
      → length j ≡ length f
      → Free
          (populate driver_bufs n i t)
          (f ++ share 0 n i)
          (g ++ share 1 n i)
          (h ++ share 2 n i)
          (j ++ share 3 n i)
  unfolding populate
  populate-Free zero i t f g h j v le eg eh ej =
      rw (append-nil, append-nil, append-nil, append-nil) v
  populate-Free (suc n) i t f g h j v le eg eh ej =
      let d = λ (k : ℕ). desc (buf_addr driver_bufs k i) buf_sz ∷ [] in
      let l = λ (q : List Desc) (k : ℕ). length-append q (d k) in
      let rest =
        populate-Free n (i + 1) (one_round i t) (f ++ d 0) (g ++ d 1) (h ++ d 2) (j ++ d 3)
          (record {
            m2_req = give-ok (buf_addr driver_bufs 0 i) v.m2_req (omega arith);
            m2_ret = give-ok (buf_addr driver_bufs 1 i) v.m2_ret (omega arith);
            m3_req = give-ok (buf_addr driver_bufs 2 i) v.m3_req (omega arith);
            m3_ret = give-ok (buf_addr driver_bufs 3 i) v.m3_ret (omega arith);
          })
          (omega (arith, l f 0)) (omega (arith, l f 0, l g 1)) (omega (arith, l f 0, l h 2))
          (omega (arith, l f 0, l j 3)) in
      rw
        (
          append_assoc f (d 0) (share 0 n (i + 1)),
          append_assoc g (d 1) (share 1 n (i + 1)),
          append_assoc h (d 2) (share 2 n (i + 1)),
          append_assoc j (d 3) (share 3 n (i + 1)),
        )
        at rest

  mem-populate : (n i : ℕ) (t : Transport) → (populate driver_bufs n i t).mem ≡ t.mem
  unfolding populate
  mem-populate zero i t = refl
  mem-populate (suc n) i t = mem-populate n (i + 1) (one_round i t)

  -- `i2cTransportInit` with initialisation, whatever the rings held before, fills each of the four
  -- free rings with its 511 buffers in order, empties the used rings, and leaves the memory of the
  -- buffers alone.
  pub i2c_transport_init-Free :
      (t : Transport)
      → Free
          (i2c_transport_init driver_bufs true t)
          (share 0 511 0)
          (share 1 511 0)
          (share 2 511 0)
          (share 3 511 0)
        × ((i2c_transport_init driver_bufs true t).mem ≡ t.mem)
  unfolding i2c_transport_init
  i2c_transport_init-Free t = (
    populate-Free 511 0 (emptied t) [] [] [] []
        (record {
          m2_req = ring_init-HandleHolds t.m2_req_ring.free_ring t.m2_req_ring.used_ring;
          m2_ret = ring_init-HandleHolds t.m2_ret_ring.free_ring t.m2_ret_ring.used_ring;
          m3_req = ring_init-HandleHolds t.m3_req_ring.free_ring t.m3_req_ring.used_ring;
          m3_ret = ring_init-HandleHolds t.m3_ret_ring.free_ring t.m3_ret_ring.used_ring;
        })
        (omega arith) refl refl refl,
    mem-populate 511 0 (emptied t),
  )

  buf_addr_no_wrap :
      (k i : ℕ)
      → driver_bufs + buf_sz * (4 * buf_count) < 2 ^ 64
      → k < 4
      → i < buf_count
      → buf_addr driver_bufs k i ≡ driver_bufs + buf_sz * (i + k * buf_count)
  buf_addr_no_wrap k i region hk hi = omega arith

  -- Two of the buffers that `i2cTransportInit` hands out are the same one, or do not overlap, and
  -- none is at NULL, where the region of the buffers is not at 0 and does not wrap.
  pub buf_addr_apart :
      (k i l j : ℕ)
      → 0 < driver_bufs
      → driver_bufs + buf_sz * (4 * buf_count) < 2 ^ 64
      → k < 4
      → l < 4
      → i < buf_count
      → j < buf_count
      → (0 < buf_addr driver_bufs k i)
        × (((k ≡ l) × (i ≡ j))
            ⊎ (buf_addr driver_bufs k i + buf_sz ≤ buf_addr driver_bufs l j)
            ⊎ (buf_addr driver_bufs l j + buf_sz ≤ buf_addr driver_bufs k i))
  buf_addr_apart k i l j base region hk hl hi hj =
      let e = buf_addr_no_wrap k i region hk hi in
      let f = buf_addr_no_wrap l j region hl hj in
      (
        omega (arith, e),
        elim (dec_lt (i + k * buf_count) (j + l * buf_count)) [
          | yes p ↦ inr (inl (omega (arith, e, f)))
          | no p ↦ elim (dec_lt (j + l * buf_count) (i + k * buf_count)) [
            | yes q ↦ inr (inr (omega (arith, e, f)))
            | no q ↦ inl (omega arith, omega arith)
          ]
        ],
      )
