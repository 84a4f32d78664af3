-- ===== src/Ring/Handle.antt =====
-- The four operations of a ring handle (i2c/include/sw_shared_ringbuffer.h), on the contents of
-- its free and used rings.
use sddf_i2c_driver.Prelude.{ℕ, ◌<◌, ◌≡◌, none, some, List, [], ◌∷◌, ◌++◌, length, true}
use sddf_i2c_driver.Ring.{
  Desc, desc, RingBuffer, RingHandle, ring_init, ring_empty, enqueue_free, enqueue_used,
  dequeue_free, dequeue_used,
}
use sddf_i2c_driver.Ring.Refine.{
  Holds, enqueue-full, enqueue-ok, dequeue-empty, dequeue-ok, ring_init-Holds, ring_empty-Holds,
}

-- The free ring holds `f` and the used ring holds `u`.
pub record HandleHolds (h : RingHandle) (f u : List Desc) : Type 0 where
  pub free : Holds h.free_ring f
  pub used : Holds h.used_ring u

module _ {h : RingHandle} {f u : List Desc} (v : HandleHolds h f u) where
  pub enqueue_free-ok :
      (a n : ℕ)
      → length f < 511
      → (h' : RingHandle) × (enqueue_free h a n ≡ some h') × HandleHolds h' (f ++ desc a n ∷ []) u
  unfolding enqueue_free
  enqueue_free-ok a n lt =
      let (r, e, k) = enqueue-ok f a n v.free lt in
      (record h { free_ring = r }, rw (e, enqueue_free), record { free = k; used = v.used })

  pub enqueue_free-full : (a n : ℕ) → length f ≡ 511 → enqueue_free h a n ≡ none
  unfolding enqueue_free
  enqueue_free-full a n e = rw (enqueue-full f a n v.free e, enqueue_free)

  pub enqueue_used-ok :
      (a n : ℕ)
      → length u < 511
      → (h' : RingHandle) × (enqueue_used h a n ≡ some h') × HandleHolds h' f (u ++ desc a n ∷ [])
  unfolding enqueue_used
  enqueue_used-ok a n lt =
      let (r, e, k) = enqueue-ok u a n v.used lt in
      (record h { used_ring = r }, rw (e, enqueue_used), record { free = v.free; used = k })

  pub enqueue_used-full : (a n : ℕ) → length u ≡ 511 → enqueue_used h a n ≡ none
  unfolding enqueue_used
  enqueue_used-full a n e = rw (enqueue-full u a n v.used e, enqueue_used)

module _ {h : RingHandle} {d : Desc} where
  pub dequeue_free-ok :
      {f u : List Desc}
      → HandleHolds h (d ∷ f) u
      → (h' : RingHandle) × (dequeue_free h ≡ some (d, h')) × HandleHolds h' f u
  unfolding dequeue_free
  dequeue_free-ok v =
      let (r, e, k) = dequeue-ok v.free in
      (record h { free_ring = r }, rw (e, dequeue_free), record { free = k; used = v.used })

  pub dequeue_used-ok :
      {f u : List Desc}
      → HandleHolds h f (d ∷ u)
      → (h' : RingHandle) × (dequeue_used h ≡ some (d, h')) × HandleHolds h' f u
  unfolding dequeue_used
  dequeue_used-ok v =
      let (r, e, k) = dequeue-ok v.used in
      (record h { used_ring = r }, rw (e, dequeue_used), record { free = v.free; used = k })

pub dequeue_free-empty :
    {h : RingHandle} {u : List Desc} → HandleHolds h [] u → dequeue_free h ≡ none
unfolding dequeue_free
dequeue_free-empty v = rw (dequeue-empty v.free, dequeue_free)

pub dequeue_used-empty :
    {h : RingHandle} {f : List Desc} → HandleHolds h f [] → dequeue_used h ≡ none
unfolding dequeue_used
dequeue_used-empty v = rw (dequeue-empty v.used, dequeue_used)

-- With `buffer_init` both rings are emptied, whatever the shared memory held.
pub ring_init-HandleHolds : (free used : RingBuffer) → HandleHolds (ring_init free used true) [] []
unfolding ring_init
ring_init-HandleHolds free used = record {
  free = ring_init-Holds free;
  used = ring_init-Holds used;
}

pub used_empty :
    {h : RingHandle} {f u : List Desc} → HandleHolds h f u → ring_empty h.used_ring ≡ true → u ≡ []
used_empty v e = (ring_empty-Holds v.used).0 e
