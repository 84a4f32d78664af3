-- ===== src/Ring/Refine.antt =====
-- A valid ring behaves as the bounded FIFO of its contents (Ring.Queue).
use sddf_i2c_driver.Prelude.{
  ℕ, suc, ◌+◌, ◌-◌, ◌%◌, ◌<◌, ◌≡◌, refl, ◌∙◌, ap, ◌≢◌, inl, inr, Option, none, some, List, [], ◌∷◌,
  ◌++◌, arith, ◌==◌, length, update, Bool-cases, true, ◌↔◌, sym, ne_of_==, cons-injective,
}
use sddf_i2c_driver.Prelude.Words.{u32, sub32}
use sddf_i2c_driver.Ring.{
  Desc, desc, RingBuffer, size, ring_empty, ring_full, enqueue, dequeue, reset, ring_size,
  driver_dequeue,
}
use sddf_i2c_driver.Ring.Queue
use sddf_i2c_driver.Ring.Contents.{
  IsValid, window, window_mod, contents, length-contents, window-update,
}

-- The writer is never more than SIZE - 1 ahead, so `ring_full` tests for that distance.
pub ring_full_lem :
    {r : RingBuffer} → IsValid r → ring_full r ≡ (sub32 r.write_idx r.read_idx == 511)
unfolding ring_full
ring_full_lem v = ground arith

ring_empty_lem : {r : RingBuffer} → IsValid r → ring_empty r ≡ (sub32 r.write_idx r.read_idx == 0)
unfolding ring_empty
ring_empty_lem v = ground arith

module _ (r : RingBuffer) (v : IsValid r) where
  abbrev held : ℕ
  held = sub32 r.write_idx r.read_idx

  abbrev pushed : ℕ → ℕ → RingBuffer
  pushed a n = record r {
    buffers = update r.buffers (r.write_idx % size) (desc a n);
    write_idx = u32 (r.write_idx + 1);
  }

  abbrev popped : RingBuffer
  popped = record r { read_idx = u32 (r.read_idx + 1) }

  pushed-IsValid : (a n : ℕ) → held < 511 → IsValid (pushed a n)
  pushed-IsValid a n h = omega arith

  pub popped-IsValid : held ≢ 0 → IsValid popped
  popped-IsValid h = omega arith

  contents-pushed : (a n : ℕ) → held < 511 → contents (pushed a n) ≡ contents r ++ desc a n ∷ []
  contents-pushed a n h =
      let e : sub32 (u32 (r.write_idx + 1)) r.read_idx ≡ suc held = omega arith in
      ap (window (pushed a n).buffers r.read_idx) e
      ∙ window-update r.buffers (desc a n) held r.read_idx (r.write_idx % size) (omega arith)
          (omega arith)

  pub contents-popped : held ≢ 0 → contents r ≡ r.buffers (r.read_idx % size) ∷ contents popped
  contents-popped h =
      let e : held ≡ suc (held - 1) = omega arith in
      let k : held - 1 ≡ sub32 r.write_idx (u32 (r.read_idx + 1)) = omega arith in
      ap (window r.buffers r.read_idx) e
      ∙ ap (λ q. r.buffers (r.read_idx % size) ∷ q)
          (window_mod r.buffers (r.read_idx + 1) (u32 (r.read_idx + 1)) (held - 1) (omega arith)
            ∙ ap (window r.buffers (u32 (r.read_idx + 1))) k)

-- `r` is valid, and holds the descriptors `q`, oldest first.
pub record Holds (r : RingBuffer) (q : List Desc) : Type 0 where
  pub valid : IsValid r
  pub holds : contents r ≡ q

-- The two results fail together, or the ring of the one holds the queue of the other.
abbrev pub Pushes : Option RingBuffer → Option (List Desc) → Type 0
Pushes none none = Unit {0}
Pushes none (some q) = ⊥
Pushes (some r) none = ⊥
Pushes (some r) (some q) = Holds r q

abbrev pub Pops : Option (Desc × RingBuffer) → Option (Desc × List Desc) → Type 0
Pops none none = Unit {0}
Pops none (some q) = ⊥
Pops (some r) none = ⊥
Pops (some (d, r)) (some (c, q)) = (d ≡ c) × Holds r q

pub length-Holds :
    {r : RingBuffer} {q : List Desc} → Holds r q → sub32 r.write_idx r.read_idx ≡ length q
length-Holds {r} h = sym (length-contents r) ∙ ap length h.holds

pub enqueue-full :
    {r : RingBuffer} (q : List Desc) (a n : ℕ) → Holds r q → length q ≡ 511 → enqueue r a n ≡ none
unfolding enqueue
enqueue-full q a n h e = ground (arith, length-Holds h, h.valid)

pub enqueue-ok :
    {r : RingBuffer} (q : List Desc) (a n : ℕ)
    → Holds r q
    → length q < 511
    → (r' : RingBuffer) × (enqueue r a n ≡ some r') × Holds r' (q ++ desc a n ∷ [])
unfolding enqueue
enqueue-ok {r} q a n h lt =
    let e : held r h.valid < 511 = omega (arith, length-Holds h) in
    (
      pushed r h.valid a n,
      ground (arith, h.valid),
      record {
        valid = pushed-IsValid r h.valid a n e;
        holds = contents-pushed r h.valid a n e ∙ ap (λ q. q ++ desc a n ∷ []) h.holds;
      },
    )

pub dequeue-empty : {r : RingBuffer} → Holds r [] → dequeue r ≡ none
unfolding dequeue
dequeue-empty h = ground (arith, length-Holds h, h.valid)

pub dequeue-ok :
    {r : RingBuffer} {d : Desc} {q : List Desc}
    → Holds r (d ∷ q)
    → (r' : RingBuffer) × (dequeue r ≡ some (d, r')) × Holds r' q
unfolding dequeue
dequeue-ok {r} {d} {q} h =
    let e : held r h.valid ≢ 0 = omega (arith, length-Holds h) in
    let (first, rest) = cons-injective (sym (contents-popped r h.valid e) ∙ h.holds) in
    (
      popped r h.valid,
      ground (arith, h.valid),
      record { valid = popped-IsValid r h.valid e; holds = rest },
    )

-- On a ring that holds the queue `q`, `enqueue` does what a push to a queue of 511 places does:
-- both fail, or the new ring holds the new queue.
pub enqueue_refines :
    {r : RingBuffer} (q : List Desc) (a n : ℕ)
    → Holds r q
    → Pushes (enqueue r a n) (Queue.push q (desc a n))
unfolding Queue.push
enqueue_refines {r} q a n h = elim (Bool-cases (length q == 511)) [
  | inl full ↦ rw (full, enqueue-full q a n h (ground arith)) tt
  | inr less ↦
      let (r', e, k) =
        enqueue-ok q a n h (omega (arith, ne_of_== (length q) 511 less, length-Holds h, h.valid)) in
      rw (less, e) k
]

-- On a ring that holds the queue `q`, `dequeue` does what a pop does: both fail, or they give the
-- same descriptor and the new ring holds the rest.
pub dequeue_refines : {r : RingBuffer} (q : List Desc) → Holds r q → Pops (dequeue r) (Queue.pop q)
unfolding Queue.pop
dequeue_refines [] h = rw (dequeue-empty h) tt
dequeue_refines (d ∷ q) h = let (r', e, k) = dequeue-ok h in rw e (refl, k)

-- Resetting both indices empties a ring.
pub ring_init-Holds : (r : RingBuffer) → Holds (reset r) []
ring_init-Holds r = record { valid = omega arith; holds = refl }

-- `ring_empty` of a ring is true exactly when the queue it holds is empty.
pub ring_empty-Holds :
    {r : RingBuffer} {q : List Desc} → Holds r q → (ring_empty r ≡ true) ↔ (q ≡ [])
ring_empty-Holds {r} {q = []} h =
    (λ e. refl, λ e. rw (ring_empty_lem h.valid) (ground (arith, length-Holds h)))
ring_empty-Holds {r} {q = d ∷ q} h =
    (λ e. ground (arith, ring_empty_lem h.valid, length-Holds h), λ e. absurd (cc))

-- `ring_size` of a ring is the length of the queue it holds.
pub ring_size-length : {r : RingBuffer} {q : List Desc} → Holds r q → ring_size r ≡ length q
unfolding ring_size
ring_size-length h = length-Holds h

pub driver_dequeue-eq-dequeue : (r : RingBuffer) → driver_dequeue r ≡ dequeue r
unfolding driver_dequeue dequeue
driver_dequeue-eq-dequeue r = refl
