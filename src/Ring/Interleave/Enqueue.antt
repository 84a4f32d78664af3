-- ===== src/Ring/Interleave/Enqueue.antt =====
-- The turns of `enqueue` (i2c/include/sw_shared_ringbuffer.h).
use sddf_i2c_driver.Prelude.{
  ℕ, zero, suc, ◌+◌, ◌-◌, ◌%◌, ◌≤◌, ◌<◌, ◌≡◌, refl, ◌∙◌, ap, ap₂, inl, inr, none, some, List, [],
  ◌∷◌, ◌++◌, arith, length, update, update_self, update_ne, Bool-cases,
}
use sddf_i2c_driver.Prelude.Words.{u32, sub32}
use sddf_i2c_driver.Ring.{Desc, desc, RingBuffer, size, ring_full}
use sddf_i2c_driver.Ring.Queue
use sddf_i2c_driver.Ring.Contents.{window}
use sddf_i2c_driver.Ring.Refine.{Holds, length-Holds, ring_full_lem}
use sddf_i2c_driver.Ring.Interleave.{
  Producer, no_call, called, has_room, addr_stored, stored, Consumer, resting, asked, not_empty,
  addr_read, desc_read, Event, enqueue_turn,
}
use sddf_i2c_driver.Ring.Interleave.State.{Does, slot, Producing, Front, Consuming}

-- A store behind a window of fewer than SIZE slots leaves it alone.
window-apart :
    (b : ℕ → Desc) (d : Desc) (n m h i : ℕ)
    → n ≤ m
    → m < size
    → i ≡ (h + m) % size
    → window (update b i d) h n ≡ window b h n
window-apart b d zero m h i le lt e = refl
window-apart b d (suc n) m h i le lt e =
    ap₂ ◌∷◌ (update_ne b i (h % size) d (omega arith))
      (window-apart b d n (m - 1) (h + 1) i (omega arith) (omega arith) (omega arith))

window-snoc :
    (b : ℕ → Desc) (n h : ℕ) → window b h (suc n) ≡ window b h n ++ b ((h + n) % size) ∷ []
window-snoc b zero h = ap (λ i. b (i % size) ∷ []) (omega arith)
window-snoc b (suc n) h =
    let e : h + 1 + n ≡ h + suc n = omega arith in
    ap (λ q. b (h % size) ∷ q)
      (window-snoc b n (h + 1) ∙ ap (λ i. window b (h + 1) n ++ b (i % size) ∷ []) e)

store-Holds :
    (r : RingBuffer) (q : List Desc) (d : Desc)
    → Holds r q
    → Holds (record r { buffers = update r.buffers (r.write_idx % size) d }) q
store-Holds r q d h =
    let v = h.valid in
    record {
      valid = record { write_word = v.write_word; read_word = v.read_word; room = v.room };
      holds =
          window-apart r.buffers d (sub32 r.write_idx r.read_idx) (sub32 r.write_idx r.read_idx)
            r.read_idx (r.write_idx % size) (omega arith) v.room (omega (arith, v))
          ∙ h.holds;
    }

-- The increment of the write index adds the slot that was filled.
advance-Holds :
    (r : RingBuffer) (q : List Desc) (d : Desc)
    → Holds r q
    → length q < 511
    → slot r ≡ d
    → Holds (record r { write_idx = u32 (r.write_idx + 1) }) (q ++ d ∷ [])
advance-Holds r q d h lt e =
    let v = h.valid in
    let held : sub32 r.write_idx r.read_idx < 511 = omega (arith, length-Holds h) in
    let more : sub32 (u32 (r.write_idx + 1)) r.read_idx ≡ suc (sub32 r.write_idx r.read_idx) =
      omega (arith, v) in
    let at : (r.read_idx + sub32 r.write_idx r.read_idx) % size ≡ r.write_idx % size =
      omega (arith, v) in
    record {
      valid = omega (arith, v);
      holds =
          ap (window r.buffers r.read_idx) more
          ∙ window-snoc r.buffers (sub32 r.write_idx r.read_idx) r.read_idx
          ∙ ap₂ (λ x y. x ++ y ∷ []) h.holds (ap r.buffers at ∙ e);
    }

Front-append : (q : List Desc) (d : Desc) (p : Desc → Type 0) → Front q p → Front (q ++ d ∷ []) p
Front-append [] d p h = absurd h
Front-append (c ∷ q) d p h = h

Consuming-append :
    (q : List Desc) (d : Desc) (c : Consumer) → Consuming q c → Consuming (q ++ d ∷ []) c
Consuming-append q d resting h = tt
Consuming-append q d asked h = tt
Consuming-append q d not_empty h = Front-append q d _ h
Consuming-append q d (addr_read a) h = Front-append q d _ h
Consuming-append q d (desc_read a n) h = Front-append q d _ h

push_of_lt : (q : List Desc) (d : Desc) → length q < 511 → Queue.push q d ≡ some (q ++ d ∷ [])
unfolding Queue.push
push_of_lt q d h = ground (arith, h)

push-full : (q : List Desc) (d : Desc) → length q ≡ 511 → Queue.push q d ≡ none
unfolding Queue.push
push-full q d h = ground (arith, h)

-- One turn of the producer.
pub record Produced (q : List Desc) (o : Event × Producer × RingBuffer) : Type 0 where
  pub after : List Desc
  pub does : Does q o.0 after
  pub holds : Holds o.2 after
  pub producing : Producing o.2 after o.1
  pub consuming : (c : Consumer) → Consuming q c → Consuming after c

pub enqueue_turn-Produced :
    (r : RingBuffer) (q : List Desc) (p : Producer)
    → Holds r q
    → Producing r q p
    → Produced q (enqueue_turn r p)
unfolding enqueue_turn
enqueue_turn-Produced r q no_call h k = record {
  after = q;
  does = refl;
  holds = h;
  producing = tt;
  consuming = λ c x. x;
}
enqueue_turn-Produced r q (called a n) h k = elim (Bool-cases (ring_full r)) [
  | inl e ↦
      let most : length q ≡ 511 = ground (arith, ring_full_lem h.valid, length-Holds h, e) in
      rw e (record {
        after = q;
        does = (push-full q (desc a n) most, refl);
        holds = h;
        producing = tt;
        consuming = λ c x. x;
      })
  | inr e ↦
      let less : length q < 511 =
        ground (arith, ring_full_lem h.valid, length-Holds h, h.valid, e) in
      rw e (record { after = q; does = refl; holds = h; producing = less; consuming = λ c x. x })
]
enqueue_turn-Produced r q (has_room a n) h k = record {
  after = q;
  does = refl;
  holds = store-Holds r q (record (slot r) { encoded_addr = a }) h;
  producing = (k, ap (λ d. d.encoded_addr) (update_self r.buffers (r.write_idx % size) _));
  consuming = λ c x. x;
}
enqueue_turn-Produced r q (addr_stored a n) h k = record {
  after = q;
  does = refl;
  holds = store-Holds r q (record (slot r) { len = n }) h;
  producing = (
    k.0,
    update_self r.buffers (r.write_idx % size) (record (slot r) { len = n })
        ∙ ap (λ x. desc x n) k.1,
  );
  consuming = λ c x. x;
}
enqueue_turn-Produced r q (stored a n) h k = record {
  after = q ++ desc a n ∷ [];
  does = push_of_lt q (desc a n) k.0;
  holds = advance-Holds r q (desc a n) h k.0 k.1;
  producing = tt;
  consuming = λ c x. Consuming-append q (desc a n) c x;
}
