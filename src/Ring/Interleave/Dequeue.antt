-- ===== src/Ring/Interleave/Dequeue.antt =====
-- The turns of `dequeue` (i2c/include/sw_shared_ringbuffer.h).
use sddf_i2c_driver.Prelude.{
  ◌+◌, ◌%◌, ◌≡◌, refl, sym, ◌∙◌, ap, ap₂, ◌≢◌, inl, inr, some, List, [], ◌∷◌, arith, Bool-cases,
  cons-injective, false,
}
use sddf_i2c_driver.Prelude.Words.{u32, sub32}
use sddf_i2c_driver.Ring.{Desc, desc, RingBuffer, size, ring_empty}
use sddf_i2c_driver.Ring.Queue
use sddf_i2c_driver.Ring.Refine.{
  Holds, length-Holds, ring_empty-Holds, popped-IsValid, contents-popped,
}
use sddf_i2c_driver.Ring.Interleave.{
  Producer, no_call, called, has_room, addr_stored, stored, Consumer, resting, asked, not_empty,
  addr_read, desc_read, Event, dequeue_turn,
}
use sddf_i2c_driver.Ring.Interleave.State.{Does, Producing, Consuming}

-- One turn of the consumer.
pub record Consumed (r : RingBuffer) (q : List Desc) (o : Event × Consumer × RingBuffer)
    : Type 0 where
  pub after : List Desc
  pub does : Does q o.0 after
  pub holds : Holds o.2 after
  pub consuming : Consuming after o.1
  pub producing : (p : Producer) → Producing r q p → Producing o.2 after p

-- The descriptor at the read index is the oldest one.
front_slot :
    {r : RingBuffer} {d : Desc} {q : List Desc}
    → Holds r (d ∷ q)
    → r.buffers (r.read_idx % size) ≡ d
front_slot {r} h =
    let ne : sub32 r.write_idx r.read_idx ≢ 0 = omega (arith, length-Holds h) in
    (cons-injective (sym (contents-popped r h.valid ne) ∙ h.holds)).0

retreat-Holds :
    {r : RingBuffer} {d : Desc} {q : List Desc}
    → Holds r (d ∷ q)
    → Holds (record r { read_idx = u32 (r.read_idx + 1) }) q
retreat-Holds {r} h =
    let ne : sub32 r.write_idx r.read_idx ≢ 0 = omega (arith, length-Holds h) in
    record {
      valid = popped-IsValid r h.valid ne;
      holds = (cons-injective (sym (contents-popped r h.valid ne) ∙ h.holds)).1;
    }

Producing-popped :
    (r : RingBuffer) (d : Desc) (q : List Desc) (p : Producer)
    → Producing r (d ∷ q) p
    → Producing (record r { read_idx = u32 (r.read_idx + 1) }) q p
Producing-popped r d q no_call h = tt
Producing-popped r d q (called a n) h = tt
Producing-popped r d q (has_room a n) h = omega (arith, h)
Producing-popped r d q (addr_stored a n) h = (omega (arith, h.0), h.1)
Producing-popped r d q (stored a n) h = (omega (arith, h.0), h.1)

pub dequeue_turn-Consumed :
    (r : RingBuffer) (q : List Desc) (c : Consumer)
    → Holds r q
    → Consuming q c
    → Consumed r q (dequeue_turn r c)
unfolding dequeue_turn Queue.pop
dequeue_turn-Consumed r q resting h k = record {
  after = q;
  does = refl;
  holds = h;
  consuming = tt;
  producing = λ p x. x;
}
dequeue_turn-Consumed r [] asked h k =
    rw ((ring_empty-Holds h).1 refl)
      (record { after = []; does = (refl, refl); holds = h; consuming = tt; producing = λ p x. x })
dequeue_turn-Consumed r (d ∷ q) asked h k =
    let e : ring_empty r ≡ false = elim (Bool-cases (ring_empty r)) [
      | inl z ↦ absurd (cc ((ring_empty-Holds h).0 z))
      | inr z ↦ z
    ] in
    rw e (record { after = d ∷ q; does = refl; holds = h; consuming = tt; producing = λ p x. x })
dequeue_turn-Consumed r (d ∷ q) not_empty h k = record {
  after = d ∷ q;
  does = refl;
  holds = h;
  consuming = ap (λ x. x.encoded_addr) (sym (front_slot h));
  producing = λ p x. x;
}
dequeue_turn-Consumed r (d ∷ q) (addr_read a) h k = record {
  after = d ∷ q;
  does = refl;
  holds = h;
  consuming = ap₂ desc k (ap (λ x. x.len) (sym (front_slot h)));
  producing = λ p x. x;
}
dequeue_turn-Consumed r (d ∷ q) (desc_read a n) h k = record {
  after = q;
  does = ap (λ x. some (x, q)) k;
  holds = retreat-Holds h;
  consuming = tt;
  producing = Producing-popped r d q;
}
dequeue_turn-Consumed r [] not_empty h k = absurd k
dequeue_turn-Consumed r [] (addr_read a) h k = absurd k
dequeue_turn-Consumed r [] (desc_read a n) h k = absurd k
