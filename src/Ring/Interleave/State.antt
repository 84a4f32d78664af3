-- ===== src/Ring/Interleave/State.antt =====
-- What the two calls on a shared ring may rely on, and the queue they stand for.
use sddf_i2c_driver.Prelude.{◌%◌, ◌<◌, ◌≡◌, none, some, List, [], ◌∷◌, length}
use sddf_i2c_driver.Ring.{Desc, desc, RingBuffer, size}
use sddf_i2c_driver.Ring.Queue
use sddf_i2c_driver.Ring.Refine.{Holds}
use sddf_i2c_driver.Ring.Interleave.{
  Producer, no_call, called, has_room, addr_stored, stored, Consumer, resting, asked, not_empty,
  addr_read, desc_read, Event, silent, pushed, full, popped, empty, Shared,
}

-- The queue does an event.
abbrev pub Does : List Desc → Event → List Desc → Type 0
Does q silent q' = q' ≡ q
Does q (pushed d) q' = Queue.push q d ≡ some q'
Does q (full d) q' = (Queue.push q d ≡ none) × (q' ≡ q)
Does q (popped d) q' = Queue.pop q ≡ some (d, q')
Does q empty q' = (Queue.pop q ≡ none) × (q' ≡ q)

-- The queue does the events in order.
pub data DoesAll : List Desc → List Event → List Desc → Type 0 where
  none_left : {q : List Desc} → DoesAll q [] q
  next :
      {q q' q'' : List Desc} {e : Event} {es : List Event}
      → Does q e q'
      → DoesAll q' es q''
      → DoesAll q (e ∷ es) q''

abbrev pub slot : RingBuffer → Desc
slot r = r.buffers (r.write_idx % size)

-- What a call of `enqueue` under way may rely on.
abbrev pub Producing : RingBuffer → List Desc → Producer → Type 0
Producing r q no_call = Unit {0}
Producing r q (called a n) = Unit {0}
Producing r q (has_room a n) = length q < 511
Producing r q (addr_stored a n) = (length q < 511) × ((slot r).encoded_addr ≡ a)
Producing r q (stored a n) = (length q < 511) × (slot r ≡ desc a n)

-- The oldest descriptor has the property.
abbrev pub Front : List Desc → (Desc → Type 0) → Type 0
Front [] p = ⊥
Front (d ∷ q) p = p d

abbrev pub Consuming : List Desc → Consumer → Type 0
Consuming q resting = Unit {0}
Consuming q asked = Unit {0}
Consuming q not_empty = Front q (λ d. Unit {0})
Consuming q (addr_read a) = Front q (λ d. d.encoded_addr ≡ a)
Consuming q (desc_read a n) = Front q (λ d. d ≡ desc a n)

-- The ring holds the queue, and both calls under way may go on.
pub record Linear (s : Shared) (q : List Desc) : Type 0 where
  pub holds : Holds s.ring q
  pub producing : Producing s.ring q s.producer
  pub consuming : Consuming q s.consumer
