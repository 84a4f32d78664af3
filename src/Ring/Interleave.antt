-- ===== src/Ring/Interleave.antt =====
-- `enqueue` and `dequeue` of i2c/include/sw_shared_ringbuffer.h by their single accesses to the ring
-- that two programs share: one enqueues, the other one dequeues, and they take turns in any order.
pub mod State
mod Enqueue
mod Dequeue
pub mod Linear
use sddf_i2c_driver.Prelude.{ℕ, ◌+◌, ◌%◌, List, [], ◌∷◌, update, if◌then◌else◌}
use sddf_i2c_driver.Prelude.Words.{u32}
use sddf_i2c_driver.Ring.{Desc, desc, RingBuffer, size, ring_full, ring_empty}

-- Where a call of `enqueue` is: not made, before its test, and behind the test and each store.
pub data Producer : Type 0 where
  no_call : Producer
  called : (buffer len : ℕ) → Producer
  has_room : (buffer len : ℕ) → Producer
  addr_stored : (buffer len : ℕ) → Producer
  stored : (buffer len : ℕ) → Producer

-- Where a call of `dequeue` is.
pub data Consumer : Type 0 where
  resting : Consumer
  asked : Consumer
  not_empty : Consumer
  addr_read : (addr : ℕ) → Consumer
  desc_read : (addr len : ℕ) → Consumer

-- What a turn returns to its program, if its call ends.
pub data Event : Type 0 where
  silent : Event
  pushed : Desc → Event
  full : Desc → Event
  popped : Desc → Event
  empty : Event

unfoldable pub enqueue_turn : RingBuffer → Producer → Event × Producer × RingBuffer
enqueue_turn r no_call = (silent, no_call, r)
enqueue_turn r (called buffer len) =
    if ring_full r then (full (desc buffer len), no_call, r) else (silent, has_room buffer len, r)
enqueue_turn r (has_room buffer len) =
    let i = r.write_idx % size in
    let d = record (r.buffers i) { encoded_addr = buffer } in
    (silent, addr_stored buffer len, record r { buffers = update r.buffers i d })
enqueue_turn r (addr_stored buffer len) =
    let i = r.write_idx % size in
    let d = record (r.buffers i) { len = len } in
    (silent, stored buffer len, record r { buffers = update r.buffers i d })
enqueue_turn r (stored buffer len) =
    (pushed (desc buffer len), no_call, record r { write_idx = u32 (r.write_idx + 1) })

unfoldable pub dequeue_turn : RingBuffer → Consumer → Event × Consumer × RingBuffer
dequeue_turn r resting = (silent, resting, r)
dequeue_turn r asked = if ring_empty r then (empty, resting, r) else (silent, not_empty, r)
dequeue_turn r not_empty = (silent, addr_read (r.buffers (r.read_idx % size)).encoded_addr, r)
dequeue_turn r (addr_read addr) = (silent, desc_read addr (r.buffers (r.read_idx % size)).len, r)
dequeue_turn r (desc_read addr len) =
    (popped (desc addr len), resting, record r { read_idx = u32 (r.read_idx + 1) })

-- The ring and where the two programs are.
pub record Shared : Type 0 where
  pub ring : RingBuffer
  pub producer : Producer
  pub consumer : Consumer

-- A new call, if none is made yet, or the next access of a program.
pub data Turn : Type 0 where
  call_enqueue : (buffer len : ℕ) → Turn
  call_dequeue : Turn
  produce : Turn
  consume : Turn

abbrev pub begin_enqueue : ℕ → ℕ → Producer → Producer
begin_enqueue buffer len no_call = called buffer len
begin_enqueue buffer len (called a n) = called a n
begin_enqueue buffer len (has_room a n) = has_room a n
begin_enqueue buffer len (addr_stored a n) = addr_stored a n
begin_enqueue buffer len (stored a n) = stored a n

abbrev pub begin_dequeue : Consumer → Consumer
begin_dequeue resting = asked
begin_dequeue asked = asked
begin_dequeue not_empty = not_empty
begin_dequeue (addr_read a) = addr_read a
begin_dequeue (desc_read a n) = desc_read a n

unfoldable pub take_turn : Turn → Shared → Event × Shared
unfolding enqueue_turn dequeue_turn
take_turn (call_enqueue buffer len) s =
    (silent, record s { producer = begin_enqueue buffer len s.producer })
take_turn call_dequeue s = (silent, record s { consumer = begin_dequeue s.consumer })
take_turn produce s =
    let (e, p, r) = enqueue_turn s.ring s.producer in (e, record s { ring = r; producer = p })
take_turn consume s =
    let (e, c, r) = dequeue_turn s.ring s.consumer in (e, record s { ring = r; consumer = c })

-- What a schedule of turns returns, and the state it ends in.
unfoldable pub schedule : List Turn → Shared → List Event × Shared
unfolding take_turn
schedule [] s = ([], s)
schedule (t ∷ ts) s = let (e, s') = take_turn t s in let (es, s'') = schedule ts s' in (e ∷ es, s'')
