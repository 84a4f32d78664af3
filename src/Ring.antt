-- ===== src/Ring.antt =====
-- i2c/include/sw_shared_ringbuffer.h and i2c/sw_shared_ringbuffer.c: the shared ring buffer.
-- A status of -1 is `none`. Memory fences order the accesses of two cores and change no value.
pub mod Queue
pub mod Contents
pub mod Refine
pub mod Handle
pub mod Interleave
use sddf_i2c_driver.Prelude.{ℕ, ◌+◌, ◌%◌, Bool, Option, none, some, ◌==◌, if◌then◌else◌, update}
use sddf_i2c_driver.Prelude.Words.{u32, sub32}

-- SIZE
abbrev pub size : ℕ
size = 512

pub record Desc : Type 0 where
  pub encoded_addr : ℕ
  pub len : ℕ

-- `buffers` is only read and written at an index taken modulo `size`.
pub record RingBuffer : Type 0 where
  pub write_idx : ℕ
  pub read_idx : ℕ
  pub buffers : ℕ → Desc

pub record RingHandle : Type 0 where
  pub free_ring : RingBuffer
  pub used_ring : RingBuffer

abbrev pub desc : ℕ → ℕ → Desc
desc a n = record { encoded_addr = a; len = n }

abbrev pub reset : RingBuffer → RingBuffer
reset r = record r { write_idx = 0; read_idx = 0 }

unfoldable pub ring_init : RingBuffer → RingBuffer → Bool → RingHandle
ring_init free used buffer_init =
    if buffer_init
    then record { free_ring = reset free; used_ring = reset used }
    else record { free_ring = free; used_ring = used }

unfoldable pub ring_empty : RingBuffer → Bool
ring_empty r = sub32 r.write_idx r.read_idx % size == 0

unfoldable pub ring_full : RingBuffer → Bool
ring_full r = u32 (sub32 r.write_idx r.read_idx + 1) % size == 0

unfoldable pub ring_size : RingBuffer → ℕ
ring_size r = sub32 r.write_idx r.read_idx

unfoldable pub enqueue : RingBuffer → ℕ → ℕ → Option RingBuffer
unfolding ring_full
enqueue r buffer len =
    if ring_full r
    then none
    else some (record r {
      buffers = update r.buffers (r.write_idx % size) (desc buffer len);
      write_idx = u32 (r.write_idx + 1);
    })

unfoldable pub dequeue : RingBuffer → Option (Desc × RingBuffer)
unfolding ring_empty
dequeue r =
    if ring_empty r
    then none
    else some (r.buffers (r.read_idx % size), record r { read_idx = u32 (r.read_idx + 1) })

unfoldable pub driver_dequeue : RingBuffer → Option (Desc × RingBuffer)
driver_dequeue r =
    if sub32 r.write_idx r.read_idx % size == 0
    then none
    else some (r.buffers (r.read_idx % size), record r { read_idx = u32 (r.read_idx + 1) })

unfoldable pub enqueue_free : RingHandle → ℕ → ℕ → Option RingHandle
enqueue_free h addr len = elim (enqueue h.free_ring addr len) [
  | none ↦ none
  | some r ↦ some (record h { free_ring = r })
]

unfoldable pub enqueue_used : RingHandle → ℕ → ℕ → Option RingHandle
enqueue_used h addr len = elim (enqueue h.used_ring addr len) [
  | none ↦ none
  | some r ↦ some (record h { used_ring = r })
]

unfoldable pub dequeue_free : RingHandle → Option (Desc × RingHandle)
dequeue_free h = elim (dequeue h.free_ring) [
  | none ↦ none
  | some (d, r) ↦ some (d, record h { free_ring = r })
]

unfoldable pub dequeue_used : RingHandle → Option (Desc × RingHandle)
dequeue_used h = elim (dequeue h.used_ring) [
  | none ↦ none
  | some (d, r) ↦ some (d, record h { used_ring = r })
]
