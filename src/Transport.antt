-- ===== src/Transport.antt =====
-- i2c/i2c-transport.c and i2c/include/i2c-transport.h: the buffers and rings that the server and
-- the driver share. An address of 0 is NULL; each function returns its result beside the new state.
-- Console output (printf, sel4cp_dbg_puts) is left out.
pub mod Lens
pub mod Pool
pub mod Message
pub mod Octets
pub mod Calls
use sddf_i2c_driver.Prelude.{
  ℕ, zero, suc, ◌+◌, ◌-◌, ◌*◌, ◌/◌, ◌^◌, Bool, true, false, not, ◌&&◌, ◌||◌, Option, none, some,
  ◌==◌, ltb, leb, if◌then◌else◌, update, ℤ, pos, negsuc,
}
use sddf_i2c_driver.Prelude.Words.{u8, u32, u64}
use sddf_i2c_driver.Ring.{
  RingHandle, ring_init, ring_empty, enqueue_free, enqueue_used, dequeue_free, dequeue_used,
}

-- I2C_BUF_SZ and I2C_BUF_COUNT
abbrev pub buf_sz : ℕ
buf_sz = 512

abbrev pub buf_count : ℕ
buf_count = 511

-- RET_BUF_ERR, RET_BUF_ERR_TK, RET_BUF_CLIENT and RET_BUF_ADDR
abbrev pub ret_buf_err : ℕ
ret_buf_err = 0

abbrev pub ret_buf_err_tk : ℕ
ret_buf_err_tk = 1

abbrev pub ret_buf_client : ℕ
ret_buf_client = 2

abbrev pub ret_buf_addr : ℕ
ret_buf_addr = 3

abbrev pub Memory : Type 0
Memory = ℕ → ℕ

-- The four ring handles, and the bytes of the shared buffers by address.
pub record Transport : Type 0 where
  pub m2_req_ring : RingHandle
  pub m2_ret_ring : RingHandle
  pub m3_req_ring : RingHandle
  pub m3_ret_ring : RingHandle
  pub mem : Memory

-- A byte store, and `memcpy` of `n` bytes.
abbrev pub store : Memory → ℕ → ℕ → Memory
store m a v = update m a (u8 v)

abbrev pub copy : Memory → ℕ → (ℕ → ℕ) → ℕ → Memory
copy m dst src n a = if leb dst a && ltb a (dst + n) then u8 (src (a - dst)) else m a

-- The request and the return ring that `bus` selects.
abbrev pub req_ring : ℕ → Transport → RingHandle
req_ring bus t = if bus == 2 then t.m2_req_ring else t.m3_req_ring

abbrev pub ret_ring : ℕ → Transport → RingHandle
ret_ring bus t = if bus == 2 then t.m2_ret_ring else t.m3_ret_ring

abbrev pub with_req_ring : ℕ → RingHandle → Transport → Transport
with_req_ring bus h t = record t {
  m2_req_ring = if bus == 2 then h else t.m2_req_ring;
  m3_req_ring = if bus == 2 then t.m3_req_ring else h;
}

abbrev pub with_ret_ring : ℕ → RingHandle → Transport → Transport
with_ret_ring bus h t = record t {
  m2_ret_ring = if bus == 2 then h else t.m2_ret_ring;
  m3_ret_ring = if bus == 2 then t.m3_ret_ring else h;
}

-- `bus != 2 && bus != 3`
abbrev pub bad_bus : ℕ → Bool
bad_bus bus = not (bus == 2) && not (bus == 3)

-- `enqueue_free` with its status ignored.
unfoldable pub give : RingHandle → ℕ → RingHandle
give h addr = elim (enqueue_free h addr buf_sz) [ none ↦ h | some h' ↦ h' ]

-- The address that round `i` of the loop gives to the `k`-th ring.
abbrev pub buf_addr : ℕ → ℕ → ℕ → ℕ
buf_addr driver_bufs k i = u64 (driver_bufs + buf_sz * (i + k * buf_count))

-- The loop of i2cTransportInit at round `i`, with `n` rounds left.
unfoldable pub populate : ℕ → ℕ → ℕ → Transport → Transport
populate driver_bufs zero i t = t
populate driver_bufs (suc n) i t = populate driver_bufs n (i + 1) (record t {
  m2_req_ring = give t.m2_req_ring (buf_addr driver_bufs 0 i);
  m2_ret_ring = give t.m2_ret_ring (buf_addr driver_bufs 1 i);
  m3_req_ring = give t.m3_req_ring (buf_addr driver_bufs 2 i);
  m3_ret_ring = give t.m3_ret_ring (buf_addr driver_bufs 3 i);
})

abbrev init_ring : Bool → RingHandle → RingHandle
init_ring buffer_init h = ring_init h.free_ring h.used_ring buffer_init

-- The shared regions are the rings of `t`; the handles are set to point at them.
unfoldable pub i2c_transport_init : ℕ → Bool → Transport → Transport
unfolding populate
i2c_transport_init driver_bufs buffer_init t =
    let t' : Transport = record t {
      m2_req_ring = init_ring buffer_init t.m2_req_ring;
      m2_ret_ring = init_ring buffer_init t.m2_ret_ring;
      m3_req_ring = init_ring buffer_init t.m3_req_ring;
      m3_ret_ring = init_ring buffer_init t.m3_ret_ring;
    } in
    if buffer_init then populate driver_bufs buf_count 0 t' else t'

-- The bytes of a request: client, address, then `size` bytes of `data`.
unfoldable pub fill_req : Memory → ℕ → ℕ → (ℕ → ℕ) → ℕ → ℕ → Memory
fill_req m buf n src client addr = copy (store (store m buf client) (buf + 1) addr) (buf + 2) src n

-- What allocReqBuf does with the buffer `buf` taken from the free ring of `h`, which is not at NULL.
unfoldable pub post_req : Transport → ℕ → RingHandle → ℕ → ℕ → (ℕ → ℕ) → ℕ → ℕ → ℕ × Transport
unfolding fill_req
post_req t bus h buf n src client addr =
    let t' : Transport = record t { mem = fill_req t.mem buf n src client addr } in
    elim (enqueue_used h buf (u32 (n + 2))) [
      | none ↦ (0, with_req_ring bus (give h buf) t')
      | some h' ↦ (buf, with_req_ring bus h' t')
    ]

unfoldable pub alloc_req_buf : Transport → ℕ → ℕ → (ℕ → ℕ) → ℕ → ℕ → ℕ × Transport
unfolding post_req
alloc_req_buf t bus n src client addr =
    if bad_bus bus
    then (0, t)
    else if ltb (buf_sz - 2) n
    then (0, t)
    else elim (dequeue_free (req_ring bus t)) [
      | none ↦ (0, t)
      | some (d, h) ↦ post_req t bus h d.encoded_addr n src client addr
    ]

-- allocReqBuf goes through NULL: the buffer that it takes off the ring is at address 0. The functions
-- above say what it does otherwise.
unfoldable pub alloc_faults : Transport → ℕ → ℕ → Bool
alloc_faults t bus n =
    if bad_bus bus
    then false
    else if ltb (buf_sz - 2) n
    then false
    else elim (dequeue_free (req_ring bus t)) [ none ↦ false | some (d, h) ↦ d.encoded_addr == 0 ]

unfoldable pub get_ret_buf : Transport → ℕ → ℕ × Transport
get_ret_buf t bus = if bad_bus bus then (0, t) else elim (dequeue_free (ret_ring bus t)) [
  | none ↦ (0, t)
  | some (d, h) ↦ (d.encoded_addr, with_ret_ring bus h t)
]

-- -1 is success, and 0 is failure.
unfoldable pub push_ret_buf : Transport → ℕ → ℕ → ℕ → ℤ × Transport
push_ret_buf t bus buf n =
    if bad_bus bus
    then (pos 0, t)
    else if ltb buf_sz n || buf == 0
    then (pos 0, t)
    else elim (enqueue_used (ret_ring bus t) buf (u32 n)) [
      | none ↦ (pos 0, t)
      | some h ↦ (negsuc 0, with_ret_ring bus h t)
    ]

-- `*sz` is a `size_t` that `dequeue` writes through an `unsigned int *`: its low four bytes.
abbrev pub low_word : ℕ → ℕ → ℕ
low_word sz len = sz / 2 ^ 32 * 2 ^ 32 + u32 len

-- The buffer, `*sz` afterwards, and the ring.
unfoldable pub pop_buf : RingHandle → ℕ → ℕ × ℕ × RingHandle
pop_buf h sz = elim (dequeue_used h) [
  | none ↦ (0, sz, h)
  | some (d, h') ↦ (d.encoded_addr, low_word sz d.len, h')
]

unfoldable pub pop_req_buf : Transport → ℕ → ℕ → ℕ × ℕ × Transport
unfolding pop_buf
pop_req_buf t bus sz =
    if bad_bus bus
    then (0, sz, t)
    else let (buf, sz', h) = pop_buf (req_ring bus t) sz in (buf, sz', with_req_ring bus h t)

unfoldable pub pop_ret_buf : Transport → ℕ → ℕ → ℕ × ℕ × Transport
unfolding pop_buf
pop_ret_buf t bus sz =
    if bad_bus bus
    then (0, sz, t)
    else let (buf, sz', h) = pop_buf (ret_ring bus t) sz in (buf, sz', with_ret_ring bus h t)

unfoldable pub ret_buf_empty : Transport → ℕ → Bool
ret_buf_empty t bus = if bad_bus bus then false else ring_empty (ret_ring bus t).used_ring

unfoldable pub req_buf_empty : Transport → ℕ → Bool
req_buf_empty t bus = if bad_bus bus then false else ring_empty (req_ring bus t).used_ring

unfoldable pub release_req_buf : Transport → ℕ → ℕ → ℤ × Transport
release_req_buf t bus buf =
    if bad_bus bus
    then (pos 0, t)
    else if buf == 0
    then (pos 0, t)
    else elim (enqueue_free (req_ring bus t) buf buf_sz) [
      | none ↦ (pos 0, t)
      | some h ↦ (negsuc 0, with_req_ring bus h t)
    ]

unfoldable pub release_ret_buf : Transport → ℕ → ℕ → ℤ × Transport
release_ret_buf t bus buf =
    if bad_bus bus
    then (pos 0, t)
    else if buf == 0
    then (pos 0, t)
    else elim (enqueue_free (ret_ring bus t) buf buf_sz) [
      | none ↦ (pos 0, t)
      | some h ↦ (negsuc 0, with_ret_ring bus h t)
    ]
