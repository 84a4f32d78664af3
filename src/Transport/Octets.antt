-- ===== src/Transport/Octets.antt =====
-- The memory of the shared buffers holds bytes, and the calls of i2c/i2c-transport.c on the driver's
-- side leave it alone.
use sddf_i2c_driver.Prelude.{ℕ, ◌<◌, ◌≡◌, arith}
use sddf_i2c_driver.Transport.{
  Transport, Memory, store, fill_req, alloc_req_buf, post_req, pop_ret_buf, release_ret_buf,
  push_ret_buf, release_req_buf, pop_req_buf, get_ret_buf, pop_buf,
}

abbrev pub Octets : Memory → Type 0
Octets m = (a : ℕ) → m a < 256

pub store-Octets : (m : Memory) (a v : ℕ) → Octets m → Octets (store m a v)
store-Octets m a v h c = ground (arith, h c)

pub push_ret_buf-mem : (t : Transport) (bus buf n : ℕ) → (push_ret_buf t bus buf n).1.mem ≡ t.mem
unfolding push_ret_buf
push_ret_buf-mem t bus buf n = ground arith

pub release_req_buf-mem : (t : Transport) (bus buf : ℕ) → (release_req_buf t bus buf).1.mem ≡ t.mem
unfolding release_req_buf
release_req_buf-mem t bus buf = ground arith

pub pop_req_buf-mem : (t : Transport) (bus sz : ℕ) → (pop_req_buf t bus sz).2.mem ≡ t.mem
unfolding pop_req_buf pop_buf
pop_req_buf-mem t bus sz = ground arith

pub get_ret_buf-mem : (t : Transport) (bus : ℕ) → (get_ret_buf t bus).1.mem ≡ t.mem
unfolding get_ret_buf
get_ret_buf-mem t bus = ground arith

pub pop_ret_buf-mem : (t : Transport) (bus sz : ℕ) → (pop_ret_buf t bus sz).2.mem ≡ t.mem
unfolding pop_ret_buf pop_buf
pop_ret_buf-mem t bus sz = ground arith

pub release_ret_buf-mem : (t : Transport) (bus buf : ℕ) → (release_ret_buf t bus buf).1.mem ≡ t.mem
unfolding release_ret_buf
release_ret_buf-mem t bus buf = ground arith

fill_req-Octets :
    (m : Memory) (buf n : ℕ) (src : ℕ → ℕ) (client addr : ℕ)
    → Octets m
    → Octets (fill_req m buf n src client addr)
unfolding fill_req
fill_req-Octets m buf n src client addr h c = ground (arith, h c)

pub alloc_req_buf-Octets :
    (t : Transport) (bus n : ℕ) (src : ℕ → ℕ) (client addr : ℕ)
    → Octets t.mem
    → Octets (alloc_req_buf t bus n src client addr).1.mem
unfolding alloc_req_buf post_req
alloc_req_buf-Octets t bus n src client addr h c =
    let filled : (buf : ℕ) → fill_req t.mem buf n src client addr c < 256 =
      λ buf. fill_req-Octets t.mem buf n src client addr h c in
    ground (arith, h c, filled)
