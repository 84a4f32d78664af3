-- ===== src/Driver/Sent.antt =====
-- What a load of tokens (i2cLoadTokens, i2c/i2c-odroid-c4.c) has the hardware send, and that less
-- is left of the request.
use sddf_i2c_driver.Prelude.{
  ℕ, ◌+◌, ◌<◌, ◌≡◌, refl, ◌∙◌, ap, inl, inr, List, arith, Bool, length, length-append,
}
use sddf_i2c_driver.Prelude.Bits.{field}
use sddf_i2c_driver.Interface.{Interface, i2c_start}
use sddf_i2c_driver.Interface.Control.{i2c_start_lem}
use sddf_i2c_driver.Transport.{Memory}
use sddf_i2c_driver.Driver.{IfState}
use sddf_i2c_driver.Driver.Address.{Addressed, Addressed-before}
use sddf_i2c_driver.Driver.Load.Spec.{Means, done, plain, writes}
use sddf_i2c_driver.Driver.Load.Slots.{Slots}
use sddf_i2c_driver.Driver.Batch.{Dispatched, Pending, target}

-- The registers hold the address `to` (as far as the bits of the address before allow it), the tokens
-- and the data, and the list processor runs.
pub record Sent (before after : Interface) (to : ℕ) (toks bytes : List ℕ) : Type 0 where
  pub slots : Slots after toks bytes
  pub running : field 0 1 after.ctl ≡ 1
  pub address : Addressed before after to

-- Each byte of a request is a token or a write byte.
pub Means-length :
    {ddr : Bool} {request toks bytes : List ℕ}
    → Means ddr request toks bytes
    → length request ≡ length toks + length bytes
Means-length done = refl
Means-length (plain e f m) = omega (arith, Means-length m)
Means-length (writes e f m) = omega (arith, Means-length m)

-- A load sends a part, and leaves fewer bytes.
pub Dispatched-Sent :
    {st st' : IfState} {m : Memory} {r r' before : Interface} {request toks bytes : List ℕ}
    → r.addr ≡ before.addr
    → (d : Dispatched st m r request toks bytes st' r')
    → Sent before r' (target st m) d.now d.now_bytes
unfolding i2c_start
Dispatched-Sent {st} {r = r} {r' = r'} {before = before} e d = record {
  slots = d.slots;
  running = rw d.started (i2c_start_lem r).1;
  address = Addressed-before r before r' e d.address;
}

pub Dispatched-shrinks :
    {st st' : IfState} {m : Memory} {r r' : Interface} {request toks bytes : List ℕ}
    → Pending st m request toks bytes
    → (d : Dispatched st m r request toks bytes st' r') → 0 < length request
    → length d.rest < length request
Dispatched-shrinks p d some_left =
    let a = Means-length p.means in
    let c = Means-length d.pending.means in
    let e = ap length d.split ∙ length-append d.now d.later in
    let f = ap length d.split_bytes ∙ length-append d.now_bytes d.later_bytes in
    elim d.filled [
      | inl z ↦ let nothing : length d.rest ≡ 0 = ap length z in omega (arith, nothing, some_left)
      | inr (inl full) ↦ omega (arith, a, c, e, f, full)
      | inr (inr full) ↦ omega (arith, a, c, e, f, full)
    ]
