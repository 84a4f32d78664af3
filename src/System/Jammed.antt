-- ===== src/System/Jammed.antt =====
-- A request whose address is too large (checkBuf and i2cLoadTokens, i2c/i2c-odroid-c4.c).
use sddf_i2c_driver.Prelude.{
  ℕ, ◌+◌, ◌^◌, ◌≤◌, ◌<◌, ◌≢◌, ◌≡◌, refl, ◌∙◌, ap, inr, Bool, List, ◌∷◌, arith, some, ltb_of_lt,
  ==_of_ne, update_self,
}
use sddf_i2c_driver.Ring.{Desc}
use sddf_i2c_driver.Ring.Handle.{HandleHolds}
use sddf_i2c_driver.Transport.{Memory, req_ring, ret_ring, ret_buf_client, ret_buf_addr, store}
use sddf_i2c_driver.Transport.Lens.{IsBus}
use sddf_i2c_driver.Driver.{
  Driver, interface, with_state, begin_work, i2c_load_tokens, load, check_buf,
}
use sddf_i2c_driver.Driver.Batch.{target, tokens_at_lem}
use sddf_i2c_driver.System.Take.{at_transport, take_request-Taken}
use sddf_i2c_driver.System.Work.{begun, check_buf-flags}
use sddf_i2c_driver.System.Delivery.{check_buf-takes}
use sddf_i2c_driver.System.Job.{Apart}

load-bad_address :
    (bus : ℕ) (s : Driver)
    → (s.if_state bus).current_req ≢ 0
    → 0x7f < target (s.if_state bus) s.transport.mem
    → load bus s ≡ some s
unfolding i2c_load_tokens
load-bad_address bus s ne h =
    rw (load, i2c_load_tokens, ==_of_ne (s.if_state bus).current_req 0 ne, ltb_of_lt 0x7f _ h)

-- The address byte stays as it is when the head of the return buffer is written.
address_kept :
    (m : Memory) (req ret client : ℕ) (addr : ℕ)
    → Apart req ret
    → store (store m (ret + ret_buf_client) client) (ret + ret_buf_addr) addr (req + 1)
      ≡ m (req + 1)
address_kept m req ret client addr apart = ground (arith, apart)

-- What checkBuf makes of the request in `d`: it is at work, not started, and stays so.
pub record Jammed (bus : ℕ) (s s' : Driver) (d e : Desc) : Type 0 where
  pub takes : check_buf bus s ≡ some s'
  pub req : (s'.if_state bus).current_req ≡ d.encoded_addr
  pub ret : (s'.if_state bus).current_ret ≡ e.encoded_addr
  pub regs : interface bus s' ≡ interface bus s
  pub stays :
      (n : Bool) × (check_buf bus s'
        ≡ some (with_state bus (record (s'.if_state bus) { notified = n }) s'))

-- A waiting request with an address above 0x7f jams its bus. On an idle bus with a free return
-- buffer that does not overlap the request's, `checkBuf` returns with the request at work and the
-- registers as they were, so that nothing is started, and a further notification only sets the
-- flag and leaves the request at work. The request has at most 512 bytes, and both buffers are not
-- at NULL.
pub bad_address-Jammed :
    {bus : ℕ} {d e : Desc} {rf ru tf tu : List Desc} (b : IsBus bus) (s : Driver)
    → HandleHolds (req_ring bus s.transport) rf (d ∷ ru)
    → HandleHolds (ret_ring bus s.transport) (e ∷ tf) tu
    → (s.if_state bus).current_req ≡ 0
    → d.encoded_addr ≢ 0
    → e.encoded_addr ≢ 0
    → d.len ≤ 512
    → Apart d.encoded_addr e.encoded_addr
    → d.encoded_addr + 2 ^ 31 < 2 ^ 64
    → 0x7f < s.transport.mem (d.encoded_addr + 1)
    → (s' : Driver) × Jammed bus s s' d e
unfolding begin_work
bad_address-Jammed {bus} {d} {e} b s reqs rets idle ne ne' le apart space large =
    let req = d.encoded_addr in
    let ret = e.encoded_addr in
    let k = take_request-Taken b s reqs rets ne ne' le in
    let z = begin_work bus req d.len ret (at_transport s k.after) in
    let u = update_self s.if_state bus (begun (s.if_state bus) req d.len ret) in
    let m = k.after.mem in
    let byte : target (begun (s.if_state bus) req d.len ret) z.transport.mem
        ≡ s.transport.mem (req + 1) =
      tokens_at_lem z.transport.mem req space 1 (omega arith)
      ∙ address_kept m req ret (m req) _ apart
      ∙ ap (λ x. x (req + 1)) k.same_mem in
    let large' : 0x7f < target (z.if_state bus) z.transport.mem =
      rw u (omega (arith, byte, large)) in
    let busy : (z.if_state bus).current_req ≢ 0 = rw u ne in
    (
      z,
      record {
        takes = check_buf-takes b s reqs idle ∙ k.works ∙ load-bad_address bus z busy large';
        req = ap (λ x. x.current_req) u;
        ret = ap (λ x. x.current_ret) u;
        regs = refl;
        stays = check_buf-flags bus z (inr busy);
      },
    )
