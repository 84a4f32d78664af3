-- ===== src/Driver/Invalid.antt =====
-- A token that i2cLoadTokens (i2c/i2c-odroid-c4.c) does not know.
use sddf_i2c_driver.Prelude.{
  ℕ, ◌+◌, ◌-◌, ◌^◌, ◌≤◌, ◌<◌, ◌≡◌, refl, ◌∙◌, ap, ◌≢◌, arith, none, some, true, false, negsuc,
  ==_of_ne, ltb_of_le, ltb_of_lt, update_self,
}
use sddf_i2c_driver.Prelude.Words.{u32, sext64, int_lt, int_lt-ltb}
use sddf_i2c_driver.Token.{translate}
use sddf_i2c_driver.Interface.{Interface, i2c_flush}
use sddf_i2c_driver.Transport.{Memory}
use sddf_i2c_driver.Driver.{
  Driver, IfState, interface, with_interface, with_state, start_loader, finish_load,
  i2c_load_tokens, load,
}
use sddf_i2c_driver.Driver.Load.{Loader, tokens_at, set_address, load_step, load_loop}
use sddf_i2c_driver.Driver.Load.Fuel.{load_loop-invalid}
use sddf_i2c_driver.Driver.Batch.{target, tokens_at_lem, interface_self}

module _ (tokens : ℕ → ℕ) (len : ℕ) (l : Loader) where
  -- The round at an unknown token.
  load_step-invalid :
      len < 2 ^ 31 → l.i < len → translate (tokens (2 + l.i)) ≡ none → load_step tokens len l ≡ none
  unfolding load_step
  load_step-invalid short inside bad =
      let e : int_lt l.i len ≡ true =
        int_lt-ltb l.i len (omega arith) short ∙ ltb_of_lt l.i len inside in
      let f : u32 (2 + l.i) ≡ 2 + l.i = omega arith in rw (e, f, bad)

-- The bytes left of the request at work start with a token that does not exist.
pub record NextInvalid (st : IfState) (m : Memory) : Type 0 where
  pub busy : st.current_req ≢ 0
  pub space : st.current_req + 2 ^ 31 < 2 ^ 64
  pub short : st.current_req_len < 2 ^ 30
  pub fits : st.remaining ≤ st.current_req_len
  pub some_left : 0 < st.remaining
  pub small : target st m ≤ 0x7f
  pub unknown : translate (m (st.current_req + (2 + (st.current_req_len - st.remaining)))) ≡ none

start_loader-stops :
    (st : IfState) (m : Memory) (r : Interface) (addr : ℕ)
    → NextInvalid st m
    → load_loop (tokens_at m st.current_req) st.current_req_len 16 (start_loader st r addr)
      ≡ (false, start_loader st r addr)
unfolding start_loader set_address i2c_flush
start_loader-stops st m r addr h =
    let i : u32 (sext64 st.current_req_len + 2 ^ 64 - st.remaining)
        ≡ st.current_req_len - st.remaining =
      ground (arith, h.short, h.some_left, h.fits) in
    let l = start_loader st r addr in
    let here : tokens_at m st.current_req (2 + l.i)
        ≡ m (st.current_req + (2 + (st.current_req_len - st.remaining))) =
      rw i (
        tokens_at_lem m st.current_req h.space (2 + (st.current_req_len - st.remaining))
          (omega (arith, h.short))) in
    load_loop-invalid (tokens_at m st.current_req) st.current_req_len 15 l refl (
      load_step-invalid (tokens_at m st.current_req) st.current_req_len l (omega (arith, h.short))
        (omega (arith, i, h.some_left, h.fits)) (rw here h.unknown))

-- The registers once the loop has stopped at its first token.
given_up-ctl : (st : IfState) (r : Interface) (addr : ℕ) → (start_loader st r addr).regs.ctl ≡ r.ctl
unfolding start_loader set_address i2c_flush
given_up-ctl st r addr = refl

-- With a request at work whose next token does not exist, `i2cLoadTokens` returns -1 and does not
-- start the list processor: the control register is kept. Its callers ignore the result, and the
-- request stays at work with as much left as before.
pub i2c_load_tokens-invalid :
    (bus : ℕ) (s : Driver)
    → NextInvalid (s.if_state bus) s.transport.mem
    → (s' : Driver) × (i2c_load_tokens bus s ≡ some (negsuc 0, s'))
      × (load bus s ≡ some s')
      × ((interface bus s').ctl ≡ (interface bus s).ctl)
      × ((s'.if_state bus).current_req ≡ (s.if_state bus).current_req)
      × ((s'.if_state bus).remaining ≡ (s.if_state bus).remaining)
      × (s'.transport ≡ s.transport)
unfolding i2c_load_tokens finish_load
i2c_load_tokens-invalid bus s h =
    let st = s.if_state bus in
    let m = s.transport.mem in
    let e = ==_of_ne st.current_req 0 h.busy in
    let f = ltb_of_le 0x7f (target st m) h.small in
    let g = start_loader-stops st m (interface bus s) (target st m) h in
    let l = start_loader st (interface bus s) (target st m) in
    let st' = record st { ddr = l.ddr } in
    let u = update_self s.if_state bus st' in
    let works : i2c_load_tokens bus s
        ≡ some (negsuc 0, with_interface bus l.regs (with_state bus st' s)) =
      rw (e, f, g) refl in
    (
      with_interface bus l.regs (with_state bus st' s),
      works,
      rw (load, works) refl,
      rw (interface_self bus l.regs (with_state bus st' s))
          (given_up-ctl st (interface bus s) (target st m)),
      ap (λ x. x.current_req) u,
      ap (λ x. x.remaining) u,
      refl,
    )
