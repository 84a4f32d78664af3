-- ===== src/Driver/Width.antt =====
-- The registers have 32 bits and the memory has bytes, also once tokens are loaded (i2cLoadTokens,
-- i2c/i2c-odroid-c4.c).
pub mod Handlers
use sddf_i2c_driver.Prelude.{
  List, ◌∷◌, ℕ, zero, suc, ◌+◌, ◌-◌, ◌^◌, ◌<◌, ◌≡◌, refl, ◌∙◌, sym, subst, inl, inr, Bool, true,
  false, none, some, Option, arith, Bool-cases, Option-cases, if-both, ◌==◌, ltb, if◌then◌else◌, ℤ,
  pos, negsuc, not, ◌&&◌, ◌||◌, bit_and, update,
}
use sddf_i2c_driver.Prelude.Words.{u32, u64, sext64, ◌>>>◌}
use sddf_i2c_driver.Transport.{
  Memory, store, ret_buf_err, ret_buf_err_tk, ret_buf_client, ret_buf_addr, push_ret_buf,
  release_req_buf, pop_req_buf, get_ret_buf, req_buf_empty,
}
use sddf_i2c_driver.Transport.Octets.{
  Octets, store-Octets, push_ret_buf-mem, release_req_buf-mem, pop_req_buf-mem, get_ret_buf-mem,
}
use sddf_i2c_driver.Interface.{Interface, i2c_start, i2c_halt, i2c_flush, i2c_get_error}
use sddf_i2c_driver.Interface.Width.{Fit32, i2c_start-Fit32, i2c_halt-Fit32, i2c_flush-Fit32}
use sddf_i2c_driver.Driver.{
  Driver, IfState, interface, with_interface, with_state, with_mem, start_loader, left_over,
  finish_load, i2c_load_tokens, load, begin_work, take_request, check_buf, server_notify, copy_read,
  error_code, store_result, complete, i2cirq, notified, is_negative, acknowledge, err_ok,
  server_notify_id, irq_i2c_m2, irq_i2c_m2_to, irq_i2c_m3, irq_i2c_m3_to, notify,
}
use sddf_i2c_driver.Driver.Load.{Loader, tokens_at, load_loop}
use sddf_i2c_driver.Driver.Load.Width.{set_address-Fit32, load_loop-Fit32}

pub record InWidth (s : Driver) : Type 0 where
  pub octets : Octets s.transport.mem
  pub m2 : Fit32 s.if_m2
  pub m3 : Fit32 s.if_m3

abbrev pub Held : Option Driver → Type 0
Held none = Unit
Held (some s) = InWidth s

pub interface-Fit32 : (bus : ℕ) (s : Driver) → InWidth s → Fit32 (interface bus s)
interface-Fit32 bus s k = elim (Bool-cases (bus == 2)) [ inl e ↦ rw e k.m2 | inr e ↦ rw e k.m3 ]

pub with_interface-InWidth :
    (bus : ℕ) (r : Interface) (s : Driver) → Fit32 r → InWidth s → InWidth (with_interface bus r s)
with_interface-InWidth bus r s f k = elim (Bool-cases (bus == 2)) [
  | inl e ↦ rw e (record { octets = k.octets; m2 = f; m3 = k.m3 })
  | inr e ↦ rw e (record { octets = k.octets; m2 = k.m2; m3 = f })
]

-- A state with the same registers, and other memory.
pub same_regs :
    (s t : Driver)
    → t.if_m2 ≡ s.if_m2
    → t.if_m3 ≡ s.if_m3
    → Octets t.transport.mem
    → InWidth s
    → InWidth t
same_regs s t e f o k = record { octets = o; m2 = rw e k.m2; m3 = rw f k.m3 }

start_loader-Fit32 :
    (st : IfState) (r : Interface) (addr : ℕ) → Fit32 r → Fit32 (start_loader st r addr).regs
unfolding start_loader
start_loader-Fit32 st r addr k =
    let a = set_address-Fit32 (i2c_flush r) addr (i2c_flush-Fit32 r k) in ground (arith, a)

finish_load-InWidth :
    (bus : ℕ) (r : Bool × Loader) (s : Driver)
    → Fit32 r.1.regs
    → InWidth s
    → InWidth (finish_load bus r s).1
unfolding finish_load
finish_load-InWidth bus (true, l) s f k =
    let st = record (s.if_state bus) {
      ddr = l.ddr;
      remaining = left_over (s.if_state bus).current_req_len l.i;
    } in
    with_interface-InWidth bus (i2c_start l.regs).1 (with_state bus st s) (i2c_start-Fit32 l.regs f)
      (same_regs s (with_state bus st s) refl refl k.octets k)
finish_load-InWidth bus (false, l) s f k =
    let st = record (s.if_state bus) { ddr = l.ddr } in
    with_interface-InWidth bus l.regs (with_state bus st s) f
      (same_regs s (with_state bus st s) refl refl k.octets k)

abbrev HeldResult : Option (ℤ × Driver) → Type 0
HeldResult none = Unit
HeldResult (some r) = InWidth r.1

i2c_load_tokens-InWidth : (bus : ℕ) (s : Driver) → InWidth s → HeldResult (i2c_load_tokens bus s)
unfolding i2c_load_tokens
i2c_load_tokens-InWidth bus s k =
    let st = s.if_state bus in
    let tokens = tokens_at s.transport.mem st.current_req in
    elim (Bool-cases (st.current_req == 0)) [
      | inl e ↦ rw e tt
      | inr e ↦ elim (Bool-cases (ltb 0x7f (tokens 1))) [
        | inl f ↦ rw (e, f) k
        | inr f ↦
            let l = start_loader st (interface bus s) (tokens 1) in
            rw (e, f)
              (finish_load-InWidth bus (load_loop tokens st.current_req_len 16 l) s
                (load_loop-Fit32 tokens st.current_req_len (λ i. k.octets _) 16 l
                  (start_loader-Fit32 st (interface bus s) (tokens 1) (interface-Fit32 bus s k)))
                k)
      ]
    ]

pub load-InWidth : (bus : ℕ) (s : Driver) → InWidth s → Held (load bus s)
load-InWidth bus s k =
    let all = i2c_load_tokens-InWidth bus s k in
    elim (Option-cases (i2c_load_tokens bus s)) [
      | inl e ↦ rw (load, e) tt
      | inr (r, e) ↦ let h = rw e at all in rw (load, e) h
    ]
