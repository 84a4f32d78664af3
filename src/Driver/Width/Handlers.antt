-- ===== src/Driver/Width/Handlers.antt =====
-- The handlers of the driver (i2c/i2c-odroid-c4.c) keep the registers within 32 bits and the memory
-- within bytes.
use sddf_i2c_driver.Prelude.{
  ◌∷◌, ℕ, zero, suc, ◌+◌, ◌≡◌, refl, Bool, true, false, none, some, Option, if-both, ◌==◌,
  if◌then◌else◌, ℤ, pos, negsuc, not, ◌||◌, bit_and,
}
use sddf_i2c_driver.Prelude.Words.{sext64, ◌>>>◌}
use sddf_i2c_driver.Transport.{
  Memory, store, ret_buf_err, ret_buf_err_tk, ret_buf_client, ret_buf_addr, push_ret_buf,
  release_req_buf, pop_req_buf, get_ret_buf, req_buf_empty, i2c_transport_init,
}
use sddf_i2c_driver.Transport.Octets.{
  Octets, store-Octets, push_ret_buf-mem, release_req_buf-mem, pop_req_buf-mem, get_ret_buf-mem,
}
use sddf_i2c_driver.Interface.{i2c_halt, i2c_get_error}
use sddf_i2c_driver.Interface.Width.{i2c_halt-Fit32}
use sddf_i2c_driver.Driver.{
  Driver, IfState, interface, with_interface, with_state, with_mem, start_loader, left_over,
  finish_load, i2c_load_tokens, load, begin_work, take_request, check_buf, server_notify, copy_read,
  error_code, store_result, complete, i2cirq, notified, is_negative, acknowledge, err_ok,
  server_notify_id, irq_i2c_m2, irq_i2c_m2_to, irq_i2c_m3, irq_i2c_m3_to, notify,
}
use sddf_i2c_driver.Driver
use sddf_i2c_driver.Setup.Masters.{setup_interface-Fit32}
use sddf_i2c_driver.Driver.Width.{
  InWidth, Held, interface-Fit32, with_interface-InWidth, same_regs, load-InWidth,
}

begin_work-InWidth :
    (bus req sz ret : ℕ) (s : Driver) → InWidth s → InWidth (begin_work bus req sz ret s)
unfolding begin_work
begin_work-InWidth bus req sz ret s k =
    let m = s.transport.mem in
    let m' = store m (ret + ret_buf_client) (m req) in
    same_regs s (begin_work bus req sz ret s) refl refl
      (store-Octets m' (ret + ret_buf_addr) (m' (req + 1))
        (store-Octets m (ret + ret_buf_client) (m req) k.octets))
      k

take_request-InWidth : (bus : ℕ) (s : Driver) → InWidth s → Held (take_request bus s)
unfolding take_request
take_request-InWidth bus s k =
    let p = pop_req_buf s.transport bus 0 in
    let g = get_ret_buf p.2 bus in
    let o : Octets p.2.mem = rw (pop_req_buf-mem s.transport bus 0) k.octets in
    let o' : Octets g.1.mem = rw (get_ret_buf-mem p.2 bus) o in
    let t = record s { transport = p.2 } in
    let u = record s { transport = g.1 } in
    if-both Held (p.0 == 0) _ _ (same_regs s t refl refl o k) (
      if-both Held (g.0 == 0) _ _ tt (
        load-InWidth bus (begin_work bus p.0 p.1 g.0 u)
          (begin_work-InWidth bus p.0 p.1 g.0 u (same_regs s u refl refl o' k))))

check_buf-InWidth : (bus : ℕ) (s : Driver) → InWidth s → Held (check_buf bus s)
unfolding check_buf
check_buf-InWidth bus s k =
    let st = s.if_state bus in
    let told = λ (b : Bool). with_state bus (record st { notified = b }) s in
    if-both Held (not (req_buf_empty s.transport bus)) _ _
      (if-both Held (not (st.current_req == 0)) _ _ (same_regs s (told true) refl refl k.octets k)
        (take_request-InWidth bus s k))
      (same_regs s (told false) refl refl k.octets k)

server_notify-InWidth : (s : Driver) → InWidth s → Held (server_notify s)
unfolding server_notify
server_notify-InWidth s k = both (check_buf 2 s) (check_buf-InWidth 2 s k)
  where
    both :
        (o : Option Driver)
        → Held o
        → Held (elim o as (λ x. Option Driver) [ none ↦ none | some s' ↦ check_buf 3 s' ])
    both none h = tt
    both (some s') h = check_buf-InWidth 3 s' h

copy_read-Octets :
    (rdata0 ret n i : ℕ) (m : Memory) → Octets m → Octets (copy_read rdata0 ret n i m)
unfolding copy_read
copy_read-Octets rdata0 ret zero i m o = o
copy_read-Octets rdata0 ret (suc n) i m o =
    copy_read-Octets rdata0 ret n (i + 1)
      (store m (ret + (4 + i)) (bit_and rdata0 0xff00_0000 >>> 24))
      (store-Octets m (ret + (4 + i)) (bit_and rdata0 0xff00_0000 >>> 24) o)

-- Two stores.
twice-Octets : (m : Memory) (a v b w : ℕ) → Octets m → Octets (store (store m a v) b w)
twice-Octets m a v b w o = store-Octets (store m a v) b w (store-Octets m a v o)

store_result-Octets :
    (timeout : Bool) (err : ℤ) (rdata0 ret : ℕ) (m : Memory)
    → Octets m
    → Octets (store_result timeout err rdata0 ret m)
unfolding store_result
store_result-Octets timeout (negsuc k) rdata0 ret m o =
    twice-Octets m (ret + ret_buf_err) (error_code timeout (suc k)) (ret + ret_buf_err_tk) (suc k) o
store_result-Octets timeout (pos n) rdata0 ret m o =
    twice-Octets (copy_read rdata0 ret n 0 m) (ret + ret_buf_err) err_ok (ret + ret_buf_err_tk) 0
      (copy_read-Octets rdata0 ret n 0 m o)

complete-InWidth : (bus : ℕ) (s : Driver) → InWidth s → InWidth (complete bus s)
unfolding complete
complete-InWidth bus s k =
    let st = s.if_state bus in
    let p = push_ret_buf s.transport bus st.current_ret (sext64 st.current_req_len) in
    let q = release_req_buf p.1 bus st.current_req in
    let o : Octets q.1.mem =
      rw
        (
          release_req_buf-mem p.1 bus st.current_req,
          push_ret_buf-mem s.transport bus st.current_ret (sext64 st.current_req_len),
        )
        k.octets in
    let s' =
      with_state bus
        (record st { current_ret = 0; current_req = 0; current_req_len = 0; remaining = 0 })
        (record s { transport = q.1; signals = notify server_notify_id ∷ s.signals }) in
    with_interface-InWidth bus (i2c_halt (interface bus s)).1 s'
      (i2c_halt-Fit32 (interface bus s) (interface-Fit32 bus s k)) (same_regs s s' refl refl o k)

i2cirq-InWidth : (bus : ℕ) (timeout : Bool) (s : Driver) → InWidth s → Held (i2cirq bus timeout s)
unfolding i2cirq
i2cirq-InWidth bus timeout s k =
    let r = (i2c_halt (interface bus s)).1 in
    let err = i2c_get_error r in
    let st = s.if_state bus in
    let s₀ = with_interface bus r s in
    let s₁ = with_mem (store_result timeout err r.rdata0 st.current_ret s.transport.mem) s₀ in
    let k₀ =
      with_interface-InWidth bus r s (i2c_halt-Fit32 (interface bus s) (interface-Fit32 bus s k))
        k in
    let k₁ =
      same_regs s₀ s₁ refl refl
        (store_result-Octets timeout err r.rdata0 st.current_ret s.transport.mem k.octets) k₀ in
    let s₂ = if is_negative err || st.remaining == 0 then complete bus s₁ else s₁ in
    let k₂ : InWidth s₂ =
      if-both InWidth (is_negative err || st.remaining == 0) (complete bus s₁) s₁
        (complete-InWidth bus s₁ k₁) k₁ in
    let again = (s₂.if_state bus).notified || not ((s₂.if_state bus).remaining == 0) in
    if-both Held (st.current_ret == 0) _ _ tt
      (if-both Held again (load bus s₂) (some s₂) (load-InWidth bus s₂ k₂) k₂)

acknowledge-Held : (c : ℕ) (o : Option Driver) → Held o → Held (acknowledge c o)
acknowledge-Held c none h = tt
acknowledge-Held c (some s) h = record { octets = h.octets; m2 = h.m2; m3 = h.m3 }

notified-Held : (c : ℕ) (s : Driver) → InWidth s → Held (notified c s)
unfolding notified
notified-Held c s k =
    let on = λ (bus : ℕ) (timeout : Bool).
      acknowledge-Held c (i2cirq bus timeout s) (i2cirq-InWidth bus timeout s k) in
    if-both Held (c == server_notify_id) _ _ (server_notify-InWidth s k) (
      if-both Held (c == irq_i2c_m2) _ _ (on 2 false) (
        if-both Held (c == irq_i2c_m2_to) _ _ (on 2 true) (
          if-both Held (c == irq_i2c_m3) _ _ (on 3 false)
            (if-both Held (c == irq_i2c_m3_to) _ _ (on 3 true) k))))

-- Where the registers of both masters have 32 bits and the shared memory holds bytes, this is
-- still so after any notification of the driver that returns: no shift of a token, a data byte or
-- an address leaves its register.
pub notified-InWidth : (c : ℕ) (s s' : Driver) → InWidth s → notified c s ≡ some s' → InWidth s'
notified-InWidth c s s' k e = rw e at (notified-Held c s k)

pub init-InWidth : (driver_bufs : ℕ) (s : Driver) → InWidth s → InWidth (Driver.init driver_bufs s)
unfolding Driver.init i2c_transport_init
init-InWidth driver_bufs s k = record {
  octets = k.octets;
  m2 = setup_interface-Fit32 s.if_m2 k.m2;
  m3 = setup_interface-Fit32 s.if_m3 k.m3;
}
