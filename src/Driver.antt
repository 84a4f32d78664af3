-- ===== src/Driver.antt =====
-- i2c/i2c-odroid-c4.c: the driver. A handler takes the state to the next one, or to `none` where
-- it goes through a NULL pointer (page 0 is not mapped). Console output is left out.
pub mod Load
pub mod Batch
pub mod Sent
pub mod Printed
pub mod Invalid
pub mod Width
pub mod Address
use sddf_i2c_driver.Prelude.{
  ℕ, zero, suc, ◌+◌, ◌-◌, ◌*◌, ◌/◌, ◌%◌, ◌^◌, Bool, true, false, not, ◌||◌, Option, none, some,
  List, ◌∷◌, ◌==◌, ltb, if◌then◌else◌, update, ℤ, pos, negsuc, bit_and,
}
use sddf_i2c_driver.Prelude.Words.{u8, u32, u64, sub32, int_lt, sext64, ◌>>>◌}
use sddf_i2c_driver.Token.I2cTk
use sddf_i2c_driver.Transport.{
  Transport, Memory, store, ret_buf_err, ret_buf_err_tk, ret_buf_client, ret_buf_addr,
  req_buf_empty, pop_req_buf, get_ret_buf, push_ret_buf, release_req_buf, i2c_transport_init,
}
use sddf_i2c_driver.Interface.{Interface, i2c_get_error, i2c_start, i2c_halt, i2c_flush, neg}
use sddf_i2c_driver.Setup.{Pins, setup_pins, setup_interface}
use Load.{Loader, load_loop, tokens_at, set_address}

-- I2C_ERR_OK, I2C_ERR_TIMEOUT, I2C_ERR_NACK and I2C_ERR_NOREAD
abbrev pub err_ok : ℕ
err_ok = 0

abbrev pub err_timeout : ℕ
err_timeout = 1

abbrev pub err_nack : ℕ
err_nack = 2

abbrev pub err_noread : ℕ
err_noread = 3

-- SERVER_NOTIFY_ID, and the channels of the interrupts
abbrev pub server_notify_id : ℕ
server_notify_id = 1

abbrev pub irq_i2c_m2 : ℕ
irq_i2c_m2 = 2

abbrev pub irq_i2c_m2_to : ℕ
irq_i2c_m2_to = 3

abbrev pub irq_i2c_m3 : ℕ
irq_i2c_m3 = 4

abbrev pub irq_i2c_m3_to : ℕ
irq_i2c_m3_to = 5

-- `current_req_len` is an `int`, as its bit pattern; `ddr` is true for a read.
pub record IfState : Type 0 where
  pub current_req : ℕ
  pub current_ret : ℕ
  pub current_req_len : ℕ
  pub remaining : ℕ
  pub notified : Bool
  pub ddr : Bool

-- What a program asks of the kernel: sel4cp_notify and sel4cp_irq_ack, by channel.
pub data Signal : Type 0 where
  notify : ℕ → Signal
  irq_ack : ℕ → Signal

-- The signals are kept newest first.
pub record Driver : Type 0 where
  pub transport : Transport
  pub if_state : ℕ → IfState
  pub if_m2 : Interface
  pub if_m3 : Interface
  pub pins : Pins
  pub signals : List Signal

-- `(bus == 2) ? if_m2 : if_m3`
abbrev pub interface : ℕ → Driver → Interface
interface bus s = if bus == 2 then s.if_m2 else s.if_m3

abbrev pub with_interface : ℕ → Interface → Driver → Driver
with_interface bus r s = record s {
  if_m2 = if bus == 2 then r else s.if_m2;
  if_m3 = if bus == 2 then s.if_m3 else r;
}

abbrev pub with_state : ℕ → IfState → Driver → Driver
with_state bus st s = record s { if_state = update s.if_state bus st }

abbrev pub with_mem : Memory → Driver → Driver
with_mem m s = record s { transport = record (s.transport) { mem = m } }

-- The registers and the loop variables at the start of the loop of i2cLoadTokens.
unfoldable pub start_loader : IfState → Interface → ℕ → Loader
unfolding i2c_flush set_address
start_loader st r addr =
    let r' = set_address (i2c_flush r) addr in
    record {
      regs = record r' { tk_list0 = 0; tk_list1 = 0; wdata0 = 0; wdata1 = 0 };
      ddr = st.ddr;
      tk_offset = 0;
      wdat_offset = 0;
      i = u32 (sext64 st.current_req_len + 2 ^ 64 - st.remaining);
    }

-- `(current_req_len - i > 0) ? current_req_len - i : 0`
unfoldable pub left_over : ℕ → ℕ → ℕ
left_over len i = let d = sub32 len i in if int_lt 0 d then d else 0

-- What follows the loop: by its result, give up or start the list processor.
unfoldable pub finish_load : ℕ → Bool × Loader → Driver → ℤ × Driver
unfolding left_over
finish_load bus (ok, l) s =
    let st = s.if_state bus in
    if ok
    then (
      pos 0,
      with_interface bus (i2c_start l.regs).1 (
          with_state bus (record st { ddr = l.ddr; remaining = left_over st.current_req_len l.i })
            s),
    )
    else (negsuc 0, with_interface bus l.regs (with_state bus (record st { ddr = l.ddr }) s))

unfoldable pub i2c_load_tokens : ℕ → Driver → Option (ℤ × Driver)
unfolding start_loader finish_load
i2c_load_tokens bus s =
    let st = s.if_state bus in
    let tokens = tokens_at s.transport.mem st.current_req in
    let addr = tokens 1 in
    if st.current_req == 0
    then none
    else if ltb 0x7f addr
    then some (negsuc 0, s)
    else some (
        finish_load bus
          (load_loop tokens st.current_req_len 16 (start_loader st (interface bus s) addr)) s)

-- The result of i2cLoadTokens is ignored by its callers.
abbrev pub load : ℕ → Driver → Option Driver
load bus s = elim (i2c_load_tokens bus s) [ none ↦ none | some (_, s') ↦ some s' ]

-- checkBuf from the request `req` of `sz` bytes on, with the return buffer `ret`.
unfoldable pub begin_work : ℕ → ℕ → ℕ → ℕ → Driver → Driver
begin_work bus req sz ret s =
    let m = s.transport.mem in
    let m' = store m (ret + ret_buf_client) (m req) in
    with_state bus
      (record (s.if_state bus) {
        current_req = req;
        current_req_len = u32 (sz + 2 ^ 64 - 2);
        remaining = u64 (sz + 2 ^ 64 - 2);
        notified = false;
        current_ret = ret;
      })
      (with_mem (store m' (ret + ret_buf_addr) (m' (req + 1))) s)

unfoldable pub take_request : ℕ → Driver → Option Driver
unfolding begin_work
take_request bus s =
    let (req, sz, t) = pop_req_buf s.transport bus 0 in
    if req == 0
    then some (record s { transport = t })
    else let (ret, t') = get_ret_buf t bus in
      if ret == 0 then none else load bus (begin_work bus req sz ret (record s { transport = t' }))

unfoldable pub check_buf : ℕ → Driver → Option Driver
unfolding take_request
check_buf bus s =
    let st = s.if_state bus in
    if not (req_buf_empty s.transport bus)
    then if not (st.current_req == 0)
      then some (with_state bus (record st { notified = true }) s)
      else take_request bus s
    else some (with_state bus (record st { notified = false }) s)

unfoldable pub server_notify : Driver → Option Driver
unfolding check_buf
server_notify s = elim (check_buf 2 s) [ none ↦ none | some s' ↦ check_buf 3 s' ]

-- The loop that copies `n` read bytes into the return buffer, at round `i`.
unfoldable pub copy_read : ℕ → ℕ → ℕ → ℕ → Memory → Memory
copy_read rdata0 ret zero i m = m
copy_read rdata0 ret (suc n) i m =
    copy_read rdata0 ret n (i + 1) (store m (ret + (4 + i)) (bit_and rdata0 0xff00_0000 >>> 24))

-- The error code: a timeout, a token equal to I2C_TK_ADDRR, or else a NACK.
unfoldable pub error_code : Bool → ℕ → ℕ
error_code timeout tok =
    if timeout then err_timeout else if tok == I2cTk.addrr then err_noread else err_nack

-- The result of i2cGetError in the return buffer.
unfoldable pub store_result : Bool → ℤ → ℕ → ℕ → Memory → Memory
unfolding copy_read error_code
store_result timeout (negsuc k) rdata0 ret m =
    store (store m (ret + ret_buf_err) (error_code timeout (suc k))) (ret + ret_buf_err_tk) (suc k)
store_result timeout (pos n) rdata0 ret m =
    store (store (copy_read rdata0 ret n 0 m) (ret + ret_buf_err) err_ok) (ret + ret_buf_err_tk) 0

-- `err < 0`
abbrev pub is_negative : ℤ → Bool
is_negative (pos n) = false
is_negative (negsuc n) = true

-- Return the buffer to the server, and clear the state of the interface.
unfoldable pub complete : ℕ → Driver → Driver
complete bus s =
    let st = s.if_state bus in
    let (_, t) = push_ret_buf s.transport bus st.current_ret (sext64 st.current_req_len) in
    let (_, t') = release_req_buf t bus st.current_req in
    with_interface bus (i2c_halt (interface bus s)).1 (
      with_state bus
        (record st { current_ret = 0; current_req = 0; current_req_len = 0; remaining = 0 })
        (record s { transport = t'; signals = notify server_notify_id ∷ s.signals }))

unfoldable pub i2cirq : ℕ → Bool → Driver → Option Driver
unfolding store_result complete
i2cirq bus timeout s =
    let r = (i2c_halt (interface bus s)).1 in
    let err = i2c_get_error r in
    let st = s.if_state bus in
    let ret = st.current_ret in
    let s₁ =
      with_mem (store_result timeout err r.rdata0 ret s.transport.mem) (with_interface bus r s) in
    let s₂ = if is_negative err || st.remaining == 0 then complete bus s₁ else s₁ in
    let again = (s₂.if_state bus).notified || not ((s₂.if_state bus).remaining == 0) in
    if ret == 0 then none else if again then load bus s₂ else some s₂

abbrev pub acknowledge : ℕ → Option Driver → Option Driver
acknowledge c none = none
acknowledge c (some s) = some (record s { signals = irq_ack c ∷ s.signals })

unfoldable pub notified : ℕ → Driver → Option Driver
unfolding server_notify i2cirq
notified c s =
    if c == server_notify_id
    then server_notify s
    else if c == irq_i2c_m2
    then acknowledge c (i2cirq 2 false s)
    else if c == irq_i2c_m2_to
    then acknowledge c (i2cirq 2 true s)
    else if c == irq_i2c_m3
    then acknowledge c (i2cirq 3 false s)
    else if c == irq_i2c_m3_to
    then acknowledge c (i2cirq 3 true s)
    else some s

abbrev pub cleared : IfState → IfState
cleared st = record st {
  current_req = 0;
  current_ret = 0;
  current_req_len = 0;
  remaining = 0;
  notified = false;
}

unfoldable pub init : ℕ → Driver → Driver
init driver_bufs s = record s {
  pins = setup_pins s.pins;
  if_m2 = setup_interface s.if_m2;
  if_m3 = setup_interface s.if_m3;
  transport = i2c_transport_init driver_bufs false s.transport;
  if_state = update (update s.if_state 2 (cleared (s.if_state 2))) 3 (cleared (s.if_state 3));
}
