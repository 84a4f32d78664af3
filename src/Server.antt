-- ===== src/Server.antt =====
-- i2c/i2c.c and i2c/include/i2c.h: the server. `driver_bufs` is the address of the shared buffers.
-- Console output is left out but for the report of each returned buffer.
use sddf_i2c_driver.Prelude.{
  ℕ, zero, suc, ◌+◌, Bool, true, false, Option, none, some, List, [], ◌∷◌, ◌++◌, ◌==◌,
  if◌then◌else◌, update, get_or, length,
}
use sddf_i2c_driver.Transport.{
  Transport, Memory, ret_buf_err, ret_buf_client, ret_buf_addr, alloc_req_buf, ret_buf_empty,
  pop_ret_buf, release_ret_buf, i2c_transport_init,
}
use sddf_i2c_driver.Driver.{Signal, notify}
use sddf_i2c_driver.Token.I2cTk

-- DRIVER_NOTIFY_ID, I2C_PPC_REQTYPE, I2C_PPC_CLAIM, I2C_PPC_RELEASE and I2C_SECURITY_LIST_SZ
abbrev pub driver_notify_id : ℕ
driver_notify_id = 1

abbrev pub ppc_reqtype : ℕ
ppc_reqtype = 1

abbrev pub ppc_claim : ℕ
ppc_claim = 1

abbrev pub ppc_release : ℕ
ppc_release = 2

abbrev pub security_list_sz : ℕ
security_list_sz = 127

-- An array of I2C_SECURITY_LIST_SZ entries, by index.
abbrev pub SecurityList : Type 0
SecurityList = ℕ → ℕ

pub record Server : Type 0 where
  pub transport : Transport
  pub security_list0 : SecurityList
  pub security_list1 : SecurityList
  pub security_list2 : SecurityList
  pub security_list3 : SecurityList
  pub signals : List Signal

-- The loop of `init` at index `i`, with `n` rounds left.
unfoldable pub clear_lists : ℕ → ℕ → Server → Server
clear_lists zero i s = s
clear_lists (suc n) i s = clear_lists n (i + 1) (record s {
  security_list0 = update s.security_list0 i 0;
  security_list1 = update s.security_list1 i 0;
  security_list2 = update s.security_list2 i 0;
  security_list3 = update s.security_list3 i 0;
})

-- A call of allocReqBuf on bus 2 with the bytes `request`, and the notification of the driver if
-- it returns a buffer; the test functions return early if it does not.
unfoldable pub submit : List ℕ → ℕ → ℕ → Server → Bool × Server
submit request cid addr s =
    let (ret, t) =
      alloc_req_buf s.transport 2 (length request) (λ k. get_or request k 0) cid addr in
    if ret == 0
    then (false, record s { transport = t })
    else (true, record s { transport = t; signals = notify driver_notify_id ∷ s.signals })

-- `submit` one request behind another, up to the first that fails.
unfoldable pub submit_all : List (List ℕ) → ℕ → ℕ → Server → Server
unfolding submit
submit_all [] cid addr s = s
submit_all (r ∷ rs) cid addr s =
    let (sent, s') = submit r cid addr s in
    let rest = submit_all rs cid addr s' in if sent then rest else s'

abbrev pub write_byte : ℕ → List ℕ
write_byte b = I2cTk.dat ∷ b ∷ []

abbrev pub write_bytes : List ℕ → List ℕ
write_bytes [] = []
write_bytes (b ∷ bs) = I2cTk.dat ∷ b ∷ write_bytes bs

abbrev pub write_request : List ℕ → List ℕ
write_request bs = I2cTk.start ∷ I2cTk.addrw ∷ (write_bytes bs ++ I2cTk.stop ∷ I2cTk.tk_end ∷ [])

-- testds3231: set a register of the clock chip, and read it back.
abbrev pub ds3231_set : List ℕ
ds3231_set = write_request (0x6 ∷ 0x20 ∷ 0x24 ∷ [])

abbrev pub ds3231_read : List ℕ
ds3231_read =
    I2cTk.start ∷ I2cTk.addrw ∷ I2cTk.dat ∷ 0x6 ∷ I2cTk.start ∷ I2cTk.addrr ∷ I2cTk.dat
    ∷ I2cTk.data_end ∷ I2cTk.stop ∷ I2cTk.tk_end ∷ []

unfoldable pub testds3231 : Server → Server
unfolding submit_all
testds3231 s = submit_all (ds3231_set ∷ ds3231_read ∷ []) 1 0x68 s

-- `test`: its two requests in the order write, read, write.
abbrev pub test_read : List ℕ
test_read =
    I2cTk.start ∷ I2cTk.addrr ∷ I2cTk.dat ∷ 0x01 ∷ I2cTk.dat ∷ 0x02 ∷ I2cTk.dat ∷ 0x03
    ∷ I2cTk.data_end ∷ I2cTk.stop ∷ I2cTk.tk_end ∷ []

abbrev pub test_write : List ℕ
test_write = write_request (0x03 ∷ 0x02 ∷ 0x01 ∷ [])

unfoldable pub test : Server → Server
unfolding submit_all
test s = submit_all (test_write ∷ test_read ∷ test_write ∷ []) 1 0x24 s

-- testLong: 30 bytes; 0x11 is left out.
abbrev pub long_bytes : List ℕ
long_bytes =
    0x06 ∷ 0x01 ∷ 0x02 ∷ 0x03 ∷ 0x04 ∷ 0x05 ∷ 0x06 ∷ 0x07 ∷ 0x08 ∷ 0x09 ∷ 0x0a ∷ 0x0b ∷ 0x0c ∷ 0x0d
    ∷ 0x0e ∷ 0x0f ∷ 0x10 ∷ 0x12 ∷ 0x13 ∷ 0x14 ∷ 0x15 ∷ 0x16 ∷ 0x17 ∷ 0x18 ∷ 0x19 ∷ 0x1a ∷ 0x1b
    ∷ 0x1c ∷ 0x1d ∷ 0x1e ∷ []

unfoldable pub test_long : Server → Server
unfolding submit_all
test_long s = submit_all (write_request long_bytes ∷ []) 1 0x68 s

unfoldable pub init : ℕ → Server → Server
unfolding clear_lists testds3231
init driver_bufs s = testds3231 (
    clear_lists security_list_sz 0
      (record s { transport = i2c_transport_init driver_bufs true s.transport }))

-- What driverNotify prints of a returned buffer: the bus, the client and the address; where it
-- says "token of type" it prints the address too.
pub data Report : Type 0 where
  failure : (err bus client addr : ℕ) → Report
  success : (bus client addr : ℕ) → Report

unfoldable pub report_of : ℕ → ℕ → Memory → Report
report_of bus ret m =
    let err = m (ret + ret_buf_err) in
    let client = m (ret + ret_buf_client) in
    let addr = m (ret + ret_buf_addr) in
    if err == 0 then success bus client addr else failure err bus client addr

-- One round of driverNotify; none if it reads through NULL.
unfoldable pub drain : ℕ → Server → Option (List Report × Server)
unfolding report_of
drain bus s =
    let (ret, sz, t) = pop_ret_buf s.transport bus 0 in
    if ret_buf_empty s.transport bus
    then some ([], s)
    else if ret == 0
    then none
    else some (report_of bus ret t.mem ∷ [], record s { transport = (release_ret_buf t bus ret).1 })

unfoldable pub driver_notify : Server → Option (List Report × Server)
unfolding drain
driver_notify s = elim (drain 2 s) [
  | none ↦ none
  | some (out, s') ↦ elim (drain 3 s') [ none ↦ none | some (out', s'') ↦ some (out ++ out', s'') ]
]

unfoldable pub notified : ℕ → Server → Option (List Report × Server)
unfolding driver_notify
notified c s = if c == driver_notify_id then driver_notify s else some ([], s)

-- The message registers and sel4cp_msginfo_new are the kernel's. Neither request does anything.
module _ {ℓ} {MsgInfo : Type ℓ} (mr_get : ℕ → ℕ) (msginfo_new : ℕ → ℕ → MsgInfo) where
  unfoldable pub protected : Server → MsgInfo × Server
  protected s =
      let req = mr_get ppc_reqtype in
      if req == ppc_claim
      then (msginfo_new 0 0, s)
      else if req == ppc_release
      then (msginfo_new 0 0, s)
      else (msginfo_new 0 0, s)
