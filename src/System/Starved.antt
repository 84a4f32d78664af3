-- ===== src/System/Starved.antt =====
-- checkBuf (i2c/i2c-odroid-c4.c) with no return buffer left.
use sddf_i2c_driver.Prelude.{ℕ, ◌≡◌, ◌∙◌, ◌≢◌, List, [], ◌∷◌, none, ==_of_ne}
use sddf_i2c_driver.Ring.{Desc}
use sddf_i2c_driver.Ring.Handle.{HandleHolds}
use sddf_i2c_driver.Transport.{req_ring, ret_ring}
use sddf_i2c_driver.Transport.Lens.{IsBus}
use sddf_i2c_driver.Transport.Calls.{pop_req_buf-ok, get_ret_buf-empty}
use sddf_i2c_driver.Driver.{Driver, take_request, check_buf}
use sddf_i2c_driver.System.Delivery.{check_buf-takes}

take_request-faults :
    {bus : ℕ} {d : Desc} {rf ru tu : List Desc} (b : IsBus bus) (s : Driver)
    → HandleHolds (req_ring bus s.transport) rf (d ∷ ru)
    → HandleHolds (ret_ring bus s.transport) [] tu
    → d.encoded_addr ≢ 0
    → take_request bus s ≡ none
unfolding take_request
take_request-faults {bus} {d} {tu = tu} b s reqs rets ne =
    let (t, r, w, m, f) = pop_req_buf-ok b s.transport reqs in
    let rets' : HandleHolds (ret_ring bus t) [] tu = rw (f.ret bus) rets in
    rw (r, ==_of_ne d.encoded_addr 0 ne, get_ret_buf-empty b t rets')

-- With a request waiting on an idle bus and no free return buffer, `checkBuf` does not return: it
-- goes through NULL.
pub check_buf-faults :
    {bus : ℕ} {d : Desc} {rf ru tu : List Desc} (b : IsBus bus) (s : Driver)
    → HandleHolds (req_ring bus s.transport) rf (d ∷ ru)
    → HandleHolds (ret_ring bus s.transport) [] tu
    → (s.if_state bus).current_req ≡ 0
    → d.encoded_addr ≢ 0
    → check_buf bus s ≡ none
check_buf-faults b s reqs rets idle ne =
    check_buf-takes b s reqs idle ∙ take_request-faults b s reqs rets ne
