-- ===== src/Tests/Witnesses.antt =====
-- The theorems at concrete states.
use sddf_i2c_driver.Prelude.{
  ℕ, ◌+◌, ◌*◌, ◌≤◌, ◌<◌, ◌≡◌, ◌⊎◌, refl, List, [], ◌∷◌, arith, true, false, some, none, pos, negsuc,
}
use sddf_i2c_driver.Prelude.Bits.{field}
use sddf_i2c_driver.Ring.{desc, enqueue, dequeue, ring_size}
use sddf_i2c_driver.Ring.Queue
use sddf_i2c_driver.Ring.Refine.{Pushes, Pops, enqueue_refines, dequeue_refines, ring_size-length}
use sddf_i2c_driver.Ring.Handle.{HandleHolds}
use sddf_i2c_driver.Transport.{
  Transport, alloc_req_buf, push_ret_buf, i2c_transport_init, buf_addr, buf_sz, req_ring, ret_ring,
}
use sddf_i2c_driver.Transport.Lens.{m2}
use sddf_i2c_driver.Transport.Calls.{ReqFrame, RetFrame, alloc_req_buf-Filled, push_ret_buf-ok}
use sddf_i2c_driver.Transport.Pool.{share, Free, i2c_transport_init-Free, buf_addr_apart}
use sddf_i2c_driver.Interface.{i2c_get_error, neg}
use sddf_i2c_driver.Interface.Control.{i2c_get_error_lem}
use sddf_i2c_driver.Setup.{setup_pins, setup_failures, ds_m2_unset}
use sddf_i2c_driver.Setup.Pads.{setup_failures-setup_pins}
use sddf_i2c_driver.Driver.{Driver, interface, with_interface, i2c_load_tokens, i2cirq, complete}
use sddf_i2c_driver.Driver.Load.{set_address}
use sddf_i2c_driver.Driver.Batch.{Dispatched, i2c_load_tokens-Dispatched}
use sddf_i2c_driver.Driver.Address.{set_address_lem}
use sddf_i2c_driver.Server.{Server, Report, drain, submit}
use sddf_i2c_driver.System.Ledger.{count, current}
use sddf_i2c_driver.System.BusInv.{Keeps, Untouched}
use sddf_i2c_driver.System.Work.{check_buf-Keeps}
use sddf_i2c_driver.System.Take.{at_transport}
use sddf_i2c_driver.System.Irq.{answered, i2cirq-Keeps, i2cirq-finished_notified}
use sddf_i2c_driver.System.Answer.{Written, code, failed_at, i2cirq-Written}
use sddf_i2c_driver.System.Serve.{Books, Kept, drain-Books, alloc_req_buf-Books}
use sddf_i2c_driver.System.Steps.{Sound, start, next, request, hardware, Step-Sound}
use sddf_i2c_driver.System.Start.{
  pools, pools-NoNull, init-Sound, Steps-init-Sound, Steps-init-one_owner,
}
use sddf_i2c_driver.Transport.{alloc_faults}
use sddf_i2c_driver.Transport.Message.{Filled}
use sddf_i2c_driver.Driver.{with_state}
use sddf_i2c_driver.System.Line.Post.{Waits-alloc_faults}
use sddf_i2c_driver.System.Line.Init.{init-Rests}
use sddf_i2c_driver.Prelude.{inl, false}
use sddf_i2c_driver.Tests.Data.{
  base, blank, driver₀, server₀, driver₁, server₁, idle, regs₀, one_ring, small, busy, message,
  loading,
}
use sddf_i2c_driver.Tests.Scene.{
  region, one_held, small_held, emptied, resting-Keeps, requested, requested-Keeps, taken_up, begun,
  busy_finished, at_work, ends, loading-Pending,
}

-- The server that posts a further request, and the driver's view of it.
abbrev posting : Server
posting = (submit message 1 0x68 (record server₁ { transport = driver₁.transport })).1

abbrev posted : Driver
posted = at_transport driver₁ posting.transport

driver₁_safe : alloc_faults driver₁.transport 2 6 ≡ false
driver₁_safe =
    Waits-alloc_faults m2 driver₁ 6 (init-Rests region (omega arith) server₀ driver₀).bus2

enqueue_refines_example :
    Pushes (enqueue one_ring 0x40_0000 9) (Queue.push (desc 0x40_0200 5 ∷ []) (desc 0x40_0000 9))
enqueue_refines_example = enqueue_refines (desc 0x40_0200 5 ∷ []) 0x40_0000 9 one_held

dequeue_refines_example : Pops (dequeue one_ring) (Queue.pop (desc 0x40_0200 5 ∷ []))
dequeue_refines_example = dequeue_refines (desc 0x40_0200 5 ∷ []) one_held

ring_size-length_example : ring_size one_ring ≡ 1
ring_size-length_example = ring_size-length one_held

i2c_transport_init-Free_example :
    Free base
      (i2c_transport_init base true blank)
      (share base 0 511 0)
      (share base 1 511 0)
      (share base 2 511 0)
      (share base 3 511 0)
    × ((i2c_transport_init base true blank).mem ≡ blank.mem)
i2c_transport_init-Free_example = i2c_transport_init-Free base blank

buf_addr_apart_example :
    (0 < buf_addr base 1 0)
    × ((◌≡◌ {A = ℕ} 1 2 × ◌≡◌ {A = ℕ} 0 510)
        ⊎ (buf_addr base 1 0 + buf_sz ≤ buf_addr base 2 510)
        ⊎ (buf_addr base 2 510 + buf_sz ≤ buf_addr base 1 0))
buf_addr_apart_example =
    buf_addr_apart base 1 0 2 510 (omega arith) (omega arith) (omega arith) (omega arith)
      (omega arith) (omega arith)

alloc_req_buf-Filled_example :
    (alloc_faults small 2 3 ≡ false)
    × (t' : Transport) × (alloc_req_buf small 2 3 (λ k. k) 1 0x68 ≡ (0x40_0200, t'))
    × HandleHolds (req_ring 2 t') [] (desc 0x40_0200 5 ∷ desc 0x40_0200 5 ∷ [])
    × Filled small.mem t'.mem 0x40_0200 3 (λ k. k) 1 0x68
    × ReqFrame 2 small t'
alloc_req_buf-Filled_example =
    alloc_req_buf-Filled m2 small 3 (λ k. k) 1 0x68 small_held (omega arith) (omega arith)
      (omega arith)

push_ret_buf-ok_example :
    (t' : Transport) × (push_ret_buf small 2 0x40_0400 8 ≡ (negsuc 0, t'))
    × HandleHolds (ret_ring 2 t') (desc 0x40_0200 5 ∷ []) (desc 0x40_0200 5 ∷ desc 0x40_0400 8 ∷ [])
    × (t'.mem ≡ small.mem)
    × RetFrame 2 small t'
push_ret_buf-ok_example =
    push_ret_buf-ok m2 small 0x40_0400 8 small_held (omega arith) (omega arith) (omega arith)

i2c_get_error_lem_example : i2c_get_error regs₀ ≡ neg (16 * 5)
i2c_get_error_lem_example = i2c_get_error_lem regs₀

setup_failures-setup_pins_example : setup_failures (setup_pins driver₀.pins) ≡ ds_m2_unset ∷ []
setup_failures-setup_pins_example = setup_failures-setup_pins driver₀.pins

set_address_lem_example :
    (field 1 7 (set_address regs₀ 0x28).addr ≡ 0x68)
    × (field 0 1 (set_address regs₀ 0x28).addr ≡ 0)
    × (field 8 24 (set_address regs₀ 0x28).addr ≡ 0x12_3456)
set_address_lem_example = set_address_lem regs₀ 0x28

i2c_load_tokens-Dispatched_example :
    (s' : Driver) × (i2c_load_tokens 2 loading ≡ some (pos 0, s'))
    × Dispatched
        (loading.if_state 2)
        loading.transport.mem
        (interface 2 loading)
        message
        (1 ∷ 2 ∷ 4 ∷ 6 ∷ 0 ∷ [])
        (0x24 ∷ [])
        (s'.if_state 2)
        (interface 2 s')
    × (s'.transport ≡ loading.transport)
    × (s'.signals ≡ loading.signals)
    × (s' ≡ with_interface 2 (interface 2 s') (with_state 2 (s'.if_state 2) loading))
i2c_load_tokens-Dispatched_example =
    i2c_load_tokens-Dispatched 2 loading loading-Pending (omega arith)

check_buf-Keeps_example :
    Keeps (pools base).m2_req (pools base).m2_ret 2 taken_up.0 × Untouched 3 requested taken_up.0
check_buf-Keeps_example =
    check_buf-Keeps m2 (pools-NoNull region).m2_req (pools-NoNull region).m2_ret requested
      taken_up.0 requested-Keeps taken_up.1

i2cirq-Keeps_example :
    Keeps (pools base).m2_req (pools base).m2_ret 2 (complete 2 (answered 2 false at_work))
    × Untouched 3 at_work (complete 2 (answered 2 false at_work))
i2cirq-Keeps_example =
    i2cirq-Keeps m2 false at_work (complete 2 (answered 2 false at_work)) begun.keeps ends

i2cirq-finished_notified_example : i2cirq 2 false (busy true) ≡ none
i2cirq-finished_notified_example =
    i2cirq-finished_notified 2 false (busy true) (busy_finished true) refl

i2cirq-Written_example :
    (t : Driver) × (i2cirq 2 true (busy false) ≡ some t)
    × Written blank.mem t.transport.mem 0x48_0000
        (code true (failed_at regs₀.ctl))
        (16 * failed_at regs₀.ctl)
i2cirq-Written_example = i2cirq-Written m2 true (busy false) (omega arith) (omega arith) (inl refl)

drain-Books_example :
    (out : List Report) × (s' : Server) × (drain 2 (record server₀ { transport = emptied })
      ≡ some (out, s'))
    × Books (pools base).m2_req (pools base).m2_ret 2 s'.transport idle
    × Kept 3 emptied s'.transport
drain-Books_example =
    drain-Books m2 (pools-NoNull region).m2_req (pools-NoNull region).m2_ret
      (record server₀ { transport = emptied }) idle resting-Keeps

alloc_req_buf-Books_example :
    Books
      (pools base).m2_req
      (pools base).m2_ret
      2
      (alloc_req_buf emptied 2 600 (λ k. k) 1 0x68).1
      idle
    × Kept 3 emptied (alloc_req_buf emptied 2 600 (λ k. k) 1 0x68).1
alloc_req_buf-Books_example =
    alloc_req_buf-Books m2 (pools-NoNull region).m2_req (pools-NoNull region).m2_ret emptied idle
      600 (λ k. k) 1 0x68 resting-Keeps

Step-Sound_example : Sound (pools base) (
    at_transport driver₁
      (submit message 1 0x68 (record server₁ { transport = driver₁.transport })).1.transport)
Step-Sound_example =
    Step-Sound (pools-NoNull region) (driver₁, server₁)
      (
        at_transport driver₁
            (submit message 1 0x68 (record server₁ { transport = driver₁.transport })).1.transport,
        (submit message 1 0x68 (record server₁ { transport = driver₁.transport })).1,
      )
      (request message 1 0x68 driver₁_safe) (init-Sound region server₀ driver₀)

Steps-init-Sound_example : Sound (pools base) (with_interface 2 regs₀ posted)
Steps-init-Sound_example =
    Steps-init-Sound region server₀ driver₀ (with_interface 2 regs₀ posted, posting)
      (next (next start (request message 1 0x68 driver₁_safe)) (hardware 2 regs₀))

Steps-init-one_owner_example :
    (k : Sound (pools base) posted) × (current base (posted.if_state 2).current_req
        + count base k.bus2.req_free
        + count base k.bus2.req_used
      ≤ 1)
    × (current base (posted.if_state 2).current_ret
          + count base k.bus2.ret_free
          + count base k.bus2.ret_used
        ≤ 1)
    × (current base (posted.if_state 3).current_req
          + count base k.bus3.req_free
          + count base k.bus3.req_used
        ≤ 1)
    × (current base (posted.if_state 3).current_ret
          + count base k.bus3.ret_free
          + count base k.bus3.ret_used
        ≤ 1)
Steps-init-one_owner_example =
    Steps-init-one_owner region server₀ driver₀ (posted, posting) base
      (next start (request message 1 0x68 driver₁_safe))
