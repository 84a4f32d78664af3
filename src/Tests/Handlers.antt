-- ===== src/Tests/Handlers.antt =====
-- The handlers of the driver at concrete states: errors, the fuel of the loop, and the widths.
use sddf_i2c_driver.Prelude.{
  ℕ, ◌+◌, ◌≡◌, refl, List, [], ◌∷◌, arith, true, false, none, some, pos, negsuc,
}
use sddf_i2c_driver.Token.{translate}
use sddf_i2c_driver.Interface.{i2c_dump}
use sddf_i2c_driver.Ring.{Desc, desc, RingBuffer}
use sddf_i2c_driver.Ring.Refine.{Holds}
use sddf_i2c_driver.Transport.Lens.{m2}
use sddf_i2c_driver.Driver
use sddf_i2c_driver.Driver.{
  Driver, IfState, interface, irq_ack, irq_i2c_m2_to, check_buf, i2c_load_tokens, load,
}
use sddf_i2c_driver.Driver.Load.{Loader, load_loop}
use sddf_i2c_driver.Driver.Load.Fuel.{Over, load_loop-enough}
use sddf_i2c_driver.Driver.Batch.{Dispatched}
use sddf_i2c_driver.Driver.Printed.{Shows, i2c_load_tokens-i2c_dump}
use sddf_i2c_driver.Driver.Invalid.{NextInvalid, i2c_load_tokens-invalid}
use sddf_i2c_driver.Driver.Width.{InWidth}
use sddf_i2c_driver.Driver.Width.Handlers.{notified-InWidth}
use sddf_i2c_driver.Interface.Width.{Fit32}
use sddf_i2c_driver.Setup.{setup_interface}
use sddf_i2c_driver.Setup.Masters.{Configured, setup_interface-Configured}
use sddf_i2c_driver.Server.{Server, submit}
use sddf_i2c_driver.System.Take.{at_transport}
use sddf_i2c_driver.Driver.{with_interface}
use sddf_i2c_driver.System.Steps
use sddf_i2c_driver.System.Steps.{Steps, at_server}
use sddf_i2c_driver.System.Width.{Wide, Steps-InWidth}
use sddf_i2c_driver.System.Complete.{CanEnd}
use sddf_i2c_driver.System.Failed.{Failed, error-Failed}
use sddf_i2c_driver.System.Starved.{check_buf-faults}
use sddf_i2c_driver.Tests.Data
use sddf_i2c_driver.Transport.{alloc_faults, buf_sz}
use sddf_i2c_driver.Transport.Calls.{alloc_faults-none}
use sddf_i2c_driver.System.Jammed.{Jammed, bad_address-Jammed}
use sddf_i2c_driver.Prelude.{◌++◌, false, inl}
use sddf_i2c_driver.Tests.Data.{
  regs₀, server₀, driver₀, idle, small, one_ring, blank_ring, blank, message, loading,
}
use sddf_i2c_driver.Tests.Scene.{small_held, one_held, loading-Pending}

abbrev empty_ring : RingBuffer
empty_ring = record { write_idx = 7; read_idx = 7; buffers = λ k. desc 0 0 }

empty_held : Holds empty_ring []
empty_held = record {
  valid = record { write_word = omega arith; read_word = omega arith; room = omega arith };
  holds = refl;
}

-- A request at work, whose interrupt comes with an error.
abbrev failing : Driver
failing = record driver₀ {
  transport = record small {
    m2_ret_ring = record { free_ring = one_ring; used_ring = empty_ring };
  };
  if_state = λ k. record idle {
    current_req = 0x40_0200;
    current_ret = 0x48_0000;
    current_req_len = 6;
    remaining = 6;
  };
}

abbrev one : List Desc
one = desc 0x40_0200 5 ∷ []

failing-CanEnd : CanEnd 2 failing one one one []
failing-CanEnd = record {
  req_rings = small_held;
  ret_rings = record { free = one_held; used = empty_held };
  req_room = omega arith;
  ret_room = omega arith;
  busy = omega arith;
  ret_busy = omega arith;
  short = omega arith;
}

error-Failed_example :
    (s' : Driver) × (after : Server) × Failed 2 true failing s' server₀ after one one one
error-Failed_example =
    error-Failed m2 true failing server₀ failing-CanEnd refl
      (record { error = refl; token = omega arith }) (omega arith)

-- An idle bus with a request waiting, and no return buffer.
abbrev starved : Driver
starved = record driver₀ {
  transport = record small {
    m2_ret_ring = record { free_ring = empty_ring; used_ring = one_ring };
  };
}

check_buf-faults_example : check_buf 2 starved ≡ none
check_buf-faults_example =
    check_buf-faults m2 starved small_held (record { free = empty_held; used = one_held }) refl
      (omega arith)

-- An idle bus with a request waiting whose address is beyond 0x7f.
abbrev far_ring : RingBuffer
far_ring = record one_ring { buffers = λ k. desc 0x48_0000 512 }

far_held : Holds far_ring (desc 0x48_0000 512 ∷ [])
far_held = record {
  valid = record { write_word = omega arith; read_word = omega arith; room = omega arith };
  holds = refl;
}

abbrev misaddressed : Driver
misaddressed = record driver₀ {
  transport = record small {
    m2_ret_ring = record { free_ring = far_ring; used_ring = empty_ring };
    mem = λ a. 0x80;
  };
}

bad_address-Jammed_example :
    (s' : Driver) × Jammed 2 misaddressed s' (desc 0x40_0200 5) (desc 0x48_0000 512)
bad_address-Jammed_example =
    bad_address-Jammed m2 misaddressed small_held (record { free = far_held; used = empty_held })
      refl (omega arith) (omega arith) (omega arith) (inl (omega arith)) (omega arith) (omega arith)

-- A request in memory that is all of tokens 9, which do not exist.
abbrev unknown : Driver
unknown = record loading { transport = record blank { mem = λ a. 9 } }

unknown-NextInvalid : NextInvalid (unknown.if_state 2) unknown.transport.mem
unfolding translate
unknown-NextInvalid = record {
  busy = omega arith;
  space = omega arith;
  short = omega arith;
  fits = omega arith;
  some_left = omega arith;
  small = omega arith;
  unknown = refl;
}

i2c_load_tokens-invalid_example :
    (s' : Driver) × (i2c_load_tokens 2 unknown ≡ some (negsuc 0, s'))
    × (load 2 unknown ≡ some s')
    × ((interface 2 s').ctl ≡ 0xffff_ff58)
    × ((s'.if_state 2).current_req ≡ 0x40_0200)
    × ((s'.if_state 2).remaining ≡ 6)
    × (s'.transport ≡ unknown.transport)
i2c_load_tokens-invalid_example = i2c_load_tokens-invalid 2 unknown unknown-NextInvalid

setup_interface-Configured_example : Configured regs₀ (setup_interface regs₀)
setup_interface-Configured_example = setup_interface-Configured regs₀

regs₀-Fit32 : Fit32 regs₀
regs₀-Fit32 = ground arith

-- The interrupt of the timeout then returns.
failed : (s' : Driver) × (after : Server) × Failed 2 true failing s' server₀ after one one one
failed =
    error-Failed m2 true failing server₀ failing-CanEnd refl
      (record { error = refl; token = omega arith }) (omega arith)

abbrev acknowledged : Driver
acknowledged = record (failed.0) { signals = irq_ack irq_i2c_m2_to ∷ failed.0.signals }

failed-acknowledged : Driver.notified irq_i2c_m2_to failing ≡ some acknowledged
unfolding Driver.notified
failed-acknowledged = rw (failed.2.ends) refl

failing-InWidth : InWidth failing
failing-InWidth = record { octets = λ a. omega arith; m2 = regs₀-Fit32; m3 = regs₀-Fit32 }

notified-InWidth_example : InWidth acknowledged
notified-InWidth_example =
    notified-InWidth irq_i2c_m2_to failing acknowledged failing-InWidth failed-acknowledged

-- The interrupt, a change of registers and a request.
abbrev rewired : Driver
rewired = with_interface 2 regs₀ acknowledged

abbrev three_bytes : List ℕ
three_bytes = 1 ∷ 0x1ff ∷ 0 ∷ []

abbrev asked : Server
asked = (submit three_bytes 1 0x168 (at_server server₀ rewired)).1

rewired_safe : alloc_faults rewired.transport 2 3 ≡ false
rewired_safe =
    alloc_faults-none m2 rewired.transport (one ++ desc 0x40_0200 buf_sz ∷ []) 3 failed.2.req_rings
      (omega arith, (omega arith, tt))

run : Steps (failing, server₀) (at_transport rewired asked.transport, asked)
run =
    Steps.next
      (Steps.next (Steps.next Steps.start (Steps.driver irq_i2c_m2_to failed-acknowledged))
        (Steps.hardware 2 regs₀))
      (Steps.request three_bytes 1 0x168 rewired_safe)

run-Wide : Wide run
unfolding run
run-Wide = (regs₀-Fit32, tt)

Steps-InWidth_example : InWidth (at_transport rewired asked.transport)
Steps-InWidth_example = Steps-InWidth run run-Wide failing-InWidth

-- The loop before its first round.
abbrev start : Loader
start = record { regs = regs₀; ddr = false; tk_offset = 0; wdat_offset = 0; i = 0 }

abbrev message_tokens : ℕ → ℕ
message_tokens k = Data.message_at (0x40_0200 + k)

load_loop-enough_example :
    (load_loop message_tokens 6 (16 + 4) start ≡ load_loop message_tokens 6 16 start)
    × Over message_tokens 6 (load_loop message_tokens 6 16 start)
load_loop-enough_example = load_loop-enough message_tokens 6 16 4 start (omega arith)

i2c_load_tokens-i2c_dump_example :
    (s' : Driver) × (i2c_load_tokens 2 loading ≡ some (pos 0, s'))
    × (d : Dispatched
        (loading.if_state 2)
        loading.transport.mem
        (interface 2 loading)
        message
        (1 ∷ 2 ∷ 4 ∷ 6 ∷ 0 ∷ [])
        (0x24 ∷ [])
        (s'.if_state 2)
        (interface 2 s'))
    × Shows d.now d.now_bytes (i2c_dump (interface 2 s'))
i2c_load_tokens-i2c_dump_example = i2c_load_tokens-i2c_dump 2 loading loading-Pending (omega arith)
