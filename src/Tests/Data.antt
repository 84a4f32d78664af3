-- ===== src/Tests/Data.antt =====
-- Concrete states: rings, a server and a driver before they start.
use sddf_i2c_driver.Prelude.{
  ◌^◌, ◌-◌, get_or, ℕ, false, true, List, [], ◌∷◌, ◌==◌, if◌then◌else◌, Bool,
}
use sddf_i2c_driver.Ring.{desc, RingBuffer, RingHandle}
use sddf_i2c_driver.Transport.{Transport}
use sddf_i2c_driver.Interface.{Interface}
use sddf_i2c_driver.Driver
use sddf_i2c_driver.Driver.{Driver, IfState}
use sddf_i2c_driver.Server
use sddf_i2c_driver.Server.{Server}
use sddf_i2c_driver.System.Take.{at_transport}
use sddf_i2c_driver.System.Served.{Interrupts}

abbrev pub blank_ring : RingBuffer
blank_ring = record { write_idx = 9; read_idx = 4; buffers = λ k. desc 0 0 }

abbrev pub blank_handle : RingHandle
blank_handle = record { free_ring = blank_ring; used_ring = blank_ring }

abbrev pub blank : Transport
blank = record {
  m2_req_ring = blank_handle;
  m2_ret_ring = blank_handle;
  m3_req_ring = blank_handle;
  m3_ret_ring = blank_handle;
  mem = λ a. 0;
}

abbrev pub server₀ : Server
server₀ = record {
  transport = blank;
  security_list0 = λ k. 7;
  security_list1 = λ k. 7;
  security_list2 = λ k. 7;
  security_list3 = λ k. 7;
  signals = [];
}

abbrev pub regs₀ : Interface
regs₀ = record {
  ctl = 0xffff_ff58;
  addr = 0x1234_5680;
  tk_list0 = 1;
  tk_list1 = 2;
  wdata0 = 3;
  wdata1 = 4;
  rdata0 = 0x1234_5678;
  rdata1 = 0;
}

abbrev pub idle : IfState
idle = record {
  current_req = 0;
  current_ret = 0;
  current_req_len = 0;
  remaining = 0;
  notified = false;
  ddr = false;
}

abbrev pub driver₀ : Driver
driver₀ = record {
  transport = blank;
  if_state = λ k. idle;
  if_m2 = regs₀;
  if_m3 = regs₀;
  pins = record {
    pinmux5 = 0;
    pinmux_e = 0;
    pad_ds2b = 0;
    pad_ds5a = 0;
    pad_bias2 = 0;
    pad_bias5 = 0;
    clk81 = 0;
  };
  signals = [];
}

abbrev pub base : ℕ
base = 0x40_0000

-- Both programs, started.
abbrev pub server₁ : Server
server₁ = Server.init base server₀

abbrev pub driver₁ : Driver
driver₁ = Driver.init base (at_transport driver₀ server₁.transport)

-- A ring that holds one descriptor, and one that has room; a transport of such rings.
abbrev pub one_ring : RingBuffer
one_ring = record { write_idx = 0; read_idx = 2 ^ 32 - 1; buffers = λ k. desc 0x40_0200 5 }

abbrev pub small : Transport
small =
    let h : RingHandle = record { free_ring = one_ring; used_ring = one_ring } in
    record { m2_req_ring = h; m2_ret_ring = h; m3_req_ring = h; m3_ret_ring = h; mem = λ a. 7 }

-- The driver with a request at work, as its second part is due.
abbrev pub working : Bool → IfState
working waiting = record {
  current_req = 0x40_0200;
  current_ret = 0x48_0000;
  current_req_len = 5;
  remaining = 0;
  notified = waiting;
  ddr = true;
}

abbrev pub busy : Bool → Driver
busy waiting = record driver₀ { if_state = λ k. working waiting }

-- A request in memory: write the byte 0x24 to the client 0x68.
abbrev pub message : List ℕ
message = 1 ∷ 2 ∷ 7 ∷ 0x24 ∷ 6 ∷ 0 ∷ []

abbrev pub message_at : ℕ → ℕ
message_at a = if a == 0x40_0201 then 0x68 else get_or message (a - 0x40_0202) 0

abbrev pub loading : Driver
loading = record driver₀ {
  transport = record blank { mem = message_at };
  if_state = λ k. record idle { current_req = 0x40_0200; current_req_len = 6; remaining = 6 };
}

-- Interrupts with the error bit clear.
abbrev pub quiet : Interrupts
quiet k = (false, record regs₀ { ctl = 0xf50 })
