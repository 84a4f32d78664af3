-- ===== src/Tests/Sessions.antt =====
-- The life of a request at concrete states: ten bytes are written to the client 0x68, in two parts.
use sddf_i2c_driver.Prelude.{
  ℕ, zero, suc, ◌≡◌, refl, List, [], ◌∷◌, ◌++◌, ◌+◌, arith, false, some, length,
}
use sddf_i2c_driver.Token.{translate, direction}
use sddf_i2c_driver.Ring.{Desc, desc}
use sddf_i2c_driver.Transport.{Transport, buf_addr, alloc_req_buf}
use sddf_i2c_driver.Transport.Lens.{m2}
use sddf_i2c_driver.Transport.Message.{data_of}
use sddf_i2c_driver.Transport.Pool.{share, length-share}
use sddf_i2c_driver.Driver.{Driver, check_buf}
use sddf_i2c_driver.System.Job.{Working}
use sddf_i2c_driver.Driver.Batch.{target}
use sddf_i2c_driver.Driver.Load.Spec.{Means, done, plain, writes}
use sddf_i2c_driver.System.Take.{at_transport}
use sddf_i2c_driver.System.Delivery.{IsMessage, IsIdle, TakenUp, posted-TakenUp}
use sddf_i2c_driver.System.Served.{Interrupts}
use sddf_i2c_driver.System.Ended.{Ended, Working-Ended}
use sddf_i2c_driver.System.Session.{Session, posted-Session}
use sddf_i2c_driver.Tests.Data
use sddf_i2c_driver.Tests.Data.{base, regs₀, server₀, driver₀, idle, small, quiet}
use sddf_i2c_driver.Tests.Scene.{resting, ready, small_held, loading-Pending}

abbrev bytes : List ℕ
bytes = 10 ∷ 20 ∷ 30 ∷ 40 ∷ 50 ∷ 60 ∷ 70 ∷ 80 ∷ 90 ∷ 100 ∷ []

-- `n` data bytes as a request has them.
abbrev writes_of : List ℕ → List ℕ → List ℕ
writes_of [] rest = rest
writes_of (c ∷ cs) rest = 7 ∷ c ∷ writes_of cs rest

abbrev tokens_of : List ℕ → List ℕ → List ℕ
tokens_of [] rest = rest
tokens_of (c ∷ cs) rest = 4 ∷ tokens_of cs rest

abbrev toks : List ℕ
toks = 1 ∷ 2 ∷ tokens_of bytes (6 ∷ 0 ∷ [])

abbrev message : List ℕ
message = 1 ∷ 2 ∷ writes_of bytes (6 ∷ 0 ∷ [])

writes_of-Means :
    (cs : List ℕ) {bs ts : List ℕ}
    → Means false bs ts []
    → Means false (writes_of cs bs) (tokens_of cs ts) (cs ++ [])
unfolding translate direction
writes_of-Means [] m = m
writes_of-Means (c ∷ cs) m = writes refl refl (writes_of-Means cs m)

message-Means : Means false message toks bytes
unfolding translate direction
message-Means =
    plain refl refl
      (plain refl refl (writes_of-Means bytes (plain refl refl (plain refl refl done))))

message-IsMessage : IsMessage false message toks bytes 1 0x68
message-IsMessage = record {
  octets = ground arith;
  short = omega arith;
  means = message-Means;
  client_byte = omega arith;
  seven_bits = omega arith;
}

abbrev d : Desc
d = desc (buf_addr base 0 0) 512

abbrev e : Desc
e = desc (buf_addr base 1 0) 512

resting-IsIdle : IsIdle 2 resting d e (share base 0 510 1) (share base 1 510 1) []
resting-IsIdle = record {
  req_rings = ready.m2_req;
  ret_rings = ready.m2_ret;
  req_room = omega (arith, length-share base 0 510 1);
  ret_room = omega arith;
  idle = refl;
  req_ne_zero = omega arith;
  ret_ne_zero = omega arith;
  apart = omega arith;
  space = omega arith;
}

posted-Session_example :
    Session m2 message-IsMessage resting server₀ quiet d e (share base 0 510 1) (share base 1 510 1)
posted-Session_example =
    posted-Session m2 message-IsMessage resting server₀ quiet resting-IsIdle refl
      (omega (arith, length-share base 1 510 1)) (λ i. refl)

posted-TakenUp_example :
    (posted : Transport) × (alloc_req_buf resting.transport 2
        (length message)
        (data_of message)
        1
        0x68
      ≡ (d.encoded_addr, posted))
    × (s' : Driver) × (check_buf 2 (at_transport resting posted) ≡ some s')
    × TakenUp m2 message-IsMessage
        (at_transport resting posted)
        s'
        (desc d.encoded_addr (length message + 2))
        e
        (share base 0 510 1)
        []
        (share base 1 510 1)
        []
posted-TakenUp_example = posted-TakenUp m2 message-IsMessage resting resting-IsIdle refl

-- A request at work, with all of it to send.
abbrev at_hand : Driver
at_hand = record driver₀ {
  transport = record small { mem = Data.message_at };
  if_state = λ k. record idle {
    current_req = 0x40_0200;
    current_ret = 0x48_0000;
    current_req_len = 6;
    remaining = 6;
  };
}

abbrev small_desc : List Desc
small_desc = desc 0x40_0200 5 ∷ []

at_hand-Working :
    Working false 2 at_hand small_desc small_desc small_desc small_desc Data.message
      (1 ∷ 2 ∷ 4 ∷ 6 ∷ 0 ∷ [])
      (0x24 ∷ [])
at_hand-Working = record {
  can_end = record {
    req_rings = small_held;
    ret_rings = small_held;
    req_room = omega arith;
    ret_room = omega arith;
    busy = omega arith;
    ret_busy = omega arith;
    short = omega arith;
  };
  pending = record {
    busy = loading-Pending.busy;
    space = loading-Pending.space;
    short = loading-Pending.short;
    remains = loading-Pending.remains;
    fits = loading-Pending.fits;
    stored = loading-Pending.stored;
    means = loading-Pending.means;
  };
  small = omega arith;
  flag = refl;
  apart = omega arith;
}

-- The second interrupt brings an error at the token ADDRW.
abbrev refused : Interrupts
refused zero = quiet 0
refused (suc k) = (false, record regs₀ { ctl = 0xf28 })

Working-Ended_example :
    Ended 2
      (target (at_hand.if_state 2) at_hand.transport.mem)
      refused
      at_hand
      small_desc
      small_desc
      small_desc
      small_desc
      Data.message
      (1 ∷ 2 ∷ 4 ∷ 6 ∷ 0 ∷ [])
      (0x24 ∷ [])
Working-Ended_example = Working-Ended m2 refused at_hand at_hand-Working
