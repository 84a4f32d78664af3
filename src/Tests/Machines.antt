-- ===== src/Tests/Machines.antt =====
-- Bus 2 from the start of the two programs, event by event, up to a fault.
use sddf_i2c_driver.Prelude.{true, false, List, [], ◌∷◌, All, arith}
use sddf_i2c_driver.Transport.Lens.{m2}
use sddf_i2c_driver.Driver
use sddf_i2c_driver.Driver.{Driver}
use sddf_i2c_driver.Server
use sddf_i2c_driver.Server.{Server, Report, success}
use sddf_i2c_driver.System.Take.{at_transport}
use sddf_i2c_driver.System.Line.Init.{set_clock, read_clock, set_clock-CanSend}
use sddf_i2c_driver.System.Machine.{
  View, Event, posted, told_driver, interrupt, read_answer, Sendable,
}
use sddf_i2c_driver.System.Machine.Run.{BothRun, events-BothRun}
use sddf_i2c_driver.System.Machine.Start.{waiting_only, init-Inv}
use sddf_i2c_driver.Tests.Data.{base, server₀, driver₀, regs₀}
use sddf_i2c_driver.Tests.Scene.{region}

abbrev started : Driver × Server
started = (
  Driver.init base (at_transport driver₀ (Server.init base server₀).transport),
  Server.init base server₀,
)

abbrev two_wait : View
two_wait = waiting_only (set_clock ∷ read_clock ∷ [])

-- A request is taken up and done, another one is posted meanwhile, the answer is read, the next
-- request meets an error, and then there is an interrupt without work.
abbrev events : List Event
events =
    told_driver
    ∷ posted set_clock
    ∷ interrupt false (record regs₀ { ctl = 0xf20 })
    ∷ read_answer
    ∷ told_driver
    ∷ interrupt true (record regs₀ { ctl = 0xf28 })
    ∷ interrupt false regs₀
    ∷ []

events_ok : All Sendable events
events_ok = (tt, (set_clock-CanSend, (tt, (tt, (tt, (tt, (tt, tt)))))))

events-BothRun_example : BothRun 2 events started two_wait
events-BothRun_example =
    events-BothRun m2 events started two_wait events_ok
      (init-Inv region (omega arith) server₀ driver₀).0
