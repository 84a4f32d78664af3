-- ===== src/Tests/Lines.antt =====
-- The line of requests on bus 2 from the start of the two programs, with three requests to serve.
use sddf_i2c_driver.System.Served.{Interrupts}
use sddf_i2c_driver.Prelude.{ℕ, false, List, refl, [], ◌∷◌, arith}
use sddf_i2c_driver.Driver
use sddf_i2c_driver.Driver.{Driver}
use sddf_i2c_driver.Server
use sddf_i2c_driver.Server.{Server}
use sddf_i2c_driver.System.Take.{at_transport}
use sddf_i2c_driver.System.Line.{Op, post, serve, succeeds, DoesAll}
use sddf_i2c_driver.System.Line.Init.{set_clock, read_clock, init-Rests, init-DoesAll}
use sddf_i2c_driver.System.Start.{pools}
use sddf_i2c_driver.System.Steps.{Steps}
use sddf_i2c_driver.System.Line.Whole.{whole}
use sddf_i2c_driver.System.Line.Round.{Rests}
use sddf_i2c_driver.Tests.Data.{base, server₀, driver₀, quiet, regs₀}
use sddf_i2c_driver.Tests.Scene.{region}

abbrev started : Driver
started = Driver.init base (at_transport driver₀ (Server.init base server₀).transport)

abbrev server : Server
server = Server.init base server₀

init-Rests_example : Rests (pools base) (started, server) (set_clock ∷ read_clock ∷ [])
init-Rests_example = init-Rests region (omega arith) server₀ driver₀

init-DoesAll_example :
    (y : Driver × Server) × DoesAll whole 2
      (λ i. quiet)
      (serve ∷ serve ∷ [])
      (started, server)
      (succeeds 2 set_clock ∷ succeeds 2 read_clock ∷ [])
      y
    × Steps (started, server) y
    × Rests (pools base) y []
init-DoesAll_example = init-DoesAll region (omega arith) server₀ driver₀ (λ i. quiet) (λ i j. refl)

abbrev ops : List Op
ops = serve ∷ post set_clock ∷ serve ∷ serve ∷ serve ∷ []

-- Whatever the interrupts are.
abbrev refused : ℕ → Interrupts
refused i k = (false, record regs₀ { ctl = 0xf28 })
