-- ===== src/System/Machine/Start.antt =====
-- Both buses after the start of the two programs (init of i2c/i2c.c and of i2c/i2c-odroid-c4.c) are in a
-- state of the machine.
use sddf_i2c_driver.Prelude.{ℕ, ◌+◌, ◌^◌, ◌<◌, ◌≡◌, refl, false, List, [], ◌∷◌, none, arith}
use sddf_i2c_driver.Driver
use sddf_i2c_driver.Driver.{Driver}
use sddf_i2c_driver.Server
use sddf_i2c_driver.Server.{Server}
use sddf_i2c_driver.System.Take.{at_transport}
use sddf_i2c_driver.System.Start.{Region}
use sddf_i2c_driver.System.Line.{Request}
use sddf_i2c_driver.System.Line.Waits.{Waits}
use sddf_i2c_driver.System.Line.Init.{set_clock, read_clock, init-Rests}
use sddf_i2c_driver.System.Machine.{View}
use sddf_i2c_driver.System.Machine.State.{Inv}

-- Requests wait, and nothing has happened yet.
abbrev pub waiting_only : List Request → View
waiting_only r = record { waiting = r; work = none; announced = false; answers = [] }

-- The requests of a line wait on a bus that has nothing at work.
Waits-Inv :
    {bus : ℕ} (s : Driver) {r : List Request}
    → (s.if_state bus).current_ret ≡ 0
    → (s.if_state bus).notified ≡ false
    → Waits bus s r
    → Inv bus s (waiting_only r)
Waits-Inv s z f k = record {
  items = k.items;
  free = k.free;
  tolds = [];
  spare = k.spare;
  requests = k.requests;
  reports = refl;
  req_rings = k.req_rings;
  ret_rings = k.ret_rings;
  flag = f;
  works = (k.idle, z);
  all_reqs = omega (arith, k.all_reqs);
  all_rets = omega (arith, k.all_rets);
  held = k.held;
  told = tt;
  bufs = k.bufs;
}

-- On bus 2 the two requests of testds3231 wait, on bus 3 nobody.
pub init-Inv :
    {base : ℕ} (r : Region base) (space : base + 2 ^ 32 < 2 ^ 64) (v : Server) (d : Driver)
    → Inv 2
        (Driver.init base (at_transport d (Server.init base v).transport))
        (waiting_only (set_clock ∷ read_clock ∷ []))
      × Inv 3 (Driver.init base (at_transport d (Server.init base v).transport)) (waiting_only [])
unfolding Driver.init
init-Inv {base} r space v d =
    let k = init-Rests r space v d in
    let s = Driver.init base (at_transport d (Server.init base v).transport) in
    (Waits-Inv s refl refl k.bus2, Waits-Inv s refl refl k.bus3)
