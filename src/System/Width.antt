-- ===== src/System/Width.antt =====
-- Registers of 32 bits and memory of bytes, over the steps of both programs (i2c/i2c-odroid-c4.c and
-- i2c/i2c.c).
use sddf_i2c_driver.Prelude.{
  ℕ, ◌≡◌, refl, ◌∙◌, Option, none, some, List, ◌++◌, if-both, ◌==◌, length, get_or,
}
use sddf_i2c_driver.Transport.{Transport, pop_ret_buf, ret_buf_empty}
use sddf_i2c_driver.Transport.Octets.{
  Octets, pop_ret_buf-mem, release_ret_buf-mem, alloc_req_buf-Octets,
}
use sddf_i2c_driver.Interface.Width.{Fit32}
use sddf_i2c_driver.Driver.{Driver}
use sddf_i2c_driver.Driver.Width.{InWidth, with_interface-InWidth}
use sddf_i2c_driver.Driver.Width.Handlers.{notified-InWidth}
use sddf_i2c_driver.Server
use sddf_i2c_driver.Server.{Server, Report, driver_notify_id, drain, driver_notify, submit}
use sddf_i2c_driver.System.Take.{at_transport}
use sddf_i2c_driver.System.Steps.{
  Steps, start, next, driver, server, request, hardware, at_server, submit-transport,
}

-- If the server's handler returns, the memory is what it was.
abbrev SameMem : Server → Option (List Report × Server) → Type 0
SameMem s none = Unit {0}
SameMem s (some x) = x.1.transport.mem ≡ s.transport.mem

drain-SameMem : (bus : ℕ) (s : Server) → SameMem s (drain bus s)
unfolding drain
drain-SameMem bus s =
    let p = pop_ret_buf s.transport bus 0 in
    if-both (SameMem s) (ret_buf_empty s.transport bus) _ _ refl (
      if-both (SameMem s) (p.0 == 0) _ _ tt
        (release_ret_buf-mem p.2 bus p.0 ∙ pop_ret_buf-mem s.transport bus 0))

driver_notify-SameMem : (s : Server) → SameMem s (driver_notify s)
unfolding driver_notify
driver_notify-SameMem s = first (drain 2 s) (drain-SameMem 2 s)
  where
    second :
        (out : List Report) (s' : Server) (o : Option (List Report × Server))
        → SameMem s' o
        → s'.transport.mem ≡ s.transport.mem
        → SameMem s (elim o as (λ x. Option (List Report × Server)) [
          | none ↦ none
          | some (out', s'') ↦ some (out ++ out', s'')
        ])
    second out s' none h e = tt
    second out s' (some x) h e = h ∙ e

    first :
        (o : Option (List Report × Server))
        → SameMem s o
        → SameMem s (elim o as (λ x. Option (List Report × Server)) [
          | none ↦ none
          | some (out, s') ↦ elim (drain 3 s') [
            | none ↦ none
            | some (out', s'') ↦ some (out ++ out', s'')
          ]
        ])
    first none h = tt
    first (some (out, s')) h = second out s' (drain 3 s') (drain-SameMem 3 s') h

notified-SameMem : (c : ℕ) (s : Server) → SameMem s (Server.notified c s)
unfolding Server.notified
notified-SameMem c s =
    if-both (SameMem s) (c == driver_notify_id) _ _ (driver_notify-SameMem s) refl

at_transport-InWidth :
    (s : Driver) (t : Transport) → Octets t.mem → InWidth s → InWidth (at_transport s t)
at_transport-InWidth s t o k = record { octets = o; m2 = k.m2; m3 = k.m3 }

-- The hardware leaves words of 32 bits in the registers, in every step of the run.
abbrev pub Wide : {x y : Driver × Server} → Steps x y → Type 0
Wide start = Unit {0}
Wide (next k (hardware bus r)) = Fit32 r × Wide k
Wide (next k (driver c e)) = Wide k
Wide (next k (server c e)) = Wide k
Wide (next k (request bytes cid addr e)) = Wide k

server-InWidth :
    (c : ℕ) (s : Driver) (v v' : Server) (out : List Report)
    → Server.notified c (at_server v s) ≡ some (out, v')
    → InWidth s
    → InWidth (at_transport s v'.transport)
server-InWidth c s v v' out e k =
    let same : v'.transport.mem ≡ s.transport.mem = rw e at (notified-SameMem c (at_server v s)) in
    at_transport-InWidth s v'.transport (rw same k.octets) k

request-InWidth :
    (bytes : List ℕ) (cid addr : ℕ) (s : Driver) (v : Server)
    → InWidth s
    → InWidth (at_transport s (submit bytes cid addr (at_server v s)).1.transport)
request-InWidth bytes cid addr s v k =
    let o =
      alloc_req_buf-Octets s.transport 2 (length bytes) (λ j. get_or bytes j 0) cid addr k.octets in
    rw (submit-transport bytes cid addr (at_server v s)) (at_transport-InWidth s _ o k)

-- Over any number of steps of the system, the values keep to the types of C that hold them: where
-- the registers of both masters are words of 32 bits and the shared memory holds bytes, this is so
-- in every state that is reached by notifications of the driver and the server that return, by
-- requests of the test functions, whatever their bytes, client and address, and by changes of
-- registers in which the hardware leaves words of 32 bits.
pub Steps-InWidth : {x y : Driver × Server} (k : Steps x y) → Wide k → InWidth x.0 → InWidth y.0
Steps-InWidth start w k = k
Steps-InWidth (next h (hardware bus r {s = s})) w k =
    with_interface-InWidth bus r s w.0 (Steps-InWidth h w.1 k)
Steps-InWidth (next h (driver c {s = s} {s' = s'} e)) w k =
    notified-InWidth c s s' (Steps-InWidth h w k) e
Steps-InWidth (next h (server c {s = s} {v = v} {v' = v'} {out = out} e)) w k =
    server-InWidth c s v v' out e (Steps-InWidth h w k)
Steps-InWidth (next h (request bytes cid addr {s = s} {v = v} e)) w k =
    request-InWidth bytes cid addr s v (Steps-InWidth h w k)
