-- ===== src/System/Machine.antt =====
-- A bus as a machine, event by event: posts, notifications of the driver, interrupts and reads by the
-- server come in any order (allocReqBuf of i2c/i2c-transport.c, checkBuf and i2cirq of
-- i2c/i2c-odroid-c4.c, driverNotify of i2c/i2c.c).
pub mod State
pub mod Moves
pub mod Post
pub mod Announce
pub mod AtWork
pub mod Irq
pub mod Read
pub mod Run
pub mod Account
pub mod Turns
pub mod Order
pub mod Start
use sddf_i2c_driver.Prelude.{
  ℕ, ◌+◌, ◌<◌, ◌≢◌, ◌≡◌, ◌⊎◌, Bool, true, false, Option, none, some, List, [], ◌∷◌, ◌++◌, length,
  if◌then◌else◌,
}
use sddf_i2c_driver.Interface.{Interface}
use sddf_i2c_driver.Transport.{Transport, alloc_req_buf, alloc_faults}
use sddf_i2c_driver.Transport.Message.{data_of}
use sddf_i2c_driver.Driver.{Driver, interface, with_interface, check_buf, notified}
use sddf_i2c_driver.Driver.Sent.{Sent}
use sddf_i2c_driver.Server.{Server, Report, drain}
use sddf_i2c_driver.System.Take.{at_transport}
use sddf_i2c_driver.System.Answer.{fault}
use sddf_i2c_driver.System.Served.{irq_of}
use sddf_i2c_driver.System.Session.{answer}
use sddf_i2c_driver.System.Steps.{at_server}
use sddf_i2c_driver.System.Line.{Request, CanSend}

-- A request at work, with the tokens and the data that are left to send.
pub record Task : Type 0 where
  pub request : Request
  pub toks : List ℕ
  pub bytes : List ℕ

-- The requests that wait, the one at work, whether another one was announced meanwhile, and the
-- answers that the server has not read.
pub record View : Type 0 where
  pub waiting : List Request
  pub work : Option Task
  pub announced : Bool
  pub answers : List Report

pub data Event : Type 0 where
  posted : Request → Event
  told_driver : Event
  interrupt : Bool → Interface → Event
  read_answer : Event

-- What an event lets out: whether a request found a buffer, a part of a request to an address, or a
-- report.
pub data Output : Type 0 where
  silent : Output
  queued : Request → Output
  refused : Request → Output
  sends : (addr : ℕ) (toks bytes : List ℕ) → Output
  tells : Report → Output

abbrev pub busy : Option Task → ℕ
busy none = 0
busy (some j) = 1

-- The request at work ends with an interrupt: it brings an error, or nothing is left to send.
abbrev pub LastOne : Bool → Interface → Task → Type 0
LastOne timeout r j = (fault timeout r ≢ 0) ⊎ ((j.toks ≡ []) × (j.bytes ≡ []))

-- The machine by itself. It faults where no state is left.
pub data Reacts (bus : ℕ) : Event → View → Option (Output × View) → Type 0 where
  joins :
      (r : Request) (w : View)
      → busy w.work + length w.waiting ≢ 511
      → Reacts bus (posted r) w (some (queued r, record w { waiting = w.waiting ++ r ∷ [] }))
  dropped :
      (r : Request) (w : View)
      → busy w.work + length w.waiting ≡ 511
      → Reacts bus (posted r) w (some (refused r, w))
  nobody_waits :
      (w : View)
      → w.waiting ≡ []
      → Reacts bus told_driver w (some (silent, record w { announced = false }))
  noted :
      (w : View) (r : Request) (rest : List Request) (j : Task)
      → w.waiting ≡ r ∷ rest
      → w.work ≡ some j
      → Reacts bus told_driver w (some (silent, record w { announced = true }))
  taken :
      (w : View) (r : Request) (rest : List Request) (now left now_bytes left_bytes : List ℕ)
      → w.waiting ≡ r ∷ rest
      → w.work ≡ none
      → length w.answers < 511
      → r.toks ≡ now ++ left
      → r.bytes ≡ now_bytes ++ left_bytes
      → Reacts bus told_driver w (
          some (
            sends r.addr now now_bytes,
            record {
              waiting = rest;
              work = some (record { request = r; toks = left; bytes = left_bytes });
              announced = false;
              answers = w.answers;
            },
          ))
  starved :
      (w : View) (r : Request) (rest : List Request)
      → w.waiting ≡ r ∷ rest
      → w.work ≡ none
      → length w.answers ≡ 511
      → Reacts bus told_driver w none
  spurious :
      (w : View) (timeout : Bool) (r : Interface)
      → w.work ≡ none
      → Reacts bus (interrupt timeout r) w none
  overrun :
      (w : View) (timeout : Bool) (r : Interface) (j : Task)
      → w.work ≡ some j
      → w.announced ≡ true
      → LastOne timeout r j
      → Reacts bus (interrupt timeout r) w none
  ends :
      (w : View) (timeout : Bool) (r : Interface) (j : Task)
      → w.work ≡ some j
      → w.announced ≡ false
      → LastOne timeout r j
      → Reacts bus (interrupt timeout r) w (
          some (
            silent,
            record w {
              work = none;
              answers =
                  w.answers ++ answer bus (fault timeout r) j.request.client j.request.addr ∷ [];
            },
          ))
  goes_on :
      (w : View) (timeout : Bool) (r : Interface) (j : Task)
      (now left now_bytes left_bytes : List ℕ)
      → w.work ≡ some j
      → fault timeout r ≡ 0
      → j.toks ≢ []
      → 0 < length now + length now_bytes
      → j.toks ≡ now ++ left
      → j.bytes ≡ now_bytes ++ left_bytes
      → Reacts bus (interrupt timeout r) w (
          some (
            sends j.request.addr now now_bytes,
            record w { work = some (record j { toks = left; bytes = left_bytes }) },
          ))
  unread :
      (w : View) (a : Report) (rest : List Report)
      → w.answers ≡ a ∷ rest
      → Reacts bus read_answer w (some (tells a, record w { answers = rest }))
  nothing_unread : (w : View) → w.answers ≡ [] → Reacts bus read_answer w (some (silent, w))

-- allocReqBuf, with the address of the buffer or NULL.
abbrev pub post : ℕ → Request → Driver → ℕ × Transport
post bus r s = alloc_req_buf s.transport bus (length r.message) (data_of r.message) r.client r.addr

-- What the programs do for an event; none where they go through NULL.
abbrev after_driver : Server → Option Driver → Option (List Report × (Driver × Server))
after_driver v none = none
after_driver v (some s) = some ([], (s, v))

abbrev after_server :
    Driver → Option (List Report × Server) → Option (List Report × (Driver × Server))
after_server s none = none
after_server s (some (out, v)) = some (out, (at_transport s v.transport, v))

abbrev pub handles : ℕ → Event → Driver × Server → Option (List Report × (Driver × Server))
handles bus (posted r) (s, v) =
    if alloc_faults s.transport bus (length r.message)
    then none
    else some ([], (at_transport s (post bus r s).1, v))
handles bus told_driver (s, v) = after_driver v (check_buf bus s)
handles bus (interrupt timeout r) (s, v) =
    after_driver v (notified (irq_of bus timeout) (with_interface bus r s))
handles bus read_answer (s, v) = after_server s (drain bus (at_server v s))

-- The reports of an output, and how it shows: in what allocReqBuf returns, or in the registers, from
-- those before on.
abbrev pub reports_of : Output → List Report
reports_of silent = []
reports_of (queued r) = []
reports_of (refused r) = []
reports_of (sends addr toks bytes) = []
reports_of (tells a) = a ∷ []

abbrev before : ℕ → Event → Driver → Interface
before bus (interrupt timeout r) s = r
before bus (posted r) s = interface bus s
before bus told_driver s = interface bus s
before bus read_answer s = interface bus s

abbrev pub Shown : ℕ → Event → Driver → Driver → Output → Type 0
Shown bus e s s' (sends addr toks bytes) = Sent (before bus e s) (interface bus s') addr toks bytes
Shown bus e s s' silent = Unit {0}
Shown bus e s s' (queued r) = (post bus r s).0 ≢ 0
Shown bus e s s' (refused r) = (post bus r s).0 ≡ 0
Shown bus e s s' (tells a) = Unit {0}

-- Whatever is posted can be sent.
abbrev pub Sendable : Event → Type 0
Sendable (posted r) = CanSend r
Sendable told_driver = Unit {0}
Sendable (interrupt timeout r) = Unit {0}
Sendable read_answer = Unit {0}

-- A run of the machine: it stops where it faults.
pub data MachineRun (bus : ℕ) : List Event → View → List Output → Option View → Type 0 where
  machine_over : {w : View} → MachineRun bus [] w [] (some w)
  machine_faults :
      {e : Event} {es : List Event} {w : View}
      → Reacts bus e w none
      → MachineRun bus (e ∷ es) w [] none
  machine_next :
      {e : Event} {es : List Event} {w w' : View} {out : Output} {outs : List Output}
      {end : Option View}
      → Reacts bus e w (some (out, w'))
      → MachineRun bus es w' outs end
      → MachineRun bus (e ∷ es) w (out ∷ outs) end

-- A run of the programs, with what it lets out.
pub data ProgramRun (bus : ℕ)
    : List Event → Driver × Server → List Output → Option (Driver × Server) → Type 0 where
  program_over : {x : Driver × Server} → ProgramRun bus [] x [] (some x)
  program_faults :
      {e : Event} {es : List Event} {x : Driver × Server}
      → handles bus e x ≡ none
      → ProgramRun bus (e ∷ es) x [] none
  program_next :
      {e : Event} {es : List Event} {x y : Driver × Server} {out : Output} {outs : List Output}
      {end : Option (Driver × Server)}
      → handles bus e x ≡ some (reports_of out, y)
      → Shown bus e x.0 y.0 out
      → ProgramRun bus es y outs end
      → ProgramRun bus (e ∷ es) x (out ∷ outs) end
