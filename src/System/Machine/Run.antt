-- ===== src/System/Machine/Run.antt =====
-- Any sequence of events on a bus: the programs (i2c/i2c-transport.c, i2c/i2c-odroid-c4.c, i2c/i2c.c) do
-- as the machine does, and the requests are answered in order.
use sddf_i2c_driver.Prelude.{ℕ, List, [], ◌∷◌, All, Option, none, some}
use sddf_i2c_driver.Transport.Lens.{IsBus}
use sddf_i2c_driver.Driver.{Driver}
use sddf_i2c_driver.Server.{Server}
use sddf_i2c_driver.System.Machine.{
  View, Event, posted, told_driver, interrupt, read_answer, Output, Reacts, Sendable, MachineRun,
  machine_over, machine_faults, machine_next, ProgramRun, program_over, program_faults,
  program_next,
}
use sddf_i2c_driver.System.Machine.State.{Inv, Step, Agrees, faults, works}
use sddf_i2c_driver.System.Machine.Post.{post-Step}
use sddf_i2c_driver.System.Machine.Announce.{told_driver-Step}
use sddf_i2c_driver.System.Machine.Irq.{interrupt-Step}
use sddf_i2c_driver.System.Machine.Read.{read_answer-Step}

-- Both end in a fault, or both in a state, that of the machine standing for that of the programs.
abbrev pub SameEnd : ℕ → Option (Driver × Server) → Option View → Type 0
SameEnd bus none none = Unit {0}
SameEnd bus (some x) (some w) = Inv bus x.0 w
SameEnd bus none (some w) = ⊥
SameEnd bus (some x) none = ⊥

-- A run of the programs and one of the machine with the same outputs and the same end.
pub record BothRun (bus : ℕ) (es : List Event) (x : Driver × Server) (w : View) : Type 0 where
  pub outs : List Output
  pub end : Option (Driver × Server)
  pub view : Option View
  pub machine : MachineRun bus es w outs view
  pub program : ProgramRun bus es x outs end
  pub same : SameEnd bus end view

module _ {bus : ℕ} (b : IsBus bus) where
  event-Step :
      (e : Event) (x : Driver × Server) (w : View) → Sendable e → Inv bus x.0 w → Step bus e x w
  event-Step (posted r) (s, v) w can k = post-Step b s v k r can
  event-Step told_driver (s, v) w can k = told_driver-Step b s v k
  event-Step (interrupt timeout r) (s, v) w can k = interrupt-Step b s v k timeout r
  event-Step read_answer (s, v) w can k = read_answer-Step b s v k

  -- An event, and then the run from the state it leads to.
  next-BothRun :
      (e : Event) (es : List Event) (x : Driver × Server) (w : View) (res : Option (Output × View))
      → Reacts bus e w res
      → Agrees bus e x res
      → ((y : Driver × Server) (w' : View) → Inv bus y.0 w' → BothRun bus es y w')
      → BothRun bus (e ∷ es) x w
  next-BothRun e es x w none reacts (faults f) rest = record {
    outs = [];
    end = none;
    view = none;
    machine = machine_faults reacts;
    program = program_faults f;
    same = tt;
  }
  next-BothRun e es x w (some p) reacts (works y out w' f shown inv) rest =
      let r = rest y w' inv in
      record {
        outs = out ∷ r.outs;
        end = r.end;
        view = r.view;
        machine = machine_next reacts r.machine;
        program = program_next f shown r.program;
        same = r.same;
      }

  -- A bus does as its machine does, event by event and in any order: posts by `allocReqBuf`,
  -- notifications of the driver (`checkBuf`), interrupts with any registers by the handler
  -- `notified` of the driver, and rounds of `driverNotify`. From a state that the machine's view
  -- describes, any sequence of events gives a run of the programs and one of the machine with the
  -- same outputs, and both fault at the same event or both end, with the view describing the
  -- state. The machine refuses a request if 511 wait or are at work, and lets it wait otherwise. A
  -- notification with requests waiting has the first one taken up and its first part sent, or is
  -- noted if one is at work; with none waiting it takes the note back. An interrupt without an
  -- error has the next part sent, which is not empty; with an error, or with nothing left, it ends
  -- the request with an answer. Answers are read in order. There are three faults: an interrupt
  -- without work, the end of a request with a notification noted, and a request to take up with
  -- 511 answers unread. The requests posted are messages that the driver can send.
  pub events-BothRun :
      (es : List Event) (x : Driver × Server) (w : View)
      → All Sendable es
      → Inv bus x.0 w
      → BothRun bus es x w
  events-BothRun [] x w can k = record {
    outs = [];
    end = some x;
    view = some w;
    machine = machine_over;
    program = program_over;
    same = k;
  }
  events-BothRun (e ∷ es) x w can k =
      let (res, reacts, agrees) = event-Step e x w can.0 k in
      next-BothRun e es x w res reacts agrees (λ y w' l. events-BothRun es y w' can.1 l)
