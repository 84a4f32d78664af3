-- ===== src/System/Line/Run.antt =====
-- Any sequence of posts (allocReqBuf, i2c/i2c-transport.c) and of notifications of the driver
-- (checkBuf and i2cirq, i2c/i2c-odroid-c4.c, with driverNotify of i2c/i2c.c) does as the line does.
use sddf_i2c_driver.Prelude.{
  ◌==◌, length, ◌++◌, ap, subst, Bool-cases, eq_of_==, ne_of_==, inl, inr, ℕ, ◌+◌, List, [], ◌∷◌,
  All,
}
use sddf_i2c_driver.Transport.Lens.{IsBus}
use sddf_i2c_driver.Driver.{Driver}
use sddf_i2c_driver.Server.{Server}
use sddf_i2c_driver.System.Session.{NoErrors}
use sddf_i2c_driver.System.Served.{Interrupts}
use sddf_i2c_driver.System.Line.{
  Request, CanSend, Op, post, serve, Programs, one_bus, Does, posts, DoesAll, over, next, line_step,
  line_run, Outcome, LineStep, joins, dropped, LineRun, run_over, run_next,
}
use sddf_i2c_driver.System.Line.Waits.{Waits}
use sddf_i2c_driver.System.Line.Post.{post-Waits, Waits-alloc_faults}
use sddf_i2c_driver.System.Line.Serve.{serve-Does}
use sddf_i2c_driver.System.Line.Quiet.{LineRun-quiet}

-- Whatever is posted can be sent.
abbrev pub Sendable : Op → Type 0
Sendable (post r) = CanSend r
Sendable serve = Unit {0}

-- A post to the line.
pub post-LineStep :
    (bus : ℕ) (hw : Interrupts) (r : Request) (w : List Request)
    → LineStep bus hw (post r) w [] (line_step bus (post r) w).1
unfolding line_step
post-LineStep bus hw r w = elim (Bool-cases (length w == 511)) [
  | inl e ↦ rw e (dropped r (eq_of_== (length w) 511 e))
  | inr e ↦ rw e (joins r (ne_of_== (length w) 511 e))
]

-- What is done for an operation, and for a sequence of them, with what the line does.
abbrev pub DoneStep :
    Programs
    → ℕ
    → (Driver × Server → List Request → Type 0)
    → Interrupts
    → Op
    → Driver × Server
    → List Request
    → Type 0
DoneStep p bus inv hw o x w =
    (out : List Outcome) × (w' : List Request) × LineStep bus hw o w out w'
    × ((y : Driver × Server) × Does p bus hw o x out y × inv y w')

abbrev pub DoneRun :
    Programs
    → ℕ
    → (Driver × Server → List Request → Type 0)
    → (ℕ → Interrupts)
    → List Op
    → Driver × Server
    → List Request
    → Type 0
DoneRun p bus inv hw os x w =
    (outs : List Outcome) × (w' : List Request) × LineRun bus hw os w outs w'
    × ((y : Driver × Server) × DoesAll p bus hw os x outs y × inv y w')

-- The programs do as the line does if they do so for each operation, where `inv` says that the
-- requests of the line wait.
module _ (p : Programs) (bus : ℕ) (inv : Driver × Server → List Request → Type 0)
    (step : (hw : Interrupts) (o : Op) (x : Driver × Server) (w : List Request)
      → Sendable o
      → inv x w
      → DoneStep p bus inv hw o x w) where
  pub steps-DoneRun :
      (hw : ℕ → Interrupts) (os : List Op) (x : Driver × Server) (w : List Request)
      → All Sendable os
      → inv x w
      → DoneRun p bus inv hw os x w
  steps-DoneRun hw [] x w can k = ([], w, run_over, (x, over, k))
  steps-DoneRun hw (o ∷ os) x w can k =
      let (out, w', s, (y, d, l)) = step (hw 0) o x w can.0 k in
      let (outs, w'', ss, (z, ds, m)) = steps-DoneRun (λ i. hw (i + 1)) os y w' can.1 l in
      (out ++ outs, w'', run_next s ss, (z, next d ds, m))

  -- Without errors.
  pub steps-DoesAll :
      (hw : ℕ → Interrupts) (os : List Op) (x : Driver × Server) (w : List Request)
      → ((i : ℕ) → NoErrors (hw i))
      → All Sendable os
      → inv x w
      → (y : Driver × Server) × DoesAll p bus hw os x (line_run bus os w).0 y
        × inv y (line_run bus os w).1
  steps-DoesAll hw os x w quiet can k =
      let (outs, w', l, (y, d, m)) = steps-DoneRun hw os x w can k in
      let e = LineRun-quiet quiet l in
      (
        y,
        subst (λ z. DoesAll p bus hw os x z y) (ap (λ z. z.0) e) d,
        subst (inv y) (ap (λ z. z.1) e) m,
      )

module _ {bus : ℕ} (b : IsBus bus) where
  step-DoneStep :
      (hw : Interrupts) (o : Op) (x : Driver × Server) (w : List Request)
      → Sendable o
      → Waits bus x.0 w
      → DoneStep (one_bus bus) bus (λ y. Waits bus y.0) hw o x w
  step-DoneStep hw (post r) x w can k = (
    [],
    (line_step bus (post r) w).1,
    post-LineStep bus hw r w,
    (
      (one_bus bus).on_post r x,
      posts r x (Waits-alloc_faults b x.0 (length r.message) k),
      post-Waits b x r can k,
    ),
  )
  step-DoneStep hw serve (s, v) w can k = serve-Does b hw s v k

  -- A bus by itself serves its requests as a line does, first come, first served, with 511 places,
  -- whatever errors the interrupts bring. From a state in which the requests of a line wait on an
  -- idle bus, each in a buffer of its own, any sequence of posts, by `allocReqBuf`, and of
  -- notifications, by `checkBuf`, the interrupts and a round of `driverNotify`, gives what the
  -- line gives, and the requests left in the line wait then: a post joins the end of the line, or
  -- is dropped when 511 wait; a notification with nobody in line does and reports nothing; any
  -- other one has the first request sent, as far as the first interrupt with an error, and its
  -- success or failure reported. The requests are messages that the driver can send.
  pub line-DoneRun :
      (hw : ℕ → Interrupts) (os : List Op) (x : Driver × Server) (w : List Request)
      → All Sendable os
      → Waits bus x.0 w
      → DoneRun (one_bus bus) bus (λ y. Waits bus y.0) hw os x w
  line-DoneRun = steps-DoneRun (one_bus bus) bus (λ y. Waits bus y.0) step-DoneStep

  -- A bus serves its requests as a line does, first come, first served, with 511 places. From a
  -- state in which the requests of a line wait on an idle bus, each in a buffer of its own, any
  -- sequence of posts and notifications gives what the line gives: a post joins the end of the
  -- line, and is dropped when 511 requests wait; a notification with nobody in line does and
  -- reports nothing; and any other one has the tokens and the data of the first request loaded,
  -- all of them and in order, and has its success reported for its client. The
  -- requests that are posted are messages that the driver can send, and the interrupts report no
  -- error.
  pub line_run-DoesAll :
      (hw : ℕ → Interrupts) (os : List Op) (x : Driver × Server) (w : List Request)
      → ((i : ℕ) → NoErrors (hw i))
      → All Sendable os
      → Waits bus x.0 w
      → (y : Driver × Server) × DoesAll (one_bus bus) bus hw os x (line_run bus os w).0 y
        × Waits bus y.0 (line_run bus os w).1
  line_run-DoesAll = steps-DoesAll (one_bus bus) bus (λ y. Waits bus y.0) step-DoneStep
