-- ===== src/System/Line/Program.antt =====
-- Any sequence of requests of the test functions (i2c/i2c.c) and of notifications of the driver
-- (i2c/i2c-odroid-c4.c), by the handlers of the whole programs.
use sddf_i2c_driver.Prelude.{length, ℕ, subst, List, [], ◌∷◌, All}
use sddf_i2c_driver.Driver.{Driver, server_notify_id}
use sddf_i2c_driver.Server.{Server, driver_notify_id}
use sddf_i2c_driver.System.Steps.{Pools, NoNull}
use sddf_i2c_driver.System.Session.{NoErrors}
use sddf_i2c_driver.System.Served.{Interrupts, Served, ends, batch, irq_of}
use sddf_i2c_driver.System.Line.{
  Comes, LineStep, nobody_waits, served_first, Request, CanSend, Op, post, serve, Programs, Does,
  posts, finds_none, serves, DoesAll, Outcome, succeeds, line_step, line_run,
}
use sddf_i2c_driver.Transport.Lens.{m2}
use sddf_i2c_driver.System.Line.Post.{Waits-alloc_faults}
use sddf_i2c_driver.System.Line.Turn.{Waits-Turn}
use sddf_i2c_driver.System.Line.Run.{Sendable, DoneStep, post-LineStep, steps-DoesAll}
use sddf_i2c_driver.System.Line
use sddf_i2c_driver.System.Steps.{Steps, start, next, driver, server, request, hardware}
use sddf_i2c_driver.System.Line.{over}
use sddf_i2c_driver.System.Line.Whole.{whole}
use sddf_i2c_driver.System.Line.Round.{Rests, post-Rests, nobody-Front, turn-Front}

-- What the line's operations do, the steps of the system can do.
Steps-trans : {x y z : Driver × Server} → Steps x y → Steps y z → Steps x z
Steps-trans h start = h
Steps-trans h (next k l) = next (Steps-trans h k) l

Served-Steps :
    {to n : ℕ} {hw : Interrupts} {toks bytes : List ℕ} {s t : Driver} {v : Server}
    → Served 2 to n hw toks bytes s t
    → Steps (s, v) (t, v)
Served-Steps {hw = hw} (ends e) =
    next (next start (hardware 2 (hw 0).1)) (driver (irq_of 2 (hw 0).0) e)
Served-Steps {hw = hw} (batch e sent served) =
    Steps-trans (next (next start (hardware 2 (hw 0).1)) (driver (irq_of 2 (hw 0).0) e))
      (Served-Steps served)

Does-Steps :
    {hw : Interrupts} {o : Op} {out : List Outcome} {x y : Driver × Server}
    → Does whole 2 hw o x out y
    → Steps x y
Does-Steps (posts r x e) = next start (request r.message r.client r.addr e)
Does-Steps (finds_none s' v' e f) =
    next (next start (driver server_notify_id e)) (server driver_notify_id f)
Does-Steps (serves s' u v' o n now rest now_bytes rest_bytes e sent served least most p q f) =
    next (Steps-trans (next start (driver server_notify_id e)) (Served-Steps served))
      (server driver_notify_id f)

DoesAll-Steps :
    {hw : ℕ → Interrupts} {os : List Op} {outs : List Outcome} {x y : Driver × Server}
    → DoesAll whole 2 hw os x outs y
    → Steps x y
DoesAll-Steps over = start
DoesAll-Steps (Line.next d ds) = Steps-trans (Does-Steps d) (DoesAll-Steps ds)

module _ {g : Pools} (z : NoNull g) where
  step-DoneStep :
      (hw : Interrupts) (o : Op) (x : Driver × Server) (w : List Request)
      → Sendable o
      → Rests g x w
      → DoneStep whole 2 (Rests g) hw o x w
  step-DoneStep hw (post r) x w can k = (
    [],
    (line_step 2 (post r) w).1,
    post-LineStep 2 hw r w,
    (
      whole.on_post r x,
      posts r x (Waits-alloc_faults m2 x.0 (length r.message) k.bus2),
      post-Rests z x w r can k,
    ),
  )
  step-DoneStep hw serve (s, v) [] can k = ([], [], nobody_waits, nobody-Front z hw s v k)
  step-DoneStep hw serve (s, v) (r ∷ w) can k =
      let (t, same) = Waits-Turn s k.bus2 in
      let (o, comes, front) = turn-Front z hw s v k t in
      (o ∷ [], w, served_first o (subst (λ i. Comes 2 hw i o) same comes), front)

  -- The two programs serve the requests on bus 2 as a line does, first come, first served, with
  -- 511 places. Where the requests of a line wait on bus 2, each in a buffer of its own, nobody
  -- waits on bus 3 and both buses keep their books, any sequence of requests of the test functions
  -- and of notifications of the driver gives, by the handlers `notified` of both programs, what
  -- the line gives: a request joins the end of the line, and is dropped when 511 wait; a
  -- notification with nobody in line does and reports nothing; and any other one has the tokens
  -- and the data of the first request loaded, all of them and in order, and has its
  -- success reported for its client. The run is one of steps of the system. The requests are
  -- messages that the driver can send, no interrupt reports an error, and no pool has a buffer at
  -- NULL.
  pub programs-DoesAll :
      (hw : ℕ → Interrupts) (os : List Op) (x : Driver × Server) (w : List Request)
      → ((i : ℕ) → NoErrors (hw i))
      → All Sendable os
      → Rests g x w
      → (y : Driver × Server) × DoesAll whole 2 hw os x (line_run 2 os w).0 y
        × Steps x y
        × Rests g y (line_run 2 os w).1
  programs-DoesAll hw os x w quiet can k =
      let (y, d, l) = steps-DoesAll whole 2 (Rests g) step-DoneStep hw os x w quiet can k in
      (y, d, DoesAll-Steps d, l)
