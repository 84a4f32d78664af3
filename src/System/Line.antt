-- ===== src/System/Line.antt =====
-- The requests that wait on a bus, seen as a line: the server (allocReqBuf, i2c/i2c-transport.c, and
-- driverNotify, i2c/i2c.c) posts to its end, and the driver (checkBuf and i2cirq,
-- i2c/i2c-odroid-c4.c) serves it from the front.
pub mod Bufs
pub mod Waits
pub mod Post
pub mod Turn
pub mod Fate
pub mod Serve
pub mod Quiet
pub mod Run
pub mod Whole
pub mod Round
pub mod Program
pub mod Shares
pub mod Init
use sddf_i2c_driver.Prelude.{
  ℕ, ◌+◌, ◌≤◌, ◌<◌, ◌≢◌, ◌≡◌, Bool, false, Option, some, List, [], ◌∷◌, ◌++◌, length, ◌==◌,
  if◌then◌else◌,
}
use sddf_i2c_driver.Transport.{Transport, alloc_req_buf, alloc_faults}
use sddf_i2c_driver.Transport.Message.{data_of}
use sddf_i2c_driver.Driver.{Driver, interface, check_buf}
use sddf_i2c_driver.Driver.Sent.{Sent}
use sddf_i2c_driver.Server.{Server, Report, success, failure, drain}
use sddf_i2c_driver.System.Take.{at_transport}
use sddf_i2c_driver.System.Delivery.{IsMessage}
use sddf_i2c_driver.System.Served.{Interrupts, Served, fault_at}
use sddf_i2c_driver.System.Steps.{at_server}

-- A message for the device at `addr`, with the tokens and the data that it stands for.
pub record Request : Type 0 where
  pub message : List ℕ
  pub toks : List ℕ
  pub bytes : List ℕ
  pub client : ℕ
  pub addr : ℕ

-- The driver can send it, whatever the direction that the last message has left.
abbrev pub CanSend : Request → Type 0
CanSend r = (ddr : Bool) → IsMessage ddr r.message r.toks r.bytes r.client r.addr

-- What is done on a bus: a request is posted, or the driver is notified and serves.
pub data Op : Type 0 where
  post : Request → Op
  serve : Op

-- What a request comes to: the tokens and the data sent to an address, how many interrupts it takes, at
-- least and at most, and what the server reports.
pub record Outcome : Type 0 where
  pub addr : ℕ
  pub toks : List ℕ
  pub bytes : List ℕ
  pub least : ℕ
  pub most : ℕ
  pub reports : List Report

abbrev pub succeeds : ℕ → Request → Outcome
succeeds bus r = record {
  addr = r.addr;
  toks = r.toks;
  bytes = r.bytes;
  least = 1;
  most = 1 + length r.message;
  reports = success bus r.client r.addr ∷ [];
}

-- The request breaks off with the error `err` in the interrupt after `n` others, once the tokens `toks`
-- and the data `bytes` are sent.
abbrev pub fails : (bus err n : ℕ) → Request → (toks bytes : List ℕ) → Outcome
fails bus err n r toks bytes = record {
  addr = r.addr;
  toks = toks;
  bytes = bytes;
  least = 1 + n;
  most = 1 + n;
  reports = failure err bus r.client r.addr ∷ [];
}

-- What the request comes to by the interrupts `hw`: it succeeds if they bring no error while it is
-- served, at most one for each byte of its message and one more, and the first error breaks it off.
pub data Comes (bus : ℕ) (hw : Interrupts) (r : Request) : Outcome → Type 0 where
  unbroken :
      (n : ℕ)
      → n ≤ length r.message
      → ((i : ℕ) → i ≤ n → fault_at hw i ≡ 0)
      → Comes bus hw r (succeeds bus r)
  broken :
      (n : ℕ) (toks rest bytes rest_bytes : List ℕ)
      → n ≤ length r.message
      → ((i : ℕ) → i < n → fault_at hw i ≡ 0)
      → fault_at hw n ≢ 0
      → r.toks ≡ toks ++ rest
      → r.bytes ≡ bytes ++ rest_bytes
      → Comes bus hw r (fails bus (fault_at hw n) n r toks bytes)

-- The line by itself, with 511 places: it is served first come, first served, whatever the
-- interrupts are.
pub data LineStep (bus : ℕ) (hw : Interrupts)
    : Op → List Request → List Outcome → List Request → Type 0 where
  joins :
      (r : Request) {w : List Request}
      → length w ≢ 511
      → LineStep bus hw (post r) w [] (w ++ r ∷ [])
  dropped : (r : Request) {w : List Request} → length w ≡ 511 → LineStep bus hw (post r) w [] w
  nobody_waits : LineStep bus hw serve [] [] []
  served_first :
      {r : Request} {w : List Request} (o : Outcome)
      → Comes bus hw r o
      → LineStep bus hw serve (r ∷ w) (o ∷ []) w

pub data LineRun (bus : ℕ)
    : (ℕ → Interrupts) → List Op → List Request → List Outcome → List Request → Type 0 where
  run_over : {hw : ℕ → Interrupts} {w : List Request} → LineRun bus hw [] w [] w
  run_next :
      {hw : ℕ → Interrupts} {o : Op} {os : List Op} {out outs : List Outcome}
      {w w' w'' : List Request}
      → LineStep bus (hw 0) o w out w'
      → LineRun bus (λ i. hw (i + 1)) os w' outs w''
      → LineRun bus hw (o ∷ os) w (out ++ outs) w''

-- The same as a function, for interrupts without an error: every request succeeds.
unfoldable pub line_step : ℕ → Op → List Request → List Outcome × List Request
line_step bus (post r) w = if length w == 511 then ([], w) else ([], w ++ r ∷ [])
line_step bus serve [] = ([], [])
line_step bus serve (r ∷ w) = (succeeds bus r ∷ [], w)

unfoldable pub line_run : ℕ → List Op → List Request → List Outcome × List Request
line_run bus [] w = ([], w)
line_run bus (o ∷ os) w =
    let (out, w') = line_step bus o w in let (outs, w'') = line_run bus os w' in (out ++ outs, w'')

-- What the two programs do: a post, unless it goes through NULL, the driver's notification and the server's.
pub record Programs : Type 0 where
  pub post_faults : Request → Driver × Server → Bool
  pub on_post : Request → Driver × Server → Driver × Server
  pub on_driver : Driver → Option Driver
  pub on_server : Server → Option (List Report × Server)

-- On one bus by itself: allocReqBuf, checkBuf, and a round of driverNotify.
abbrev pub one_bus : ℕ → Programs
one_bus bus = record {
  post_faults = λ r x. alloc_faults x.0.transport bus (length r.message);
  on_post = λ r x. (
    at_transport x.0
        (alloc_req_buf x.0.transport bus (length r.message) (data_of r.message) r.client r.addr).1,
    x.1,
  );
  on_driver = check_buf bus;
  on_server = drain bus;
}

-- What they do for an operation, with the interrupts `hw` to come.
pub data Does (p : Programs) (bus : ℕ) (hw : Interrupts)
    : Op → Driver × Server → List Outcome → Driver × Server → Type 0 where
  posts :
      (r : Request) (x : Driver × Server)
      → p.post_faults r x ≡ false
      → Does p bus hw (post r) x [] (p.on_post r x)
  finds_none :
      {s : Driver} {v : Server} (s' : Driver) (v' : Server)
      → p.on_driver s ≡ some s'
      → p.on_server (at_server v s') ≡ some ([], v')
      → Does p bus hw serve (s, v) [] (at_transport s' v'.transport, v')
  serves :
      {s : Driver} {v : Server} (s' u : Driver) (v' : Server) (o : Outcome) (n : ℕ)
      (now rest now_bytes rest_bytes : List ℕ)
      → p.on_driver s ≡ some s'
      → Sent (interface bus s) (interface bus s') o.addr now now_bytes
      → Served bus o.addr n hw rest rest_bytes s' u
      → o.least ≤ n
      → n ≤ o.most
      → o.toks ≡ now ++ rest
      → o.bytes ≡ now_bytes ++ rest_bytes
      → p.on_server (at_server v u) ≡ some (o.reports, v')
      → Does p bus hw serve (s, v) (o ∷ []) (at_transport u v'.transport, v')

-- A run of operations, each with its interrupts.
pub data DoesAll (p : Programs) (bus : ℕ)
    : (ℕ → Interrupts) → List Op → Driver × Server → List Outcome → Driver × Server → Type 0 where
  over : {hw : ℕ → Interrupts} {x : Driver × Server} → DoesAll p bus hw [] x [] x
  next :
      {hw : ℕ → Interrupts} {o : Op} {os : List Op} {out outs : List Outcome}
      {x y z : Driver × Server}
      → Does p bus (hw 0) o x out y
      → DoesAll p bus (λ i. hw (i + 1)) os y outs z
      → DoesAll p bus hw (o ∷ os) x (out ++ outs) z
