-- ===== src/System/Machine/State.antt =====
-- When a bus is in the state of its machine (i2c/i2c-odroid-c4.c, i2c/i2c-transport.c): where each
-- request and each answer stands.
use sddf_i2c_driver.Prelude.{
  ℕ, ◌+◌, ◌≡◌, Bool, Option, none, some, List, [], ◌∷◌, ◌++◌, map, All, length,
}
use sddf_i2c_driver.Ring.{Desc, desc}
use sddf_i2c_driver.Ring.Handle.{HandleHolds}
use sddf_i2c_driver.Transport.{Memory, req_ring, ret_ring}
use sddf_i2c_driver.Driver.{Driver, IfState}
use sddf_i2c_driver.Driver.Batch.{target}
use sddf_i2c_driver.Server.{Server, Report, report_of}
use sddf_i2c_driver.System.Job.{Working}
use sddf_i2c_driver.System.Line.Bufs.{Bufs}
use sddf_i2c_driver.System.Line.Waits.{Item, desc_of, bufs_of, addrs_of, Held}
use sddf_i2c_driver.System.Machine.{
  Task, View, busy, Event, Output, Reacts, handles, reports_of, Shown,
}

-- An answer in the return buffer `buf`, of which the ring says that it has `len` bytes.
pub record Told : Type 0 where
  pub buf : ℕ
  pub len : ℕ
  pub report : Report

abbrev pub told_desc : Told → Desc
told_desc t = desc t.buf t.len

abbrev pub told_bufs : List Told → List ℕ
told_bufs ts = map (λ t. t.buf) ts

abbrev pub Says : ℕ → Memory → Told → Type 0
Says bus m t = report_of bus t.buf m ≡ t.report

-- The two buffers of the request at work.
abbrev pub cur_reqs : Option Task → IfState → List ℕ
cur_reqs none st = []
cur_reqs (some j) st = st.current_req ∷ []

abbrev pub cur_rets : Option Task → IfState → List ℕ
cur_rets none st = []
cur_rets (some j) st = st.current_ret ∷ []

-- The request `j` is at work: `left` is what the driver has not read of it.
pub record OnTask (bus : ℕ) (s : Driver) (announced : Bool) (free : List Desc) (items : List Item)
    (spare : List Desc) (tolds : List Told) (j : Task) : Type 0 where
  pub left : List ℕ
  pub work :
      Working announced bus s free
        (map desc_of items)
        spare
        (map told_desc tolds)
        left
        j.toks
        j.bytes
  pub to : target (s.if_state bus) s.transport.mem ≡ j.request.addr
  pub at_client : s.transport.mem ((s.if_state bus).current_ret + 2) ≡ j.request.client
  pub at_addr : s.transport.mem ((s.if_state bus).current_ret + 3) ≡ j.request.addr

abbrev pub Works :
    (bus : ℕ) → Driver → Bool → List Desc → List Item → List Desc → List Told → Option Task → Type 0
Works bus s announced free items spare tolds none =
    ((s.if_state bus).current_req ≡ 0) × ((s.if_state bus).current_ret ≡ 0)
Works bus s announced free items spare tolds (some j) =
    OnTask bus s announced free items spare tolds j

pub record Inv (bus : ℕ) (s : Driver) (w : View) : Type 0 where
  pub items : List Item
  pub free : List Desc
  pub tolds : List Told
  pub spare : List Desc
  pub requests : map (λ i. i.request) items ≡ w.waiting
  pub reports : map (λ t. t.report) tolds ≡ w.answers
  pub req_rings : HandleHolds (req_ring bus s.transport) free (map desc_of items)
  pub ret_rings : HandleHolds (ret_ring bus s.transport) spare (map told_desc tolds)
  pub flag : (s.if_state bus).notified ≡ w.announced
  pub works : Works bus s w.announced free items spare tolds w.work
  pub all_reqs : busy w.work + (length items + length free) ≡ 511
  pub all_rets : busy w.work + (length tolds + length spare) ≡ 511
  pub held : All (Held s.transport.mem) items
  pub told : All (Says bus s.transport.mem) tolds
  pub bufs :
      Bufs
        (cur_reqs w.work (s.if_state bus) ++ (bufs_of items ++ addrs_of free))
        (told_bufs tolds ++ (cur_rets w.work (s.if_state bus) ++ addrs_of spare))

-- The programs do as the machine does: they fault, or they report what it tells, show what it sends,
-- and leave the bus in its next state.
pub data Agrees (bus : ℕ) (e : Event) (x : Driver × Server) : Option (Output × View) → Type 0 where
  faults : handles bus e x ≡ none → Agrees bus e x none
  works :
      (y : Driver × Server) (out : Output) (w : View)
      → handles bus e x ≡ some (reports_of out, y)
      → Shown bus e x.0 y.0 out
      → Inv bus y.0 w
      → Agrees bus e x (some (out, w))

abbrev pub Step : ℕ → Event → Driver × Server → View → Type 0
Step bus e x w = (res : Option (Output × View)) × Reacts bus e w res × Agrees bus e x res
