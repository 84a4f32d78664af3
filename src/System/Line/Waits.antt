-- ===== src/System/Line/Waits.antt =====
-- When the requests of a line wait on a bus: the driver is idle, and each request stands in a buffer
-- of its own.
use sddf_i2c_driver.Prelude.{
  true, suc, sym, inl, inr, List-cases, ℕ, ◌+◌, ◌≤◌, ◌<◌, ◌≡◌, ◌≢◌, refl, ◌∙◌, ap, ◌⊎◌, List, [],
  ◌∷◌, ◌++◌, map, arith, All, length,
}
use sddf_i2c_driver.Ring.{Desc, desc}
use sddf_i2c_driver.Ring.Handle.{HandleHolds}
use sddf_i2c_driver.Transport.{Memory, req_ring, ret_ring}
use sddf_i2c_driver.Transport.Message.{Stored-agree}
use sddf_i2c_driver.Driver.{Driver}
use sddf_i2c_driver.System.Delivery.{Holding}
use sddf_i2c_driver.System.Job.{Apart}
use sddf_i2c_driver.System.Line.{Request, CanSend}
use sddf_i2c_driver.System.Line.Bufs.{Bufs, IsReqBuf}

-- A request in the buffer `buf`.
pub record Item : Type 0 where
  pub buf : ℕ
  pub request : Request

abbrev pub desc_of : Item → Desc
desc_of i = desc i.buf (length i.request.message + 2)

abbrev pub bufs_of : List Item → List ℕ
bufs_of is = map (λ i. i.buf) is

abbrev pub addrs_of : List Desc → List ℕ
addrs_of ds = map (λ d. d.encoded_addr) ds

-- The request can be sent, and stands in its buffer.
pub record Held (m : Memory) (i : Item) : Type 0 where
  pub can_send : CanSend i.request
  pub holding : Holding i.request.message i.request.client i.request.addr m i.buf

-- It does so in memory that agrees with `m` on the buffer.
pub Held-agree :
    (m m' : Memory) (i : Item)
    → ((c : ℕ) → i.buf ≤ c → c < i.buf + 512 → m' c ≡ m c)
    → Held m i
    → Held m' i
Held-agree m m' i same h =
    let k = h.holding in
    let msg = h.can_send true in
    record {
      can_send = h.can_send;
      holding = record {
        at_client = same i.buf (omega arith) (omega arith) ∙ k.at_client;
        at_addr = same (i.buf + 1) (omega arith) (omega arith) ∙ k.at_addr;
        at_message =
            Stored-agree m m' (i.buf + 2) i.request.message
              (λ c le lt. same c (omega arith) (omega (arith, msg.short))) k.at_message;
      };
    }

pub record Waits (bus : ℕ) (s : Driver) (w : List Request) : Type 0 where
  pub items : List Item
  pub free : List Desc
  pub spare : List Desc
  pub requests : map (λ i. i.request) items ≡ w
  pub req_rings : HandleHolds (req_ring bus s.transport) free (map desc_of items)
  pub ret_rings : HandleHolds (ret_ring bus s.transport) spare []
  pub idle : (s.if_state bus).current_req ≡ 0
  pub all_reqs : length items + length free ≡ 511
  pub all_rets : length spare ≡ 511
  pub held : All (Held s.transport.mem) items
  pub bufs : Bufs (bufs_of items ++ addrs_of free) (addrs_of spare)

pub length-map : {A B : Type 0} (f : A → B) (l : List A) → length (map f l) ≡ length l
length-map f [] = refl
length-map f (x ∷ l) = ap suc (length-map f l)

-- None of the buffers is at NULL.
pub usable-free : (ds : List Desc) → All IsReqBuf (addrs_of ds) → All (λ d. d.encoded_addr ≢ 0) ds
usable-free [] h = tt
usable-free (d ∷ ds) h = (h.0.0, usable-free ds h.1)

pub Waits-length :
    {bus : ℕ} {s : Driver} {w : List Request} (k : Waits bus s w) → length w ≡ length k.items
Waits-length k = ap length (sym k.requests) ∙ length-map (λ i. i.request) k.items

-- Requests outside of the buffer that is written to.
pub Held-outside :
    (m m' : Memory) (a : ℕ) (is : List Item)
    → ((c : ℕ) → (c < a) ⊎ (a + 512 ≤ c) → m' c ≡ m c)
    → All (Apart a) (bufs_of is)
    → All (Held m) is
    → All (Held m') is
Held-outside m m' a [] same apart h = tt
Held-outside m m' a (i ∷ is) same apart h = (
  Held-agree m m' i (λ c le lt. same c (omega (arith, apart.0))) h.0,
  Held-outside m m' a is same apart.1 h.1,
)

-- They wait in every state with the same transport that is idle.
pub Waits-same :
    {bus : ℕ} (s s' : Driver) {w : List Request}
    → s'.transport ≡ s.transport
    → (s'.if_state bus).current_req ≡ 0
    → Waits bus s w
    → Waits bus s' w
Waits-same s s' same idle k = record {
  items = k.items;
  free = k.free;
  spare = k.spare;
  requests = k.requests;
  req_rings = rw same k.req_rings;
  ret_rings = rw same k.ret_rings;
  idle = idle;
  all_reqs = k.all_reqs;
  all_rets = k.all_rets;
  held = rw same k.held;
  bufs = k.bufs;
}

-- Nobody waits where all buffers are free.
pub nobody-Waits :
    {bus : ℕ} (s : Driver) {free spare : List Desc}
    → HandleHolds (req_ring bus s.transport) free []
    → HandleHolds (ret_ring bus s.transport) spare []
    → (s.if_state bus).current_req ≡ 0
    → length free ≡ 511
    → length spare ≡ 511
    → Bufs (addrs_of free) (addrs_of spare)
    → Waits bus s []
nobody-Waits s {free} {spare} reqs rets idle n n' bufs = record {
  items = [];
  free = free;
  spare = spare;
  requests = refl;
  req_rings = reqs;
  ret_rings = rets;
  idle = idle;
  all_reqs = omega (arith, n);
  all_rets = n';
  held = tt;
  bufs = bufs;
}

-- Nobody waits in every state with the same rings that is idle.
pub Waits-rings :
    {bus : ℕ} (s s' : Driver)
    → req_ring bus s'.transport ≡ req_ring bus s.transport
    → ret_ring bus s'.transport ≡ ret_ring bus s.transport
    → (s'.if_state bus).current_req ≡ 0
    → Waits bus s []
    → Waits bus s' []
Waits-rings s s' same same' idle k = elim (List-cases k.items) [
  | inl e ↦ record {
    items = [];
    free = k.free;
    spare = k.spare;
    requests = refl;
    req_rings = rw same (rw e at k.req_rings);
    ret_rings = rw same' k.ret_rings;
    idle = idle;
    all_reqs = rw e at k.all_reqs;
    all_rets = k.all_rets;
    held = tt;
    bufs = rw e at k.bufs;
  }
  | inr (i, is, e) ↦ absurd (omega (arith, Waits-length k, ap length e))
]
