-- ===== src/System/Line/Turn.antt =====
-- The turn of the first request in line: it is taken up and carried (checkBuf and i2cirq,
-- i2c/i2c-odroid-c4.c), its answer is read (driverNotify, i2c/i2c.c), and the others wait on.
use mathlib.Core.List.{map-append}
use sddf_i2c_driver.Prelude.{
  ℕ, some, ◌+◌, ◌≡◌, refl, sym, ◌∙◌, ap, subst, inl, inr, List, [], ◌∷◌, ◌++◌, map, arith, All,
  length, List-cases, append_assoc, length-append, cons-injective,
}
use sddf_i2c_driver.Ring.{Desc, desc}
use sddf_i2c_driver.Ring.Handle.{HandleHolds}
use sddf_i2c_driver.Transport.{buf_sz, req_ring, ret_ring}
use sddf_i2c_driver.Transport.Lens.{IsBus}
use sddf_i2c_driver.Driver.{Driver, check_buf}
use sddf_i2c_driver.Server.{Server}
use sddf_i2c_driver.System.Take.{at_transport}
use sddf_i2c_driver.System.Served.{Interrupts}
use sddf_i2c_driver.System.Line.{Request}
use sddf_i2c_driver.System.Job.{Apart}
use sddf_i2c_driver.System.Line.Bufs.{
  Apart-sym, All-split, All-map, Bufs, Bufs-turn_reqs, Bufs-turn_rets,
}
use sddf_i2c_driver.System.Line.Waits.{
  Item, desc_of, bufs_of, addrs_of, Held, Held-outside, Waits, Waits-length,
}
use sddf_i2c_driver.System.Delivery.{IsMessage, TakenUp, waiting-TakenUp}
use sddf_i2c_driver.System.Session.{Carried, TakenUp-Carried}

-- The two buffers come to stand last among the free ones.
turned :
    (is : List Item) (free tf : List Desc) (a e : ℕ)
    → Bufs (a ∷ (bufs_of is ++ addrs_of free)) (e ∷ addrs_of tf)
    → Bufs
        (bufs_of is ++ addrs_of (free ++ desc a buf_sz ∷ []))
        (addrs_of (tf ++ desc e buf_sz ∷ []))
turned is free tf a e k =
    let x =
      Bufs-turn_rets ((bufs_of is ++ addrs_of free) ++ a ∷ []) e (addrs_of tf)
        (Bufs-turn_reqs a (bufs_of is ++ addrs_of free) (e ∷ addrs_of tf) k) in
    let reqs =
      append_assoc (bufs_of is) (addrs_of free) (a ∷ [])
      ∙ ap (λ l. bufs_of is ++ l)
          (sym (map-append (λ d. d.encoded_addr) free (desc a buf_sz ∷ []))) in
    let rets = sym (map-append (λ d. d.encoded_addr) tf (desc e buf_sz ∷ [])) in
    subst (λ l. Bufs l (addrs_of (tf ++ desc e buf_sz ∷ []))) reqs
      (subst (λ l. Bufs ((bufs_of is ++ addrs_of free) ++ a ∷ []) l) rets x)

-- Whose turn it is: the item `item`, with those behind it, and the return buffer it gets.
pub record Turn (bus : ℕ) (s : Driver) (w : List Request) : Type 0 where
  pub item : Item
  pub items : List Item
  pub free : List Desc
  pub ret : Desc
  pub spare : List Desc
  pub later : map (λ j. j.request) items ≡ w
  pub req_rings : HandleHolds (req_ring bus s.transport) free (desc_of item ∷ map desc_of items)
  pub ret_rings : HandleHolds (ret_ring bus s.transport) (ret ∷ spare) []
  pub idle : (s.if_state bus).current_req ≡ 0
  pub all_reqs : length items + length free ≡ 510
  pub all_rets : length spare ≡ 510
  pub held : All (Held s.transport.mem) (item ∷ items)
  pub bufs : Bufs (item.buf ∷ (bufs_of items ++ addrs_of free)) (ret.encoded_addr ∷ addrs_of spare)

module _ {bus : ℕ} (s : Driver) where
  items-Turn :
      {r : Request} {w : List Request} (k : Waits bus s (r ∷ w)) (i : Item) (is : List Item)
      (e : Desc) (tf : List Desc)
      → k.items ≡ i ∷ is
      → k.spare ≡ e ∷ tf
      → i.request ≡ r
      → map (λ j. j.request) is ≡ w
      → (t : Turn bus s w) × (t.item.request ≡ r)
  items-Turn k i is e tf p q same later =
      let rets : HandleHolds (ret_ring bus s.transport) (e ∷ tf) [] = rw q at k.ret_rings in
      let bufs : Bufs (i.buf ∷ (bufs_of is ++ addrs_of k.free)) (e.encoded_addr ∷ addrs_of tf) =
        rw (p, q) at k.bufs in
      let all_reqs : length (i ∷ is) + length k.free ≡ 511 = rw p at k.all_reqs in
      let all_rets : length (e ∷ tf) ≡ 511 = rw q at k.all_rets in
      (
        record {
          item = i;
          items = is;
          free = k.free;
          ret = e;
          spare = tf;
          later = later;
          req_rings = rw p at k.req_rings;
          ret_rings = rets;
          idle = k.idle;
          all_reqs = omega (arith, all_reqs);
          all_rets = omega (arith, all_rets);
          held = rw p at k.held;
          bufs = bufs;
        },
        same,
      )

  -- Where somebody waits, it is the turn of the first one.
  pub Waits-Turn :
      {r : Request} {w : List Request}
      → Waits bus s (r ∷ w)
      → (t : Turn bus s w) × (t.item.request ≡ r)
  Waits-Turn {r} {w} k = elim (List-cases k.items) [
    | inl e ↦ absurd (omega (arith, Waits-length k, ap length e))
    | inr (i, is, p) ↦ elim (List-cases k.spare) [
      | inl q ↦ absurd (omega (arith, k.all_rets, ap length q))
      | inr (e, tf, q) ↦
          let all : map (λ j. j.request) (i ∷ is) ≡ r ∷ w = rw p at k.requests in
          let (same, later) = cons-injective all in items-Turn k i is e tf p q same later
    ]
  ]

module _ {bus : ℕ} (b : IsBus bus) (s : Driver) {w : List Request} (t : Turn bus s w) where
  -- The message as the driver is to read it.
  abbrev pub turn_msg :
      IsMessage
        (s.if_state bus).ddr
        t.item.request.message
        t.item.request.toks
        t.item.request.bytes
        t.item.request.client
        t.item.request.addr
  turn_msg = t.held.0.can_send (s.if_state bus).ddr

  pub Turn-TakenUp :
      (s' : Driver) × (check_buf bus s ≡ some s')
      × TakenUp b turn_msg s s' (desc_of t.item) t.ret t.free (map desc_of t.items) t.spare []
  Turn-TakenUp =
      let reqs = t.all_reqs in
      waiting-TakenUp b turn_msg s t.req_rings t.ret_rings (omega arith) (omega arith) t.idle
        t.bufs.usable.0.0 t.bufs.ret_ne_zero.0 t.bufs.across.0.0 t.bufs.usable.0.1 refl
        t.held.0.holding

  module _ {s' : Driver} (v : Server) (hw : Interrupts) where
    pub Turn-Carried :
        TakenUp b turn_msg s s' (desc_of t.item) t.ret t.free (map desc_of t.items) t.spare []
        → Carried b turn_msg s s' v hw t.item.buf t.ret t.free (map desc_of t.items) t.spare
    Turn-Carried k =
        let rets = t.all_rets in
        TakenUp-Carried b turn_msg s s' v hw k (omega arith) t.bufs.ret_ne_zero.0

    -- Then the others wait.
    pub Carried-Waits :
        (x : Carried b turn_msg s s' v hw t.item.buf t.ret t.free (map desc_of t.items) t.spare)
        → Waits bus (at_transport x.fate.last x.after.transport) w
    Carried-Waits x =
        let m = x.after.transport.mem in
        let base = t.ret.encoded_addr in
        let away : All (Apart base) (bufs_of t.items) =
          All-map (λ a h. Apart-sym a base h.0) (bufs_of t.items)
            (All-split (λ a. All (Apart a) (base ∷ addrs_of t.spare)) (bufs_of t.items)
              (addrs_of t.free) t.bufs.across.1).0 in
        let freed = desc t.item.buf buf_sz ∷ [] in
        let returned = desc base buf_sz ∷ [] in
        record {
          items = t.items;
          free = t.free ++ freed;
          spare = t.spare ++ returned;
          requests = t.later;
          req_rings = x.req_rings;
          ret_rings = x.ret_rings;
          idle = x.idle;
          all_reqs = omega (arith, t.all_reqs, length-append t.free freed);
          all_rets = omega (arith, t.all_rets, length-append t.spare returned);
          held =
              Held-outside s.transport.mem m base t.items
                (λ c outside. x.only c (omega (arith, outside))) away t.held.1;
          bufs = turned t.items t.free t.spare t.item.buf base t.bufs;
        }
