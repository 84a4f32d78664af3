-- ===== src/System/Line/Post.antt =====
-- A request that the server posts (allocReqBuf, i2c/i2c-transport.c) joins the end of the line.
use mathlib.Core.List.{map-append}
use sddf_i2c_driver.Prelude.{
  ℕ, ◌+◌, ◌<◌, ◌≡◌, sym, ◌∙◌, ap, subst, inl, inr, List, [], ◌∷◌, ◌++◌, map, arith, All, length,
  All-append, List-cases, append_assoc, length-append, ==_of_eq, ==_of_ne, true, false,
}
use sddf_i2c_driver.Ring.{Desc}
use sddf_i2c_driver.Ring.Handle.{HandleHolds}
use sddf_i2c_driver.Transport.{Transport, req_ring, alloc_req_buf, alloc_faults}
use sddf_i2c_driver.Transport.Lens.{IsBus}
use sddf_i2c_driver.Transport.Calls.{
  alloc_faults-none, ReqFrame, alloc_req_buf-ok, alloc_req_buf-empty,
}
use sddf_i2c_driver.Transport.Message.{data_of, fill_req-rest}
use sddf_i2c_driver.Driver.{Driver}
use sddf_i2c_driver.Server.{Server}
use sddf_i2c_driver.System.Take.{at_transport}
use sddf_i2c_driver.System.Delivery.{fill_req-Holding}
use sddf_i2c_driver.System.Line.{Request, CanSend, post, one_bus, line_step}
use sddf_i2c_driver.System.Line.Bufs.{IsReqBuf, All-split, Bufs, AllApart-mid}
use sddf_i2c_driver.System.Line.Waits.{
  Item, desc_of, bufs_of, addrs_of, Held, Held-outside, usable-free, Waits, Waits-length,
  length-map,
}

-- With a free buffer, the request comes to stand in it.
pub posts-Waits :
    {bus : ℕ} (b : IsBus bus) (s : Driver) {w : List Request} (k : Waits bus s w) (r : Request)
    (d : Desc) (f : List Desc)
    → k.free ≡ d ∷ f
    → CanSend r
    → (t : Transport) × (alloc_req_buf s.transport bus
          (length r.message)
          (data_of r.message)
          r.client
          r.addr
        ≡ (d.encoded_addr, t))
      × Waits bus (at_transport s t) (w ++ r ∷ [])
      × ReqFrame bus s.transport t
posts-Waits {bus} b s {w} k r d f e can =
    let msg = can true in
    let i : Item = record { buf = d.encoded_addr; request = r } in
    let left : length k.items + length (d ∷ f) ≡ 511 = rw e at k.all_reqs in
    let reqs : HandleHolds (req_ring bus s.transport) (d ∷ f) (map desc_of k.items) =
      rw e at k.req_rings in
    let bufs : Bufs (bufs_of k.items ++ d.encoded_addr ∷ addrs_of f) (addrs_of k.spare) =
      rw e at k.bufs in
    let few : length (map desc_of k.items) < 511 =
      omega (arith, left, length-map desc_of k.items) in
    let (t, x, reqs', m, frame) =
      alloc_req_buf-ok b s.transport (length r.message) (data_of r.message) r.client r.addr reqs few
        msg.short in
    let kept : All (Held t.mem) k.items =
      Held-outside s.transport.mem t.mem d.encoded_addr k.items
        (λ c outside.
          ap (λ z. z c) m
          ∙ fill_req-rest s.transport.mem d.encoded_addr (length r.message) (data_of r.message)
              r.client r.addr c (omega (arith, outside, msg.short)))
        (AllApart-mid (bufs_of k.items) d.encoded_addr (addrs_of f) bufs.reqs_apart) k.held in
    (
      t,
      x,
      record {
        items = k.items ++ i ∷ [];
        free = f;
        spare = k.spare;
        requests = map-append (λ j. j.request) k.items (i ∷ []) ∙ ap (λ l. l ++ r ∷ []) k.requests;
        req_rings = rw (map-append desc_of k.items (i ∷ [])) reqs';
        ret_rings = rw (frame.ret bus) k.ret_rings;
        idle = k.idle;
        all_reqs = omega (arith, left, length-append k.items (i ∷ []));
        all_rets = k.all_rets;
        held = All-append (Held t.mem) k.items (i ∷ []) kept (
          record {
            can_send = can;
            holding = rw m (fill_req-Holding b msg s.transport.mem d.encoded_addr);
          },
          tt,
        );
        bufs =
            subst (λ l. Bufs l (addrs_of k.spare))
              (sym (append_assoc (bufs_of k.items) (d.encoded_addr ∷ []) (addrs_of f))
                ∙ ap (λ l. l ++ addrs_of f) (sym (map-append (λ j. j.buf) k.items (i ∷ []))))
              bufs;
      },
      frame,
    )

-- Where requests wait, a post does not go through NULL.
pub Waits-alloc_faults :
    {bus : ℕ} (b : IsBus bus) (s : Driver) {w : List Request} (n : ℕ)
    → Waits bus s w
    → alloc_faults s.transport bus n ≡ false
Waits-alloc_faults b s n k =
    alloc_faults-none b s.transport k.free n k.req_rings
      (usable-free k.free (All-split IsReqBuf (bufs_of k.items) (addrs_of k.free) k.bufs.usable).1)

-- A post joins the line while there is room, and is dropped otherwise.
pub post-Waits :
    {bus : ℕ} (b : IsBus bus) (x : Driver × Server) {w : List Request} (r : Request)
    → CanSend r
    → Waits bus x.0 w
    → Waits bus ((one_bus bus).on_post r x).0 (line_step bus (post r) w).1
unfolding line_step
post-Waits {bus} b x {w} r can k =
    let s = x.0 in
    let payload = data_of r.message in
    elim (List-cases k.free) [
      | inl e ↦
          let full : length w ≡ 511 = omega (arith, Waits-length k, k.all_reqs, ap length e) in
          let y =
            alloc_req_buf-empty b s.transport (length r.message) payload r.client r.addr
              (rw e at k.req_rings) in
          rw (==_of_eq (length w) 511 full, y) k
      | inr (d, f, e) ↦
          let some_left : length k.items + length (d ∷ f) ≡ 511 = rw e at k.all_reqs in
          let ne = ==_of_ne (length w) 511 (omega (arith, Waits-length k, some_left)) in
          let (t, y, k', frame) = posts-Waits b s k r d f e can in rw (ne, y) k'
    ]
