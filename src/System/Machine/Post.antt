-- ===== src/System/Machine/Post.antt =====
-- A request that is posted (allocReqBuf, i2c/i2c-transport.c) waits, also while another one is at work.
use mathlib.Core.List.{map-append}
use sddf_i2c_driver.Prelude.{
  false, ℕ, ◌+◌, ◌≤◌, ◌<◌, ◌≢◌, ◌≡◌, refl, sym, ◌∙◌, ap, subst, ◌⊎◌, inl, inr, List, [], ◌∷◌, ◌++◌,
  map, arith, All, length, length-append, append_assoc, All-append, List-cases, some, true,
}
use sddf_i2c_driver.Ring.{Desc}
use sddf_i2c_driver.Ring.Handle.{HandleHolds}
use sddf_i2c_driver.Transport.{req_ring, ret_ring, alloc_faults}
use sddf_i2c_driver.Transport.Lens.{IsBus}
use sddf_i2c_driver.Transport.Calls.{alloc_faults-none, alloc_req_buf-ok, alloc_req_buf-empty}
use sddf_i2c_driver.Transport.Message.{data_of, fill_req-rest}
use sddf_i2c_driver.Driver.{Driver}
use sddf_i2c_driver.Server.{Server}
use sddf_i2c_driver.System.Take.{at_transport}
use sddf_i2c_driver.System.Delivery.{fill_req-Holding}
use sddf_i2c_driver.System.Job.{Apart}
use sddf_i2c_driver.System.Line.{Request, CanSend}
use sddf_i2c_driver.System.Line.Bufs.{Bufs, IsReqBuf, All-split, AllApart, AllApart-mid}
use sddf_i2c_driver.System.Line.Waits.{
  usable-free, Item, desc_of, bufs_of, addrs_of, Held, Held-outside, length-map,
}
use sddf_i2c_driver.System.Machine.{View, posted, busy, queued, refused, joins, dropped}
use sddf_i2c_driver.System.Machine.State.{
  Inv, Step, works, cur_reqs, cur_rets, told_bufs, told_desc,
}
use sddf_i2c_driver.System.Machine.Moves.{Works-Moved, Agree-outside, Says-outside}

module _ {bus : ℕ} (b : IsBus bus) (s : Driver) (v : Server) {w : View} (k : Inv bus s w)
    (r : Request) (can : CanSend r) where
  waiting_length : length w.waiting ≡ length k.items
  waiting_length = ap length (sym k.requests) ∙ length-map (λ i. i.request) k.items

  not_null : alloc_faults s.transport bus (length r.message) ≡ false
  not_null =
      let rest =
        (All-split IsReqBuf (cur_reqs w.work (s.if_state bus)) (bufs_of k.items ++ addrs_of k.free)
          k.bufs.usable).1 in
      alloc_faults-none b s.transport k.free (length r.message) k.req_rings
        (usable-free k.free (All-split IsReqBuf (bufs_of k.items) (addrs_of k.free) rest).1)

  room-Step : (d : Desc) (f : List Desc) → k.free ≡ d ∷ f → Step bus (posted r) (s, v) w
  room-Step d f e =
      let st = s.if_state bus in
      let msg = can true in
      let a = d.encoded_addr in
      let i : Item = record { buf = a; request = r } in
      let n : busy w.work + (length k.items + length (d ∷ f)) ≡ 511 = rw e at k.all_reqs in
      let reqs : HandleHolds (req_ring bus s.transport) (d ∷ f) (map desc_of k.items) =
        rw e at k.req_rings in
      let rets = told_bufs k.tolds ++ (cur_rets w.work st ++ addrs_of k.spare) in
      let bufs : Bufs (cur_reqs w.work st ++ (bufs_of k.items ++ a ∷ addrs_of f)) rets =
        rw e at k.bufs in
      let few : length (map desc_of k.items) < 511 = omega (arith, n, length-map desc_of k.items) in
      let (t, x, reqs', m, frame) =
        alloc_req_buf-ok b s.transport (length r.message) (data_of r.message) r.client r.addr reqs
          few msg.short in
      let y = at_transport s t in
      let ne : a ≢ 0 =
        (All-split IsReqBuf (bufs_of k.items) (a ∷ addrs_of f)
          (All-split IsReqBuf (cur_reqs w.work st) (bufs_of k.items ++ a ∷ addrs_of f)
            bufs.usable).1).1.0.0 in
      let outside : (c : ℕ) → (c < a) ⊎ (a + 512 ≤ c) → t.mem c ≡ s.transport.mem c = λ c out.
        ap (λ z. z c) m
        ∙ fill_req-rest s.transport.mem a (length r.message) (data_of r.message) r.client r.addr c
            (omega (arith, out, msg.short)) in
      let cur_apart = All-split (Apart a) (cur_reqs w.work st) (bufs_of k.items) (
        AllApart-mid (cur_reqs w.work st ++ bufs_of k.items) a (addrs_of f) (
          subst AllApart
            (sym (append_assoc (cur_reqs w.work st) (bufs_of k.items) (a ∷ addrs_of f)))
            bufs.reqs_apart)) in
      let apart_rets =
        (All-split (λ c. All (Apart c) rets) (bufs_of k.items) (a ∷ addrs_of f)
          (All-split (λ c. All (Apart c) rets) (cur_reqs w.work st)
            (bufs_of k.items ++ a ∷ addrs_of f) bufs.across).1).1.0 in
      let (apart_told, apart_rest) =
        All-split (Apart a) (told_bufs k.tolds) (cur_rets w.work st ++ addrs_of k.spare)
          apart_rets in
      let (apart_ret, apart_spare) =
        All-split (Apart a) (cur_rets w.work st) (addrs_of k.spare) apart_rest in
      let all_reqs : busy w.work + (length (k.items ++ i ∷ []) + length f) ≡ 511 =
        omega (arith, n, length-append k.items (i ∷ [])) in
      let req_rings : HandleHolds (req_ring bus t) f (map desc_of (k.items ++ i ∷ [])) =
        rw (map-append desc_of k.items (i ∷ [])) reqs' in
      let ret_rings : HandleHolds (ret_ring bus t) k.spare (map told_desc k.tolds) =
        rw (frame.ret bus) k.ret_rings in
      (
        some (queued r, record w { waiting = w.waiting ++ r ∷ [] }),
        joins r w (omega (arith, n, waiting_length)),
        works (y, v) (queued r) (record w { waiting = w.waiting ++ r ∷ [] }) (rw (not_null, x) refl)
            (rw x ne)
            (record {
              items = k.items ++ i ∷ [];
              free = f;
              tolds = k.tolds;
              spare = k.spare;
              requests =
                  map-append (λ j. j.request) k.items (i ∷ []) ∙ ap (λ l. l ++ r ∷ []) k.requests;
              reports = k.reports;
              req_rings = req_rings;
              ret_rings = ret_rings;
              flag = k.flag;
              works =
                  Works-Moved s y w.work w.announced w.announced k.free f k.items
                    (k.items ++ i ∷ []) k.spare k.spare k.tolds k.tolds
                    (λ z. record st { notified = k.flag z }) req_rings ret_rings all_reqs k.all_rets
                    (Agree-outside s.transport.mem t.mem a (cur_reqs w.work st) outside cur_apart.0)
                    (Agree-outside s.transport.mem t.mem a (cur_rets w.work st) outside apart_ret)
                    k.works;
              all_reqs = all_reqs;
              all_rets = k.all_rets;
              held =
                  All-append (Held t.mem) k.items (i ∷ [])
                    (Held-outside s.transport.mem t.mem a k.items outside cur_apart.1 k.held)
                    (
                      record {
                        can_send = can;
                        holding = rw m (fill_req-Holding b msg s.transport.mem a);
                      },
                      tt,
                    );
              told = Says-outside bus s.transport.mem t.mem a k.tolds outside apart_told k.told;
              bufs =
                  subst (λ l. Bufs (cur_reqs w.work st ++ l) rets)
                    (sym (append_assoc (bufs_of k.items) (a ∷ []) (addrs_of f))
                      ∙ ap (λ l. l ++ addrs_of f) (sym (map-append (λ j. j.buf) k.items (i ∷ []))))
                    bufs;
            }),
      )

  pub post-Step : Step bus (posted r) (s, v) w
  post-Step = elim (List-cases k.free) [
    | inr (d, f, e) ↦ room-Step d f e
    | inl e ↦
        let x =
          alloc_req_buf-empty b s.transport (length r.message) (data_of r.message) r.client r.addr
            (rw e at k.req_rings) in
        (
          some (refused r, w),
          dropped r w (omega (arith, waiting_length, k.all_reqs, ap length e)),
          works (s, v) (refused r) w (rw (not_null, x) refl) (rw x refl) k,
        )
  ]
