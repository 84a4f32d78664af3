-- ===== src/System/Machine/Read.antt =====
-- The server reads the oldest answer (the loop body of driverNotify, i2c/i2c.c), also while a request
-- is at work.
use mathlib.Core.List.{map-append}
use sddf_i2c_driver.Prelude.{
  ℕ, ◌+◌, ◌≡◌, refl, sym, ◌∙◌, ap, subst, inl, inr, List, [], ◌∷◌, ◌++◌, map, arith, All, length,
  suc, length-append, append_assoc, List-cases, some,
}
use sddf_i2c_driver.Ring.{desc}
use sddf_i2c_driver.Ring.Handle.{HandleHolds}
use sddf_i2c_driver.Transport.{buf_sz, req_ring, ret_ring}
use sddf_i2c_driver.Transport.Lens.{IsBus}
use sddf_i2c_driver.Transport.Calls.{ret_buf_empty_lem}
use sddf_i2c_driver.Driver.{Driver}
use sddf_i2c_driver.Server.{Server}
use sddf_i2c_driver.System.Take.{at_transport}
use sddf_i2c_driver.System.Serve.{drain-empty, drain-Drained}
use sddf_i2c_driver.System.Steps.{at_server}
use sddf_i2c_driver.System.Line.Bufs.{Bufs, Bufs-turn_rets}
use sddf_i2c_driver.System.Line.Waits.{desc_of, bufs_of, addrs_of}
use sddf_i2c_driver.System.Machine.{View, read_answer, busy, silent, tells, unread, nothing_unread}
use sddf_i2c_driver.System.Machine.State.{
  Told, Inv, Step, works, cur_reqs, cur_rets, told_bufs, Says, told_desc,
}
use sddf_i2c_driver.System.Machine.Moves.{Agree-kept, Works-Moved}

module _ {bus : ℕ} (b : IsBus bus) (s : Driver) (v : Server) {w : View} (k : Inv bus s w) where
  next-Step : (t : Told) (ts : List Told) → k.tolds ≡ t ∷ ts → Step bus read_answer (s, v) w
  next-Step t ts e =
      let st = s.if_state bus in
      let answers : w.answers ≡ t.report ∷ map (λ t. t.report) ts =
        sym k.reports ∙ ap (map (λ t. t.report)) e in
      let reqs = cur_reqs w.work st ++ (bufs_of k.items ++ addrs_of k.free) in
      let cur = cur_rets w.work st in
      let rets : HandleHolds (ret_ring bus s.transport) k.spare (told_desc t ∷ map told_desc ts) =
        rw e at k.ret_rings in
      let told : Says bus s.transport.mem t × All (Says bus s.transport.mem) ts = rw e at k.told in
      let n : busy w.work + (suc (length ts) + length k.spare) ≡ 511 = rw e at k.all_rets in
      let bufs : Bufs reqs (t.buf ∷ (told_bufs ts ++ (cur ++ addrs_of k.spare))) = rw e at k.bufs in
      let (v', d) = drain-Drained b (at_server v s) rets (omega (arith, n)) bufs.ret_ne_zero.0 in
      let freed = k.spare ++ desc t.buf buf_sz ∷ [] in
      let s' = at_transport s v'.transport in
      let all_rets : busy w.work + (length ts + length freed) ≡ 511 =
        omega (arith, n, length-append k.spare (desc t.buf buf_sz ∷ [])) in
      let req_rings : HandleHolds (req_ring bus v'.transport) k.free (map desc_of k.items) =
        rw d.req_ring_kept k.req_rings in
      let w' : View = record w { answers = map (λ t. t.report) ts } in
      let turned : (told_bufs ts ++ (cur ++ addrs_of k.spare)) ++ t.buf ∷ []
          ≡ told_bufs ts ++ (cur ++ addrs_of freed) =
        append_assoc (told_bufs ts) (cur ++ addrs_of k.spare) (t.buf ∷ [])
        ∙ ap (λ l. told_bufs ts ++ l)
            (append_assoc cur (addrs_of k.spare) (t.buf ∷ [])
              ∙ ap (λ l. cur ++ l)
                  (sym (map-append (λ x. x.encoded_addr) k.spare (desc t.buf buf_sz ∷ [])))) in
      (
        some (tells t.report, w'),
        unread w t.report (map (λ t. t.report) ts) answers,
        works (s', v') (tells t.report) w' (rw d.works (ap (λ x. some (x ∷ [], (s', v'))) told.0))
            tt
            (record {
              items = k.items;
              free = k.free;
              tolds = ts;
              spare = freed;
              requests = k.requests;
              reports = refl;
              req_rings = req_rings;
              ret_rings = d.ret_rings;
              flag = k.flag;
              works =
                  Works-Moved s s' w.work w.announced w.announced k.free k.free k.items k.items
                    k.spare freed k.tolds ts (λ z. record st { notified = k.flag z }) req_rings
                    d.ret_rings k.all_reqs all_rets
                    (Agree-kept s.transport.mem v'.transport.mem (cur_reqs w.work st) d.mem)
                    (Agree-kept s.transport.mem v'.transport.mem cur d.mem) k.works;
              all_reqs = k.all_reqs;
              all_rets = all_rets;
              held = rw d.mem k.held;
              told = rw d.mem told.1;
              bufs =
                  subst (Bufs reqs) turned
                    (Bufs-turn_rets reqs t.buf (told_bufs ts ++ (cur ++ addrs_of k.spare)) bufs);
            }),
      )

  pub read_answer-Step : Step bus read_answer (s, v) w
  read_answer-Step = elim (List-cases k.tolds) [
    | inr (t, ts, e) ↦ next-Step t ts e
    | inl e ↦
        let p =
          drain-empty bus (at_server v s)
            ((ret_buf_empty_lem b s.transport k.ret_rings).1 (ap (map told_desc) e)) in
        (
          some (silent, w),
          nothing_unread w (sym k.reports ∙ ap (map (λ t. t.report)) e),
          works (s, at_server v s) silent w (rw p refl) tt k,
        )
  ]
