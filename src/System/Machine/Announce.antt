-- ===== src/System/Machine/Announce.antt =====
-- The driver is told of requests (checkBuf, i2c/i2c-odroid-c4.c): nobody waits, it is at work, it takes
-- the first one up, or it has no return buffer for it.
use sddf_i2c_driver.Prelude.{
  ℕ, ◌+◌, ◌≤◌, ◌<◌, ◌≢◌, ◌≡◌, refl, sym, ◌∙◌, ap, ◌⊎◌, inl, inr, List, [], ◌∷◌, ◌++◌, map, arith,
  All, Bool, true, false, length, suc, List-cases, Option, Option-cases, some, none, update_self,
  ==_of_ne, Bool-cases,
}
use sddf_i2c_driver.Ring.{Desc}
use sddf_i2c_driver.Ring.Handle.{HandleHolds}
use sddf_i2c_driver.Transport.{req_ring, ret_ring, req_buf_empty}
use sddf_i2c_driver.Transport.Lens.{IsBus}
use sddf_i2c_driver.Transport.Calls.{req_buf_empty_lem}
use sddf_i2c_driver.Driver.{Driver, IfState, with_state, check_buf}
use sddf_i2c_driver.Server.{Server}
use sddf_i2c_driver.System.Delivery.{waiting-TakenUp}
use sddf_i2c_driver.System.Starved.{check_buf-faults}
use sddf_i2c_driver.System.Job.{Apart}
use sddf_i2c_driver.System.Line.Bufs.{Bufs, All-split, All-map, AllApart-mid, Apart-sym}
use sddf_i2c_driver.System.Line.Waits.{
  Item, desc_of, bufs_of, addrs_of, Held, Held-outside, length-map,
}
use sddf_i2c_driver.System.Machine.{
  Task, View, told_driver, busy, silent, sends, nobody_waits, noted, taken, starved,
}
use sddf_i2c_driver.System.Machine.State.{
  Inv, Step, Agrees, faults, works, cur_reqs, cur_rets, told_bufs, told_desc,
}
use sddf_i2c_driver.System.Machine.Moves.{Agree-kept, Works-Moved, Says-outside}

-- checkBuf only sets the flag.
abbrev noting : ℕ → Bool → Driver → Driver
noting bus n s = with_state bus (record (s.if_state bus) { notified = n }) s

check_buf-none :
    (bus : ℕ) (s : Driver)
    → req_buf_empty s.transport bus ≡ true
    → check_buf bus s ≡ some (noting bus false s)
unfolding check_buf
check_buf-none bus s e = rw e refl

check_buf-busy :
    (bus : ℕ) (s : Driver)
    → req_buf_empty s.transport bus ≡ false
    → (s.if_state bus).current_req ≢ 0
    → check_buf bus s ≡ some (noting bus true s)
unfolding check_buf
check_buf-busy bus s e ne = rw (e, ==_of_ne (s.if_state bus).current_req 0 ne) refl

cur_reqs-same :
    (o : Option Task) (st st' : IfState)
    → st.current_req ≡ st'.current_req
    → cur_reqs o st ≡ cur_reqs o st'
cur_reqs-same none st st' e = refl
cur_reqs-same (some j) st st' e = ap (λ a. a ∷ []) e

cur_rets-same :
    (o : Option Task) (st st' : IfState)
    → st.current_ret ≡ st'.current_ret
    → cur_rets o st ≡ cur_rets o st'
cur_rets-same none st st' e = refl
cur_rets-same (some j) st st' e = ap (λ a. a ∷ []) e

module _ {bus : ℕ} (b : IsBus bus) (s : Driver) (v : Server) {w : View} (k : Inv bus s w) where
  noting-Inv : (n : Bool) → Inv bus (noting bus n s) (record w { announced = n })
  noting-Inv n =
      let st = s.if_state bus in
      let st' : IfState = record st { notified = n } in
      let state = update_self s.if_state bus st' in
      record {
        items = k.items;
        free = k.free;
        tolds = k.tolds;
        spare = k.spare;
        requests = k.requests;
        reports = k.reports;
        req_rings = k.req_rings;
        ret_rings = k.ret_rings;
        flag = ap (λ x. x.notified) state;
        works =
            Works-Moved s (noting bus n s) w.work w.announced n k.free k.free k.items k.items
              k.spare k.spare k.tolds k.tolds state k.req_rings k.ret_rings k.all_reqs k.all_rets
              (Agree-kept s.transport.mem s.transport.mem (cur_reqs w.work st) refl)
              (Agree-kept s.transport.mem s.transport.mem (cur_rets w.work st) refl) k.works;
        all_reqs = k.all_reqs;
        all_rets = k.all_rets;
        held = k.held;
        told = k.told;
        bufs =
            rw (state, cur_reqs-same w.work st' st refl, cur_rets-same w.work st' st refl) k.bufs;
      }

  noting-Step :
      (n : Bool) (p : check_buf bus s ≡ some (noting bus n s))
      → Agrees bus told_driver (s, v) (some (silent, record w { announced = n }))
  noting-Step n p =
      works (noting bus n s, v) silent (record w { announced = n }) (rw p refl) tt (noting-Inv n)

  module _ (i : Item) (is : List Item) (e : k.items ≡ i ∷ is) where
    first_waits : w.waiting ≡ i.request ∷ map (λ j. j.request) is
    first_waits = sym k.requests ∙ ap (map (λ j. j.request)) e

    some_wait : req_buf_empty s.transport bus ≡ false
    some_wait = elim (Bool-cases (req_buf_empty s.transport bus)) [
      | inl z ↦
          let reqs : HandleHolds (req_ring bus s.transport) k.free (desc_of i ∷ map desc_of is) =
            rw e at k.req_rings in
          absurd (cc ((req_buf_empty_lem b s.transport reqs).0 z))
      | inr z ↦ z
    ]

    busy-Step : (j : Task) → w.work ≡ some j → Step bus told_driver (s, v) w
    busy-Step j f =
        let task = rw f at k.works in
        (
          some (silent, record w { announced = true }),
          noted w i.request (map (λ j. j.request) is) j first_waits f,
          noting-Step true (check_buf-busy bus s some_wait task.work.can_end.busy),
        )

    reqs_idle :
        w.work ≡ none
        → Bufs (i.buf ∷ (bufs_of is ++ addrs_of k.free)) (told_bufs k.tolds ++ addrs_of k.spare)
    reqs_idle f = rw (e, f) at k.bufs

    starved-Step : w.work ≡ none → k.spare ≡ [] → Step bus told_driver (s, v) w
    starved-Step f g =
        let reqs : HandleHolds (req_ring bus s.transport) k.free (desc_of i ∷ map desc_of is) =
          rw e at k.req_rings in
        let rets : HandleHolds (ret_ring bus s.transport) [] (map told_desc k.tolds) =
          rw g at k.ret_rings in
        let idle = rw f at k.works in
        let x = check_buf-faults b s reqs rets idle.0 (reqs_idle f).usable.0.0 in
        let n : length w.answers ≡ 511 = omega (
          arith,
          ap length k.reports,
          length-map (λ t. t.report) k.tolds,
          ap busy f,
          ap length g,
          k.all_rets,
        ) in
        (none, starved w i.request (map (λ j. j.request) is) first_waits f n, faults (rw x refl))

    taken-Step :
        (d : Desc) (tf : List Desc)
        → w.work ≡ none
        → k.spare ≡ d ∷ tf
        → Step bus told_driver (s, v) w
    taken-Step d tf f g =
        let a = d.encoded_addr in
        let st = s.if_state bus in
        let r = i.request in
        let more = map (λ j. j.request) is in
        let reqs : HandleHolds (req_ring bus s.transport) k.free (desc_of i ∷ map desc_of is) =
          rw e at k.req_rings in
        let rets : HandleHolds (ret_ring bus s.transport) (d ∷ tf) (map told_desc k.tolds) =
          rw g at k.ret_rings in
        let idle = rw f at k.works in
        let held : Held s.transport.mem i × All (Held s.transport.mem) is = rw e at k.held in
        let msg = held.0.can_send st.ddr in
        let bufs : Bufs (i.buf ∷ (bufs_of is ++ addrs_of k.free))
            (told_bufs k.tolds ++ a ∷ addrs_of tf) =
          rw g at (reqs_idle f) in
        let n : 0 + (suc (length is) + length k.free) ≡ 511 = rw (e, f) at k.all_reqs in
        let n' : 0 + (length k.tolds + suc (length tf)) ≡ 511 = rw (g, f) at k.all_rets in
        let reqs_apart : All (Apart a) (i.buf ∷ (bufs_of is ++ addrs_of k.free)) =
          All-map
            (λ c h. Apart-sym c a (All-split (Apart c) (told_bufs k.tolds) (a ∷ addrs_of tf) h).1.0)
            (i.buf ∷ (bufs_of is ++ addrs_of k.free)) bufs.across in
        let (s', p, t) =
          waiting-TakenUp b msg s reqs rets (omega (arith, n))
            (omega (arith, n', length-map told_desc k.tolds)) idle.0 bufs.usable.0.0
            (All-split (λ c. c ≢ 0) (told_bufs k.tolds) (a ∷ addrs_of tf) bufs.ret_ne_zero).1.0
            (Apart-sym a i.buf reqs_apart.0) bufs.usable.0.1 refl held.0.holding in
        let outside : (c : ℕ) → (c < a) ⊎ (a + 512 ≤ c) → s'.transport.mem c ≡ s.transport.mem c =
          λ c out. t.only c (omega (arith, out)) (omega (arith, out)) in
        let few : length w.answers < 511 =
          omega (arith, ap length k.reports, length-map (λ t. t.report) k.tolds, n') in
        let w' : View = record {
          waiting = more;
          work = some (record { request = r; toks = t.rest; bytes = t.rest_bytes });
          announced = false;
          answers = w.answers;
        } in
        (
          some (sends r.addr t.now t.now_bytes, w'),
          taken w r more t.now t.rest t.now_bytes t.rest_bytes first_waits f few t.split
              t.split_bytes,
          works (s', v) (sends r.addr t.now t.now_bytes) w' (rw p refl) t.sent
              (record {
                items = is;
                free = k.free;
                tolds = k.tolds;
                spare = tf;
                requests = refl;
                reports = k.reports;
                req_rings = t.work.can_end.req_rings;
                ret_rings = t.work.can_end.ret_rings;
                flag = t.work.flag;
                works = record {
                  left = t.left;
                  work = t.work;
                  to = t.to;
                  at_client = rw t.ret t.at_client;
                  at_addr = rw t.ret t.at_addr;
                };
                all_reqs = omega (arith, n);
                all_rets = omega (arith, n');
                held =
                    Held-outside s.transport.mem s'.transport.mem a is outside
                      (All-split (Apart a) (bufs_of is) (addrs_of k.free) reqs_apart.1).0 held.1;
                told =
                    Says-outside bus s.transport.mem s'.transport.mem a k.tolds outside
                      (AllApart-mid (told_bufs k.tolds) a (addrs_of tf) bufs.rets_apart) k.told;
                bufs = rw (t.req, t.ret) bufs;
              }),
        )

    some-Step : Step bus told_driver (s, v) w
    some-Step = elim (Option-cases w.work) [
      | inr (j, f) ↦ busy-Step j f
      | inl f ↦ elim (List-cases k.spare) [
        | inl g ↦ starved-Step f g
        | inr (d, tf, g) ↦ taken-Step d tf f g
      ]
    ]

  pub told_driver-Step : Step bus told_driver (s, v) w
  told_driver-Step = elim (List-cases k.items) [
    | inr (i, is, e) ↦ some-Step i is e
    | inl e ↦ (
      some (silent, record w { announced = false }),
      nobody_waits w (sym k.requests ∙ ap (map (λ j. j.request)) e),
      noting-Step false (
          check_buf-none bus s
            ((req_buf_empty_lem b s.transport k.req_rings).1 (ap (map desc_of) e))),
    )
  ]
