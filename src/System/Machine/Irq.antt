-- ===== src/System/Machine/Irq.antt =====
-- An interrupt at any time (i2cirq, i2c/i2c-odroid-c4.c): there is no work, the request at work goes on,
-- it ends, or it ends while another one is announced.
use mathlib.Core.List.{map-append}
use sddf_i2c_driver.Prelude.{
  ℕ, ◌+◌, ◌<◌, ◌≢◌, ◌≡◌, refl, sym, ◌∙◌, ap, subst, ◌⊎◌, inl, inr, [], ◌∷◌, ◌++◌, map, arith, Bool,
  true, false, length, length-append, append_assoc, All-append, List-cases, Option-cases, some,
  none, Bool-cases,
}
use sddf_i2c_driver.Interface.{Interface}
use sddf_i2c_driver.Ring.{desc}
use sddf_i2c_driver.Transport.{buf_sz}
use sddf_i2c_driver.Transport.Lens.{IsBus}
use sddf_i2c_driver.Driver.{
  Driver, interface, with_interface, i2cirq, notified, acknowledge, irq_ack,
}
use sddf_i2c_driver.Driver.Sent.{Sent, Means-length}
use sddf_i2c_driver.Server.{Server}
use sddf_i2c_driver.System.Answer.{fault}
use sddf_i2c_driver.System.Irq.{finished, i2cirq-no_buffer, i2cirq-finished_notified}
use sddf_i2c_driver.System.Job.{
  Working, i2cirq-Advances, i2cirq-Ends, fault-finished, remaining-finished,
}
use sddf_i2c_driver.System.Served.{
  irq_of, interface_back, notified-i2cirq, acknowledged, with_signals, Working-same,
}
use sddf_i2c_driver.System.Ended.{zero_or_not}
use sddf_i2c_driver.System.Session.{answer, report_of-answer}
use sddf_i2c_driver.System.Line.Bufs.{Bufs, Bufs-turn_reqs}
use sddf_i2c_driver.System.Line.Waits.{desc_of, bufs_of, addrs_of}
use sddf_i2c_driver.System.Machine.{
  Task, View, LastOne, interrupt, silent, sends, spurious, overrun, ends, goes_on,
}
use sddf_i2c_driver.System.Machine.State.{
  Told, Inv, OnTask, Step, faults, works, told_bufs, Says, told_desc,
}
use sddf_i2c_driver.System.Machine.AtWork.{
  Means-no_toks, Means-no_bytes, Means-some_toks, work_of, current-Bufs, held_kept, told_kept,
  client_kept, addr_kept,
}

module _ {bus : ℕ} (b : IsBus bus) (s : Driver) (v : Server) {w : View} (k : Inv bus s w)
    (timeout : Bool) (r : Interface) where
  abbrev on : Driver
  on = with_interface bus r s

  faults_if : i2cirq bus timeout on ≡ none → notified (irq_of bus timeout) on ≡ none
  faults_if e = notified-i2cirq b timeout on ∙ ap (acknowledge (irq_of bus timeout)) e

  spurious-Step : w.work ≡ none → Step bus (interrupt timeout r) (s, v) w
  spurious-Step f =
      let idle = rw f at k.works in
      (
        none,
        spurious w timeout r f,
        faults (rw (faults_if (i2cirq-no_buffer bus timeout on idle.1)) refl),
      )

  module _ (j : Task) (f : w.work ≡ some j) where
    abbrev task : OnTask bus s w.announced k.free k.items k.spare k.tolds j
    task = work_of s k j f

    at_work :
        Working w.announced bus on k.free
          (map desc_of k.items)
          k.spare
          (map told_desc k.tolds)
          task.left
          j.toks
          j.bytes
    at_work = Working-same b s on refl refl task.work

    last-finished : LastOne timeout r j → finished bus on ≡ true
    last-finished (inl ne) = fault-finished bus timeout on (rw (interface_back b r s) ne)
    last-finished (inr (e, e')) =
        remaining-finished bus on
          (at_work.pending.remains ∙ ap length (Means-no_toks at_work.pending.means e))

    overrun-Step :
        w.announced ≡ true → LastOne timeout r j → Step bus (interrupt timeout r) (s, v) w
    overrun-Step n last = (
      none,
      overrun w timeout r j f n last,
      faults (
          rw
            (faults_if
              (i2cirq-finished_notified bus timeout on (last-finished last) (task.work.flag ∙ n)))
            refl),
    )

    ended-Step : w.announced ≡ false → LastOne timeout r j → Step bus (interrupt timeout r) (s, v) w
    ended-Step n last =
        let st = s.if_state bus in
        let (t, e, c, only, err) =
          i2cirq-Ends b timeout on (rw n at at_work) (last-finished last) in
        let y = with_signals (irq_ack (irq_of bus timeout) ∷ t.signals) t in
        let said = answer bus (fault timeout r) j.request.client j.request.addr in
        let x : Told = record { buf = st.current_ret; len = st.current_req_len; report = said } in
        let free = k.free ++ desc st.current_req buf_sz ∷ [] in
        let tolds = k.tolds ++ x ∷ [] in
        let w' : View = record w { work = none; answers = w.answers ++ said ∷ [] } in
        let m : 1 + (length k.items + length k.free) ≡ 511 = rw f at k.all_reqs in
        let m' : 1 + (length k.tolds + length k.spare) ≡ 511 = rw f at k.all_rets in
        let reqs_turned : (bufs_of k.items ++ addrs_of k.free) ++ st.current_req ∷ []
            ≡ bufs_of k.items ++ addrs_of free =
          append_assoc (bufs_of k.items) (addrs_of k.free) (st.current_req ∷ [])
          ∙ ap (λ l. bufs_of k.items ++ l)
              (sym (map-append (λ d. d.encoded_addr) k.free (desc st.current_req buf_sz ∷ []))) in
        let rets_same : told_bufs k.tolds ++ st.current_ret ∷ addrs_of k.spare
            ≡ told_bufs tolds ++ addrs_of k.spare =
          sym (append_assoc (told_bufs k.tolds) (st.current_ret ∷ []) (addrs_of k.spare))
          ∙ ap (λ l. l ++ addrs_of k.spare) (sym (map-append (λ d. d.buf) k.tolds (x ∷ []))) in
        (
          some (silent, w'),
          ends w timeout r j f n last,
          works (y, v) silent w' (rw (acknowledged b timeout on t e) refl) tt
              (record {
                items = k.items;
                free = free;
                tolds = tolds;
                spare = k.spare;
                requests = k.requests;
                reports =
                    map-append (λ d. d.report) k.tolds (x ∷ [])
                    ∙ ap (λ l. l ++ said ∷ []) k.reports;
                req_rings = c.req_rings;
                ret_rings = rw (map-append told_desc k.tolds (x ∷ [])) c.ret_rings;
                flag = ap (λ z. z.notified) c.state ∙ k.flag;
                works = (ap (λ z. z.current_req) c.state, ap (λ z. z.current_ret) c.state);
                all_reqs = omega (arith, m, length-append k.free (desc st.current_req buf_sz ∷ []));
                all_rets = omega (arith, m', length-append k.tolds (x ∷ []));
                held = held_kept s k j f t only;
                told =
                    All-append (Says bus t.transport.mem) k.tolds (x ∷ [])
                      (told_kept s k j f t only)
                      (
                        report_of-answer bus st.current_ret (fault timeout r) j.request.client
                            j.request.addr t.transport.mem (rw (interface_back b r s) at err)
                            (client_kept s k j f t only) (addr_kept s k j f t only),
                        tt,
                      );
                bufs =
                    subst (λ l. Bufs (bufs_of k.items ++ addrs_of free) l) rets_same
                      (subst (λ l. Bufs l (told_bufs k.tolds ++ st.current_ret ∷ addrs_of k.spare))
                        reqs_turned
                        (Bufs-turn_reqs st.current_req (bufs_of k.items ++ addrs_of k.free) _
                          (current-Bufs s k j f)));
              }),
        )

    goes_on-Step : fault timeout r ≡ 0 → j.toks ≢ [] → Step bus (interrupt timeout r) (s, v) w
    goes_on-Step quiet some_left =
        let back = interface_back b r s in
        let (s', e, a) =
          i2cirq-Advances b timeout on at_work (rw back quiet)
            (Means-some_toks task.left at_work.pending.means some_left) in
        let y = with_signals (irq_ack (irq_of bus timeout) ∷ s'.signals) s' in
        let w' : View = record w {
          work = some (record j { toks = a.rest_toks; bytes = a.rest_bytes });
        } in
        let sent =
          subst (λ z. Sent z (interface bus s') j.request.addr a.now a.now_bytes) back
            (subst (λ z. Sent (interface bus on) (interface bus s') z a.now a.now_bytes) task.to
              a.sent) in
        let progress : 0 < length a.now + length a.now_bytes = omega (
          arith,
          a.less,
          Means-length at_work.pending.means,
          Means-length a.work.pending.means,
          ap length a.split ∙ length-append a.now a.rest_toks,
          ap length a.split_bytes ∙ length-append a.now_bytes a.rest_bytes,
        ) in
        (
          some (sends j.request.addr a.now a.now_bytes, w'),
          goes_on w timeout r j a.now a.rest_toks a.now_bytes a.rest_bytes f quiet some_left
              progress a.split a.split_bytes,
          works (y, v) (sends j.request.addr a.now a.now_bytes) w'
              (rw (acknowledged b timeout on s' e) refl) sent
              (record {
                items = k.items;
                free = k.free;
                tolds = k.tolds;
                spare = k.spare;
                requests = k.requests;
                reports = k.reports;
                req_rings = a.work.can_end.req_rings;
                ret_rings = a.work.can_end.ret_rings;
                flag = a.work.flag;
                works = record {
                  left = a.rest;
                  work = Working-same b s' y refl refl a.work;
                  to = a.same_target ∙ task.to;
                  at_client = rw a.ret (client_kept s k j f s' a.only);
                  at_addr = rw a.ret (addr_kept s k j f s' a.only);
                };
                all_reqs = rw f at k.all_reqs;
                all_rets = rw f at k.all_rets;
                held = held_kept s k j f s' a.only;
                told = told_kept s k j f s' a.only;
                bufs = rw (a.req, a.ret) (current-Bufs s k j f);
              }),
        )

    busy-Step : Step bus (interrupt timeout r) (s, v) w
    busy-Step =
        let last_or_not : LastOne timeout r j ⊎ ((fault timeout r ≡ 0) × (j.toks ≢ [])) =
          elim (zero_or_not (fault timeout r)) [
            | inr ne ↦ inl (inl ne)
            | inl e ↦ elim (List-cases j.toks) [
              | inl z ↦ inl (inr (z, Means-no_bytes task.work.pending.means z))
              | inr (x, xs, z) ↦ inr (e, λ h. absurd (cc (z, h)))
            ]
          ] in
        elim last_or_not [
          | inr (quiet, some_left) ↦ goes_on-Step quiet some_left
          | inl last ↦ elim (Bool-cases w.announced) [
            | inl n ↦ overrun-Step n last
            | inr n ↦ ended-Step n last
          ]
        ]

  pub interrupt-Step : Step bus (interrupt timeout r) (s, v) w
  interrupt-Step = elim (Option-cases w.work) [
    | inl f ↦ spurious-Step f
    | inr (j, f) ↦ busy-Step j f
  ]
