-- ===== src/System/Ended.antt =====
-- A request at work ends, whatever the interrupts are (i2cirq, i2c/i2c-odroid-c4.c): with all of it
-- sent, or with an error.
use sddf_i2c_driver.Prelude.{
  ◌⊎◌, ◌<◌, ◌≢◌, inl, inr, append-nil, ℕ, zero, suc, ◌≤◌, ◌≡◌, refl, ◌∙◌, ap, subst, List, [], ◌∷◌,
  ◌++◌, arith, some, Bool, true, false, length,
}
use sddf_i2c_driver.Prelude.Bits.{field}
use sddf_i2c_driver.Interface.{Interface}
use sddf_i2c_driver.Ring.{Desc}
use sddf_i2c_driver.Transport.Lens.{IsBus}
use sddf_i2c_driver.Driver.{Driver, interface, with_interface, notified, irq_ack}
use sddf_i2c_driver.Driver.Batch.{target}
use sddf_i2c_driver.Driver.Sent.{Sent}
use sddf_i2c_driver.System.Job.{
  Working, OnlyHead, i2cirq-Advances, fault-finished, remaining-finished,
}
use sddf_i2c_driver.System.Irq.{finished}
use sddf_i2c_driver.System.Answer.{fault}
use sddf_i2c_driver.Prelude.{append_assoc, sym}
use sddf_i2c_driver.System.Job.{Advanced}
use sddf_i2c_driver.System.Served.{
  Interrupts, later, irq_of, Served, batch, fault_at, Returned, Means-nil, interface_back,
  acknowledged, with_signals, Working-same, Working-last,
}

pub zero_or_not : (n : ℕ) → (n ≡ 0) ⊎ (n ≢ 0)
zero_or_not zero = inl refl
zero_or_not (suc n) = inr (omega arith)

pub no_error-fault : (timeout : Bool) (r : Interface) → field 3 1 r.ctl ≡ 0 → fault timeout r ≡ 0
no_error-fault timeout r e = rw e refl

-- The end of a request of which `request` is left: `n` interrupts without an error and one more,
-- with the error `err` or with none, have had the tokens `now` and the data `now_bytes` sent to the
-- address `to`, which is all of them if there is no error.
pub record Ended (bus to : ℕ) (hw : Interrupts) (s : Driver) (rf ru tf tu : List Desc)
    (request toks bytes : List ℕ) : Type 0 where
  pub n : ℕ
  pub err : ℕ
  pub last : Driver
  pub now : List ℕ
  pub rest : List ℕ
  pub now_bytes : List ℕ
  pub rest_bytes : List ℕ
  pub split : toks ≡ now ++ rest
  pub split_bytes : bytes ≡ now_bytes ++ rest_bytes
  pub few : n ≤ length request
  pub served : Served bus to (suc n) hw now now_bytes s last
  pub returned : Returned bus err n hw s last rf ru tf tu
  pub clean : (i : ℕ) → i < n → fault_at hw i ≡ 0
  pub error : fault_at hw n ≡ err
  pub all : err ≡ 0 → (rest ≡ []) × (rest_bytes ≡ [])

module _ {bus : ℕ} (b : IsBus bus) {rf ru tf tu : List Desc} where
  -- What is served from the next state on is served from this one.
  Returned-back :
      {err n : ℕ} {hw : Interrupts} {s s' t : Driver}
      → (s'.if_state bus).current_req ≡ (s.if_state bus).current_req
      → (s'.if_state bus).current_ret ≡ (s.if_state bus).current_ret
      → (s'.if_state bus).current_req_len ≡ (s.if_state bus).current_req_len
      → OnlyHead (s.if_state bus).current_ret s.transport.mem s'.transport.mem
      → s'.signals ≡ irq_ack (irq_of bus (hw 0).0) ∷ s.signals
      → Returned bus err n (later hw) s' t rf ru tf tu
      → Returned bus err (suc n) hw s t rf ru tf tu
  Returned-back {s = s} {s' = s'} {t = t} req ret len only sig v =
      let same : OnlyHead (s.if_state bus).current_ret s'.transport.mem t.transport.mem =
        rw (← ret) v.only in
      record {
        req_rings = rw (← req) v.req_rings;
        ret_rings = rw (← ret, ← len) v.ret_rings;
        idle = v.idle;
        only = λ a ne ne'. same a ne ne' ∙ only a ne ne';
        error = rw (← ret) v.error;
        told = rw (← sig) v.told;
      }

  -- The next interrupt ends the request, with nothing sent from here on.
  next-Ended :
      {request toks bytes : List ℕ} (to : ℕ) (hw : Interrupts) (s : Driver)
      → Working false bus s rf ru tf tu request toks bytes
      → finished bus (with_interface bus (hw 0).1 s) ≡ true
      → (fault_at hw 0 ≡ 0 → (toks ≡ []) × (bytes ≡ []))
      → Ended bus to hw s rf ru tf tu request toks bytes
  next-Ended {toks = toks} {bytes = bytes} to hw s w f all =
      let (t, served, returned) = Working-last b to hw s w f in
      record {
        n = 0;
        err = fault_at hw 0;
        last = t;
        now = [];
        rest = toks;
        now_bytes = [];
        rest_bytes = bytes;
        split = refl;
        split_bytes = refl;
        few = omega arith;
        served = served;
        returned = returned;
        clean = λ i lt. absurd (omega (arith, lt));
        error = refl;
        all = all;
      }

  -- A part is sent, and the rest is ended later.
  Advanced-Ended :
      {request toks bytes : List ℕ} (hw : Interrupts) (s s' : Driver)
      → notified (irq_of bus (hw 0).0) (with_interface bus (hw 0).1 s)
        ≡ some (with_signals (irq_ack (irq_of bus (hw 0).0) ∷ s'.signals) s')
      → fault_at hw 0 ≡ 0
      → (a : Advanced false bus (with_interface bus (hw 0).1 s) s' rf ru tf tu request toks bytes)
      → Ended bus
          (target (s.if_state bus) s.transport.mem)
          (later hw)
          (with_signals (irq_ack (irq_of bus (hw 0).0) ∷ s'.signals) s')
          rf
          ru
          tf
          tu
          a.rest
          a.rest_toks
          a.rest_bytes
      → Ended bus (target (s.if_state bus) s.transport.mem) hw s rf ru tf tu request toks bytes
  Advanced-Ended hw s s' e none a k =
      let to = target (s.if_state bus) s.transport.mem in
      let sent =
        subst (λ y. Sent y (interface bus s') to a.now a.now_bytes) (interface_back b (hw 0).1 s)
          a.sent in
      record {
        n = suc k.n;
        err = k.err;
        last = k.last;
        now = a.now ++ k.now;
        rest = k.rest;
        now_bytes = a.now_bytes ++ k.now_bytes;
        rest_bytes = k.rest_bytes;
        split = a.split ∙ ap (λ l. a.now ++ l) k.split ∙ sym (append_assoc a.now k.now k.rest);
        split_bytes =
            a.split_bytes
            ∙ ap (λ l. a.now_bytes ++ l) k.split_bytes
            ∙ sym (append_assoc a.now_bytes k.now_bytes k.rest_bytes);
        few = omega (arith, k.few, a.less);
        served = batch e sent k.served;
        returned =
            Returned-back a.req a.ret a.len a.only
              (ap (λ l. irq_ack (irq_of bus (hw 0).0) ∷ l) a.signals) k.returned;
        clean = first k.n k.clean;
        error = k.error;
        all = k.all;
      }
    where
      first :
          (n : ℕ)
          → ((i : ℕ) → i < n → fault_at (later hw) i ≡ 0)
          → (i : ℕ) → i < suc n
          → fault_at hw i ≡ 0
      first n h zero lt = none
      first n h (suc i) lt = h i (omega (arith, lt))

  Working-Ended_within :
      (k : ℕ) {request toks bytes : List ℕ} (hw : Interrupts) (s : Driver)
      → length request ≤ k
      → Working false bus s rf ru tf tu request toks bytes
      → Ended bus (target (s.if_state bus) s.transport.mem) hw s rf ru tf tu request toks bytes
  Working-Ended_within k {request = []} hw s le w =
      next-Ended _ hw s w (remaining-finished bus (with_interface bus (hw 0).1 s) w.pending.remains)
        (λ e. Means-nil w.pending.means)
  Working-Ended_within zero {request = x ∷ xs} hw s le w = absurd (omega (arith, le))
  Working-Ended_within (suc k) {request = x ∷ xs} hw s le w =
      let r = (hw 0).1 in
      let on = with_interface bus r s in
      let back = interface_back b r s in
      elim (zero_or_not (fault_at hw 0)) [
        | inr ne ↦
            next-Ended _ hw s w (fault-finished bus (hw 0).0 on (rw back ne)) (λ e. absurd (ne e))
        | inl e ↦
            let (s', i, a) =
              i2cirq-Advances b (hw 0).0 on (Working-same b s on refl refl w) (rw back e)
                (omega arith) in
            let t = with_signals (irq_ack (irq_of bus (hw 0).0) ∷ s'.signals) s' in
            let rest =
              Working-Ended_within k (later hw) t (omega (arith, a.less, le))
                (Working-same b s' t refl refl a.work) in
            Advanced-Ended hw s s' (acknowledged b (hw 0).0 on s' i) e a (
              subst (λ z. Ended bus z (later hw) t rf ru tf tu a.rest a.rest_toks a.rest_bytes)
                a.same_target rest)
      ]

  -- A request at work ends, whatever the interrupts are, timeouts or not, with errors or without:
  -- a request of which the bytes that are left mean tokens and write data, with an address of at
  -- most 0x7f, while the rings have room for its two buffers, these do not overlap, and no other
  -- request was announced. Each interrupt returns, and after at most one for each byte left and
  -- one more, without an error in any but the last, the interface is idle, both buffers are back
  -- on their rings, the return buffer has the error of the last interrupt, or 0, each interrupt is
  -- acknowledged, and the server is notified in the last one. A first part of the tokens and write
  -- data that were left was then loaded into the registers, in order and part by part, each part
  -- with the list processor started and with the request's address in the address field, its
  -- highest bit set too if it was set before; it is all of them if there was no error. Nothing
  -- else in memory is changed but the error bytes of the return buffer.
  pub Working-Ended :
      {request toks bytes : List ℕ} (hw : Interrupts) (s : Driver)
      → Working false bus s rf ru tf tu request toks bytes
      → Ended bus (target (s.if_state bus) s.transport.mem) hw s rf ru tf tu request toks bytes
  Working-Ended {request = request} hw s w =
      Working-Ended_within (length request) hw s (omega arith) w

  -- With no error, all of it is sent.
  pub Working-Served :
      {request toks bytes : List ℕ} (hw : Interrupts) (s : Driver)
      → ((i : ℕ) → field 3 1 (hw i).1.ctl ≡ 0)
      → Working false bus s rf ru tf tu request toks bytes
      → (n : ℕ) × (t : Driver) × (n ≤ length request)
        × Served bus (target (s.if_state bus) s.transport.mem) (suc n) hw toks bytes s t
        × Returned bus 0 n hw s t rf ru tf tu
  Working-Served hw s quiet w =
      let k = Working-Ended hw s w in
      let none = sym k.error ∙ no_error-fault (hw k.n).0 (hw k.n).1 (quiet k.n) in
      let (x, y) = k.all none in
      (
        k.n,
        k.last,
        k.few,
        rw (k.split, k.split_bytes, x, y, append-nil, append-nil) k.served,
        rw none at k.returned,
      )
