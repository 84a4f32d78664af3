-- ===== src/System/Job.antt =====
-- A request at work on one bus (i2cirq, i2c/i2c-odroid-c4.c): one interrupt with no error.
use sddf_i2c_driver.Prelude.{
  ℕ, ◌+◌, ◌-◌, ◌≤◌, ◌<◌, ◌≡◌, refl, ◌||◌, sym, ◌∙◌, subst, ◌≢◌, ◌⊎◌, List, ◌++◌, arith, none, some,
  ==_of_eq, Bool, true, false, length, ℤ, ==_of_ne, Option,
}
use sddf_i2c_driver.Interface.{Interface, i2c_halt}
use sddf_i2c_driver.Ring.{Desc}
use sddf_i2c_driver.Transport.{Memory}
use sddf_i2c_driver.Transport.Message.{Stored-agree}
use sddf_i2c_driver.Transport.Lens.{IsBus, m2, m3}
use sddf_i2c_driver.Driver.{Driver, interface, i2cirq, load, complete, i2c_load_tokens}
use sddf_i2c_driver.Driver.Load.{tokens_at}
use sddf_i2c_driver.Driver.Batch.{
  Pending, Dispatched, target, tokens_at_lem, i2c_load_tokens-Dispatched,
}
use sddf_i2c_driver.Driver.Sent.{Sent, Dispatched-Sent, Dispatched-shrinks}
use sddf_i2c_driver.System.Complete.{CanEnd, Completed, complete-Completed}
use sddf_i2c_driver.System.Irq.{finished, answered, i2cirq-goes_on, i2cirq-finished}
use sddf_i2c_driver.System.Answer.{answered-Written, fault, fault-halt, fault-none, fault-some}

-- Two buffers of 512 bytes that do not overlap.
abbrev pub Apart : ℕ → ℕ → Type 0
Apart a b = (a + 512 ≤ b) ⊎ (b + 512 ≤ a)

-- A request is at work on the bus: `request` is left of it, and `told` says whether another one was
-- announced meanwhile.
pub record Working (told : Bool) (bus : ℕ) (s : Driver) (rf ru tf tu : List Desc)
    (request toks bytes : List ℕ) : Type 0 where
  pub can_end : CanEnd bus s rf ru tf tu
  pub pending : Pending (s.if_state bus) s.transport.mem request toks bytes
  pub small : target (s.if_state bus) s.transport.mem ≤ 0x7f
  pub flag : (s.if_state bus).notified ≡ told
  pub apart : Apart (s.if_state bus).current_req (s.if_state bus).current_ret

-- Only the two first bytes of the buffer at `ret` differ.
abbrev pub OnlyHead : ℕ → Memory → Memory → Type 0
OnlyHead ret m m' = (a : ℕ) → a ≢ ret → a ≢ ret + 1 → m' a ≡ m a

pub load_of_tokens :
    (bus : ℕ) (s t : Driver) {r : ℤ} → i2c_load_tokens bus s ≡ some (r, t) → load bus s ≡ some t
load_of_tokens bus s t e =
    subst (λ o. (elim o as (λ x. Option Driver) [ none ↦ none | some x ↦ some x.1 ]) ≡ some t)
      (sym e) refl

answered-addr :
    {bus : ℕ} (b : IsBus bus) (timeout : Bool) (s : Driver)
    → (interface bus (answered bus timeout s)).addr ≡ (interface bus s).addr
unfolding i2c_halt
answered-addr m2 timeout s = refl
answered-addr m3 timeout s = refl

-- From `s` to `s'` an interrupt has the next part of the request sent.
pub record Advanced (told : Bool) (bus : ℕ) (s s' : Driver) (rf ru tf tu : List Desc)
    (request toks bytes : List ℕ) : Type 0 where
  pub now : List ℕ
  pub now_bytes : List ℕ
  pub rest : List ℕ
  pub rest_toks : List ℕ
  pub rest_bytes : List ℕ
  pub split : toks ≡ now ++ rest_toks
  pub split_bytes : bytes ≡ now_bytes ++ rest_bytes
  pub sent :
      Sent
        (interface bus s)
        (interface bus s')
        (target (s.if_state bus) s.transport.mem)
        now
        now_bytes
  pub work : Working told bus s' rf ru tf tu rest rest_toks rest_bytes
  pub less : length rest < length request
  pub same_target :
      target (s'.if_state bus) s'.transport.mem ≡ target (s.if_state bus) s.transport.mem
  pub req : (s'.if_state bus).current_req ≡ (s.if_state bus).current_req
  pub ret : (s'.if_state bus).current_ret ≡ (s.if_state bus).current_ret
  pub len : (s'.if_state bus).current_req_len ≡ (s.if_state bus).current_req_len
  pub only : OnlyHead (s.if_state bus).current_ret s.transport.mem s'.transport.mem
  pub signals : s'.signals ≡ s.signals

module _ {told : Bool} {bus : ℕ} (b : IsBus bus) {rf ru tf tu : List Desc}
    {request toks bytes : List ℕ} where
  -- Reading the registers leaves the request as it is.
  answered-Working :
      (timeout : Bool) (s : Driver)
      → Working told bus s rf ru tf tu request toks bytes
      → Working told bus (answered bus timeout s) rf ru tf tu request toks bytes
        × OnlyHead
            (s.if_state bus).current_ret
            s.transport.mem
            (answered bus timeout s).transport.mem
        × ((answered bus timeout s).transport.mem (s.if_state bus).current_ret
            ≡ fault timeout (interface bus s))
        × (target (s.if_state bus) (answered bus timeout s).transport.mem
            ≡ target (s.if_state bus) s.transport.mem)
  answered-Working timeout s w =
      let st = s.if_state bus in
      let m' = (answered bus timeout s).transport.mem in
      let a = answered-Written bus timeout s in
      let only : OnlyHead st.current_ret s.transport.mem m' =
        λ c ne ne'. a.rest c (omega arith) (omega arith) in
      let head : st.current_ret + 0 ≡ st.current_ret = omega arith in
      let at : tokens_at m' st.current_req 1 ≡ tokens_at s.transport.mem st.current_req 1 =
        tokens_at_lem m' st.current_req w.pending.space 1 (omega arith)
        ∙ only (st.current_req + 1) (omega (arith, w.apart)) (omega (arith, w.apart))
        ∙ sym (tokens_at_lem s.transport.mem st.current_req w.pending.space 1 (omega arith)) in
      (
        record {
          can_end = record {
            req_rings = w.can_end.req_rings;
            ret_rings = w.can_end.ret_rings;
            req_room = w.can_end.req_room;
            ret_room = w.can_end.ret_room;
            busy = w.can_end.busy;
            ret_busy = w.can_end.ret_busy;
            short = w.can_end.short;
          };
          pending = record {
            busy = w.pending.busy;
            space = w.pending.space;
            short = w.pending.short;
            remains = w.pending.remains;
            fits = w.pending.fits;
            stored =
                Stored-agree s.transport.mem m'
                  (st.current_req + 2 + (st.current_req_len - length request)) request
                  (λ c le lt.
                    only c (omega (arith, w.apart, w.can_end.short, w.pending.fits))
                      (omega (arith, w.apart, w.can_end.short, w.pending.fits)))
                  w.pending.stored;
            means = w.pending.means;
          };
          small = rw at w.small;
          flag = w.flag;
          apart = w.apart;
        },
        only,
        subst (λ x. m' x ≡ fault timeout (interface bus s)) head
            (a.error ∙ fault-halt timeout (interface bus s)),
        at,
      )

  -- A load leaves the rest of the request at work.
  pub Dispatched-Working :
      (a s' : Driver) {r r' : Interface}
      → Working told bus a rf ru tf tu request toks bytes
      → (d : Dispatched (a.if_state bus) a.transport.mem r request toks bytes (s'.if_state bus) r')
      → s'.transport ≡ a.transport
      → Working told bus s' rf ru tf tu d.rest d.later d.later_bytes
  Dispatched-Working a s' w d same =
      let (req, ret, len, same_flag) = d.kept in
      record {
        can_end = record {
          req_rings = rw same w.can_end.req_rings;
          ret_rings = rw same w.can_end.ret_rings;
          req_room = w.can_end.req_room;
          ret_room = w.can_end.ret_room;
          busy = rw req w.can_end.busy;
          ret_busy = rw ret w.can_end.ret_busy;
          short = rw len w.can_end.short;
        };
        pending = rw same d.pending;
        small = rw (same, req) w.small;
        flag = same_flag ∙ w.flag;
        apart = rw (req, ret) w.apart;
      }

  -- With a part of the request left, the interrupt loads the next part.
  pub i2cirq-Advances :
      (timeout : Bool) (s : Driver)
      → Working told bus s rf ru tf tu request toks bytes
      → fault timeout (interface bus s) ≡ 0
      → 0 < length request
      → (s' : Driver) × (i2cirq bus timeout s ≡ some s')
        × Advanced told bus s s' rf ru tf tu request toks bytes
  i2cirq-Advances timeout s w quiet more =
      let (w', only, told_err, to) = answered-Working timeout s w in
      let a = answered bus timeout s in
      let (s', e, d, same, sig, frame) = i2c_load_tokens-Dispatched bus a w'.pending w'.small in
      let (req, ret, len, same_flag) = d.kept in
      let f : finished bus s ≡ false = rw (
        fault-none timeout (interface bus s) quiet,
        ==_of_ne (s.if_state bus).remaining 0 (omega (arith, w.pending.remains)),
      ) in
      (
        s',
        i2cirq-goes_on bus timeout s w.can_end.ret_busy f ∙ load_of_tokens bus a s' e,
        record {
          now = d.now;
          now_bytes = d.now_bytes;
          rest = d.rest;
          rest_toks = d.later;
          rest_bytes = d.later_bytes;
          split = d.split;
          split_bytes = d.split_bytes;
          sent =
              subst (λ x. Sent (interface bus s) (interface bus s') x d.now d.now_bytes) to
                (Dispatched-Sent (answered-addr b timeout s) d);
          work = Dispatched-Working a s' w' d same;
          less = Dispatched-shrinks w'.pending d more;
          same_target = rw (same, req) to;
          req = req;
          ret = ret;
          len = len;
          only = rw same only;
          signals = sig;
        },
      )

-- An interrupt ends the request by an error, or because nothing is left to send.
pub fault-finished :
    (bus : ℕ) (timeout : Bool) (s : Driver)
    → fault timeout (interface bus s) ≢ 0
    → finished bus s ≡ true
fault-finished bus timeout s ne = rw (fault-some timeout (interface bus s) ne) refl

or_true_right : (x y : Bool) → y ≡ true → x || y ≡ true
or_true_right true y e = refl
or_true_right false y e = e

pub remaining-finished :
    (bus : ℕ) (s : Driver) → (s.if_state bus).remaining ≡ 0 → finished bus s ≡ true
remaining-finished bus s z = or_true_right _ _ (==_of_eq (s.if_state bus).remaining 0 z)

module _ {bus : ℕ} (b : IsBus bus) {rf ru tf tu : List Desc} {request toks bytes : List ℕ} where
  -- The interrupt that ends the request notes the error in the return buffer.
  pub i2cirq-Ends :
      (timeout : Bool) (s : Driver)
      → Working false bus s rf ru tf tu request toks bytes
      → finished bus s ≡ true
      → (s' : Driver) × (i2cirq bus timeout s ≡ some s')
        × Completed bus (answered bus timeout s) s' rf ru tf tu
        × OnlyHead (s.if_state bus).current_ret s.transport.mem s'.transport.mem
        × (s'.transport.mem (s.if_state bus).current_ret ≡ fault timeout (interface bus s))
  i2cirq-Ends timeout s w f =
      let (w', only, told_err, to) = answered-Working b timeout s w in
      let a = answered bus timeout s in
      let c = complete-Completed b a w'.can_end in
      (
        complete bus a,
        i2cirq-finished bus timeout s w.can_end.ret_busy f w.flag,
        c,
        rw c.mem only,
        rw c.mem told_err,
      )
