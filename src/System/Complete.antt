-- ===== src/System/Complete.antt =====
-- The end of a request in i2cirq (i2c/i2c-odroid-c4.c): the buffers change hands.
use sddf_i2c_driver.Prelude.{
  ℤ, ℕ, ◌≤◌, ◌<◌, ◌≡◌, refl, ◌∙◌, ap, ◌≢◌, List, [], ◌∷◌, ◌++◌, arith, length, update_self,
}
use sddf_i2c_driver.Prelude.Words.{sext64, sext64_of_lt}
use sddf_i2c_driver.Ring.{Desc, desc}
use sddf_i2c_driver.Ring.Handle.{HandleHolds}
use sddf_i2c_driver.Transport.{Transport, buf_sz, req_ring, ret_ring, push_ret_buf, release_req_buf}
use sddf_i2c_driver.Transport.Lens.{IsBus, m2, m3, other}
use sddf_i2c_driver.Transport.Calls.{push_ret_buf-ok, release_req_buf-ok}
use sddf_i2c_driver.Driver.{Driver, IfState, interface, complete, notify, server_notify_id}
use sddf_i2c_driver.System.Ledger.{current_room, current-free, current-used}
use sddf_i2c_driver.System.BusInv.{Keeps, Untouched}

-- The state of an interface whose request is done.
abbrev pub emptied : IfState → IfState
emptied st = record st { current_ret = 0; current_req = 0; current_req_len = 0; remaining = 0 }

pub complete-state :
    (bus : ℕ) (s : Driver) → (complete bus s).if_state bus ≡ emptied (s.if_state bus)
unfolding complete
complete-state bus s = update_self s.if_state bus (emptied (s.if_state bus))

complete-apart :
    {bus : ℕ} (b : IsBus bus) (s : Driver)
    → ((complete bus s).if_state (other bus) ≡ s.if_state (other bus))
      × (interface (other bus) (complete bus s) ≡ interface (other bus) s)
unfolding complete
complete-apart m2 s = (refl, refl)
complete-apart m3 s = (refl, refl)

complete-transport :
    (bus : ℕ) (s : Driver) (t u : Transport) (x y : ℤ)
    → push_ret_buf s.transport bus
        (s.if_state bus).current_ret
        (sext64 (s.if_state bus).current_req_len)
      ≡ (x, t)
    → release_req_buf t bus (s.if_state bus).current_req ≡ (y, u)
    → (complete bus s).transport ≡ u
unfolding complete
complete-transport bus s t u x y e f = rw (e, f)

-- What the end of a request makes of the rings that hold `rf`, `ru`, `tf` and `tu`.
pub record Completed (bus : ℕ) (s t : Driver) (rf ru tf tu : List Desc) : Type 0 where
  pub req_rings :
      HandleHolds
        (req_ring bus t.transport)
        (rf ++ desc (s.if_state bus).current_req buf_sz ∷ [])
        ru
  pub ret_rings :
      HandleHolds
        (ret_ring bus t.transport)
        tf
        (tu ++ desc (s.if_state bus).current_ret (s.if_state bus).current_req_len ∷ [])
  pub mem : t.transport.mem ≡ s.transport.mem
  pub state : t.if_state bus ≡ emptied (s.if_state bus)
  pub signals : t.signals ≡ notify server_notify_id ∷ s.signals
  pub apart : Untouched (other bus) s t

complete-signals :
    (bus : ℕ) (s : Driver) → (complete bus s).signals ≡ notify server_notify_id ∷ s.signals
unfolding complete
complete-signals bus s = refl

-- A request is at work and can end: there is room for its buffers.
pub record CanEnd (bus : ℕ) (s : Driver) (rf ru tf tu : List Desc) : Type 0 where
  pub req_rings : HandleHolds (req_ring bus s.transport) rf ru
  pub ret_rings : HandleHolds (ret_ring bus s.transport) tf tu
  pub req_room : length rf < 511
  pub ret_room : length tu < 511
  pub busy : (s.if_state bus).current_req ≢ 0
  pub ret_busy : (s.if_state bus).current_ret ≢ 0
  pub short : (s.if_state bus).current_req_len ≤ 510

pub complete-Completed :
    {bus : ℕ} {rf ru tf tu : List Desc} (b : IsBus bus) (s : Driver)
    → CanEnd bus s rf ru tf tu
    → Completed bus s (complete bus s) rf ru tf tu
complete-Completed {bus} {rf} {ru} b s k =
    let st = s.if_state bus in
    let len : sext64 st.current_req_len ≡ st.current_req_len =
      sext64_of_lt st.current_req_len (omega (arith, k.short)) in
    let (t, e, w, m, f) =
      push_ret_buf-ok b s.transport st.current_ret (sext64 st.current_req_len) k.ret_rings
        k.ret_room k.ret_busy (omega (arith, k.short, len)) in
    let reqs : HandleHolds (req_ring bus t) rf ru = rw (f.req bus) k.req_rings in
    let (u, e', w', m', g) = release_req_buf-ok b t st.current_req reqs k.req_room k.busy in
    let a = complete-transport bus s t u _ _ e e' in
    record {
      req_rings = rw a w';
      ret_rings = rw (a, g.ret bus, ← len) w;
      mem = ap (λ x. x.mem) a ∙ m' ∙ m;
      state = complete-state bus s;
      signals = complete-signals bus s;
      apart = record {
        req = ap (req_ring (other bus)) a ∙ g.req ∙ f.req (other bus);
        ret = ap (ret_ring (other bus)) a ∙ g.ret (other bus) ∙ f.ret;
        state = (complete-apart b s).0;
        regs = (complete-apart b s).1;
      };
    }

module _ {p q : ℕ → ℕ} {bus : ℕ} where
  -- A bus that keeps its books has room for what is at work.
  pub Keeps-CanEnd :
      (s : Driver) (k : Keeps p q bus s)
      → (s.if_state bus).current_req ≢ 0
      → CanEnd bus s k.req_free k.req_used k.ret_free k.ret_used
  Keeps-CanEnd s k busy =
      let ret_busy : (s.if_state bus).current_ret ≢ 0 = λ z. busy (k.paired.1 z) in
      record {
        req_rings = k.req_rings;
        ret_rings = k.ret_rings;
        req_room = omega (arith, current_room busy k.req_ledger);
        ret_room = omega (arith, current_room ret_busy k.ret_ledger);
        busy = busy;
        ret_busy = ret_busy;
        short = k.short;
      }

  -- The request's buffer becomes free, and the return buffer used.
  pub complete-Keeps :
      (b : IsBus bus) (s : Driver)
      → Keeps p q bus s
      → (s.if_state bus).current_req ≢ 0
      → Keeps p q bus (complete bus s) × Untouched (other bus) s (complete bus s)
  complete-Keeps b s k busy =
      let c = complete-Completed b s (Keeps-CanEnd s k busy) in
      (
        rw c.state (record {
          req_free = k.req_free ++ desc (s.if_state bus).current_req buf_sz ∷ [];
          req_used = k.req_used;
          ret_free = k.ret_free;
          ret_used =
              k.ret_used ++ desc (s.if_state bus).current_ret (s.if_state bus).current_req_len ∷ [];
          req_rings = c.req_rings;
          ret_rings = c.ret_rings;
          req_ledger = current-free _ busy k.req_ledger;
          ret_ledger = current-used _ (λ z. busy (k.paired.1 z)) k.ret_ledger;
          fit = k.fit;
          short = omega arith;
          paired = (λ z. refl, λ z. refl);
        }),
        c.apart,
      )
