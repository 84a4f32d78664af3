-- ===== src/System/BusInv.antt =====
-- What holds of one bus between handlers: its rings, and the state of its interface.
use sddf_i2c_driver.Prelude.{
  ℕ, ◌≤◌, ◌≡◌, refl, ◌∙◌, ◌≢◌, ◌↔◌, List, arith, All, Option-cases, inl, inr, none, some, update_ne,
}
use sddf_i2c_driver.Ring.{Desc, RingHandle}
use sddf_i2c_driver.Ring.Handle.{HandleHolds}
use sddf_i2c_driver.Transport.{req_ring, ret_ring}
use sddf_i2c_driver.Transport.Lens.{IsBus, m2, m3, other}
use sddf_i2c_driver.Driver.{
  Driver, IfState, interface, with_state, finish_load, i2c_load_tokens, load,
}
use sddf_i2c_driver.System.Ledger.{Ledger}

-- A used request holds its client and address bytes, and fits its buffer.
abbrev pub Fits : Desc → Type 0
Fits d = (2 ≤ d.len) × (d.len ≤ 512)

-- `req_pool` and `ret_pool` say which buffers belong to the bus. An interface has a return buffer
-- exactly when it has a request.
pub record BusInv (req_pool ret_pool : ℕ → ℕ) (req ret : RingHandle) (st : IfState) : Type 0 where
  pub req_free : List Desc
  pub req_used : List Desc
  pub ret_free : List Desc
  pub ret_used : List Desc
  pub req_rings : HandleHolds req req_free req_used
  pub ret_rings : HandleHolds ret ret_free ret_used
  pub req_ledger : Ledger req_pool st.current_req req_free req_used
  pub ret_ledger : Ledger ret_pool st.current_ret ret_free ret_used
  pub fit : All Fits req_used
  pub short : st.current_req_len ≤ 510
  pub paired : (st.current_req ≡ 0) ↔ (st.current_ret ≡ 0)

-- The bus `bus` of the driver's state.
abbrev pub Keeps : (req_pool ret_pool : ℕ → ℕ) → ℕ → Driver → Type 0
Keeps p q bus s = BusInv p q (req_ring bus s.transport) (ret_ring bus s.transport) (s.if_state bus)

-- From `s` to `t` the bus `c` is left alone.
pub record Untouched (c : ℕ) (s t : Driver) : Type 0 where
  pub req : req_ring c t.transport ≡ req_ring c s.transport
  pub ret : ret_ring c t.transport ≡ ret_ring c s.transport
  pub state : t.if_state c ≡ s.if_state c
  pub regs : interface c t ≡ interface c s

module _ {p q : ℕ → ℕ} where
  pub Untouched-Keeps : {c : ℕ} {s t : Driver} → Untouched c s t → Keeps p q c s → Keeps p q c t
  Untouched-Keeps u k = rw (u.req, u.ret, u.state) k

  -- Only these parts of an interface's state matter.
  pub BusInv-state :
      {req ret : RingHandle} {st st' : IfState}
      → st'.current_req ≡ st.current_req
      → st'.current_ret ≡ st.current_ret
      → st'.current_req_len ≡ st.current_req_len
      → BusInv p q req ret st
      → BusInv p q req ret st'
  BusInv-state a b c v = record {
    req_free = v.req_free;
    req_used = v.req_used;
    ret_free = v.ret_free;
    ret_used = v.ret_used;
    req_rings = v.req_rings;
    ret_rings = v.ret_rings;
    req_ledger = rw a v.req_ledger;
    ret_ledger = rw b v.ret_ledger;
    fit = v.fit;
    short = rw c v.short;
    paired = rw (a, b) v.paired;
  }

pub other_ne : {bus : ℕ} → IsBus bus → other bus ≢ bus
other_ne m2 = omega arith
other_ne m3 = omega arith

-- A change of state and registers of one bus leaves the other alone.
pub with_state-Untouched :
    {bus : ℕ} (b : IsBus bus) (st : IfState) (s : Driver)
    → Untouched (other bus) s (with_state bus st s)
with_state-Untouched {bus} b st s = record {
  req = refl;
  ret = refl;
  state = update_ne s.if_state bus (other bus) st (other_ne b);
  regs = refl;
}

pub Untouched-refl : {c : ℕ} {s : Driver} → Untouched c s s
Untouched-refl = record { req = refl; ret = refl; state = refl; regs = refl }

pub Untouched-trans : {c : ℕ} {s t u : Driver} → Untouched c s t → Untouched c t u → Untouched c s u
Untouched-trans f g = record {
  req = g.req ∙ f.req;
  ret = g.ret ∙ f.ret;
  state = g.state ∙ f.state;
  regs = g.regs ∙ f.regs;
}

-- What a load of tokens leaves alone, on every branch that returns.
pub record LoadFrame (bus : ℕ) (s t : Driver) : Type 0 where
  pub transport : t.transport ≡ s.transport
  pub signals : t.signals ≡ s.signals
  pub req : (t.if_state bus).current_req ≡ (s.if_state bus).current_req
  pub ret : (t.if_state bus).current_ret ≡ (s.if_state bus).current_ret
  pub len : (t.if_state bus).current_req_len ≡ (s.if_state bus).current_req_len
  pub notified : (t.if_state bus).notified ≡ (s.if_state bus).notified
  pub apart : Untouched (other bus) s t

pub load-LoadFrame :
    {bus : ℕ} (b : IsBus bus) (s t : Driver) → load bus s ≡ some t → LoadFrame bus s t
unfolding i2c_load_tokens finish_load
load-LoadFrame m2 s t e = ground arith
load-LoadFrame m3 s t e = ground arith

load-ne-none : (bus : ℕ) (s : Driver) → (s.if_state bus).current_req ≢ 0 → load bus s ≢ none
unfolding i2c_load_tokens
load-ne-none bus s ne = ground arith

-- A load returns unless there is no request.
pub load-some :
    (bus : ℕ) (s : Driver) → (s.if_state bus).current_req ≢ 0 → (t : Driver) × (load bus s ≡ some t)
load-some bus s ne = elim (Option-cases (load bus s)) [
  | inl e ↦ absurd (load-ne-none bus s ne e)
  | inr h ↦ h
]

pub load-none : (bus : ℕ) (s : Driver) → (s.if_state bus).current_req ≡ 0 → load bus s ≡ none
unfolding i2c_load_tokens
load-none bus s e = ground arith

pub LoadFrame-Keeps :
    {p q : ℕ → ℕ} {bus : ℕ} {s t : Driver} → LoadFrame bus s t → Keeps p q bus s → Keeps p q bus t
LoadFrame-Keeps {s = s} f k = rw f.transport (BusInv-state f.req f.ret f.len k)
