-- ===== src/System/Start.antt =====
-- The start of the system: i2cTransportInit in both programs, and the server's first requests.
use sddf_i2c_driver.Prelude.{
  ℕ, zero, suc, ◌+◌, ◌*◌, ◌^◌, ◌≤◌, ◌<◌, ◌≡◌, refl, inl, inr, List, [], ◌∷◌, arith, length, true,
  false, update, Bool-cases,
}
use sddf_i2c_driver.Ring.{Desc, ring_init}
use sddf_i2c_driver.Ring.Handle.{HandleHolds}
use sddf_i2c_driver.Transport.{Transport, buf_sz, buf_count, buf_addr, i2c_transport_init}
use sddf_i2c_driver.Transport.Pool.{share, length-share, i2c_transport_init-Free}
use sddf_i2c_driver.Driver
use sddf_i2c_driver.Driver.{Driver, IfState, cleared}
use sddf_i2c_driver.Server
use sddf_i2c_driver.Server.{
  Server, submit, submit_all, clear_lists, testds3231, security_list_sz, ds3231_set, ds3231_read,
}
use sddf_i2c_driver.System.Ledger.{Ledger, count, current, one_place}
use sddf_i2c_driver.System.BusInv.{BusInv}
use sddf_i2c_driver.System.Take.{at_transport}
use sddf_i2c_driver.System.Steps.{Pools, NoNull, Sound, Steps, request-Sound, Steps-Sound}

-- The region of the buffers is not at NULL and does not wrap.
pub record Region (base : ℕ) : Type 0 where
  pub above : 0 < base
  pub below : base + buf_sz * (4 * buf_count) < 2 ^ 64

-- The buffers that i2cTransportInit hands out.
abbrev pub pools : ℕ → Pools
pools base = record {
  m2_req = λ a. count a (share base 0 511 0);
  m2_ret = λ a. count a (share base 1 511 0);
  m3_req = λ a. count a (share base 2 511 0);
  m3_ret = λ a. count a (share base 3 511 0);
}

module _ {base : ℕ} (r : Region base) where
  pub addr_lem : (k i : ℕ) → k < 4 → i < 511 → buf_addr base k i ≡ base + 512 * (i + k * 511)
  addr_lem k i hk hi = grind (arith, r.below)

  -- A buffer of round `j` stands nowhere in the rounds after it, nor does NULL.
  count_before :
      (k a n i : ℕ)
      → k < 4
      → i + n ≤ 511
      → a < base + 512 * (i + k * 511)
      → count a (share base k n i) ≡ 0
  count_before k a zero i hk le lt = refl
  count_before k a (suc n) i hk le lt =
      let rest = count_before k a n (i + 1) hk (omega arith) (omega arith) in
      let e = addr_lem k i hk (omega arith) in ground (arith, rest, e)

  count_most : (k a n i : ℕ) → k < 4 → i + n ≤ 511 → count a (share base k n i) ≤ 1
  count_most k a zero i hk le = omega arith
  count_most k a (suc n) i hk le =
      let rest = count_most k a n (i + 1) hk (omega arith) in
      let e = addr_lem k i hk (omega arith) in
      let apart : (buf_addr base k i ≡ a) → count a (share base k n (i + 1)) ≡ 0 =
        λ h. count_before k a n (i + 1) hk (omega arith) (omega arith) in
      ground (arith, rest, apart)

  pub pools-NoNull : NoNull (pools base)
  pools-NoNull = record {
    m2_req = count_before 0 0 511 0 (omega arith) (omega arith) (omega (arith, r.above));
    m2_ret = count_before 1 0 511 0 (omega arith) (omega arith) (omega (arith, r.above));
    m3_req = count_before 2 0 511 0 (omega arith) (omega arith) (omega (arith, r.above));
    m3_ret = count_before 3 0 511 0 (omega arith) (omega arith) (omega (arith, r.above));
  }

-- All buffers of a pool are free.
pub all_free : (f : List Desc) → length f ≡ 511 → Ledger (λ a. count a f) 0 f []
all_free f e = record { every = λ a. omega arith; total = omega arith }

-- An interface with nothing to do.
pub record AtRest (st : IfState) : Type 0 where
  pub req : st.current_req ≡ 0
  pub ret : st.current_ret ≡ 0
  pub len : st.current_req_len ≡ 0

pub fresh :
    (f g : List Desc)
    → length f ≡ 511
    → length g ≡ 511
    → (h k : _) → HandleHolds h f []
    → HandleHolds k g []
    → (st : IfState) → AtRest st
    → BusInv (λ a. count a f) (λ a. count a g) h k st
fresh f g ef eg h k v w st z = record {
  req_free = f;
  req_used = [];
  ret_free = g;
  ret_used = [];
  req_rings = v;
  ret_rings = w;
  req_ledger = rw z.req (all_free f ef);
  ret_ledger = rw z.ret (all_free g eg);
  fit = tt;
  short = omega (arith, z.len);
  paired = (λ e. z.ret, λ e. z.req);
}

pub i2c_transport_init-again : (base : ℕ) (t : Transport) → i2c_transport_init base false t ≡ t
unfolding i2c_transport_init ring_init
i2c_transport_init-again base t = refl

submit_all-Sound :
    {g : Pools} (z : NoNull g) (requests : List (List ℕ)) (cid addr : ℕ) (d : Driver) (v : Server)
    → Sound g (at_transport d v.transport)
    → Sound g (at_transport d (submit_all requests cid addr v).transport)
unfolding submit_all
submit_all-Sound z [] cid addr d v k = k
submit_all-Sound z (r ∷ rs) cid addr d v k =
    let k' = request-Sound z r cid addr (at_transport d v.transport) v k in
    let rest = submit_all-Sound z rs cid addr d (submit r cid addr v).1 k' in
    elim (Bool-cases (submit r cid addr v).0) [ inl e ↦ rw e rest | inr e ↦ rw e k' ]

pub clear_lists-transport : (n i : ℕ) (v : Server) → (clear_lists n i v).transport ≡ v.transport
unfolding clear_lists
clear_lists-transport zero i v = refl
clear_lists-transport (suc n) i v = clear_lists-transport n (i + 1) _

module _ {base : ℕ} (r : Region base) where
  free-Sound :
      (t : Transport) (d : Driver)
      → AtRest (d.if_state 2)
      → AtRest (d.if_state 3)
      → Sound (pools base) (at_transport d (i2c_transport_init base true t))
  free-Sound t d z w =
      let f = (i2c_transport_init-Free base t).0 in
      let len : (k : ℕ) → length (share base k 511 0) ≡ 511 = λ k. length-share base k 511 0 in
      record {
        bus2 = fresh _ _ (len 0) (len 1) _ _ f.m2_req f.m2_ret _ z;
        bus3 = fresh _ _ (len 2) (len 3) _ _ f.m3_req f.m3_ret _ w;
      }

  server_init-Sound :
      (v : Server) (d : Driver)
      → AtRest (d.if_state 2)
      → AtRest (d.if_state 3)
      → Sound (pools base) (at_transport d (Server.init base v).transport)
  unfolding Server.init testds3231
  server_init-Sound v d z w =
      let u : Server = record v { transport = i2c_transport_init base true v.transport } in
      let k : Sound (pools base) (at_transport d (clear_lists security_list_sz 0 u).transport) =
        rw (clear_lists-transport security_list_sz 0 u) (free-Sound v.transport d z w) in
      submit_all-Sound (pools-NoNull r) (ds3231_set ∷ ds3231_read ∷ []) 1 0x68 d
        (clear_lists security_list_sz 0 u) k

  -- After the start of the server and then of the driver, on any memory and whatever the state
  -- before, both buses keep their books of the buffers that `i2cTransportInit` made. The region of the buffers is not at 0 and does not wrap.
  pub init-Sound :
      (v : Server) (d : Driver)
      → Sound (pools base) (Driver.init base (at_transport d (Server.init base v).transport))
  unfolding Driver.init
  init-Sound v d =
      let st = update (update d.if_state 2 (cleared (d.if_state 2))) 3 (cleared (d.if_state 3)) in
      let rest : (bus : ℕ) → AtRest (cleared (d.if_state bus)) =
        λ bus. record { req = refl; ret = refl; len = refl } in
      let k = server_init-Sound v (record d { if_state = st }) (rest 2) (rest 3) in
      rw (i2c_transport_init-again base (Server.init base v).transport)
        (record { bus2 = k.bus2; bus3 = k.bus3 })

  -- In every state that the system reaches from the start of the server and then of the driver, by
  -- any sequence of notifications that return, new requests and changes of registers by the
  -- hardware, both buses keep their books: each buffer that `i2cTransportInit` made is in the free
  -- ring, in the used ring or at work, as often as it was made, the rings are valid, each waiting
  -- request has 2 to 512 bytes, and an interface has a request exactly when it has a return
  -- buffer. The region of the buffers is not at 0 and does not wrap.
  pub Steps-init-Sound :
      (v : Server) (d : Driver) (y : Driver × Server)
      → Steps
          (Driver.init base (at_transport d (Server.init base v).transport), Server.init base v)
          y
      → Sound (pools base) y.0
  Steps-init-Sound v d y h = Steps-Sound (pools-NoNull r) _ y (init-Sound v d) h

  -- In every state that the system reaches from its start, with the region of the buffers not at 0
  -- and not wrapping, both buses keep their books, and no address stands twice among the free
  -- buffers, the used ones and the one at work of a pair of rings.
  pub Steps-init-one_owner :
      (v : Server) (d : Driver) (y : Driver × Server) (a : ℕ)
      → Steps
          (Driver.init base (at_transport d (Server.init base v).transport), Server.init base v)
          y
      → (k : Sound (pools base) y.0) × (current a (y.0.if_state 2).current_req
            + count a k.bus2.req_free
            + count a k.bus2.req_used
          ≤ 1)
        × (current a (y.0.if_state 2).current_ret
              + count a k.bus2.ret_free
              + count a k.bus2.ret_used
            ≤ 1)
        × (current a (y.0.if_state 3).current_req
              + count a k.bus3.req_free
              + count a k.bus3.req_used
            ≤ 1)
        × (current a (y.0.if_state 3).current_ret
              + count a k.bus3.ret_free
              + count a k.bus3.ret_used
            ≤ 1)
  Steps-init-one_owner v d y a h =
      let k = Steps-init-Sound v d y h in
      (
        k,
        one_place a k.bus2.req_ledger (count_most r 0 a 511 0 (omega arith) (omega arith)),
        one_place a k.bus2.ret_ledger (count_most r 1 a 511 0 (omega arith) (omega arith)),
        one_place a k.bus3.req_ledger (count_most r 2 a 511 0 (omega arith) (omega arith)),
        one_place a k.bus3.ret_ledger (count_most r 3 a 511 0 (omega arith) (omega arith)),
      )
