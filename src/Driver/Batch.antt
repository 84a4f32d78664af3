-- ===== src/Driver/Batch.antt =====
-- i2cLoadTokens (i2c/i2c-odroid-c4.c) sends the next part of the current request to the hardware.
use sddf_i2c_driver.Prelude.{
  ℕ, ◌+◌, ◌-◌, ◌^◌, ◌≤◌, ◌<◌, ◌≡◌, refl, sym, ◌∙◌, ap, ◌≢◌, ◌⊎◌, inl, inr, Bool, some, List, [],
  ◌∷◌, ◌++◌, arith, length, bit_and, bit_or, pos, ==_of_ne, ltb_of_le, update_self,
}
use sddf_i2c_driver.Prelude.Words.{u32, u64, sext64, not32}
use sddf_i2c_driver.Interface.{Interface, i2c_start, i2c_flush}
use sddf_i2c_driver.Transport.{Memory}
use sddf_i2c_driver.Transport.Message.{Stored}
use sddf_i2c_driver.Driver.{
  Driver, IfState, interface, with_interface, with_state, start_loader, left_over, finish_load,
  i2c_load_tokens,
}
use sddf_i2c_driver.Driver.Load.{Loader, tokens_at, set_address, load_loop}
use sddf_i2c_driver.Driver.Address.{Addressed, set_address-Addressed}
use sddf_i2c_driver.Driver.Load.Spec.{Means, Reads}
use sddf_i2c_driver.Driver.Load.Slots.{Slots}
use sddf_i2c_driver.Driver.Load.Loop.{Ready, Batched, load_loop-Batched}

module _ (m : Memory) (req : ℕ) (space : req + 2 ^ 31 < 2 ^ 64) where
  pub tokens_at_lem : (k : ℕ) → k < 2 ^ 31 → tokens_at m req k ≡ m (req + k)
  tokens_at_lem k h = let e : u64 (req + sext64 k) ≡ req + k = ground arith in ap m e

  Stored-Reads :
      (i : ℕ) (bs : List ℕ)
      → i + length bs < 2 ^ 30
      → Stored m (req + 2 + i) bs
      → Reads (tokens_at m req) i bs
  Stored-Reads i [] h s = tt
  Stored-Reads i (b ∷ bs) h s =
      let e : req + 2 + i ≡ req + (2 + i) = omega arith in
      let f : req + 2 + i + 1 ≡ req + 2 + (i + 1) = omega arith in
      (
        tokens_at_lem (2 + i) (omega arith) ∙ ap m (sym e) ∙ s.0,
        s.1,
        Stored-Reads (i + 1) bs (omega arith) (rw f at (s.2)),
      )

  Reads-Stored :
      (i : ℕ) (bs : List ℕ)
      → i + length bs < 2 ^ 30
      → Reads (tokens_at m req) i bs
      → Stored m (req + 2 + i) bs
  Reads-Stored i [] h s = tt
  Reads-Stored i (b ∷ bs) h s =
      let e : req + 2 + i ≡ req + (2 + i) = omega arith in
      let f : req + 2 + i + 1 ≡ req + 2 + (i + 1) = omega arith in
      (
        ap m e ∙ sym (tokens_at_lem (2 + i) (omega arith)) ∙ s.0,
        s.1,
        rw f (Reads-Stored (i + 1) bs (omega arith) s.2),
      )

left_over_lem : (len i n : ℕ) → len < 2 ^ 30 → i < 2 ^ 30 + 64 → i + n ≡ len → left_over len i ≡ n
unfolding left_over
left_over_lem len i n h k e = ground arith

left_over-zero : (len i : ℕ) → len < 2 ^ 30 → i < 2 ^ 30 + 64 → len ≤ i → left_over len i ≡ 0
unfolding left_over
left_over-zero len i h k e = ground arith

-- The interface works on a request: the bytes `request` are still to be sent, and mean `toks` and
-- `bytes`.
pub record Pending (st : IfState) (m : Memory) (request toks bytes : List ℕ) : Type 0 where
  pub busy : st.current_req ≢ 0
  pub space : st.current_req + 2 ^ 31 < 2 ^ 64
  pub short : st.current_req_len < 2 ^ 30
  pub remains : st.remaining ≡ length request
  pub fits : length request ≤ st.current_req_len
  pub stored : Stored m (st.current_req + 2 + (st.current_req_len - length request)) request
  pub means : Means st.ddr request toks bytes

-- The address byte of the current request.
abbrev pub target : IfState → Memory → ℕ
target st m = tokens_at m st.current_req 1

-- What a load of a part of the request does: the registers hold its tokens and its data and the
-- list processor is started; the rest of the request is pending.
pub record Dispatched (st : IfState) (m : Memory) (r : Interface) (request toks bytes : List ℕ)
    (st' : IfState) (r' : Interface) : Type 0 where
  pub now : List ℕ
  pub later : List ℕ
  pub now_bytes : List ℕ
  pub later_bytes : List ℕ
  pub rest : List ℕ
  pub split : toks ≡ now ++ later
  pub split_bytes : bytes ≡ now_bytes ++ later_bytes
  pub slots : Slots r' now now_bytes
  pub pending : Pending st' m rest later later_bytes
  pub filled : (rest ≡ []) ⊎ (length now ≡ 16) ⊎ (length now_bytes ≡ 8)
  pub taken : length rest + length now ≤ length request
  pub room : length now ≤ 16
  pub data_room : length now_bytes ≤ 8
  pub started : r'.ctl ≡ bit_or (bit_and r.ctl (not32 0x1)) 0x1
  pub address : Addressed r r' (target st m)
  pub rdata0 : r'.rdata0 ≡ r.rdata0
  pub rdata1 : r'.rdata1 ≡ r.rdata1
  pub kept :
      (st'.current_req ≡ st.current_req)
      × (st'.current_ret ≡ st.current_ret)
      × (st'.current_req_len ≡ st.current_req_len)
      × (st'.notified ≡ st.notified)

pub interface_self :
    (bus : ℕ) (r : Interface) (s : Driver) → interface bus (with_interface bus r s) ≡ r
interface_self bus r s = ground arith

start_loader-Ready :
    {st : IfState} {m : Memory} (r : Interface) {request toks bytes : List ℕ} (addr : ℕ)
    (p : Pending st m request toks bytes)
    → Ready
        (tokens_at m st.current_req)
        st.current_req_len
        p.short
        (start_loader st r addr)
        []
        []
        request
unfolding start_loader set_address i2c_flush
start_loader-Ready {st} {m} r {request} addr p =
    let i : u32 (sext64 st.current_req_len + 2 ^ 64 - st.remaining)
        ≡ st.current_req_len - length request =
      ground (arith, p.short, p.remains, p.fits) in
    record {
      reads = rw i (
          Stored-Reads m st.current_req p.space (st.current_req_len - length request) request
            (omega (arith, p.fits, p.short)) p.stored);
      whole = rw i (omega (arith, p.fits));
      slots = record {
        nibbles = tt;
        octets = tt;
        list0 = refl;
        list1 = refl;
        data0 = refl;
        data1 = refl;
      };
      count = refl;
      data_count = refl;
      room = omega arith;
      data_room = omega arith;
    }

-- The loop, run on a pending request.
module _ {st : IfState} {m : Memory} (r : Interface) {request toks bytes : List ℕ}
    (p : Pending st m request toks bytes) where
  abbrev loaded : Bool × Loader
  loaded =
      load_loop (tokens_at m st.current_req) st.current_req_len 16 (start_loader st r (target st m))

  loaded-Batched :
      Batched
        (tokens_at m st.current_req)
        st.current_req_len
        p.short
        (start_loader st r (target st m))
        []
        []
        request
        toks
        bytes
        loaded
  unfolding start_loader
  loaded-Batched =
      load_loop-Batched (tokens_at m st.current_req) st.current_req_len p.short 16
        (start_loader st r (target st m)) [] [] p.means refl (start_loader-Ready r (target st m) p)
        refl

  abbrev loaded_state : IfState
  loaded_state = record st {
    ddr = loaded.1.ddr;
    remaining = left_over st.current_req_len loaded.1.i;
  }

  loaded-left : left_over st.current_req_len loaded.1.i ≡ length (loaded-Batched.rest)
  loaded-left = elim loaded-Batched.left [
    | inl h ↦
        left_over-zero st.current_req_len loaded.1.i p.short loaded-Batched.small h.0
        ∙ sym (ap length h.1)
    | inr h ↦
        left_over_lem st.current_req_len loaded.1.i (length loaded-Batched.rest) p.short
          loaded-Batched.small h
  ]

  loaded-Pending :
      Pending loaded_state m loaded-Batched.rest loaded-Batched.later loaded-Batched.later_bytes
  loaded-Pending = record {
    busy = p.busy;
    space = p.space;
    short = p.short;
    remains = loaded-left;
    fits = loaded-Batched.fits;
    stored =
        Reads-Stored m st.current_req p.space (st.current_req_len - length loaded-Batched.rest)
          loaded-Batched.rest (omega (arith, p.short, loaded-Batched.fits)) loaded-Batched.reads;
    means = loaded-Batched.means;
  }

  loaded-Dispatched : Dispatched st m r request toks bytes loaded_state (i2c_start loaded.1.regs).1
  unfolding i2c_start start_loader set_address i2c_flush
  loaded-Dispatched = record {
    now = loaded-Batched.now;
    later = loaded-Batched.later;
    now_bytes = loaded-Batched.now_bytes;
    later_bytes = loaded-Batched.later_bytes;
    rest = loaded-Batched.rest;
    split = loaded-Batched.split;
    split_bytes = loaded-Batched.split_bytes;
    slots =
        let s = loaded-Batched.slots in
        record {
          nibbles = s.nibbles;
          octets = s.octets;
          list0 = s.list0;
          list1 = s.list1;
          data0 = s.data0;
          data1 = s.data1;
        };
    pending = loaded-Pending;
    filled = ground (arith, loaded-Batched.filled);
    taken = loaded-Batched.taken;
    room = omega (arith, loaded-Batched.room);
    data_room = omega (arith, loaded-Batched.data_room);
    started = ap (λ c. bit_or (bit_and c (not32 0x1)) 0x1) loaded-Batched.same.ctl;
    address =
        set_address-Addressed r r (i2c_start loaded.1.regs).1 (target st m) refl
          loaded-Batched.same.addr;
    rdata0 = loaded-Batched.same.rdata0;
    rdata1 = loaded-Batched.same.rdata1;
    kept = (refl, refl, refl, refl);
  }

-- For a pending request whose remaining bytes mean the tokens `toks` and the write data `bytes`,
-- and whose address is at most 0x7f, `i2cLoadTokens` returns 0 and loads a first part of the
-- tokens and of the data, packed in order into the token and data registers: up to sixteen tokens,
-- or eight data bytes, or all that is left. What follows is pending again, with the request's
-- `remaining` and direction to match. The list processor is started, the address field holds the
-- address, with its highest bit set too if it was set before, and the registers of read data are
-- kept. Nothing is changed but the registers of the bus and the state of its interface, of which
-- the buffers, the length and the flag are kept.
pub i2c_load_tokens-Dispatched :
    (bus : ℕ) (s : Driver) {request toks bytes : List ℕ}
    → Pending (s.if_state bus) s.transport.mem request toks bytes
    → target (s.if_state bus) s.transport.mem ≤ 0x7f
    → (s' : Driver) × (i2c_load_tokens bus s ≡ some (pos 0, s'))
      × Dispatched
          (s.if_state bus)
          s.transport.mem
          (interface bus s)
          request
          toks
          bytes
          (s'.if_state bus)
          (interface bus s')
      × (s'.transport ≡ s.transport)
      × (s'.signals ≡ s.signals)
      × (s' ≡ with_interface bus (interface bus s') (with_state bus (s'.if_state bus) s))
unfolding i2c_load_tokens finish_load
i2c_load_tokens-Dispatched bus s p small =
    let r = (i2c_start (loaded (interface bus s) p).1.regs).1 in
    let st = loaded_state (interface bus s) p in
    (
      with_interface bus r (with_state bus st s),
      rw
          (
            ==_of_ne (s.if_state bus).current_req 0 p.busy,
            ltb_of_le 0x7f (target (s.if_state bus) s.transport.mem) small,
          )
          (rw (loaded-Batched (interface bus s) p).ok),
      rw (interface_self bus r (with_state bus st s), update_self s.if_state bus st)
          (loaded-Dispatched (interface bus s) p),
      refl,
      refl,
      rw (interface_self bus r (with_state bus st s), update_self s.if_state bus st) refl,
    )
