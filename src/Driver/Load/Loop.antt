-- ===== src/Driver/Load/Loop.antt =====
-- The loop of i2cLoadTokens takes from a request as many tokens as the registers hold, and leaves
-- the index behind them.
use sddf_i2c_driver.Prelude.{
  ℕ, zero, suc, ◌+◌, ◌-◌, ◌^◌, ◌≤◌, ◌<◌, ◌≡◌, refl, ◌∙◌, ap, ◌⊎◌, inl, inr, Bool, true, false, some,
  List, [], ◌∷◌, ◌++◌, append-nil, append_assoc, arith, Bool-cases, length, length-append,
}
use sddf_i2c_driver.Token.{translate, direction}
use sddf_i2c_driver.Interface.{Interface}
use sddf_i2c_driver.Driver.Load.{Loader, put_token, put_data, load_test, load_loop}
use sddf_i2c_driver.Driver.Load.Fuel.{load_loop-stop, load_loop-step}
use sddf_i2c_driver.Driver.Load.Padding.{load_loop-Padded}
use sddf_i2c_driver.Driver.Load.Spec.{Means, done, plain, writes, Reads}
use sddf_i2c_driver.Driver.Load.Slots.{Slots, put_token-Slots, put_data-Slots}
use sddf_i2c_driver.Driver.Load.Steps.{
  translate-lt, stepped, written, load_step-plain, load_step-writes,
}

-- The registers that the loop leaves alone.
pub record SameRest (r s : Interface) : Type 0 where
  pub ctl : s.ctl ≡ r.ctl
  pub addr : s.addr ≡ r.addr
  pub rdata0 : s.rdata0 ≡ r.rdata0
  pub rdata1 : s.rdata1 ≡ r.rdata1

module _ (tokens : ℕ → ℕ) (len : ℕ) (short : len < 2 ^ 30) where
  -- What one run of the loop has taken from a request that means `toks` and `bytes`, when the
  -- registers held `old_toks` and `old_bytes`.
  pub record Batched (l : Loader) (old_toks old_bytes : List ℕ) (request toks bytes : List ℕ)
      (r : Bool × Loader) : Type 0 where
    pub ok : r.0 ≡ true
    pub ended : load_test tokens len r.1 ≡ false
    pub now : List ℕ
    pub later : List ℕ
    pub now_bytes : List ℕ
    pub later_bytes : List ℕ
    pub rest : List ℕ
    pub split : toks ≡ now ++ later
    pub split_bytes : bytes ≡ now_bytes ++ later_bytes
    pub slots : Slots r.1.regs (old_toks ++ now) (old_bytes ++ now_bytes)
    pub means : Means r.1.ddr rest later later_bytes
    pub reads : Reads tokens (len - length rest) rest
    pub fits : length rest ≤ len
    pub left : (len ≤ r.1.i) × (rest ≡ []) ⊎ (r.1.i + length rest ≡ len)
    pub small : r.1.i < 2 ^ 30 + 64
    pub same : SameRest l.regs r.1.regs
    pub taken : length rest + length now ≤ length request
    pub room : length old_toks + length now ≤ 16
    pub data_room : length old_bytes + length now_bytes ≤ 8
    pub filled :
        (rest ≡ [])
        ⊎ (length old_toks + length now ≡ 16)
        ⊎ (length old_bytes + length now_bytes ≡ 8)

  put_token-SameRest : (n tk : ℕ) (r : Interface) → SameRest r (put_token n tk r)
  unfolding put_token
  put_token-SameRest n tk r = ground arith

  put_data-SameRest : (n byte : ℕ) (r : Interface) → SameRest r (put_data n byte r)
  unfolding put_data
  put_data-SameRest n byte r = ground arith

  SameRest-trans : {r s t : Interface} → SameRest r s → SameRest s t → SameRest r t
  SameRest-trans a b = record {
    ctl = b.ctl ∙ a.ctl;
    addr = b.addr ∙ a.addr;
    rdata0 = b.rdata0 ∙ a.rdata0;
    rdata1 = b.rdata1 ∙ a.rdata1;
  }

  -- The state of the loop before a round: the request from `l.i` on means `toks` and `bytes`.
  pub record Ready (l : Loader) (old_toks old_bytes request : List ℕ) : Type 0 where
    pub reads : Reads tokens l.i request
    pub whole : l.i + length request ≡ len
    pub slots : Slots l.regs old_toks old_bytes
    pub count : l.tk_offset ≡ length old_toks
    pub data_count : l.wdat_offset ≡ length old_bytes
    pub room : l.tk_offset ≤ 16
    pub data_room : l.wdat_offset ≤ 8

  stopped-Batched :
      (fuel : ℕ) (l : Loader) {request toks bytes : List ℕ} (old_toks old_bytes : List ℕ)
      → Means l.ddr request toks bytes
      → Ready l old_toks old_bytes request
      → load_test tokens len l ≡ false
      → Batched l old_toks old_bytes request toks bytes (load_loop tokens len fuel l)
  stopped-Batched fuel l {request} {toks} {bytes} old_toks old_bytes m s e =
      rw (load_loop-stop tokens len fuel l e) (record {
        ok = refl;
        ended = e;
        now = [];
        later = toks;
        now_bytes = [];
        later_bytes = bytes;
        rest = request;
        split = refl;
        split_bytes = refl;
        slots = rw (append-nil, append-nil) s.slots;
        means = m;
        reads = let here : len - length request ≡ l.i = omega (arith, s.whole) in rw here s.reads;
        fits = omega (arith, s.whole);
        left = inr s.whole;
        small = omega (arith, s.whole);
        same = record { ctl = refl; addr = refl; rdata0 = refl; rdata1 = refl };
        taken = omega arith;
        room = omega (arith, s.count, s.room);
        data_room = omega (arith, s.data_count, s.data_room);
        filled = ground (arith, s.count, s.data_count, s.room, s.data_room);
      })

  done-Batched :
      (fuel : ℕ) (l : Loader) (old_toks old_bytes : List ℕ)
      → Ready l old_toks old_bytes []
      → fuel + l.tk_offset ≡ 16
      → Batched l old_toks old_bytes [] [] [] (load_loop tokens len fuel l)
  done-Batched fuel l old_toks old_bytes s f =
      let p =
        load_loop-Padded tokens len fuel l f (omega (arith, s.whole)) (omega (arith, s.whole)) in
      record {
        ok = p.ok;
        ended = p.ended;
        now = [];
        later = [];
        now_bytes = [];
        later_bytes = [];
        rest = [];
        split = refl;
        split_bytes = refl;
        slots = rw (p.regs, append-nil, append-nil) s.slots;
        means = done;
        reads = tt;
        fits = omega arith;
        left = inl (p.behind, refl);
        small = p.small;
        same = rw p.regs (record { ctl = refl; addr = refl; rdata0 = refl; rdata1 = refl });
        taken = omega arith;
        room = omega (arith, s.count, s.room);
        data_room = omega (arith, s.data_count, s.data_room);
        filled = inl refl;
      }

  plain-Batched :
      {l l' : Loader} {request toks bytes : List ℕ} {r : Bool × Loader} (b tk : ℕ)
      (old_toks old_bytes : List ℕ)
      → SameRest l.regs l'.regs
      → Batched l' (old_toks ++ tk ∷ []) old_bytes request toks bytes r
      → Batched l old_toks old_bytes (b ∷ request) (tk ∷ toks) bytes r
  plain-Batched b tk old_toks old_bytes same h = record {
    ok = h.ok;
    ended = h.ended;
    now = tk ∷ h.now;
    later = h.later;
    now_bytes = h.now_bytes;
    later_bytes = h.later_bytes;
    rest = h.rest;
    split = ap (λ q. tk ∷ q) h.split;
    split_bytes = h.split_bytes;
    slots = rw (append_assoc old_toks (tk ∷ []) h.now) at (h.slots);
    means = h.means;
    reads = h.reads;
    fits = h.fits;
    left = h.left;
    small = h.small;
    same = SameRest-trans same h.same;
    taken = omega (arith, h.taken);
    room = omega (arith, h.room, length-append old_toks (tk ∷ []));
    data_room = h.data_room;
    filled = ground (arith, h.filled, length-append old_toks (tk ∷ []));
  }

  writes-Batched :
      {l l' : Loader} {request toks bytes : List ℕ} {r : Bool × Loader} (b tk c : ℕ)
      (old_toks old_bytes : List ℕ)
      → SameRest l.regs l'.regs
      → Batched l' (old_toks ++ tk ∷ []) (old_bytes ++ c ∷ []) request toks bytes r
      → Batched l old_toks old_bytes (b ∷ c ∷ request) (tk ∷ toks) (c ∷ bytes) r
  writes-Batched b tk c old_toks old_bytes same h = record {
    ok = h.ok;
    ended = h.ended;
    now = tk ∷ h.now;
    later = h.later;
    now_bytes = c ∷ h.now_bytes;
    later_bytes = h.later_bytes;
    rest = h.rest;
    split = ap (λ q. tk ∷ q) h.split;
    split_bytes = ap (λ q. c ∷ q) h.split_bytes;
    slots =
        rw (append_assoc old_bytes (c ∷ []) h.now_bytes) at
          (rw (append_assoc old_toks (tk ∷ []) h.now) at (h.slots));
    means = h.means;
    reads = h.reads;
    fits = h.fits;
    left = h.left;
    small = h.small;
    same = SameRest-trans same h.same;
    taken = omega (arith, h.taken);
    room = omega (arith, h.room, length-append old_toks (tk ∷ []));
    data_room = omega (arith, h.data_room, length-append old_bytes (c ∷ []));
    filled =
        ground
          (arith, h.filled, length-append old_toks (tk ∷ []), length-append old_bytes (c ∷ []));
  }

  plain-Ready :
      (l : Loader) (b tk : ℕ) {request : List ℕ} (old_toks old_bytes : List ℕ)
      → load_test tokens len l ≡ true
      → translate b ≡ some tk
      → Ready l old_toks old_bytes (b ∷ request)
      → Ready (stepped b tk l) (old_toks ++ tk ∷ []) old_bytes request
  plain-Ready l b tk old_toks old_bytes e known s = record {
    reads = s.reads.2;
    whole = omega (arith, s.whole);
    slots = rw s.count (put_token-Slots tk s.slots (translate-lt b tk known));
    count = omega (arith, s.count, length-append old_toks (tk ∷ []));
    data_count = s.data_count;
    room = ground arith;
    data_room = s.data_room;
  }

  writes-Ready :
      (l : Loader) (b tk c : ℕ) {request : List ℕ} (old_toks old_bytes : List ℕ)
      → load_test tokens len l ≡ true
      → translate b ≡ some tk
      → Ready l old_toks old_bytes (b ∷ c ∷ request)
      → Ready (written b tk c l) (old_toks ++ tk ∷ []) (old_bytes ++ c ∷ []) request
  writes-Ready l b tk c old_toks old_bytes e known s = record {
    reads = let i : l.i + 1 + 1 ≡ l.i + 2 = omega arith in rw i at (s.reads.2.2);
    whole = omega (arith, s.whole);
    slots =
        rw (s.count, s.data_count)
          (put_data-Slots c (put_token-Slots tk s.slots (translate-lt b tk known)) s.reads.2.1);
    count = omega (arith, s.count, length-append old_toks (tk ∷ []));
    data_count = omega (arith, s.data_count, length-append old_bytes (c ∷ []));
    room = ground arith;
    data_room = ground arith;
  }

  next_byte :
      (l : Loader) {b c : ℕ} {request old_toks old_bytes : List ℕ}
      → Ready l old_toks old_bytes (b ∷ c ∷ request)
      → tokens (3 + l.i) ≡ c
  next_byte l s = let i : 3 + l.i ≡ 2 + (l.i + 1) = omega arith in rw i (s.reads.2.0)

  -- With fuel for every slot the loop ends by its test, and has then filled the registers from the
  -- request or has come to its end.
  pub load_loop-Batched :
      (fuel : ℕ) (l : Loader) {ddr : Bool} {request toks bytes : List ℕ}
      (old_toks old_bytes : List ℕ)
      → Means ddr request toks bytes
      → l.ddr ≡ ddr
      → Ready l old_toks old_bytes request
      → fuel + l.tk_offset ≡ 16
      → Batched l old_toks old_bytes request toks bytes (load_loop tokens len fuel l)
  load_loop-Batched zero l old_toks old_bytes m d s f =
      stopped-Batched zero l old_toks old_bytes (rw d m) s (ground arith)
  load_loop-Batched (suc fuel) l old_toks old_bytes done d s f =
      done-Batched (suc fuel) l old_toks old_bytes s f
  load_loop-Batched (suc fuel) l old_toks old_bytes (plain {b = b} {tk = tk} known takes m) d s f =
      elim (Bool-cases (load_test tokens len l)) [
        | inr e ↦ stopped-Batched (suc fuel) l old_toks old_bytes (rw d (plain known takes m)) s e
        | inl e ↦
            rw
              (load_loop-step tokens len fuel l e (
                load_step-plain tokens len l (omega (arith, s.whole)) b tk (omega arith)
                  (omega (arith, s.whole)) s.reads.0 known (rw d takes)))
              (plain-Batched b tk old_toks old_bytes (put_token-SameRest l.tk_offset tk l.regs) (
                load_loop-Batched fuel (stepped b tk l) (old_toks ++ tk ∷ []) old_bytes m
                  (ap (direction b) d) (plain-Ready l b tk old_toks old_bytes e known s)
                  (omega arith)))
      ]
  load_loop-Batched (suc fuel) l old_toks old_bytes (writes {b = b} {tk = tk} {c = c} known takes m)
        d s f =
      elim (Bool-cases (load_test tokens len l)) [
        | inr e ↦ stopped-Batched (suc fuel) l old_toks old_bytes (rw d (writes known takes m)) s e
        | inl e ↦
            rw
              (load_loop-step tokens len fuel l e (
                load_step-writes tokens len l (omega (arith, s.whole)) b tk (omega arith)
                  (omega (arith, s.whole)) s.reads.0 known (rw d takes)
                ∙ ap (λ x. some (written b tk x l)) (next_byte l s)))
              (writes-Batched b tk c old_toks old_bytes
                (SameRest-trans (put_token-SameRest l.tk_offset tk l.regs)
                  (put_data-SameRest l.wdat_offset c (put_token l.tk_offset tk l.regs)))
                (load_loop-Batched fuel (written b tk c l) (old_toks ++ tk ∷ [])
                  (old_bytes ++ c ∷ []) m (ap (direction b) d)
                  (writes-Ready l b tk c old_toks old_bytes e known s) (omega arith)))
      ]
