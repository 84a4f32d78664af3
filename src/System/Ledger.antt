-- ===== src/System/Ledger.antt =====
-- Bookkeeping of the buffers of one pair of rings: each is free, used, or current.
use sddf_i2c_driver.Prelude.{
  ℕ, ◌+◌, ◌≤◌, subst, sym, ◌<◌, ◌≡◌, ◌≢◌, List, [], ◌∷◌, ◌++◌, arith, ◌==◌, length, length-append,
  if◌then◌else◌,
}
use sddf_i2c_driver.Ring.{Desc, desc}

-- How often the buffer at `a` stands in a list, and whether it is the current one.
abbrev pub count : ℕ → List Desc → ℕ
count a [] = 0
count a (d ∷ q) = (if d.encoded_addr == a then 1 else 0) + count a q

abbrev pub current : ℕ → ℕ → ℕ
current a cur = if cur == 0 then 0 else if cur == a then 1 else 0

pub count-append : (a : ℕ) (p q : List Desc) → count a (p ++ q) ≡ count a p + count a q
count-append a [] q = omega arith
count-append a (d ∷ p) q = omega (arith, count-append a p q)

-- The free buffers `f`, the used ones `u` and the current one make up the pool, which has `pool a`
-- buffers at `a`; the pool has 511.
pub record Ledger (pool : ℕ → ℕ) (cur : ℕ) (f u : List Desc) : Type 0 where
  pub every : (a : ℕ) → current a cur + count a f + count a u ≡ pool a
  pub total : (if cur == 0 then 0 else 1) + length f + length u ≡ 511

module _ {pool : ℕ → ℕ} where
  pub free_ne_zero :
      {cur : ℕ} {d : Desc} {f u : List Desc}
      → pool 0 ≡ 0
      → Ledger pool cur (d ∷ f) u
      → d.encoded_addr ≢ 0
  free_ne_zero z l = ground (arith, l.every 0)

  pub used_ne_zero :
      {cur : ℕ} {d : Desc} {f u : List Desc}
      → pool 0 ≡ 0
      → Ledger pool cur f (d ∷ u)
      → d.encoded_addr ≢ 0
  used_ne_zero z l = ground (arith, l.every 0)

  pub free-used :
      {cur : ℕ} {d : Desc} {f u : List Desc} (n : ℕ)
      → Ledger pool cur (d ∷ f) u
      → Ledger pool cur f (u ++ desc d.encoded_addr n ∷ [])
  free-used {d = d} {u = u} n l = record {
    every = λ a. omega (arith, l.every a, count-append a u (desc d.encoded_addr n ∷ []));
    total = omega (arith, l.total, length-append u (desc d.encoded_addr n ∷ []));
  }

  pub used-free :
      {cur : ℕ} {d : Desc} {f u : List Desc} (n : ℕ)
      → Ledger pool cur f (d ∷ u)
      → Ledger pool cur (f ++ desc d.encoded_addr n ∷ []) u
  used-free {d = d} {f = f} n l = record {
    every = λ a. omega (arith, l.every a, count-append a f (desc d.encoded_addr n ∷ []));
    total = omega (arith, l.total, length-append f (desc d.encoded_addr n ∷ []));
  }

  pub used-current :
      {d : Desc} {f u : List Desc}
      → pool 0 ≡ 0
      → Ledger pool 0 f (d ∷ u)
      → Ledger pool d.encoded_addr f u
  used-current {d} z l = record {
    every = λ a. ground (arith, l.every a, used_ne_zero z l);
    total = ground (arith, l.total, used_ne_zero z l);
  }

  pub free-current :
      {d : Desc} {f u : List Desc}
      → pool 0 ≡ 0
      → Ledger pool 0 (d ∷ f) u
      → Ledger pool d.encoded_addr f u
  free-current {d} z l = record {
    every = λ a. ground (arith, l.every a, free_ne_zero z l);
    total = ground (arith, l.total, free_ne_zero z l);
  }

  pub current-free :
      {cur : ℕ} {f u : List Desc} (n : ℕ)
      → cur ≢ 0
      → Ledger pool cur f u
      → Ledger pool 0 (f ++ desc cur n ∷ []) u
  current-free {cur} {f} n ne l = record {
    every = λ a. ground (arith, l.every a, count-append a f (desc cur n ∷ []));
    total = ground (arith, l.total, length-append f (desc cur n ∷ []));
  }

  pub current-used :
      {cur : ℕ} {f u : List Desc} (n : ℕ)
      → cur ≢ 0
      → Ledger pool cur f u
      → Ledger pool 0 f (u ++ desc cur n ∷ [])
  current-used {cur} {u = u} n ne l = record {
    every = λ a. ground (arith, l.every a, count-append a u (desc cur n ∷ []));
    total = ground (arith, l.total, length-append u (desc cur n ∷ []));
  }

  -- A free buffer, or one in use, leaves room in the other ring.
  pub used_room :
      {cur : ℕ} {d : Desc} {f u : List Desc} → Ledger pool cur (d ∷ f) u → length u < 511
  used_room l = ground (arith, l.total)

  pub free_room :
      {cur : ℕ} {d : Desc} {f u : List Desc} → Ledger pool cur f (d ∷ u) → length f < 511
  free_room l = ground (arith, l.total)

  pub current_room :
      {cur : ℕ} {f u : List Desc} → cur ≢ 0 → Ledger pool cur f u → length f + length u < 511
  current_room ne l = ground (arith, l.total)

  -- A buffer that the pool has once is free, used or current, and only one of these.
  pub one_place :
      {cur : ℕ} {f u : List Desc} (a : ℕ)
      → Ledger pool cur f u
      → pool a ≤ 1
      → current a cur + count a f + count a u ≤ 1
  one_place a l h = subst (λ n. n ≤ 1) (sym (l.every a)) h
