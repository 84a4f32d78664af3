-- ===== src/System/Line/Shares.antt =====
-- The buffers that i2cTransportInit (i2c/i2c-transport.c) hands out to a bus do not overlap.
use sddf_i2c_driver.Prelude.{ℕ, zero, suc, ◌+◌, ◌^◌, ◌≤◌, ◌<◌, ◌≢◌, inl, arith, All}
use sddf_i2c_driver.Transport.{buf_addr}
use sddf_i2c_driver.Transport.Pool.{share}
use sddf_i2c_driver.System.Job.{Apart}
use sddf_i2c_driver.System.Start.{Region, addr_lem}
use sddf_i2c_driver.System.Line.Bufs.{AllApart, IsReqBuf, Bufs}
use sddf_i2c_driver.System.Line.Waits.{addrs_of}

module _ {base : ℕ} (r : Region base) where
  -- What holds of every buffer from round `i` on.
  share-All :
      (P : ℕ → Type 0) (k n i : ℕ)
      → ((j : ℕ) → i ≤ j → j < i + n → P (buf_addr base k j))
      → All P (addrs_of (share base k n i))
  share-All P k zero i h = tt
  share-All P k (suc n) i h = (
    h i (omega arith) (omega arith),
    share-All P k n (i + 1) (λ j le lt. h j (omega arith) (omega arith)),
  )

  share-AllApart : (k n i : ℕ) → k < 4 → i + n ≤ 511 → AllApart (addrs_of (share base k n i))
  share-AllApart k zero i hk le = tt
  share-AllApart k (suc n) i hk le = (
    share-All (Apart (buf_addr base k i)) k n (i + 1) (λ j low high.
        let e = addr_lem r k i hk (omega arith) in
        let e' = addr_lem r k j hk (omega arith) in inl (omega (arith, e, e'))),
    share-AllApart k n (i + 1) hk (omega arith),
  )

  -- The requests have the shares `k`, the answers the shares behind it.
  pub share-Bufs :
      (k : ℕ)
      → base + 2 ^ 32 < 2 ^ 64
      → k + 1 < 4
      → Bufs (addrs_of (share base k 511 0)) (addrs_of (share base (k + 1) 511 0))
  share-Bufs k space hk = record {
    usable = share-All IsReqBuf k 511 0 (λ j low high.
        let e = addr_lem r k j (omega arith) (omega arith) in
        (omega (arith, e, r.above), omega (arith, e)));
    ret_ne_zero =
        share-All (λ a. a ≢ 0) (k + 1) 511 0
          (λ j low high.
            let e = addr_lem r (k + 1) j hk (omega arith) in omega (arith, e, r.above));
    reqs_apart = share-AllApart k 511 0 (omega arith) (omega arith);
    rets_apart = share-AllApart (k + 1) 511 0 hk (omega arith);
    across =
        share-All (λ a. All (Apart a) (addrs_of (share base (k + 1) 511 0))) k 511 0
          (λ i low high. share-All (Apart (buf_addr base k i)) (k + 1) 511 0 (λ j low' high'.
            let e = addr_lem r k i (omega arith) (omega arith) in
            let e' = addr_lem r (k + 1) j hk (omega arith) in inl (omega (arith, e, e'))));
  }
