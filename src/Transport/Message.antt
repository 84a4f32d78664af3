-- ===== src/Transport/Message.antt =====
-- The bytes that allocReqBuf (i2c/i2c-transport.c) writes into a request buffer.
use sddf_i2c_driver.Prelude.{
  ◌⊎◌, ℕ, suc, ◌+◌, ◌-◌, ◌%◌, ◌≤◌, ◌<◌, ◌≡◌, ◌∙◌, ap, List, [], ◌∷◌, arith, All, length, get_or,
}
use sddf_i2c_driver.Prelude.Words.{u8}
use sddf_i2c_driver.Transport.{Memory, fill_req, copy, store}

-- The bytes `bs` stand in memory from the address `a` on.
abbrev pub Stored : Memory → ℕ → List ℕ → Type 0
Stored m a [] = Unit {0}
Stored m a (b ∷ bs) = (m a ≡ b) × (b < 256) × Stored m (a + 1) bs

pub Stored-agree :
    (m m' : Memory) (a : ℕ) (bs : List ℕ)
    → ((c : ℕ) → a ≤ c → c < a + length bs → m' c ≡ m c)
    → Stored m a bs
    → Stored m' a bs
Stored-agree m m' a [] h s = tt
Stored-agree m m' a (b ∷ bs) h s = (
  h a (omega arith) (omega arith) ∙ s.0,
  s.1,
  Stored-agree m m' (a + 1) bs (λ c le lt. h c (omega arith) (omega arith)) s.2,
)

-- A message as the argument `data` of allocReqBuf.
abbrev pub data_of : List ℕ → ℕ → ℕ
data_of message k = get_or message k 0

copy_at :
    (m : Memory) (dst : ℕ) (src : ℕ → ℕ) (n i : ℕ) → i < n → copy m dst src n (dst + i) ≡ u8 (src i)
copy_at m dst src n i lt = let e : dst + i - dst ≡ i = omega arith in ground (arith, ap src e)

copy-Stored :
    (m : Memory) (dst : ℕ) (src : ℕ → ℕ) (n i : ℕ) (bs : List ℕ)
    → ((j : ℕ) → src (i + j) ≡ data_of bs j)
    → i + length bs ≤ n
    → All (λ x. x < 256) bs
    → Stored (copy m dst src n) (dst + i) bs
copy-Stored m dst src n i [] h le small = tt
copy-Stored m dst src n i (b ∷ bs) h le small =
    let z : src i ≡ b = ap src (omega arith) ∙ h 0 in
    let next : dst + i + 1 ≡ dst + (i + 1) = omega arith in
    let byte : u8 b ≡ b = omega (arith, small.0) in
    (
      copy_at m dst src n i (omega arith) ∙ ap u8 z ∙ byte,
      small.0,
      rw next (
          copy-Stored m dst src n (i + 1) bs (λ j. ap src (omega arith) ∙ h (suc j)) (omega arith)
            small.1),
    )

module _ (m : Memory) (buf : ℕ) (message : List ℕ) (client addr : ℕ) where
  abbrev filled : Memory
  filled = fill_req m buf (length message) (data_of message) client addr

  pub fill_req-Stored : All (λ x. x < 256) message → Stored filled (buf + 2) message
  unfolding fill_req
  fill_req-Stored small =
      let e : buf + 2 + 0 ≡ buf + 2 = omega arith in
      rw e at (
        copy-Stored (store (store m buf client) (buf + 1) addr) (buf + 2) (data_of message)
          (length message) 0 message (λ j. ap (data_of message) (omega arith)) (omega arith) small)

  pub fill_req-client : client < 256 → filled buf ≡ client
  unfolding fill_req
  fill_req-client h = ground arith

  pub fill_req-addr : addr < 256 → filled (buf + 1) ≡ addr
  unfolding fill_req
  fill_req-addr h = ground arith

pub fill_req-rest :
    (m : Memory) (buf n : ℕ) (src : ℕ → ℕ) (client addr c : ℕ)
    → (c < buf) ⊎ (buf + (n + 2) ≤ c)
    → fill_req m buf n src client addr c ≡ m c
unfolding fill_req
fill_req-rest m buf n src client addr c outside = ground arith

-- The memory once a request is filled: `client`, `addr` and `n` bytes of `src`, each as one byte, stand
-- from `buf` on, and the rest is as before.
pub record Filled (m m' : Memory) (buf n : ℕ) (src : ℕ → ℕ) (client addr : ℕ) : Type 0 where
  pub at_client : m' buf ≡ client % 256
  pub at_addr : m' (buf + 1) ≡ addr % 256
  pub at_data : (k : ℕ) → k < n → m' (buf + 2 + k) ≡ src k % 256
  pub rest : (c : ℕ) → (c < buf) ⊎ (buf + (n + 2) ≤ c) → m' c ≡ m c

pub fill_req-Filled :
    (m : Memory) (buf n : ℕ) (src : ℕ → ℕ) (client addr : ℕ)
    → Filled m (fill_req m buf n src client addr) buf n src client addr
unfolding fill_req
fill_req-Filled m buf n src client addr = record {
  at_client = ground arith;
  at_addr = ground arith;
  at_data = λ k lt. copy_at (store (store m buf client) (buf + 1) addr) (buf + 2) src n k lt;
  rest = fill_req-rest m buf n src client addr;
}
