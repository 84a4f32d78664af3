-- ===== src/Ring/Contents.antt =====
-- What a ring of i2c/include/sw_shared_ringbuffer.h holds: its descriptors, oldest first.
use sddf_i2c_driver.Prelude.{
  ℕ, zero, suc, ◌+◌, ◌%◌, ◌^◌, ◌<◌, ◌≡◌, refl, ap, ap₂, List, [], ◌∷◌, ◌++◌, arith, length, update,
  update_self, update_ne,
}
use sddf_i2c_driver.Prelude.Words.{sub32}
use sddf_i2c_driver.Ring.{Desc, RingBuffer, size}

-- Both indices are `uint32_t`, and the writer is at most SIZE - 1 ahead of the reader.
pub record IsValid (r : RingBuffer) : Type 0 where
  pub write_word : r.write_idx < 2 ^ 32
  pub read_word : r.read_idx < 2 ^ 32
  pub room : sub32 r.write_idx r.read_idx < size

module _ (b : ℕ → Desc) where
  -- The `n` descriptors from index `h` on.
  abbrev pub window : ℕ → ℕ → List Desc
  window h zero = []
  window h (suc n) = b (h % size) ∷ window (h + 1) n

  length-window : (h n : ℕ) → length (window h n) ≡ n
  length-window h zero = refl
  length-window h (suc n) = ap suc (length-window (h + 1) n)

  -- Only the index modulo SIZE matters.
  pub window_mod : (h k n : ℕ) → h % size ≡ k % size → window h n ≡ window k n
  window_mod h k zero e = refl
  window_mod h k (suc n) e = ap₂ ◌∷◌ (ap b e) (window_mod (h + 1) (k + 1) n (omega arith))

abbrev pub contents : RingBuffer → List Desc
contents r = window r.buffers r.read_idx (sub32 r.write_idx r.read_idx)

pub length-contents : (r : RingBuffer) → length (contents r) ≡ sub32 r.write_idx r.read_idx
length-contents r = length-window r.buffers r.read_idx (sub32 r.write_idx r.read_idx)

-- A write at the slot behind a window of fewer than SIZE slots extends the window.
pub window-update :
    (b : ℕ → Desc) (d : Desc) (n h i : ℕ)
    → n < size
    → i ≡ (h + n) % size
    → window (update b i d) h (suc n) ≡ window b h n ++ d ∷ []
window-update b d zero h i lt e = ap (λ x. x ∷ []) (ground (arith, update_self b i d))
window-update b d (suc n) h i lt e =
    ap₂ ◌∷◌ (update_ne b i (h % size) d (omega arith))
      (window-update b d n (h + 1) i (omega arith) (omega arith))
