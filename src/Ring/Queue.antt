-- ===== src/Ring/Queue.antt =====
-- The abstract view of a ring of i2c/include/sw_shared_ringbuffer.h: a FIFO of descriptors that
-- holds SIZE - 1 of them.
use sddf_i2c_driver.Prelude.{
  ℕ, Option, none, some, List, [], ◌∷◌, ◌++◌, ◌==◌, if◌then◌else◌, length,
}

abbrev pub capacity : ℕ
capacity = 511

module _ {ℓ} {A : Type ℓ} where
  unfoldable pub push : List A → A → Option (List A)
  push q a = if length q == capacity then none else some (q ++ a ∷ [])

  unfoldable pub pop : List A → Option (A × List A)
  pop [] = none
  pop (a ∷ q) = some (a, q)
