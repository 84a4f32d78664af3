-- ===== src/Driver/Load/Spec.antt =====
-- What the bytes of a request mean, without registers: hardware tokens and write data. The token
-- that a request is in the middle of is never split, so a request can be taken up at any token.
use sddf_i2c_driver.Prelude.{
  ℕ, ◌+◌, ◌*◌, ◌<◌, ◌≡◌, Bool, true, false, not, ◌&&◌, some, List, [], ◌∷◌, ◌==◌,
}
use sddf_i2c_driver.Token.{translate, direction}
use sddf_i2c_driver.Token.Oc4Tk

-- Whether a token takes the byte behind it, in the direction `ddr`.
abbrev pub takes_byte : ℕ → Bool → Bool
takes_byte tk ddr = (tk == Oc4Tk.dat) && not ddr

-- In the direction `ddr` the request bytes stand for the hardware tokens and the write data.
pub data Means : Bool → (request toks bytes : List ℕ) → Type 0 where
  done : {ddr : Bool} → Means ddr [] [] []
  plain :
      {ddr : Bool} {b tk : ℕ} {bs toks bytes : List ℕ}
      → translate b ≡ some tk
      → takes_byte tk (direction b ddr) ≡ false
      → Means (direction b ddr) bs toks bytes
      → Means ddr (b ∷ bs) (tk ∷ toks) bytes
  writes :
      {ddr : Bool} {b tk c : ℕ} {bs toks bytes : List ℕ}
      → translate b ≡ some tk
      → takes_byte tk (direction b ddr) ≡ true
      → Means (direction b ddr) bs toks bytes
      → Means ddr (b ∷ c ∷ bs) (tk ∷ toks) (c ∷ bytes)

-- The function `tokens` holds the bytes of a request from index `i` on, behind two others.
abbrev pub Reads : (ℕ → ℕ) → ℕ → List ℕ → Type 0
Reads tokens i [] = Unit {0}
Reads tokens i (b ∷ bs) = (tokens (2 + i) ≡ b) × (b < 256) × Reads tokens (i + 1) bs

-- A list of digits as a number, the first digit lowest.
abbrev pub packed : ℕ → List ℕ → ℕ
packed base [] = 0
packed base (x ∷ xs) = x + base * packed base xs
