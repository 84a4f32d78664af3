-- ===== src/Driver/Load/Fuel.antt =====
-- The fuel of the loop of i2cLoadTokens (i2c/i2c-odroid-c4.c).
use sddf_i2c_driver.Prelude.{
  ℕ, zero, suc, ◌+◌, ◌≤◌, ◌≡◌, refl, ◌⊎◌, inl, inr, true, false, none, some, arith, Bool,
  Bool-cases, Option-cases,
}
use sddf_i2c_driver.Driver.Load.{Loader, pad, put, load_step, load_test, load_loop}

module _ (tokens : ℕ → ℕ) (len : ℕ) where
  -- A round fills one slot.
  load_step-tk_offset :
      (l l' : Loader) → load_step tokens len l ≡ some l' → l'.tk_offset ≡ l.tk_offset + 1
  unfolding load_step pad put
  load_step-tk_offset l l' e = ground arith

  pub load_loop-stop :
      (fuel : ℕ) (l : Loader)
      → load_test tokens len l ≡ false
      → load_loop tokens len fuel l ≡ (true, l)
  unfolding load_loop
  load_loop-stop zero l e = refl
  load_loop-stop (suc fuel) l e = rw (e, load_loop)

  pub load_loop-invalid :
      (fuel : ℕ) (l : Loader)
      → load_test tokens len l ≡ true
      → load_step tokens len l ≡ none
      → load_loop tokens len (suc fuel) l ≡ (false, l)
  unfolding load_loop
  load_loop-invalid fuel l e f = rw (e, load_loop) (rw (f, load_loop))

  pub load_loop-step :
      (fuel : ℕ) (l : Loader) {l' : Loader}
      → load_test tokens len l ≡ true
      → load_step tokens len l ≡ some l'
      → load_loop tokens len (suc fuel) l ≡ load_loop tokens len fuel l'
  unfolding load_loop
  load_loop-step fuel l e f = rw (e, load_loop) (rw (f, load_loop))

  -- The loop is over: at an invalid token, or by its test.
  abbrev pub Over : Bool × Loader → Type 0
  Over r = (r.0 ≡ false) ⊎ (load_test tokens len r.1 ≡ false)

  stopped-enough :
      (fuel more : ℕ) (l : Loader)
      → load_test tokens len l ≡ false
      → (load_loop tokens len (fuel + more) l ≡ load_loop tokens len fuel l)
        × Over (load_loop tokens len fuel l)
  stopped-enough fuel more l e =
      rw (load_loop-stop fuel l e, load_loop-stop (fuel + more) l e) (refl, inr e)

  -- The loop of `i2cLoadTokens` ends for every request, also one that is not valid: from any state
  -- of its variables, sixteen rounds less the slots already filled are enough for it to end by its
  -- test or at an invalid token, and more rounds give the same.
  pub load_loop-enough :
      (fuel more : ℕ) (l : Loader)
      → 16 ≤ fuel + l.tk_offset
      → (load_loop tokens len (fuel + more) l ≡ load_loop tokens len fuel l)
        × Over (load_loop tokens len fuel l)
  load_loop-enough zero more l h =
      let over : load_test tokens len l ≡ false = ground (arith, h) in
      stopped-enough zero more l over
  load_loop-enough (suc fuel) more l h = elim (Bool-cases (load_test tokens len l)) [
    | inr over ↦ stopped-enough (suc fuel) more l over
    | inl e ↦
        let one_more : suc fuel + more ≡ suc (fuel + more) = omega arith in
        elim (Option-cases (load_step tokens len l)) [
          | inl f ↦
              rw (one_more, load_loop-invalid fuel l e f, load_loop-invalid (fuel + more) l e f)
                (refl, inl refl)
          | inr (l', f) ↦
              rw (one_more, load_loop-step fuel l e f, load_loop-step (fuel + more) l e f)
                (load_loop-enough fuel more l' (omega (arith, h, load_step-tk_offset l l' f)))
        ]
  ]
