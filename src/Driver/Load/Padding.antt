-- ===== src/Driver/Load/Padding.antt =====
-- The loop of i2cLoadTokens behind the end of a request: it fills the slots that are left.
use sddf_i2c_driver.Prelude.{
  ℕ, zero, suc, ◌+◌, ◌^◌, ◌≤◌, ◌<◌, ◌≡◌, refl, inl, inr, Bool, true, false, arith, Bool-cases,
}
use sddf_i2c_driver.Driver.Load.{Loader, load_test, load_loop}
use sddf_i2c_driver.Driver.Load.Fuel.{load_loop-stop, load_loop-step}
use sddf_i2c_driver.Driver.Load.Steps.{padded, load_step-pad}

module _ (tokens : ℕ → ℕ) (len : ℕ) where
  -- The loop behind the request: it only counts.
  pub record Padded (l : Loader) (r : Bool × Loader) : Type 0 where
    pub ok : r.0 ≡ true
    pub ended : load_test tokens len r.1 ≡ false
    pub regs : r.1.regs ≡ l.regs
    pub ddr : r.1.ddr ≡ l.ddr
    pub behind : len ≤ r.1.i
    pub small : r.1.i < 2 ^ 30 + 64

  stopped-Padded :
      (fuel : ℕ) (l : Loader)
      → load_test tokens len l ≡ false
      → len ≤ l.i
      → l.i < 2 ^ 30 + 64
      → Padded l (load_loop tokens len fuel l)
  stopped-Padded fuel l e h s =
      rw (load_loop-stop tokens len fuel l e)
        (record { ok = refl; ended = e; regs = refl; ddr = refl; behind = h; small = s })

  pub load_loop-Padded :
      (fuel : ℕ) (l : Loader)
      → fuel + l.tk_offset ≡ 16
      → len ≤ l.i
      → l.i + fuel < 2 ^ 30 + 64
      → Padded l (load_loop tokens len fuel l)
  load_loop-Padded zero l f h s = stopped-Padded 0 l (ground arith) h (omega arith)
  load_loop-Padded (suc fuel) l f h s = elim (Bool-cases (load_test tokens len l)) [
    | inl e ↦
        let rest = load_loop-Padded fuel (padded l) (omega arith) (omega arith) (omega arith) in
        rw (load_loop-step tokens len fuel l e (load_step-pad tokens len l (omega arith) h))
          (record {
            ok = rest.ok;
            ended = rest.ended;
            regs = rest.regs;
            ddr = rest.ddr;
            behind = rest.behind;
            small = rest.small;
          })
    | inr e ↦ stopped-Padded (suc fuel) l e h (omega arith)
  ]
