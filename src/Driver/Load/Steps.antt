-- ===== src/Driver/Load/Steps.antt =====
-- One round of the loop of i2cLoadTokens, by what stands at the index in the request.
use sddf_i2c_driver.Prelude.{
  ℕ, ◌+◌, ◌^◌, ◌≤◌, ◌<◌, ◌≡◌, ◌∙◌, true, false, some, arith, ltb_of_lt, ltb_of_le,
}
use sddf_i2c_driver.Prelude.Words.{u32, int_lt, int_lt-ltb}
use sddf_i2c_driver.Token.{translate, direction}
use sddf_i2c_driver.Driver.Load.{Loader, put_token, put_data, pad, put, load_step}
use sddf_i2c_driver.Driver.Load.Spec.{takes_byte}
use sddf_i2c_driver.Driver.Load.Slots.{put_token-zero}

-- A hardware token has four bits.
pub translate-lt : (b tk : ℕ) → translate b ≡ some tk → tk < 16
unfolding translate
translate-lt b tk e = ground arith

abbrev pub padded : Loader → Loader
padded l = record l { tk_offset = l.tk_offset + 1; i = l.i + 1 }

abbrev pub stepped : ℕ → ℕ → Loader → Loader
stepped b tk l = record l {
  regs = put_token l.tk_offset tk l.regs;
  ddr = direction b l.ddr;
  tk_offset = l.tk_offset + 1;
  i = l.i + 1;
}

abbrev pub written : ℕ → ℕ → ℕ → Loader → Loader
written b tk c l = record {
  regs = put_data l.wdat_offset c (put_token l.tk_offset tk l.regs);
  ddr = direction b l.ddr;
  tk_offset = l.tk_offset + 1;
  wdat_offset = l.wdat_offset + 1;
  i = l.i + 2;
}

module _ (tokens : ℕ → ℕ) (len : ℕ) (l : Loader) (word : l.i + 2 < 2 ^ 31) where
  pub load_step-pad : len ≤ l.i → load_step tokens len l ≡ some (padded l)
  unfolding load_step pad
  load_step-pad h =
      let e : int_lt l.i len ≡ false =
        int_lt-ltb l.i len (omega arith) (omega arith) ∙ ltb_of_le l.i len h in
      let f : u32 (l.i + 1) ≡ l.i + 1 = omega arith in rw (e, f, put_token-zero l.tk_offset l.regs)

  module _ (b tk : ℕ) (short : len < 2 ^ 31) (inside : l.i < len) (here : tokens (2 + l.i) ≡ b)
      (known : translate b ≡ some tk) where
    in_request : int_lt l.i len ≡ true
    in_request = int_lt-ltb l.i len (omega arith) short ∙ ltb_of_lt l.i len inside

    at_token : tokens (u32 (2 + l.i)) ≡ b
    at_token = let e : u32 (2 + l.i) ≡ 2 + l.i = omega arith in rw e here

    pub load_step-plain :
        takes_byte tk (direction b l.ddr) ≡ false → load_step tokens len l ≡ some (stepped b tk l)
    unfolding load_step put
    load_step-plain takes =
        let f : u32 (l.i + 1) ≡ l.i + 1 = omega arith in
        rw (in_request, at_token, known) (rw (at_token, takes, f))

    pub load_step-writes :
        takes_byte tk (direction b l.ddr) ≡ true
        → load_step tokens len l ≡ some (written b tk (tokens (3 + l.i)) l)
    unfolding load_step put
    load_step-writes takes =
        let f : u32 (l.i + 2) ≡ l.i + 2 = omega arith in
        let g : u32 (3 + l.i) ≡ 3 + l.i = omega arith in
        rw (in_request, at_token, known) (rw (at_token, takes, f, g))
