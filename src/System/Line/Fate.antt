-- ===== src/System/Line/Fate.antt =====
-- What a request comes to, by the interrupts while it is at work (i2cirq, i2c/i2c-odroid-c4.c).
use sddf_i2c_driver.Prelude.{
  ℕ, suc, ◌+◌, ◌==◌, if◌then◌else◌, ◌⊎◌, ◌≤◌, ◌<◌, ◌≢◌, ◌≡◌, refl, sym, ◌∙◌, ap, subst, inl, inr,
  List, [], ◌∷◌, ◌++◌, arith, length, append_assoc, append-nil, ==_of_ne,
}
use sddf_i2c_driver.Ring.{Desc}
use sddf_i2c_driver.Driver.{Driver}
use sddf_i2c_driver.Server.{failure, success}
use sddf_i2c_driver.System.Served.{Interrupts, fault_at}
use sddf_i2c_driver.System.Ended.{Ended, zero_or_not}
use sddf_i2c_driver.System.Session.{answer}
use sddf_i2c_driver.System.Line.{Request, Outcome, succeeds, fails, Comes, unbroken, broken}

lt_or_eq : (i n : ℕ) → i ≤ n → (i < n) ⊎ (i ≡ n)
lt_or_eq i n le = omega arith

-- The first tokens and bytes of a request were sent before, and `rest` and `rest_bytes` are left.
module _ {bus : ℕ} {hw : Interrupts} (r : Request) (now now_bytes : List ℕ)
    {rest rest_bytes left : List ℕ} {s : Driver} {rf ru tf tu : List Desc}
    (split : r.toks ≡ now ++ rest) (split_bytes : r.bytes ≡ now_bytes ++ rest_bytes)
    (f : Ended bus r.addr hw s rf ru tf tu left rest rest_bytes) where
  abbrev pub outcome : Outcome
  outcome = record {
    addr = r.addr;
    toks = now ++ f.now;
    bytes = now_bytes ++ f.now_bytes;
    least = if f.err == 0 then 1 else 1 + f.n;
    most = if f.err == 0 then 1 + length r.message else 1 + f.n;
    reports = answer bus f.err r.client r.addr ∷ [];
  }

  all_toks : r.toks ≡ (now ++ f.now) ++ f.rest
  all_toks = split ∙ ap (λ l. now ++ l) f.split ∙ sym (append_assoc now f.now f.rest)

  all_bytes : r.bytes ≡ (now_bytes ++ f.now_bytes) ++ f.rest_bytes
  all_bytes =
      split_bytes
      ∙ ap (λ l. now_bytes ++ l) f.split_bytes
      ∙ sym (append_assoc now_bytes f.now_bytes f.rest_bytes)

  outcome-succeeds : f.err ≡ 0 → outcome ≡ succeeds bus r
  outcome-succeeds e =
      let (x, y) = f.all e in
      let toks : now ++ f.now ≡ r.toks = sym (rw (x, append-nil) at all_toks) in
      let bytes : now_bytes ++ f.now_bytes ≡ r.bytes = sym (rw (y, append-nil) at all_bytes) in
      let reports : answer bus f.err r.client r.addr ≡ success bus r.client r.addr = rw e refl in
      let least : (if f.err == 0 then 1 else 1 + f.n) ≡ 1 = rw e refl in
      let most : (if f.err == 0 then 1 + length r.message else 1 + f.n) ≡ 1 + length r.message =
        rw e refl in
      λ i. record {
        addr = r.addr;
        toks = toks i;
        bytes = bytes i;
        least = least i;
        most = most i;
        reports = reports i ∷ [];
      }

  outcome-fails :
      f.err ≢ 0
      → outcome ≡ fails bus (fault_at hw f.n) f.n r (now ++ f.now) (now_bytes ++ f.now_bytes)
  outcome-fails ne =
      let reports : answer bus f.err r.client r.addr
          ≡ failure (fault_at hw f.n) bus r.client r.addr =
        rw (==_of_ne f.err 0 ne, f.error) refl in
      let least : (if f.err == 0 then 1 else 1 + f.n) ≡ 1 + f.n = rw (==_of_ne f.err 0 ne) refl in
      let most : (if f.err == 0 then 1 + length r.message else 1 + f.n) ≡ 1 + f.n =
        rw (==_of_ne f.err 0 ne) refl in
      λ i. record {
        addr = r.addr;
        toks = now ++ f.now;
        bytes = now_bytes ++ f.now_bytes;
        least = least i;
        most = most i;
        reports = reports i ∷ [];
      }

  -- The interrupts that it takes.
  pub outcome-least : outcome.least ≤ suc f.n
  outcome-least = elim (zero_or_not f.err) [
    | inl e ↦ let m = ap Outcome.least (outcome-succeeds e) in omega (arith, m)
    | inr ne ↦ let m = ap Outcome.least (outcome-fails ne) in omega (arith, m)
  ]

  pub outcome-most : f.n ≤ length r.message → suc f.n ≤ outcome.most
  outcome-most few = elim (zero_or_not f.err) [
    | inl e ↦ let m = ap Outcome.most (outcome-succeeds e) in omega (arith, m, few)
    | inr ne ↦ let m = ap Outcome.most (outcome-fails ne) in omega (arith, m)
  ]

  pub Ended-Comes : f.n ≤ length r.message → Comes bus hw r outcome
  Ended-Comes few = elim (zero_or_not f.err) [
    | inl e ↦
        subst (Comes bus hw r) (sym (outcome-succeeds e))
          (unbroken f.n few (up_to f.n f.clean (f.error ∙ e)))
    | inr ne ↦
        subst (Comes bus hw r) (sym (outcome-fails ne))
          (broken f.n _ f.rest _ f.rest_bytes few f.clean (rw f.error ne) all_toks all_bytes)
  ]
    where
      up_to :
          (n : ℕ)
          → ((i : ℕ) → i < n → fault_at hw i ≡ 0)
          → fault_at hw n ≡ 0
          → (i : ℕ) → i ≤ n
          → fault_at hw i ≡ 0
      up_to n h z i le = elim (lt_or_eq i n le) [ inl lt ↦ h i lt | inr e ↦ ap (fault_at hw) e ∙ z ]
