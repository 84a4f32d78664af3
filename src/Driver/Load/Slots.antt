-- ===== src/Driver/Load/Slots.antt =====
-- The token and data registers as slots of four and eight bits.
use native.Mathlib.Nat.{pow-suc, pow-zero, zero-add}
use sddf_i2c_driver.Prelude.{
  ℕ, zero, suc, ◌+◌, ◌-◌, ◌*◌, ◌^◌, ◌≤◌, ◌<◌, ◌≡◌, sym, ◌∙◌, ap, ap₂, inl, inr, List, [], ◌∷◌, ◌++◌,
  arith, All, All-append, length, take, drop, take-append_of_lt, take_of_le, drop_of_le,
  take-append_of_le, drop-append_of_le, length-drop, length-append, bit_and, bit_or, ltb,
  Bool-cases, lt_of_ltb, le_of_ltb,
}
use sddf_i2c_driver.Prelude.Bits.{bit_or_fields, bit_and_mask, bit_or-zero}
use sddf_i2c_driver.Interface.{Interface}
use sddf_i2c_driver.Driver.Load.{put_token, put_data}
use sddf_i2c_driver.Driver.Load.Spec.{packed}

packed-snoc :
    (base x : ℕ) (xs : List ℕ) → packed base (xs ++ x ∷ []) ≡ packed base xs + x * base ^ length xs
packed-snoc base x [] = grind (arith, pow-zero base)
packed-snoc base x (y ∷ xs) = rw (packed-snoc base x xs, pow-suc base (length xs)) (grind arith)

pub pow-add : (a b : ℕ) → 2 ^ (a + b) ≡ 2 ^ a * 2 ^ b
pow-add zero b = simp zero-add (omega arith)
pow-add (suc a) b =
    let e : suc a + b ≡ suc (a + b) = omega arith in
    rw (e, pow-suc 2 (a + b), pow-suc 2 a) (grind (arith, pow-add a b))

-- The weight of the slot `n` of `w` bits.
pow-mul : (w n : ℕ) → (2 ^ w) ^ n ≡ 2 ^ (n * w)
pow-mul w zero = let e : 0 * w ≡ 0 = omega arith in rw (e, pow-zero (2 ^ w))
pow-mul w (suc n) =
    let e : suc n * w ≡ w + n * w = grind arith in
    rw (e, pow-add w (n * w), pow-suc (2 ^ w) n, pow-mul w n) (grind arith)

packed-lt : (base : ℕ) (xs : List ℕ) → All (λ x. x < base) xs → packed base xs < base ^ length xs
packed-lt base [] h = rw (pow-zero base) (omega arith)
packed-lt base (x ∷ xs) h =
    let ih : packed base xs < base ^ length xs = packed-lt base xs h.1 in
    rw (pow-suc base (length xs)) (grind arith)

-- A digit put into the slot behind the digits of a word.
put_slot :
    (w x : ℕ) (xs : List ℕ)
    → All (λ x. x < 2 ^ w) xs
    → bit_or (packed (2 ^ w) xs) (x * 2 ^ (length xs * w)) ≡ packed (2 ^ w) (xs ++ x ∷ [])
put_slot w x xs h =
    let small : packed (2 ^ w) xs < 2 ^ (length xs * w) =
      rw (← pow-mul w (length xs)) (packed-lt (2 ^ w) xs h) in
    bit_or_fields (length xs * w) (packed (2 ^ w) xs) x small
    ∙ ap (λ m. packed (2 ^ w) xs + x * m) (sym (pow-mul w (length xs)))
    ∙ sym (packed-snoc (2 ^ w) x xs)

-- The registers hold these tokens and these write data, in order.
pub record Slots (r : Interface) (toks bytes : List ℕ) : Type 0 where
  pub nibbles : All (λ x. x < 2 ^ 4) toks
  pub octets : All (λ x. x < 2 ^ 8) bytes
  pub list0 : r.tk_list0 ≡ packed (2 ^ 4) (take 8 toks)
  pub list1 : r.tk_list1 ≡ packed (2 ^ 4) (drop 8 toks)
  pub data0 : r.wdata0 ≡ packed (2 ^ 8) (take 4 bytes)
  pub data1 : r.wdata1 ≡ packed (2 ^ 8) (drop 4 bytes)

pub All-drop : (n w : ℕ) (xs : List ℕ) → All (λ x. x < w) xs → All (λ x. x < w) (drop n xs)
All-drop zero w xs h = h
All-drop (suc n) w [] h = h
All-drop (suc n) w (x ∷ xs) h = All-drop n w xs h.1

-- Each slot lies in the first word or in the second.
put_low :
    (n w x : ℕ) (xs : List ℕ) (a : ℕ)
    → All (λ x. x < 2 ^ w) xs
    → length xs < n
    → a ≡ packed (2 ^ w) (take n xs)
    → bit_or a (x * 2 ^ (length xs * w)) ≡ packed (2 ^ w) (take n (xs ++ x ∷ []))
put_low n w x xs a h lt e =
    ap (λ y. bit_or y (x * 2 ^ (length xs * w)))
      (e ∙ ap (packed (2 ^ w)) (take_of_le n xs (omega arith)))
    ∙ put_slot w x xs h
    ∙ ap (packed (2 ^ w)) (sym (take-append_of_lt n xs x lt))

put_high :
    (n w x : ℕ) (xs : List ℕ) (a : ℕ)
    → All (λ x. x < 2 ^ w) xs
    → n ≤ length xs
    → a ≡ packed (2 ^ w) (drop n xs)
    → bit_or a (x * 2 ^ ((length xs - n) * w)) ≡ packed (2 ^ w) (drop n (xs ++ x ∷ []))
put_high n w x xs a h le e =
    ap₂ (λ y k. bit_or y (x * 2 ^ (k * w))) e (sym (length-drop n xs))
    ∙ put_slot w x (drop n xs) (All-drop n (2 ^ w) xs h)
    ∙ ap (packed (2 ^ w)) (sym (drop-append_of_le n xs x le))

-- Storing a token extends the tokens by it and leaves the data alone.
pub put_token-Slots :
    {r : Interface} {toks bytes : List ℕ} (tk : ℕ)
    → Slots r toks bytes
    → tk < 16
    → Slots (put_token (length toks) tk r) (toks ++ tk ∷ []) bytes
unfolding put_token
put_token-Slots {r} {toks} {bytes} tk s small = elim (Bool-cases (ltb (length toks) 8)) [
  | inl e ↦ rw e (record {
    nibbles = All-append (λ x. x < 16) toks (tk ∷ []) s.nibbles (small, tt);
    octets = s.octets;
    list0 =
        ap (λ x. bit_or r.tk_list0 (x * 2 ^ (length toks * 4))) low_tk
        ∙ put_low 8 4 tk toks r.tk_list0 s.nibbles (lt_of_ltb (length toks) 8 e) s.list0;
    list1 =
        s.list1
        ∙ ap (packed 16) (
            drop_of_le 8 toks (omega (arith, lt_of_ltb (length toks) 8 e))
            ∙ sym (
                drop_of_le 8 (toks ++ tk ∷ [])
                  (omega (arith, lt_of_ltb (length toks) 8 e, length-append toks (tk ∷ [])))));
    data0 = s.data0;
    data1 = s.data1;
  })
  | inr e ↦ rw e (record {
    nibbles = All-append (λ x. x < 16) toks (tk ∷ []) s.nibbles (small, tt);
    octets = s.octets;
    list0 =
        s.list0 ∙ ap (packed 16) (sym (take-append_of_le 8 toks tk (le_of_ltb (length toks) 8 e)));
    list1 = put_high 8 4 tk toks r.tk_list1 s.nibbles (le_of_ltb (length toks) 8 e) s.list1;
    data0 = s.data0;
    data1 = s.data1;
  })
]
  where
    low_tk : bit_and tk 15 ≡ tk
    low_tk = omega (arith, bit_and_mask 4 tk)

-- Storing a byte extends the data by it and leaves the tokens alone.
pub put_data-Slots :
    {r : Interface} {toks bytes : List ℕ} (byte : ℕ)
    → Slots r toks bytes
    → byte < 256
    → Slots (put_data (length bytes) byte r) toks (bytes ++ byte ∷ [])
unfolding put_data
put_data-Slots {r} {toks} {bytes} byte s small = elim (Bool-cases (ltb (length bytes) 4)) [
  | inl e ↦ rw e (record {
    nibbles = s.nibbles;
    octets = All-append (λ x. x < 256) bytes (byte ∷ []) s.octets (small, tt);
    list0 = s.list0;
    list1 = s.list1;
    data0 = put_low 4 8 byte bytes r.wdata0 s.octets (lt_of_ltb (length bytes) 4 e) s.data0;
    data1 =
        s.data1
        ∙ ap (packed 256) (
            drop_of_le 4 bytes (omega (arith, lt_of_ltb (length bytes) 4 e))
            ∙ sym (
                drop_of_le 4 (bytes ++ byte ∷ [])
                  (omega (arith, lt_of_ltb (length bytes) 4 e, length-append bytes (byte ∷ [])))));
  })
  | inr e ↦ rw e (record {
    nibbles = s.nibbles;
    octets = All-append (λ x. x < 256) bytes (byte ∷ []) s.octets (small, tt);
    list0 = s.list0;
    list1 = s.list1;
    data0 =
        s.data0
        ∙ ap (packed 256) (sym (take-append_of_le 4 bytes byte (le_of_ltb (length bytes) 4 e)));
    data1 = put_high 4 8 byte bytes r.wdata1 s.octets (le_of_ltb (length bytes) 4 e) s.data1;
  })
]

-- An END token changes no register, since END is 0.
pub put_token-zero : (n : ℕ) (r : Interface) → put_token n 0 r ≡ r
unfolding put_token
put_token-zero n r = elim (Bool-cases (ltb n 8)) [
  | inl e ↦ rw e (ap (λ x. record r { tk_list0 = x }) (zero_slot (n * 4) r.tk_list0))
  | inr e ↦ rw e (ap (λ x. record r { tk_list1 = x }) (zero_slot ((n - 8) * 4) r.tk_list1))
]
  where
    zero_slot : (k a : ℕ) → bit_or a (0 * 2 ^ k) ≡ a
    zero_slot k a = let e : 0 * 2 ^ k ≡ 0 = omega arith in rw e (bit_or-zero a)
