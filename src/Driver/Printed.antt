-- ===== src/Driver/Printed.antt =====
-- What i2cDump prints of the tokens and the data that i2cLoadTokens has loaded
-- (i2c/i2c-odroid-c4.c).
use native.Mathlib.Nat.{div-div-eq-div-mul, zero-div}
use sddf_i2c_driver.Prelude.{
  ℕ, zero, suc, ◌+◌, ◌-◌, ◌*◌, ◌/◌, ◌%◌, ◌^◌, ◌≤◌, ◌<◌, ◌≡◌, refl, ◌∙◌, ap, ap₂, List, [], ◌∷◌,
  ◌++◌, arith, All, length, take, drop, some, pos, bit_and,
}
use sddf_i2c_driver.Prelude.Bits.{bit_and_mask}
use sddf_i2c_driver.Prelude.Words.{u8}
use sddf_i2c_driver.Interface.{Interface, Dump, dump_fields, i2c_dump}
use sddf_i2c_driver.Driver.{Driver, interface, i2c_load_tokens}
use sddf_i2c_driver.Driver.Load.Spec.{packed}
use sddf_i2c_driver.Driver.Load.Slots.{pow-add, All-drop}
use sddf_i2c_driver.Driver.Sent.{Sent, Dispatched-Sent}
use sddf_i2c_driver.Driver.Batch.{Dispatched, Pending, target, i2c_load_tokens-Dispatched}

-- The first `n` elements, with zeros behind a shorter list.
pub padded : ℕ → List ℕ → List ℕ
padded zero xs = []
padded (suc n) [] = 0 ∷ padded n []
padded (suc n) (x ∷ xs) = x ∷ padded n xs

dump_fields-shift :
    (w mask reg n i : ℕ) → dump_fields w mask reg n (i + 1) ≡ dump_fields w mask (reg / 2 ^ w) n i
unfolding dump_fields
dump_fields-shift w mask reg zero i = refl
dump_fields-shift w mask reg (suc n) i =
    let e : (i + 1) * w ≡ w + i * w = grind arith in
    let f : reg / 2 ^ ((i + 1) * w) ≡ reg / 2 ^ w / 2 ^ (i * w) =
      rw (e, pow-add w (i * w), div-div-eq-div-mul reg (2 ^ w) (2 ^ (i * w))) refl in
    ap₂ (λ x xs. u8 (bit_and x mask) ∷ xs) f (dump_fields-shift w mask reg n (i + 1))

-- The lowest digit of a word, and the others.
packed_digit : (base x p : ℕ) → x < base → (x + base * p) % base ≡ x
packed_digit base x p h = grind arith

packed_rest : (base x p : ℕ) → x < base → (x + base * p) / base ≡ p
packed_rest base x p h = grind arith

dump_fields-zero : (w n i : ℕ) → dump_fields w (2 ^ w - 1) 0 n i ≡ padded n []
unfolding dump_fields padded
dump_fields-zero w zero i = refl
dump_fields-zero w (suc n) i =
    let none_there : u8 (bit_and (0 / 2 ^ (i * w)) (2 ^ w - 1)) ≡ 0 =
      rw (zero-div (2 ^ (i * w))) (omega (arith, bit_and_mask w 0)) in
    ap₂ ◌∷◌ none_there (dump_fields-zero w n (i + 1))

-- The slots of a word that packs a list are its elements.
dump_fields-packed :
    (w n : ℕ) (xs : List ℕ)
    → 2 ^ w ≤ 256
    → All (λ x. x < 2 ^ w) xs
    → dump_fields w (2 ^ w - 1) (packed (2 ^ w) xs) n 0 ≡ padded n xs
unfolding dump_fields padded
dump_fields-packed w zero xs small h = refl
dump_fields-packed w (suc n) [] small h = dump_fields-zero w (suc n) 0
dump_fields-packed w (suc n) (x ∷ xs) small h =
    let word = packed (2 ^ w) (x ∷ xs) in
    let none_off : word / 2 ^ (0 * w) ≡ word =
      let z : 0 * w ≡ 0 = omega arith in rw z (omega arith) in
    let digit : u8 (bit_and word (2 ^ w - 1)) ≡ x =
      omega (arith, bit_and_mask w word, packed_digit (2 ^ w) x (packed (2 ^ w) xs) h.0, h.0) in
    let rest =
      dump_fields-shift w (2 ^ w - 1) word n 0
      ∙ ap (λ r. dump_fields w (2 ^ w - 1) r n 0) (packed_rest (2 ^ w) x (packed (2 ^ w) xs) h.0)
      ∙ dump_fields-packed w n xs small h.1 in
    ap₂ ◌∷◌ (ap (λ y. u8 (bit_and y (2 ^ w - 1))) none_off ∙ digit) rest

-- Two words hold the first elements of a list and those behind them.
padded-split :
    (n k : ℕ) (xs : List ℕ) → padded n (take n xs) ++ padded k (drop n xs) ≡ padded (n + k) xs
unfolding padded
padded-split zero k xs = ap (λ m. padded m xs) (omega arith)
padded-split (suc n) k [] =
    let e : suc n + k ≡ suc (n + k) = omega arith in
    rw e (ap (λ q. 0 ∷ q) (empty_split n ∙ padded-split n k []))
  where
    empty_split :
        (n : ℕ) → padded n [] ++ padded k [] ≡ padded n (take n []) ++ padded k (drop n [])
    empty_split zero = refl
    empty_split (suc n) = refl
padded-split (suc n) k (x ∷ xs) =
    let e : suc n + k ≡ suc (n + k) = omega arith in rw e (ap (λ q. x ∷ q) (padded-split n k xs))

padded-take : (n : ℕ) (xs : List ℕ) → length xs ≤ n → take (length xs) (padded n xs) ≡ xs
unfolding padded
padded-take n [] h = refl
padded-take zero (x ∷ xs) h = absurd (omega (arith, h))
padded-take (suc n) (x ∷ xs) h = ap (λ q. x ∷ q) (padded-take n xs (omega (arith, h)))

All-take : (n w : ℕ) (xs : List ℕ) → All (λ x. x < w) xs → All (λ x. x < w) (take n xs)
All-take zero w xs h = tt
All-take (suc n) w [] h = tt
All-take (suc n) w (x ∷ xs) h = (h.0, All-take n w xs h.1)

-- Two registers of `n` slots print the list they hold.
two_words :
    (w n : ℕ) (xs : List ℕ) (low high : ℕ)
    → 2 ^ w ≤ 256
    → All (λ x. x < 2 ^ w) xs
    → low ≡ packed (2 ^ w) (take n xs)
    → high ≡ packed (2 ^ w) (drop n xs)
    → dump_fields w (2 ^ w - 1) low n 0 ++ dump_fields w (2 ^ w - 1) high n 0 ≡ padded (n + n) xs
two_words w n xs low high small h e f =
    rw
      (
        e,
        f,
        dump_fields-packed w n (take n xs) small (All-take n (2 ^ w) xs h),
        dump_fields-packed w n (drop n xs) small (All-drop n (2 ^ w) xs h),
      )
      (padded-split n n xs)

-- The dump shows the list processor at work, these tokens and these data, and zeros behind them.
pub record Shows (toks bytes : List ℕ) (p : Dump) : Type 0 where
  pub running : p.start ≡ 1
  pub tokens : p.tokens0 ++ p.tokens1 ≡ padded 16 toks
  pub wdata : p.wdata0 ++ p.wdata1 ≡ padded 8 bytes
  pub first_tokens : take (length toks) (p.tokens0 ++ p.tokens1) ≡ toks
  pub first_wdata : take (length bytes) (p.wdata0 ++ p.wdata1) ≡ bytes

Sent-Shows :
    {before after : Interface} {to : ℕ} {toks bytes : List ℕ}
    → Sent before after to toks bytes
    → length toks ≤ 16
    → length bytes ≤ 8
    → Shows toks bytes (i2c_dump after)
unfolding i2c_dump
Sent-Shows {after = after} {toks = toks} {bytes = bytes} k room data_room =
    let s = k.slots in
    let t =
      two_words 4 8 toks after.tk_list0 after.tk_list1 (omega arith) s.nibbles s.list0 s.list1 in
    let d = two_words 8 4 bytes after.wdata0 after.wdata1 (omega arith) s.octets s.data0 s.data1 in
    let one : bit_and after.ctl 1 ≡ 1 = bit_and_mask 1 after.ctl ∙ omega (arith, k.running) in
    record {
      running = rw one refl;
      tokens = t;
      wdata = d;
      first_tokens = ap (take (length toks)) t ∙ padded-take 16 toks room;
      first_wdata = ap (take (length bytes)) d ∙ padded-take 8 bytes data_room;
    }

-- For a pending request whose address is at most 0x7f, `i2cDump` after `i2cLoadTokens` prints the
-- list processor at work, and, one by one, the tokens and the data bytes that were loaded, in
-- order, with zeros in the slots behind them.
pub i2c_load_tokens-i2c_dump :
    (bus : ℕ) (s : Driver) {request toks bytes : List ℕ}
    → Pending (s.if_state bus) s.transport.mem request toks bytes
    → target (s.if_state bus) s.transport.mem ≤ 0x7f
    → (s' : Driver) × (i2c_load_tokens bus s ≡ some (pos 0, s'))
      × (d : Dispatched
          (s.if_state bus)
          s.transport.mem
          (interface bus s)
          request
          toks
          bytes
          (s'.if_state bus)
          (interface bus s'))
      × Shows d.now d.now_bytes (i2c_dump (interface bus s'))
i2c_load_tokens-i2c_dump bus s p small =
    let (s', e, d, same, sig, frame) = i2c_load_tokens-Dispatched bus s p small in
    (s', e, d, Sent-Shows (Dispatched-Sent {before = interface bus s} refl d) d.room d.data_room)
