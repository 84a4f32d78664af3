-- ===== src/System/Line/Bufs.antt =====
-- The request and the return buffers of a bus do not overlap, in whatever order they stand.
use sddf_i2c_driver.Prelude.{ℕ, ◌+◌, ◌^◌, ◌<◌, ◌≢◌, inl, inr, List, [], ◌∷◌, ◌++◌, All, All-append}
use sddf_i2c_driver.System.Job.{Apart}

pub Apart-sym : (a b : ℕ) → Apart a b → Apart b a
Apart-sym a b (inl h) = inr h
Apart-sym a b (inr h) = inl h

-- Any two of a list do not overlap.
abbrev pub AllApart : List ℕ → Type 0
AllApart [] = Unit
AllApart (a ∷ bs) = All (Apart a) bs × AllApart bs

pub All-split :
    {A : Type 0} (P : A → Type 0) (xs ys : List A) → All P (xs ++ ys) → All P xs × All P ys
All-split P [] ys h = (tt, h)
All-split P (x ∷ xs) ys h = let (k, l) = All-split P xs ys h.1 in ((h.0, k), l)

pub All-map :
    {A : Type 0} {P Q : A → Type 0} → ((a : A) → P a → Q a) → (xs : List A) → All P xs → All Q xs
All-map f [] h = tt
All-map f (x ∷ xs) h = (f x h.0, All-map f xs h.1)

-- The first one may as well stand last.
AllApart-snoc : (a : ℕ) (bs : List ℕ) → All (Apart a) bs → AllApart bs → AllApart (bs ++ a ∷ [])
AllApart-snoc a [] h k = (tt, tt)
AllApart-snoc a (c ∷ bs) h k =
    (All-append (Apart c) bs (a ∷ []) k.0 (Apart-sym a c h.0, tt), AllApart-snoc a bs h.1 k.1)

-- One in the middle is apart from those before it.
pub AllApart-mid : (xs : List ℕ) (a : ℕ) (ys : List ℕ) → AllApart (xs ++ a ∷ ys) → All (Apart a) xs
AllApart-mid [] a ys h = tt
AllApart-mid (x ∷ xs) a ys h =
    let (k, l) = All-split (Apart x) xs (a ∷ ys) h.0 in
    (Apart-sym x a l.0, AllApart-mid xs a ys h.1)

-- A request buffer in the memory that i2cLoadTokens can count in.
abbrev pub IsReqBuf : ℕ → Type 0
IsReqBuf a = (a ≢ 0) × (a + 2 ^ 31 < 2 ^ 64)

pub record Bufs (reqs rets : List ℕ) : Type 0 where
  pub usable : All IsReqBuf reqs
  pub ret_ne_zero : All (λ a. a ≢ 0) rets
  pub reqs_apart : AllApart reqs
  pub rets_apart : AllApart rets
  pub across : All (λ a. All (Apart a) rets) reqs

pub Bufs-turn_reqs : (a : ℕ) (bs rets : List ℕ) → Bufs (a ∷ bs) rets → Bufs (bs ++ a ∷ []) rets
Bufs-turn_reqs a bs rets b = record {
  usable = All-append IsReqBuf bs (a ∷ []) b.usable.1 (b.usable.0, tt);
  ret_ne_zero = b.ret_ne_zero;
  reqs_apart = AllApart-snoc a bs b.reqs_apart.0 b.reqs_apart.1;
  rets_apart = b.rets_apart;
  across = All-append (λ x. All (Apart x) rets) bs (a ∷ []) b.across.1 (b.across.0, tt);
}

pub Bufs-turn_rets :
    (reqs : List ℕ) (a : ℕ) (bs : List ℕ) → Bufs reqs (a ∷ bs) → Bufs reqs (bs ++ a ∷ [])
Bufs-turn_rets reqs a bs b = record {
  usable = b.usable;
  ret_ne_zero = All-append (λ x. x ≢ 0) bs (a ∷ []) b.ret_ne_zero.1 (b.ret_ne_zero.0, tt);
  reqs_apart = b.reqs_apart;
  rets_apart = AllApart-snoc a bs b.rets_apart.0 b.rets_apart.1;
  across = All-map (λ x h. All-append (Apart x) bs (a ∷ []) h.1 (h.0, tt)) reqs b.across;
}
