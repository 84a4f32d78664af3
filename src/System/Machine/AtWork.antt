-- ===== src/System/Machine/AtWork.antt =====
-- The request at work in a state of the machine (i2c/i2c-odroid-c4.c): where its buffers stand, and what
-- an interrupt keeps of the others.
use sddf_i2c_driver.Prelude.{
  ℕ, ◌+◌, ◌≤◌, ◌<◌, ◌≢◌, ◌≡◌, refl, ◌∙◌, ◌⊎◌, List, [], ◌∷◌, ◌++◌, arith, All, Bool, length, some,
}
use sddf_i2c_driver.Driver.{Driver}
use sddf_i2c_driver.Driver.Load.Spec.{Means, done, plain, writes}
use sddf_i2c_driver.System.Job.{Apart, OnlyHead}
use sddf_i2c_driver.System.Served.{Means-nil}
use sddf_i2c_driver.System.Line.Bufs.{Bufs, All-split, All-map, AllApart-mid, Apart-sym}
use sddf_i2c_driver.System.Line.Waits.{bufs_of, addrs_of, Held, Held-outside}
use sddf_i2c_driver.System.Machine.{Task, View}
use sddf_i2c_driver.System.Machine.State.{Inv, OnTask, told_bufs, Says}
use sddf_i2c_driver.System.Machine.Moves.{Says-outside}

-- Nothing is left of a request without tokens.
pub Means-no_toks :
    {ddr : Bool} {request toks bytes : List ℕ}
    → Means ddr request toks bytes
    → toks ≡ []
    → request ≡ []
Means-no_toks done e = refl
Means-no_toks (plain f g m) e = absurd (cc e)
Means-no_toks (writes f g m) e = absurd (cc e)

pub Means-no_bytes :
    {ddr : Bool} {request toks bytes : List ℕ}
    → Means ddr request toks bytes
    → toks ≡ []
    → bytes ≡ []
Means-no_bytes done e = refl
Means-no_bytes (plain f g m) e = absurd (cc e)
Means-no_bytes (writes f g m) e = absurd (cc e)

pub Means-some_toks :
    {ddr : Bool} (request : List ℕ) {toks bytes : List ℕ}
    → Means ddr request toks bytes
    → toks ≢ []
    → 0 < length request
Means-some_toks [] m ne = absurd (ne (Means-nil m).0)
Means-some_toks (x ∷ xs) m ne = omega arith

module _ {bus : ℕ} (s : Driver) {w : View} (k : Inv bus s w) (j : Task) (f : w.work ≡ some j) where
  pub work_of : OnTask bus s w.announced k.free k.items k.spare k.tolds j
  work_of = rw f at k.works

  -- The buffers of the request at work stand first among those of the requests, and between the
  -- answers and the free ones.
  pub current-Bufs :
      Bufs
        ((s.if_state bus).current_req ∷ (bufs_of k.items ++ addrs_of k.free))
        (told_bufs k.tolds ++ (s.if_state bus).current_ret ∷ addrs_of k.spare)
  current-Bufs = rw f at k.bufs

  items-Apart : All (Apart (s.if_state bus).current_ret) (bufs_of k.items)
  items-Apart =
      let ret = (s.if_state bus).current_ret in
      let all =
        All-map
          (λ c h.
            Apart-sym c ret
              (All-split (Apart c) (told_bufs k.tolds) (ret ∷ addrs_of k.spare) h).1.0)
          (bufs_of k.items ++ addrs_of k.free) current-Bufs.across.1 in
      (All-split (Apart ret) (bufs_of k.items) (addrs_of k.free) all).0

  -- Only the head of its return buffer is written to.
  module _ (t : Driver)
      (only : OnlyHead (s.if_state bus).current_ret s.transport.mem t.transport.mem) where
    rest_kept :
        (c : ℕ)
        → (c < (s.if_state bus).current_ret) ⊎ ((s.if_state bus).current_ret + 512 ≤ c)
        → t.transport.mem c ≡ s.transport.mem c
    rest_kept c out = only c (omega (arith, out)) (omega (arith, out))

    pub held_kept : All (Held t.transport.mem) k.items
    held_kept =
        Held-outside s.transport.mem t.transport.mem (s.if_state bus).current_ret k.items rest_kept
          items-Apart k.held

    pub told_kept : All (Says bus t.transport.mem) k.tolds
    told_kept =
        Says-outside bus s.transport.mem t.transport.mem (s.if_state bus).current_ret k.tolds
          rest_kept
          (AllApart-mid (told_bufs k.tolds) (s.if_state bus).current_ret (addrs_of k.spare)
            current-Bufs.rets_apart)
          k.told

    pub client_kept : t.transport.mem ((s.if_state bus).current_ret + 2) ≡ j.request.client
    client_kept = only _ (omega arith) (omega arith) ∙ work_of.at_client

    pub addr_kept : t.transport.mem ((s.if_state bus).current_ret + 3) ≡ j.request.addr
    addr_kept = only _ (omega arith) (omega arith) ∙ work_of.at_addr
