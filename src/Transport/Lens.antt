-- ===== src/Transport/Lens.antt =====
-- A ring that is put back is the one found there, and the other rings stay as they were.
use sddf_i2c_driver.Prelude.{ℕ, ◌≡◌, refl, false, arith, ◌==◌, if◌then◌else◌}
use sddf_i2c_driver.Ring.{RingHandle}
use sddf_i2c_driver.Transport.{Transport, req_ring, ret_ring, with_req_ring, with_ret_ring, bad_bus}

-- The two busses that the driver serves.
pub data IsBus : ℕ → Type 0 where
  m2 : IsBus 2
  m3 : IsBus 3

-- The bus beside it.
abbrev pub other : ℕ → ℕ
other bus = if bus == 2 then 3 else 2

pub good_bus : {bus : ℕ} → IsBus bus → bad_bus bus ≡ false
good_bus m2 = refl
good_bus m3 = refl

module _ (bus : ℕ) (h : RingHandle) (t : Transport) where
  pub req_self : req_ring bus (with_req_ring bus h t) ≡ h
  req_self = ground arith

  pub ret_self : ret_ring bus (with_ret_ring bus h t) ≡ h
  ret_self = ground arith

  pub req_other : {c : ℕ} → c ≡ other bus → req_ring c (with_req_ring bus h t) ≡ req_ring c t
  req_other e = ground arith

  pub ret_other : {c : ℕ} → c ≡ other bus → ret_ring c (with_ret_ring bus h t) ≡ ret_ring c t
  ret_other e = ground arith

  pub req-with_ret : (c : ℕ) → req_ring c (with_ret_ring bus h t) ≡ req_ring c t
  req-with_ret c = refl

  pub ret-with_req : (c : ℕ) → ret_ring c (with_req_ring bus h t) ≡ ret_ring c t
  ret-with_req c = refl
