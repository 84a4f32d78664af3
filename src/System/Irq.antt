-- ===== src/System/Irq.antt =====
-- i2cirq (i2c/i2c-odroid-c4.c): when it returns, and the ownership of the buffers it passes on.
use sddf_i2c_driver.Prelude.{
  ℕ, ◌≡◌, refl, sym, ◌∙◌, ap, subst, ◌≢◌, inl, inr, ◌==◌, none, some, Bool, true, false, ◌||◌,
  ==_of_ne, ==_of_eq, Bool-cases,
}
use mathlib.Core.Option.{some-injective, none-ne-some}
use sddf_i2c_driver.Interface.{i2c_get_error, i2c_halt}
use sddf_i2c_driver.Transport.Lens.{IsBus, m2, m3, other}
use sddf_i2c_driver.Driver.{
  Driver, IfState, interface, with_interface, with_mem, is_negative, complete, store_result, i2cirq,
  load,
}
use sddf_i2c_driver.System.Complete.{complete-state, complete-Keeps}
use sddf_i2c_driver.System.BusInv.{
  Keeps, Untouched, Untouched-trans, load-LoadFrame, LoadFrame-Keeps, load-none,
}

-- The request ends with this interrupt: an error, or nothing left to send.
abbrev pub finished : ℕ → Driver → Bool
finished bus s =
    is_negative (i2c_get_error (i2c_halt (interface bus s)).1) || (s.if_state bus).remaining == 0

-- The state once the registers are read.
abbrev pub answered : ℕ → Bool → Driver → Driver
answered bus timeout s =
    let r = (i2c_halt (interface bus s)).1 in
    with_mem
      (store_result timeout (i2c_get_error r) r.rdata0 (s.if_state bus).current_ret s.transport.mem)
      (with_interface bus r s)

answered-Untouched :
    {bus : ℕ} (b : IsBus bus) (timeout : Bool) (s : Driver)
    → Untouched (other bus) s (answered bus timeout s)
answered-Untouched m2 timeout s = record { req = refl; ret = refl; state = refl; regs = refl }
answered-Untouched m3 timeout s = record { req = refl; ret = refl; state = refl; regs = refl }

or_false_right : (x y : Bool) → x || y ≡ false → y ≡ false
or_false_right true y e = cc
or_false_right false y e = e

-- An interrupt with no return buffer at hand writes through NULL.
pub i2cirq-no_buffer :
    (bus : ℕ) (timeout : Bool) (s : Driver)
    → (s.if_state bus).current_ret ≡ 0
    → i2cirq bus timeout s ≡ none
unfolding i2cirq
i2cirq-no_buffer bus timeout s z = rw (==_of_eq (s.if_state bus).current_ret 0 z)

-- A request with a part left to send goes on.
pub i2cirq-goes_on :
    (bus : ℕ) (timeout : Bool) (s : Driver)
    → (s.if_state bus).current_ret ≢ 0
    → finished bus s ≡ false
    → i2cirq bus timeout s ≡ load bus (answered bus timeout s)
unfolding i2cirq
i2cirq-goes_on bus timeout s ne f =
    let r : ((s.if_state bus).remaining == 0) ≡ false = or_false_right _ _ f in
    let z = ==_of_ne (s.if_state bus).current_ret 0 ne in
    elim (Bool-cases (s.if_state bus).notified) [ inl n ↦ rw (f, n, z) | inr n ↦ rw (f, n, r, z) ]

pub i2cirq-finished :
    (bus : ℕ) (timeout : Bool) (s : Driver)
    → (s.if_state bus).current_ret ≢ 0
    → finished bus s ≡ true
    → (s.if_state bus).notified ≡ false
    → i2cirq bus timeout s ≡ some (complete bus (answered bus timeout s))
unfolding i2cirq
i2cirq-finished bus timeout s ne f n =
    rw (
      f,
      complete-state bus (answered bus timeout s),
      n,
      ==_of_ne (s.if_state bus).current_ret 0 ne,
    )

-- An interrupt that ends the request at work, by an error or because nothing is left to send, does
-- not return if another request was announced meanwhile: it goes through NULL.
pub i2cirq-finished_notified :
    (bus : ℕ) (timeout : Bool) (s : Driver)
    → finished bus s ≡ true
    → (s.if_state bus).notified ≡ true
    → i2cirq bus timeout s ≡ none
unfolding i2cirq
i2cirq-finished_notified bus timeout s f n =
    let c = complete-state bus (answered bus timeout s) in
    let l = load-none bus (complete bus (answered bus timeout s)) (ap IfState.current_req c) in
    elim (Bool-cases ((s.if_state bus).current_ret == 0)) [
      | inl z ↦ rw z
      | inr z ↦ rw (f, l, c, n, z)
    ]

module _ {p q : ℕ → ℕ} {bus : ℕ} (b : IsBus bus) where
  answered-Keeps :
      (timeout : Bool) (s : Driver) → Keeps p q bus s → Keeps p q bus (answered bus timeout s)
  answered-Keeps timeout s k = k

  -- If an interrupt of a bus, by a timeout or not, returns, then the bus keeps its books, and the
  -- other bus is left alone: its rings, its state and its registers.
  pub i2cirq-Keeps :
      (timeout : Bool) (s t : Driver)
      → Keeps p q bus s
      → i2cirq bus timeout s ≡ some t
      → Keeps p q bus t × Untouched (other bus) s t
  i2cirq-Keeps timeout s t k e =
      let busy : (s.if_state bus).current_ret ≢ 0 =
        λ z. none-ne-some _ (sym (i2cirq-no_buffer bus timeout s z) ∙ e) in
      let s₁ = answered bus timeout s in
      let a = answered-Untouched b timeout s in
      elim (Bool-cases (finished bus s)) [
        | inr f ↦
            let l = load-LoadFrame b s₁ t (sym (i2cirq-goes_on bus timeout s busy f) ∙ e) in
            (LoadFrame-Keeps l (answered-Keeps timeout s k), Untouched-trans a l.apart)
        | inl f ↦
            let (k', u) =
              complete-Keeps b s₁ (answered-Keeps timeout s k) (λ z. busy (k.paired.0 z)) in
            elim (Bool-cases (s.if_state bus).notified) [
              | inl n ↦
                  absurd (none-ne-some _ (sym (i2cirq-finished_notified bus timeout s f n) ∙ e))
              | inr n ↦
                  let c = some-injective _ _ (sym (i2cirq-finished bus timeout s busy f n) ∙ e) in
                  subst (λ x. Keeps p q bus x × Untouched (other bus) s x) c
                    (k', Untouched-trans a u)
            ]
      ]
