-- ===== src/System/Line/Quiet.antt =====
-- The line with interrupts that report no error (i2cirq, i2c/i2c-odroid-c4.c).
use sddf_i2c_driver.Prelude.{
  length, ◌++◌, ◌∙◌, refl, ap, ==_of_eq, ==_of_ne, ℕ, ◌+◌, ◌≡◌, List, [], ◌∷◌,
}
use sddf_i2c_driver.System.Session.{NoErrors}
use sddf_i2c_driver.System.Served.{Interrupts}
use sddf_i2c_driver.System.Line.{
  Request, Op, line_step, line_run, Outcome, succeeds, Comes, unbroken, broken, LineStep, joins,
  dropped, nobody_waits, served_first, LineRun, run_over, run_next,
}
use sddf_i2c_driver.System.Ended.{no_error-fault}

-- Without errors the line does as the function says.
Comes-quiet :
    {bus : ℕ} {hw : Interrupts} {r : Request} {o : Outcome}
    → NoErrors hw
    → Comes bus hw r o
    → o ≡ succeeds bus r
Comes-quiet quiet (unbroken n few clean) = refl
Comes-quiet {hw = hw} quiet (broken n toks rest bytes rest_bytes few clean bad e f) =
    absurd (bad (no_error-fault (hw n).0 (hw n).1 (quiet n)))

LineStep-quiet :
    {bus : ℕ} {hw : Interrupts} {o : Op} {w w' : List Request} {out : List Outcome}
    → NoErrors hw
    → LineStep bus hw o w out w'
    → (out, w') ≡ line_step bus o w
unfolding line_step
LineStep-quiet quiet (joins r {w = w} ne) = rw (==_of_ne (length w) 511 ne) refl
LineStep-quiet quiet (dropped r {w = w} e) = rw (==_of_eq (length w) 511 e) refl
LineStep-quiet quiet nobody_waits = refl
LineStep-quiet {bus} {hw} quiet (served_first {r = r} {w = w} o c) =
    let e = Comes-quiet quiet c in λ i. (e i ∷ [], w)

pub LineRun-quiet :
    {bus : ℕ} {hw : ℕ → Interrupts} {os : List Op} {w w' : List Request} {outs : List Outcome}
    → ((i : ℕ) → NoErrors (hw i))
    → LineRun bus hw os w outs w'
    → (outs, w') ≡ line_run bus os w
unfolding line_run
LineRun-quiet quiet run_over = refl
LineRun-quiet {bus} quiet (run_next {o = o} {os = os} {w = w} s l) =
    let e = LineStep-quiet (quiet 0) s in
    let f = LineRun-quiet (λ i. quiet (i + 1)) l ∙ ap (λ z. line_run bus os z.1) e in
    λ i. ((e i).0 ++ (f i).0, (f i).1)
