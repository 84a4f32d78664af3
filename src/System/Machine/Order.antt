-- ===== src/System/Machine/Order.antt =====
-- The requests of a bus are sent and answered in order, each as its report says (i2c/i2c-transport.c,
-- i2c/i2c-odroid-c4.c, i2c/i2c.c).
use mathlib.Core.List.{map-append}
use sddf_i2c_driver.Prelude.{
  ℕ, ◌≡◌, refl, sym, ◌∙◌, ap, subst, ◌⊎◌, inl, inr, List, [], ◌∷◌, ◌++◌, map, Option, none, some,
  append_assoc, append-nil,
}
use sddf_i2c_driver.Driver.{Driver}
use sddf_i2c_driver.Server.{Server, Report}
use sddf_i2c_driver.System.Line.{Request}
use sddf_i2c_driver.System.Machine.{
  Task, View, Event, Output, silent, queued, refused, tells, reports_of, Reacts, joins, dropped,
  nobody_waits, noted, taken, ends, goes_on, unread, nothing_unread, MachineRun, machine_over,
  machine_faults, machine_next,
}
use sddf_i2c_driver.System.Machine.Account.{
  gather, gather-snoc, gather-nothing, queued_of, tokens_of, bytes_of, fresh, listed, Account,
  start-Account,
}
use sddf_i2c_driver.System.Machine.Turns.{taken-Account, goes_on-Account, ends-Account}

module _ {bus : ℕ} {w : View} {outs : List Output} where
  -- The outputs that let nothing out but a refusal.
  quiet-Account :
      {waiting : List Request} {work : Option Task} {answers : List Report} (o : Output)
      → queued_of o ≡ []
      → reports_of o ≡ []
      → tokens_of o ≡ []
      → bytes_of o ≡ []
      → Account bus w outs waiting work answers
      → Account bus w (outs ++ o ∷ []) waiting work answers
  quiet-Account {answers = answers} o no_queued no_reports no_tokens no_bytes a = record {
    done = a.done;
    now = a.now;
    going = a.going;
    in_order =
        ap (λ l. (listed w.work ++ map fresh w.waiting) ++ map fresh l)
          (gather-nothing queued_of outs o no_queued)
        ∙ a.in_order;
    answered =
        a.answered ∙ ap (λ l. l ++ answers) (sym (gather-nothing reports_of outs o no_reports));
    tokens = gather-nothing tokens_of outs o no_tokens ∙ a.tokens;
    bytes = gather-nothing bytes_of outs o no_bytes ∙ a.bytes;
  }

  joins-Account :
      (r : Request) {waiting : List Request} {work : Option Task} {answers : List Report}
      → Account bus w outs waiting work answers
      → Account bus w (outs ++ queued r ∷ []) (waiting ++ r ∷ []) work answers
  joins-Account r {waiting} {answers = answers} a =
      let start = listed w.work ++ map fresh w.waiting in
      let q = gather queued_of outs in
      let parts = map (λ p. p.task) (map (λ f. f.part) a.done ++ listed a.now) in
      record {
        done = a.done;
        now = a.now;
        going = a.going;
        in_order =
            ap (λ l. start ++ map fresh l) (gather-snoc queued_of outs (queued r))
            ∙ ap (λ l. start ++ l) (map-append fresh q (r ∷ []))
            ∙ sym (append_assoc start (map fresh q) (fresh r ∷ []))
            ∙ ap (λ l. l ++ fresh r ∷ []) a.in_order
            ∙ append_assoc parts (map fresh waiting) (fresh r ∷ [])
            ∙ ap (λ l. parts ++ l) (sym (map-append fresh waiting (r ∷ [])));
        answered =
            a.answered
            ∙ ap (λ l. l ++ answers) (sym (gather-nothing reports_of outs (queued r) refl));
        tokens = gather-nothing tokens_of outs (queued r) refl ∙ a.tokens;
        bytes = gather-nothing bytes_of outs (queued r) refl ∙ a.bytes;
      }

  unread-Account :
      (x : Report) (rest : List Report) {waiting : List Request} {work : Option Task}
      → Account bus w outs waiting work (x ∷ rest)
      → Account bus w (outs ++ tells x ∷ []) waiting work rest
  unread-Account x rest a =
      let start = listed w.work ++ map fresh w.waiting in
      record {
        done = a.done;
        now = a.now;
        going = a.going;
        in_order =
            ap (λ l. start ++ map fresh l) (gather-nothing queued_of outs (tells x) refl)
            ∙ a.in_order;
        answered =
            a.answered
            ∙ sym (append_assoc (gather reports_of outs) (x ∷ []) rest)
            ∙ ap (λ l. l ++ rest) (sym (gather-snoc reports_of outs (tells x)));
        tokens = gather-nothing tokens_of outs (tells x) refl ∙ a.tokens;
        bytes = gather-nothing bytes_of outs (tells x) refl ∙ a.bytes;
      }

-- One step of the machine.
Reacts-Account :
    {bus : ℕ} {start : View} {outs : List Output} (e : Event) (w w' : View) (o : Output)
    → Reacts bus e w (some (o, w'))
    → Account bus start outs w.waiting w.work w.answers
    → Account bus start (outs ++ o ∷ []) w'.waiting w'.work w'.answers
Reacts-Account _ w _ _ (joins r _ ne) a = joins-Account r a
Reacts-Account _ w _ _ (dropped r _ n) a = quiet-Account (refused r) refl refl refl refl a
Reacts-Account _ w _ _ (nobody_waits _ e) a = quiet-Account silent refl refl refl refl a
Reacts-Account _ w _ _ (noted _ r rest j e f) a = quiet-Account silent refl refl refl refl a
Reacts-Account _ w _ _ (taken _ r rest now left now_bytes left_bytes e f few split split') a =
    taken-Account r rest now left now_bytes left_bytes split split' (rw (e, f) at a)
Reacts-Account _ w _ _ (ends _ timeout r j f n last) a = ends-Account timeout r j last (rw f at a)
Reacts-Account _ w _ _
      (goes_on _ timeout r j now left now_bytes left_bytes f z ne more split split') a =
    goes_on-Account j now left now_bytes left_bytes split split' (rw f at a)
Reacts-Account _ w _ _ (unread _ x rest e) a = unread-Account x rest (rw e at a)
Reacts-Account _ w _ _ (nothing_unread _ e) a = quiet-Account silent refl refl refl refl a

-- The account of a run, up to its end or to the event that it faults at.
pub record Accounted (bus : ℕ) (w : View) (outs : List Output) (end : Option View) : Type 0 where
  pub last : View
  pub at_end : (end ≡ some last) ⊎ ((end ≡ none) × (e : Event) × Reacts bus e last none)
  pub account : Account bus w outs last.waiting last.work last.answers

MachineRun-Accounted_from :
    {bus : ℕ} {start : View} (outs : List Output) {es : List Event} (w : View) {more : List Output}
    {end : Option View}
    → MachineRun bus es w more end
    → Account bus start outs w.waiting w.work w.answers
    → Accounted bus start (outs ++ more) end
MachineRun-Accounted_from {bus} {start} outs w machine_over a = record {
  last = w;
  at_end = inl refl;
  account = rw (append-nil outs) a;
}
MachineRun-Accounted_from {bus} {start} outs w (machine_faults {e} f) a = record {
  last = w;
  at_end = inr (refl, e, f);
  account = rw (append-nil outs) a;
}
MachineRun-Accounted_from {bus} {start} outs w
      (machine_next {e} {w' = w'} {out = o} {outs = more} {end = end} f l) a =
    subst (λ z. Accounted bus start z end) (append_assoc outs (o ∷ []) more)
      (MachineRun-Accounted_from (outs ++ o ∷ []) w' l (Reacts-Account e w w' o f a))

-- A run of the machine has an account.
pub MachineRun-Accounted :
    (bus : ℕ) (es : List Event) (w : View) (outs : List Output) (end : Option View)
    → MachineRun bus es w outs end
    → Accounted bus w outs end
MachineRun-Accounted bus es w outs end l = MachineRun-Accounted_from [] w l (start-Account bus w)
