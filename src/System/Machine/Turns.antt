-- ===== src/System/Machine/Turns.antt =====
-- The account of a bus when the request at work begins, goes on or ends (checkBuf and i2cirq,
-- i2c/i2c-odroid-c4.c).
use mathlib.Core.List.{map-append}
use sddf_i2c_driver.Prelude.{
  ℕ, ◌≡◌, refl, sym, ◌∙◌, ap, inl, inr, Bool, List, [], ◌∷◌, ◌++◌, map, Option, none, some,
  append_assoc, append-nil,
}
use sddf_i2c_driver.Interface.{Interface}
use sddf_i2c_driver.Server.{Report}
use sddf_i2c_driver.System.Answer.{fault}
use sddf_i2c_driver.System.Session.{answer}
use sddf_i2c_driver.System.Line.{Request}
use sddf_i2c_driver.System.Machine.{Task, View, LastOne, Output, silent, sends, reports_of}
use sddf_i2c_driver.System.Machine.Account.{
  gather, gather-snoc, gather-nothing, queued_of, tokens_of, bytes_of, with_addr, Part, Fate,
  fate_report, tokens_sent, bytes_sent, fresh, listed, IsGoing, Account,
}

going-none : (n : Option Part) → IsGoing n none → n ≡ none
going-none none g = refl
going-none (some p) g = absurd g

going-some :
    (n : Option Part) (j : Task)
    → IsGoing n (some j)
    → (p : Part) × (n ≡ some p)
      × (j ≡ record { request = p.task.request; toks = p.rest; bytes = p.rest_bytes })
going-some none j g = absurd g
going-some (some p) j g = (p, refl, g)

module _ {bus : ℕ} {w : View} {outs : List Output} where
  pub taken-Account :
      (r : Request) (rest : List Request) {answers : List Report}
      (now left now_bytes left_bytes : List ℕ)
      → r.toks ≡ now ++ left
      → r.bytes ≡ now_bytes ++ left_bytes
      → Account bus w outs (r ∷ rest) none answers
      → Account bus w
          (outs ++ sends r.addr now now_bytes ∷ [])
          rest
          (some (record { request = r; toks = left; bytes = left_bytes }))
          answers
  taken-Account r rest {answers} now left now_bytes left_bytes split split_bytes a =
      let o = sends r.addr now now_bytes in
      let start = listed w.work ++ map fresh w.waiting in
      let none_now = going-none a.now a.going in
      let d = map (λ f. f.part) a.done in
      let p : Part = record {
        task = fresh r;
        sent = now;
        rest = left;
        sent_bytes = now_bytes;
        rest_bytes = left_bytes;
        split = split;
        split_bytes = split_bytes;
      } in
      let before : d ++ listed a.now ≡ d = ap (λ n. d ++ listed n) none_now ∙ append-nil d in
      record {
        done = a.done;
        now = some p;
        going = refl;
        in_order =
            ap (λ l. start ++ map fresh l) (gather-nothing queued_of outs o refl)
            ∙ a.in_order
            ∙ ap (λ l. map (λ p. p.task) l ++ fresh r ∷ map fresh rest) before
            ∙ sym (append_assoc (map (λ p. p.task) d) (fresh r ∷ []) (map fresh rest))
            ∙ ap (λ l. l ++ map fresh rest) (sym (map-append (λ p. p.task) d (p ∷ [])));
        answered =
            a.answered ∙ ap (λ l. l ++ answers) (sym (gather-nothing reports_of outs o refl));
        tokens =
            gather-snoc tokens_of outs o
            ∙ ap (λ l. l ++ with_addr r.addr now) (a.tokens ∙ ap (gather tokens_sent) before)
            ∙ sym (gather-snoc tokens_sent d p);
        bytes =
            gather-snoc bytes_of outs o
            ∙ ap (λ l. l ++ with_addr r.addr now_bytes) (a.bytes ∙ ap (gather bytes_sent) before)
            ∙ sym (gather-snoc bytes_sent d p);
      }

  pub goes_on-Account :
      (j : Task) {waiting : List Request} {answers : List Report}
      (now left now_bytes left_bytes : List ℕ)
      → j.toks ≡ now ++ left
      → j.bytes ≡ now_bytes ++ left_bytes
      → Account bus w outs waiting (some j) answers
      → Account bus w
          (outs ++ sends j.request.addr now now_bytes ∷ [])
          waiting
          (some (record j { toks = left; bytes = left_bytes }))
          answers
  goes_on-Account j {waiting} {answers} now left now_bytes left_bytes split split_bytes a =
      let o = sends j.request.addr now now_bytes in
      let start = listed w.work ++ map fresh w.waiting in
      let (p, at, is_j) = going-some a.now j a.going in
      let d = map (λ f. f.part) a.done in
      let q : Part = record {
        task = p.task;
        sent = p.sent ++ now;
        rest = left;
        sent_bytes = p.sent_bytes ++ now_bytes;
        rest_bytes = left_bytes;
        split =
            p.split
            ∙ ap (λ l. p.sent ++ l) (sym (ap (λ z. z.toks) is_j) ∙ split)
            ∙ sym (append_assoc p.sent now left);
        split_bytes =
            p.split_bytes
            ∙ ap (λ l. p.sent_bytes ++ l) (sym (ap (λ z. z.bytes) is_j) ∙ split_bytes)
            ∙ sym (append_assoc p.sent_bytes now_bytes left_bytes);
      } in
      let before : d ++ listed a.now ≡ d ++ p ∷ [] = ap (λ n. d ++ listed n) at in
      let addr = ap (λ z. z.request.addr) is_j in
      record {
        done = a.done;
        now = some q;
        going = λ t. record { request = (is_j t).request; toks = left; bytes = left_bytes };
        in_order =
            ap (λ l. start ++ map fresh l) (gather-nothing queued_of outs o refl)
            ∙ a.in_order
            ∙ ap (λ l. map (λ p. p.task) l ++ map fresh waiting) before
            ∙ ap (λ l. l ++ map fresh waiting)
                (map-append (λ p. p.task) d (p ∷ []) ∙ sym (map-append (λ p. p.task) d (q ∷ [])));
        answered =
            a.answered ∙ ap (λ l. l ++ answers) (sym (gather-nothing reports_of outs o refl));
        tokens =
            gather-snoc tokens_of outs o
            ∙ ap (λ x. gather tokens_of outs ++ with_addr x now) addr
            ∙ ap (λ l. l ++ with_addr p.task.request.addr now)
                (a.tokens ∙ ap (gather tokens_sent) before ∙ gather-snoc tokens_sent d p)
            ∙ append_assoc (gather tokens_sent d) (tokens_sent p)
                (with_addr p.task.request.addr now)
            ∙ ap (λ l. gather tokens_sent d ++ l)
                (sym (map-append (λ x. (p.task.request.addr, x)) p.sent now))
            ∙ sym (gather-snoc tokens_sent d q);
        bytes =
            gather-snoc bytes_of outs o
            ∙ ap (λ x. gather bytes_of outs ++ with_addr x now_bytes) addr
            ∙ ap (λ l. l ++ with_addr p.task.request.addr now_bytes)
                (a.bytes ∙ ap (gather bytes_sent) before ∙ gather-snoc bytes_sent d p)
            ∙ append_assoc (gather bytes_sent d) (bytes_sent p)
                (with_addr p.task.request.addr now_bytes)
            ∙ ap (λ l. gather bytes_sent d ++ l)
                (sym (map-append (λ x. (p.task.request.addr, x)) p.sent_bytes now_bytes))
            ∙ sym (gather-snoc bytes_sent d q);
      }

  pub ends-Account :
      (timeout : Bool) (r : Interface) (j : Task) {waiting : List Request} {answers : List Report}
      → LastOne timeout r j
      → Account bus w outs waiting (some j) answers
      → Account bus w
          (outs ++ silent ∷ [])
          waiting
          none
          (answers ++ answer bus (fault timeout r) j.request.client j.request.addr ∷ [])
  ends-Account timeout r j {waiting} {answers} last a =
      let start = listed w.work ++ map fresh w.waiting in
      let err = fault timeout r in
      let (p, at, is_j) = going-some a.now j a.going in
      let whole_if : LastOne timeout r j → err ≡ 0 → (p.rest ≡ []) × (p.rest_bytes ≡ []) = λ l z.
        elim l [
          | inl ne ↦ absurd (ne z)
          | inr (e, e') ↦ (sym (ap (λ x. x.toks) is_j) ∙ e, sym (ap (λ x. x.bytes) is_j) ∙ e')
        ] in
      let f : Fate = record { part = p; err = err; whole = whole_if last } in
      let said = answer bus err j.request.client j.request.addr in
      let same : said ≡ fate_report bus f =
        ap (λ x. answer bus err x.request.client x.request.addr) is_j in
      let after : map (λ f. f.part) a.done ++ listed a.now
          ≡ map (λ f. f.part) (a.done ++ f ∷ []) ++ [] =
        ap (λ n. map (λ f. f.part) a.done ++ listed n) at
        ∙ sym (map-append (λ f. f.part) a.done (f ∷ []))
        ∙ sym (append-nil (map (λ f. f.part) (a.done ++ f ∷ []))) in
      let told = gather reports_of outs in
      record {
        done = a.done ++ f ∷ [];
        now = none;
        going = tt;
        in_order =
            ap (λ l. start ++ map fresh l) (gather-nothing queued_of outs silent refl)
            ∙ a.in_order
            ∙ ap (λ l. map (λ p. p.task) l ++ map fresh waiting) after;
        answered =
            ap (λ l. w.answers ++ l) (map-append (fate_report bus) a.done (f ∷ []))
            ∙ sym (append_assoc w.answers (map (fate_report bus) a.done) (fate_report bus f ∷ []))
            ∙ ap (λ l. l ++ fate_report bus f ∷ []) a.answered
            ∙ append_assoc told answers (fate_report bus f ∷ [])
            ∙ ap (λ x. told ++ (answers ++ x ∷ [])) (sym same)
            ∙ ap (λ l. l ++ (answers ++ said ∷ []))
                (sym (gather-nothing reports_of outs silent refl));
        tokens =
            gather-nothing tokens_of outs silent refl ∙ a.tokens ∙ ap (gather tokens_sent) after;
        bytes = gather-nothing bytes_of outs silent refl ∙ a.bytes ∙ ap (gather bytes_sent) after;
      }
