-- ===== src/System/Machine/Account.antt =====
-- What becomes of each request on a bus, over a whole run (i2c/i2c-transport.c, i2c/i2c-odroid-c4.c,
-- i2c/i2c.c): the order in which requests are sent and answered, and what is on the wire.
use sddf_i2c_driver.Prelude.{
  ℕ, ◌≡◌, refl, sym, ◌∙◌, ap, List, [], ◌∷◌, ◌++◌, map, Option, none, some, append_assoc,
  append-nil,
}
use sddf_i2c_driver.Server.{Report}
use sddf_i2c_driver.System.Session.{answer}
use sddf_i2c_driver.System.Line.{Request}
use sddf_i2c_driver.System.Machine.{
  Task, View, Output, silent, queued, refused, sends, tells, reports_of,
}

abbrev pub gather : {A B : Type 0} → (A → List B) → List A → List B
gather f [] = []
gather f (x ∷ l) = f x ++ gather f l

gather-append :
    {A B : Type 0} (f : A → List B) (l l' : List A) → gather f (l ++ l') ≡ gather f l ++ gather f l'
gather-append f [] l' = refl
gather-append f (x ∷ l) l' =
    ap (λ z. f x ++ z) (gather-append f l l') ∙ sym (append_assoc (f x) (gather f l) (gather f l'))

pub gather-snoc :
    {A B : Type 0} (f : A → List B) (l : List A) (x : A)
    → gather f (l ++ x ∷ []) ≡ gather f l ++ f x
gather-snoc f l x = gather-append f l (x ∷ []) ∙ ap (λ z. gather f l ++ z) (append-nil (f x))

pub gather-nothing :
    {A B : Type 0} (f : A → List B) (l : List A) (x : A)
    → f x ≡ []
    → gather f (l ++ x ∷ []) ≡ gather f l
gather-nothing f l x e = gather-snoc f l x ∙ ap (λ z. gather f l ++ z) e ∙ append-nil (gather f l)

-- The requests that found a buffer, and the tokens and the data that are loaded, each with the
-- address of its request.
abbrev pub queued_of : Output → List Request
queued_of silent = []
queued_of (queued r) = r ∷ []
queued_of (refused r) = []
queued_of (sends addr toks bytes) = []
queued_of (tells a) = []

abbrev pub with_addr : ℕ → List ℕ → List (ℕ × ℕ)
with_addr addr l = map (λ x. (addr, x)) l

abbrev pub tokens_of : Output → List (ℕ × ℕ)
tokens_of silent = []
tokens_of (queued r) = []
tokens_of (refused r) = []
tokens_of (sends addr toks bytes) = with_addr addr toks
tokens_of (tells a) = []

abbrev pub bytes_of : Output → List (ℕ × ℕ)
bytes_of silent = []
bytes_of (queued r) = []
bytes_of (refused r) = []
bytes_of (sends addr toks bytes) = with_addr addr bytes
bytes_of (tells a) = []

-- A request with what was to be sent of it, the part that is sent, and the rest.
pub record Part : Type 0 where
  pub task : Task
  pub sent : List ℕ
  pub rest : List ℕ
  pub sent_bytes : List ℕ
  pub rest_bytes : List ℕ
  pub split : task.toks ≡ sent ++ rest
  pub split_bytes : task.bytes ≡ sent_bytes ++ rest_bytes

-- A request that is done, by an error or with nothing left.
pub record Fate : Type 0 where
  pub part : Part
  pub err : ℕ
  pub whole : err ≡ 0 → (part.rest ≡ []) × (part.rest_bytes ≡ [])

abbrev pub fate_report : ℕ → Fate → Report
fate_report bus f = answer bus f.err f.part.task.request.client f.part.task.request.addr

abbrev pub tokens_sent : Part → List (ℕ × ℕ)
tokens_sent p = with_addr p.task.request.addr p.sent

abbrev pub bytes_sent : Part → List (ℕ × ℕ)
bytes_sent p = with_addr p.task.request.addr p.sent_bytes

-- All of a request is still to be sent.
abbrev pub fresh : Request → Task
fresh r = record { request = r; toks = r.toks; bytes = r.bytes }

abbrev pub listed : {A : Type 0} → Option A → List A
listed none = []
listed (some x) = x ∷ []

-- The request at work is the one that the part is sent of.
abbrev pub IsGoing : Option Part → Option Task → Type 0
IsGoing none none = Unit {0}
IsGoing (some p) (some j) =
    j ≡ record { request = p.task.request; toks = p.rest; bytes = p.rest_bytes }
IsGoing none (some j) = ⊥
IsGoing (some p) none = ⊥

-- From `w` on, the outputs `outs` have led to the requests `waiting`, to the one at work, and to the
-- unread `answers`.
pub record Account (bus : ℕ) (w : View) (outs : List Output) (waiting : List Request)
    (work : Option Task) (answers : List Report) : Type 0 where
  pub done : List Fate
  pub now : Option Part
  pub going : IsGoing now work
  pub in_order :
      (listed w.work ++ map fresh w.waiting) ++ map fresh (gather queued_of outs)
      ≡ map (λ p. p.task) (map (λ f. f.part) done ++ listed now) ++ map fresh waiting
  pub answered : w.answers ++ map (fate_report bus) done ≡ gather reports_of outs ++ answers
  pub tokens : gather tokens_of outs ≡ gather tokens_sent (map (λ f. f.part) done ++ listed now)
  pub bytes : gather bytes_of outs ≡ gather bytes_sent (map (λ f. f.part) done ++ listed now)

pub start-Account : (bus : ℕ) (w : View) → Account bus w [] w.waiting w.work w.answers
start-Account bus w = by_work w.work
  where
    by_work : (o : Option Task) → Account bus (record w { work = o }) [] w.waiting o w.answers
    by_work none = record {
      done = [];
      now = none;
      going = tt;
      in_order = append-nil (map fresh w.waiting);
      answered = append-nil w.answers;
      tokens = refl;
      bytes = refl;
    }
    by_work (some j) = record {
      done = [];
      now = some (record {
        task = j;
        sent = [];
        rest = j.toks;
        sent_bytes = [];
        rest_bytes = j.bytes;
        split = refl;
        split_bytes = refl;
      });
      going = refl;
      in_order = append-nil (j ∷ map fresh w.waiting);
      answered = append-nil w.answers;
      tokens = refl;
      bytes = refl;
    }
