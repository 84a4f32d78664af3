-- ===== src/Ring/Interleave/Linear.antt =====
-- Interleaved calls on a shared ring do what calls on a queue do, one after the other.
use mathlib.Core.Option.{some-injective, none-ne-some}
use sddf_i2c_driver.Prelude.{
  append_assoc, append-nil, ℕ, ◌≡◌, refl, sym, ◌∙◌, ap, inl, inr, some, List, [], ◌∷◌, ◌++◌, ◌==◌,
  length, Bool-cases,
}
use sddf_i2c_driver.Ring.{Desc, RingBuffer}
use sddf_i2c_driver.Ring.Queue
use sddf_i2c_driver.Ring.Refine.{Holds}
use sddf_i2c_driver.Ring.Interleave.{
  Producer, no_call, called, has_room, addr_stored, stored, Consumer, resting, asked, not_empty,
  addr_read, desc_read, Event, silent, pushed, full, popped, empty, Shared, Turn, call_enqueue,
  call_dequeue, produce, consume, begin_enqueue, begin_dequeue, take_turn, schedule,
}
use sddf_i2c_driver.Ring.Interleave.State.{
  Does, DoesAll, none_left, next, Producing, Consuming, Linear,
}
use sddf_i2c_driver.Ring.Interleave.Enqueue.{enqueue_turn-Produced}
use sddf_i2c_driver.Ring.Interleave.Dequeue.{dequeue_turn-Consumed}

begin_enqueue-Producing :
    (r : RingBuffer) (q : List Desc) (a n : ℕ) (p : Producer)
    → Producing r q p
    → Producing r q (begin_enqueue a n p)
begin_enqueue-Producing r q a n no_call k = tt
begin_enqueue-Producing r q a n (called b m) k = k
begin_enqueue-Producing r q a n (has_room b m) k = k
begin_enqueue-Producing r q a n (addr_stored b m) k = k
begin_enqueue-Producing r q a n (stored b m) k = k

begin_dequeue-Consuming :
    (q : List Desc) (c : Consumer) → Consuming q c → Consuming q (begin_dequeue c)
begin_dequeue-Consuming q resting k = tt
begin_dequeue-Consuming q asked k = k
begin_dequeue-Consuming q not_empty k = k
begin_dequeue-Consuming q (addr_read a) k = k
begin_dequeue-Consuming q (desc_read a n) k = k

take_turn-Linear :
    (t : Turn) (s : Shared) (q : List Desc)
    → Linear s q
    → (q' : List Desc) × Does q (take_turn t s).0 q' × Linear (take_turn t s).1 q'
unfolding take_turn
take_turn-Linear (call_enqueue a n) s q l = (
  q,
  refl,
  record {
    holds = l.holds;
    producing = begin_enqueue-Producing s.ring q a n s.producer l.producing;
    consuming = l.consuming;
  },
)
take_turn-Linear call_dequeue s q l = (
  q,
  refl,
  record {
    holds = l.holds;
    producing = l.producing;
    consuming = begin_dequeue-Consuming q s.consumer l.consuming;
  },
)
take_turn-Linear produce s q l =
    let p = enqueue_turn-Produced s.ring q s.producer l.holds l.producing in
    (
      p.after,
      p.does,
      record {
        holds = p.holds;
        producing = p.producing;
        consuming = p.consuming s.consumer l.consuming;
      },
    )
take_turn-Linear consume s q l =
    let c = dequeue_turn-Consumed s.ring q s.consumer l.holds l.consuming in
    (
      c.after,
      c.does,
      record {
        holds = c.holds;
        producing = c.producing s.producer l.producing;
        consuming = c.consuming;
      },
    )

schedule-Linear :
    (ts : List Turn) (s : Shared) (q : List Desc)
    → Linear s q
    → (q' : List Desc) × DoesAll q (schedule ts s).0 q' × Linear (schedule ts s).1 q'
unfolding schedule
schedule-Linear [] s q l = (q, none_left, l)
schedule-Linear (t ∷ ts) s q l =
    let (q', d, l') = take_turn-Linear t s q l in
    let (q'', ds, l'') = schedule-Linear ts (take_turn t s).1 q' l' in (q'', next d ds, l'')

-- What the events put into the queue, and what they take out.
abbrev pub put_in : List Event → List Desc
put_in [] = []
put_in (silent ∷ es) = put_in es
put_in (pushed d ∷ es) = d ∷ put_in es
put_in (full d ∷ es) = put_in es
put_in (popped d ∷ es) = put_in es
put_in (empty ∷ es) = put_in es

abbrev pub taken_out : List Event → List Desc
taken_out [] = []
taken_out (silent ∷ es) = taken_out es
taken_out (pushed d ∷ es) = taken_out es
taken_out (full d ∷ es) = taken_out es
taken_out (popped d ∷ es) = d ∷ taken_out es
taken_out (empty ∷ es) = taken_out es

-- The ring between calls.
abbrev pub between_calls : RingBuffer → Shared
between_calls r = record { ring = r; producer = no_call; consumer = resting }

-- Two programs share a ring that holds the queue `q`, one enqueues and the other one dequeues, and
-- their single accesses to the ring, each program's in its own order, are interleaved in any way.
-- What the calls return, in order, is what a queue of 511 places does: each successful `enqueue`
-- is a push at the moment it increments the write index, each successful `dequeue` a pop at the
-- moment it increments the read index, and a call that fails does so on a queue that is full, or
-- empty, at the moment of its test. The ring then holds the queue that results, calls under way
-- aside.
pub schedule-DoesAll :
    (ts : List Turn) (r : RingBuffer) (q : List Desc)
    → Holds r q
    → (q' : List Desc) × DoesAll q (schedule ts (between_calls r)).0 q'
      × Holds (schedule ts (between_calls r)).1.ring q'
schedule-DoesAll ts r q h =
    let (q', d, l) =
      schedule-Linear ts (between_calls r) q
        (record { holds = h; producing = tt; consuming = tt }) in
    (q', d, l.holds)

push-append : (q q' : List Desc) (d : Desc) → Queue.push q d ≡ some q' → q' ≡ q ++ d ∷ []
unfolding Queue.push
push-append q q' d e = elim (Bool-cases (length q == 511)) [
  | inl f ↦ absurd (none-ne-some _ (rw f at e))
  | inr f ↦ sym (some-injective _ _ (rw f at e))
]

pop-cons : (q q' : List Desc) (d : Desc) → Queue.pop q ≡ some (d, q') → q ≡ d ∷ q'
unfolding Queue.pop
pop-cons [] q' d e = absurd (none-ne-some _ e)
pop-cons (c ∷ q) q' d e = let k = some-injective _ _ e in ap (λ x. x.0 ∷ x.1) k

-- One event in front of others that are in order.
event-in_order :
    (e : Event) (q q' q'' : List Desc) (es : List Event)
    → Does q e q'
    → q' ++ put_in es ≡ taken_out es ++ q''
    → q ++ put_in (e ∷ es) ≡ taken_out (e ∷ es) ++ q''
event-in_order silent q q' q'' es d h = ap (λ x. x ++ put_in es) (sym d) ∙ h
event-in_order (pushed c) q q' q'' es d h =
    sym (append_assoc q (c ∷ []) (put_in es))
    ∙ ap (λ x. x ++ put_in es) (sym (push-append q q' c d))
    ∙ h
event-in_order (full c) q q' q'' es d h = ap (λ x. x ++ put_in es) (sym (d.1)) ∙ h
event-in_order (popped c) q q' q'' es d h =
    ap (λ x. x ++ put_in es) (pop-cons q q' c d) ∙ ap (λ x. c ∷ x) h
event-in_order empty q q' q'' es d h = ap (λ x. x ++ put_in es) (sym (d.1)) ∙ h

DoesAll-in_order :
    {q q' : List Desc} {es : List Event} → DoesAll q es q' → q ++ put_in es ≡ taken_out es ++ q'
DoesAll-in_order {q} none_left = append-nil q
DoesAll-in_order {q} {q' = q''} (next {q' = q'} {e = e} {es = es} d ds) =
    event-in_order e q q' q'' es d (DoesAll-in_order ds)

-- Under any interleaving of one program that enqueues and one that dequeues, no descriptor is
-- lost, made up or moved: those that the ring held and those enqueued since are, in order, those
-- dequeued and those that the ring holds then.
pub schedule-in_order :
    (ts : List Turn) (r : RingBuffer) (q : List Desc)
    → Holds r q
    → (q' : List Desc) × Holds (schedule ts (between_calls r)).1.ring q'
      × (q ++ put_in (schedule ts (between_calls r)).0
          ≡ taken_out (schedule ts (between_calls r)).0 ++ q')
schedule-in_order ts r q h =
    let (q', ds, h') = schedule-DoesAll ts r q h in (q', h', DoesAll-in_order ds)
