-- ===== src/Chan/Fifo.antt =====
-- A buffered channel of src/vm.c as a bounded queue: any sequence of turns of senders, receivers
-- and `close` is answered as the queue answers it.
use opo.Base.{
  ℕ, zero, suc, ◌≡◌, inl, inr, refl, sym, ap, ap₂, ◌∙◌, Bool, true, false, List, [], ◌∷◌, ◌++◌,
  arith, dec_lt, Bool-cases, ◌==◌, if◌then◌else◌, get_or, length, length-replicate,
}
use native.Mathlib.Nat.{zero-mod}
use opo.Base.Int.{pos}
use opo.Chan.Turns.{
  length-ring_values, stored, shorter, send-closed, send-full, send-stored, receive-stored,
  receive-closed, receive-empty, stored-IsRing, stored-queued, shorter-IsRing, shorter-queued,
}
use opo.Chan.Ring.{IsRing, queued, nth}
use opo.Chan.{Sending, full, refused, sent, Receiving, empty, ended, received, send, receive, close}
use opo.Heap.{ObjChan, ring_values, empty_chan}
use opo.Value.{Value, void_value}

-- What a thread may do in a turn, and what it learns.
pub data Turn : Type 0 where
  sends : Value → Turn
  receives : Turn
  closes : Turn

pub data Answer : Type 0 where
  waits : Answer
  is_refused : Answer
  accepts : Answer
  ends : Answer
  gives : Value → Answer

after_send : ObjChan → Sending → Answer × ObjChan
after_send c full = (waits, c)
after_send c refused = (is_refused, c)
after_send c (sent c') = (accepts, c')

after_receive : ObjChan → Receiving → Answer × ObjChan
after_receive c empty = (waits, c)
after_receive c (ended c') = (ends, c')
after_receive c (received v c') = (gives v, c')

-- A turn on the channel.
pub take_turn : Turn → ObjChan → Answer × ObjChan
unfolding after_send after_receive
take_turn (sends v) c = after_send c (send v c)
take_turn receives c = after_receive c (receive c)
take_turn closes c = (accepts, close c)

-- The queue that a channel promises.
pub record Queue : Type 0 where
  pub items : List Value
  pub room : ℕ
  pub is_closed : Bool

queue_receive : Queue → List Value → Answer × Queue
queue_receive q [] = if q.is_closed then (ends, q) else (waits, q)
queue_receive q (v ∷ vs) = (gives v, record q { items = vs })

-- A turn on the queue.
pub queue_turn : Turn → Queue → Answer × Queue
unfolding queue_receive
queue_turn (sends v) q =
    if q.is_closed
    then (is_refused, q)
    else if length q.items == q.room
    then (waits, q)
    else (accepts, record q { items = q.items ++ v ∷ [] })
queue_turn receives q = queue_receive q q.items
queue_turn closes q = (accepts, record q { is_closed = true })

-- The queue that a channel stands for.
abbrev pub view : ObjChan → Queue
view c = record { items = queued c; room = c.capacity; is_closed = c.closed }

-- What a turn on a channel leaves, against the queue's.
pub Agrees : Answer × ObjChan → Answer × Queue → Type 0
Agrees (a, c) (b, q) = (a ≡ b) × (view c ≡ q) × IsRing c

-- The answers and what they leave, each worked out.
agree :
    (t : Turn) (c c' : ObjChan) (q : Queue) (a : Answer)
    → take_turn t c ≡ (a, c')
    → queue_turn t (view c) ≡ (a, q)
    → view c' ≡ q
    → IsRing c'
    → Agrees (take_turn t c) (queue_turn t (view c))
unfolding Agrees
agree t c c' q a e f g h = rw (e, f) (refl, g, h)

sends-Agrees :
    (v : Value) (c : ObjChan)
    → IsRing c
    → Agrees (take_turn (sends v) c) (queue_turn (sends v) (view c))
unfolding take_turn queue_turn
sends-Agrees v c h = elim (Bool-cases c.closed) [
  | inl e ↦
      agree (sends v) c c (view c) is_refused (ap (after_send c) (send-closed v c h e))
        (ground arith) refl h
  | inr e ↦ elim (dec_lt c.count c.capacity) [
    | yes f ↦
        agree (sends v) c (stored v c) (record (view c) { items = queued c ++ v ∷ [] }) accepts
          (ap (after_send c) (send-stored v c h e f))
          (ground (arith, length-ring_values c.count 0 c))
          (ap (λ (vs : List Value). record (view c) { items = vs }) (stored-queued v c h f))
          (stored-IsRing v c h f)
    | no f ↦
        agree (sends v) c c (view c) waits (ap (after_send c) (send-full v c h e (omega arith)))
          (ground (arith, length-ring_values c.count 0 c)) refl h
  ]
]

no_values : (c : ObjChan) → c.count ≡ 0 → queued c ≡ []
unfolding ring_values
no_values c e = ap (λ (n : ℕ). ring_values n c 0) e

receives-Agrees :
    (c : ObjChan) → IsRing c → Agrees (take_turn receives c) (queue_turn receives (view c))
unfolding take_turn queue_turn
receives-Agrees c h = elim (dec_lt 0 c.count) [
  | yes f ↦
      agree receives c (shorter c) (view (shorter c)) (gives (get_or c.buffer c.head void_value))
        (ap (after_receive c) (receive-stored c h f))
        (ap (queue_receive (view c)) (shorter-queued c h f)) refl (shorter-IsRing c h f)
  | no f ↦ elim (Bool-cases c.closed) [
    | inl e ↦
        agree receives c c (view c) ends (ap (after_receive c) (receive-closed c h e (omega arith)))
          (ap (queue_receive (view c)) (no_values c (omega arith))
            ∙ ap (λ (b : Bool). if b then (ends, view c) else (waits, view c)) e)
          refl h
    | inr e ↦
        agree receives c c (view c) waits (ap (after_receive c) (receive-empty c h e (omega arith)))
          (ap (queue_receive (view c)) (no_values c (omega arith))
            ∙ ap (λ (b : Bool). if b then (ends, view c) else (waits, view c)) e)
          refl h
  ]
]

ring_values-close : (n i : ℕ) (c : ObjChan) → ring_values n (close c) i ≡ ring_values n c i
unfolding ring_values close
ring_values-close zero i c = refl
ring_values-close (suc n) i c =
    ap (λ (vs : List Value). nth c i ∷ vs) (ring_values-close n (suc i) c)

-- Of a channel with a buffer that is a ring: a turn of a sender, of a receiver or of `close` is
-- answered as the queue of its values answers it (refused when closed, waiting when full, the
-- oldest value to a receiver, the end when closed and empty), it leaves the channel that stands for
-- the queue's next state, and that channel's buffer is a ring again.
pub take_turn-Agrees :
    (t : Turn) (c : ObjChan) → IsRing c → Agrees (take_turn t c) (queue_turn t (view c))
unfolding take_turn queue_turn close Agrees
take_turn-Agrees (sends v) c h = sends-Agrees v c h
take_turn-Agrees receives c h = receives-Agrees c h
take_turn-Agrees closes c h = (
  refl,
  ap (λ (vs : List Value). record { items = vs; room = c.capacity; is_closed = true })
      (ring_values-close c.count 0 c),
  record {
    has_room = h.has_room;
    storage = h.storage;
    count_in = h.count_in;
    head_in = h.head_in;
    tail_at = h.tail_at;
    nothing_offered = h.nothing_offered;
  },
)

-- The answers to turns in a row.
pub answers : List Turn → ObjChan → List Answer
answers [] c = []
answers (t ∷ ts) c = let (a, c') = take_turn t c in a ∷ answers ts c'

pub queue_answers : List Turn → Queue → List Answer
queue_answers [] q = []
queue_answers (t ∷ ts) q = let (a, q') = queue_turn t q in a ∷ queue_answers ts q'

answers-queue_answers :
    (ts : List Turn) (c : ObjChan) → IsRing c → answers ts c ≡ queue_answers ts (view c)
unfolding answers queue_answers Agrees
answers-queue_answers [] c h = refl
answers-queue_answers (t ∷ ts) c h =
    let (same, state, valid) = take_turn-Agrees t c h in
    ap₂ (λ (a : Answer) (rest : List Answer). a ∷ rest) same
      (answers-queue_answers ts (take_turn t c).1 valid ∙ ap (queue_answers ts) state)

pub empty_chan-IsRing : (n : ℕ) → IsRing (empty_chan (pos (suc n)))
empty_chan-IsRing n = record {
  has_room = omega arith;
  storage = length-replicate (suc n) void_value;
  count_in = omega arith;
  head_in = omega arith;
  tail_at = sym (zero-mod (suc n));
  nothing_offered = refl;
}

-- A new channel with room for one value or more answers every sequence of turns, whoever takes
-- them, as an empty queue with that room does.
pub chan_lem :
    (n : ℕ) (ts : List Turn)
    → answers ts (empty_chan (pos (suc n)))
      ≡ queue_answers ts (record { items = []; room = suc n; is_closed = false })
unfolding ring_values
chan_lem n ts = answers-queue_answers ts (empty_chan (pos (suc n))) (empty_chan-IsRing n)
