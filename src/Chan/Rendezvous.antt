-- ===== src/Chan/Rendezvous.antt =====
-- A channel of src/vm.c without a buffer, shared by any number of threads: their turns as steps in
-- any order.
use mathlib.Core.List.{append-nil}
use mathlib.Core.Bool.{false≢true}
use opo.Base.{
  ℕ, ◌+◌, ◌-◌, ◌<◌, ◌≡◌, refl, sym, ap, ◌∙◌, Bool, true, false, List, [], ◌∷◌, ◌++◌, arith,
  if◌then◌else◌,
}
use opo.Base.Int.{pos}
use opo.Chan.{sent, ended, received, send, receive, register, close}
use opo.Heap.{ObjChan, empty_chan}
use opo.Value.{Value, void_value}

-- The channel, the values that senders have offered and receivers have taken so far, each in its
-- order, and how many receivers are inside `OP_RECV`.
pub record Shared : Type 0 where
  pub channel : ObjChan
  pub offered : List Value
  pub taken : List Value
  pub receivers : ℕ

pub data Step (s : Shared) : Shared → Type 0 where
  -- A receiver enters.
  arrives : Step s (record s { channel = register s.channel; receivers = s.receivers + 1 })
  -- A sender whose wait is over offers a value.
  offers :
      (v : Value) (c : ObjChan)
      → send v s.channel ≡ sent c
      → Step s (record s { channel = c; offered = s.offered ++ v ∷ [] })
  -- A receiver takes a value, or leaves without one.
  takes :
      (v : Value) (c : ObjChan)
      → 0 < s.receivers
      → receive s.channel ≡ received v c
      → Step s (record s { channel = c; taken = s.taken ++ v ∷ []; receivers = s.receivers - 1 })
  leaves :
      (c : ObjChan)
      → 0 < s.receivers
      → receive s.channel ≡ ended c
      → Step s (record s { channel = c; receivers = s.receivers - 1 })
  closes : Step s (record s { channel = close s.channel })

pub data Steps (s : Shared) : Shared → Type 0 where
  start : Steps s s
  next : {t u : Shared} → Steps s t → Step t u → Steps s u

-- A new channel, with nobody at it.
abbrev pub fresh : Shared
fresh = record { channel = empty_chan (pos 0); offered = []; taken = []; receivers = 0 }

-- The value on offer, if there is one.
abbrev pub pending : ObjChan → List Value
pending c = if c.has_unbuffered_value then c.unbuffered_value ∷ [] else []

pub record Inv (s : Shared) : Type 0 where
  pub unbuffered : s.channel.capacity ≡ 0
  pub counted : s.channel.waiting_receivers ≡ s.receivers
  pub in_order : s.offered ≡ s.taken ++ pending s.channel
  pub awaited : s.channel.has_unbuffered_value ≡ true → 0 < s.receivers

abbrev pub on_offer : Value → ObjChan → ObjChan
on_offer v c = record c { unbuffered_value = v; has_unbuffered_value = true }

abbrev pub emptied : ObjChan → ObjChan
emptied c = record c {
  unbuffered_value = void_value;
  has_unbuffered_value = false;
  waiting_receivers = c.waiting_receivers - 1;
}

abbrev left : ObjChan → ObjChan
left c = record c { waiting_receivers = c.waiting_receivers - 1 }

-- What each end of a turn says of the channel before it.
send-sent :
    (v : Value) (c c' : ObjChan)
    → c.capacity ≡ 0
    → send v c ≡ sent c'
    → (0 < c.waiting_receivers) × (c.has_unbuffered_value ≡ false) × (c' ≡ on_offer v c)
unfolding send
send-sent v c c' z e = grind arith

receive-received :
    (v : Value) (c c' : ObjChan)
    → c.capacity ≡ 0
    → receive c ≡ received v c'
    → (c.has_unbuffered_value ≡ true) × (v ≡ c.unbuffered_value) × (c' ≡ emptied c)
unfolding receive
receive-received v c c' z e = grind arith

receive-ended :
    (c c' : ObjChan)
    → c.capacity ≡ 0
    → receive c ≡ ended c'
    → (c.has_unbuffered_value ≡ false) × (c' ≡ left c)
unfolding receive
receive-ended c c' z e = grind arith

pending_none : (c : ObjChan) → c.has_unbuffered_value ≡ false → pending c ≡ []
pending_none c e = ap (λ (b : Bool). if b then c.unbuffered_value ∷ [] else []) e

pending_some : (c : ObjChan) → c.has_unbuffered_value ≡ true → pending c ≡ c.unbuffered_value ∷ []
pending_some c e = ap (λ (b : Bool). if b then c.unbuffered_value ∷ [] else []) e

all_taken : {s : Shared} → Inv s → s.channel.has_unbuffered_value ≡ false → s.offered ≡ s.taken
all_taken {s} h e =
    h.in_order
    ∙ ap (λ (vs : List Value). s.taken ++ vs) (pending_none s.channel e)
    ∙ append-nil s.taken

arrives-Inv :
    {s : Shared}
    → Inv s
    → Inv (record s { channel = register s.channel; receivers = s.receivers + 1 })
unfolding register
arrives-Inv {s} h = record {
  unbuffered = grind arith;
  counted = grind arith;
  in_order =
      h.in_order ∙ ap (λ (vs : List Value). s.taken ++ vs) (sym (pending-register s.channel));
  awaited = λ e. omega arith;
}
  where
    pending-register : (c : ObjChan) → pending (register c) ≡ pending c
    pending-register c = ground arith

on_offer-Inv :
    {s : Shared} (v : Value)
    → Inv s
    → 0 < s.channel.waiting_receivers
    → s.channel.has_unbuffered_value ≡ false
    → Inv (record s { channel = on_offer v s.channel; offered = s.offered ++ v ∷ [] })
on_offer-Inv {s} v h n e = record {
  unbuffered = h.unbuffered;
  counted = h.counted;
  in_order = ap (λ (vs : List Value). vs ++ v ∷ []) (all_taken h e);
  awaited = λ f. omega (arith, h.counted);
}

emptied-Inv :
    {s : Shared}
    → Inv s
    → s.channel.has_unbuffered_value ≡ true
    → Inv (record s {
      channel = emptied s.channel;
      taken = s.taken ++ s.channel.unbuffered_value ∷ [];
      receivers = s.receivers - 1;
    })
emptied-Inv {s} h e = record {
  unbuffered = h.unbuffered;
  counted = ap (λ (n : ℕ). n - 1) h.counted;
  in_order =
      h.in_order
      ∙ ap (λ (vs : List Value). s.taken ++ vs) (pending_some s.channel e)
      ∙ sym (append-nil (s.taken ++ s.channel.unbuffered_value ∷ []));
  awaited = λ f. absurd (false≢true f);
}

left-Inv :
    {s : Shared}
    → Inv s
    → s.channel.has_unbuffered_value ≡ false
    → Inv (record s { channel = left s.channel; receivers = s.receivers - 1 })
left-Inv {s} h e = record {
  unbuffered = h.unbuffered;
  counted = ap (λ (n : ℕ). n - 1) h.counted;
  in_order = h.in_order;
  awaited = λ f. absurd (false≢true (sym e ∙ f));
}

Step-Inv : {s t : Shared} → Inv s → Step s t → Inv t
unfolding close
Step-Inv {s} h arrives = arrives-Inv h
Step-Inv {s} h (offers v c e) =
    let (n, f, g) = send-sent v s.channel c h.unbuffered e in rw g (on_offer-Inv v h n f)
Step-Inv {s} h (takes v c n e) =
    let (f, g, k) = receive-received v s.channel c h.unbuffered e in rw (k, g) (emptied-Inv h f)
Step-Inv {s} h (leaves c n e) =
    let (f, g) = receive-ended s.channel c h.unbuffered e in rw g (left-Inv h f)
Step-Inv {s} h closes = record {
  unbuffered = h.unbuffered;
  counted = h.counted;
  in_order = h.in_order;
  awaited = h.awaited;
}

-- Whatever senders, receivers and `close` do, in any order, from a new channel without a buffer on:
-- the channel counts the receivers that are inside `OP_RECV`, the values taken so far and the one
-- on offer are the values offered, in their order, and a value is on offer only while a receiver is
-- there to take it.
pub Steps-Inv : {s : Shared} → Steps fresh s → Inv s
Steps-Inv start = record {
  unbuffered = refl;
  counted = refl;
  in_order = refl;
  awaited = λ e. absurd (false≢true e);
}
Steps-Inv (next steps step) = Step-Inv (Steps-Inv steps) step
