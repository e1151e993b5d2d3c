-- ===== src/Chan/Turns.antt =====
-- The turns of senders and receivers at a buffered channel of src/vm.c, case by case: how they end,
-- and the queue and the ring that they leave.
use opo.Base.{
  ℕ, zero, suc, ◌+◌, ◌-◌, ◌%◌, ◌<◌, ◌≡◌, refl, sym, ap, ap₂, subst, ◌∙◌, true, false, List, [], ◌∷◌,
  ◌++◌, arith, get_or, get_or-set, set, length, length-set,
}
use native.Mathlib.Nat.{mod-lt, mod-add-mod, mod-eq_of_lt}
use opo.Chan.Ring.{IsRing, queued, ring_values-put, ring_values-snoc, ring_values-get, nth}
use opo.Chan.{full, refused, sent, empty, ended, received, send, receive}
use opo.Heap.{ObjChan, ring_values}
use opo.Value.{Value, void_value}

pub length-ring_values : (n i : ℕ) (c : ObjChan) → length (ring_values n c i) ≡ n
unfolding ring_values
length-ring_values zero i c = refl
length-ring_values (suc n) i c = ap suc (length-ring_values n (suc i) c)

-- The channel with a value more, and with one less.
abbrev pub stored : Value → ObjChan → ObjChan
stored v c = record c {
  buffer = set c.buffer c.tail v;
  tail = (c.tail + 1) % c.capacity;
  count = c.count + 1;
}

abbrev pub shorter : ObjChan → ObjChan
shorter c = record c { head = (c.head + 1) % c.capacity; count = c.count - 1 }

pub send-closed : (v : Value) (c : ObjChan) → IsRing c → c.closed ≡ true → send v c ≡ refused
unfolding send
send-closed v c h e = ground arith

pub send-full :
    (v : Value) (c : ObjChan) → IsRing c → c.closed ≡ false → c.count ≡ c.capacity → send v c ≡ full
unfolding send
send-full v c h e f = ground arith

pub send-stored :
    (v : Value) (c : ObjChan)
    → IsRing c
    → c.closed ≡ false
    → c.count < c.capacity
    → send v c ≡ sent (stored v c)
unfolding send
send-stored v c h e f = ground arith

pub receive-stored :
    (c : ObjChan)
    → IsRing c
    → 0 < c.count
    → receive c ≡ received (get_or c.buffer c.head void_value) (shorter c)
unfolding receive
receive-stored c h e = ground arith

pub receive-closed : (c : ObjChan) → IsRing c → c.closed ≡ true → c.count ≡ 0 → receive c ≡ ended c
unfolding receive
receive-closed c h e f = ground arith

pub receive-empty : (c : ObjChan) → IsRing c → c.closed ≡ false → c.count ≡ 0 → receive c ≡ empty
unfolding receive
receive-empty c h e f = ground arith

pub stored-IsRing :
    (v : Value) (c : ObjChan) → IsRing c → c.count < c.capacity → IsRing (stored v c)
stored-IsRing v c h f = record {
  has_room = h.has_room;
  storage = length-set c.buffer c.tail v ∙ h.storage;
  count_in = omega arith;
  head_in = h.head_in;
  tail_at =
      ap (λ (t : ℕ). (t + 1) % c.capacity) h.tail_at
      ∙ mod-add-mod (c.head + c.count) c.capacity 1
      ∙ ap (λ (x : ℕ). x % c.capacity) (omega arith);
  nothing_offered = h.nothing_offered;
}

stored_last :
    (v : Value) (c : ObjChan) → IsRing c → c.count < c.capacity → nth (stored v c) (0 + c.count) ≡ v
stored_last v c h f =
    ap (λ (t : ℕ). get_or (set c.buffer c.tail v) t void_value)
      (ap (λ (n : ℕ). (c.head + n) % c.capacity) (omega arith) ∙ sym h.tail_at)
    ∙ written_last
  where
    written_last : get_or (set c.buffer c.tail v) c.tail void_value ≡ v
    written_last =
        rw
          (get_or-set c.buffer c.tail v void_value c.tail (
            subst (λ (n : ℕ). n < length c.buffer) (sym h.tail_at)
              (subst (λ (n : ℕ). (c.head + c.count) % c.capacity < n) (sym h.storage)
                (mod-lt (c.head + c.count) h.has_room))))
          (ground arith)

pub stored-queued :
    (v : Value) (c : ObjChan)
    → IsRing c
    → c.count < c.capacity
    → queued (stored v c) ≡ queued c ++ v ∷ []
stored-queued v c h f =
    ap (λ (n : ℕ). ring_values n (stored v c) 0) (omega arith)
    ∙ ring_values-snoc c.count 0 (stored v c)
    ∙ ap₂ (λ (xs : List Value) (x : Value). xs ++ x ∷ [])
        (ring_values-put c.count 0 c (stored v c) v c.count
          (ap (λ (t : ℕ). set c.buffer t v) h.tail_at) refl refl h.storage h.head_in (omega arith)
          f)
        (stored_last v c h f)

pub shorter-IsRing : (c : ObjChan) → IsRing c → 0 < c.count → IsRing (shorter c)
shorter-IsRing c h f = record {
  has_room = h.has_room;
  storage = h.storage;
  count_in = omega arith;
  head_in = mod-lt (c.head + 1) h.has_room;
  tail_at =
      h.tail_at
      ∙ ap (λ (x : ℕ). x % c.capacity) (omega arith)
      ∙ sym (mod-add-mod (c.head + 1) c.capacity (c.count - 1));
  nothing_offered = h.nothing_offered;
}

suc_pred : (n : ℕ) → 0 < n → n ≡ suc (n - 1)
suc_pred n h = omega arith

zero_right : (a : ℕ) → a + 0 ≡ a
zero_right a = omega arith

pub shorter-queued :
    (c : ObjChan)
    → IsRing c
    → 0 < c.count
    → queued c ≡ get_or c.buffer c.head void_value ∷ queued (shorter c)
unfolding ring_values
shorter-queued c h f =
    ap (λ (n : ℕ). ring_values n c 0) (suc_pred c.count f)
    ∙ ap₂ (λ (x : Value) (xs : List Value). x ∷ xs)
        (ap (λ (t : ℕ). get_or c.buffer t void_value)
          (ap (λ (x : ℕ). x % c.capacity) (zero_right c.head) ∙ mod-eq_of_lt h.head_in))
        (sym (ring_values-get (c.count - 1) 0 c (shorter c) refl refl refl))
