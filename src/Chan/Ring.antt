-- ===== src/Chan/Ring.antt =====
-- The buffer of a channel of src/vm.c as a queue: what `put` and `get` do to the values in it.
use opo.Base.{
  ℕ, zero, suc, ◌+◌, ◌-◌, ◌%◌, ◌≤◌, ◌<◌, ◌≡◌, ◌≢◌, ◌⊎◌, inl, inr, refl, sym, ap, ap₂, subst, ◌∙◌,
  false, List, [], ◌∷◌, ◌++◌, arith, dec_lt, get_or, get_or-set, set, length,
}
use opo.Heap.{ObjChan, ring_values}
use opo.Value.{Value, void_value}
use native.Mathlib.Nat.{mod-eq_of_lt, mod-add-mod, add-mod_right, mod-lt}

-- A buffered channel between two operations.
pub record IsRing (c : ObjChan) : Type 0 where
  pub has_room : 0 < c.capacity
  pub storage : length c.buffer ≡ c.capacity
  pub count_in : c.count ≤ c.capacity
  pub head_in : c.head < c.capacity
  pub tail_at : c.tail ≡ (c.head + c.count) % c.capacity
  pub nothing_offered : c.has_unbuffered_value ≡ false

-- The values in the buffer, the oldest first.
abbrev pub queued : ObjChan → List Value
queued c = ring_values c.count c 0

-- A sum below two rounds is itself or one round less.
pub one_round : (n a : ℕ) → a < n + n → ((a < n) × (a % n ≡ a)) ⊎ ((n ≤ a) × (a % n ≡ a - n))
one_round n a h = elim (dec_lt a n) [
  | yes below ↦ inl (below, mod-eq_of_lt below)
  | no above ↦ inr (
    omega arith,
    ap (λ (x : ℕ). x % n) (omega arith) ∙ add-mod_right (a - n) n ∙ mod-eq_of_lt (omega arith),
  )
]

-- Two places of a ring are the same only for the same distance.
pub apart : (n h i j : ℕ) → h < n → i < j → j < n → (h + i) % n ≢ (h + j) % n
apart n h i j hh hi hj = elim (one_round n (h + i) (omega arith)) [
  | inl e ↦ elim (one_round n (h + j) (omega arith)) [ inl f ↦ omega arith | inr f ↦ omega arith ]
  | inr e ↦ elim (one_round n (h + j) (omega arith)) [ inl f ↦ omega arith | inr f ↦ omega arith ]
]

-- The value at a distance from the oldest.
abbrev pub nth : ObjChan → ℕ → Value
nth c i = get_or c.buffer ((c.head + i) % c.capacity) void_value

nth-put :
    (c c' : ObjChan) (v : Value) (t i : ℕ)
    → c'.buffer ≡ set c.buffer ((c.head + t) % c.capacity) v
    → c'.head ≡ c.head
    → c'.capacity ≡ c.capacity
    → length c.buffer ≡ c.capacity
    → c.head < c.capacity
    → i < t
    → t < c.capacity
    → nth c' i ≡ nth c i
nth-put c c' v t i eb eh ec hb hh hi ht =
    rw
      (
        eb,
        eh,
        ec,
        get_or-set c.buffer ((c.head + t) % c.capacity) v void_value ((c.head + i) % c.capacity) (
            subst (λ (n : ℕ). (c.head + t) % c.capacity < n) (sym hb)
              (mod-lt (c.head + t) (omega arith))),
      )
      (ground (arith, apart c.capacity c.head i t))

-- Values that a write behind them leaves alone.
pub ring_values-put :
    (n i : ℕ) (c c' : ObjChan) (v : Value) (t : ℕ)
    → c'.buffer ≡ set c.buffer ((c.head + t) % c.capacity) v
    → c'.head ≡ c.head
    → c'.capacity ≡ c.capacity
    → length c.buffer ≡ c.capacity
    → c.head < c.capacity
    → i + n ≤ t
    → t < c.capacity
    → ring_values n c' i ≡ ring_values n c i
unfolding ring_values
ring_values-put zero i c c' v t eb eh ec hb hh hi ht = refl
ring_values-put (suc n) i c c' v t eb eh ec hb hh hi ht =
    ap₂ (λ (x : Value) (xs : List Value). x ∷ xs)
      (nth-put c c' v t i eb eh ec hb hh (omega arith) ht)
      (ring_values-put n (suc i) c c' v t eb eh ec hb hh (omega arith) ht)

pub ring_values-snoc :
    (n i : ℕ) (c : ObjChan)
    → ring_values (suc n) c i
      ≡ ring_values n c i ++ get_or c.buffer ((c.head + (i + n)) % c.capacity) void_value ∷ []
unfolding ring_values
ring_values-snoc zero i c = ap (λ (j : ℕ). nth c j ∷ []) (omega arith)
ring_values-snoc (suc n) i c =
    ap (λ (xs : List Value). nth c i ∷ xs) (ring_values-snoc n (suc i) c)
    ∙ ap (λ (j : ℕ). nth c i ∷ (ring_values n c (suc i) ++ nth c j ∷ [])) (omega arith)

nth-get :
    (c c' : ObjChan) (i : ℕ)
    → c'.buffer ≡ c.buffer
    → c'.head ≡ (c.head + 1) % c.capacity
    → c'.capacity ≡ c.capacity
    → nth c' i ≡ nth c (suc i)
nth-get c c' i eb eh ec =
    rw (eb, eh, ec)
      (ap (λ (j : ℕ). get_or c.buffer j void_value)
        (mod-add-mod (c.head + 1) c.capacity i ∙ ap (λ (x : ℕ). x % c.capacity) (omega arith)))

pub ring_values-get :
    (n i : ℕ) (c c' : ObjChan)
    → c'.buffer ≡ c.buffer
    → c'.head ≡ (c.head + 1) % c.capacity
    → c'.capacity ≡ c.capacity
    → ring_values n c' i ≡ ring_values n c (suc i)
unfolding ring_values
ring_values-get zero i c c' eb eh ec = refl
ring_values-get (suc n) i c c' eb eh ec =
    ap₂ (λ (x : Value) (xs : List Value). x ∷ xs) (nth-get c c' i eb eh ec)
      (ring_values-get n (suc i) c c' eb eh ec)
