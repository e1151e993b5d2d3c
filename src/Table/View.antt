-- ===== src/Table/View.antt =====
-- What the entries of a map (src/vm.c) mean: the first used entry with an equal key. The laws of
-- keys that hashing rests on, and the well-formed tables.
use opo.Base.{
  ℕ, zero, suc, ◌+◌, ◌*◌, ◌%◌, ◌≤◌, ◌<◌, ◌≡◌, inl, inr, refl, Bool, true, false, ◌&&◌, List, [],
  ◌∷◌, Option, none, some, if◌then◌else◌, set, length, arith, Bool-cases,
}
use opo.Heap.{MapEntry, ObjMap}
use opo.Table.{entry, home}
use opo.Value.{Value}

-- The keys of a type or of several for which a hash table works.
pub record Keys (hash : Value → ℕ) (equal : Value → Value → Bool) (IsKey : Value → Type 0)
    : Type 0 where
  pub equal_refl : (a : Value) → IsKey a → equal a a ≡ true
  pub equal_symm : (a b : Value) → IsKey a → IsKey b → equal a b ≡ true → equal b a ≡ true
  pub equal_trans :
      (a b c : Value)
      → IsKey a
      → IsKey b
      → IsKey c
      → equal a b ≡ true
      → equal b c ≡ true
      → equal a c ≡ true
  pub hash-equal : (a b : Value) → IsKey a → IsKey b → equal a b ≡ true → hash a ≡ hash b

unfoldable pub used_count : List MapEntry → ℕ
used_count [] = 0
used_count (e ∷ es) = (if e.is_used then 1 else 0) + used_count es

module _ (equal : Value → Value → Bool) where
  abbrev pub hits : Value → MapEntry → Bool
  hits q e = e.is_used && equal e.key q

  unfoldable pub view : List MapEntry → Value → Option Value
  view [] q = none
  view (e ∷ es) q = let rest = view es q in if hits q e then some e.value else rest

  -- The only entry that is hit is the one that is seen.
  pub view-found :
      (es : List MapEntry) (q : Value) (i : ℕ)
      → hits q (entry es i) ≡ true
      → ((j : ℕ) → hits q (entry es j) ≡ true → j ≡ i)
      → view es q ≡ some (entry es i).value
  unfolding view
  view-found [] q i h only = cc
  view-found (e ∷ es) q zero h only = rw h
  view-found (e ∷ es) q (suc i) h only = elim (Bool-cases (hits q e)) [
    | inl first ↦ absurd (omega (arith, only 0 first))
    | inr other ↦ rw other (view-found es q i h (λ j k. omega (arith, only (suc j) k)))
  ]

  pub view-none :
      (es : List MapEntry) (q : Value) → ((j : ℕ) → hits q (entry es j) ≡ false) → view es q ≡ none
  unfolding view
  view-none [] q h = refl
  view-none (e ∷ es) q h = rw (h 0) (view-none es q (λ j. h (suc j)))

  pub view-eq-none :
      (es : List MapEntry) (q : Value) (j : ℕ) → view es q ≡ none → hits q (entry es j) ≡ false
  unfolding view
  view-eq-none [] q j h = refl
  view-eq-none (e ∷ es) q zero h = ground arith
  view-eq-none (e ∷ es) q (suc j) h = view-eq-none es q j (ground arith)

  pub view-eq-some :
      (es : List MapEntry) (q : Value) {v : Value}
      → view es q ≡ some v
      → (i : ℕ) × (hits q (entry es i) ≡ true) × ((entry es i).value ≡ v)
  unfolding view
  view-eq-some [] q h = cc
  view-eq-some (e ∷ es) q {v} h = elim (Bool-cases (hits q e)) [
    | inl first ↦ (0, first, ground arith)
    | inr other ↦
        let (i, hit, value) = view-eq-some es q {v = v} (ground arith) in (suc i, hit, value)
  ]

pub used_count-le : (es : List MapEntry) → used_count es ≤ length es
unfolding used_count
used_count-le [] = omega arith
used_count-le (e ∷ es) = ground (arith, used_count-le es)

-- With fewer used entries than entries, one is unused.
pub some_unused :
    (es : List MapEntry)
    → used_count es < length es
    → (i : ℕ) × (i < length es) × ((entry es i).is_used ≡ false)
unfolding used_count
some_unused [] h = absurd (omega arith)
some_unused (e ∷ es) h = elim (Bool-cases e.is_used) [
  | inr no_use ↦ (0, omega arith, no_use)
  | inl in_use ↦ let (i, lt, no_use) = some_unused es (ground arith) in (suc i, omega arith, no_use)
]

pub used_count-set :
    (es : List MapEntry) (i : ℕ) (e : MapEntry)
    → i < length es
    → used_count (set es i e) + (if (entry es i).is_used then 1 else 0)
      ≡ used_count es + (if e.is_used then 1 else 0)
unfolding used_count
used_count-set [] i e h = absurd (omega arith)
used_count-set (x ∷ es) zero e h = omega arith
used_count-set (x ∷ es) (suc i) e h = omega (arith, used_count-set es i e)

abbrev pub used_at : List MapEntry → ℕ → Bool
used_at es i = (entry es i).is_used

module _ (hash : Value → ℕ) (equal : Value → Value → Bool) where
  -- The slot at a distance behind the home of a key.
  abbrev pub slot : List MapEntry → Value → ℕ → ℕ
  slot es key d = (home hash equal es key + d) % length es

  -- The slots from the home of a key up to some distance are all in use.
  abbrev pub Filled : List MapEntry → Value → ℕ → Type 0
  Filled es key d = (e : ℕ) → e < d → used_at es (slot es key e) ≡ true

  -- A slot for a key lies behind its home, with no gap before it.
  pub record Reached (es : List MapEntry) (key : Value) (i : ℕ) : Type 0 where
    pub distance : ℕ
    pub near : distance < length es
    pub there : slot es key distance ≡ i
    pub no_gap : Filled es key distance

module _ (hash : Value → ℕ) (equal : Value → Value → Bool) (IsKey : Value → Type 0) where
  pub record IsProbed (es : List MapEntry) : Type 0 where
    pub is_key : (i : ℕ) → used_at es i ≡ true → IsKey (entry es i).key
    pub reached : (i : ℕ) → used_at es i ≡ true → Reached hash equal es (entry es i).key i
    pub unique :
        (i j : ℕ)
        → used_at es i ≡ true
        → used_at es j ≡ true
        → equal (entry es i).key (entry es j).key ≡ true
        → i ≡ j

  -- A well-formed map: its count is right, it has room, and its entries can be found.
  pub record IsValid (m : ObjMap) : Type 0 where
    pub counted : m.count ≡ used_count m.entries
    pub roomy : 10 * m.count < 7 * length m.entries + 10
    pub large : 8 ≤ length m.entries
    pub probed : IsProbed m.entries
