-- ===== src/Heap/Frame.antt =====
-- Reference counting in src/vm.c: freeing ends, and what it leaves is as it was.
use mathlib.Core.List.{foldl}
use opo.Base.{
  ℕ, zero, suc, ◌+◌, ◌≤◌, ◌<◌, ◌≡◌, ◌⊎◌, inl, inr, refl, sym, ap, ◌∙◌, true, List, [], ◌∷◌, Option,
  none, some, ◌==◌, if◌then◌else◌, get_or, set, length, length-set, arith, Bool-cases, Option-cases,
}
use opo.Base.Int.{pos, negsuc}
use opo.Heap.{
  Cell, Heap, deref, set_cell, object_at, parts, drop_ref, is_one, release_at, release_on, release,
}
use opo.Value.{Value, is_counted}

-- The cells that some reference still holds.
abbrev pub held : Option Cell → ℕ
held none = 0
held (some c) = elim c.ref_count [ pos n ↦ (if n == 0 then 0 else 1) | negsuc n ↦ 0 ]

pub live_cells : List (Option Cell) → ℕ
live_cells [] = 0
live_cells (c ∷ cs) = held c + live_cells cs

abbrev pub live : Heap → ℕ
live h = live_cells h.cells

held-le : (c : Option Cell) → held c ≤ 1
held-le none = omega arith
held-le (some c) = ground arith

live-le-length : (cs : List (Option Cell)) → live_cells cs ≤ length cs
unfolding live_cells
live-le-length [] = omega arith
live-le-length (c ∷ cs) = omega (arith, held-le c, live-le-length cs)

live_cells-set :
    (cs : List (Option Cell)) (i : ℕ) (old : Cell) (c : Option Cell)
    → get_or cs i none ≡ some old
    → live_cells (set cs i c) + held (some old) ≡ live_cells cs + held c
unfolding live_cells
live_cells-set [] i old c h = cc
live_cells-set (d ∷ cs) zero old c h = rw h (omega arith)
live_cells-set (d ∷ cs) (suc i) old c h = omega (arith, live_cells-set cs i old c h)

get_or-set_found :
    (cs : List (Option Cell)) (i : ℕ) (old : Cell) (c : Option Cell) (j : ℕ)
    → get_or cs i none ≡ some old
    → get_or (set cs i c) j none ≡ (if j == i then c else get_or cs j none)
get_or-set_found [] i old c j h = cc
get_or-set_found (d ∷ cs) zero old c zero h = refl
get_or-set_found (d ∷ cs) zero old c (suc j) h = ground arith
get_or-set_found (d ∷ cs) (suc i) old c zero h = ground arith
get_or-set_found (d ∷ cs) (suc i) old c (suc j) h = ground (arith, get_or-set_found cs i old c j)

-- A write to a cell that is there.
pub deref-set_cell :
    (h : Heap) (a : ℕ) {old : Cell} (c : Option Cell) (b : ℕ)
    → deref h a ≡ some old
    → deref (set_cell h a c) b ≡ (if b == a then c else deref h b)
deref-set_cell h zero c b e = cc
deref-set_cell h (suc a) c zero e = ground arith
deref-set_cell h (suc a) {old} c (suc b) e = ground (arith, get_or-set_found h.cells a old c b)

live-set_cell :
    (h : Heap) (a : ℕ) (old : Cell) (c : Option Cell)
    → deref h a ≡ some old
    → live (set_cell h a c) + held (some old) ≡ live h + held c
live-set_cell h zero old c e = cc
live-set_cell h (suc a) old c e = live_cells-set h.cells a old c e

length-set_cell :
    (h : Heap) (a : ℕ) (c : Option Cell) → length (set_cell h a c).cells ≡ length h.cells
length-set_cell h zero c = refl
length-set_cell h (suc a) c = length-set h.cells a c

-- From `h` to `h'` objects only went: what is left holds what it held, and no cell came to be held.
pub record Shrinks (h h' : Heap) : Type 0 where
  pub size : length h'.cells ≡ length h.cells
  pub held_less : live h' ≤ live h
  pub objects : (a : ℕ) → (object_at h' a ≡ none) ⊎ (object_at h' a ≡ object_at h a)

pub Shrinks-refl : (h : Heap) → Shrinks h h
Shrinks-refl h = record { size = refl; held_less = omega arith; objects = λ a. inr refl }

pub Shrinks-trans : {h i j : Heap} → Shrinks h i → Shrinks i j → Shrinks h j
Shrinks-trans p q = record {
  size = q.size ∙ p.size;
  held_less = omega (arith, p.held_less, q.held_less);
  objects = λ a. elim (q.objects a) [
    | inl gone ↦ inl gone
    | inr same ↦ elim (p.objects a) [ inl gone ↦ inl (same ∙ gone) | inr old ↦ inr (same ∙ old) ]
  ];
}

-- A write that keeps the object of a cell, or frees it, and holds it no more than before.
Shrinks-set_cell :
    (h : Heap) (a : ℕ) (old : Cell) (c : Option Cell)
    → deref h a ≡ some old
    → (c ≡ none) ⊎ ((new : Cell) × (c ≡ some new) × (new.object ≡ old.object))
    → held c ≤ held (some old)
    → Shrinks h (set_cell h a c)
Shrinks-set_cell h a old c e kind less = record {
  size = length-set_cell h a c;
  held_less = omega (arith, live-set_cell h a old c e);
  objects = λ b. objects b;
}
  where
    objects :
        (b : ℕ)
        → (object_at (set_cell h a c) b ≡ none) ⊎ (object_at (set_cell h a c) b ≡ object_at h b)
    objects b = elim (Bool-cases (b == a)) [
      | inl same ↦ elim kind [
        | inl freed ↦ inl (ground (arith, deref-set_cell h a c b e))
        | inr (new, written, kept) ↦ inr (ground (arith, deref-set_cell h a c b e))
      ]
      | inr other ↦ inr (ground (arith, deref-set_cell h a c b e))
    ]

pub Shrinks-drop_ref :
    (h : Heap) (a : ℕ) (c : Cell) → deref h a ≡ some c → Shrinks h (drop_ref h a c)
Shrinks-drop_ref h a c e = Shrinks-set_cell h a c _ e (inr (_, refl, refl)) (ground arith)

set_absent : (cs : List (Option Cell)) (i : ℕ) → get_or cs i none ≡ none → set cs i none ≡ cs
set_absent [] i e = refl
set_absent (c ∷ cs) zero e = rw e
set_absent (c ∷ cs) (suc i) e = ap (◌∷◌ c) (set_absent cs i e)

set_cell_absent : (h : Heap) (a : ℕ) → deref h a ≡ none → set_cell h a none ≡ h
set_cell_absent h zero e = refl
set_cell_absent h (suc a) e = ground (arith, set_absent h.cells a e)

pub Shrinks-free : (h : Heap) (a : ℕ) → Shrinks h (set_cell h a none)
Shrinks-free h a = elim (Option-cases (deref h a)) [
  | inr (c, e) ↦ Shrinks-set_cell h a c none e (inl refl) (omega arith)
  | inl gone ↦ rw (set_cell_absent h a gone) (Shrinks-refl h)
]

module _ (rel : Heap → Value → Heap) (shrinks : (h : Heap) (v : Value) → Shrinks h (rel h v)) where
  Shrinks-foldl : (vs : List Value) (h : Heap) → Shrinks h (foldl rel h vs)
  Shrinks-foldl [] h = Shrinks-refl h
  Shrinks-foldl (v ∷ vs) h = Shrinks-trans (shrinks h v) (Shrinks-foldl vs (rel h v))

  Shrinks-release_at :
      (h : Heap) (a : ℕ) (c : Option Cell) → deref h a ≡ c → Shrinks h (release_at rel h a c)
  Shrinks-release_at h a none e = Shrinks-refl h
  Shrinks-release_at h a (some c) e = elim (Bool-cases (is_one c.ref_count)) [
    | inl last ↦ rw last (
        Shrinks-trans (Shrinks-drop_ref h a c e)
          (Shrinks-trans (Shrinks-foldl (parts c.object) (drop_ref h a c)) (Shrinks-free _ a)))
    | inr more ↦ rw more (Shrinks-drop_ref h a c e)
  ]

pub Shrinks-release_on : (fuel : ℕ) (h : Heap) (v : Value) → Shrinks h (release_on fuel h v)
unfolding release_on
Shrinks-release_on zero h v = Shrinks-refl h
Shrinks-release_on (suc fuel) h v = elim (Bool-cases (is_counted v)) [
  | inl yes_counted ↦ rw yes_counted (
      Shrinks-release_at (release_on fuel) (Shrinks-release_on fuel) h v.bits (deref h v.bits) refl)
  | inr not_counted ↦ rw not_counted (Shrinks-refl h)
]

-- A release, with all that it frees, only takes objects away: every object that is left has the
-- contents that it had, and no cell is created.
pub release-Shrinks : (h : Heap) (v : Value) → Shrinks h (release h v)
unfolding release
release-Shrinks h v = Shrinks-release_on (suc (length h.cells)) h v

drop_ref-live :
    (h : Heap) (a : ℕ) (c : Cell)
    → deref h a ≡ some c
    → is_one c.ref_count ≡ true
    → live (drop_ref h a c) + 1 ≡ live h
drop_ref-live h a c e last =
    ground (arith, live-set_cell h a c (some (record c { ref_count = pos 0 })) e)

foldl_stable :
    (fuel : ℕ)
    → ((h : Heap) (v : Value) → live h < fuel → release_on fuel h v ≡ release_on (suc fuel) h v)
    → (vs : List Value) (h : Heap) → live h < fuel
    → foldl (release_on fuel) h vs ≡ foldl (release_on (suc fuel)) h vs
foldl_stable fuel same [] h less = refl
foldl_stable fuel same (v ∷ vs) h less =
    let s = Shrinks-release_on fuel h v in
    foldl_stable fuel same vs (release_on fuel h v) (omega (arith, s.held_less))
    ∙ ap (λ g. foldl (release_on (suc fuel)) g vs) (same h v less)

release_at_stable :
    (fuel : ℕ)
    → ((h : Heap) (v : Value) → live h < fuel → release_on fuel h v ≡ release_on (suc fuel) h v)
    → (h : Heap) (a : ℕ) (c : Option Cell) → deref h a ≡ c
    → live h < suc fuel
    → release_at (release_on fuel) h a c ≡ release_at (release_on (suc fuel)) h a c
release_at_stable fuel same h a none e less = refl
release_at_stable fuel same h a (some c) e less = elim (Bool-cases (is_one c.ref_count)) [
  | inl last ↦ rw last (
      ap (λ g. set_cell g a none)
        (foldl_stable fuel same (parts c.object) (drop_ref h a c)
          (omega (arith, drop_ref-live h a c e last))))
  | inr more ↦ rw more
]

release_on_stable :
    (fuel : ℕ) (h : Heap) (v : Value)
    → live h < fuel
    → release_on fuel h v ≡ release_on (suc fuel) h v
unfolding release_on
release_on_stable zero h v less = absurd (omega arith)
release_on_stable (suc fuel) h v less =
    ap (λ r. if is_counted v then r else h)
      (release_at_stable fuel (release_on_stable fuel) h v.bits (deref h v.bits) refl less)

release-release_on : (h : Heap) (v : Value) → release_on (suc (length h.cells)) h v ≡ release h v
unfolding release
release-release_on h v = refl

-- However much deeper the recursion of `release` through `free_object` may go, the result is the
-- same: it ends by itself, on every heap, with cycles and with wrong counts too.
pub release_terminates :
    (more : ℕ) (h : Heap) (v : Value) → release_on (more + suc (length h.cells)) h v ≡ release h v
release_terminates zero h v = ap (λ f. release_on f h v) (omega arith) ∙ release-release_on h v
release_terminates (suc more) h v =
    ap (λ f. release_on f h v) (omega arith)
    ∙ sym (
        release_on_stable (more + suc (length h.cells)) h v (omega (arith, live-le-length h.cells)))
    ∙ release_terminates more h v
