-- ===== src/Heap/Inside.antt =====
-- `release` and `free_object` of src/vm.c reach only what references lead to: a new object, which
-- nothing refers to yet, stays as it is.
use mathlib.Core.List.{foldl}
use opo.Base.{
  ℕ, zero, suc, ◌≤◌, ◌≡◌, ◌≢◌, ◌⊎◌, inl, inr, refl, sym, ap, subst, ◌∙◌, true, List, [], ◌∷◌, ◌++◌,
  Option, none, some, get_or, set, length, arith, Bool-cases, Bool, if◌then◌else◌,
}
use opo.Heap.Frame.{Shrinks, Shrinks-drop_ref, Shrinks-free}
use opo.Base.Int.{pos, succ_ℤ}
use opo.Heap.{
  add_ref, is_one, Cell, Heap, Object, string, deref, set_cell, object_at, parts, drop_ref,
  release_at, release_on, release, retain, allocate, allocate_string,
}
use opo.Value.{is_counted_kind, Value, is_counted, obj_value}

-- A value that is no reference, or refers to one of the first `n` cells.
abbrev pub Inside : ℕ → Value → Type 0
Inside n v = is_counted v ≡ true → v.bits ≤ n

abbrev pub AllInside : ℕ → List Value → Type 0
AllInside n [] = Unit {0}
AllInside n (v ∷ vs) = Inside n v × AllInside n vs

-- What the objects of a heap refer to.
abbrev pub HeapInside : ℕ → Heap → Type 0
HeapInside n h = (a : ℕ) (o : Object) → object_at h a ≡ some o → AllInside n (parts o)

HeapInside-Shrinks : (n : ℕ) {h h' : Heap} → Shrinks h h' → HeapInside n h → HeapInside n h'
HeapInside-Shrinks n s i a o e = elim (s.objects a) [
  | inl gone ↦ ground (arith, gone, e)
  | inr same ↦ i a o (sym same ∙ e)
]

get_or-set_elsewhere :
    (cs : List (Option Cell)) (i j : ℕ) (c : Option Cell)
    → j ≢ i
    → get_or (set cs i c) j none ≡ get_or cs j none
get_or-set_elsewhere [] i j c d = refl
get_or-set_elsewhere (x ∷ cs) zero zero c d = absurd (d refl)
get_or-set_elsewhere (x ∷ cs) zero (suc j) c d = refl
get_or-set_elsewhere (x ∷ cs) (suc i) zero c d = refl
get_or-set_elsewhere (x ∷ cs) (suc i) (suc j) c d =
    get_or-set_elsewhere cs i j c (λ e. d (ap suc e))

deref-set_cell_elsewhere :
    (h : Heap) (a b : ℕ) (c : Option Cell) → b ≢ a → deref (set_cell h a c) b ≡ deref h b
deref-set_cell_elsewhere h zero b c d = refl
deref-set_cell_elsewhere h (suc a) zero c d = refl
deref-set_cell_elsewhere h (suc a) (suc b) c d =
    get_or-set_elsewhere h.cells a b c (λ e. d (ap suc e))

module _ (n : ℕ) where
  -- The cell behind the first `n` is as it was, and what there is still refers to these.
  pub record Spares (h h' : Heap) : Type 0 where
    pub kept : deref h' (suc n) ≡ deref h (suc n)
    pub inside : HeapInside n h'

  module _ (rel : Heap → Value → Heap)
      (spares : (h : Heap) (v : Value) → HeapInside n h → Inside n v → Spares h (rel h v)) where
    Spares-foldl :
        (vs : List Value) (h : Heap) → HeapInside n h → AllInside n vs → Spares h (foldl rel h vs)
    Spares-foldl [] h i a = record { kept = refl; inside = i }
    Spares-foldl (v ∷ vs) h i a =
        let s = spares h v i a.0 in
        let t = Spares-foldl vs (rel h v) s.inside a.1 in
        record { kept = t.kept ∙ s.kept; inside = t.inside }

    Spares-release_at :
        (h : Heap) (a : ℕ) (c : Option Cell)
        → deref h a ≡ c
        → HeapInside n h
        → a ≤ n
        → Spares h (release_at rel h a c)
    Spares-release_at h a none e i l = record { kept = refl; inside = i }
    Spares-release_at h a (some c) e i l = elim (Bool-cases (is_one c.ref_count)) [
      | inl last ↦ rw last (
          let f = Spares-foldl (parts c.object) (drop_ref h a c) lower within in
          record {
            kept = deref-set_cell_elsewhere _ a (suc n) none (omega arith) ∙ f.kept ∙ above;
            inside = HeapInside-Shrinks n (Shrinks-free _ a) f.inside;
          })
      | inr more ↦ rw more (record { kept = above; inside = lower })
    ]
      where
        lower : HeapInside n (drop_ref h a c)
        lower = HeapInside-Shrinks n (Shrinks-drop_ref h a c e) i

        above : deref (drop_ref h a c) (suc n) ≡ deref h (suc n)
        above = deref-set_cell_elsewhere h a (suc n) _ (omega arith)

        within : AllInside n (parts c.object)
        within = i a c.object (rw (e, object_at) refl)

  Spares-release_on :
      (fuel : ℕ) (h : Heap) (v : Value)
      → HeapInside n h
      → Inside n v
      → Spares h (release_on fuel h v)
  unfolding release_on
  Spares-release_on zero h v i w = record { kept = refl; inside = i }
  Spares-release_on (suc fuel) h v i w = elim (Bool-cases (is_counted v)) [
    | inl c ↦ rw c (
        Spares-release_at (release_on fuel) (Spares-release_on fuel) h v.bits (deref h v.bits) refl
          i (w c))
    | inr c ↦ rw c (record { kept = refl; inside = i })
  ]

  pub Spares-release : (h : Heap) (v : Value) → HeapInside n h → Inside n v → Spares h (release h v)
  unfolding release
  Spares-release h v i w = Spares-release_on (suc (length h.cells)) h v i w

  pub Spares-refl : {h : Heap} → HeapInside n h → Spares h h
  Spares-refl i = record { kept = refl; inside = i }

  pub Spares-trans : {g h k : Heap} → Spares g h → Spares h k → Spares g k
  Spares-trans s t = record { kept = t.kept ∙ s.kept; inside = t.inside }

-- A new object, with a reference of its own.
abbrev pub fresh : Heap → Object → Heap
fresh h o = record { cells = h.cells ++ some (record { object = o; ref_count = pos 1 }) ∷ [] }

get_or-last :
    (cs : List (Option Cell)) (c : Option Cell) → get_or (cs ++ c ∷ []) (length cs) none ≡ c
get_or-last [] c = refl
get_or-last (x ∷ cs) c = get_or-last cs c

set-last :
    (cs : List (Option Cell)) (c d : Option Cell) → set (cs ++ c ∷ []) (length cs) d ≡ cs ++ d ∷ []
set-last [] c d = refl
set-last (x ∷ cs) c d = ap (λ ys. x ∷ ys) (set-last cs c d)

pub counted : (n : ℕ) → is_counted (obj_value (suc n)) ≡ true
unfolding is_counted_kind
counted n = ground arith

abbrev allocated : Heap → List ℕ → Heap
allocated h text = record {
  cells = h.cells ++ some (record { object = string text; ref_count = pos 0 }) ∷ [];
}

pub retain-allocate_string :
    (h : Heap) (text : List ℕ)
    → retain (allocate_string h text).1 (obj_value (suc (length h.cells))) ≡ fresh h (string text)
unfolding retain allocate_string allocate
retain-allocate_string h text =
    let n = length h.cells in
    let raw = allocated h text in
    ap (λ (b : Bool). if b then add_ref raw (suc n) else raw) (counted n)
    ∙ ap
        (λ (c : Option Cell). elim c [
          | none ↦ raw
          | some c ↦ set_cell raw (suc n) (some (record c { ref_count = succ_ℤ c.ref_count }))
        ])
        (get_or-last h.cells _)
    ∙ ap (λ cs. record { cells = cs }) (set-last h.cells _ _)

get_or-shorter :
    (cs : List (Option Cell)) (c : Option Cell) (i : ℕ)
    → (get_or (cs ++ c ∷ []) i none ≡ get_or cs i none) ⊎ (get_or (cs ++ c ∷ []) i none ≡ c)
get_or-shorter [] c zero = inr refl
get_or-shorter [] c (suc i) = inl refl
get_or-shorter (x ∷ cs) c zero = inl refl
get_or-shorter (x ∷ cs) c (suc i) = get_or-shorter cs c i

pub deref-fresh :
    (h : Heap) (o : Object)
    → deref (fresh h o) (suc (length h.cells)) ≡ some (record { object = o; ref_count = pos 1 })
deref-fresh h o = get_or-last h.cells _

-- A string refers to nothing.
pub HeapInside-fresh :
    (n : ℕ) (h : Heap) (text : List ℕ) → HeapInside n h → HeapInside n (fresh h (string text))
unfolding parts
HeapInside-fresh n h text i zero o e = ground (arith, e)
HeapInside-fresh n h text i (suc a) o e = elim (get_or-shorter h.cells _ a) [
  | inl old ↦
      i (suc a) o
        (ap (λ (c : Option Cell). elim c [ none ↦ none | some c ↦ some c.object ]) (sym old) ∙ e)
  | inr new ↦
      let found : some (string text) ≡ some o =
        sym (ap (λ (c : Option Cell). elim c [ none ↦ none | some c ↦ some c.object ]) new) ∙ e in
      subst (λ (x : Object). AllInside n (parts x))
        (ap (λ (x : Option Object). elim x [ none ↦ string text | some y ↦ y ]) found) tt
]
