-- ===== src/Heap/Count.antt =====
-- `retain` and `release` of src/vm.c undo each other on an object that stays alive.
use opo.Base.{
  ℕ, zero, suc, ◌≡◌, refl, sym, ap, ◌∙◌, true, false, List, [], ◌∷◌, Option, some, none, arith,
  get_or, set, Bool-cases, inl, inr, length, ◌==◌,
}
use opo.Base.Int.{pos}
use opo.Heap.{Heap, Cell, Object, deref, set_cell, retain, add_ref, release, release_on, release_at}
use opo.Value.{Value, is_counted}

module _ {ℓ} {A : Type ℓ} where
  set-back : (xs : List A) (i : ℕ) (a d : A) → set (set xs i a) i (get_or xs i d) ≡ xs
  set-back [] i a d = refl
  set-back (x ∷ xs) zero a d = refl
  set-back (x ∷ xs) (suc i) a d = ap (λ (ys : List A). x ∷ ys) (set-back xs i a d)

  get_or-set_some :
      (xs : List (Option A)) (i : ℕ) (a b : A)
      → get_or xs i none ≡ some a
      → get_or (set xs i (some b)) i none ≡ some b
  get_or-set_some [] i a b h = cc
  get_or-set_some (x ∷ xs) zero a b h = refl
  get_or-set_some (x ∷ xs) (suc i) a b h = get_or-set_some xs i a b h

two : (n : ℕ) → (suc (suc n) == 1) ≡ false
two n = ground arith

-- The count goes up and down again, whatever is released with the last reference.
drop-add_ref :
    (rel : Heap → Value → Heap) (h : Heap) (a : ℕ) (o : Object) (n : ℕ)
    → deref h a ≡ some (record { object = o; ref_count = pos (suc n) })
    → release_at rel (add_ref h a) a (deref (add_ref h a) a) ≡ h
drop-add_ref rel h zero o n e = cc
drop-add_ref rel h (suc i) o n e =
    ap (λ (g : Heap). release_at rel g (suc i) (deref g (suc i))) up
    ∙ ap (λ (c : Option Cell). release_at rel raised (suc i) c)
        (get_or-set_some h.cells i once twice e)
    ∙ stays
    ∙ ap (λ (cs : List (Option Cell)). record { cells = cs })
        (ap (λ (c : Option Cell). set (set h.cells i (some twice)) i c) (sym e)
          ∙ set-back h.cells i (some twice) none)
  where
    once : Cell
    once = record { object = o; ref_count = pos (suc n) }

    twice : Cell
    twice = record { object = o; ref_count = pos (suc (suc n)) }

    raised : Heap
    raised = set_cell h (suc i) (some twice)

    stays : release_at rel raised (suc i) (some twice) ≡ set_cell raised (suc i) (some once)
    stays = rw (two n) refl

    up : add_ref h (suc i) ≡ raised
    up = rw (e, add_ref) refl

-- For a value that is not counted, or one whose object is alive with a count of at least one, a
-- `release` behind a `retain` of the same value leaves the heap as it was.
pub release-retain :
    (h : Heap) (v : Value)
    → (is_counted v ≡ true
        → (o : Object) × (n : ℕ) × (deref h v.bits
            ≡ some (record { object = o; ref_count = pos (suc n) })))
    → release (retain h v) v ≡ h
unfolding release retain release_on
release-retain h v held = elim (Bool-cases (is_counted v)) [
  | inl c ↦
      let (o, n, e) = held c in
      rw (c, retain) (drop-add_ref (release_on (length (add_ref h v.bits).cells)) h v.bits o n e)
  | inr c ↦ rw (c, retain) refl
]
