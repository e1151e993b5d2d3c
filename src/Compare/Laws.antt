-- ===== src/Compare/Laws.antt =====
-- The keys for which `hash_value` and `values_equal` (src/vm.c) agree: integers, Booleans, and
-- strings with no NUL inside. Such a key has a plain content, which both functions read.
use opo.Base.{
  ℕ, ◌%◌, ◌^◌, ◌≡◌, ◌↔◌, ◌⊎◌, refl, sym, ap, ◌∙◌, Bool, true, List, [], ◌∷◌, some, ◌==◌,
  if◌then◌else◌, arith, bytes_eq, Bool-cases, inl, inr,
}
use opo.Compare.{c_string, is_string, get_string_ptr, fnv, fnv_basis, hash_value, values_equal}
use opo.Heap.{Heap}
use opo.Kind
use opo.Platform.{Platform}
use opo.Table.View.{Keys}
use opo.Value.{Value, kind, b_val}

pub bytes_eq_iff : (a b : List ℕ) → (bytes_eq a b ≡ true) ↔ (a ≡ b)
unfolding bytes_eq
bytes_eq_iff [] [] = (λ _. refl, λ _. refl)
bytes_eq_iff [] (y ∷ b) = (λ h. cc, λ h. cc)
bytes_eq_iff (x ∷ a) [] = (λ h. cc, λ h. cc)
bytes_eq_iff (x ∷ a) (y ∷ b) = ground (arith, bytes_eq_iff a b)

is_string-kind :
    (h : Heap) (v : Value) → is_string h v ≡ true → (kind v ≡ Kind.str) ⊎ (kind v ≡ Kind.obj)
unfolding is_string
is_string-kind h v e = ground arith

pub data Content : Type 0 where
  number : ℕ → Content
  truth : Bool → Content
  text : List ℕ → Content

bytes_text_iff : (s t : List ℕ) → (bytes_eq s t ≡ true) ↔ (text s ≡ text t)
bytes_text_iff s t = ground (arith, bytes_eq_iff s t)

module _ (strings : List (List ℕ)) (h : Heap) where
  -- The value holds this content.
  abbrev pub Reads : Value → Content → Type 0
  Reads v (number i) = (kind v ≡ Kind.int) × (v.bits ≡ i)
  Reads v (truth b) = (kind v ≡ Kind.bool) × (b_val v ≡ b)
  Reads v (text s) =
      (is_string h v ≡ true) × (get_string_ptr strings h v ≡ some s) × (c_string s ≡ s)

  abbrev pub IsKey : Value → Type 0
  IsKey v = (c : Content) × Reads v c

  hash_content : Content → ℕ
  hash_content (number i) = i % 2 ^ 32
  hash_content (truth b) = if b then 1 else 0
  hash_content (text s) = fnv fnv_basis s

  hash_value-content :
      (v : Value) (c : Content) → Reads v c → hash_value strings h v ≡ hash_content c
  unfolding hash_content
  hash_value-content v (number i) r = unfold hash_value in ground arith
  hash_value-content v (truth b) r = unfold hash_value in ground arith
  hash_value-content v (text s) r =
      unfold hash_value is_string get_string_ptr in
      elim (Bool-cases (kind v == Kind.str)) [
        | inl constant ↦ ground arith
        | inr other ↦ ground arith
      ]

  module _ ⦃p : Platform⦄ where
    values_equal-content :
        (a b : Value) (c d : Content)
        → Reads a c
        → Reads b d
        → (values_equal strings h a b ≡ true) ↔ (c ≡ d)
    values_equal-content a b (number i) (number j) r q = unfold values_equal in ground arith
    values_equal-content a b (number i) (truth e) r q = unfold values_equal in ground arith
    values_equal-content a b (number i) (text t) r q =
        unfold values_equal in ground (arith, is_string-kind h b)
    values_equal-content a b (truth c) (number j) r q = unfold values_equal in ground arith
    values_equal-content a b (truth c) (truth e) r q = unfold values_equal in ground arith
    values_equal-content a b (truth c) (text t) r q =
        unfold values_equal in ground (arith, is_string-kind h b)
    values_equal-content a b (text s) (number j) r q =
        unfold values_equal in ground (arith, is_string-kind h a)
    values_equal-content a b (text s) (truth e) r q =
        unfold values_equal in ground (arith, is_string-kind h a)
    values_equal-content a b (text s) (text t) r q =
        unfold values_equal in rw (r.0, q.0) (rw (r.1, q.1) (rw (r.2, q.2) (bytes_text_iff s t)))

    -- Integers, Booleans and strings without a NUL are keys: equality on them is an equivalence,
    -- and equal keys have equal hashes, also where one string is a constant and one is on the heap.
    pub values_equal-Keys : Keys (hash_value strings h) (values_equal strings h) IsKey
    values_equal-Keys = record {
      equal_refl = λ a (c, r). (values_equal-content a a c c r r).1 refl;
      equal_symm = λ a b (c, r) (d, q) e.
          (values_equal-content b a d c q r).1 (sym ((values_equal-content a b c d r q).0 e));
      equal_trans = λ a b x (c, r) (d, q) (e, s) f g.
          (values_equal-content a x c e r s).1
            ((values_equal-content a b c d r q).0 f ∙ (values_equal-content b x d e q s).0 g);
      hash-equal = λ a b (c, r) (d, q) e.
          hash_value-content a c r
          ∙ ap hash_content ((values_equal-content a b c d r q).0 e)
          ∙ sym (hash_value-content b d q);
    }
