-- ===== src/Base/Slots.antt =====
-- Shared: lists read by index with a default, after a write, a concatenation, a replication.
use Prim.Native.Nat.{ℕ, zero, suc, ◌<◌, ◌≤◌}
use mathlib.Core.Path.{◌≡◌, refl}
use mathlib.Core.List.{List, [], ◌∷◌}
use native.Mathlib.Omega.{arith}
use opo.Base.Tests.{◌==◌, if◌then◌else◌}
use opo.Base.Lists.{length, get_or, set, replicate}

module _ {ℓ} {A : Type ℓ} where
  pub get_or-set :
      (xs : List A) (i : ℕ) (v d : A) (j : ℕ)
      → i < length xs
      → get_or (set xs i v) j d ≡ (if j == i then v else get_or xs j d)
  get_or-set [] i v d j h = absurd (omega arith)
  get_or-set (x ∷ xs) zero v d zero h = refl
  get_or-set (x ∷ xs) zero v d (suc j) h = ground arith
  get_or-set (x ∷ xs) (suc i) v d zero h = ground arith
  get_or-set (x ∷ xs) (suc i) v d (suc j) h = ground (arith, get_or-set xs i v d j)

  pub get_or-outside : (xs : List A) (i : ℕ) (d : A) → length xs ≤ i → get_or xs i d ≡ d
  get_or-outside [] i d h = refl
  get_or-outside (x ∷ xs) zero d h = absurd (omega arith)
  get_or-outside (x ∷ xs) (suc i) d h = get_or-outside xs i d (omega arith)

  pub get_or-replicate : (n : ℕ) (d : A) (i : ℕ) → get_or (replicate n d) i d ≡ d
  get_or-replicate zero d i = refl
  get_or-replicate (suc n) d zero = refl
  get_or-replicate (suc n) d (suc i) = get_or-replicate n d i
