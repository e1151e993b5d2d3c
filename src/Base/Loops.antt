-- ===== src/Base/Loops.antt =====
-- Shared: a C loop with a bound on its rounds, and when the bound is enough.
use Prim.Native.Nat.{ℕ, zero, suc, ◌<◌}
use mathlib.Core.Path.{◌≡◌, refl}
use mathlib.Core.Bool.{Bool, true, false}
use native.Mathlib.Omega.{arith}
use opo.Base.Tests.{Bool-cases}
use mathlib.Core.Logic.{inl, inr}

-- `while (test(s)) s = body(s);`, for so many rounds at most
unfoldable pub loop {ℓ} : {S : Type ℓ} → (S → Bool) → (S → S) → ℕ → S → S
loop test body zero s = s
loop test body (suc rounds) s = elim (test s) [ false ↦ s | true ↦ loop test body rounds (body s) ]

module _ {ℓ} {S : Type ℓ} (test : S → Bool) (body : S → S) where
  pub loop_more :
      (rounds : ℕ) (s : S)
      → test s ≡ true
      → loop test body (suc rounds) s ≡ loop test body rounds (body s)
  unfolding loop
  loop_more rounds s h = rw (h, loop)

  pub loop_done : (rounds : ℕ) (s : S) → test s ≡ false → loop test body rounds s ≡ s
  unfolding loop
  loop_done zero s h = refl
  loop_done (suc rounds) s h = rw (h, loop)

  -- A property that a round keeps, and a size that it lowers.
  pub record Rounds {κ} (size : S → ℕ) (P : S → Type κ) : Type (ℓ ⊔ κ) where
    pub keeps : (s : S) → test s ≡ true → P s → P (body s)
    pub lowers : (s : S) → test s ≡ true → P s → size (body s) < size s

  pub loop_keeps {κ} :
      {size : S → ℕ} {P : S → Type κ}
      → Rounds size P
      → (rounds : ℕ) (s : S) → P s
      → P (loop test body rounds s)
  loop_keeps r zero s p = unfold loop in p
  loop_keeps r (suc rounds) s p = elim (Bool-cases (test s)) [
    | inl more ↦ rw (loop_more rounds s more) (loop_keeps r rounds (body s) (r.keeps s more p))
    | inr end ↦ rw (loop_done (suc rounds) s end) p
  ]

  pub loop_ends {κ} :
      {size : S → ℕ} {P : S → Type κ}
      → Rounds size P
      → (rounds : ℕ) (s : S) → P s
      → size s < rounds
      → test (loop test body rounds s) ≡ false
  loop_ends r zero s p h = absurd (omega arith)
  loop_ends r (suc rounds) s p h = elim (Bool-cases (test s)) [
    | inl more ↦
        rw (loop_more rounds s more)
          (loop_ends r rounds (body s) (r.keeps s more p) (omega (arith, r.lowers s more p)))
    | inr end ↦ rw (loop_done (suc rounds) s end) end
  ]
