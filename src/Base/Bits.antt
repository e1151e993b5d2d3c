-- ===== src/Base/Bits.antt =====
-- Shared: `bit_or` of a low and a high part of a number puts them together.
use Prim.Native.Nat.{
  ℕ, zero, suc, ◌+◌, ◌*◌, ◌/◌, ◌^◌, ◌≤◌, ◌<◌, max, digits, bit_or, bit_or-bitwise,
}
use mathlib.Core.Path.{◌≡◌, ap}
use native.Mathlib.Nat.{pow-suc}
use native.Mathlib.Omega.{arith}

high_double : (q k : ℕ) → q * 2 ^ suc k ≡ 2 * (q * 2 ^ k)
high_double q k = omega (arith, ap (λ (p : ℕ). q * p) (pow-suc 2 k))

-- On the digits that `bit_or` stands for, for any fuel that reaches the end of the low part.
join_digits :
    (fuel k low q : ℕ)
    → low ≤ fuel
    → low < 2 ^ k
    → digits (λ y. y) max fuel low (q * 2 ^ k) ≡ low + q * 2 ^ k
join_digits zero k zero q h f = omega arith
join_digits zero k (suc low) q h f = absurd (omega arith)
join_digits (suc fuel) k zero q h f = omega arith
join_digits (suc fuel) zero (suc low) q h f = absurd (omega arith)
join_digits (suc fuel) (suc k) (suc low) q h f = ground (
  arith,
  high_double q k,
  pow-suc 2 k,
  join_digits fuel k (suc low / 2) q (omega arith) (omega (arith, pow-suc 2 k)),
)

pub bit_or_join : (k low q : ℕ) → low < 2 ^ k → bit_or low (q * 2 ^ k) ≡ low + q * 2 ^ k
bit_or_join k low q f = simp bit_or-bitwise (join_digits low k low q (omega arith) f)
