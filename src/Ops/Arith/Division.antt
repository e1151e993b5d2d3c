-- ===== src/Ops/Arith/Division.antt =====
-- Division of ints in src/vm.c: `OP_DIV` and `OP_MOD` together.
use native.Mathlib.Nat.{
  mul-zero, div-add-mod, mod-lt, div-le_self, div-mul-le_self, mul-le-mul_left,
}
use mathlib.Core.Bool.{false≢true}
use opo.Base.Int.{ℤ, pos, negsuc, int64, word64, nat_abs, is_neg, of_sign, div_ℤ, mod_ℤ, ◌*ℤ◌}
use opo.Base.{
  ℕ, zero, suc, ◌+◌, ◌-◌, ◌*◌, ◌/◌, ◌%◌, ◌^◌, ◌≤◌, ◌<◌, ◌≡◌, ◌≢◌, ◌⊎◌, inl, inr, refl, sym, subst,
  ap, ap₂, dec_lt, ◌∙◌, Bool, true, false, List, ◌∷◌, arith, length, ◌==◌,
}
use opo.Heap.{retain, release}
use opo.Ops.Arith.{op_div, op_mod, overflows}
use opo.Ops.Arith.Ints.{◌+ℤ◌, Fits, with_ints, leb-room}
use opo.Platform.{Platform}
use opo.Value.{int_value, Value, is_counted_kind}
use opo.Vm.{Vm, ok, vm_push, vm_pop, pop_from, stack_max}

-- A word holds an integer that fits.
int64-word64 : (z : ℤ) → Fits z → int64 (word64 z) ≡ z
unfolding Fits
int64-word64 (pos n) h = ground arith
int64-word64 (negsuc n) h = ground arith

nat_abs-of_sign : (b : Bool) (n : ℕ) → nat_abs (of_sign b n) ≡ n
nat_abs-of_sign false n = refl
nat_abs-of_sign true zero = refl
nat_abs-of_sign true (suc n) = refl

of_sign-Fits : (b : Bool) (n : ℕ) → n < 2 ^ 63 → Fits (of_sign b n)
unfolding Fits
of_sign-Fits false n h = h
of_sign-Fits true zero h = omega arith
of_sign-Fits true (suc n) h = omega arith

-- The largest magnitude belongs to the negative integers.
of_sign-Fits_neg : (n : ℕ) → n ≤ 2 ^ 63 → Fits (of_sign true n)
unfolding Fits
of_sign-Fits_neg zero h = omega arith
of_sign-Fits_neg (suc n) h = omega arith

nat_abs-int64 : (a : ℕ) → a < 2 ^ 64 → nat_abs (int64 a) ≤ 2 ^ 63
nat_abs-int64 a h = ground arith

nat_abs-pos : (b : ℕ) → b < 2 ^ 64 → b ≢ 0 → 0 < nat_abs (int64 b)
nat_abs-pos b h n = ground arith

-- A quotient that is as large as its dividend may be is one by 1.
large_quotient : (x y : ℕ) → 0 < y → x ≤ 2 ^ 63 → 2 ^ 63 ≤ x / y → (x ≡ 2 ^ 63) × (y ≡ 1)
large_quotient x y h k l = elim (dec_lt y 2) [
  | yes one ↦ (omega (arith, div-le_self x y), omega arith)
  | no more ↦
      absurd
        (omega (arith, div-mul-le_self x y, mul-le-mul_left {m = 2} {n = y} (x / y) (omega arith)))
]

smallest : (a : ℕ) → a < 2 ^ 64 → nat_abs (int64 a) ≡ 2 ^ 63 → a ≡ 2 ^ 63
smallest a h e = ground arith

unit : (b : ℕ) → b < 2 ^ 64 → nat_abs (int64 b) ≡ 1 → (b ≡ 1) ⊎ (b ≡ 2 ^ 64 - 1)
unit b h e = elim (dec_lt b 2) [ yes small ↦ inl (ground arith) | no large ↦ inr (ground arith) ]

by_one : (a b : ℕ) → a ≡ 2 ^ 63 → b ≡ 1 → Fits (div_ℤ (int64 a) (int64 b))
by_one a b e f = rw (e, f) (of_sign-Fits_neg (2 ^ 63) (omega arith))

traps : (a b : ℕ) → a ≡ 2 ^ 63 → b ≡ 2 ^ 64 - 1 → overflows a b ≡ true
traps a b e f = ground arith

div-Fits :
    (a b : ℕ)
    → a < 2 ^ 64
    → b < 2 ^ 64
    → b ≢ 0
    → overflows a b ≡ false
    → Fits (div_ℤ (int64 a) (int64 b))
div-Fits a b h k n o = elim (dec_lt (nat_abs (int64 a) / nat_abs (int64 b)) (2 ^ 63)) [
  | yes small ↦ of_sign-Fits _ (nat_abs (int64 a) / nat_abs (int64 b)) small
  | no large ↦
      let (x, y) =
        large_quotient (nat_abs (int64 a)) (nat_abs (int64 b)) (nat_abs-pos b k n)
          (nat_abs-int64 a h) (omega arith) in
      elim (unit b k y) [
        | inl one ↦ by_one a b (smallest a h x) one
        | inr minus_one ↦ absurd (false≢true (sym o ∙ traps a b (smallest a h x) minus_one))
      ]
]

mod-Fits : (a b : ℕ) → a < 2 ^ 64 → b < 2 ^ 64 → b ≢ 0 → Fits (mod_ℤ (int64 a) (int64 b))
mod-Fits a b h k n =
    of_sign-Fits (is_neg (int64 a)) (nat_abs (int64 a) % nat_abs (int64 b))
      (omega (arith, mod-lt (nat_abs (int64 a)) (nat_abs-pos b k n), nat_abs-int64 b k))

times_negative : (y k : ℕ) → pos y *ℤ of_sign true k ≡ of_sign true (y * k)
unfolding ◌*ℤ◌
times_negative y zero = ap (λ n. pos n) (mul-zero y) ∙ ap (of_sign true) (sym (mul-zero y))
times_negative y (suc k) = refl

negative_times : (y k : ℕ) → negsuc y *ℤ of_sign true k ≡ pos (suc y * k)
unfolding ◌*ℤ◌
negative_times y zero =
    ap (of_sign true) (mul-zero (suc y)) ∙ ap (λ n. pos n) (sym (mul-zero (suc y)))
negative_times y (suc k) = refl

of_sign_add : (m n : ℕ) → of_sign true m +ℤ of_sign true n ≡ of_sign true (m + n)
of_sign_add zero zero = ground arith
of_sign_add zero (suc n) = ground arith
of_sign_add (suc m) zero = ground arith
of_sign_add (suc m) (suc n) = ground arith

-- Division with a remainder, of integers: the signs of all four fit together, not only their sizes.
quotient_and_remainder : (a b : ℤ) → (b *ℤ div_ℤ a b) +ℤ mod_ℤ a b ≡ a
unfolding ◌*ℤ◌
quotient_and_remainder (pos x) (pos y) = ap (λ n. pos n) (div-add-mod x y)
quotient_and_remainder (pos x) (negsuc y) =
    ap (λ z. z +ℤ pos (x % suc y)) (negative_times y (x / suc y))
    ∙ ap (λ n. pos n) (div-add-mod x (suc y))
quotient_and_remainder (negsuc x) (pos y) =
    ap (λ z. z +ℤ of_sign true (suc x % y)) (times_negative y (suc x / y))
    ∙ of_sign_add (y * (suc x / y)) (suc x % y)
    ∙ ap (of_sign true) (div-add-mod (suc x) y)
quotient_and_remainder (negsuc x) (negsuc y) =
    of_sign_add (suc y * (suc x / suc y)) (suc x % suc y)
    ∙ ap (of_sign true) (div-add-mod (suc x) (suc y))

-- The remainder has the sign of the dividend, or none.
remainder_sign : (b : Bool) (n : ℕ) → (of_sign b n ≡ pos 0) ⊎ (is_neg (of_sign b n) ≡ b)
remainder_sign false n = inr refl
remainder_sign true zero = inl refl
remainder_sign true (suc n) = inr refl

module _ ⦃p : Platform⦄ (vm : Vm) (a b : ℕ) (rest : List Value) (room : length rest < stack_max)
    (no_zero : b ≢ 0) (no_trap : overflows a b ≡ false) where
  zero_test : (b == 0) ≡ false
  zero_test = ground arith

  div-runs :
      op_div (with_ints vm a b rest)
      ≡ ok tt (record vm { stack = int_value (word64 (div_ℤ (int64 a) (int64 b))) ∷ rest })
  unfolding op_div vm_pop pop_from vm_push retain release is_counted_kind
  div-runs = rw (zero_test, no_trap, leb-room (length rest) room) refl

  mod-runs :
      op_mod (with_ints vm a b rest)
      ≡ ok tt (record vm { stack = int_value (word64 (mod_ℤ (int64 a) (int64 b))) ∷ rest })
  unfolding op_mod vm_pop pop_from vm_push retain release is_counted_kind
  mod-runs = rw (zero_test, no_trap, leb-room (length rest) room) refl

  -- On two ints with room for a result, with a divisor that is not 0 and not the smallest int by
  -- -1: `OP_DIV` and `OP_MOD` replace the operands by a quotient and a remainder. As signed
  -- integers, the divisor times the quotient, and the remainder, are the dividend; the remainder is
  -- smaller than the divisor in magnitude, and is 0 or has the sign of the dividend. Nothing else
  -- changes.
  pub op_div-op_mod :
      a < 2 ^ 64
      → b < 2 ^ 64
      → (q r : ℕ) × (op_div (with_ints vm a b rest)
          ≡ ok tt (record vm { stack = int_value q ∷ rest }))
        × (op_mod (with_ints vm a b rest) ≡ ok tt (record vm { stack = int_value r ∷ rest }))
        × ((int64 b *ℤ int64 q) +ℤ int64 r ≡ int64 a)
        × (nat_abs (int64 r) < nat_abs (int64 b))
        × ((int64 r ≡ pos 0) ⊎ (is_neg (int64 r) ≡ is_neg (int64 a)))
  op_div-op_mod h k =
      let x = int64 a in
      let y = int64 b in
      let q : int64 (word64 (div_ℤ x y)) ≡ div_ℤ x y =
        int64-word64 (div_ℤ x y) (div-Fits a b h k no_zero no_trap) in
      let r : int64 (word64 (mod_ℤ x y)) ≡ mod_ℤ x y =
        int64-word64 (mod_ℤ x y) (mod-Fits a b h k no_zero) in
      (
        word64 (div_ℤ x y),
        word64 (mod_ℤ x y),
        div-runs,
        mod-runs,
        ap₂ (λ s t. (y *ℤ s) +ℤ t) q r ∙ quotient_and_remainder x y,
        subst (λ t. t < nat_abs y)
            (sym (ap nat_abs r ∙ nat_abs-of_sign (is_neg x) (nat_abs x % nat_abs y)))
            (mod-lt (nat_abs x) (nat_abs-pos b k no_zero)),
        subst (λ z. (z ≡ pos 0) ⊎ (is_neg z ≡ is_neg x)) (sym r)
            (remainder_sign (is_neg x) (nat_abs x % nat_abs y)),
      )
