-- ===== src/Ops/Arith/Ints.antt =====
-- Arithmetic of src/vm.c on ints, against the integers that the words stand for.
use opo.Base.Int.{ℤ, pos, negsuc, int64}
use opo.Base.{
  ℕ, zero, suc, ◌+◌, ◌-◌, ◌^◌, ◌<◌, ◌≡◌, refl, false, List, ◌∷◌, arith, length, ltb, if◌then◌else◌,
}
use opo.Base.{leb}
use opo.Ops.Arith.{add_int64, sub_int64, neg_int64, op_add, op_sub, op_lt, op_arith, op_compare}
use opo.Base.Int.{ltb_ℤ}
use opo.Heap.{retain, release}
use opo.Platform.{Platform}
use opo.Value.{int_value, bool_value, Value, is_counted_kind}
use opo.Vm.{Vm, ok, vm_push, vm_pop, pop_from, stack_max}

-- Sums and differences of integers.
abbrev pub minus : ℕ → ℕ → ℤ
minus a b = if ltb a b then negsuc (b - a - 1) else pos (a - b)

infixl 60 ◌+ℤ◌
abbrev pub ◌+ℤ◌ : ℤ → ℤ → ℤ
pos a +ℤ pos b = pos (a + b)
pos a +ℤ negsuc b = minus a (suc b)
negsuc a +ℤ pos b = minus b (suc a)
negsuc a +ℤ negsuc b = negsuc (a + b + 1)

infix 90 -ℤ◌
abbrev pub -ℤ◌ : ℤ → ℤ
-ℤ pos zero = pos 0
-ℤ pos (suc n) = negsuc n
-ℤ negsuc n = pos (suc n)

-- The integers that an int64_t can hold.
unfoldable pub Fits : ℤ → Type 0
Fits (pos n) = n < 2 ^ 63
Fits (negsuc n) = n < 2 ^ 63

-- The words whose integers are the sum, the difference and the negation of those of the operands,
-- where these are integers that an int64_t can hold.
add_int64-exact :
    (a b : ℕ)
    → a < 2 ^ 64
    → b < 2 ^ 64
    → Fits (int64 a +ℤ int64 b)
    → int64 (add_int64 a b) ≡ int64 a +ℤ int64 b
unfolding Fits
add_int64-exact a b h k f = ground arith

sub_int64-exact :
    (a b : ℕ)
    → a < 2 ^ 64
    → b < 2 ^ 64
    → Fits (int64 a +ℤ -ℤ int64 b)
    → int64 (sub_int64 a b) ≡ int64 a +ℤ -ℤ int64 b
unfolding Fits
sub_int64-exact a b h k f = ground arith

neg_int64-exact : (a : ℕ) → a < 2 ^ 64 → Fits (-ℤ int64 a) → int64 (neg_int64 a) ≡ -ℤ int64 a
unfolding Fits
neg_int64-exact a h f = ground arith

-- A machine with two ints on its stack, and room for the result.
abbrev pub with_ints : Vm → ℕ → ℕ → List Value → Vm
with_ints vm a b rest = record vm { stack = int_value b ∷ int_value a ∷ rest }

pub leb-room : (n : ℕ) → n < stack_max → leb stack_max n ≡ false
leb-room n h = ground arith

module _ ⦃p : Platform⦄ (vm : Vm) (a b : ℕ) (rest : List Value)
    (room : length rest < stack_max) where
  add-runs :
      op_add (with_ints vm a b rest)
      ≡ ok tt (record vm { stack = int_value (add_int64 a b) ∷ rest })
  unfolding op_add vm_pop pop_from vm_push retain release is_counted_kind
  add-runs = rw (leb-room (length rest) room) refl

  sub-runs :
      op_sub (with_ints vm a b rest)
      ≡ ok tt (record vm { stack = int_value (sub_int64 a b) ∷ rest })
  unfolding op_sub op_arith vm_pop pop_from vm_push retain release is_counted_kind
  sub-runs = rw (leb-room (length rest) room) refl

  -- On two ints with room for a result, whose sum and difference are integers that an int64_t can
  -- hold: `OP_ADD` and `OP_SUB` replace the operands by the ints of these integers, and `OP_LT` by
  -- whether the first integer is below the second. Nothing else changes.
  pub op_add-int64 :
      a < 2 ^ 64
      → b < 2 ^ 64
      → Fits (int64 a +ℤ int64 b)
      → Fits (int64 a +ℤ -ℤ int64 b)
      → (sum difference : ℕ) × (op_add (with_ints vm a b rest)
          ≡ ok tt (record vm { stack = int_value sum ∷ rest }))
        × (int64 sum ≡ int64 a +ℤ int64 b)
        × (op_sub (with_ints vm a b rest)
            ≡ ok tt (record vm { stack = int_value difference ∷ rest }))
        × (int64 difference ≡ int64 a +ℤ -ℤ int64 b)
        × (op_lt (with_ints vm a b rest)
            ≡ ok tt (record vm { stack = bool_value (ltb_ℤ (int64 a) (int64 b)) ∷ rest }))
  unfolding op_lt op_compare vm_pop pop_from vm_push retain release is_counted_kind
  op_add-int64 h k f g = (
    add_int64 a b,
    sub_int64 a b,
    add-runs,
    add_int64-exact a b h k f,
    sub-runs,
    sub_int64-exact a b h k g,
    rw (leb-room (length rest) room) refl,
  )
