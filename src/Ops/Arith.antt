-- ===== src/Ops/Arith.antt =====
-- Constants, arithmetic, comparison and logic: the operand stack alone. An int64_t is its bit
-- pattern; a signed sum, difference or product that overflows wraps, as on the machines in use.
pub mod Ints
pub mod Division
use opo.Base.Decimal.{decimal}
use opo.Base.Int.{ℤ, int64, word64, ltb_ℤ, div_ℤ, mod_ℤ}
use opo.Base.{
  ℕ, ◌+◌, ◌-◌, ◌*◌, ◌%◌, ◌^◌, Bool, true, false, not, ◌&&◌, ◌||◌, List, ◌∷◌, ◌++◌, ◌==◌,
  if◌then◌else◌, codes, get_elem?, some,
}
use opo.Compare.{c_string, string_bytes, is_string, values_equal}
use opo.Heap.{allocate_string}
use opo.Kind
use opo.Natives.Str.{native_str, chars_of}
use opo.Platform.{Platform}
use opo.Value.{Value, kind, b_val, int_value, flt_value, bool_value, obj_value}
use opo.Vm.{
  Vm, M, pure, done, ◌>>=◌, ◌>>◌, halt_with, undefined, require, new_string, object_of,
  release_value, write_output, runtime_error, vm_push, vm_pop, read_byte, read_int64,
}

unfoldable pub op_push_int : M (Unit {0})
op_push_int = do val ← read_int64; vm_push (int_value val)

unfoldable pub op_push_flt : M (Unit {0})
op_push_flt = do val ← read_int64; vm_push (flt_value val)

-- The table of constants, at an index.
abbrev pub constant : ℕ → M (List ℕ)
constant index vm = require (get_elem? vm.strings index) vm

unfoldable pub op_push_str : M (Unit {0})
op_push_str = do
  index ← read_byte
  s ← constant index
  address ← new_string (c_string s)
  vm_push (obj_value address)

unfoldable pub op_push_bool : M (Unit {0})
op_push_bool = do val ← read_byte; vm_push (bool_value (not (val == 0)))

-- `release(a); release(b); runtime_error(…)`
abbrev pub fail_both : Value → Value → List ℕ → M (Unit {0})
fail_both a b message = do release_value a; release_value b; runtime_error message

abbrev pub finish_both : Value → Value → Value → M (Unit {0})
finish_both a b result = do vm_push result; release_value a; release_value b

abbrev pub both_are : ℕ → Value → Value → Bool
both_are k a b = kind a == k && kind b == k

-- The `%d` and `%d` of the two kinds.
abbrev pub kinds_text : Value → Value → List ℕ
kinds_text a b = decimal (kind a) ++ (codes " and " ++ decimal (kind b))

-- The common form of `OP_LTE`, `OP_GTE`, `OP_GT` and `OP_LT`.
unfoldable pub op_compare : List ℕ → (ℤ → ℤ → Bool) → (ℕ → ℕ → Bool) → M (Unit {0})
op_compare name on_int on_flt = do
  b ← vm_pop
  a ← vm_pop
  if both_are Kind.int a b
      then finish_both a b (bool_value (on_int (int64 a.bits) (int64 b.bits)))
      else if both_are Kind.flt a b
      then finish_both a b (bool_value (on_flt a.bits b.bits))
      else fail_both a b (
          codes "Type error in "
          ++ (name ++ (codes ": types " ++ (kinds_text a b ++ codes " are incompatible."))))

-- The common form of `OP_SUB` and `OP_MUL`.
unfoldable pub op_arith : List ℕ → (ℕ → ℕ → ℕ) → (ℕ → ℕ → ℕ) → M (Unit {0})
op_arith message on_int on_flt = do
  b ← vm_pop
  a ← vm_pop
  if both_are Kind.int a b
      then finish_both a b (int_value (on_int a.bits b.bits))
      else if both_are Kind.flt a b
      then finish_both a b (flt_value (on_flt a.bits b.bits))
      else fail_both a b message

abbrev pub add_int64 : ℕ → ℕ → ℕ
add_int64 a b = (a + b) % 2 ^ 64

abbrev pub sub_int64 : ℕ → ℕ → ℕ
sub_int64 a b = (a + 2 ^ 64 - b) % 2 ^ 64

abbrev pub mul_int64 : ℕ → ℕ → ℕ
mul_int64 a b = a * b % 2 ^ 64

abbrev pub neg_int64 : ℕ → ℕ
neg_int64 a = (2 ^ 64 - a) % 2 ^ 64

-- INT64_MIN by -1, which traps.
abbrev pub overflows : ℕ → ℕ → Bool
overflows a b = a == 2 ^ 63 && b == 2 ^ 64 - 1

unfoldable pub op_and : M (Unit {0})
op_and = do b ← vm_pop; a ← vm_pop; finish_both a b (bool_value (b_val a && b_val b))

unfoldable pub op_or : M (Unit {0})
op_or = do b ← vm_pop; a ← vm_pop; finish_both a b (bool_value (b_val a || b_val b))

unfoldable pub op_not : M (Unit {0})
op_not = do a ← vm_pop; vm_push (bool_value (not (b_val a))); release_value a

unfoldable pub op_mod : M (Unit {0})
op_mod = do
  b ← vm_pop
  a ← vm_pop
  if both_are Kind.int a b
      then if b.bits == 0
        then fail_both a b (codes "Division by zero in MOD")
        else if overflows a.bits b.bits
        then halt_with undefined
        else finish_both a b (int_value (word64 (mod_ℤ (int64 a.bits) (int64 b.bits))))
      else fail_both a b (codes "Type error in MOD: operands must be integers.")

module _ ⦃p : Platform⦄ where
  unfoldable pub op_print : M (Unit {0})
  op_print = do
    val ← vm_pop
    s ← native_str val
    chars ← chars_of s
    write_output (chars ++ codes "\n")
    release_value s
    release_value val

  unfoldable pub op_lte : M (Unit {0})
  unfolding op_compare
  op_lte = op_compare (codes "LTE") (λ a b. not (ltb_ℤ b a)) p.flt_le

  unfoldable pub op_gte : M (Unit {0})
  unfolding op_compare
  op_gte = op_compare (codes "GTE") (λ a b. not (ltb_ℤ a b)) (λ a b. p.flt_le b a)

  unfoldable pub op_gt : M (Unit {0})
  unfolding op_compare
  op_gt = op_compare (codes "GT") (λ a b. ltb_ℤ b a) (λ a b. p.flt_lt b a)

  unfoldable pub op_lt : M (Unit {0})
  unfolding op_compare
  op_lt = op_compare (codes "LT") ltb_ℤ p.flt_lt

  unfoldable pub op_neg : M (Unit {0})
  op_neg = do
    a ← vm_pop
    if kind a == Kind.int
        then (vm_push (int_value (neg_int64 a.bits)) >> release_value a)
        else if kind a == Kind.flt
        then (vm_push (flt_value (p.flt_neg a.bits)) >> release_value a)
        else (release_value a
            >> runtime_error (codes "Type error in NEG: operand must be numeric."))

  -- Two strings, by their texts: a new string of both.
  abbrev pub concat : Value → Value → M (Unit {0})
  concat a b = do
    sa ← native_str a
    sb ← native_str b
    ca ← object_of sa
    cb ← object_of sb
    la ← require (string_bytes (some ca))
    lb ← require (string_bytes (some cb))
    address ← new_string (la ++ lb)
    vm_push (obj_value address)
    release_value sa
    release_value sb
    release_value a
    release_value b

  -- Whether both operands are strings, in the heap at hand.
  abbrev pub are_strings : Value → Value → M Bool
  are_strings a b vm = pure (is_string vm.heap a && is_string vm.heap b) vm

  unfoldable pub op_add : M (Unit {0})
  op_add = do
    b ← vm_pop
    a ← vm_pop
    strings ← are_strings a b
    if both_are Kind.int a b
        then finish_both a b (int_value (add_int64 a.bits b.bits))
        else if both_are Kind.flt a b
        then finish_both a b (flt_value (p.flt_add a.bits b.bits))
        else if strings
        then concat a b
        else fail_both a b
            (codes "Type error in ADD: incompatible types " ++ (kinds_text a b ++ codes "."))

  unfoldable pub op_sub : M (Unit {0})
  unfolding op_arith
  op_sub =
      op_arith (codes "Type error in SUB: operands must be numeric and compatible.") sub_int64
        p.flt_sub

  unfoldable pub op_mul : M (Unit {0})
  unfolding op_arith
  op_mul =
      op_arith (codes "Type error in MUL: operands must be numeric and compatible.") mul_int64
        p.flt_mul

  unfoldable pub op_div : M (Unit {0})
  op_div = do
    b ← vm_pop
    a ← vm_pop
    if both_are Kind.int a b
        then if b.bits == 0
          then fail_both a b (codes "Division by zero")
          else if overflows a.bits b.bits
          then halt_with undefined
          else finish_both a b (int_value (word64 (div_ℤ (int64 a.bits) (int64 b.bits))))
        else if both_are Kind.flt a b
        then if p.flt_eq b.bits 0
          then fail_both a b (codes "Division by zero")
          else finish_both a b (flt_value (p.flt_div a.bits b.bits))
        else fail_both a b (codes "Type error in DIV")

  -- `values_equal`, in the heap at hand.
  abbrev pub equal_here : Value → Value → M Bool
  equal_here a b vm = pure (values_equal vm.strings vm.heap a b) vm

  unfoldable pub op_eq : M (Unit {0})
  op_eq = do b ← vm_pop; a ← vm_pop; same ← equal_here a b; finish_both a b (bool_value same)
