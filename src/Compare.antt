-- ===== src/Compare.antt =====
-- Strings as values, equality and hashing of values: `is_string`, `get_string_ptr`, `values_equal`
-- and `hash_value` of src/vm.c. The string table of the VM (`vm->strings`) is an argument.
pub mod Laws
use opo.Base.{
  ℕ, zero, suc, ◌+◌, ◌*◌, ◌/◌, ◌%◌, ◌^◌, Bool, true, false, ◌&&◌, ◌||◌, List, [], ◌∷◌, Option, none,
  some, ◌==◌, if◌then◌else◌, get_elem?, bit_xor, bytes_eq,
}
use opo.Heap.{Object, string, Heap, deref, object_at}
use opo.Kind
use opo.Platform.{Platform}
use opo.Value.{Value, kind, b_val, low_int}

-- The text that a `char*` shows to C's string functions: the bytes in front of the first NUL.
unfoldable pub c_string : List ℕ → List ℕ
c_string [] = []
c_string (c ∷ cs) = let rest = c_string cs in if c == 0 then [] else c ∷ rest

-- The bytes of a heap string.
pub string_bytes : Option Object → Option (List ℕ)
string_bytes (some (string chars)) = some chars
string_bytes _ = none

abbrev pub heap_string : Heap → Value → Option (List ℕ)
heap_string h v = if kind v == Kind.obj then string_bytes (object_at h v.bits) else none

pub is_some {ℓ} : {A : Type ℓ} → Option A → Bool
is_some none = false
is_some (some a) = true

unfoldable pub is_string : Heap → Value → Bool
unfolding string_bytes is_some
is_string h v = kind v == Kind.str || is_some (heap_string h v)

-- A constant of the string table, or the bytes of a heap string; `none` is NULL.
unfoldable pub get_string_ptr : List (List ℕ) → Heap → Value → Option (List ℕ)
unfolding string_bytes
get_string_ptr strings h v =
    if kind v == Kind.str then get_elem? strings (low_int v) else heap_string h v

-- Two strings, each with its pointer: `strcmp` sees what stands in front of a NUL.
pub same_string : Option (List ℕ) → Option (List ℕ) → Bool
same_string (some a) (some b) = bytes_eq (c_string a) (c_string b)
same_string _ _ = false

-- FNV-1a over 32 bits, one byte.
abbrev pub fnv_step : ℕ → ℕ → ℕ
fnv_step hash c = bit_xor hash c * 16777619 % 2 ^ 32

unfoldable pub fnv : ℕ → List ℕ → ℕ
fnv hash [] = hash
fnv hash (c ∷ cs) = fnv (fnv_step hash c) cs

abbrev pub fnv_basis : ℕ
fnv_basis = 2166136261

-- A constant is hashed up to its NUL, a heap string over its length.
pub hash_constant : Option (List ℕ) → ℕ
unfolding fnv c_string
hash_constant none = 0
hash_constant (some s) = fnv fnv_basis (c_string s)

pub hash_object : Value → Option (List ℕ) → ℕ
unfolding fnv
hash_object v (some chars) = fnv fnv_basis chars
hash_object v none = v.bits % 2 ^ 32

unfoldable pub hash_value : List (List ℕ) → Heap → Value → ℕ
unfolding hash_constant hash_object string_bytes
hash_value strings h v =
    let k = kind v in
    if k == Kind.int
    then v.bits % 2 ^ 32
    else if k == Kind.str
    then hash_constant (get_elem? strings (low_int v))
    else if k == Kind.flt
    then bit_xor (v.bits % 2 ^ 32) (v.bits / 2 ^ 32)
    else if k == Kind.bool
    then if b_val v then 1 else 0
    else if k == Kind.obj
    then hash_object v (heap_string h v)
    else 0

module _ ⦃p : Platform⦄ where
  unfoldable pub values_equal : List (List ℕ) → Heap → Value → Value → Bool
  unfolding is_string get_string_ptr same_string bytes_eq c_string
  values_equal strings h a b =
      if is_string h a && is_string h b
      then same_string (get_string_ptr strings h a) (get_string_ptr strings h b)
      else if kind a == kind b
      then if kind a == Kind.int
        then a.bits == b.bits
        else if kind a == Kind.flt
        then p.flt_eq a.bits b.bits
        else if kind a == Kind.bool
        then if b_val a then b_val b else (if b_val b then false else true)
        else if kind a == Kind.obj
        then a.bits == b.bits
        else false
      else false
