-- ===== src/Types.antt =====
-- The run-time types of src/common.h, packed into a word, and `type_to_string` of src/vm.c.
pub mod Packing
pub mod Names
use opo.Base.{
  ℕ, zero, suc, ◌+◌, ◌*◌, ◌/◌, ◌%◌, ◌^◌, Bool, true, false, ◌&&◌, ◌||◌, List, [], ◌∷◌, ◌++◌, ◌==◌,
  leb, if◌then◌else◌, bit_or, codes,
}
use opo.Kind

-- `TYPE_KIND`, `TYPE_SUB`, `TYPE_KEY`: a mask of a byte, after a shift.
abbrev pub type_kind : ℕ → ℕ
type_kind t = t % 2 ^ 8

abbrev pub type_sub : ℕ → ℕ
type_sub t = t / 2 ^ 8 % 2 ^ 8

abbrev pub type_key : ℕ → ℕ
type_key t = t / 2 ^ 16 % 2 ^ 8

-- `MAKE_TYPE`, cut to 32 bits by the cast
unfoldable pub make_type : ℕ → ℕ → ℕ → ℕ
make_type kind sub key = bit_or (bit_or kind (sub * 2 ^ 8)) (key * 2 ^ 16) % 2 ^ 32

-- `kind >= VAL_FUNC && kind <= VAL_FUNC_VOID`
abbrev pub is_func_kind : ℕ → Bool
is_func_kind kind = leb Kind.func kind && leb kind Kind.func_void

-- One level of `type_to_string`: the name of `t` from the names of its two inner types.
pub name_step : ℕ → List ℕ → List ℕ → List ℕ
name_step t sub key =
    let kind = type_kind t in
    if kind == Kind.int
    then codes "int"
    else if kind == Kind.flt
    then codes "flt"
    else if kind == Kind.bool
    then codes "bol"
    else if kind == Kind.str
    then codes "str"
    else if kind == Kind.void
    then codes "void"
    else if kind == Kind.err
    then codes "err"
    else if kind == Kind.any
    then codes "any"
    else if kind == Kind.obj
    then if type_sub t == 0 || type_sub t == Kind.str then codes "str" else codes "[]" ++ sub
    else if kind == Kind.map
    then codes "{" ++ (key ++ (codes ":" ++ (sub ++ codes "}")))
    else if is_func_kind kind
    then codes "fun"
    else if kind == Kind.chan
    then codes "chan<" ++ (sub ++ codes ">")
    else if kind == Kind.enum
    then if type_sub t == Kind.option_enum_id
      then key ++ codes "?"
      else if type_sub t == Kind.result_enum_id
      then key ++ codes "!"
      else codes "enum"
    else codes "unknown"

-- The calls on the inner types, which are single bytes; `Names` shows that three levels are enough.
pub name_type : ℕ → ℕ → List ℕ
name_type zero t = []
name_type (suc fuel) t = name_step t (name_type fuel (type_sub t)) (name_type fuel (type_key t))

unfoldable pub type_to_string : ℕ → List ℕ
type_to_string t = name_type 3 t
