-- ===== src/Types/Names.antt =====
-- `type_to_string` of src/vm.c: its recursion is shallow and its buffers are large enough.
use opo.Base.{
  ℕ, suc, ◌+◌, ◌^◌, ◌≤◌, ◌<◌, ◌≡◌, refl, List, ◌++◌, length, length-append, ◌∙◌, sym, arith, codes,
}
use opo.Types.{type_sub, type_key, name_step, name_type, type_to_string}

-- The two inner types of a one-byte type are 0, which has no name of its own.
name_type_zero : (more : ℕ) → name_type (suc more) 0 ≡ codes "unknown"
unfolding name_type name_step
name_type_zero more = refl

name_type_byte :
    (more t : ℕ)
    → t < 2 ^ 8
    → name_type (suc (suc more)) t ≡ name_step t (codes "unknown") (codes "unknown")
unfolding name_type
name_type_byte more t h =
    let no_sub : type_sub t ≡ 0 = omega arith in
    let no_key : type_key t ≡ 0 = omega arith in rw (no_sub, no_key) (rw name_type_zero)

name_type-suc :
    (fuel t : ℕ)
    → name_type (suc fuel) t
      ≡ name_step t (name_type fuel (type_sub t)) (name_type fuel (type_key t))
unfolding name_type
name_type-suc fuel t = refl

-- The name of an inner type.
byte_name : ℕ → List ℕ
byte_name t = name_step t (codes "unknown") (codes "unknown")

name_type_word :
    (more t : ℕ)
    → name_type (suc (suc (suc more))) t
      ≡ name_step t (byte_name (type_sub t)) (byte_name (type_key t))
unfolding byte_name
name_type_word more t =
    name_type-suc (suc (suc more)) t
    ∙ rw (
      name_type_byte more (type_sub t) (omega arith),
      name_type_byte more (type_key t) (omega arith),
    )

-- However many levels of recursion are allowed beyond three, the name is the same: the recursion
-- of `type_to_string` ends by itself, on every word.
pub type_to_string_depth : (more t : ℕ) → name_type (suc (suc (suc more))) t ≡ type_to_string t
unfolding type_to_string
type_to_string_depth more t = name_type_word more t ∙ sym (name_type_word 0 t)

length-name_step :
    (t : ℕ) (sub key : List ℕ) → length (name_step t sub key) ≤ 7 + length sub + length key
unfolding name_step
length-name_step t sub key = ground (
  arith,
  length-append sub (codes "}"),
  length-append sub (codes ">"),
  length-append key (codes "?"),
  length-append key (codes "!"),
  length-append key (codes ":" ++ (sub ++ codes "}")),
)

-- A name and its NUL fit the buffers of 64 bytes that hold the names of inner types, and so the
-- one of 256 bytes that holds the whole.
pub type_to_string_fits : (t : ℕ) → length (type_to_string t) + 1 ≤ 64
unfolding type_to_string byte_name
type_to_string_fits t =
    let sub = type_sub t in
    let key = type_key t in
    rw (name_type_word 0 t) (
      omega (
        arith,
        length-name_step t (byte_name sub) (byte_name key),
        length-name_step sub (codes "unknown") (codes "unknown"),
        length-name_step key (codes "unknown") (codes "unknown"),
      ))
