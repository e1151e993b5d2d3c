-- ===== src/Natives/Str.antt =====
-- `native_str` of src/vm.c. Its text is collected in a buffer of 1024 bytes on the C stack, which
-- `strcat` and `sprintf` may overrun: what happens then is undefined.
use opo.Base.Decimal.{decimal_ℤ}
use opo.Base.Int.{int64}
use opo.Base.{
  ℕ, zero, suc, Bool, true, false, ◌||◌, List, [], ◌∷◌, ◌++◌, Option, none, some, ◌==◌, ltb,
  if◌then◌else◌, length, codes, get_elem?,
}
use opo.Compare.{c_string, string_bytes}
use opo.Heap.{MapEntry, ObjEnum, Object, string, array, map, enum}
use opo.Kind
use opo.Platform.{Platform}
use opo.Types.{type_sub}
use opo.Value.{Value, kind, b_val, low_int, obj_value}
use opo.Vm.{
  M, stop, pure, ◌>>=◌, ◌>>◌, halt_with, undefined, require, new_string, object_of, retain_value,
  release_value,
}

abbrev pub buffer_size : ℕ
buffer_size = 1024

-- A text that has just been written to the buffer, with its NUL.
abbrev pub written : List ℕ → M (List ℕ)
written text = if ltb (length text) buffer_size then pure text else halt_with undefined

-- `((ObjString*)s.as.obj)->chars`, as C's string functions see it.
abbrev pub chars_of : Value → M (List ℕ)
chars_of s = do o ← object_of s; chars ← require (string_bytes (some o)); pure (c_string chars)

-- The text of a value by some `native_str`, whose own string is released behind it.
abbrev pub nested : (Value → M Value) → Value → (List ℕ → M (List ℕ)) → M (List ℕ)
nested str_one v next = do
  s ← str_one v
  chars ← chars_of s
  text ← next chars
  release_value s
  pure text

-- The loop over the items of an array: `, ` stands behind every item but the last.
pub str_items : (Value → M Value) → List Value → List ℕ → M (List ℕ)
str_items str_one [] text = pure text
str_items str_one (v ∷ []) text = nested str_one v (λ chars. written (text ++ chars))
str_items str_one (v ∷ w ∷ vs) text = do
  text' ← nested str_one v λ chars. do t ← written (text ++ chars); written (t ++ codes ", ")
  str_items str_one (w ∷ vs) text'

-- One used entry of a map.
pub str_entry : (Value → M Value) → MapEntry → Bool → List ℕ → M (List ℕ)
str_entry str_one e first text = do
  t ← if first then pure text else written (text ++ codes ", ")
  sk ← str_one e.key
  sv ← str_one e.value
  k ← chars_of sk
  t₁ ← written (t ++ k)
  t₂ ← written (t₁ ++ codes " => ")
  v ← chars_of sv
  t₃ ← written (t₂ ++ v)
  release_value sk
  release_value sv
  pure t₃

pub str_entries : (Value → M Value) → List MapEntry → Bool → List ℕ → M (List ℕ)
str_entries str_one [] first text = pure text
str_entries str_one (e ∷ es) first text =
    if e.is_used
    then str_entry str_one e first text >>= str_entries str_one es false
    else str_entries str_one es first text

module _ ⦃p : Platform⦄ where
  -- A fresh string with the contents of the buffer.
  abbrev pub from_buffer : List ℕ → M Value
  from_buffer text = do t ← written text; address ← new_string t; pure (obj_value address)

  -- An enum value, by whether its type is the built-in option.
  pub str_enum : (Value → M Value) → Bool → ObjEnum → M Value
  str_enum str_one is_option e =
      if is_option
      then if e.variant_index == 0 then from_buffer (codes "none") else (do
        text ← nested str_one e.payload (λ chars. written (codes "some(" ++ (chars ++ codes ")")))
        from_buffer text)
      else if e.has_payload
      then (do
        text ←
            nested str_one e.payload
              (λ chars. written (codes "enum.variant(" ++ (chars ++ codes ")")))
        from_buffer text)
      else from_buffer (codes "enum.variant")

  -- The cases of a value whose kind is `VAL_OBJ` or `VAL_MAP`, by its object.
  pub str_object : (Value → M Value) → Value → Object → M Value
  unfolding str_items str_entries
  str_object str_one v (string chars) =
      if kind v == Kind.obj then (do retain_value v; pure v) else from_buffer (codes "<obj>")
  str_object str_one v (array a) =
      if kind v == Kind.obj
      then (do text ← str_items str_one a.items (codes "["); from_buffer (text ++ codes "]"))
      else from_buffer (codes "<obj>")
  str_object str_one v (map m) = do
    text ← str_entries str_one m.entries true (codes "{")
    from_buffer (text ++ codes "}")
  str_object str_one v _ = from_buffer (codes "<obj>")

  as_enum : Object → Option ObjEnum
  as_enum (enum e) = some e
  as_enum _ = none

  -- The fuel is the depth of nesting; a value that contains itself exhausts the C stack.
  pub str_value : ℕ → Value → M Value
  unfolding str_object str_enum as_enum
  str_value zero v vm = stop undefined vm
  str_value (suc fuel) v vm =
      let k = kind v in
      if k == Kind.int
      then from_buffer (decimal_ℤ (int64 v.bits)) vm
      else if k == Kind.flt
      then from_buffer (p.format_flt v.bits) vm
      else if k == Kind.bool
      then from_buffer (if b_val v then codes "tru" else codes "fls") vm
      else if k == Kind.void
      then from_buffer (codes "void") vm
      else if k == Kind.str
      then (do
        s ← require (get_elem? vm.strings (low_int v))
        address ← new_string (c_string s)
        pure (obj_value address))
          vm
      else if k == Kind.obj || k == Kind.map
      then (do o ← object_of v; str_object (str_value fuel) v o) vm
      else if k == Kind.err
      then (do
        text ←
            nested (str_value fuel) (obj_value v.bits) (λ chars. written (codes "Error: " ++ chars))
        from_buffer text)
          vm
      else if k == Kind.chan
      then from_buffer (codes "<chan:" ++ (p.format_pointer v.bits ++ codes ">")) vm
      else if k == Kind.enum
      then (do
        o ← object_of v
        e ← require (as_enum o)
        str_enum (str_value fuel) (type_sub v.type == Kind.option_enum_id) e)
          vm
      else from_buffer (codes "<obj>") vm

  -- `native_str` with one argument: the nesting is bounded by the objects there are.
  unfoldable pub native_str : Value → M Value
  unfolding str_value
  native_str v vm = str_value (suc (suc (length vm.heap.cells))) v vm
