-- ===== src/Natives/Numbers.antt =====
-- The natives of src/vm.c that convert, print and compute numbers, with `wrap_ok` and `wrap_err`.
-- The arguments are a list, and `arg_count` is its length.
use opo.Base.{
  ℕ, Bool, true, not, ◌||◌, List, [], ◌∷◌, Option, none, some, ◌==◌, ◌%◌, ◌^◌, if◌then◌else◌, codes,
  length,
}
use opo.Compare.{c_string, is_string, get_string_ptr}
use opo.Heap.{enum, allocate}
use opo.Kind
use opo.Natives.Str.{native_str, chars_of}
use opo.Platform.{Platform}
use opo.Types.{make_type, type_kind}
use opo.Value.{Value, kind, int_value, flt_value, obj_value, void_value}
use opo.Vm.{
  M, exits, pure, done, ◌>>=◌, ◌>>◌, halt_with, new_string, new_object, retain_value, release_value,
  write_output,
}

-- A `Result` of the built-in enum.
abbrev pub wrap : Value → ℕ → List ℕ → ℕ → M Value
wrap payload variant name inner_type = do
  address ← new_object (λ h. allocate h (
      enum (record {
        enum_name = codes "Result";
        variant_name = name;
        payload = payload;
        has_payload = true;
        variant_index = variant;
      })))
  retain_value payload
  pure (record {
    type = make_type Kind.enum Kind.result_enum_id (type_kind inner_type);
    bits = address;
  })

unfoldable pub wrap_ok : Value → ℕ → M Value
unfolding make_type
wrap_ok val inner_type = wrap val 1 (codes "ok") inner_type

unfoldable pub wrap_err : List ℕ → ℕ → M Value
unfolding make_type
wrap_err msg inner_type = do
  address ← new_string (c_string msg)
  wrap (obj_value address) 0 (codes "err") inner_type

-- `*str == '\0' || *endptr != '\0'`
abbrev pub is_malformed : List ℕ → ℕ → Bool
is_malformed text used = length text == 0 || not (used == length text)

-- The text of a value that is a string.
abbrev pub text_of : Value → M (Option (List ℕ))
text_of v vm = pure (if is_string vm.heap v then get_string_ptr vm.strings vm.heap v else none) vm

module _ ⦃p : Platform⦄ where
  -- The result of a conversion, from the text, the number that starts it and its length.
  pub converted : List ℕ → ℕ × ℕ → (ℕ → Value) → List ℕ → ℕ → M Value
  converted text (number, used) make message type =
      if is_malformed text used then wrap_err message type else wrap_ok (make number) type

  pub int_of_text : Option (List ℕ) → M Value
  unfolding converted
  int_of_text (some s) =
      converted (c_string s) (p.strtoll (c_string s)) int_value (codes "Invalid format for int()")
        Kind.int
  int_of_text none = wrap_err (codes "Cannot convert type to int") Kind.int

  unfoldable pub native_int : List Value → M Value
  unfolding int_of_text
  native_int (v ∷ []) =
      if kind v == Kind.int
      then wrap_ok v Kind.int
      else if kind v == Kind.flt
      then wrap_ok (int_value (p.int_of_flt v.bits)) Kind.int
      else (text_of v >>= int_of_text)
  native_int _ = wrap_err (codes "int() expects 1 argument") Kind.int

  pub flt_of_text : Option (List ℕ) → M Value
  unfolding converted
  flt_of_text (some s) =
      converted (c_string s) (p.strtod (c_string s)) flt_value (codes "Invalid format for flt()")
        Kind.flt
  flt_of_text none = wrap_err (codes "Cannot convert type to flt") Kind.flt

  unfoldable pub native_flt : List Value → M Value
  unfolding flt_of_text
  native_flt (v ∷ []) =
      if kind v == Kind.flt
      then wrap_ok v Kind.flt
      else if kind v == Kind.int
      then wrap_ok (flt_value (p.flt_of_int v.bits)) Kind.flt
      else (text_of v >>= flt_of_text)
  native_flt _ = wrap_err (codes "flt() expects 1 argument") Kind.flt

  -- One argument of `print`; `s.type` is compared whole.
  abbrev pub print_one : Value → M (Unit {0})
  print_one v = do
    s ← native_str v
    chars ← chars_of s
    (if s.type == Kind.obj || s.type == Kind.map then write_output chars else done)
    release_value s

  pub print_all : List Value → M (Unit {0})
  print_all [] = done
  print_all (v ∷ vs) = do print_one v; print_all vs

  unfoldable pub native_print : List Value → M Value
  unfolding print_all
  native_print args = do print_all args; pure void_value

  unfoldable pub native_println : List Value → M Value
  unfolding native_print
  native_println args = do result ← native_print args; write_output (codes "\n"); pure void_value

  -- The argument as a `double`.
  abbrev pub as_flt : Value → ℕ
  as_flt v = if kind v == Kind.int then p.flt_of_int v.bits else v.bits

  -- The common form of `sqrt`, `sin`, `cos`, `tan` and `log`.
  pub native_math : (ℕ → ℕ) → List Value → M Value
  native_math f (v ∷ []) = pure (flt_value (f (as_flt v)))
  native_math f _ = pure (flt_value 0)

-- The status of a process is one byte of the `int`.
unfoldable pub native_exit : List Value → M Value
native_exit [] = halt_with (exits 0)
native_exit (v ∷ vs) = halt_with (exits (if v.type == Kind.int then v.bits % 2 ^ 8 else 0))
