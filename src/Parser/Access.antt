-- ===== src/Parser/Access.antt =====
-- `dot` of src/compiler.c: elements, fields and payloads.
use opo.Base.{
  ℕ, Bool, false, not, ◌&&◌, ◌||◌, List, [], Option, none, some, ◌==◌, ltb, if◌then◌else◌, get_or,
  codes, bytes_eq,
}
use opo.Compiler.Assign.{is_assignable}
use opo.Compiler.{emit_int}
use opo.Kind
use opo.Lexer.{TokenType}
use opo.OpCode.{code_index, code_push_str, code_get_member, code_extract_enum_payload, code_load}
use opo.Parser.Names.{
  type_push, type_pop, string_constant, find_field, find_variant, resolve_local, local_at,
}
use opo.Parser.Tokens.{
  error_at, error_at_previous, error_at_current, advance, consume, match, current_is,
}
use opo.Parser.Values.{int_of, unquoted}
use opo.Parser.{
  on_option, Lexeme, text, says, Variant, EnumDef, P, pure, ◌>>=◌, ◌>>◌, get, demand, when, emit,
  emit_op, emit_op_with, Calls, expression,
}
use opo.Platform.{Platform}
use opo.Types.{type_kind, type_sub, type_key, make_type}

-- `enums[64]`, and the entries that no declaration has filled
abbrev pub enums_max : ℕ
enums_max = 64

abbrev pub blank_enum : EnumDef
blank_enum = record { name = []; variants = []; is_public = false }

abbrev pub blank_variant : Variant
blank_variant = record { name = []; payload_type = 0; has_payload = false }

-- `&current_compiler->enums[enum_id]`, to be read from.
abbrev pub enum_at : ℕ → P EnumDef
enum_at id = do demand (ltb id enums_max); s ← get; pure (get_or s.compiler.enums id blank_enum)

-- The type of an element of an array, of a map, or of a string.
unfoldable pub push_item : ℕ → P (Unit {0})
push_item lhs_type =
    if type_kind lhs_type == Kind.obj || type_kind lhs_type == Kind.map
    then type_push (type_sub lhs_type)
    else if type_kind lhs_type == Kind.str
    then type_push Kind.str
    else type_push Kind.any

-- The type of what a constant string selects.
unfoldable pub push_member : ℕ → P (Unit {0})
push_member lhs_type =
    if type_kind lhs_type == Kind.map
    then type_push (type_sub lhs_type)
    else if type_kind lhs_type == Kind.str
    then type_push Kind.str
    else type_push Kind.any

unfoldable pub reject_any : ℕ → P (Unit {0})
reject_any lhs_type =
    when (type_kind lhs_type == Kind.any)
      (error_at_previous (says "Cannot index 'any'. Match it first."))

-- Whether the keys of a map are neither of the type of the constant nor `any`.
abbrev pub wrong_key : ℕ → ℕ → Bool
wrong_key map_type key =
    type_kind map_type == Kind.map
    && (not (type_key map_type == key) && not (type_key map_type == Kind.any))

module _ ⦃p : Platform⦄ where
  unfoldable pub dot_int : ℕ → P (Unit {0})
  dot_int lhs_type = do
    s ← get
    reject_any lhs_type
    when (wrong_key lhs_type Kind.int) (error_at_previous (says "Map key type mismatch."))
    emit (emit_int (int_of s.parser.previous))
    emit_op code_index
    push_item lhs_type

unfoldable pub dot_str : ℕ → P (Unit {0})
dot_str lhs_type = do
  s ← get
  reject_any lhs_type
  when (wrong_key lhs_type Kind.str) (error_at_previous (says "Map key type mismatch."))
  idx ← string_constant (unquoted s.parser.previous)
  emit_op_with code_push_str idx
  emit_op code_index
  push_member lhs_type

module _ ⦃c : Calls⦄ where
  unfoldable pub dot_paren : ℕ → P (Unit {0})
  dot_paren lhs_type = do
    reject_any lhs_type
    expression
    consume TokenType.rparen "Expect ')' after expression in dot access."
    idx_type ← type_pop
    when (type_kind lhs_type == Kind.map && not (is_assignable (type_key lhs_type) idx_type))
        (error_at_previous (says "Map key type mismatch."))
    emit_op code_index
    push_item lhs_type

-- The variant of the name, with the type of its payload.
unfoldable pub variant_of : List ℕ → ℕ → P (Option (ℕ × ℕ))
variant_of name lhs_type =
    if type_sub lhs_type == Kind.option_enum_id
    then if bytes_eq name (codes "some")
      then pure (some (1, make_type (type_key lhs_type) 0 0))
      else pure none
    else if type_sub lhs_type == Kind.result_enum_id
    then if bytes_eq name (codes "ok")
      then pure (some (1, make_type (type_key lhs_type) 0 0))
      else if bytes_eq name (codes "err")
      then pure (some (0, Kind.str))
      else pure none
    else (do
      ed ← enum_at (type_sub lhs_type)
      pure (elim (find_variant name ed.variants) [
        | none ↦ none
        | some v ↦ some (v, (get_or ed.variants v blank_variant).payload_type)
      ]))

-- Whether the local is known to hold the variant.
abbrev pub same_variant : Option ℕ → ℕ → Bool
same_variant none v = false
same_variant (some w) v = w == v

unfoldable pub is_guarded : Option ℕ → ℕ → P Bool
is_guarded none v = pure false
is_guarded (some local) v = do
  l ← local_at local
  pure (not (l.guarded_depth == 0) && same_variant l.guarded_variant v)

-- The payload of a variant that a `match` or a test has found before.
unfoldable pub dot_variant : Lexeme → ℕ → Option ℕ → P (Unit {0})
dot_variant name lhs_type lhs_local = variant_of (text name) lhs_type >>= λ found.
    on_option found (error_at name (says "Unknown Enum variant.")) (λ found.
      let (v, payload_type) = found in
      do
        guarded ← is_guarded lhs_local v
        when (not guarded)
            (error_at name (says "Unsafe unwrap of Enum variant. Use 'match' or existence check."))
        emit_op code_extract_enum_payload
        type_push payload_type)

-- A name that is no field: a local as an index.
unfoldable pub dot_local : Lexeme → ℕ → P (Unit {0})
dot_local name lhs_type = do
  when (type_kind lhs_type == Kind.any)
      (error_at name (says "Cannot perform member access or indexing on 'any'. Match it first."))
  arg ← resolve_local (text name)
  on_option arg (error_at name (says "Unknown struct field or index variable."))
      (λ i. do emit_op_with code_load i; emit_op code_index; push_item lhs_type)

unfoldable pub dot_name : ℕ → Option ℕ → P (Unit {0})
dot_name lhs_type lhs_local = do
  id ← current_is TokenType.id
  some_word ← current_is TokenType.some
  when (not id && not some_word) (error_at_current (says "Expect member name after '.'."))
  advance
  s ← get
  on_option (find_field (text s.parser.previous) s.compiler.structs)
      (if type_kind lhs_type == Kind.enum
        then dot_variant s.parser.previous lhs_type lhs_local
        else dot_local s.parser.previous lhs_type)
      (λ found.
        let (field_idx, type) = found in do emit_op_with code_get_member field_idx; type_push type)

module _ ⦃p : Platform⦄ ⦃c : Calls⦄ where
  unfoldable pub dot : P (Unit {0})
  dot = do
    lhs_type ← type_pop
    popped ← get
    int ← match TokenType.int
    if int then dot_int lhs_type else (do
      str ← match TokenType.str
      if str then dot_str lhs_type else (do
        paren ← match TokenType.lparen
        if paren then dot_paren lhs_type else dot_name lhs_type popped.popped_local))
