-- ===== src/Parser/Values.antt =====
-- The prefix rules of src/compiler.c for literals, arrays, maps, options, results and channels.
use opo.Base.{ℕ, ◌+◌, ◌-◌, ◌%◌, ◌^◌, not, ◌&&◌, List, ◌==◌, if◌then◌else◌, get_or, take, drop}
use opo.Compiler.Assign.{is_assignable}
use opo.Compiler.{emit_byte, emit_int, emit_word}
use opo.Kind
use opo.Lexer.{TokenType}
use opo.OpCode.{
  code_push_flt, code_push_str, code_push_bool, code_array, code_map, code_enum_variant, code_chan,
}
use opo.Parser.Names.{type_push, type_pop, emit_word32, string_constant}
use opo.Parser.Precedence
use opo.Parser.Tokens.{error_at_previous, consume, match, is_type, current_is}
use opo.Parser.Types.{parse_type}
use opo.Parser.{
  Lexeme, says, P, pure, ◌>>=◌, ◌>>◌, done, get, when, emit, emit_op, emit_op_with, Calls,
  expression, Turn, again, finish, iterate,
}
use opo.Platform.{Platform}
use opo.Types.{type_kind, make_type}

-- The text of a string token without its quotes.
abbrev pub unquoted : Lexeme → List ℕ
unquoted t = take (t.length - 2) (drop 1 t.start)

module _ ⦃p : Platform⦄ where
  -- `strtoll(token.start, NULL, 10)`, which is given the whole rest of the text
  abbrev pub int_of : Lexeme → ℕ
  int_of t = (p.strtoll t.start).0

  unfoldable pub number : P (Unit {0})
  number = do
    s ← get
    if is_type s.parser.previous.type TokenType.int
        then (do emit (emit_int (int_of s.parser.previous)); type_push Kind.int)
        else (do
          emit_op code_push_flt
          emit (emit_word 8 0 (p.strtod s.parser.previous.start).0)
          type_push Kind.flt)

unfoldable pub string : P (Unit {0})
string = do
  s ← get
  idx ← string_constant (unquoted s.parser.previous)
  emit_op_with code_push_str idx
  type_push Kind.str

-- The rule of Boolean literals only.
unfoldable pub literal : P (Unit {0})
literal = do
  s ← get
  if is_type s.parser.previous.type TokenType.bool
      then (do
        emit_op_with code_push_bool (if get_or s.parser.previous.start 0 0 == b't' then 1 else 0)
        type_push Kind.bool)
      else done

-- `OP_ENUM_VARIANT` with its type, variant, and whether there is a payload
unfoldable pub emit_variant : ℕ → ℕ → ℕ → P (Unit {0})
emit_variant type variant has_payload = do
  emit_op code_enum_variant
  emit_word32 type
  emit (emit_byte (variant % 2 ^ 8))
  emit (emit_byte has_payload)

unfoldable pub none_expr : P (Unit {0})
none_expr =
    let type = make_type Kind.enum Kind.option_enum_id Kind.any in
    emit_variant type 0 0 >> type_push type

module _ ⦃c : Calls⦄ where
  unfoldable pub some_expr : P (Unit {0})
  some_expr = do
    consume TokenType.lparen "Expect '(' after 'some'."
    expression
    val_type ← type_pop
    consume TokenType.rparen "Expect ')' after 'some' argument."
    emit_variant (make_type Kind.enum Kind.option_enum_id (type_kind val_type)) 1 1
    type_push (make_type Kind.enum Kind.option_enum_id (type_kind val_type))

  unfoldable pub ok_expr : P (Unit {0})
  ok_expr = do
    consume TokenType.lparen "Expect '(' after 'ok'."
    expression
    val_type ← type_pop
    consume TokenType.rparen "Expect ')' after 'ok' argument."
    emit_variant (make_type Kind.enum Kind.result_enum_id (type_kind val_type)) 1 1
    type_push (make_type Kind.enum Kind.result_enum_id (type_kind val_type))

  unfoldable pub err_expr : P (Unit {0})
  err_expr = do
    consume TokenType.lparen "Expect '(' after 'err'."
    expression
    err_type ← type_pop
    when (not (type_kind err_type == Kind.str) && not (type_kind err_type == Kind.any))
        (error_at_previous (says "Error message must be a string."))
    consume TokenType.rparen "Expect ')' after 'err' argument."
    emit_variant (make_type Kind.enum Kind.result_enum_id Kind.any) 0 1
    type_push (make_type Kind.enum Kind.result_enum_id Kind.any)

  unfoldable pub chan_expr : P (Unit {0})
  chan_expr = do
    consume TokenType.langle "Expect '<' after 'chan'."
    element ← parse_type c.rounds
    consume TokenType.rangle "Expect '>' after chan element type."
    consume TokenType.lparen "Expect '(' for channel capacity."
    expression
    cap_type ← type_pop
    when (not (cap_type == Kind.int) && not (cap_type == Kind.any))
        (error_at_previous (says "Channel capacity must be an integer."))
    consume TokenType.rparen "Expect ')' after channel capacity."
    emit_op code_chan
    emit_word32 (make_type Kind.chan (type_kind element) 0)
    type_push (make_type Kind.chan (type_kind element) 0)

  -- An element of an array, with the type of the first one and the count before it.
  unfoldable pub array_element : ℕ × ℕ → P (Turn (ℕ × ℕ))
  array_element (count, element_type) = do
    expression
    t ← type_pop
    when
        (not (count == 0) && (not (is_assignable element_type t) && not (type_kind t == Kind.void)))
        (error_at_previous (says "All elements in an array literal must have the same type."))
    more ← match TokenType.comma
    let next : ℕ × ℕ = (count + 1, if count == 0 then t else element_type)
    pure (if more then again next else finish next)

  unfoldable pub array_literal : P (Unit {0})
  array_literal = do
    empty ← current_is TokenType.rbracket
    elements ← if empty then pure (0, Kind.any) else iterate c.rounds array_element (0, Kind.any)
    consume TokenType.rbracket "Expect ']' after array elements."
    let full_type = make_type Kind.obj (type_kind elements.1) 0
    emit_op code_array
    emit_word32 full_type
    emit (emit_byte (elements.0 % 2 ^ 8))
    type_push full_type

  -- An entry of a map, with the count before it and the types of the first key and value.
  unfoldable pub map_entry : ℕ × ℕ × ℕ → P (Turn (ℕ × ℕ × ℕ))
  map_entry (count, key_type, val_type) = do
    c.parse_precedence Precedence.or
    kt ← type_pop
    when (not (count == 0) && not (is_assignable key_type kt))
        (error_at_previous (says "All keys in a map literal must have the same type."))
    consume TokenType.assign "Expect '=>' between key and value in map literal."
    c.parse_precedence Precedence.or
    vt ← type_pop
    when (not (count == 0) && not (is_assignable val_type vt))
        (error_at_previous (says "All values in a map literal must have the same type."))
    more ← match TokenType.comma
    let next : ℕ × ℕ × ℕ =
        (count + 1, if count == 0 then kt else key_type, if count == 0 then vt else val_type)
    pure (if more then again next else finish next)

  unfoldable pub map_literal : P (Unit {0})
  map_literal = do
    empty ← current_is TokenType.rbrace
    entries ←
        if empty
        then pure (0, Kind.void, Kind.void)
        else iterate c.rounds map_entry (0, Kind.void, Kind.void)
    consume TokenType.rbrace "Expect '}' after map elements."
    let full_type = make_type Kind.map (type_kind entries.2) (type_kind entries.1)
    emit_op code_map
    emit_word32 full_type
    emit (emit_byte (entries.0 % 2 ^ 8))
    type_push full_type
