-- ===== src/Parser/Assignment.antt =====
-- `assignment` of src/compiler.c, with `break_op`, `continue_op` and `return_op`.
use opo.Base.{
  ℕ, ◌-◌, ◌%◌, ◌^◌, Bool, not, ◌&&◌, ◌||◌, List, [], ◌∷◌, ◌++◌, Option, none, some, ◌==◌, ltb,
  if◌then◌else◌, length,
}
use opo.Compiler.Assign.{is_assignable}
use opo.Compiler.{emit_int}
use opo.Kind
use opo.Lexer.{TokenType}
use opo.OpCode.{
  code_store, code_load, code_set_index, code_push_str, code_set_member, code_jump, code_ret,
}
use opo.Parser.Access.{wrong_key}
use opo.Parser.Names.{
  type_push, type_pop, resolve_local, local_at, add_local, string_constant, find_field, emit_jump,
  emit_word32,
}
use opo.Parser.Tokens.{
  error_at, error_at_previous, consume, match, current_is, has_implicit_terminator,
}
use opo.Parser.Types.{parse_type}
use opo.Parser.Values.{int_of, unquoted}
use opo.Parser.{
  on_option, Lexeme, text, says, Message, Loop, P, pure, undefined, ◌>>=◌, ◌>>◌, fail, done, get,
  when, with_compiler, emit, emit_op, emit_op_with, Calls, expression,
}
use opo.Platform.{Platform}
use opo.Types.{type_kind, type_sub, type_key}

-- The local of the name, or a new one; behind a failed `add_local` the last one there is.
unfoldable pub local_for : Lexeme → ℕ → Option ℕ → P ℕ
local_for name type (some i) = pure i
local_for name type none = do add_local name type; s ← get; pure (s.compiler.local_count - 1)

module _ ⦃c : Calls⦄ where
  -- `=> name : type`
  unfoldable pub declare_variable : Lexeme → P (Unit {0})
  declare_variable name = do
    declared_type ← parse_type c.rounds
    value_type ← type_pop
    when (not (is_assignable declared_type value_type))
        (error_at name (says "Type mismatch in variable initialization."))
    found ← resolve_local (text name)
    arg ← local_for name declared_type found
    emit_op_with code_store arg
    type_push Kind.void

-- `=> name`
unfoldable pub assign_variable : Lexeme → P (Unit {0})
assign_variable name = do
  found ← resolve_local (text name)
  value_type ← type_pop
  on_option found (done) (λ i. do
    l ← local_at i
    when (not (is_assignable l.type value_type))
        (error_at name (says "Type mismatch in assignment.")))
  arg ← local_for name value_type found
  emit_op_with code_store arg
  type_push Kind.void

abbrev has_elements : ℕ → Bool
has_elements t = type_kind t == Kind.obj || type_kind t == Kind.map

module _ ⦃p : Platform⦄ where
  -- `=> name.3`
  unfoldable pub assign_int : Lexeme → ℕ → ℕ → P (Unit {0})
  assign_int name lhs_type val_type = do
    when (type_kind lhs_type == Kind.obj && not (is_assignable (type_sub lhs_type) val_type))
        (error_at name (says "Type mismatch in array assignment."))
    when (wrong_key lhs_type Kind.int) (error_at name (says "Map key type mismatch."))
    s ← get
    emit (emit_int (int_of s.parser.previous))
    emit_op code_set_index
    type_push Kind.void

-- `=> name."key"`
unfoldable pub assign_str : Lexeme → ℕ → ℕ → P (Unit {0})
assign_str name lhs_type val_type = do
  when (type_kind lhs_type == Kind.map && not (is_assignable (type_sub lhs_type) val_type))
      (error_at name (says "Type mismatch in map assignment."))
  when (wrong_key lhs_type Kind.str) (error_at name (says "Map key type mismatch."))
  s ← get
  idx ← string_constant (unquoted s.parser.previous)
  emit_op_with code_push_str idx
  emit_op code_set_index
  type_push Kind.void

abbrev wrong_element : Lexeme → ℕ → ℕ → P (Unit {0})
wrong_element name lhs_type val_type =
    when (has_elements lhs_type && not (is_assignable (type_sub lhs_type) val_type))
      (error_at name (says "Type mismatch in assignment."))

module _ ⦃c : Calls⦄ where
  -- `=> name.(index)`
  unfoldable pub assign_paren : Lexeme → ℕ → ℕ → P (Unit {0})
  assign_paren name lhs_type val_type = do
    expression
    consume TokenType.rparen "Expect ')' after expression."
    idx_type ← type_pop
    when (type_kind lhs_type == Kind.map && not (is_assignable (type_key lhs_type) idx_type))
        (error_at name (says "Map key type mismatch."))
    wrong_element name lhs_type val_type
    emit_op code_set_index
    type_push Kind.void

-- `=> name.field`, or a local as an index
unfoldable pub assign_member : Lexeme → ℕ → ℕ → P (Unit {0})
assign_member name lhs_type val_type = do
  consume TokenType.id "Expect member name."
  s ← get
  on_option (find_field (text s.parser.previous) s.compiler.structs)
      (do
        idx_arg ← resolve_local (text s.parser.previous)
        on_option idx_arg
            (error_at s.parser.previous (says "Unknown struct field or index variable."))
            (λ i. do
              wrong_element name lhs_type val_type
              emit_op_with code_load i
              emit_op code_set_index
              type_push Kind.void))
      (λ found.
        let (field_idx, type) = found in
        do
          when (not (is_assignable type val_type))
              (error_at s.parser.previous (says "Type mismatch in struct field assignment."))
          emit_op_with code_set_member field_idx
          type_push Kind.void)

module _ ⦃p : Platform⦄ ⦃c : Calls⦄ where
  -- `=> name.`; without a local of that name C reads in front of the array.
  unfoldable pub assign_element : Lexeme → Option ℕ → P (Unit {0})
  assign_element name none = do error_at name (says "Undefined object."); fail undefined
  assign_element name (some arg) = do
    l ← local_at arg
    when (type_kind l.type == Kind.any)
        (error_at name (says "Cannot assign to member/index of 'any'. Match it first."))
    emit_op_with code_load arg
    val_type ← type_pop
    int ← match TokenType.int
    if int then assign_int name l.type val_type else (do
      str ← match TokenType.str
      if str then assign_str name l.type val_type else (do
        paren ← match TokenType.lparen
        if paren then assign_paren name l.type val_type else assign_member name l.type val_type))

  unfoldable pub assignment : P (Unit {0})
  assignment = do
    consume TokenType.id "Expect variable name after =>"
    s ← get
    colon ← match TokenType.colon
    if colon then declare_variable s.parser.previous else (do
      dot ← match TokenType.dot
      if dot
          then resolve_local (text s.parser.previous) >>= assign_element s.parser.previous
          else assign_variable s.parser.previous)

-- A jump to the end of the innermost loop, which is patched there; at most 64 of them.
unfoldable pub break_from : List Loop → P (Unit {0})
break_from [] = error_at_previous (says "Cannot use '.' (break) outside of a loop.")
break_from (l ∷ outer) =
    if ltb (length l.end_jump_patches) 64
    then (do
      offset ← emit_jump code_jump
      with_compiler (λ c. record c {
        loops = record l { end_jump_patches = l.end_jump_patches ++ offset ∷ [] } ∷ outer;
      })
      type_push Kind.void)
    else error_at_previous (says "Too many breaks in loop.")

unfoldable pub break_op : P (Unit {0})
break_op = get >>= λ s. break_from s.compiler.loops

unfoldable pub continue_at : List Loop → P (Unit {0})
continue_at [] = error_at_previous (says "Cannot use '..' (continue) outside of a loop.")
continue_at (l ∷ outer) = do
  emit_op code_jump
  emit_word32 (l.start_addr % 2 ^ 32)
  type_push Kind.void

unfoldable pub continue_op : P (Unit {0})
continue_op = get >>= λ s. continue_at s.compiler.loops

-- The type that a `^` returns, against the return type of the function, which it may determine.
unfoldable pub returns : Message → ℕ → P (Unit {0})
returns mismatch t = get >>= λ s.
    if s.compiler.current_return_type == Kind.none
    then with_compiler (λ c. record c { current_return_type = t })
    else when (not (is_assignable s.compiler.current_return_type t)) (error_at_previous mismatch)

module _ ⦃c : Calls⦄ where
  unfoldable pub return_op : P (Unit {0})
  return_op = do
    bracket ← current_is TokenType.rbracket
    semicolon ← current_is TokenType.semicolon
    line_end ← has_implicit_terminator
    if bracket || (semicolon || line_end)
        then (do
          returns (says "Must return a value in non-void function.") Kind.void
          emit (emit_int 0)
          emit_op code_ret
          type_push Kind.void)
        else (do
          expression
          t ← type_pop
          returns (says "Return type mismatch.") t
          emit_op code_ret
          type_push t)
