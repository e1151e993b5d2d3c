-- ===== src/Parser/Bodies.antt =====
-- `parse_function` of src/compiler.c: the body of a function, its return type, and the value.
use opo.Base.{
  ℕ, zero, suc, ◌+◌, ◌-◌, ◌%◌, ◌^◌, Bool, true, false, not, ◌||◌, List, [], ◌∷◌, Option, none, some,
  ◌==◌, ltb, if◌then◌else◌, length,
}
use opo.Compiler.Assign.{is_assignable, function_type_from_return, unify_inferred_types}
use opo.Compiler.{emit_push_func}
use opo.Kind
use opo.Lexer.{TokenType}
use opo.OpCode.{code_jump, code_store, code_load, code_ret}
use opo.Parser.Functions.{
  Header, function_header, declared_type, define_function, is_capture_list_ahead,
  parse_capture_list,
}
use opo.Parser.Names.{
  qualify_name, function_at, set_function, add_local, type_push, type_pop, emit_jump, patch_here,
}
use opo.Parser.Tokens.{error_at_previous, consume}
use opo.Parser.Values.{array_literal}
use opo.Parser.{
  on_option, Lexeme, text, says, CaptureSpec, CompilerState, P, pure, ◌>>=◌, ◌>>◌, done, get, when,
  modify, with_compiler, code_count, emit, emit_op, emit_op_with, Calls,
}

-- `pending_captures`
unfoldable pub set_pending : List CaptureSpec → P (Unit {0})
set_pending captures = modify (λ s. record s { pending_captures = captures })

abbrev pub add_captures : List CaptureSpec → P (Unit {0})
add_captures [] = done
add_captures (c ∷ captures) = add_local c.name c.type >> add_captures captures

abbrev pub add_params : List (Lexeme × ℕ) → P (Unit {0})
add_params [] = done
add_params ((name, type) ∷ params) = add_local name type >> add_params params

-- `OP_STORE` for the parameters from the last one to the first, at their locals.
unfoldable pub store_params : ℕ → ℕ → P (Unit {0})
store_params first zero = done
store_params first (suc i) = emit_op_with code_store (first + i) >> store_params first i

unfoldable pub load_captures : List CaptureSpec → P (Unit {0})
load_captures [] = done
load_captures (c ∷ captures) = emit_op_with code_load c.local_index >> load_captures captures

-- The return type of a body whose value has the type `actual`.
unfoldable pub settle_return_type : Option ℕ → ℕ → P ℕ
settle_return_type (some declared) actual = do
  when (not (is_assignable declared actual))
      (error_at_previous (says "Function return type mismatch."))
  pure declared
settle_return_type none actual = do
  s ← get
  let inferred = unify_inferred_types s.compiler.current_return_type actual
  if inferred == Kind.none
      then (error_at_previous (says "Could not infer a single return type for function.")
          >> pure Kind.void)
      else pure inferred

-- Back in the scope around the function; what the body wrote to the arrays stays.
abbrev pub restore_scope : CompilerState → CompilerState → CompilerState
restore_scope old c = record c {
  local_count = old.local_count;
  scope_depth = old.scope_depth;
  current_return_type = old.current_return_type;
  type_stack_ptr = old.type_stack_ptr;
}

-- Whether the function gets an entry in the table.
abbrev pub is_entered : Option Lexeme → Bool → ℕ → Bool
is_entered none is_expression depth = false
is_entered (some name) is_expression depth = not is_expression || depth == 0

unfoldable pub enter_function : Header → Bool → Bool → Option (List ℕ) → ℕ → P (Option ℕ)
enter_function h is_expression is_public prefix addr = get >>= λ s.
    on_option h.name (pure none) (λ name.
      if is_entered (some name) is_expression s.compiler.scope_depth
      then (do
        i ← define_function (qualify_name (text name) prefix) addr is_public h
        pure (some i))
      else pure none)

unfoldable pub set_return_type : Option ℕ → ℕ → P (Unit {0})
set_return_type none type = done
set_return_type (some i) type = do
  f ← function_at i
  set_function i (record f { return_type = type })

-- A named function inside a body is a local as well, and is pushed again.
unfoldable pub keep_function : Option Lexeme → ℕ → P (Unit {0})
keep_function none func_type = done
keep_function (some name) func_type = get >>= λ s. when (ltb 0 s.compiler.scope_depth) (do
  add_local name func_type
  l ← get
  emit_op_with code_store (l.compiler.local_count - 1)
  t ← type_pop
  emit_op_with code_load (l.compiler.local_count - 1)
  type_push func_type)

-- The value of a function expression.
unfoldable pub function_value : Header → List CaptureSpec → ℕ → ℕ → P (Unit {0})
function_value h captures addr func_type = do
  load_captures captures
  emit (emit_push_func (addr % 2 ^ 64) func_type (length captures))
  type_push func_type
  keep_function h.name func_type

module _ ⦃c : Calls⦄ where
  -- The code of the body, between the scope around it and the same scope again.
  unfoldable pub function_body : Header → List CaptureSpec → P ℕ
  function_body h captures = do
    outer ← get
    with_compiler (λ c. record c {
      local_count = 0;
      scope_depth = 0;
      current_return_type = declared_type h.explicit;
      type_stack_ptr = 0;
    })
    add_captures captures
    add_params h.params
    store_params (length captures) (length h.params)
    c.block
    actual_ret ← type_pop
    return_type ← settle_return_type h.explicit actual_ret
    emit_op code_ret
    with_compiler (restore_scope outer.compiler)
    pure return_type

  unfoldable pub parse_function : Bool → Bool → Option (List ℕ) → P (Unit {0})
  parse_function is_expression is_public prefix = do
    before ← get
    set_pending []
    jump_over ← emit_jump code_jump
    h ← function_header c.rounds
    func_addr ← code_count
    func ← enter_function h is_expression is_public prefix func_addr
    return_type ← function_body h before.pending_captures
    patch_here (jump_over + 1)
    set_return_type func return_type
    when is_expression
        (function_value h before.pending_captures func_addr (function_type_from_return return_type))

  unfoldable pub bracket_expression : P (Unit {0})
  bracket_expression = do
    ahead ← is_capture_list_ahead c.rounds
    if ahead
        then (do
          captures ← parse_capture_list c.rounds
          set_pending captures
          consume TokenType.langle "Expect '<' after capture list."
          parse_function true false none)
        else array_literal
