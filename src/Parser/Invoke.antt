-- ===== src/Parser/Invoke.antt =====
-- The calls of src/compiler.c: the arguments, and `call_expr`.
use opo.Base.{
  ℕ, ◌+◌, ◌-◌, not, ◌&&◌, List, [], ◌∷◌, ◌++◌, Option, none, some, String, ◌==◌, if◌then◌else◌,
  get_elem?, length,
}
use opo.Compiler.Assign.{is_assignable}
use opo.Compiler.{emit_push_func}
use opo.Kind
use opo.Lexer.{TokenType}
use opo.OpCode.{code_go, code_invoke, code_load, code_store}
use opo.Parser.Names.{type_push, type_pop, word_of}
use opo.Parser.Tokens.{error_at_previous, consume, match, current_is}
use opo.Parser.{
  on_option, says, cannot_call, P, pure, ◌>>=◌, ◌>>◌, done, get, when, with_compiler, emit,
  emit_op_with, Calls, expression, Turn, again, finish, iterate,
}
use opo.Types.{type_kind, is_func_kind}

-- `OP_GO` or `OP_INVOKE`
unfoldable pub emit_invoke : ℕ → P (Unit {0})
emit_invoke arg_count = do
  s ← get
  if s.compiler.is_go then emit_op_with code_go arg_count else emit_op_with code_invoke arg_count

unfoldable pub push_func : Option ℕ → ℕ → P (Unit {0})
push_func addr type = emit (emit_push_func (word_of 64 addr) type 0)

-- Whether an argument suits its parameter; further ones are counted later.
unfoldable pub check_param : String → List ℕ → List ℕ → ℕ → P (Unit {0})
check_param message params earlier type =
    on_option (get_elem? params (length earlier)) (done)
      (λ expected. when (not (is_assignable expected type)) (error_at_previous (says message)))

module _ ⦃c : Calls⦄ where
  -- An argument, with the types of those before it.
  unfoldable pub argument : (List ℕ → ℕ → P (Unit {0})) → List ℕ → P (Turn (List ℕ))
  argument check earlier = do
    expression
    arg_type ← type_pop
    check earlier arg_type
    more ← match TokenType.comma
    pure (if more then again (earlier ++ arg_type ∷ []) else finish (earlier ++ arg_type ∷ []))

  -- The loop over the arguments up to `)`; their types.
  unfoldable pub arguments : (List ℕ → ℕ → P (Unit {0})) → P (List ℕ)
  arguments check = do
    empty ← current_is TokenType.rparen
    if empty then pure [] else iterate c.rounds (argument check) []

  abbrev pub unchecked : List ℕ → ℕ → P (Unit {0})
  unchecked earlier type = done

  -- The function object is kept in a local while the arguments are pushed, if it is in none.
  unfoldable pub callee_local : Option ℕ → P ℕ
  callee_local (some local) = pure local
  callee_local none = do
    s ← get
    with_compiler (λ c. record c { local_count = c.local_count + 1 })
    emit_op_with code_store s.compiler.local_count
    pure s.compiler.local_count

  unfoldable pub release_local : Option ℕ → P (Unit {0})
  release_local (some local) = done
  release_local none = with_compiler (λ c. record c { local_count = c.local_count - 1 })

  abbrev pub call_result : ℕ → ℕ
  call_result kind =
      if kind == Kind.func_int
      then Kind.int
      else if kind == Kind.func_flt
      then Kind.flt
      else if kind == Kind.func_bool
      then Kind.bool
      else if kind == Kind.func_str
      then Kind.str
      else if kind == Kind.func_void
      then Kind.void
      else Kind.any

  unfoldable pub call_expr : P (Unit {0})
  call_expr = do
    lhs_type ← type_pop
    s ← get
    when (not (is_func_kind (type_kind lhs_type)) && not (lhs_type == Kind.any))
        (error_at_previous (cannot_call (type_kind lhs_type)))
    callee ← callee_local s.popped_local
    args ← arguments unchecked
    consume TokenType.rparen "Expect ')' after arguments."
    emit_op_with code_load callee
    release_local s.popped_local
    emit_invoke (length args)
    type_push (call_result (type_kind lhs_type))
