-- ===== src/Parser/Statement.antt =====
-- `statement` of src/compiler.c but for `match`: `go`, `try`, conditions and loops.
use opo.Base.{
  ℕ, ◌+◌, ◌-◌, ◌%◌, ◌^◌, true, false, not, List, [], ◌∷◌, Option, none, some, ◌==◌, if◌then◌else◌,
  map,
}
use opo.Compiler.Assign.{is_assignable}
use opo.Kind
use opo.Lexer.{TokenType}
use opo.OpCode.{code_is_truthy, code_jump_if_f, code_jump, code_try, code_end_try, code_store}
use opo.Parser.Names.{
  type_push, type_pop, local_at, set_local, add_local, emit_jump, patch_here, patch_all,
  emit_word32,
}
use opo.Parser.Tokens.{advance, consume, match, current_is, match_statement_terminator}
use opo.Parser.{
  Local, Loop, P, pure, ◌>>=◌, ◌>>◌, done, get, when, with_compiler, code_count, emit_op,
  emit_op_with, Calls, expression,
}

-- What stands for no local.
abbrev no_local : Local
no_local = record { name = []; type = 0; depth = 0; guarded_depth = 0; guarded_variant = none }

-- The local a test is about, as it is before the guard.
abbrev pub guarded_local : Option ℕ → P Local
guarded_local none = pure no_local
guarded_local (some i) = local_at i

-- `guarded_depth` and `guarded_variant` of a local, if there is one.
unfoldable pub set_guard : Option ℕ → ℕ → Option ℕ → P (Unit {0})
set_guard none depth variant = done
set_guard (some i) depth variant = do
  l ← local_at i
  set_local i (record l { guarded_depth = depth; guarded_variant = variant })

module _ ⦃c : Calls⦄ where
  -- `block()` or `statement()`, by the token that stands there
  unfoldable pub branch : P (Unit {0})
  branch = do bracket ← current_is TokenType.lbracket; if bracket then c.block else c.statement

  -- A branch where a local is known to hold the variant 1.
  unfoldable pub guarded_branch : Option ℕ → P ℕ
  guarded_branch cond_local = do
    old ← guarded_local cond_local
    s ← get
    set_guard cond_local (s.compiler.scope_depth + 1) (some 1)
    branch
    t ← type_pop
    set_guard cond_local old.guarded_depth old.guarded_variant
    pure t

  unfoldable pub go_statement : P (Unit {0})
  go_statement = do
    with_compiler (λ c. record c { is_go = true })
    expression
    with_compiler (λ c. record c { is_go = false })
    t ← type_pop
    type_push Kind.void

  unfoldable pub try_statement : P (Unit {0})
  try_statement = do
    try_handler ← emit_jump code_try
    c.block
    t ← type_pop
    emit_op code_end_try
    jump_over_catch ← emit_jump code_jump
    patch_here (try_handler + 1)
    consume TokenType.catch "Expect 'catch' after try block."
    consume TokenType.id "Expect error variable name."
    s ← get
    with_compiler (λ c. record c { scope_depth = c.scope_depth + 1 })
    add_local s.parser.previous Kind.any
    l ← get
    emit_op_with code_store (l.compiler.local_count - 1)
    c.block
    u ← type_pop
    with_compiler
        (λ c. record c { local_count = c.local_count - 1; scope_depth = c.scope_depth - 1 })
    patch_here (jump_over_catch + 1)
    type_push Kind.void

  -- The type of a condition with two branches.
  abbrev pub joined_type : ℕ → ℕ → ℕ
  joined_type t1 t2 =
      if t1 == t2
      then t1
      else if is_assignable t1 t2
      then t1
      else if is_assignable t2 t1
      then t2
      else Kind.void

  -- The jump over a branch, behind a condition of the type; and the local of the condition.
  unfoldable pub condition : P (Option ℕ × ℕ)
  condition = do
    cond_type ← type_pop
    s ← get
    when (not (cond_type == Kind.bool)) (emit_op code_is_truthy)
    advance
    jump ← emit_jump code_jump_if_f
    pure (s.popped_local, jump)

  unfoldable pub if_statement : P (Unit {0})
  if_statement = do
    test ← condition
    t1 ← guarded_branch test.0
    jump ← emit_jump code_jump
    patch_here (test.1 + 1)
    colon ← match TokenType.colon
    if colon then (do branch; t2 ← type_pop; type_push (joined_type t1 t2)) else type_push Kind.void
    patch_here (jump + 1)
    end ← match_statement_terminator
    done

  -- `loop.end_jump_patches`, each one byte behind the place of the jump
  abbrev pub leave_loop : List Loop → P (Unit {0})
  leave_loop [] = done
  leave_loop (l ∷ outer) = do
    end ← code_count
    patch_all (map (λ (offset : ℕ). offset + 1) l.end_jump_patches) end
    with_compiler (λ c. record c { loops = outer })

  unfoldable pub loop_statement : ℕ → P (Unit {0})
  loop_statement start_addr = do
    test ← condition
    with_compiler (λ c. record c {
      loops = record { start_addr = start_addr; end_jump_patches = [] } ∷ c.loops;
    })
    t ← guarded_branch test.0
    emit_op code_jump
    emit_word32 (start_addr % 2 ^ 32)
    patch_here (test.1 + 1)
    s ← get
    leave_loop s.compiler.loops
    end ← match_statement_terminator
    type_push Kind.void

  unfoldable pub expression_statement : P (Unit {0})
  expression_statement = do
    start_addr ← code_count
    expression
    question ← current_is TokenType.question
    at ← current_is TokenType.at
    if question
        then if_statement
        else if at
        then loop_statement start_addr
        else (do end ← match_statement_terminator; done)
