-- ===== src/Parser/Ends/Statement.antt =====
-- The statements of src/compiler.c other than `match` keep within their bounds.
use opo.Base.{ℕ, List, [], ◌∷◌, Option, none, some}
use opo.Parser.Ends.Calling.{Calling}
use opo.Parser.Ends.Names.{
  steps, Ends-type_push, Ends-type_pop, Ends-emit_jump, Ends-patch_here, Ends-patch_all,
  Ends-add_local,
}
use opo.Parser.Ends.{Ends}
use opo.Parser.Statement.{
  guarded_local, set_guard, branch, guarded_branch, go_statement, try_statement, condition,
  if_statement, leave_loop, loop_statement, expression_statement,
}
use opo.Parser.{Loop, Calls}

pub Ends-guarded_local : {k : ℕ} (found : Option ℕ) → Ends k (guarded_local found)
Ends-guarded_local none = search steps
Ends-guarded_local (some i) = search steps

pub Ends-set_guard :
    {k : ℕ} (found : Option ℕ) (depth : ℕ) (variant : Option ℕ)
    → Ends k (set_guard found depth variant)
unfolding set_guard
Ends-set_guard none depth variant = search steps
Ends-set_guard (some i) depth variant = search steps depth 20

module _ ⦃c : Calls⦄ {k : ℕ} (h : Calling c k) where
  block_ends : Ends k c.block
  block_ends = h.block

  statement_ends : Ends k c.statement
  statement_ends = h.statement

  Ends-branch : Ends k branch
  unfolding branch
  Ends-branch = search (steps, block_ends, statement_ends) depth 20

  Ends-guarded_branch : (found : Option ℕ) → Ends k (guarded_branch found)
  unfolding guarded_branch
  Ends-guarded_branch found =
      search (steps, Ends-guarded_local, Ends-set_guard, Ends-branch, Ends-type_pop) depth 40 fits
        20000

  pub Ends-go_statement : Ends k go_statement
  unfolding go_statement
  Ends-go_statement =
      search (steps, h.precedence, Ends-type_pop, Ends-type_push) depth 40 fits 20000

  pub Ends-try_statement : Ends k try_statement
  unfolding try_statement
  Ends-try_statement =
      search
        (
          steps, block_ends, Ends-emit_jump, Ends-patch_here, Ends-type_pop, Ends-add_local,
          Ends-type_push,
        )
        depth 60 fits 40000

  Ends-condition : Ends k condition
  unfolding condition
  Ends-condition = search (steps, Ends-type_pop, Ends-emit_jump) depth 40 fits 20000

  pub Ends-if_statement : Ends k if_statement
  unfolding if_statement
  Ends-if_statement =
      search
        (
          steps, Ends-condition, Ends-guarded_branch, Ends-emit_jump, Ends-patch_here, Ends-branch,
          Ends-type_pop, Ends-type_push,
        )
        depth 60 fits 40000

  Ends-leave_loop : (loops : List Loop) → Ends k (leave_loop loops)
  Ends-leave_loop [] = search steps
  Ends-leave_loop (l ∷ outer) = search (steps, Ends-patch_all) depth 20

  pub Ends-loop_statement : (start_addr : ℕ) → Ends k (loop_statement start_addr)
  unfolding loop_statement
  Ends-loop_statement start_addr =
      search
        (
          steps, Ends-condition, Ends-guarded_branch, Ends-patch_here, Ends-leave_loop,
          Ends-type_push,
        )
        depth 60 fits 40000

  pub Ends-expression_statement : Ends k expression_statement
  unfolding expression_statement
  Ends-expression_statement =
      search (steps, h.precedence, Ends-if_statement, Ends-loop_statement) depth 40 fits 20000
