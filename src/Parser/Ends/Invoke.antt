-- ===== src/Parser/Ends/Invoke.antt =====
-- The calls of src/compiler.c keep within their bounds.
use opo.Base.{ℕ, refl, List, [], Option, none, some, String, arith}
use opo.Lexer.{TokenType}
use opo.Parser.Ends.Calling.{Calling}
use opo.Parser.Ends.Loops.{Turns, Ends-Turns, Turns-finish, Turns-bind, Turns-match_then}
use opo.Parser.Ends.Names.{steps, Ends-type_push, Ends-type_pop}
use opo.Parser.Ends.{Ends, Ends-bind, Ends-if}
use opo.Parser.{P, Calls}
use opo.Parser.Invoke.{
  emit_invoke, push_func, check_param, argument, arguments, unchecked, callee_local, release_local,
  call_expr,
}

pub Ends-emit_invoke : {k : ℕ} (arg_count : ℕ) → Ends k (emit_invoke arg_count)
unfolding emit_invoke
Ends-emit_invoke arg_count = search (steps) depth 40 fits 20000

pub Ends-push_func : {k : ℕ} (addr : Option ℕ) (type : ℕ) → Ends k (push_func addr type)
unfolding push_func
Ends-push_func addr type = search (steps) depth 40 fits 20000

pub Ends-check_param :
    {k : ℕ} (message : String) (params : List ℕ) (earlier : List ℕ) (type : ℕ)
    → Ends k (check_param message params earlier type)
unfolding check_param
Ends-check_param message params earlier type = search (steps) depth 40 fits 20000

module _ ⦃c : Calls⦄ {k : ℕ} (h : Calling c k) where
  Turns-argument :
      (check : List ℕ → ℕ → P (Unit {0})) (earlier : List ℕ)
      → ((e : List ℕ) (t : ℕ) → Ends k (check e t))
      → Turns k (argument check earlier)
  unfolding argument
  Turns-argument check earlier e = Turns-bind _ _ (h.precedence 1 refl) (λ u.
      Turns-bind _ _ Ends-type_pop (λ t.
        Turns-bind _ _ (e earlier t)
          (λ v. Turns-match_then TokenType.comma _ refl (λ j p. search steps) (Turns-finish _))))

  pub Ends-arguments :
      (check : List ℕ → ℕ → P (Unit {0}))
      → ((e : List ℕ) (t : ℕ) → Ends k (check e t))
      → Ends k (arguments check)
  unfolding arguments
  Ends-arguments check e = Ends-bind _ _ (search steps) (λ b. Ends-if b _ _ (search steps) (
      Ends-Turns c.rounds (argument check) [] (omega (arith, h.rounds))
        (λ earlier. Turns-argument check earlier e)))

  pub Ends-unchecked : (e : List ℕ) (t : ℕ) → Ends k (unchecked e t)
  Ends-unchecked e t = search steps

  pub Ends-callee_local : (local : Option ℕ) → Ends k (callee_local local)
  unfolding callee_local
  Ends-callee_local none = search steps depth 20
  Ends-callee_local (some local) = search steps

  pub Ends-release_local : (local : Option ℕ) → Ends k (release_local local)
  unfolding release_local
  Ends-release_local none = search steps
  Ends-release_local (some local) = search steps

  pub Ends-call_expr : Ends k (call_expr)
  unfolding call_expr
  Ends-call_expr =
      search
        (
          steps, Ends-type_pop, Ends-callee_local, Ends-arguments, Ends-release_local,
          Ends-emit_invoke, Ends-type_push, Ends-unchecked,
        )
        depth 40 fits 20000
