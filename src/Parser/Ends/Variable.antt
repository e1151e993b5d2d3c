-- ===== src/Parser/Ends/Variable.antt =====
-- `variable` of src/compiler.c keeps within its bounds, on what it looks a name up as.
use opo.Base.{ℕ, refl, List, Option, String, arith}
use opo.Parser.Ends.Calling.{Calling}
use opo.Parser.Ends.Names.{steps, Ends-type_push, Ends-type_pop, Ends-emit_direct_function_call}
use opo.Parser.Ends.{Ends, Goes-step}
use opo.Parser.{Lexeme, P, Calls, Variant, CompilerState, modify}
use opo.Parser.Ends.Invoke.{Ends-emit_invoke, Ends-arguments, Ends-check_param, Ends-push_func}
use opo.Parser.Ends.Values.{Ends-emit_variant, Ends-number}
use opo.Parser.Invoke.{unchecked, arguments}
use opo.Parser.Variable.{
  set_next_push, with_prefix, local_call, local_variable, enum_member, function_call, function_use,
  struct_call, struct_member, function_member, namespace_access, typeof_expr, struct_use,
}

pub Ends-set_next_push : {k : ℕ} (local : Option ℕ) → Ends k (set_next_push local)
unfolding set_next_push modify
Ends-set_next_push local = record {
  at = λ s h r. Goes-step s _ h refl refl refl (λ e. e) (omega arith);
}

pub Ends-with_prefix :
    {k : ℕ} (find : (List ℕ → CompilerState → Option ℕ)) (name : List ℕ)
    → Ends k (with_prefix find name)
unfolding with_prefix
Ends-with_prefix find name = search (steps) depth 40 fits 20000

module _ ⦃c : Calls⦄ {k : ℕ} (h : Calling c k) where
  arguments_ends :
      (check : List ℕ → ℕ → P (Unit {0}))
      → ((e : List ℕ) (t : ℕ) → Ends k (check e t))
      → Ends k (arguments check)
  arguments_ends = Ends-arguments h

  unchecked_ends : (e : List ℕ) (t : ℕ) → Ends k (unchecked e t)
  unchecked_ends e t = search steps

  pub Ends-local_call : (name : Lexeme) (arg type : ℕ) → Ends k (local_call name arg type)
  unfolding local_call
  Ends-local_call name arg type =
      search (steps, arguments_ends, unchecked_ends, Ends-emit_invoke, Ends-type_push) depth 40 fits
        20000

  pub Ends-local_variable : (name : Lexeme) (arg : ℕ) → Ends k (local_variable name arg)
  unfolding local_variable
  Ends-local_variable name arg =
      search (steps, Ends-local_call, Ends-set_next_push, Ends-type_push) depth 40 fits 20000

  pub Ends-enum_member : (m : ℕ × ℕ × Variant) → Ends k (enum_member m)
  unfolding enum_member
  Ends-enum_member (i, v, variant) =
      search (steps, Ends-type_push, Ends-type_pop, Ends-emit_variant, h.precedence) depth 40 fits
        20000

  pub Ends-function_call :
      (name : Lexeme) (mismatch : String) (i : ℕ) → Ends k (function_call name mismatch i)
  unfolding function_call
  Ends-function_call name mismatch i =
      search
        (
          steps, arguments_ends, Ends-check_param, Ends-number, Ends-push_func,
          Ends-emit_direct_function_call, Ends-type_push,
        )
        depth 40 fits 20000

  pub Ends-function_use :
      (name : Lexeme) (mismatch : String) (i : ℕ) → Ends k (function_use name mismatch i)
  unfolding function_use
  Ends-function_use name mismatch i =
      search (steps, Ends-function_call, Ends-push_func, Ends-type_push) depth 40 fits 20000

  pub Ends-struct_call :
      (name : Lexeme) (mismatch : String) (close : String) (wrong_number : String) (i : ℕ)
      → Ends k (struct_call name mismatch close wrong_number i)
  unfolding struct_call
  Ends-struct_call name mismatch close wrong_number i =
      search (steps, arguments_ends, Ends-check_param, Ends-type_push) depth 40 fits 20000

  pub Ends-struct_member : (member : Lexeme) (i : ℕ) → Ends k (struct_member member i)
  unfolding struct_member
  Ends-struct_member member i = search (steps, Ends-struct_call, Ends-number) depth 40 fits 20000

  pub Ends-function_member : (member : Lexeme) (i : ℕ) → Ends k (function_member member i)
  unfolding function_member
  Ends-function_member member i = search (steps, Ends-function_use) depth 40 fits 20000

  pub Ends-namespace_access : (name : Lexeme) → Ends k (namespace_access name)
  unfolding namespace_access
  Ends-namespace_access name =
      search (steps, Ends-struct_member, Ends-function_member, Ends-enum_member) depth 40 fits 20000

  pub Ends-typeof_expr : Ends k (typeof_expr)
  unfolding typeof_expr
  Ends-typeof_expr = search (steps, Ends-type_pop, Ends-type_push, h.precedence) depth 40 fits 20000

  pub Ends-struct_use : (name : Lexeme) (i : ℕ) → Ends k (struct_use name i)
  unfolding struct_use
  Ends-struct_use name i =
      search (steps, Ends-struct_call, arguments_ends, Ends-number) depth 40 fits 20000
