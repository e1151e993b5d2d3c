-- ===== src/Parser/Ends/Identifier.antt =====
-- `variable` of src/compiler.c keeps within its bounds: natives, and the order of the look-up.
use opo.Base.{ℕ, List, String}
use opo.Parser.Ends.Calling.{Calling}
use opo.Parser.Ends.Names.{steps, Ends-type_push, Ends-resolve_local}
use opo.Parser.Ends.{Ends}
use opo.Parser.{Lexeme, P, Calls, Native}
use opo.Parser.Ends.Invoke.{Ends-arguments, Ends-emit_invoke}
use opo.Parser.Ends.Variable.{
  Ends-function_use, Ends-local_variable, Ends-namespace_access, Ends-struct_use, Ends-typeof_expr,
  Ends-with_prefix,
}
use opo.Parser.Invoke.{arguments}
use opo.Parser.Variable.{function_use, local_variable, namespace_access, struct_use, typeof_expr}
use opo.Parser.Identifier.{
  check_native, check_native_count, native_use, declared, global_variable, variable,
}

pub Ends-check_native :
    {k : ℕ} (n : Native) (earlier : List ℕ) (type : ℕ) → Ends k (check_native n earlier type)
unfolding check_native
Ends-check_native n earlier type = search (steps) depth 40 fits 20000

pub Ends-check_native_count :
    {k : ℕ} (name : Lexeme) (n : Native) (arg_count : ℕ)
    → Ends k (check_native_count name n arg_count)
unfolding check_native_count
Ends-check_native_count name n arg_count = search (steps) depth 40 fits 20000

module _ ⦃c : Calls⦄ {k : ℕ} (h : Calling c k) where
  local_variable_ends : (name : Lexeme) (arg : ℕ) → Ends k (local_variable name arg)
  local_variable_ends = Ends-local_variable h

  namespace_access_ends : (name : Lexeme) → Ends k (namespace_access name)
  namespace_access_ends = Ends-namespace_access h

  typeof_expr_ends : Ends k (typeof_expr)
  typeof_expr_ends = Ends-typeof_expr h

  struct_use_ends : (name : Lexeme) (i : ℕ) → Ends k (struct_use name i)
  struct_use_ends = Ends-struct_use h

  function_use_ends :
      (name : Lexeme) (mismatch : String) (i : ℕ) → Ends k (function_use name mismatch i)
  function_use_ends = Ends-function_use h

  arguments_ends :
      (check : List ℕ → ℕ → P (Unit {0}))
      → ((e : List ℕ) (t : ℕ) → Ends k (check e t))
      → Ends k (arguments check)
  arguments_ends = Ends-arguments h

  pub Ends-native_use : (name : Lexeme) (n : Native) → Ends k (native_use name n)
  unfolding native_use
  Ends-native_use name n =
      search
        (
          steps, arguments_ends, Ends-check_native, Ends-check_native_count, Ends-emit_invoke,
          Ends-type_push,
        )
        depth 40 fits 20000

  pub Ends-declared : (name : Lexeme) → Ends k (declared name)
  unfolding declared
  Ends-declared name =
      search (steps, Ends-with_prefix, function_use_ends, struct_use_ends) depth 40 fits 20000

  pub Ends-global_variable : (name : Lexeme) → Ends k (global_variable name)
  unfolding global_variable
  Ends-global_variable name =
      search (steps, typeof_expr_ends, Ends-declared, Ends-native_use) depth 40 fits 20000

  pub Ends-variable : Ends k (variable)
  unfolding variable
  Ends-variable =
      search
        (
          steps, Ends-resolve_local, namespace_access_ends, Ends-global_variable,
          local_variable_ends,
        )
        depth 40 fits 20000
