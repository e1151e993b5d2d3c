-- ===== src/Parser/Identifier.antt =====
-- `variable` of src/compiler.c: calls of natives, and the order in which a name is looked up.
use opo.Base.{
  ℕ, true, false, not, ◌&&◌, List, [], ◌∷◌, ◌==◌, ltb, if◌then◌else◌, get_elem?, get_or, length,
  codes, bytes_eq,
}
use opo.Compiler.Assign.{is_assignable}
use opo.Kind
use opo.Lexer.{TokenType}
use opo.OpCode.{code_load_g}
use opo.Parser.Invoke.{emit_invoke, arguments}
use opo.Parser.Names.{type_push, resolve_local, resolve_native}
use opo.Parser.Tokens.{error_at, error_at_previous, consume, match}
use opo.Parser.Variable.{
  with_prefix, function_named, struct_named, local_variable, namespace_access, typeof_expr,
  struct_use, function_use,
}
use opo.Parser.{
  on_option, Lexeme, text, says, Native, P, ◌>>=◌, ◌>>◌, done, get, when, emit_op_with, Calls,
}
use opo.Types.{type_sub}

-- The first native with that index, or the first one of all.
unfoldable pub native_with : ℕ → Native → List Native → Native
native_with index other [] = other
native_with index other (n ∷ natives) = elim (n.index == index) [
  | true ↦ n
  | false ↦ native_with index other natives
]

abbrev blank_native : Native
blank_native = record { name = []; index = 0; return_type = 0; param_types = [] }

abbrev pub append_index : ℕ
append_index = 1

abbrev pub ffi_call_index : ℕ
ffi_call_index = 29

-- What the parameter has to be: the element of an `append` goes by the type of the array.
unfoldable pub expected_param : ℕ → List ℕ → ℕ → ℕ
expected_param index earlier declared =
    if index == append_index && length earlier == 1
    then (let sub = type_sub (get_or earlier 0 Kind.any) in
        if not (sub == 0) then sub else declared)
    else declared

unfoldable pub check_native : Native → List ℕ → ℕ → P (Unit {0})
check_native n earlier type =
    on_option (get_elem? n.param_types (length earlier)) (done) (λ declared.
      when (not (is_assignable (expected_param n.index earlier declared) type))
        (error_at_previous (says "Native function argument type mismatch.")))

unfoldable pub check_native_count : Lexeme → Native → ℕ → P (Unit {0})
check_native_count name n arg_count =
    if n.index == ffi_call_index
    then when (ltb arg_count (length n.param_types))
        (error_at name (says "ffiCall requires at least 4 arguments."))
    else when (not (arg_count == length n.param_types))
        (error_at name (says "Wrong number of arguments for native function."))

module _ ⦃c : Calls⦄ where
  unfoldable pub native_use : Lexeme → Native → P (Unit {0})
  native_use name n = do
    call ← match TokenType.lparen
    if call
        then (do
          args ← arguments (check_native n)
          consume TokenType.rparen "Expect ')' after arguments."
          check_native_count name n (length args)
          emit_op_with code_load_g n.index
          emit_invoke (length args)
          if n.index == append_index
              then type_push (get_or args 0 Kind.any)
              else type_push n.return_type)
        else (do emit_op_with code_load_g n.index; type_push Kind.obj)

  -- The steps behind the natives: a struct, then a function.
  unfoldable pub declared : Lexeme → P (Unit {0})
  declared name = do
    s_idx ← with_prefix struct_named (text name)
    on_option s_idx
        (do
          f_idx ← with_prefix function_named (text name)
          on_option f_idx (error_at name (says "Undefined identifier."))
              (λ i. function_use name "Function argument type mismatch." i))
        (λ i. struct_use name i)

  unfoldable pub global_variable : Lexeme → P (Unit {0})
  global_variable name =
      if bytes_eq (text name) (codes "typeOf")
      then typeof_expr
      else get >>= λ s.
          on_option (resolve_native (text name) s.compiler.natives) (declared name) (λ n_idx.
            native_use name
              (native_with n_idx (get_or s.compiler.natives 0 blank_native) s.compiler.natives))

  unfoldable pub variable : P (Unit {0})
  variable = do
    s ← get
    arg ← resolve_local (text s.parser.previous)
    on_option arg
        (do
          namespace ← match TokenType.dot
          if namespace
              then namespace_access s.parser.previous
              else global_variable s.parser.previous)
        (λ i. local_variable s.parser.previous i)
