-- ===== src/Parser/Variable.antt =====
-- `variable` of src/compiler.c: a name as a local, a member of a namespace, a native, a struct or a
-- function.
use opo.Base.{
  ℕ, suc, ◌+◌, false, not, List, [], ◌∷◌, ◌++◌, Option, none, some, String, ◌==◌, ltb,
  if◌then◌else◌, get_or, length, map, codes, bytes_eq,
}
use opo.Compiler.Assign.{is_assignable}
use opo.Kind
use opo.Lexer.{TokenType}
use opo.OpCode.{code_load, code_struct, code_typeof, code_go}
use opo.Parser.Access.{blank_variant}
use opo.Parser.Invoke.{emit_invoke, push_func, check_param, arguments, unchecked}
use opo.Parser.Names.{
  type_push, type_pop, find_function, find_struct, find_variant, local_at, function_at,
  emit_direct_function_call,
}
use opo.Parser.Tokens.{error_at, error_at_previous, consume, match}
use opo.Parser.Types.{full_name_size}
use opo.Parser.Values.{emit_variant}
use opo.Parser.{
  on_option, Lexeme, text, says, cannot_call, Field, StructDef, Variant, EnumDef, CompilerState, P,
  pure, ◌>>=◌, ◌>>◌, get, when, modify, demand, emit_op, emit_op_with, Calls, expression,
}
use opo.Types.{type_kind, is_func_kind, make_type}

-- The result of a call of a local, by the type of the local as a whole.
abbrev pub local_result : ℕ → ℕ
local_result type =
    if type == Kind.func_int
    then Kind.int
    else if type == Kind.func_flt
    then Kind.flt
    else if type == Kind.func_bool
    then Kind.bool
    else if type == Kind.func_str
    then Kind.str
    else if type == Kind.func_void
    then Kind.void
    else Kind.obj

-- An enum of that name with that variant: the numbers of both, and the variant.
unfoldable pub enum_variant_from : List ℕ → List ℕ → ℕ → List EnumDef → Option (ℕ × ℕ × Variant)
enum_variant_from name member i [] = none
enum_variant_from name member i (d ∷ enums) =
    let rest = enum_variant_from name member (suc i) enums in
    if bytes_eq name d.name
    then elim (find_variant member d.variants) [
      | some v ↦ some (i, v, get_or d.variants v blank_variant)
      | none ↦ rest
    ]
    else rest

-- `next_push_local`
unfoldable pub set_next_push : Option ℕ → P (Unit {0})
set_next_push local = modify (λ s. record s { next_push_local = local })

abbrev pub blank_struct : StructDef
blank_struct = record { name = []; fields = []; is_public = false }

abbrev pub struct_at : ℕ → P StructDef
struct_at i = get >>= λ s. pure (get_or s.compiler.structs i blank_struct)

abbrev pub field_types : List Field → List ℕ
field_types fields = map (λ (f : Field). f.type) fields

-- A name, then the name with the prefix of the module in front, in a buffer of 256 bytes.
unfoldable pub with_prefix : (List ℕ → CompilerState → Option ℕ) → List ℕ → P (Option ℕ)
with_prefix find name = do
  s ← get
  on_option (find name s.compiler)
      (on_option s.active_prefix (pure none) (λ prefix. do
        demand (ltb (length prefix + length name) full_name_size)
        pure (find (prefix ++ name) s.compiler)))
      (λ i. pure (some i))

abbrev pub function_named : List ℕ → CompilerState → Option ℕ
function_named name c = find_function name c.functions

abbrev pub struct_named : List ℕ → CompilerState → Option ℕ
struct_named name c = find_struct name c.structs

module _ ⦃c : Calls⦄ where
  unfoldable pub local_call : Lexeme → ℕ → ℕ → P (Unit {0})
  local_call name arg type = do
    if type_kind type == Kind.any
        then error_at name
            (says "Cannot call a value of type 'any'. Match it to a function type first.")
        else when (not (is_func_kind (type_kind type)))
            (error_at name (cannot_call (type_kind type)))
    args ← arguments unchecked
    consume TokenType.rparen "Expect ')' after arguments."
    emit_op_with code_load arg
    emit_invoke (length args)
    type_push (local_result type)

  unfoldable pub local_variable : Lexeme → ℕ → P (Unit {0})
  local_variable name arg = do
    l ← local_at arg
    call ← match TokenType.lparen
    if call
        then local_call name arg l.type
        else (do emit_op_with code_load arg; set_next_push (some arg); type_push l.type)

  -- The variant `v` of the enum `i`.
  unfoldable pub enum_member : ℕ × ℕ × Variant → P (Unit {0})
  enum_member (i, v, variant) = do
    if variant.has_payload
        then (do
          consume TokenType.lparen "Expect '(' for variant payload."
          expression
          p_type ← type_pop
          when (not (is_assignable variant.payload_type p_type))
              (error_at_previous (says "Variant payload type mismatch."))
          consume TokenType.rparen "Expect ')' after variant payload."
          emit_variant (make_type Kind.enum i 0) v 1)
        else emit_variant (make_type Kind.enum i 0) v 0
    type_push (make_type Kind.enum i 0)

  -- The arguments of the function `i`, and its call; `mismatch` is what a wrong argument reports.
  unfoldable pub function_call : Lexeme → String → ℕ → P (Unit {0})
  function_call name mismatch i = do
    args ←
        arguments
          (λ earlier type. function_at i >>= λ f. check_param mismatch f.param_types earlier type)
    consume TokenType.rparen "Expect ')' after arguments."
    f ← function_at i
    when (not (length args == length f.param_types))
        (error_at name (says "Wrong number of arguments."))
    when (f.return_type == Kind.none) (
        error_at name (
          says
            "Cannot use inferred-return function before its return type is known. Add an explicit return type."))
    s ← get
    if s.compiler.is_go
        then (push_func f.addr Kind.func >> emit_op_with code_go (length args))
        else emit_direct_function_call i
    type_push f.return_type

  -- A function by its name, called or as a value.
  unfoldable pub function_use : Lexeme → String → ℕ → P (Unit {0})
  function_use name mismatch i = do
    call ← match TokenType.lparen
    if call
        then function_call name mismatch i
        else (do f ← function_at i; push_func f.addr Kind.func; type_push Kind.func)

  unfoldable pub struct_call : Lexeme → String → String → String → ℕ → P (Unit {0})
  struct_call name mismatch close wrong_number i = do
    args ← arguments (λ earlier type.
        struct_at i >>= λ d. check_param mismatch (field_types d.fields) earlier type)
    consume TokenType.rparen close
    d ← struct_at i
    when (not (length args == length d.fields)) (error_at name (says wrong_number))
    emit_op_with code_struct (length args)
    type_push Kind.obj

  -- A struct of a namespace, which may stand without arguments.
  unfoldable pub struct_member : Lexeme → ℕ → P (Unit {0})
  struct_member member i = do
    d ← struct_at i
    when (not d.is_public) (error_at member (says "Cannot access private struct."))
    call ← match TokenType.lparen
    when call (
        struct_call member "Namespaced struct field type mismatch." "Expect ')'."
          "Wrong number of fields for namespaced struct instantiation." i)

  unfoldable pub function_member : Lexeme → ℕ → P (Unit {0})
  function_member member i = do
    f ← function_at i
    when (not f.is_public) (error_at member (says "Cannot access private member."))
    function_use member "Namespaced function argument type mismatch." i

  -- `namespace.member`, behind the dot
  unfoldable pub namespace_access : Lexeme → P (Unit {0})
  namespace_access name = do
    consume TokenType.id "Expect member name after '.'."
    s ← get
    let member = s.parser.previous
    let full_name = text name ++ (codes "." ++ text member)
    on_option (enum_variant_from (text name) (text member) 0 s.compiler.enums)
        (demand (ltb (name.length + 1 + member.length) full_name_size)
          >> on_option (function_named full_name s.compiler)
              (on_option (struct_named full_name s.compiler)
                (error_at member (says "Undefined member in namespace."))
                (λ i. struct_member member i))
              (λ i. function_member member i))
        (λ variant. enum_member variant)

  unfoldable pub typeof_expr : P (Unit {0})
  typeof_expr = do
    consume TokenType.lparen "Expect '(' after 'typeOf'."
    expression
    consume TokenType.rparen "Expect ')' after 'typeOf' argument."
    emit_op code_typeof
    t ← type_pop
    type_push Kind.str

  unfoldable pub struct_use : Lexeme → ℕ → P (Unit {0})
  struct_use name i = do
    call ← match TokenType.lparen
    if call
        then struct_call name "Struct field type mismatch." "Expect ')' after struct arguments."
            "Wrong number of fields for struct instantiation." i
        else error_at name (says "Expect '(' after struct name for instantiation.")
