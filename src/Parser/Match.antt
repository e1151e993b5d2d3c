-- ===== src/Parser/Match.antt =====
-- The `match` statement of src/compiler.c.
use opo.Base.{
  ℕ, ◌+◌, ◌-◌, Bool, true, false, not, ◌&&◌, ◌||◌, List, [], ◌∷◌, ◌++◌, Option, none, some, ◌==◌,
  ltb, if◌then◌else◌, length, get_or, codes, bytes_eq,
}
use opo.Compiler.{emit_byte}
use opo.Kind
use opo.Lexer.{TokenType}
use opo.OpCode.{
  code_check_type, code_check_variant, code_jump_if_f, code_jump, code_get_enum_payload,
  code_as_type, code_store, code_pop,
}
use opo.Parser.Access.{enum_at, blank_variant}
use opo.Parser.Names.{
  type_push, type_pop, find_struct, find_variant, add_local, emit_jump, patch_here, patch_all,
  emit_word32, word_of,
}
use opo.Parser.Statement.{guarded_local, set_guard}
use opo.Parser.Tokens.{error_at, error_at_previous, advance, consume, match, before_or_eof}
use opo.Parser.Types.{type_from_name}
use opo.Parser.{
  on_option, Lexeme, text, says, EnumDef, P, pure, undefined, ◌>>=◌, ◌>>◌, fail, done, get, when,
  demand, with_compiler, code_count, emit, emit_op, emit_op_with, Calls, expression, Turn, again,
  finish, iterate,
}
use opo.Types.{type_kind, type_sub, type_key, make_type}

-- By what the cases are told apart: the type of an `any`, or the variant of an enum.
pub data Subject : Type 0 where
  any_value option_value result_value : Subject
  enum_value : EnumDef → Subject

unfoldable pub subject_of : ℕ → P Subject
subject_of value_type =
    if type_kind value_type == Kind.any
    then pure any_value
    else if type_sub value_type == Kind.option_enum_id
    then pure option_value
    else if type_sub value_type == Kind.result_enum_id
    then pure result_value
    else (do ed ← enum_at (type_sub value_type); pure (enum_value ed))

-- `v_idx` and `any_target_type`
pub record Case : Type 0 where
  pub variant : Option ℕ
  pub target : ℕ

abbrev pub a_variant : Option ℕ → Case
a_variant v = record { variant = v; target = Kind.none }

unfoldable pub any_case : Lexeme → P Case
any_case token = do
  s ← get
  let named = type_from_name (text token)
  let target =
      if named == Kind.none
      then elim (find_struct (text token) s.compiler.structs) [
        | some i ↦ Kind.obj
        | none ↦ Kind.none
      ]
      else named
  when (target == Kind.none) (error_at token (says "Unknown type for 'any' match."))
  pure (record { variant = none; target = target })

unfoldable pub case_of : Lexeme → Subject → P Case
case_of token any_value = any_case token
case_of token option_value =
    if bytes_eq (text token) (codes "some")
    then pure (a_variant (some 1))
    else if bytes_eq (text token) (codes "none")
    then pure (a_variant (some 0))
    else (error_at token (says "Expected 'some' or 'none' for Option match.")
        >> pure (a_variant none))
case_of token result_value =
    if bytes_eq (text token) (codes "ok")
    then pure (a_variant (some 1))
    else if bytes_eq (text token) (codes "err")
    then pure (a_variant (some 0))
    else (error_at token (says "Expected 'ok' or 'err' for Result match.") >> pure (a_variant none))
case_of token (enum_value ed) =
    on_option (find_variant (text token) ed.variants)
      (error_at token (says "Unknown variant for this Enum.") >> pure (a_variant none))
      (λ v. pure (a_variant (some v)))

-- `covered[16]` and the other arrays of that length
abbrev pub max_cases : ℕ
max_cases = 16

unfoldable pub is_in : ℕ → List ℕ → Bool
is_in v [] = false
is_in v (w ∷ covered) = w == v || is_in v covered

-- The variants covered so far, in a list as long as their count, which counts one twice that is
-- named twice.
unfoldable pub cover : Lexeme → Option ℕ → List ℕ → P (List ℕ)
cover token none covered = pure covered
cover token (some v) covered =
    if ltb v max_cases
    then (do
      when (is_in v covered) (error_at token (says "Variant already covered."))
      pure (v ∷ covered))
    else pure covered

abbrev pub has_payload : EnumDef → Option ℕ → P Bool
has_payload ed none = fail undefined
has_payload ed (some v) = pure (get_or ed.variants v blank_variant).has_payload

-- What a case with a binding, and one without, has to be.
unfoldable pub check_binding : Lexeme → Subject → Case → P (Unit {0})
check_binding token any_value c =
    when (c.target == Kind.void) (error_at token (says "'void' variant cannot have a payload."))
check_binding token option_value c =
    on_option c.variant (error_at token (says "Only 'some' variant can have a payload."))
      (λ v. when (not (v == 1)) (error_at token (says "Only 'some' variant can have a payload.")))
check_binding token result_value c = done
check_binding token (enum_value ed) c = do
  payload ← has_payload ed c.variant
  when (not payload) (error_at token (says "Variant does not have a payload."))

-- On a Result the test of a case without a binding reads far behind the table of the enums.
unfoldable pub check_no_binding : Lexeme → Subject → Case → P (Unit {0})
check_no_binding token any_value c =
    when (not (c.target == Kind.void))
      (error_at token (says "Type variant requires a payload binding."))
check_no_binding token option_value c =
    on_option c.variant (done)
      (λ v. when (v == 1) (error_at token (says "'some' requires a payload binding.")))
check_no_binding token result_value c = fail undefined
check_no_binding token (enum_value ed) c = do
  payload ← has_payload ed c.variant
  when payload (error_at token (says "Variant requires a payload binding."))

-- The name in parentheses behind a variant, if there is one, checked.
unfoldable pub binding : Lexeme → Subject → Case → P (Option Lexeme)
binding token subject c = do
  paren ← match TokenType.lparen
  if paren
      then (do
        consume TokenType.id "Expect binding name."
        s ← get
        consume TokenType.rparen "Expect ')' after binding."
        check_binding token subject c
        pure (some s.parser.previous))
      else (check_no_binding token subject c >> pure none)

abbrev pub is_any : Subject → Bool
is_any any_value = true
is_any other = false

unfoldable pub emit_check : Subject → Case → P (Unit {0})
emit_check any_value c = emit_op code_check_type >> emit (emit_byte (type_kind c.target))
emit_check other c = emit_op code_check_variant >> emit_word32 (word_of 32 c.variant)

unfoldable pub payload_type : ℕ → Subject → Case → ℕ
payload_type value_type any_value c = c.target
payload_type value_type option_value c = make_type (type_key value_type) 0 0
payload_type value_type result_value c = elim c.variant [
  | none ↦ Kind.str
  | some v ↦ if v == 1 then make_type (type_key value_type) 0 0 else Kind.str
]
payload_type value_type (enum_value ed) c = elim c.variant [
  | none ↦ Kind.void
  | some v ↦ (get_or ed.variants v blank_variant).payload_type
]

-- The payload goes to a new local.
unfoldable pub bind_payload : ℕ → Subject → Case → Option Lexeme → P (Unit {0})
bind_payload value_type subject c none = done
bind_payload value_type subject c (some name) = do
  let p_type = payload_type value_type subject c
  emit_op code_get_enum_payload
  when (is_any subject) (emit_op code_as_type >> emit_word32 p_type)
  add_local name p_type
  s ← get
  emit_op_with code_store (s.compiler.local_count - 1)

-- The cases so far: the variants that they cover, and the jumps to the end.
pub record Cases : Type 0 where
  pub covered : List ℕ
  pub end_jumps : List ℕ

module _ ⦃c : Calls⦄ where
  -- A case, behind its variant and binding.
  unfoldable pub case_body : ℕ → Option ℕ → Subject → Case → Option Lexeme → P ℕ
  case_body value_type matched_local subject case name = do
    emit_check subject case
    next_case ← emit_jump code_jump_if_f
    outer ← get
    with_compiler (λ c. record c { scope_depth = c.scope_depth + 1 })
    old ← guarded_local matched_local
    set_guard matched_local (outer.compiler.scope_depth + 1) case.variant
    bind_payload value_type subject case name
    c.block
    t ← type_pop
    set_guard matched_local old.guarded_depth old.guarded_variant
    end_jump ← emit_jump code_jump
    patch_here (next_case + 1)
    with_compiler (λ c. record c {
      local_count = outer.compiler.local_count;
      scope_depth = c.scope_depth - 1;
    })
    pure end_jump

  unfoldable pub case_turn : ℕ → Option ℕ → Subject → Cases → P (Turn Cases)
  case_turn value_type matched_local subject cases = do
    more ← before_or_eof TokenType.rbracket
    if more
        then (do
          s ← get
          advance
          case ← case_of s.parser.current subject
          covered ← cover s.parser.current case.variant cases.covered
          name ← binding s.parser.current subject case
          demand (ltb (length cases.end_jumps) max_cases)
          end_jump ← case_body value_type matched_local subject case name
          pure (
              again
                (record { covered = covered; end_jumps = cases.end_jumps ++ (end_jump + 1) ∷ [] })))
        else pure (finish cases)

unfoldable pub check_exhaustive : Subject → ℕ → P (Unit {0})
check_exhaustive any_value count = done
check_exhaustive option_value count =
    when (ltb count 2) (error_at_previous (says "Match not exhaustive. Missing 'some' or 'none'."))
check_exhaustive result_value count =
    when (ltb count 2) (error_at_previous (says "Match not exhaustive. Missing 'ok' or 'err'."))
check_exhaustive (enum_value ed) count =
    when (ltb count (length ed.variants)) (error_at_previous (says "Match not exhaustive."))

module _ ⦃c : Calls⦄ where
  unfoldable pub match_statement : P (Unit {0})
  match_statement = do
    expression
    value_type ← type_pop
    s ← get
    when (not (type_kind value_type == Kind.enum) && not (type_kind value_type == Kind.any))
        (error_at_previous (says "Can only match on Enums, Options, or 'any'."))
    consume TokenType.lbracket "Expect '[' after match expression."
    subject ← subject_of value_type
    cases ←
        iterate c.rounds (case_turn value_type s.popped_local subject)
          (record { covered = []; end_jumps = [] })
    consume TokenType.rbracket "Expect ']' after match cases."
    check_exhaustive subject (length cases.covered)
    end ← code_count
    patch_all cases.end_jumps end
    emit_op code_pop
    type_push Kind.void
