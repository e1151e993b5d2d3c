-- ===== src/Parser/Types.antt =====
-- `parse_type` of src/compiler.c, and `type_from_name`.
use opo.Base.{
  ℕ, zero, suc, ◌+◌, ◌*◌, ◌^◌, true, false, List, [], ◌∷◌, ◌++◌, Option, none, some, String, ◌==◌,
  ltb, if◌then◌else◌, length, codes, bytes_eq,
}
use opo.Kind
use opo.Lexer.{TokenType}
use opo.Parser.Names.{find_struct, find_enum}
use opo.Parser.Tokens.{error_at, advance, consume, match, skip_type, is_type, before_or_eof}
use opo.Parser.{
  on_option, Lexeme, text, says, CompilerState, P, pure, out_of_rounds, ◌>>=◌, ◌>>◌, fail, get,
  demand, Turn, again, finish, iterate,
}
use opo.Types.{type_kind, make_type}

-- The type of a struct or an enum that is declared under a name, structs first.
unfoldable pub named_type : List ℕ → CompilerState → Option ℕ
named_type name c = elim (find_struct name c.structs) [
  | some i ↦ some Kind.obj
  | none ↦ elim (find_enum name c.enums) [ some i ↦ some (make_type Kind.enum i 0) | none ↦ none ]
]

-- A name of the module that is being compiled, put together in a buffer of 256 bytes.
abbrev pub full_name_size : ℕ
full_name_size = 256

unfoldable pub named_with_prefix : List ℕ → P (Option ℕ)
named_with_prefix name = do
  s ← get
  on_option s.active_prefix (pure none) (λ prefix. do
    demand (ltb (length prefix + length name) full_name_size)
    pure (named_type (prefix ++ name) s.compiler))

unfoldable pub or_unknown : Lexeme → Option ℕ → P (Option ℕ)
or_unknown token (some type) = pure (some type)
or_unknown token none = do error_at token (says "Unknown type."); pure none

-- The last branch: the name of a struct or an enum.
unfoldable pub user_type : Lexeme → P (Option ℕ)
user_type token = do
  s ← get
  on_option (named_type (text token) s.compiler)
      (named_with_prefix (text token) >>= or_unknown token) (λ type. pure (some type))

-- `namespace.member`
unfoldable pub member_type : Lexeme → P (Option ℕ)
member_type token = do
  s ← get
  advance
  demand (ltb (token.length + 1 + s.parser.current.length) full_name_size)
  on_option (named_type (text token ++ (codes "." ++ text s.parser.current)) s.compiler)
      (do error_at s.parser.current (says "Unknown type in namespace."); pure none)
      (λ type. pure (some type))

-- The types that are a word alone, except for those of `parse_type`'s later branches.
abbrev pub simple_types : List (List ℕ × ℕ)
simple_types =
    (codes "int", Kind.int)
    ∷ (codes "flt", Kind.flt)
    ∷ (codes "bol", Kind.bool)
    ∷ (codes "str", Kind.str)
    ∷ (codes "err", Kind.err)
    ∷ (codes "void", Kind.void)
    ∷ (codes "fun", Kind.func)
    ∷ (codes "any", Kind.any)
    ∷ []

unfoldable pub look_up : List ℕ → List (List ℕ × ℕ) → Option ℕ
look_up name [] = none
look_up name ((word, type) ∷ rest) = elim (bytes_eq name word) [
  | true ↦ some type
  | false ↦ look_up name rest
]

-- `Option` and `Result`, with or without a parameter.
unfoldable pub wrapped_type : P ℕ → ℕ → String → P (Option ℕ)
wrapped_type inner_type id message = do
  parameter ← match TokenType.langle
  if parameter
      then (do
        inner ← inner_type
        consume TokenType.rangle message
        pure (some (make_type Kind.enum id (type_kind inner))))
      else pure (some (make_type Kind.enum id Kind.any))

unfoldable pub chan_type : P ℕ → P (Option ℕ)
chan_type inner_type = do
  consume TokenType.langle "Expect '<' after 'chan' type."
  element ← inner_type
  consume TokenType.rangle "Expect '>' after chan element type."
  pure (some (make_type Kind.chan (type_kind element) 0))

-- A type that starts with a word; none is `return VAL_VOID` behind an error.
unfoldable pub word_type : P ℕ → Lexeme → P (Option ℕ)
word_type inner_type token =
    if is_type token.type TokenType.imp
    then pure (some Kind.imp)
    else if is_type token.type TokenType.type_
    then pure (some Kind.void)
    else on_option (look_up (text token) simple_types)
        (if bytes_eq (text token) (codes "chan")
          then chan_type inner_type
          else if bytes_eq (text token) (codes "Option")
          then wrapped_type inner_type Kind.option_enum_id "Expect '>' after Option type parameter."
          else if bytes_eq (text token) (codes "Result")
          then wrapped_type inner_type Kind.result_enum_id "Expect '>' after Result type parameter."
          else user_type token)
        (λ type. pure (some type))

unfoldable pub name_or_word : P ℕ → P (Option ℕ)
name_or_word inner_type = do
  s ← get
  advance
  namespace ← match TokenType.dot
  if namespace then member_type s.parser.current else word_type inner_type s.parser.current

unfoldable pub array_type : P ℕ → P (Option ℕ)
array_type inner_type = do
  consume TokenType.rbracket "Expect ']' after '[' for array type."
  element ← inner_type
  pure (some (make_type Kind.obj (type_kind element) 0))

unfoldable pub map_type : P ℕ → P (Option ℕ)
map_type inner_type = do
  key ← inner_type
  consume TokenType.colon "Expect ':' after key type in map type."
  value ← inner_type
  consume TokenType.rbrace "Expect '}' after map type."
  pure (some (make_type Kind.map (type_kind value) (type_kind key)))

-- The type of a function by its return type, where the types have to be equal.
abbrev pub func_of : ℕ → ℕ
func_of ret =
    if ret == Kind.int
    then Kind.func_int
    else if ret == Kind.flt
    then Kind.func_flt
    else if ret == Kind.bool
    then Kind.func_bool
    else if ret == Kind.str
    then Kind.func_str
    else if ret == Kind.void
    then Kind.func_void
    else Kind.func

-- A round of the loop over the parameters of a function type.
unfoldable pub param_turn : P ℕ → Unit {0} → P (Turn (Unit {0}))
param_turn inner_type u = do
  more ← before_or_eof TokenType.rangle
  if more
      then (do param ← inner_type; skip_type TokenType.comma; pure (again tt))
      else pure (finish tt)

unfoldable pub func_type : ℕ → P ℕ → P (Option ℕ)
func_type rounds inner_type = do
  iterate rounds (param_turn inner_type) tt
  consume TokenType.rangle "Expect '>' after function type parameters."
  consume TokenType.arrow "Expect '->' after function type parameters."
  ret ← inner_type
  pure (some (func_of ret))

unfoldable pub base_type : ℕ → P ℕ → P (Option ℕ)
base_type rounds inner_type = do
  bracket ← match TokenType.lbracket
  if bracket then array_type inner_type else (do
    brace ← match TokenType.lbrace
    if brace then map_type inner_type else (do
      angle ← match TokenType.langle
      if angle then func_type rounds inner_type else name_or_word inner_type))

-- `?` and `!` behind a type
unfoldable pub suffix_turn : ℕ → P (Turn ℕ)
suffix_turn type = do
  question ← match TokenType.question
  if question then pure (again (make_type Kind.enum Kind.option_enum_id (type_kind type))) else (do
    bang ← match TokenType.bang
    if bang
        then pure (again (make_type Kind.enum Kind.result_enum_id (type_kind type)))
        else pure (finish type))

-- What follows the type, unless an error returns at once.
unfoldable pub suffixes : ℕ → Option ℕ → P ℕ
suffixes rounds none = pure Kind.void
suffixes rounds (some type) = iterate rounds suffix_turn type

unfoldable pub parse_type : ℕ → P ℕ
parse_type zero = fail out_of_rounds
parse_type (suc rounds) = base_type rounds (parse_type rounds) >>= suffixes (suc rounds)

-- `type_from_name`, for the cases of a `match` on `any`
abbrev pub case_types : List (List ℕ × ℕ)
case_types =
    (codes "int", Kind.int)
    ∷ (codes "flt", Kind.flt)
    ∷ (codes "bol", Kind.bool)
    ∷ (codes "str", Kind.str)
    ∷ (codes "void", Kind.void)
    ∷ (codes "any", Kind.any)
    ∷ (codes "err", Kind.err)
    ∷ (codes "fun", Kind.func)
    ∷ (codes "chan", Kind.chan)
    ∷ (codes "list", Kind.obj + Kind.any * 2 ^ 8)
    ∷ (codes "map", Kind.map + Kind.any * 2 ^ 8 + Kind.any * 2 ^ 16)
    ∷ []

unfoldable pub type_from_name : List ℕ → ℕ
type_from_name name = elim (look_up name case_types) [ some type ↦ type | none ↦ Kind.none ]
