-- ===== src/Parser/Predeclare.antt =====
-- `predeclare_module_functions` of src/compiler.c: a first pass over a module, which enters its
-- structs, enums and functions without their contents.
use opo.Base.{
  ℕ, ◌+◌, ◌-◌, Bool, false, not, ◌&&◌, List, [], ◌∷◌, ◌++◌, Option, none, ltb, if◌then◌else◌,
  length,
}
use opo.Lexer.{TokenType, lexer_init}
use opo.Parser.Access.{enums_max}
use opo.Parser.Functions.{max_params, function_entry, explicit_return_type, declared_type}
use opo.Parser.Names.{
  qualify_name, find_struct, find_enum, function_at, set_function, blank_function,
}
use opo.Parser.Tokens.{is_type, advance, consume, match, skip_type, current_is, before}
use opo.Parser.Types.{parse_type}
use opo.Parser.{
  on_option, text, Parser, P, pure, ◌>>=◌, ◌>>◌, done, get, when, demand, modify, with_compiler,
  Turn, again, finish, iterate,
}

-- `structs[64]`
abbrev pub structs_max : ℕ
structs_max = 64

-- A token of a block, at a depth of brackets.
unfoldable pub skip_turn : ℕ → P (Turn ℕ)
skip_turn depth = do
  s ← get
  let type = s.parser.current.type
  if ltb 0 depth && not (is_type type TokenType.eof)
      then (do
        advance
        pure (
            again (
              if is_type type TokenType.lbracket
              then depth + 1
              else if is_type type TokenType.rbracket
              then depth - 1
              else depth)))
      else pure (finish depth)

unfoldable pub skip_bracket_block_tokens : ℕ → P (Unit {0})
skip_bracket_block_tokens rounds = do depth ← iterate rounds skip_turn 1; done

-- The name behind a definition of a struct or an enum, in its module.
unfoldable pub defined_name : Option (List ℕ) → P (List ℕ)
defined_name prefix = do s ← get; pure (qualify_name (text s.parser.previous) prefix)

-- A struct of the name without fields, unless there is one.
unfoldable pub enter_struct : List ℕ → Bool → P (Unit {0})
enter_struct name is_public = get >>= λ s.
    on_option (find_struct name s.compiler.structs)
      (do
        demand (ltb (length s.compiler.structs) structs_max)
        with_compiler (λ c. record c {
          structs = c.structs ++ record { name = name; fields = []; is_public = is_public } ∷ [];
        }))
      (λ i. done)

unfoldable pub predeclare_struct : ℕ → Bool → Option (List ℕ) → P (Unit {0})
predeclare_struct rounds is_public prefix = do
  consume TokenType.lbracket "Expect '[' after 'struct'."
  skip_bracket_block_tokens rounds
  consume TokenType.assign "Expect '=>' after struct definition."
  consume TokenType.id "Expect struct name."
  name ← defined_name prefix
  enter_struct name is_public
  consume TokenType.colon "Expect ':'."
  consume TokenType.type_ "Expect 'type' after struct name."

unfoldable pub enter_enum : List ℕ → Bool → P (Unit {0})
enter_enum name is_public = get >>= λ s.
    on_option (find_enum name s.compiler.enums)
      (do
        demand (ltb (length s.compiler.enums) enums_max)
        with_compiler (λ c. record c {
          enums = c.enums ++ record { name = name; variants = []; is_public = is_public } ∷ [];
        }))
      (λ i. done)

unfoldable pub predeclare_enum : ℕ → Bool → Option (List ℕ) → P (Unit {0})
predeclare_enum rounds is_public prefix = do
  consume TokenType.lbracket "Expect '[' after 'enum'."
  skip_bracket_block_tokens rounds
  consume TokenType.assign "Expect '=>' after enum definition."
  consume TokenType.id "Expect enum name."
  name ← defined_name prefix
  enter_enum name is_public
  consume TokenType.colon "Expect ':'."
  consume TokenType.type_ "Expect 'type' after enum name."

-- A parameter, with the types of those before it.
unfoldable pub type_turn : ℕ → List ℕ → P (Turn (List ℕ))
type_turn rounds types = do
  more ← before TokenType.rangle
  if more
      then (do
        consume TokenType.id "Expect param name"
        consume TokenType.colon "Expect :"
        type ← parse_type rounds
        demand (ltb (length types) max_params)
        skip_type TokenType.comma
        pure (again (types ++ type ∷ [])))
      else pure (finish types)

-- A function of the name, whose address is not known yet if it is a new one.
unfoldable pub enter_signature : List ℕ → ℕ → List ℕ → Bool → P (Unit {0})
enter_signature name return_type param_types is_public = do
  i ← function_entry (record blank_function { name = name; addr = none })
  f ← function_at i
  set_function i
      (record f { return_type = return_type; param_types = param_types; is_public = is_public })

unfoldable pub predeclare_function : ℕ → Bool → Option (List ℕ) → P (Unit {0})
predeclare_function rounds is_public prefix = do
  advance
  types ← iterate rounds (type_turn rounds) []
  consume TokenType.rangle "Expect '>' after parameters."
  explicit ← explicit_return_type rounds
  named ← match TokenType.colon
  when named (do
    consume TokenType.id "Expect function name"
    name ← defined_name prefix
    enter_signature name (declared_type explicit) types is_public)
  consume TokenType.lbracket "Expect '[' before function body."
  skip_bracket_block_tokens rounds

unfoldable pub predeclare_turn : ℕ → Option (List ℕ) → Unit {0} → P (Turn (Unit {0}))
predeclare_turn rounds prefix u = do
  more ← before TokenType.eof
  if more
      then (do
        is_public ← match TokenType.pub_
        struct ← match TokenType.struct
        if struct then predeclare_struct rounds is_public prefix else (do
          enum ← match TokenType.enum
          if enum then predeclare_enum rounds is_public prefix else (do
            angle ← current_is TokenType.langle
            if angle then predeclare_function rounds is_public prefix else advance))
        pure (again tt))
      else pure (finish tt)

abbrev pub no_errors : Parser → Parser
no_errors p = record p { had_error = false; panic_mode = false }

-- The lexer, the parser and the prefix are put back; what was entered stays.
unfoldable pub predeclare_module_functions : ℕ → List ℕ → Option (List ℕ) → P (Unit {0})
predeclare_module_functions rounds source prefix = do
  old ← get
  modify (λ s. record s {
    lexer = lexer_init source;
    parser = no_errors s.parser;
    active_prefix = prefix;
  })
  advance
  iterate rounds (predeclare_turn rounds prefix) tt
  modify
      (λ s. record s { lexer = old.lexer; parser = old.parser; active_prefix = old.active_prefix })
