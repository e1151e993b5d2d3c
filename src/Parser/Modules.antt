-- ===== src/Parser/Modules.antt =====
-- `compile_internal` and `handle_import` of src/compiler.c: the definitions of a module, and the
-- modules that it imports.
use opo.Base.{
  ℕ, zero, suc, ◌+◌, Bool, true, false, not, ◌||◌, List, [], ◌∷◌, ◌++◌, Option, none, some, ◌==◌,
  ltb, leb, if◌then◌else◌, length, take, drop, get_or, set, codes, bytes_eq,
}
use opo.Kind
use opo.Lexer.{TokenType, lexer_init}
use opo.Parser.Access.{enums_max}
use opo.Parser.Bodies.{parse_function}
use opo.Parser.Predeclare.{structs_max, defined_name, predeclare_module_functions}
use opo.Parser.Tokens.{
  error_at, error_at_current, advance, consume, match, skip_type, current_is, before,
}
use opo.Parser.Types.{parse_type}
use opo.Parser.Values.{unquoted}
use opo.Parser.{
  on_option, text, Lexeme, says, Field, Variant, State, P, pure, ◌>>=◌, ◌>>◌, fail, get, when,
  demand, modify, with_compiler, out_of_rounds, Calls, Turn, again, finish, iterate,
}

-- `compiler_read_file`: the contents of a file that can be read.
pub record Files : Type 0 where
  pub read_file : List ℕ → Option (List ℕ)

-- `fields[16]` and `variants[16]`
abbrev pub members_max : ℕ
members_max = 16

unfoldable pub field_turn : ℕ → List Field → P (Turn (List Field))
field_turn rounds fields = do
  more ← before TokenType.rbracket
  if more
      then (do
        consume TokenType.id "Expect field name."
        s ← get
        demand (ltb (length fields) members_max)
        consume TokenType.colon "Expect ':'."
        type ← parse_type rounds
        skip_type TokenType.comma
        pure (again (fields ++ record { name = text s.parser.previous; type = type } ∷ [])))
      else pure (finish fields)

-- A new entry, which has no name while its fields are read.
unfoldable pub define_struct : ℕ → Bool → Option (List ℕ) → P (Unit {0})
define_struct rounds is_public prefix = do
  consume TokenType.lbracket "Expect '[' after 'struct'."
  s ← get
  let i = length s.compiler.structs
  demand (ltb i structs_max)
  let entry = λ (name : List ℕ) (fields : List Field). with_compiler (λ c. record c {
    structs = set c.structs i (record { name = name; fields = fields; is_public = is_public });
  })
  with_compiler (λ c. record c {
    structs = c.structs ++ record { name = []; fields = []; is_public = is_public } ∷ [];
  })
  fields ← iterate rounds (field_turn rounds) []
  entry [] fields
  consume TokenType.rbracket "Expect ']' after struct fields."
  consume TokenType.assign "Expect '=>' after struct definition."
  consume TokenType.id "Expect struct name."
  name ← defined_name prefix
  entry name fields
  consume TokenType.colon "Expect ':'."
  consume TokenType.type_ "Expect 'type' after struct name."

-- The payload type of a variant, if it has one.
unfoldable pub variant_payload : ℕ → P (Option ℕ)
variant_payload rounds = do
  paren ← match TokenType.lparen
  if paren
      then (do
        type ← parse_type rounds
        consume TokenType.rparen "Expect ')' after variant payload type."
        pure (some type))
      else pure none

abbrev pub variant_with : List ℕ → Option ℕ → Variant
variant_with name none = record { name = name; payload_type = Kind.void; has_payload = false }
variant_with name (some type) = record { name = name; payload_type = type; has_payload = true }

unfoldable pub variant_turn : ℕ → List Variant → P (Turn (List Variant))
variant_turn rounds variants = do
  more ← before TokenType.rbracket
  if more
      then (do
        consume TokenType.id "Expect variant name."
        s ← get
        demand (ltb (length variants) members_max)
        payload ← variant_payload rounds
        skip_type TokenType.comma
        pure (again (variants ++ variant_with (text s.parser.previous) payload ∷ [])))
      else pure (finish variants)

unfoldable pub define_enum : ℕ → Bool → Option (List ℕ) → P (Unit {0})
define_enum rounds is_public prefix = do
  consume TokenType.lbracket "Expect '[' after 'enum'."
  s ← get
  let i = length s.compiler.enums
  demand (ltb i enums_max)
  let entry = λ (name : List ℕ) (variants : List Variant). with_compiler (λ c. record c {
    enums = set c.enums i (record { name = name; variants = variants; is_public = is_public });
  })
  with_compiler (λ c. record c {
    enums = c.enums ++ record { name = []; variants = []; is_public = is_public } ∷ [];
  })
  variants ← iterate rounds (variant_turn rounds) []
  entry [] variants
  consume TokenType.rbracket "Expect ']' after enum variants."
  consume TokenType.assign "Expect '=>' after enum definition."
  consume TokenType.id "Expect enum name."
  name ← defined_name prefix
  entry name variants
  consume TokenType.colon "Expect ':'."
  consume TokenType.type_ "Expect 'type' after enum name."

-- `strstr(text, word) != NULL`
unfoldable pub contains : List ℕ → List ℕ → Bool
contains word [] = bytes_eq word []
contains word (b ∷ bs) = bytes_eq word (take (length word) (b ∷ bs)) || contains word bs

-- `resolve_path`, into a buffer of 1024 bytes
unfoldable pub resolved : List ℕ → State → List ℕ
resolved rel_path s =
    if bytes_eq (take 4 rel_path) (codes "std/")
    then if contains (codes ".opo") rel_path
      then s.std_base_dir ++ (codes "/" ++ rel_path)
      else s.std_base_dir ++ (codes "/" ++ (rel_path ++ codes ".opo"))
    else if get_or rel_path 0 0 == b'/'
    then rel_path
    else s.root_base_dir ++ (codes "/" ++ rel_path)

unfoldable pub resolve_path : List ℕ → P (List ℕ)
resolve_path rel_path = do
  s ← get
  demand (ltb (length (resolved rel_path s)) 1024)
  pure (resolved rel_path s)

unfoldable pub is_open : List ℕ → List (List ℕ) → Bool
is_open path [] = false
is_open path (p ∷ paths) = bytes_eq p path || is_open path paths

-- `compiled_modules[64]`, `path[256]` and `prefix[64]`
abbrev pub modules_max : ℕ
modules_max = 64

abbrev pub leave_module : State → State → State
leave_module old s = record s {
  lexer = old.lexer;
  parser = old.parser;
  active_prefix = old.active_prefix;
  compilation_stack = drop 1 s.compilation_stack;
}

-- An imported module, with `compile` for its definitions.
unfoldable pub compile_module :
    ℕ → (Option (List ℕ) → P (Unit {0})) → List ℕ → List ℕ → P (Unit {0})
compile_module rounds compile source prefix = do
  old ← get
  predeclare_module_functions rounds source (some prefix)
  modify (λ s. record s { lexer = lexer_init source })
  advance
  modify (λ s. record s { active_prefix = some prefix })
  compile (some prefix)
  modify (leave_module old)

module _ ⦃f : Files⦄ where
  unfoldable pub handle_import :
      ℕ → (Option (List ℕ) → P (Unit {0})) → Lexeme → Lexeme → P (Unit {0})
  handle_import rounds compile path_token alias_token = do
    demand (ltb (length (unquoted path_token)) 256)
    full_path ← resolve_path (unquoted path_token)
    s ← get
    if is_open full_path s.compilation_stack
        then error_at path_token (says "Circular import detected.")
        else if leb modules_max s.compiled_modules_count
        then error_at path_token (says "Too many modules.")
        else (do
          modify (λ s. record s {
            compiled_modules_count = s.compiled_modules_count + 1;
            compilation_stack = full_path ∷ s.compilation_stack;
          })
          on_option (f.read_file full_path)
              (error_at path_token (says "Could not read imported file."))
              (λ source. do
                demand (ltb (length (text alias_token) + 1) 64)
                compile_module rounds compile source (text alias_token ++ codes ".")))

-- `"path" => alias : imp`; whether the import is made.
unfoldable pub import_clause : (Lexeme → Lexeme → P (Unit {0})) → Lexeme → P Bool
import_clause import path_token = do
  arrow ← match TokenType.assign
  if arrow
      then (do
        consume TokenType.id "Expect alias after =>"
        s ← get
        consume TokenType.colon "Expect :"
        imp ← match TokenType.imp
        when imp (import path_token s.parser.previous)
        pure imp)
      else pure false

module _ ⦃c : Calls⦄ where
  -- What stands at the top level, behind `pub`.
  unfoldable pub definition :
      (Lexeme → Lexeme → P (Unit {0})) → Bool → Option (List ℕ) → P (Unit {0})
  definition import is_public prefix = do
    struct ← match TokenType.struct
    if struct then define_struct c.rounds is_public prefix else (do
      enum ← match TokenType.enum
      if enum then define_enum c.rounds is_public prefix else (do
        s ← get
        angle ← current_is TokenType.langle
        str ← current_is TokenType.str
        if angle
            then (advance >> parse_function false is_public prefix)
            else if str
            then (do
              advance
              imported ← import_clause import s.parser.current
              when (not imported) (
                  error_at s.parser.current
                    (says "Unexpected string at top level. Only imports are allowed.")))
            else (do
              error_at_current (says "Expect function, struct, or import at top level.")
              advance)))

  unfoldable pub definition_turn :
      (Lexeme → Lexeme → P (Unit {0})) → Option (List ℕ) → Unit {0} → P (Turn (Unit {0}))
  definition_turn import prefix u = do
    more ← before TokenType.eof
    if more
        then (do
          semicolon ← match TokenType.semicolon
          when (not semicolon)
              (do is_public ← match TokenType.pub_; definition import is_public prefix)
          pure (again tt))
        else pure (finish tt)

  -- With a level for every module inside another.
  unfoldable pub compile_internal : ⦃f : Files⦄ → ℕ → Option (List ℕ) → P (Unit {0})
  compile_internal zero prefix = fail out_of_rounds
  compile_internal (suc levels) prefix =
      iterate c.rounds (definition_turn (handle_import c.rounds (compile_internal levels)) prefix)
        tt
