-- ===== src/Parser/Functions.antt =====
-- `parse_function` of src/compiler.c, capture lists, and `bracket_expression`.
use opo.Base.{
  ℕ, zero, suc, Bool, false, not, List, [], ◌∷◌, ◌++◌, Option, none, some, ltb, if◌then◌else◌,
  length, map,
}
use opo.Kind
use opo.Lexer.{TokenType, Lexer}
use opo.Lexer.Scan.{lexer_next_token}
use opo.Parser.Names.{
  find_function, function_at, set_function, resolve_local, local_at, patch_all, blank_function,
}
use opo.Parser.Tokens.{is_type, error_at, consume, match, skip_type, before}
use opo.Parser.Types.{parse_type}
use opo.Parser.{
  on_option, Lexeme, text, says, Function, CaptureSpec, P, out_of_rounds, pure, ◌>>=◌, ◌>>◌, fail,
  get, demand, with_compiler, Turn, again, finish, iterate,
}

-- The names and commas from a token on, up to `]` and a `<` behind it.
unfoldable pub captures_ahead : ℕ → TokenType → Lexer → Option Bool
captures_ahead zero here l = none
captures_ahead (suc rounds) here l =
    let (first, l₁) = lexer_next_token l in
    let (second, l₂) = lexer_next_token l₁ in
    let after_name = captures_ahead rounds first.type l₁ in
    let after_comma = captures_ahead rounds second.type l₂ in
    if is_type here TokenType.rbracket
    then some (is_type first.type TokenType.langle)
    else if is_type here TokenType.eof
    then some false
    else if not (is_type here TokenType.id)
    then some false
    else if is_type first.type TokenType.comma
    then after_comma
    else if is_type first.type TokenType.rbracket
    then after_name
    else some false

-- The lexer and the current token are put back, so that only the answer is left.
unfoldable pub is_capture_list_ahead : ℕ → P Bool
is_capture_list_ahead rounds = do
  s ← get
  on_option (captures_ahead rounds s.parser.current.type s.lexer) (fail out_of_rounds) pure

abbrev pub max_captures : ℕ
max_captures = 16

-- The captures with the one of a name, unless there is no such local or no room.
unfoldable pub with_capture : Lexeme → List CaptureSpec → P (List CaptureSpec)
with_capture name captures = do
  local ← resolve_local (text name)
  on_option local
      (error_at name (says "Can only capture local variables from the parent scope.")
        >> pure captures)
      (λ i.
        if ltb (length captures) max_captures
        then (do
          l ← local_at i
          pure (captures ++ record { name = name; type = l.type; local_index = i } ∷ []))
        else (error_at name (says "Too many captured variables.") >> pure captures))

unfoldable pub capture_turn : List CaptureSpec → P (Turn (List CaptureSpec))
capture_turn captures = do
  more ← before TokenType.rbracket
  if more
      then (do
        consume TokenType.id "Expect variable name in capture list."
        s ← get
        next ← with_capture s.parser.previous captures
        comma ← match TokenType.comma
        pure (if comma then again next else finish next))
      else pure (finish captures)

unfoldable pub parse_capture_list : ℕ → P (List CaptureSpec)
parse_capture_list rounds = do
  captures ← iterate rounds capture_turn []
  consume TokenType.rbracket "Expect ']' after capture list."
  pure captures

-- `params[16]` and `param_types[16]`
abbrev pub max_params : ℕ
max_params = 16

unfoldable pub param_turn : ℕ → List (Lexeme × ℕ) → P (Turn (List (Lexeme × ℕ)))
param_turn rounds params = do
  more ← before TokenType.rangle
  if more
      then (do
        consume TokenType.id "Expect param name"
        s ← get
        demand (ltb (length params) max_params)
        consume TokenType.colon "Expect :"
        type ← parse_type rounds
        skip_type TokenType.comma
        pure (again (params ++ (s.parser.previous, type) ∷ [])))
      else pure (finish params)

-- What stands in front of the body: the parameters, a return type, a name.
pub record Header : Type 0 where
  pub params : List (Lexeme × ℕ)
  pub explicit : Option ℕ
  pub name : Option Lexeme

unfoldable pub function_name : P (Option Lexeme)
function_name = do
  colon ← match TokenType.colon
  if colon
      then (do consume TokenType.id "Expect function name"; s ← get; pure (some s.parser.previous))
      else pure none

unfoldable pub explicit_return_type : ℕ → P (Option ℕ)
explicit_return_type rounds = do
  arrow ← match TokenType.arrow
  if arrow then (do type ← parse_type rounds; pure (some type)) else pure none

unfoldable pub function_header : ℕ → P Header
function_header rounds = do
  params ← iterate rounds (param_turn rounds) []
  consume TokenType.rangle "Expect '>' after parameters."
  explicit ← explicit_return_type rounds
  name ← function_name
  pure (record { params = params; explicit = explicit; name = name })

abbrev pub declared_type : Option ℕ → ℕ
declared_type none = Kind.none
declared_type (some type) = type

-- `functions[256]`
abbrev pub max_functions : ℕ
max_functions = 256

-- The entry of a function, which a new one gets at the end of the table.
unfoldable pub function_entry : Function → P ℕ
function_entry new = do
  s ← get
  on_option (find_function new.name s.compiler.functions)
      (do
        demand (ltb (length s.compiler.functions) max_functions)
        with_compiler (λ c. record c { functions = c.functions ++ new ∷ [] })
        pure (length s.compiler.functions))
      pure

abbrev pub param_types : Header → List ℕ
param_types h = map (λ (p : Lexeme × ℕ). p.1) h.params

-- A function whose body stands at an address: the calls that were waiting for it are patched.
unfoldable pub define_function : List ℕ → ℕ → Bool → Header → P ℕ
define_function name addr is_public h = do
  i ← function_entry (record blank_function { name = name })
  f ← function_at i
  patch_all f.pending_call_patches addr
  set_function i (record f {
    addr = some addr;
    return_type = declared_type h.explicit;
    param_types = param_types h;
    is_public = is_public;
    pending_call_patches = [];
  })
  pure i
