-- ===== src/Parser/Tokens.antt =====
-- The parser of src/compiler.c: `error_at`, `advance`, `consume`, `match`, and the ends of
-- statements.
use opo.Base.{
  ℕ, zero, suc, Bool, true, false, not, ◌&&◌, List, [], ◌∷◌, ◌++◌, String, ◌==◌, ltb, if◌then◌else◌,
  drop, length,
}
use opo.Lexer.{TokenType, Token, Start}
use opo.Lexer.Scan.{lexer_next_token}
use opo.Parser.{Lexeme, Message, says, lexical, State, P, pure, ok, ◌>>=◌, ◌>>◌, done, get}

-- The value of a token type in its enumeration.
abbrev pub token_number : TokenType → ℕ
token_number TokenType.int = 0
token_number TokenType.flt = 1
token_number TokenType.str = 2
token_number TokenType.bool = 3
token_number TokenType.id = 4
token_number TokenType.arrow = 5
token_number TokenType.assign = 6
token_number TokenType.colon = 7
token_number TokenType.semicolon = 8
token_number TokenType.comma = 9
token_number TokenType.question = 10
token_number TokenType.at = 11
token_number TokenType.lbracket = 12
token_number TokenType.rbracket = 13
token_number TokenType.lbrace = 14
token_number TokenType.rbrace = 15
token_number TokenType.l_arrow = 16
token_number TokenType.lparen = 17
token_number TokenType.rparen = 18
token_number TokenType.langle = 19
token_number TokenType.rangle = 20
token_number TokenType.plus = 21
token_number TokenType.minus = 22
token_number TokenType.star = 23
token_number TokenType.slash = 24
token_number TokenType.percent = 25
token_number TokenType.bang = 26
token_number TokenType.bang_bang = 27
token_number TokenType.and = 28
token_number TokenType.or = 29
token_number TokenType.eq_eq = 30
token_number TokenType.bang_eq = 31
token_number TokenType.lte = 32
token_number TokenType.gte = 33
token_number TokenType.dot = 34
token_number TokenType.dot_dot = 35
token_number TokenType.hat = 36
token_number TokenType.struct = 37
token_number TokenType.enum = 38
token_number TokenType.match = 39
token_number TokenType.some = 40
token_number TokenType.none = 41
token_number TokenType.ok = 42
token_number TokenType.err = 43
token_number TokenType.type_ = 44
token_number TokenType.as_ = 45
token_number TokenType.pub_ = 46
token_number TokenType.imp = 47
token_number TokenType.try = 48
token_number TokenType.catch = 49
token_number TokenType.throw = 50
token_number TokenType.go = 51
token_number TokenType.chan = 52
token_number TokenType.eof = 53
token_number TokenType.error = 54

abbrev pub is_type : TokenType → TokenType → Bool
is_type a b = token_number a == token_number b

abbrev from_start : List ℕ → Start → List ℕ
from_start source (Start.source_at i) = drop i source
from_start source (Start.message text) = text

abbrev pub lexeme_of : List ℕ → Token → Lexeme
lexeme_of source t = record {
  type = t.type;
  start = from_start source t.start;
  length = t.length;
  line = t.line;
  column = t.column;
}

-- Nothing more in panic mode.
unfoldable pub report : Lexeme → Message → State → State
report token message s = if s.parser.panic_mode then s else record s {
  parser = record s.parser { panic_mode = true; had_error = true };
  reports =
      s.reports
      ++ record {
        message = message;
        line = token.line;
        column = token.column;
        prefix = s.active_prefix;
      }
        ∷ [];
}

unfoldable pub error_at : Lexeme → Message → P (Unit {0})
error_at token message s = ok tt (report token message s)

-- `error_at(&parser.previous, …)` and `error_at(&parser.current, …)`
abbrev pub error_at_previous : Message → P (Unit {0})
error_at_previous message = get >>= λ s. error_at s.parser.previous message

abbrev pub error_at_current : Message → P (Unit {0})
error_at_current message = get >>= λ s. error_at s.parser.current message

-- `parser.current = lexer_next_token()`
unfoldable pub fetch : State → State
fetch s =
    let (t, l) = lexer_next_token s.lexer in
    record s { lexer = l; parser = record s.parser { current = lexeme_of s.lexer.source t } }

-- `error_at(&parser.current, parser.current.start)`
unfoldable pub report_lexical : State → State
report_lexical s = report s.parser.current (lexical s.parser.current.start) s

-- The loop over error tokens. Each takes a byte at least, so that it ends within these rounds.
unfoldable pub skip_errors : ℕ → P (Unit {0})
skip_errors zero s = ok tt s
skip_errors (suc rounds) s =
    let rest = skip_errors rounds (report_lexical (fetch s)) in
    if is_type (fetch s).parser.current.type TokenType.error then rest else ok tt (fetch s)

unfoldable pub advance : P (Unit {0})
advance s =
    skip_errors (suc (suc (length s.lexer.source)))
      (record s { parser = record s.parser { previous = s.parser.current } })

unfoldable pub current_is : TokenType → P Bool
current_is type s = ok (is_type s.parser.current.type type) s

unfoldable pub consume : TokenType → String → P (Unit {0})
consume type message = do
  here ← current_is type
  if here then advance else error_at_current (says message)

unfoldable pub match : TokenType → P Bool
match type = do here ← current_is type; if here then (advance >> pure true) else pure false

-- `if (parser.current.type == type) advance();`
abbrev pub skip_type : TokenType → P (Unit {0})
skip_type type = do here ← match type; done

unfoldable pub token_can_end_statement : TokenType → Bool
token_can_end_statement TokenType.int = true
token_can_end_statement TokenType.flt = true
token_can_end_statement TokenType.str = true
token_can_end_statement TokenType.bool = true
token_can_end_statement TokenType.id = true
token_can_end_statement TokenType.none = true
token_can_end_statement TokenType.rparen = true
token_can_end_statement TokenType.rbracket = true
token_can_end_statement TokenType.rbrace = true
token_can_end_statement TokenType.bang_bang = true
token_can_end_statement TokenType.dot = true
token_can_end_statement TokenType.dot_dot = true
token_can_end_statement other = false

unfoldable pub has_implicit_terminator : P Bool
has_implicit_terminator s =
    ok
      (ltb s.parser.previous.line s.parser.current.line
        && token_can_end_statement s.parser.previous.type)
      s

unfoldable pub match_statement_terminator : P Bool
match_statement_terminator = do
  semicolon ← match TokenType.semicolon
  if semicolon then pure true else has_implicit_terminator

-- The body of a loop over the tokens up to a closing one, or to the end of the text as well.
unfoldable pub before : TokenType → P Bool
before type = do here ← current_is type; pure (not here)

unfoldable pub before_or_eof : TokenType → P Bool
before_or_eof type = do
  here ← current_is type
  end ← current_is TokenType.eof
  pure (not here && not end)
