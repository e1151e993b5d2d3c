-- ===== src/Lexer.antt =====
-- The lexer of src/lexer.h and src/lexer.c: the cursor, the token type and the scanning loops.
-- The source text is a list of bytes; a pointer into it is an offset, and reading at or past the
-- end gives the terminating NUL. Scan.antt has the keyword switch and `lexer_next_token`.
pub mod Scan
pub mod Cursor
pub mod Skip
pub mod Next
pub mod Tokens
pub mod Columns
use opo.Base.{
  ℕ, zero, suc, ◌+◌, ◌-◌, Bool, true, false, not, ◌&&◌, ◌||◌, List, [], ◌∷◌, ◌==◌, leb,
  if◌then◌else◌, get_or, length, loop,
}

pub data TokenType : Type 0 where
  int flt str bool id : TokenType
  arrow assign colon semicolon comma question at : TokenType
  lbracket rbracket lbrace rbrace l_arrow lparen rparen langle rangle : TokenType
  plus minus star slash percent bang bang_bang and or : TokenType
  eq_eq bang_eq lte gte dot dot_dot hat : TokenType
  struct enum match some none ok err type_ as_ pub_ imp try catch throw go chan : TokenType
  eof error : TokenType

-- `token.start` points into the source, or at the text of an error message.
pub data Start : Type 0 where
  source_at : ℕ → Start
  message : List ℕ → Start

pub record Token : Type 0 where
  pub type : TokenType
  pub start : Start
  pub length : ℕ
  pub line : ℕ
  pub column : ℕ

pub record Lexer : Type 0 where
  pub source : List ℕ
  pub start : ℕ
  pub current : ℕ
  pub line : ℕ
  pub column : ℕ
  pub token_line : ℕ
  pub token_column : ℕ

unfoldable pub lexer_init : List ℕ → Lexer
lexer_init source = record {
  source = source;
  start = 0;
  current = 0;
  line = 1;
  column = 1;
  token_line = 0;
  token_column = 0;
}

-- `*lexer.current`
abbrev pub peek : Lexer → ℕ
peek l = get_or l.source l.current 0

abbrev pub is_at_end : Lexer → Bool
is_at_end l = peek l == 0

abbrev pub advance : Lexer → Lexer
advance l = record l { current = l.current + 1; column = l.column + 1 }

abbrev pub peek_next : Lexer → ℕ
peek_next l = if is_at_end l then 0 else get_or l.source (l.current + 1) 0

-- Whether the next byte is the expected one, which is then consumed. The column stays.
abbrev pub matches : Lexer → ℕ → Bool
matches l expected = if is_at_end l then false else peek l == expected

abbrev pub consume_match : Lexer → Lexer
consume_match l = record l { current = l.current + 1 }

abbrev pub make_token : Lexer → TokenType → Token
make_token l t = record {
  type = t;
  start = source_at l.start;
  length = l.current - l.start;
  line = l.token_line;
  column = l.token_column;
}

abbrev pub error_token : Lexer → List ℕ → Token
error_token l text = record {
  type = error;
  start = message text;
  length = length text;
  line = l.line;
  column = l.column;
}

-- `isdigit`, `isalpha`, `isalnum` of the C locale
abbrev pub is_digit : ℕ → Bool
is_digit c = leb b'0' c && leb c b'9'

abbrev pub is_alpha : ℕ → Bool
is_alpha c = leb b'a' c && leb c b'z' || leb b'A' c && leb c b'Z'

abbrev pub is_word : ℕ → Bool
is_word c = is_alpha c || is_digit c || c == b'_'

-- A loop moves at least one byte a round and stops at the end, so this many rounds are enough.
abbrev pub rounds : Lexer → ℕ
rounds l = suc (length l.source - l.current)

abbrev pub in_comment : Lexer → Bool
in_comment l = not (peek l == b'\n') && not (is_at_end l)

pub skip_comment : Lexer → Lexer
unfolding loop
skip_comment l = loop in_comment advance (rounds l) l

abbrev pub is_blank : ℕ → Bool
is_blank c = c == b' ' || c == b'\r' || c == b'\t'

abbrev pub skips : Lexer → Bool
skips l = is_blank (peek l) || peek l == b'\n' || peek l == b'#'

-- One turn of the switch: a blank, a newline, or a comment up to its newline.
pub skip_one : Lexer → Lexer
unfolding skip_comment
skip_one l =
    if is_blank (peek l)
    then advance l
    else if peek l == b'\n'
    then advance (record l { line = l.line + 1; column = 1 })
    else skip_comment l

pub skip_whitespace : Lexer → Lexer
unfolding skip_one loop
skip_whitespace l = loop skips skip_one (rounds l) l

abbrev pub in_string : Lexer → Bool
in_string l = not (peek l == b'"') && not (is_at_end l)

pub string_byte : Lexer → Lexer
string_byte l =
    if peek l == b'\n' then advance (record l { line = l.line + 1; column = 1 }) else advance l

pub skip_string : Lexer → Lexer
unfolding loop string_byte
skip_string l = loop in_string string_byte (rounds l) l

pub skip_digits : Lexer → Lexer
unfolding loop
skip_digits l = loop (λ m. is_digit (peek m)) advance (rounds l) l

pub skip_word : Lexer → Lexer
unfolding loop
skip_word l = loop (λ m. is_word (peek m)) advance (rounds l) l
