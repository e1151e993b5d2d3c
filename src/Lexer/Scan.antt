-- ===== src/Lexer/Scan.antt =====
-- The keyword switch and `lexer_next_token` of src/lexer.c.
pub mod Keywords
use opo.Base.{
  ℕ, ◌+◌, ◌-◌, ◌&&◌, ◌||◌, List, ◌==◌, ltb, if◌then◌else◌, get_or, length, take, drop, codes,
  bytes_eq,
}
use opo.Lexer.{
  TokenType, int, flt, str, bool, id, arrow, assign, colon, semicolon, comma, question, at,
  lbracket, rbracket, lbrace, rbrace, l_arrow, lparen, rparen, langle, rangle, plus, minus, star,
  slash, percent, bang, bang_bang, and, or, eq_eq, bang_eq, lte, gte, dot, dot_dot, hat, struct,
  enum, match, some, none, ok, err, type_, as_, pub_, imp, try, catch, throw, go, chan, eof, Token,
  Lexer, peek, peek_next, is_at_end, advance, matches, consume_match, make_token, error_token,
  is_digit, is_alpha, skip_whitespace, skip_string, skip_digits, skip_word,
}

-- `memcmp(text + start, rest, length) == 0` and the length test in front of it; `text` holds the
-- bytes from `lexer.start` up to `lexer.current`.
unfoldable pub check_keyword : List ℕ → ℕ → ℕ → List ℕ → TokenType → TokenType
unfolding bytes_eq
check_keyword text start len rest type =
    if length text == start + len && bytes_eq (take len (drop start text)) rest then type else id

-- `case 't'`, `case 's'`, `case 'c'` and `case 'e'`: a second switch, on the next byte.
keyword_t : List ℕ → TokenType
unfolding check_keyword
keyword_t text =
    if ltb 1 (length text)
    then if get_or text 1 0 == b'r'
      then if length text == 3 && get_or text 2 0 == b'u'
        then bool
        else if length text == 3 && get_or text 2 0 == b'y'
        then try
        else id
      else if get_or text 1 0 == b'y'
      then check_keyword text 2 2 (codes "pe") type_
      else if get_or text 1 0 == b'h'
      then check_keyword text 2 3 (codes "row") throw
      else id
    else id

keyword_s : List ℕ → TokenType
unfolding check_keyword
keyword_s text =
    if ltb 1 (length text)
    then if get_or text 1 0 == b't'
      then check_keyword text 2 4 (codes "ruct") struct
      else if get_or text 1 0 == b'o'
      then check_keyword text 2 2 (codes "me") some
      else id
    else id

keyword_c : List ℕ → TokenType
unfolding check_keyword
keyword_c text =
    if ltb 1 (length text)
    then if get_or text 1 0 == b'a'
      then check_keyword text 2 3 (codes "tch") catch
      else if get_or text 1 0 == b'h'
      then check_keyword text 2 2 (codes "an") chan
      else id
    else id

keyword_e : List ℕ → TokenType
unfolding check_keyword
keyword_e text =
    if ltb 1 (length text)
    then if get_or text 1 0 == b'n'
      then check_keyword text 2 2 (codes "um") enum
      else if get_or text 1 0 == b'r'
      then check_keyword text 2 1 (codes "r") err
      else id
    else id

-- The switch on the first byte.
keyword_switch : List ℕ → TokenType
keyword_switch text =
    let c = get_or text 0 0 in
    if c == b't'
    then keyword_t text
    else if c == b'f'
    then check_keyword text 1 2 (codes "ls") bool
    else if c == b's'
    then keyword_s text
    else if c == b'p'
    then check_keyword text 1 2 (codes "ub") pub_
    else if c == b'i'
    then check_keyword text 1 2 (codes "mp") imp
    else if c == b'g'
    then check_keyword text 1 1 (codes "o") go
    else if c == b'c'
    then keyword_c text
    else if c == b'e'
    then keyword_e text
    else if c == b'a'
    then check_keyword text 1 1 (codes "s") as_
    else if c == b'm'
    then check_keyword text 1 4 (codes "atch") match
    else if c == b'n'
    then check_keyword text 1 3 (codes "one") none
    else if c == b'o'
    then check_keyword text 1 1 (codes "k") ok
    else id

unfoldable pub identifier_type : List ℕ → TokenType
unfolding keyword_switch check_keyword keyword_t keyword_s keyword_c keyword_e
identifier_type text = keyword_switch text

-- A scanned token and the lexer behind it.
abbrev pub Scanned : Type 0
Scanned = Token × Lexer

abbrev pub token : Lexer → TokenType → Scanned
token l t = (make_token l t, l)

-- The bytes between `lexer.start` and `lexer.current`.
abbrev pub text_of : Lexer → List ℕ
text_of l = take (l.current - l.start) (drop l.start l.source)

unfoldable pub string : Lexer → Scanned
unfolding skip_string
string l =
    let m = skip_string l in
    if is_at_end m then (error_token m (codes "Unterminated string."), m) else token (advance m) str

unfoldable pub number : Lexer → Scanned
unfolding skip_digits
number l =
    let m = skip_digits l in
    if peek m == b'.' && is_digit (peek_next m)
    then token (skip_digits (advance m)) flt
    else token m int

unfoldable pub identifier : Lexer → Scanned
unfolding skip_word identifier_type
identifier l = let m = skip_word l in token m (identifier_type (text_of m))

abbrev pub unexpected : Lexer → Scanned
unexpected l = (error_token l (codes "Unexpected character."), l)

-- A token of one byte, or of two where the second one fits.
abbrev pub one_or_two : Lexer → ℕ → TokenType → TokenType → Scanned
one_or_two l second two one = if matches l second then token (consume_match l) two else token l one

-- The cases of the last switch with more than one possible token.
unfoldable pub operator : Lexer → ℕ → Scanned
operator l c =
    if c == b'<'
    then if matches l b'=' then token (consume_match l) lte else one_or_two l b'-' l_arrow langle
    else if c == b'>'
    then one_or_two l b'=' gte rangle
    else if c == b'-'
    then one_or_two l b'>' arrow minus
    else if c == b'='
    then if matches l b'='
      then token (consume_match l) eq_eq
      else if matches l b'>'
      then token (consume_match l) assign
      else unexpected l
    else if c == b'!'
    then if matches l b'!'
      then token (consume_match l) bang_bang
      else one_or_two l b'=' bang_eq bang
    else if c == b'&'
    then if matches l b'&' then token (consume_match l) and else unexpected l
    else if c == b'|'
    then if matches l b'|' then token (consume_match l) or else unexpected l
    else unexpected l

-- The cases with one token.
unfoldable pub punctuation : Lexer → ℕ → Scanned
unfolding operator
punctuation l c =
    if c == b'.'
    then one_or_two l b'.' dot_dot dot
    else if c == b'^'
    then token l hat
    else if c == b':'
    then token l colon
    else if c == b';'
    then token l semicolon
    else if c == b','
    then token l comma
    else if c == b'?'
    then token l question
    else if c == b'@'
    then token l at
    else if c == b'['
    then token l lbracket
    else if c == b']'
    then token l rbracket
    else if c == b'{'
    then token l lbrace
    else if c == b'}'
    then token l rbrace
    else if c == b'('
    then token l lparen
    else if c == b')'
    then token l rparen
    else if c == b'+'
    then token l plus
    else if c == b'*'
    then token l star
    else if c == b'/'
    then token l slash
    else if c == b'%'
    then token l percent
    else operator l c

-- From the marked start of a token that is not at the end of the text.
unfoldable pub scan : Lexer → Scanned
scan l =
    let c = peek l in
    let m = advance l in
    if is_digit c
    then number m
    else if is_alpha c || c == b'_'
    then identifier m
    else if c == b'"'
    then string m
    else punctuation m c

-- `lexer.start = lexer.current`, and the position of the token
abbrev pub mark : Lexer → Lexer
mark l = record l { start = l.current; token_line = l.line; token_column = l.column }

unfoldable pub lexer_next_token : Lexer → Scanned
lexer_next_token l = let m = mark (skip_whitespace l) in if is_at_end m then token m eof else scan m
