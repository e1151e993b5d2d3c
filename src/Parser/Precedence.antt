-- ===== src/Parser/Precedence.antt =====
-- `Precedence` of src/compiler.c, and the column of the table `rules` that holds it.
use opo.Base.{ℕ}
use opo.Lexer.{TokenType}

abbrev pub none : ℕ
none = 0

abbrev pub assignment : ℕ
assignment = 1

abbrev pub as_type : ℕ
as_type = 2

abbrev pub postfix : ℕ
postfix = 3

abbrev pub or : ℕ
or = 4

abbrev pub and : ℕ
and = 5

abbrev pub equality : ℕ
equality = 6

abbrev pub comparison : ℕ
comparison = 7

abbrev pub term : ℕ
term = 8

abbrev pub factor : ℕ
factor = 9

abbrev pub unary : ℕ
unary = 10

abbrev pub call : ℕ
call = 11

-- `get_rule(type)->precedence`
unfoldable pub precedence : TokenType → ℕ
precedence TokenType.plus = term
precedence TokenType.minus = term
precedence TokenType.star = factor
precedence TokenType.slash = factor
precedence TokenType.percent = factor
precedence TokenType.bang_bang = postfix
precedence TokenType.and = and
precedence TokenType.or = or
precedence TokenType.eq_eq = equality
precedence TokenType.bang_eq = equality
precedence TokenType.langle = comparison
precedence TokenType.rangle = comparison
precedence TokenType.lte = comparison
precedence TokenType.gte = comparison
precedence TokenType.lparen = call
precedence TokenType.l_arrow = assignment
precedence TokenType.dot = call
precedence TokenType.assign = assignment
precedence TokenType.as_ = as_type
precedence other = none
