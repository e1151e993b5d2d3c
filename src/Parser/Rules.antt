-- ===== src/Parser/Rules.antt =====
-- The table `rules` of src/compiler.c, `parse_precedence`, and `block`.
use opo.Base.{
  ℕ, ◌+◌, ◌-◌, Bool, true, false, not, ◌&&◌, Option, none, some, ◌==◌, leb, if◌then◌else◌,
}
use opo.Kind
use opo.Lexer.{TokenType}
use opo.OpCode.{code_pop}
use opo.Parser.Access.{dot}
use opo.Parser.Assignment.{assignment, break_op, continue_op, return_op}
use opo.Parser.Bodies.{parse_function, bracket_expression}
use opo.Parser.Identifier.{variable}
use opo.Parser.Invoke.{call_expr}
use opo.Parser.Names.{type_push, type_pop}
use opo.Parser.Operators.{
  binary, unary, grouping, throw_op, unary_larrow, binary_larrow, as_op, print_op,
}
use opo.Parser.Precedence.{precedence}
use opo.Parser.Tokens.{error_at_previous, advance, consume, has_implicit_terminator, before_or_eof}
use opo.Parser.Values.{
  number, string, literal, some_expr, none_expr, ok_expr, err_expr, chan_expr, map_literal,
}
use opo.Parser.{
  on_option, says, P, pure, ◌>>=◌, ◌>>◌, get, when, with_compiler, emit_op, Calls, Turn, again,
  finish, iterate,
}
use opo.Platform.{Platform}

module _ ⦃p : Platform⦄ ⦃c : Calls⦄ where
  -- `get_rule(type)->prefix`
  unfoldable pub prefix_rule : TokenType → Option (P (Unit {0}))
  prefix_rule TokenType.int = some number
  prefix_rule TokenType.flt = some number
  prefix_rule TokenType.str = some string
  prefix_rule TokenType.bool = some literal
  prefix_rule TokenType.id = some variable
  prefix_rule TokenType.minus = some unary
  prefix_rule TokenType.bang = some unary
  prefix_rule TokenType.langle = some (parse_function true false none)
  prefix_rule TokenType.lparen = some grouping
  prefix_rule TokenType.lbracket = some bracket_expression
  prefix_rule TokenType.lbrace = some map_literal
  prefix_rule TokenType.l_arrow = some unary_larrow
  prefix_rule TokenType.dot = some break_op
  prefix_rule TokenType.dot_dot = some continue_op
  prefix_rule TokenType.hat = some return_op
  prefix_rule TokenType.throw = some throw_op
  prefix_rule TokenType.some = some some_expr
  prefix_rule TokenType.none = some none_expr
  prefix_rule TokenType.ok = some ok_expr
  prefix_rule TokenType.err = some err_expr
  prefix_rule TokenType.chan = some chan_expr
  prefix_rule other = none

  -- `get_rule(type)->infix`, of the tokens with a precedence
  unfoldable pub infix_rule : TokenType → P (Unit {0})
  infix_rule TokenType.bang_bang = print_op
  infix_rule TokenType.lparen = call_expr
  infix_rule TokenType.l_arrow = binary_larrow
  infix_rule TokenType.dot = dot
  infix_rule TokenType.assign = assignment
  infix_rule TokenType.as_ = as_op
  infix_rule other = binary

  -- A round of the loop over the infix operators that bind as tightly.
  unfoldable pub infix_turn : ℕ → Unit {0} → P (Turn (Unit {0}))
  infix_turn prec u = do
    s ← get
    end ← has_implicit_terminator
    if leb prec (precedence s.parser.current.type) && not end
        then (do advance; infix_rule s.parser.current.type; pure (again tt))
        else pure (finish tt)

  unfoldable pub precedence_body : ℕ → P (Unit {0})
  precedence_body prec = do
    advance
    s ← get
    on_option (prefix_rule s.parser.previous.type) (error_at_previous (says "Expect expression."))
        (λ prefix. do prefix; iterate c.rounds (infix_turn prec) tt)

module _ ⦃c : Calls⦄ where
  -- A statement of a block; the value of the one before it is dropped.
  unfoldable pub block_turn : Bool → P (Turn Bool)
  block_turn empty = do
    more ← before_or_eof TokenType.rbracket
    if more
        then (do
          when (not empty) (do t ← type_pop; when (not (t == Kind.void)) (emit_op code_pop))
          c.statement
          pure (again false))
        else pure (finish empty)

  unfoldable pub block_body : P (Unit {0})
  block_body = do
    consume TokenType.lbracket "Expect '[' to start block."
    with_compiler (λ c. record c { scope_depth = c.scope_depth + 1 })
    empty ← iterate c.rounds block_turn true
    when empty (type_push Kind.void)
    consume TokenType.rbracket "Expect ']' after block."
    with_compiler (λ c. record c { scope_depth = c.scope_depth - 1 })
