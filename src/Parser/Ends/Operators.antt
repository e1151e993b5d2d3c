-- ===== src/Parser/Ends/Operators.antt =====
-- The rules of src/compiler.c for operators keep within their bounds.
use opo.Base.{arith, ◌+◌, lt→ltb, ℕ}
use opo.Lexer.{TokenType}
use opo.OpCode.{OpCode}
use opo.Parser.Ends.Calling.{Calling, types}
use opo.Parser.Ends.Names.{steps, Ends-type_push, Ends-type_pop}
use opo.Parser.Ends.{Ends}
use opo.Parser.{P, Calls}
use opo.Parser.Types.{parse_type}
use opo.Parser.Ends.Values.{Ends-number}
use opo.Parser.Operators.{
  add_code, number_code, arithmetic_code, mod_code, compare_code, logic_code, binary_code,
  unary_code, binary, unary, grouping, throw_op, unary_larrow, binary_larrow, as_op, print_op,
}

pub Ends-add_code : {k : ℕ} (a : ℕ) (b : ℕ) → Ends k (add_code a b)
unfolding add_code
Ends-add_code a b = search (steps, Ends-type_push) depth 40 fits 20000

pub Ends-number_code : {k : ℕ} (op : OpCode) (a : ℕ) (b : ℕ) → Ends k (number_code op a b)
unfolding number_code
Ends-number_code op a b = search (steps, Ends-type_push) depth 40 fits 20000

pub Ends-arithmetic_code :
    {k : ℕ} (code : P (Unit {0})) (a b : ℕ) → Ends k code → Ends k (arithmetic_code code a b)
unfolding arithmetic_code
Ends-arithmetic_code code a b e = search steps depth 20

pub Ends-mod_code : {k : ℕ} (a : ℕ) (b : ℕ) → Ends k (mod_code a b)
unfolding mod_code
Ends-mod_code a b = search (steps, Ends-type_push) depth 40 fits 20000

pub Ends-compare_code :
    {k : ℕ} (code : P (Unit {0})) (a b : ℕ) → Ends k code → Ends k (compare_code code a b)
unfolding compare_code
Ends-compare_code code a b e = search (steps, Ends-type_push) depth 40 fits 20000

pub Ends-logic_code : {k : ℕ} (op : OpCode) (a : ℕ) (b : ℕ) → Ends k (logic_code op a b)
unfolding logic_code
Ends-logic_code op a b = search (steps, Ends-type_push) depth 40 fits 20000

pub Ends-binary_code : {k : ℕ} (t : TokenType) (a b : ℕ) → Ends k (binary_code t a b)
unfolding binary_code
Ends-binary_code TokenType.plus a b = search (steps, Ends-arithmetic_code, Ends-add_code)
Ends-binary_code _ a b = search (
  steps, Ends-arithmetic_code, Ends-number_code, Ends-mod_code, Ends-compare_code, Ends-logic_code,
)

pub Ends-unary_code : {k : ℕ} (operator : TokenType) (t : ℕ) → Ends k (unary_code operator t)
unfolding unary_code
Ends-unary_code operator t = search (steps, Ends-number) depth 40 fits 20000

module _ ⦃c : Calls⦄ {k : ℕ} (h : Calling c k) where
  parses : Ends k (parse_type c.rounds)
  parses = types h

  -- The operand of an operator binds more tightly than the operator.
  above : (n : ℕ) → Ends k (c.parse_precedence (n + 1))
  above n = h.precedence (n + 1) (lt→ltb 0 (n + 1) (omega arith))

  pub Ends-binary : Ends k (binary)
  unfolding binary
  Ends-binary = search (steps, Ends-type_pop, Ends-binary_code, above) depth 40 fits 20000

  pub Ends-unary : Ends k (unary)
  unfolding unary
  Ends-unary =
      search (steps, Ends-type_pop, Ends-unary_code, Ends-type_push, h.precedence) depth 40 fits
        20000

  pub Ends-grouping : Ends k (grouping)
  unfolding grouping
  Ends-grouping = search (steps, h.precedence) depth 40 fits 20000

  pub Ends-throw_op : Ends k (throw_op)
  unfolding throw_op
  Ends-throw_op = search (steps, Ends-type_pop, Ends-type_push, h.precedence) depth 40 fits 20000

  pub Ends-unary_larrow : Ends k (unary_larrow)
  unfolding unary_larrow
  Ends-unary_larrow =
      search (steps, Ends-unary, Ends-type_pop, Ends-type_push, h.precedence) depth 40 fits 20000

  pub Ends-binary_larrow : Ends k (binary_larrow)
  unfolding binary_larrow
  Ends-binary_larrow =
      search (steps, Ends-type_pop, Ends-type_push, h.precedence) depth 40 fits 20000

  pub Ends-as_op : Ends k (as_op)
  unfolding as_op
  Ends-as_op = search (steps, Ends-type_pop, Ends-type_push, parses) depth 40 fits 20000

pub Ends-print_op : {k : ℕ} → Ends k (print_op)
unfolding print_op
Ends-print_op = search (steps, Ends-type_pop, Ends-type_push) depth 40 fits 20000
