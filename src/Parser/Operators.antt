-- ===== src/Parser/Operators.antt =====
-- The rules of src/compiler.c for the unary and binary operators, groups, `throw`, `<-`, `as` and
-- `!!`.
use opo.Base.{ℕ, ◌+◌, Bool, not, ◌&&◌, ◌||◌, ◌==◌, if◌then◌else◌}
use opo.Compiler.Assign.{is_assignable}
use opo.Kind
use opo.Lexer.{TokenType}
use opo.OpCode.{
  OpCode, code_add, code_sub, code_mul, code_div, code_mod, code_eq, code_not, code_lt, code_gt,
  code_lte, code_gte, code_and, code_or, code_neg, code_throw, code_recv, code_send, code_as_type,
  code_print,
}
use opo.Parser.Names.{type_push, type_pop, emit_word32}
use opo.Parser.Precedence.{precedence}
use opo.Parser.Precedence
use opo.Parser.Tokens.{error_at_previous, consume, is_type}
use opo.Parser.Types.{parse_type}
use opo.Parser.{says, P, pure, ◌>>=◌, ◌>>◌, done, get, when, emit_op, Calls, expression}
use opo.Types.{type_kind, type_sub}

abbrev pub either_any : ℕ → ℕ → Bool
either_any a b = a == Kind.any || b == Kind.any

abbrev pub is_number : ℕ → Bool
is_number t = t == Kind.int || t == Kind.flt

-- `+`, on two strings or on two numbers of one type
unfoldable pub add_code : ℕ → ℕ → P (Unit {0})
add_code a b =
    if a == Kind.str && b == Kind.str then emit_op code_add >> type_push Kind.str else (do
      if not (a == b)
          then error_at_previous (says "Arithmetic type error: mismatched types.")
          else when (not (is_number a)) (
              error_at_previous
                (says "Arithmetic type error: operator + not supported for this type."))
      emit_op code_add
      type_push a)

-- `-`, `*` and `/`
unfoldable pub number_code : OpCode → ℕ → ℕ → P (Unit {0})
number_code op a b = do
  if not (a == b)
      then error_at_previous (says "Arithmetic type error.")
      else when (not (is_number a))
          (error_at_previous (says "Arithmetic type error: operator not supported for this type."))
  emit_op op
  type_push a

unfoldable pub arithmetic_code : P (Unit {0}) → ℕ → ℕ → P (Unit {0})
arithmetic_code code a b =
    when (either_any a b) (
      error_at_previous
        (says "Cannot perform arithmetic on 'any'. Match it to a concrete type first."))
    >> code

unfoldable pub mod_code : ℕ → ℕ → P (Unit {0})
mod_code a b = do
  when (either_any a b)
      (error_at_previous (says "Cannot perform modulo on 'any'. Match it to 'int' first."))
  when (not (a == Kind.int) || not (b == Kind.int))
      (error_at_previous (says "Modulo type error: operands must be integers."))
  emit_op code_mod
  type_push Kind.int

unfoldable pub compare_code : P (Unit {0}) → ℕ → ℕ → P (Unit {0})
compare_code code a b = do
  when (either_any a b)
      (error_at_previous (says "Cannot compare 'any'. Match it to a concrete type first."))
  when (not (a == b)) (error_at_previous (says "Comparison type error."))
  code
  type_push Kind.bool

unfoldable pub logic_code : OpCode → ℕ → ℕ → P (Unit {0})
logic_code op a b = do
  when (either_any a b) (
      error_at_previous
        (says "Cannot perform logical operations on 'any'. Match it to 'bol' first."))
  when (not (a == Kind.bool) || not (b == Kind.bool))
      (error_at_previous (says "Logic type error: operands must be booleans."))
  emit_op op
  type_push Kind.bool

-- The `switch` of `binary`, on the types of the operands.
unfoldable pub binary_code : TokenType → ℕ → ℕ → P (Unit {0})
binary_code TokenType.plus a b = arithmetic_code (add_code a b) a b
binary_code TokenType.minus a b = arithmetic_code (number_code code_sub a b) a b
binary_code TokenType.star a b = arithmetic_code (number_code code_mul a b) a b
binary_code TokenType.slash a b = arithmetic_code (number_code code_div a b) a b
binary_code TokenType.percent a b = mod_code a b
binary_code TokenType.eq_eq a b = compare_code (emit_op code_eq) a b
binary_code TokenType.bang_eq a b = compare_code (emit_op code_eq >> emit_op code_not) a b
binary_code TokenType.langle a b = compare_code (emit_op code_lt) a b
binary_code TokenType.rangle a b = compare_code (emit_op code_gt) a b
binary_code TokenType.lte a b = compare_code (emit_op code_lte) a b
binary_code TokenType.gte a b = compare_code (emit_op code_gte) a b
binary_code TokenType.and a b = logic_code code_and a b
binary_code TokenType.or a b = logic_code code_or a b
binary_code other a b = done

-- The checks and the code of `unary`, on the type of the operand.
unfoldable pub unary_code : TokenType → ℕ → P (Unit {0})
unary_code operator t =
    if is_type operator TokenType.minus
    then (do
      when (t == Kind.any)
          (error_at_previous (says "Cannot negate 'any'. Match it to a numeric type first."))
      when (not (is_number t)) (error_at_previous (says "Operand must be a number."))
      emit_op code_neg)
    else when (is_type operator TokenType.bang) (do
      when (t == Kind.any)
          (error_at_previous (says "Cannot use '!' on 'any'. Match it to 'bol' first."))
      when (not (t == Kind.bool)) (error_at_previous (says "Operand must be a boolean."))
      emit_op code_not)

abbrev previous_type : P TokenType
previous_type = get >>= λ s. pure s.parser.previous.type

module _ ⦃c : Calls⦄ where
  unfoldable pub binary : P (Unit {0})
  binary = do
    operator_type ← previous_type
    c.parse_precedence (precedence operator_type + 1)
    b ← type_pop
    a ← type_pop
    binary_code operator_type a b

  unfoldable pub unary : P (Unit {0})
  unary = do
    operator_type ← previous_type
    c.parse_precedence Precedence.unary
    t ← type_pop
    unary_code operator_type t
    type_push t

  unfoldable pub grouping : P (Unit {0})
  grouping = expression >> consume TokenType.rparen "Expect ')' after expression."

  unfoldable pub throw_op : P (Unit {0})
  throw_op = do expression; emit_op code_throw; t ← type_pop; type_push Kind.void

  unfoldable pub unary_larrow : P (Unit {0})
  unary_larrow = do
    c.parse_precedence Precedence.unary
    t ← type_pop
    when (not (type_kind t == Kind.chan) && not (type_kind t == Kind.any))
        (error_at_previous (says "Can only receive from a channel."))
    emit_op code_recv
    type_push (type_sub t)

  unfoldable pub binary_larrow : P (Unit {0})
  binary_larrow = do
    ch_type ← type_pop
    when (not (type_kind ch_type == Kind.chan) && not (type_kind ch_type == Kind.any))
        (error_at_previous (says "LHS of <- must be a channel."))
    c.parse_precedence Precedence.assignment
    val_type ← type_pop
    when (not (type_kind ch_type == Kind.any) && not (is_assignable (type_sub ch_type) val_type))
        (error_at_previous (says "Type mismatch in channel send."))
    emit_op code_send
    type_push Kind.void

  unfoldable pub as_op : P (Unit {0})
  as_op = do
    target_type ← parse_type c.rounds
    emit_op code_as_type
    emit_word32 target_type
    t ← type_pop
    type_push target_type

unfoldable pub print_op : P (Unit {0})
print_op = do t ← type_pop; emit_op code_print; type_push Kind.void
