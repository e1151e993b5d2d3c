-- ===== src/Parser/Checks/Binary.antt =====
-- The type checks and the code of `binary` in src/compiler.c, against tables of the operators: what
-- operands each takes, what its code is, and what type it has.
use opo.Base.{
  subst, ℕ, ◌<◌, ◌≡◌, Bool, true, false, not, ◌&&◌, ◌||◌, ◌==◌, List, [], ◌∷◌, if◌then◌else◌, arith,
}
use opo.Kind
use opo.Lexer.{TokenType}
use opo.OpCode.{
  OpCode, op_number, code_add, code_sub, code_mul, code_div, code_mod, code_eq, code_not, code_lt,
  code_gt, code_lte, code_gte, code_and, code_or,
}
use opo.Parser.Operators.{
  add_code, number_code, arithmetic_code, mod_code, compare_code, logic_code, binary_code,
  either_any, is_number,
}
use opo.Parser.Names.{type_push}
use opo.Parser.Scope.{Gives}
use opo.Parser.Tokens.{error_at_previous}
use opo.Parser.{Message, State, P, when, emit_op, ◌>>=◌, ◌>>◌}
use opo.Vm.{stack_max}
use opo.Parser.Checks.{
  Honest, Checked, Does, Leaves, Does-when, Does-emit_op, Does-then, Leaves-push, Leaves-then,
  Leaves-cast, Does-if, Leaves-if, Leaves-checked,
}

abbrev pub is_binary : TokenType → Bool
is_binary TokenType.plus = true
is_binary TokenType.minus = true
is_binary TokenType.star = true
is_binary TokenType.slash = true
is_binary TokenType.percent = true
is_binary TokenType.eq_eq = true
is_binary TokenType.bang_eq = true
is_binary TokenType.langle = true
is_binary TokenType.rangle = true
is_binary TokenType.lte = true
is_binary TokenType.gte = true
is_binary TokenType.and = true
is_binary TokenType.or = true
is_binary other = false

-- The types of operands that an operator takes.
abbrev pub takes : TokenType → ℕ → ℕ → Bool
takes TokenType.plus a b = a == b && (is_number a || a == Kind.str)
takes TokenType.minus a b = a == b && is_number a
takes TokenType.star a b = a == b && is_number a
takes TokenType.slash a b = a == b && is_number a
takes TokenType.percent a b = a == Kind.int && b == Kind.int
takes TokenType.and a b = a == Kind.bool && b == Kind.bool
takes TokenType.or a b = a == Kind.bool && b == Kind.bool
takes comparison a b = a == b && not (a == Kind.any)

-- The type of the result, from that of the first operand.
abbrev pub makes : TokenType → ℕ → ℕ
makes TokenType.plus a = a
makes TokenType.minus a = a
makes TokenType.star a = a
makes TokenType.slash a = a
makes TokenType.percent a = Kind.int
makes other a = Kind.bool

abbrev pub code_of : TokenType → List ℕ
code_of TokenType.plus = op_number code_add ∷ []
code_of TokenType.minus = op_number code_sub ∷ []
code_of TokenType.star = op_number code_mul ∷ []
code_of TokenType.slash = op_number code_div ∷ []
code_of TokenType.percent = op_number code_mod ∷ []
code_of TokenType.eq_eq = op_number code_eq ∷ []
code_of TokenType.bang_eq = op_number code_eq ∷ op_number code_not ∷ []
code_of TokenType.langle = op_number code_lt ∷ []
code_of TokenType.rangle = op_number code_gt ∷ []
code_of TokenType.lte = op_number code_lte ∷ []
code_of TokenType.gte = op_number code_gte ∷ []
code_of TokenType.and = op_number code_and ∷ []
code_of TokenType.or = op_number code_or ∷ []
code_of other = []

Leaves-compare_code :
    (code : P (Unit {0})) {xs : List ℕ} (a b : ℕ)
    → Does false xs code
    → Leaves (not (a == b && not (a == Kind.any))) xs Kind.bool (compare_code code a b)
unfolding compare_code
Leaves-compare_code code a b d =
    Leaves-cast _ (ground arith)
      (Leaves-checked (either_any a b) (not (a == b)) _ _ Kind.bool code d)

Leaves-logic_code :
    (op : OpCode) (a b : ℕ)
    → Leaves
        (not (a == Kind.bool && b == Kind.bool))
        (op_number op ∷ [])
        Kind.bool
        (logic_code op a b)
unfolding logic_code
Leaves-logic_code op a b = Leaves-cast _ (ground arith) (
    Leaves-checked (either_any a b) (not (a == Kind.bool) || not (b == Kind.bool)) _ _ Kind.bool
      (emit_op op) (Does-emit_op op))

Leaves-mod_code :
    (a b : ℕ)
    → Leaves
        (not (a == Kind.int && b == Kind.int))
        (op_number code_mod ∷ [])
        Kind.int
        (mod_code a b)
unfolding mod_code
Leaves-mod_code a b = Leaves-cast _ (ground arith) (
    Leaves-checked (either_any a b) (not (a == Kind.int) || not (b == Kind.int)) _ _ Kind.int
      (emit_op code_mod) (Does-emit_op code_mod))

abbrev not_numbers : ℕ → ℕ → Bool
not_numbers a b = if not (a == b) then true else not (is_number a)

Does-number :
    (m n : Message) (a b : ℕ)
    → Does (not_numbers a b) [] (
        if not (a == b)
        then error_at_previous m
        else when (not (is_number a)) (error_at_previous n))
unfolding ◌>>=◌ when
Does-number m n a b =
    Does-if (not (a == b)) _ _ (Does-when true m) (Does-when (not (is_number a)) n)

Leaves-number_code :
    (op : OpCode) (a b : ℕ)
    → Leaves
        (not (a == b && is_number a))
        (op_number op ∷ [])
        a
        (arithmetic_code (number_code op a b) a b)
unfolding arithmetic_code number_code
Leaves-number_code op a b = Leaves-cast _ (ground arith) (
    Leaves-then _ _ (Does-when (either_any a b) _)
      (Leaves-then _ _ (Does-number _ _ a b) (Leaves-push a (emit_op op) (Does-emit_op op))))

Leaves-add_code :
    (a b : ℕ)
    → Leaves
        (not (a == b && (is_number a || a == Kind.str)))
        (op_number code_add ∷ [])
        a
        (arithmetic_code (add_code a b) a b)
unfolding arithmetic_code add_code
Leaves-add_code a b = Leaves-cast _ (ground arith) (
    Leaves-then _ _ (Does-when (either_any a b) _) (
      Leaves-if (a == Kind.str && b == Kind.str) _ _
        (λ p.
          subst
            (λ type.
              Leaves false (op_number code_add ∷ []) type (emit_op code_add >> type_push Kind.str))
            (ground (arith, p)) (Leaves-push Kind.str (emit_op code_add) (Does-emit_op code_add)))
        (Leaves-then _ _ (Does-number _ _ a b)
          (Leaves-push a (emit_op code_add) (Does-emit_op code_add)))))

Leaves-binary_code :
    (op : TokenType) (a b : ℕ)
    → is_binary op ≡ true
    → Leaves (not (takes op a b)) (code_of op) (makes op a) (binary_code op a b)
unfolding binary_code
Leaves-binary_code TokenType.plus a b i = Leaves-add_code a b
Leaves-binary_code TokenType.minus a b i = Leaves-number_code code_sub a b
Leaves-binary_code TokenType.star a b i = Leaves-number_code code_mul a b
Leaves-binary_code TokenType.slash a b i = Leaves-number_code code_div a b
Leaves-binary_code TokenType.percent a b i = Leaves-mod_code a b
Leaves-binary_code TokenType.eq_eq a b i = Leaves-compare_code _ a b (Does-emit_op code_eq)
Leaves-binary_code TokenType.bang_eq a b i =
    Leaves-compare_code _ a b (Does-then _ _ (Does-emit_op code_eq) (Does-emit_op code_not))
Leaves-binary_code TokenType.langle a b i = Leaves-compare_code _ a b (Does-emit_op code_lt)
Leaves-binary_code TokenType.rangle a b i = Leaves-compare_code _ a b (Does-emit_op code_gt)
Leaves-binary_code TokenType.lte a b i = Leaves-compare_code _ a b (Does-emit_op code_lte)
Leaves-binary_code TokenType.gte a b i = Leaves-compare_code _ a b (Does-emit_op code_gte)
Leaves-binary_code TokenType.and a b i = Leaves-logic_code code_and a b
Leaves-binary_code TokenType.or a b i = Leaves-logic_code code_or a b
Leaves-binary_code _ a b i = absurd (ground (arith, i))

-- On operands of any types, with room on the compile-time type stack: each of the 13 binary
-- operators emits its instructions, whatever the types; records an error just when the operands are
-- not what the operator takes; and leaves one operand of the operator's type on the stack.
pub binary_code_lem :
    (op : TokenType) (a b : ℕ) (s : State)
    → is_binary op ≡ true
    → Honest s
    → s.compiler.type_stack_ptr < stack_max
    → Gives
        (binary_code op a b s)
        (λ _ t. Checked (not (takes op a b)) (code_of op) (makes op a) s t)
binary_code_lem op a b s i h l = (Leaves-binary_code op a b i).at s h l
