-- ===== src/Parser/Checks.antt =====
-- Functions of src/compiler.c that check types and emit code: rules for the error flag, the code
-- and the compile-time stack behind them.
pub mod Binary
use mathlib.Core.List.{append-nil, append_assoc}
use opo.Base.{
  subst, Bool-cases, inl, inr, ℕ, zero, suc, ◌+◌, ◌≤◌, ◌<◌, ◌≡◌, refl, sym, ap, ap₂, ◌∙◌, Bool,
  true, false, not, ◌&&◌, ◌||◌, ◌==◌, Option, none, some, List, [], ◌∷◌, ◌++◌, map, if◌then◌else◌,
  arith,
}
use opo.Compiler.{emit_byte}
use opo.Kind
use opo.Lexer.{TokenType}
use opo.OpCode.{
  OpCode, op_number, code_add, code_sub, code_mul, code_div, code_mod, code_eq, code_not, code_lt,
  code_gt, code_lte, code_gte, code_and, code_or,
}
use opo.Parser.Operators.{
  add_code, number_code, arithmetic_code, mod_code, compare_code, logic_code, binary_code,
  either_any, is_number,
}
use opo.Parser.Names.{type_push}
use opo.Parser.Scope.{Gives, Gives_ok, top, type_push_lem, top-with_operand, with_operand}
use opo.Parser.Tokens.{report, error_at, error_at_previous}
use opo.Parser.{Operand, Message, State, Outcome, ok, stop, P, bind, when, emit_op, ◌>>=◌, ◌>>◌}
use opo.Vm.{stack_max}

-- Where errors are not shown for now, one has been recorded.
abbrev pub Honest : State → Type 0
Honest s = s.parser.panic_mode ≡ true → s.parser.had_error ≡ true

-- From one state to the next: whether an error has come up, and the code that was emitted.
pub record Emits (e : Bool) (bytes : List ℕ) (s t : State) : Type 0 where
  pub error : t.parser.had_error ≡ (s.parser.had_error || e)
  pub honest : Honest t
  pub code : t.chunk.code ≡ s.chunk.code ++ bytes
  pub height : t.compiler.type_stack_ptr ≡ s.compiler.type_stack_ptr

-- A step that emits this code, and records an error just when `e`.
pub record Does (e : Bool) (bytes : List ℕ) (m : P (Unit {0})) : Type 0 where
  pub at : (s : State) → Honest s → Gives (m s) (λ _ t. Emits e bytes s t)

-- As `Emits`, and one operand of this type is on the compile-time stack besides.
pub record Checked (e : Bool) (bytes : List ℕ) (result : ℕ) (s t : State) : Type 0 where
  pub error : t.parser.had_error ≡ (s.parser.had_error || e)
  pub honest : Honest t
  pub code : t.chunk.code ≡ s.chunk.code ++ bytes
  pub height : t.compiler.type_stack_ptr ≡ s.compiler.type_stack_ptr + 1
  pub type : (top t).type ≡ result

or_true : (b : Bool) → (b || true) ≡ true
or_true true = refl
or_true false = refl

or_false : (b : Bool) → (b || false) ≡ b
or_false true = refl
or_false false = refl

or_assoc : (a b c : Bool) → ((a || b) || c) ≡ (a || (b || c))
or_assoc true b c = refl
or_assoc false b c = refl

Emits-refl : (s : State) → Honest s → Emits false [] s s
Emits-refl s h = record {
  error = sym (or_false s.parser.had_error);
  honest = h;
  code = sym (append-nil s.chunk.code);
  height = refl;
}

Emits-then :
    {e f : Bool} {xs ys : List ℕ} {s t u : State}
    → Emits e xs s t
    → Emits f ys t u
    → Emits (e || f) (xs ++ ys) s u
Emits-then {e} {f} {xs} {ys} {s} a b = record {
  error = b.error ∙ ap (λ x. x || f) a.error ∙ or_assoc s.parser.had_error e f;
  honest = b.honest;
  code = b.code ∙ ap (λ x. x ++ ys) a.code ∙ append_assoc s.chunk.code xs ys;
  height = b.height ∙ a.height;
}

Emits-if :
    {e : Bool} {xs : List ℕ} {s : State} (b : Bool) (t u : State)
    → (b ≡ true → Emits e xs s t)
    → Emits e xs s u
    → Emits e xs s (if b then t else u)
Emits-if true t u f g = f refl
Emits-if false t u f g = g

-- In panic mode an error has been recorded, so that another one changes nothing.
report-Emits : (m : Message) (s : State) → Honest s → Emits true [] s (report s.parser.previous m s)
unfolding report
report-Emits m s h =
    Emits-if s.parser.panic_mode s _
      (λ p. record {
        error = h p ∙ sym (or_true s.parser.had_error);
        honest = h;
        code = sym (append-nil s.chunk.code);
        height = refl;
      })
      (record {
        error = sym (or_true s.parser.had_error);
        honest = λ p. refl;
        code = sym (append-nil s.chunk.code);
        height = refl;
      })

pub Does-when : (b : Bool) (m : Message) → Does b [] (when b (error_at_previous m))
unfolding ◌>>=◌ error_at Gives
Does-when true m = record { at = λ s h. report-Emits m s h }
Does-when false m = record { at = λ s h. Emits-refl s h }

pub Does-emit_op : (o : OpCode) → Does false (op_number o ∷ []) (emit_op o)
unfolding ◌>>=◌ Gives emit_byte
Does-emit_op o = record {
  at = λ s h. record {
    error = sym (or_false s.parser.had_error);
    honest = h;
    code = refl;
    height = refl;
  };
}

Gives-mono :
    {A : Type 0} (r : Outcome A) (Q R : A → State → Type 0)
    → Gives r Q
    → ((a : A) (t : State) → Q a t → R a t)
    → Gives r R
unfolding Gives
Gives-mono (ok a t) Q R p q = q a t p
Gives-mono (stop e) Q R p q = p

by_outcome :
    (e : Bool) {f : Bool} (xs : List ℕ) {ys : List ℕ} (s : State) (r : Outcome (Unit {0}))
    (n : P (Unit {0}))
    → Gives r (λ _ t. Emits e xs s t)
    → Does f ys n
    → Gives (bind r (λ _. n)) (λ _ t. Emits (e || f) (xs ++ ys) s t)
unfolding Gives
by_outcome e xs s (ok tt t) n a b = Gives-mono (n t) _ _ (b.at t a.honest) (λ _ u c. Emits-then a c)
by_outcome e xs s (stop o) n a b = a

pub Does-then :
    {e f : Bool} {xs ys : List ℕ} (m n : P (Unit {0}))
    → Does e xs m
    → Does f ys n
    → Does (e || f) (xs ++ ys) (m >> n)
unfolding ◌>>=◌
Does-then m n a b = record { at = λ s h. by_outcome _ _ s (m s) n (a.at s h) b }

-- As `Does`, and one operand of this type is on the compile-time stack besides.
pub record Leaves (e : Bool) (bytes : List ℕ) (type : ℕ) (m : P (Unit {0})) : Type 0 where
  pub at :
      (s : State)
      → Honest s
      → s.compiler.type_stack_ptr < stack_max
      → Gives (m s) (λ _ t. Checked e bytes type s t)

pushed :
    (e : Bool) (xs : List ℕ) (type : ℕ) (s : State) (r : Outcome (Unit {0}))
    → s.compiler.type_stack_ptr < stack_max
    → Gives r (λ _ t. Emits e xs s t)
    → Gives (bind r (λ _. type_push type)) (λ _ t. Checked e xs type s t)
unfolding Gives
pushed e xs type s (ok tt t) l a =
    Gives_ok _ _ (type_push_lem type t (omega (arith, a.height))) (record {
      error = a.error;
      honest = a.honest;
      code = a.code;
      height = ap (λ n. n + 1) a.height;
      type = ap (λ (o : Operand). o.type) (top-with_operand type t);
    })
pushed e xs type s (stop o) l a = a

behind :
    (e : Bool) {f : Bool} {ys : List ℕ} {type : ℕ} (s : State) (r : Outcome (Unit {0}))
    (n : P (Unit {0}))
    → s.compiler.type_stack_ptr < stack_max
    → Gives r (λ _ t. Emits e [] s t)
    → Leaves f ys type n
    → Gives (bind r (λ _. n)) (λ _ t. Checked (e || f) ys type s t)
unfolding Gives
behind e {f} {ys} s (ok tt t) n l a b =
    Gives-mono (n t) _ _ (b.at t a.honest (omega (arith, a.height))) (λ _ u c. record {
      error = c.error ∙ ap (λ x. x || f) a.error ∙ or_assoc s.parser.had_error e f;
      honest = c.honest;
      code = c.code ∙ ap (λ x. x ++ ys) (a.code ∙ append-nil s.chunk.code);
      height = c.height ∙ ap (λ n. n + 1) a.height;
      type = c.type;
    })
behind e s (stop o) n l a b = a

pub Leaves-push :
    {e : Bool} {xs : List ℕ} (type : ℕ) (m : P (Unit {0}))
    → Does e xs m
    → Leaves e xs type (m >> type_push type)
unfolding ◌>>=◌
Leaves-push {e} {xs} type m d = record { at = λ s h l. pushed e xs type s (m s) l (d.at s h) }

pub Leaves-then :
    {e f : Bool} {ys : List ℕ} {type : ℕ} (m n : P (Unit {0}))
    → Does e [] m
    → Leaves f ys type n
    → Leaves (e || f) ys type (m >> n)
unfolding ◌>>=◌
Leaves-then {e} m n a b = record { at = λ s h l. behind e s (m s) n l (a.at s h) b }

pub Leaves-cast :
    {e f : Bool} {xs : List ℕ} {type : ℕ} (m : P (Unit {0}))
    → e ≡ f
    → Leaves e xs type m
    → Leaves f xs type m
Leaves-cast {xs = xs} {type} m q l = subst (λ e. Leaves e xs type m) q l

pub Does-if :
    {e f : Bool} {xs : List ℕ} (b : Bool) (m n : P (Unit {0}))
    → Does e xs m
    → Does f xs n
    → Does (if b then e else f) xs (if b then m else n)
Does-if true m n d d' = d
Does-if false m n d d' = d'

pub Leaves-if :
    {e f : Bool} {xs : List ℕ} {type : ℕ} (b : Bool) (m n : P (Unit {0}))
    → (b ≡ true → Leaves e xs type m)
    → Leaves f xs type n
    → Leaves (if b then e else f) xs type (if b then m else n)
Leaves-if true m n l l' = l refl
Leaves-if false m n l l' = l'

-- An operator's checks: of `any`, and of the types of both operands.
pub Leaves-checked :
    (b c : Bool) (m n : Message) {xs : List ℕ} (type : ℕ) (code : P (Unit {0}))
    → Does false xs code
    → Leaves
        (b || (c || false))
        xs
        type
        (when b (error_at_previous m) >> (when c (error_at_previous n) >> (code >> type_push type)))
Leaves-checked b c m n type code d =
    Leaves-then _ _ (Does-when b m) (Leaves-then _ _ (Does-when c n) (Leaves-push type code d))
