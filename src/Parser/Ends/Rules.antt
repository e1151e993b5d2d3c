-- ===== src/Parser/Ends/Rules.antt =====
-- The functions of the table of rules in src/compiler.c end, and with them `parse_precedence` and
-- `block`.
use opo.Base.{
  subst, ℕ, zero, suc, ◌≤◌, ◌<◌, ◌≡◌, refl, sym, ap, ◌∙◌, Bool, true, false, ◌&&◌, leb, ltb,
  if◌then◌else◌, arith,
}
use opo.Lexer.{TokenType}
use opo.Parser.Ends.Access.{Ends-dot}
use opo.Parser.Ends.Assignment.{Ends-assignment, Ends-break_op, Ends-continue_op, Ends-return_op}
use opo.Parser.Ends.Bodies.{Ends-parse_function, Ends-bracket_expression}
use opo.Parser.Ends.Calling.{Calling}
use opo.Parser.Ends.Identifier.{Ends-variable}
use opo.Parser.Ends.Invoke.{Ends-call_expr}
use opo.Parser.Ends.Loops.{
  Turns, Ends-Turns, Turns-finish, Turns-before_or_eof, on_taken, PostValue, OnTaken,
}
use opo.Parser.Ends.Names.{steps, Ends-type_push, Ends-type_pop}
use opo.Parser.Ends.Operators.{
  Ends-binary, Ends-unary, Ends-grouping, Ends-throw_op, Ends-unary_larrow, Ends-binary_larrow,
  Ends-as_op, Ends-print_op,
}
use opo.Parser.Ends.Tokens.{is_type-eof, Eats-advance}
use opo.Parser.Ends.Values.{
  Ends-number, Ends-string, Ends-literal, Ends-some_expr, Ends-none_expr, Ends-ok_expr,
  Ends-err_expr, Ends-chan_expr, Ends-map_literal,
}
use opo.Parser.Ends.{
  Post, Post-bind, Post-mono, Takes, Goes, Sound, remaining, Goes-refl, Goes-trans, Ends, Eats,
  Ends-mono, Ends-bind, Ends-then, Ends-pure, Ends-get, Eats-bind, Eats-bind_behind,
}
use opo.Parser.Precedence.{precedence}
use opo.Parser.Rules.{prefix_rule, infix_rule, infix_turn, precedence_body, block_turn, block_body}
use opo.Parser.Tokens.{
  skip_errors, fetch, report_lexical, report, is_type, has_implicit_terminator, advance,
  error_at_previous,
}
use opo.Parser.{
  says, Lexeme, Outcome, ok, stop, undefined, out_of_rounds, State, P, Turn, again, finish, Calls,
  iterate, pure, on_option, ◌>>=◌, ◌>>◌,
}
use opo.Platform.{Platform}

module _ ⦃p : Platform⦄ ⦃c : Calls⦄ {k : ℕ} (h : Calling c k) where
  Ends-prefix_rule :
      (t : TokenType) (m n : P (Unit {0}))
      → Ends k m
      → Ends k n
      → Ends k (on_option (prefix_rule t) m (λ prefix. prefix >> n))
  unfolding prefix_rule on_option
  Ends-prefix_rule TokenType.int m n em en = Ends-then _ n Ends-number en
  Ends-prefix_rule TokenType.flt m n em en = Ends-then _ n Ends-number en
  Ends-prefix_rule TokenType.str m n em en = Ends-then _ n Ends-string en
  Ends-prefix_rule TokenType.bool m n em en = Ends-then _ n Ends-literal en
  Ends-prefix_rule TokenType.id m n em en = Ends-then _ n (Ends-variable h) en
  Ends-prefix_rule TokenType.minus m n em en = Ends-then _ n (Ends-unary h) en
  Ends-prefix_rule TokenType.bang m n em en = Ends-then _ n (Ends-unary h) en
  Ends-prefix_rule TokenType.langle m n em en = Ends-then _ n (Ends-parse_function h _ _ _) en
  Ends-prefix_rule TokenType.lparen m n em en = Ends-then _ n (Ends-grouping h) en
  Ends-prefix_rule TokenType.lbracket m n em en = Ends-then _ n (Ends-bracket_expression h) en
  Ends-prefix_rule TokenType.lbrace m n em en = Ends-then _ n (Ends-map_literal h) en
  Ends-prefix_rule TokenType.l_arrow m n em en = Ends-then _ n (Ends-unary_larrow h) en
  Ends-prefix_rule TokenType.dot m n em en = Ends-then _ n Ends-break_op en
  Ends-prefix_rule TokenType.dot_dot m n em en = Ends-then _ n Ends-continue_op en
  Ends-prefix_rule TokenType.hat m n em en = Ends-then _ n (Ends-return_op h) en
  Ends-prefix_rule TokenType.throw m n em en = Ends-then _ n (Ends-throw_op h) en
  Ends-prefix_rule TokenType.some m n em en = Ends-then _ n (Ends-some_expr h) en
  Ends-prefix_rule TokenType.none m n em en = Ends-then _ n Ends-none_expr en
  Ends-prefix_rule TokenType.ok m n em en = Ends-then _ n (Ends-ok_expr h) en
  Ends-prefix_rule TokenType.err m n em en = Ends-then _ n (Ends-err_expr h) en
  Ends-prefix_rule TokenType.chan m n em en = Ends-then _ n (Ends-chan_expr h) en
  Ends-prefix_rule _ m n em en = em

  Ends-infix_rule : (t : TokenType) → Ends k (infix_rule t)
  unfolding infix_rule
  Ends-infix_rule TokenType.bang_bang = Ends-print_op
  Ends-infix_rule TokenType.lparen = Ends-call_expr h
  Ends-infix_rule TokenType.l_arrow = Ends-binary_larrow h
  Ends-infix_rule TokenType.dot = Ends-dot h
  Ends-infix_rule TokenType.assign = Ends-assignment h
  Ends-infix_rule TokenType.as_ = Ends-as_op h
  Ends-infix_rule _ = Ends-binary h

-- The end of the text binds nothing.
not_last :
    (t : TokenType) (prec : ℕ)
    → ltb 0 prec ≡ true
    → leb prec (precedence t) ≡ true
    → is_type t TokenType.eof ≡ false
unfolding precedence
not_last TokenType.eof prec pos e = ground (arith, pos, e)
not_last _ prec pos e = refl

more_left : (s : State) → is_type s.parser.current.type TokenType.eof ≡ false → 0 < remaining s
more_left s e = ground (arith, e)

and_left : (a b : Bool) → (a && b) ≡ true → a ≡ true
and_left true b e = refl
and_left false b e = e

module _ ⦃p : Platform⦄ ⦃c : Calls⦄ {k : ℕ} (h : Calling c k) where
  Eats-infix : (t : TokenType) → Eats k (advance >> (infix_rule t >> pure (again tt)))
  Eats-infix t =
      Eats-bind _ _ Eats-advance
        (λ u. Ends-mono _ (omega arith) (Ends-then _ _ (Ends-infix_rule h t) (Ends-pure _)))

  Turns-infix_turn : (prec : ℕ) → ltb 0 prec ≡ true → (u : Unit {0}) → Turns k (infix_turn prec u)
  unfolding infix_turn ◌>>=◌ has_implicit_terminator
  Turns-infix_turn prec pos u = record {
    at = λ s hs r.
        turn_at _ _ s hs r (Eats-infix s.parser.current.type)
          (λ e. more_left s (not_last s.parser.current.type prec pos (and_left _ _ e)));
  }
    where
      turn_at :
          (b : Bool) (m : P (Turn (Unit {0}))) (s : State)
          → Sound s
          → remaining s ≤ k
          → Eats k m
          → (b ≡ true → 0 < remaining s)
          → PostValue ((if b then m else pure (finish tt)) s) (OnTaken s)
      turn_at true m s h r e f = on_taken (m s) s (f refl) (e.at s h r)
      turn_at false m s h r e f = Goes-refl s h

  Ends-infix_turns : (prec : ℕ) → ltb 0 prec ≡ true → Ends k (iterate c.rounds (infix_turn prec) tt)
  Ends-infix_turns prec pos =
      Ends-Turns c.rounds (infix_turn prec) tt (omega (arith, h.rounds)) (Turns-infix_turn prec pos)

  pub Eats-precedence_body : (prec : ℕ) → ltb 0 prec ≡ true → Eats (suc k) (precedence_body prec)
  unfolding precedence_body
  Eats-precedence_body prec pos = Eats-bind _ _ Eats-advance (λ u. Ends-mono _ (omega arith) (
      Ends-bind _ _ Ends-get (λ s.
        Ends-prefix_rule h s.parser.previous.type _ _ (search steps depth 20)
          (Ends-infix_turns prec pos))))

Ends-unexpected : Ends 0 (error_at_previous (says "Expect expression."))
Ends-unexpected = search steps depth 20

-- The token behind which an `advance` goes on.
report-previous : (s : State) → (report_lexical s).parser.previous ≡ s.parser.previous
unfolding report_lexical report
report-previous s = ground arith

-- The token that is kept over a step.
Keeps : Lexeme → State → Type 0
Keeps token t = t.parser.previous ≡ token

Keeps-if :
    (token : Lexeme) (b : Bool) (r : Outcome (Unit {0})) (u : State)
    → Post r (Keeps token)
    → Keeps token u
    → Post (if b then r else ok tt u) (Keeps token)
Keeps-if token true r u p q = p
Keeps-if token false r u p q = q

skip_errors-Keeps :
    (token : Lexeme) (rounds : ℕ) (s : State)
    → Keeps token s
    → Post (skip_errors rounds s) (Keeps token)
unfolding skip_errors fetch Keeps
skip_errors-Keeps token zero s e = e
skip_errors-Keeps token (suc rounds) s e =
    Keeps-if token (is_type (fetch s).parser.current.type TokenType.error)
      (skip_errors rounds (report_lexical (fetch s))) (fetch s)
      (skip_errors-Keeps token rounds (report_lexical (fetch s)) (report-previous (fetch s) ∙ e)) e

advance-Keeps : (s : State) → Post (advance s) (Keeps s.parser.current)
unfolding advance Keeps
advance-Keeps s =
    skip_errors-Keeps s.parser.current _
      (record s { parser = record s.parser { previous = s.parser.current } }) refl

both :
    {A : Type 0} (r : Outcome A) (Q R : State → Type 0)
    → Post r Q
    → Post r R
    → Post r (λ t. Q t × R t)
both (ok a t) Q R q r = (q, r)
both (stop undefined) Q R q r = tt
both (stop out_of_rounds) Q R q r = q

module _ ⦃p : Platform⦄ ⦃c : Calls⦄ where
  no_rule :
      (t : TokenType) (m : P (Unit {0})) (f : P (Unit {0}) → P (Unit {0}))
      → t ≡ TokenType.eof
      → on_option (prefix_rule t) m f ≡ m
  unfolding prefix_rule on_option
  no_rule t m f e = ap (λ x. on_option (prefix_rule x) m f) e

  reported :
      (prec : ℕ) (s t : State)
      → remaining s ≡ 0
      → Keeps s.parser.current t
      → Goes s t
      → Post
          (on_option
            (prefix_rule t.parser.previous.type)
            (error_at_previous (says "Expect expression."))
            (λ prefix. prefix >> iterate c.rounds (infix_turn prec) tt)
            t)
          (Takes s)
  unfolding Keeps
  reported prec s t e q g =
      subst (λ (m : P (Unit {0})). Post (m t) (Takes s))
        (sym (
          no_rule t.parser.previous.type _
            (λ prefix. prefix >> iterate c.rounds (infix_turn prec) tt)
            (ap (λ (x : Lexeme). x.type) q
              ∙ is_type-eof s.parser.current.type (ground (arith, e)))))
        (Post-mono (error_at_previous (says "Expect expression.") t) (Goes t) (Takes s)
          (Ends-unexpected.at t g.sound (omega (arith, g.less, e)))
          (λ u f. (Goes-trans g f, omega (arith, g.less, f.less, e))))

  -- At the end of the text there is no expression.
  pub Eats-precedence_body_last : (prec : ℕ) → Eats 0 (precedence_body prec)
  unfolding precedence_body ◌>>=◌
  Eats-precedence_body_last prec = record {
    at = λ s h r.
        Post-bind advance _ s (λ t. Takes s t × Keeps s.parser.current t) (Takes s)
          (both (advance s) (Takes s) (Keeps s.parser.current) ((Eats-advance {k = 0}).at s h r)
            (advance-Keeps s))
          (λ u t g. reported prec s t (omega arith) g.1 g.0.0);
  }

module _ ⦃c : Calls⦄ {k : ℕ} (e : Eats k c.statement) (l : k < c.rounds) where
  Turns-block_turn : (empty : Bool) → Turns k (block_turn empty)
  unfolding block_turn
  Turns-block_turn empty =
      Turns-before_or_eof TokenType.rbracket _
        (Eats-bind_behind _ _ (search (steps, Ends-type_pop) depth 20)
          (λ u. Eats-bind _ _ e (λ v. Ends-pure _)))
        (Turns-finish empty)

  block_turns : Ends k (iterate c.rounds block_turn true)
  block_turns = Ends-Turns c.rounds block_turn true l Turns-block_turn

  pub Ends-block_body : Ends k block_body
  unfolding block_body
  Ends-block_body = search (steps, block_turns, Ends-type_push) depth 40 fits 20000
