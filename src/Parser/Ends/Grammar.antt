-- ===== src/Parser/Ends/Grammar.antt =====
-- A depth of calls, growing with what is left to read, that the functions of src/compiler.c which
-- call one another never use up.
use opo.Base.{
  lt→ltb, ℕ, zero, suc, ◌+◌, ◌*◌, ◌≤◌, ◌<◌, ◌≡◌, refl, sym, ap, subst, ◌∙◌, ◌⊎◌, inl, inr, Bool,
  true, false, ltb, arith,
}
use opo.Lexer.{TokenType}
use opo.Parser.Ends.Calling.{Calling}
use opo.Parser.Ends.Match.{Ends-match_statement}
use opo.Parser.Ends.Names.{steps, Ends-type_push}
use opo.Parser.Ends.Rules.{Eats-precedence_body, Eats-precedence_body_last, Ends-block_body}
use opo.Parser.Ends.Statement.{
  Ends-go_statement, Ends-try_statement, Ends-if_statement, Ends-loop_statement,
}
use opo.Parser.Ends.Tokens.{Eats-match_then, Ends-current_is, is_type-eof}
use opo.Parser.Ends.{
  Sound, remaining, Post, Goes, Ends, Eats, Takes, Ends-of_Eats, Ends-mono, Ends-bind, Ends-if,
  Eats-bind, Eats-bind_behind,
}
use opo.Parser.Rules.{precedence_body}
use opo.Parser.Grammar.{statement_body, calls}
use opo.Parser.Statement.{expression_statement}
use opo.Parser.Tokens.{is_type, current_is}
use opo.Parser.{State, P, Outcome, ok, stop, undefined, out_of_rounds, Calls, expression, ◌>>=◌}
use opo.Platform.{Platform}

-- It comes to what C leaves undefined, or returns with a state of which `Q` holds.
abbrev pub UndefinedOr : {A : Type 0} → Outcome A → (State → Type 0) → Type 0
UndefinedOr {A} r Q = (r ≡ stop undefined) ⊎ ((a : A) × (t : State) × (r ≡ ok a t) × Q t)

UndefinedOr-of_Post : {A : Type 0} (r : Outcome A) (Q : State → Type 0) → Post r Q → UndefinedOr r Q
UndefinedOr-of_Post (ok a t) Q q = inr (a, t, refl, q)
UndefinedOr-of_Post (stop undefined) Q q = inl refl
UndefinedOr-of_Post (stop out_of_rounds) Q q = absurd q

-- At the end of the text no other token is current.
Ends-current_none :
    {A : Type 0} (t : TokenType) (f : Bool → P A)
    → is_type TokenType.eof t ≡ false
    → Ends 0 (f false)
    → Ends 0 (current_is t >>= f)
unfolding current_is ◌>>=◌
Ends-current_none t f n e = record {
  at = λ s h r.
      subst (λ b. Post (f b s) (Goes s))
        (sym (
          ap (λ (x : TokenType). is_type x t)
            (is_type-eof s.parser.current.type (ground (arith, r)))
          ∙ n))
        (e.at s h r);
}

module _ ⦃c : Calls⦄ where
  Eats-expression_statement_last : Eats 0 expression → Eats 0 expression_statement
  unfolding expression_statement
  Eats-expression_statement_last e = Eats-bind_behind _ _ (search steps depth 20) (λ start.
      Eats-bind _ _ e (λ u.
        Ends-current_none TokenType.question _ refl
          (Ends-current_none TokenType.at _ refl (search steps depth 20))))

  Eats-statement_body_last : Eats 0 expression → Eats 0 statement_body
  unfolding statement_body
  Eats-statement_body_last e =
      Eats-match_then TokenType.match _ refl (λ j p. absurd (omega (arith, p)))
        (Eats-match_then TokenType.go _ refl (λ j p. absurd (omega (arith, p)))
          (Eats-match_then TokenType.semicolon _ refl (λ j p. absurd (omega (arith, p)))
            (Eats-match_then TokenType.try _ refl (λ j p. absurd (omega (arith, p)))
              (Eats-expression_statement_last e))))

module _ ⦃c : Calls⦄ {k : ℕ} (h : Calling c k) where
  Eats-expression_statement : Eats (suc k) expression → Eats (suc k) expression_statement
  unfolding expression_statement
  Eats-expression_statement e = Eats-bind_behind _ _ (search steps depth 20) (λ start.
      Eats-bind _ _ e (λ u. Ends-mono _ (omega arith) (
        Ends-bind _ _ (Ends-current_is _) (λ question. Ends-bind _ _ (Ends-current_is _) (λ at.
          Ends-if question _ _ (Ends-if_statement h)
            (Ends-if at _ _ (Ends-loop_statement h start) (search steps depth 20)))))))

  Eats-statement_body : Eats (suc k) expression → Eats (suc k) statement_body
  unfolding statement_body
  Eats-statement_body e =
      Eats-match_then TokenType.match _ refl
        (λ j p. Ends-mono _ (omega (arith, p)) (Ends-match_statement h))
        (Eats-match_then TokenType.go _ refl
          (λ j p. Ends-mono _ (omega (arith, p)) (Ends-go_statement h))
          (Eats-match_then TokenType.semicolon _ refl (λ j p. Ends-type_push _)
            (Eats-match_then TokenType.try _ refl
              (λ j p. Ends-mono _ (omega (arith, p)) (Ends-try_statement h))
              (Eats-expression_statement e))))

module _ ⦃p : Platform⦄ where
  -- The depth of the calls that is enough for so much left to read.
  pub record Levels (n : ℕ) : Type 0 where
    pub precedence :
        (k prec : ℕ) → 4 * k + 18 ≤ n → ltb 0 prec ≡ true → Eats k ((calls n).parse_precedence prec)
    pub statement : (k : ℕ) → 4 * k + 19 ≤ n → Eats k (calls n).statement
    pub block : (k : ℕ) → 4 * k + 20 ≤ n → Ends k (calls n).block

  calls-rounds : (n : ℕ) → (calls n).rounds ≡ n
  unfolding calls
  calls-rounds zero = refl
  calls-rounds (suc n) = refl

  pub calling : {n : ℕ} (k : ℕ) → Levels n → 4 * k + 20 ≤ n → Calling (calls n) k
  calling {n} k l e = record {
    precedence = λ prec pos. Ends-of_Eats _ (l.precedence k prec (omega arith) pos);
    block = l.block k e;
    statement = Ends-of_Eats _ (l.statement k (omega arith));
    rounds = omega (arith, calls-rounds n);
  }

  Eats-precedence :
      (n : ℕ)
      → Levels n
      → (k prec : ℕ) → 4 * k + 18 ≤ suc n
      → ltb 0 prec ≡ true
      → Eats k (precedence_body ⦃c = calls n⦄ prec)
  Eats-precedence n l zero prec e pos = Eats-precedence_body_last ⦃c = calls n⦄ prec
  Eats-precedence n l (suc k) prec e pos =
      Eats-precedence_body ⦃c = calls n⦄ (calling k l (omega arith)) prec pos

  Eats-statement :
      (n : ℕ) → Levels n → (k : ℕ) → 4 * k + 19 ≤ suc n → Eats k (statement_body ⦃c = calls n⦄)
  Eats-statement n l zero e =
      Eats-statement_body_last ⦃c = calls n⦄ (l.precedence 0 1 (omega arith) refl)
  Eats-statement n l (suc k) e =
      Eats-statement_body ⦃c = calls n⦄ (calling k l (omega arith))
        (l.precedence (suc k) 1 (omega arith) refl)

  pub levels : (n : ℕ) → Levels n
  unfolding calls
  levels zero = record {
    precedence = λ k prec e pos. absurd (omega arith);
    statement = λ k e. absurd (omega arith);
    block = λ k e. absurd (omega arith);
  }
  levels (suc n) =
      let l = levels n in
      record {
        precedence = Eats-precedence n l;
        statement = Eats-statement n l;
        block = λ k e.
            Ends-block_body ⦃c = calls n⦄ (l.statement k (omega arith))
              (omega (arith, calls-rounds n));
      }

  -- From any state whose cursor is inside the text, whatever the text is, and at any precedence but
  -- `PREC_NONE`, with a depth of four calls for each byte and token that is left to read, and 20
  -- more: `parse_precedence`, `statement` and `block` never stop for want of rounds. Each either
  -- comes to what C leaves undefined or returns; where it returns, `parse_precedence` and
  -- `statement` have taken a token unless none was left, the cursor is inside the text, no import
  -- and no error is forgotten, and the code has not shrunk.
  pub rounds_suffice :
      (rounds prec : ℕ) (s : State)
      → 0 < prec
      → Sound s
      → 4 * remaining s + 20 ≤ rounds
      → UndefinedOr ((calls rounds).parse_precedence prec s) (Takes s)
        × UndefinedOr ((calls rounds).statement s) (Takes s)
        × UndefinedOr ((calls rounds).block s) (Goes s)
  rounds_suffice rounds prec s pos h e =
      let l = levels rounds in
      (
        UndefinedOr-of_Post _ (Takes s) (
            (l.precedence (remaining s) prec (omega arith) (lt→ltb 0 prec pos)).at s h
              (omega arith)),
        UndefinedOr-of_Post _ (Takes s)
            ((l.statement (remaining s) (omega arith)).at s h (omega arith)),
        UndefinedOr-of_Post _ (Goes s) ((l.block (remaining s) e).at s h (omega arith)),
      )
