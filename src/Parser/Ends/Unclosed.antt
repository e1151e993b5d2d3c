-- ===== src/Parser/Ends/Unclosed.antt =====
-- The loop over the parameters in `parse_function` of src/compiler.c where the text does not close
-- them.
use opo.Base.{
  ℕ, zero, suc, ◌≤◌, ◌<◌, ◌≡◌, refl, sym, ap, subst, List, [], Bool, true, not, Option, arith,
}
use opo.Lexer.{TokenType}
use opo.Parser.Ends.Functions.{room, Fills-param_turn}
use opo.Parser.Ends.Loops.{PostValue, OnFilled}
use opo.Parser.Ends.Tokens.{is_type-eof}
use opo.Parser.Ends.Names.{Ends-emit_jump}
use opo.Parser.Ends.{Sound, remaining, Post, Goes, Ends, Ends-get}
use opo.Parser.Ends.Bodies.{Ends-set_pending}
use opo.Parser.Bodies.{parse_function}
use opo.Parser.Functions.{param_turn, function_header}
use opo.Parser.Tokens.{is_type, current_is, before}
use opo.Parser.{
  Lexeme, State, Outcome, ok, stop, undefined, out_of_rounds, P, pure, Turn, again, finish, next,
  bind, iterate, Calls, ◌>>=◌,
}

-- A round that does not leave the loop.
abbrev GoesOn : {A : Type 0} → Outcome (Turn A) → Type 0
GoesOn (ok (again a) s) = Unit {0}
GoesOn (ok (finish a) s) = ⊥
GoesOn (stop e) = Unit {0}

record Endless {A : Type 0} (m : P (Turn A)) : Type 0 where
  at : (s : State) → GoesOn (m s)

Endless-again : {A : Type 0} (a : A) → Endless (pure (again a))
unfolding pure
Endless-again a = record { at = λ s. tt }

module _ {A B : Type 0} where
  GoesOn-bind : (r : Outcome A) (f : A → P (Turn B)) → ((a : A) → Endless (f a)) → GoesOn (bind r f)
  GoesOn-bind (ok a t) f e = (e a).at t
  GoesOn-bind (stop x) f e = tt

  Endless-bind : (m : P A) (f : A → P (Turn B)) → ((a : A) → Endless (f a)) → Endless (m >>= f)
  unfolding ◌>>=◌
  Endless-bind m f e = record { at = λ s. GoesOn-bind (m s) f e }

-- At the end of the text the loop over parameters does not find its `>`.
before_rangle :
    {A : Type 0} (f : Bool → P (Turn A)) (s : State)
    → remaining s ≤ 0
    → Endless (f true)
    → GoesOn ((before TokenType.rangle >>= f) s)
unfolding before current_is pure ◌>>=◌
before_rangle f s r e =
    subst (λ b. GoesOn (f b s))
      (sym (
        ap (λ (x : TokenType). not (is_type x TokenType.rangle))
          (is_type-eof s.parser.current.type (ground (arith, r)))))
      (e.at s)

param_turn-GoesOn :
    (rounds : ℕ) (params : List (Lexeme × ℕ)) (s : State)
    → remaining s ≤ 0
    → GoesOn (param_turn rounds params s)
unfolding param_turn
param_turn-GoesOn rounds params s r = before_rangle _ s r (
    Endless-bind _ _ (λ u. Endless-bind _ _ (λ t. Endless-bind _ _ (λ u.
      Endless-bind _ _ (λ u. Endless-bind _ _ (λ type. Endless-bind _ _ (λ u. Endless-again _)))))))

undefined_on :
    (rounds n : ℕ) (r : Outcome (Turn (List (Lexeme × ℕ)))) (size : ℕ) (s : State)
    → PostValue r (OnFilled room size s)
    → GoesOn r
    → ((a : List (Lexeme × ℕ)) (t : State)
        → Goes s t
        → room a < size
        → iterate rounds (param_turn n) a t ≡ stop undefined)
    → next r (iterate rounds (param_turn n)) ≡ stop undefined
undefined_on rounds n (ok (again a) t) size s p g ih = ih a t p.0 p.1
undefined_on rounds n (ok (finish a) t) size s p g ih = absurd g
undefined_on rounds n (stop undefined) size s p g ih = refl
undefined_on rounds n (stop out_of_rounds) size s p g ih = absurd p

iterate-param_turn :
    (rounds n : ℕ) (params : List (Lexeme × ℕ)) (s : State)
    → Sound s
    → remaining s ≤ 0
    → 17 < n
    → room params < rounds
    → iterate rounds (param_turn n) params s ≡ stop undefined
unfolding iterate
iterate-param_turn zero n params s h r l e = absurd (omega arith)
iterate-param_turn (suc rounds) n params s h r l e =
    undefined_on rounds n (param_turn n params s) (room params) s
      ((Fills-param_turn {k = 0} n (omega arith) params).at s h r) (param_turn-GoesOn n params s r)
      (λ a t g less.
        iterate-param_turn rounds n a t g.sound (omega (arith, g.less)) l (omega arith))

-- At the end of the text it does what C leaves undefined.
record Undefined {A : Type 0} (m : P A) : Type 0 where
  at : (s : State) → Sound s → remaining s ≤ 0 → m s ≡ stop undefined

module _ {A B : Type 0} where
  undefined_behind :
      (r : Outcome A) (f : A → P B) (s : State)
      → remaining s ≤ 0
      → Post r (Goes s)
      → ((a : A) → Undefined (f a))
      → bind r f ≡ stop undefined
  undefined_behind (ok a t) f s r g e = (e a).at t g.sound (omega (arith, g.less))
  undefined_behind (stop undefined) f s r g e = refl
  undefined_behind (stop out_of_rounds) f s r g e = absurd g

  Undefined-behind :
      (m : P A) (f : A → P B) → Ends 0 m → ((a : A) → Undefined (f a)) → Undefined (m >>= f)
  unfolding ◌>>=◌
  Undefined-behind m f e u = record {
    at = λ s h r. undefined_behind (m s) f s r (e.at s h (omega arith)) u;
  }

  Undefined-bind : (m : P A) (f : A → P B) → Undefined m → Undefined (m >>= f)
  unfolding ◌>>=◌
  Undefined-bind m f u = record { at = λ s h r. ap (λ x. bind x f) (u.at s h r) }

Undefined-function_header : (rounds : ℕ) → 18 ≤ rounds → Undefined (function_header rounds)
unfolding function_header
Undefined-function_header rounds l =
    Undefined-bind _ _ (record {
      at = λ s h r. iterate-param_turn rounds rounds [] s h r (omega arith) (omega arith);
    })

module _ ⦃c : Calls⦄ where
  -- Where the text ends in front of the parameters of a function, with 18 rounds or more, whatever
  -- was compiled before: `parse_function` neither returns nor is out of rounds, but comes to what C
  -- leaves undefined.
  pub parse_function_unclosed :
      (is_expression is_public : Bool) (prefix : Option (List ℕ)) (s : State)
      → Sound s
      → is_type s.parser.current.type TokenType.eof ≡ true
      → 18 ≤ c.rounds
      → parse_function is_expression is_public prefix s ≡ stop undefined
  unfolding parse_function
  parse_function_unclosed is_expression is_public prefix s h e l =
      (Undefined-behind _ _ Ends-get (λ before. Undefined-behind _ _ (Ends-set_pending _) (λ u.
          Undefined-behind _ _ (Ends-emit_jump _)
            (λ jump. Undefined-bind _ _ (Undefined-function_header c.rounds l))))).at
        s h (ground (arith, e))
