-- ===== src/Parser/Ends/Loops.antt =====
-- The loops of src/compiler.c's parser keep within their bounds: because a round takes a token, or
-- because it fills an array.
use opo.Base.{
  ℕ, zero, suc, ◌≤◌, ◌<◌, ◌≡◌, refl, inl, inr, Bool, true, false, if◌then◌else◌, arith, Bool-cases,
}
use opo.Lexer.{TokenType}
use opo.Parser.Ends.Tokens.{match_taken, match-bind}
use opo.Parser.Ends.{
  Sound, remaining, Goes, Goes-refl, Goes-trans, Post, Post-mono, Ends, Eats, Takes,
}
use opo.Parser.Tokens.{is_type, match, current_is, before, before_or_eof}
use opo.Parser.{
  State, Outcome, ok, stop, undefined, out_of_rounds, P, pure, bind, demand, Turn, again, finish,
  next, iterate, ◌>>=◌,
}

-- What holds of the value and the state behind a function that returns.
abbrev pub PostValue : {A : Type 0} → Outcome A → (A → State → Type 0) → Type 0
PostValue (ok a s) Q = Q a s
PostValue (stop undefined) Q = Unit {0}
PostValue (stop out_of_rounds) Q = ⊥

-- The loop goes on only behind a token that is taken.
abbrev pub OnTaken : {A : Type 0} → State → Turn A → State → Type 0
OnTaken s (again a) t = Goes s t × (remaining t < remaining s)
OnTaken s (finish a) t = Goes s t

pub record Turns {A : Type 0} (k : ℕ) (m : P (Turn A)) : Type 0 where
  pub at : (s : State) → Sound s → remaining s ≤ k → PostValue (m s) (OnTaken s)

-- The loop goes on only with a smaller `size`.
abbrev pub OnFilled : {A : Type 0} → (A → ℕ) → ℕ → State → Turn A → State → Type 0
OnFilled size n s (again a) t = Goes s t × (size a < n)
OnFilled size n s (finish a) t = Goes s t

pub record Fills {A : Type 0} (k : ℕ) (size : A → ℕ) (n : ℕ) (m : P (Turn A)) : Type 0 where
  pub at : (s : State) → Sound s → remaining s ≤ k → PostValue (m s) (OnFilled size n s)

module _ {A : Type 0} where
  taken_on :
      (rounds : ℕ) (body : A → P (Turn A)) (r : Outcome (Turn A)) (s : State)
      → PostValue r (OnTaken s)
      → ((a : A) (t : State)
          → Goes s t
          → remaining t < remaining s
          → Post (iterate rounds body a t) (Goes t))
      → Post (next r (iterate rounds body)) (Goes s)
  taken_on rounds body (ok (again a) t) s p ih =
      Post-mono _ (Goes t) (Goes s) (ih a t p.0 p.1) (λ u g. Goes-trans p.0 g)
  taken_on rounds body (ok (finish a) t) s p ih = p
  taken_on rounds body (stop undefined) s p ih = tt
  taken_on rounds body (stop out_of_rounds) s p ih = p

  filled_on :
      (rounds : ℕ) (body : A → P (Turn A)) (size : A → ℕ) (n : ℕ) (r : Outcome (Turn A)) (s : State)
      → PostValue r (OnFilled size n s)
      → ((a : A) (t : State) → Goes s t → size a < n → Post (iterate rounds body a t) (Goes t))
      → Post (next r (iterate rounds body)) (Goes s)
  filled_on rounds body size n (ok (again a) t) s p ih =
      Post-mono _ (Goes t) (Goes s) (ih a t p.0 p.1) (λ u g. Goes-trans p.0 g)
  filled_on rounds body size n (ok (finish a) t) s p ih = p
  filled_on rounds body size n (stop undefined) s p ih = tt
  filled_on rounds body size n (stop out_of_rounds) s p ih = p

  taken_from :
      (r : Outcome (Turn A)) (s t : State)
      → Goes s t
      → PostValue r (OnTaken t)
      → PostValue r (OnTaken s)
  taken_from (ok (again a) u) s t g p = (Goes-trans g p.0, omega (arith, g.less, p.1))
  taken_from (ok (finish a) u) s t g p = Goes-trans g p
  taken_from (stop undefined) s t g p = tt
  taken_from (stop out_of_rounds) s t g p = p

  filled_from :
      (size : A → ℕ) (n : ℕ) (r : Outcome (Turn A)) (s t : State)
      → Goes s t
      → PostValue r (OnFilled size n t)
      → PostValue r (OnFilled size n s)
  filled_from size n (ok (again a) u) s t g p = (Goes-trans g p.0, p.1)
  filled_from size n (ok (finish a) u) s t g p = Goes-trans g p
  filled_from size n (stop undefined) s t g p = tt
  filled_from size n (stop out_of_rounds) s t g p = p

  -- A round that takes a token whether or not it goes on, from where there is one.
  pub on_taken :
      (r : Outcome (Turn A)) (s : State)
      → 0 < remaining s
      → Post r (Takes s)
      → PostValue r (OnTaken s)
  on_taken (ok (again a) t) s l p = (p.0, omega (arith, p.1))
  on_taken (ok (finish a) t) s l p = p.0
  on_taken (stop undefined) s l p = tt
  on_taken (stop out_of_rounds) s l p = p

  on_less :
      (r : Outcome (Turn A)) (s : State)
      → Post r (λ u. Goes s u × (remaining u < remaining s))
      → PostValue r (OnTaken s)
  on_less (ok (again a) t) s p = p
  on_less (ok (finish a) t) s p = p.0
  on_less (stop undefined) s p = tt
  on_less (stop out_of_rounds) s p = p

module _ {A : Type 0} {k : ℕ} where
  iterate-Turns :
      (rounds : ℕ) (body : A → P (Turn A)) (a : A) (s : State)
      → ((b : A) → Turns k (body b))
      → Sound s
      → remaining s ≤ k
      → remaining s < rounds
      → Post (iterate rounds body a s) (Goes s)
  unfolding iterate
  iterate-Turns zero body a s e h r l = absurd (omega arith)
  iterate-Turns (suc rounds) body a s e h r l =
      taken_on rounds body (body a s) s ((e a).at s h r)
        (λ b t g less. iterate-Turns rounds body b t e g.sound (omega arith) (omega arith))

  pub Ends-Turns :
      (rounds : ℕ) (body : A → P (Turn A)) (a : A)
      → k < rounds
      → ((b : A) → Turns k (body b))
      → Ends k (iterate rounds body a)
  Ends-Turns rounds body a l e = record {
    at = λ s h r. iterate-Turns rounds body a s e h r (omega arith);
  }

  iterate-Fills :
      (rounds : ℕ) (body : A → P (Turn A)) (size : A → ℕ) (a : A) (s : State)
      → ((b : A) → Fills k size (size b) (body b))
      → Sound s
      → remaining s ≤ k
      → size a < rounds
      → Post (iterate rounds body a s) (Goes s)
  unfolding iterate
  iterate-Fills zero body size a s e h r l = absurd (omega arith)
  iterate-Fills (suc rounds) body size a s e h r l =
      filled_on rounds body size (size a) (body a s) s ((e a).at s h r) (λ b t g less.
        iterate-Fills rounds body size b t e g.sound (omega (arith, g.less)) (omega arith))

  pub Ends-Fills :
      (rounds : ℕ) (body : A → P (Turn A)) (size : A → ℕ) (a : A)
      → size a < rounds
      → ((b : A) → Fills k size (size b) (body b))
      → Ends k (iterate rounds body a)
  Ends-Fills rounds body size a l e = record {
    at = λ s h r. iterate-Fills rounds body size a s e h r l;
  }

  pub Turns-finish : (a : A) → Turns k (pure (finish a))
  unfolding pure
  Turns-finish a = record { at = λ s h r. Goes-refl s h }

  pub Turns-if :
      (b : Bool) (m n : P (Turn A)) → Turns k m → Turns k n → Turns k (if b then m else n)
  Turns-if true m n em en = em
  Turns-if false m n em en = en

  pub Fills-finish : (size : A → ℕ) (n : ℕ) (a : A) → Fills k size n (pure (finish a))
  unfolding pure
  Fills-finish size n a = record { at = λ s h r. Goes-refl s h }

  pub Fills-again : (size : A → ℕ) (n : ℕ) (a : A) → size a < n → Fills k size n (pure (again a))
  unfolding pure
  Fills-again size n a l = record { at = λ s h r. (Goes-refl s h, l) }

  pub Fills-if :
      (size : A → ℕ) (n : ℕ) (b : Bool) (m m' : P (Turn A))
      → Fills k size n m
      → Fills k size n m'
      → Fills k size n (if b then m else m')
  Fills-if size n true m m' e e' = e
  Fills-if size n false m m' e e' = e'

  -- Behind a test, what it says may be used.
  pub Fills-demand :
      (size : A → ℕ) (n : ℕ) (b : Bool) (f : Unit {0} → P (Turn A))
      → (b ≡ true → Fills k size n (f tt))
      → Fills k size n (demand b >>= f)
  unfolding ◌>>=◌
  Fills-demand size n true f e = record { at = λ s h r. (e refl).at s h r }
  Fills-demand size n false f e = record { at = λ s h r. tt }

module _ {A B : Type 0} {k : ℕ} where
  round_behind :
      (r : Outcome A) (f : A → P (Turn B)) (s : State)
      → remaining s ≤ k
      → Post r (Goes s)
      → ((a : A) → Turns k (f a))
      → PostValue (bind r f) (OnTaken s)
  round_behind (ok a t) f s r g e =
      taken_from (f a t) s t g ((e a).at t g.sound (omega (arith, g.less)))
  round_behind (stop undefined) f s r g e = tt
  round_behind (stop out_of_rounds) f s r g e = g

  pub Turns-bind :
      (m : P A) (f : A → P (Turn B)) → Ends k m → ((a : A) → Turns k (f a)) → Turns k (m >>= f)
  unfolding ◌>>=◌
  Turns-bind m f em ef = record { at = λ s h r. round_behind (m s) f s r (em.at s h r) ef }

  later_rounds :
      (size : B → ℕ) (n : ℕ) (r : Outcome A) (f : A → P (Turn B)) (s : State)
      → remaining s ≤ k
      → Post r (Goes s)
      → ((a : A) → Fills k size n (f a))
      → PostValue (bind r f) (OnFilled size n s)
  later_rounds size n (ok a t) f s r g e =
      filled_from size n (f a t) s t g ((e a).at t g.sound (omega (arith, g.less)))
  later_rounds size n (stop undefined) f s r g e = tt
  later_rounds size n (stop out_of_rounds) f s r g e = g

  pub Fills-bind :
      (size : B → ℕ) (n : ℕ) (m : P A) (f : A → P (Turn B))
      → Ends k m
      → ((a : A) → Fills k size n (f a))
      → Fills k size n (m >>= f)
  unfolding ◌>>=◌
  Fills-bind size n m f em ef = record {
    at = λ s h r. later_rounds size n (m s) f s r (em.at s h r) ef;
  }

module _ {A : Type 0} {k : ℕ} where
  pub Turns-match_then :
      (t : TokenType) (f : Bool → P (Turn A))
      → is_type t TokenType.eof ≡ false
      → ((j : ℕ) → k ≡ suc j → Ends j (f true))
      → Turns k (f false)
      → Turns k (match t >>= f)
  Turns-match_then t f n e e' = record {
    at = λ s h r. elim (Bool-cases (is_type s.parser.current.type t)) [
      | inl yes_it ↦
          rw (match-bind t f s, yes_it) (on_less _ s (match_taken t f n k s e h r yes_it))
      | inr no_it ↦ rw (match-bind t f s, no_it) (e'.at s h r)
    ];
  }

  -- Where the loop stops at the end of the text, it is enough that a round takes a token.
  pub Turns-before_or_eof :
      (t : TokenType) (f : Bool → P (Turn A))
      → Eats k (f true)
      → Turns k (f false)
      → Turns k (before_or_eof t >>= f)
  unfolding before_or_eof current_is ◌>>=◌
  Turns-before_or_eof t f e e' = record {
    at = λ s h r. elim (Bool-cases (is_type s.parser.current.type t)) [
      | inl here ↦ rw here (e'.at s h r)
      | inr off ↦ rw off (elim (Bool-cases (is_type s.parser.current.type TokenType.eof)) [
        | inl end ↦ rw end (e'.at s h r)
        | inr more ↦ rw more (on_taken _ s (ground arith) (e.at s h r))
      ])
    ];
  }

  pub Turns-before_eof :
      (f : Bool → P (Turn A))
      → Eats k (f true)
      → Turns k (f false)
      → Turns k (before TokenType.eof >>= f)
  unfolding before current_is ◌>>=◌
  Turns-before_eof f e e' = record {
    at = λ s h r. elim (Bool-cases (is_type s.parser.current.type TokenType.eof)) [
      | inl end ↦ rw end (e'.at s h r)
      | inr more ↦ rw more (on_taken _ s (ground arith) (e.at s h r))
    ];
  }
