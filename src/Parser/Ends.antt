-- ===== src/Parser/Ends.antt =====
-- Bounds for the loops and the recursion of src/compiler.c's parser that its functions never use
-- up: what a step does to the state, and a rule for each way in which a function is put together. A
-- function keeps within its bounds when it returns or comes to what C leaves undefined.
pub mod Tokens
pub mod Loops
pub mod Names
pub mod Calling
pub mod Types
pub mod Values
pub mod Operators
pub mod Invoke
pub mod Access
pub mod Variable
pub mod Identifier
pub mod Assignment
pub mod Functions
pub mod Captures
pub mod Bodies
pub mod Statement
pub mod Match
pub mod Rules
pub mod Grammar
pub mod Unclosed
use opo.Base.{
  ℕ, zero, suc, ◌-◌, ◌≤◌, ◌<◌, ◌≡◌, refl, sym, ap, ap₂, ◌∙◌, Bool, true, false, Option, none, some,
  List, if◌then◌else◌, length, arith,
}
use opo.Compiler.{Chunk}
use opo.Lexer.{TokenType, Lexer, peek}
use opo.Lexer.Cursor.{left}
use opo.Parser.Tokens.{is_type}
use opo.Parser.{
  Lexeme, CompilerState, State, Outcome, ok, stop, undefined, out_of_rounds, P, pure, fail, bind,
  get, with_compiler, emit, when, demand, on_option, iterate, ◌>>=◌, ◌>>◌,
}

-- The cursor is inside the text, and at its end when the current token says so.
pub record Sound (s : State) : Type 0 where
  pub within : s.lexer.current ≤ length s.lexer.source
  pub at_end : is_type s.parser.current.type TokenType.eof ≡ true → peek s.lexer ≡ 0
  pub empty : is_type s.parser.current.type TokenType.eof ≡ true → s.parser.current.length ≡ 0

abbrev left_behind : Lexer → Lexeme → ℕ
left_behind l t = if is_type t.type TokenType.eof then 0 else suc (left l)

-- The bytes that are left behind the current token, and one for the token unless it is the last.
abbrev pub remaining : State → ℕ
remaining s = left_behind s.lexer s.parser.current

-- From a state to a later one: no more is left to read, no import and no error is forgotten, and
-- the code does not shrink.
pub record Goes (s s' : State) : Type 0 where
  pub sound : Sound s'
  pub less : remaining s' ≤ remaining s
  pub modules : s.compiled_modules_count ≤ s'.compiled_modules_count
  pub errors : s.parser.had_error ≡ true → s'.parser.had_error ≡ true
  pub code : length s.chunk.code ≤ length s'.chunk.code

pub Goes-refl : (s : State) → Sound s → Goes s s
Goes-refl s h = record {
  sound = h;
  less = omega arith;
  modules = omega arith;
  errors = λ e. e;
  code = omega arith;
}

pub Goes-trans : {s t u : State} → Goes s t → Goes t u → Goes s u
Goes-trans a b = record {
  sound = b.sound;
  less = omega (arith, a.less, b.less);
  modules = omega (arith, a.modules, b.modules);
  errors = λ e. b.errors (a.errors e);
  code = omega (arith, a.code, b.code);
}

-- What holds of the state behind a function that returns; it may also do what C leaves undefined,
-- but does not run out of rounds.
abbrev pub Post : {A : Type 0} → Outcome A → (State → Type 0) → Type 0
Post (ok a s) Q = Q s
Post (stop undefined) Q = Unit {0}
Post (stop out_of_rounds) Q = ⊥

by_outcome :
    {A B : Type 0} (r : Outcome A) (f : A → P B) (Q R : State → Type 0)
    → Post r Q
    → ((a : A) (t : State) → Q t → Post (f a t) R)
    → Post (bind r f) R
by_outcome (ok a t) f Q R p q = q a t p
by_outcome (stop undefined) f Q R p q = tt
by_outcome (stop out_of_rounds) f Q R p q = p

pub Post-bind :
    {A B : Type 0} (m : P A) (f : A → P B) (s : State) (Q R : State → Type 0)
    → Post (m s) Q
    → ((a : A) (t : State) → Q t → Post (f a t) R)
    → Post ((m >>= f) s) R
unfolding ◌>>=◌
Post-bind m f s Q R p q = by_outcome (m s) f Q R p q

pub Post-mono :
    {A : Type 0} (r : Outcome A) (Q R : State → Type 0)
    → Post r Q
    → ((t : State) → Q t → R t)
    → Post r R
Post-mono (ok a t) Q R p q = q t p
Post-mono (stop undefined) Q R p q = tt
Post-mono (stop out_of_rounds) Q R p q = p

same_end :
    {t u : Lexeme}
    → t ≡ u
    → is_type t.type TokenType.eof ≡ true
    → is_type u.type TokenType.eof ≡ true
same_end c x = ap (λ (y : Lexeme). is_type y.type TokenType.eof) (sym c) ∙ x

-- A step that leaves the lexer, the current token and the count of modules.
pub Goes-step :
    (s t : State)
    → Sound s
    → t.lexer ≡ s.lexer
    → t.parser.current ≡ s.parser.current
    → t.compiled_modules_count ≡ s.compiled_modules_count
    → (s.parser.had_error ≡ true → t.parser.had_error ≡ true)
    → length s.chunk.code ≤ length t.chunk.code
    → Goes s t
Goes-step s t h l c m e n = record {
  sound = record {
    within = ground (arith, h.within);
    at_end = λ x. ap peek l ∙ h.at_end (same_end c x);
    empty = λ x. ap (λ (y : Lexeme). y.length) c ∙ h.empty (same_end c x);
  };
  less = omega (arith, ap₂ left_behind l c);
  modules = omega (arith, m);
  errors = e;
  code = n;
}

-- With so much left to read at most, the function keeps within its bounds; `Eats` takes a token
-- besides, unless there is none.
pub record Ends {A : Type 0} (k : ℕ) (m : P A) : Type 0 where
  pub at : (s : State) → Sound s → remaining s ≤ k → Post (m s) (Goes s)

abbrev pub Takes : State → State → Type 0
Takes s t = Goes s t × (remaining t ≤ remaining s - 1)

pub record Eats {A : Type 0} (k : ℕ) (m : P A) : Type 0 where
  pub at : (s : State) → Sound s → remaining s ≤ k → Post (m s) (Takes s)

module _ {A : Type 0} {k : ℕ} where
  pub Ends-of_Eats : (m : P A) → Eats k m → Ends k m
  Ends-of_Eats m e = record { at = λ s h r. Post-mono (m s) _ (Goes s) (e.at s h r) (λ t g. g.0) }

  pub Ends-mono : (m : P A) {j : ℕ} → j ≤ k → Ends k m → Ends j m
  Ends-mono m l e = record { at = λ s h r. e.at s h (omega arith) }

  pub Eats-mono : (m : P A) {j : ℕ} → j ≤ k → Eats k m → Eats j m
  Eats-mono m l e = record { at = λ s h r. e.at s h (omega arith) }

  pub Ends-pure : (a : A) → Ends k (pure a)
  unfolding pure
  Ends-pure a = record { at = λ s h r. Goes-refl s h }

  pub Ends-undefined : Ends k (fail {A = A} undefined)
  unfolding fail
  Ends-undefined = record { at = λ s h r. tt }

  pub Ends-if : (b : Bool) (m n : P A) → Ends k m → Ends k n → Ends k (if b then m else n)
  Ends-if true m n em en = em
  Ends-if false m n em en = en

module _ {k : ℕ} where
  pub Ends-get : Ends k get
  unfolding get
  Ends-get = record { at = λ s h r. Goes-refl s h }

  pub Ends-with_compiler : (f : CompilerState → CompilerState) → Ends k (with_compiler f)
  unfolding with_compiler
  Ends-with_compiler f = record {
    at = λ s h r. Goes-step s _ h refl refl refl (λ e. e) (omega arith);
  }

  pub Ends-when : (b : Bool) (m : P (Unit {0})) → Ends k m → Ends k (when b m)
  unfolding when
  Ends-when true m e = record { at = λ s h r. e.at s h r }
  Ends-when false m e = record { at = λ s h r. Goes-refl s h }

  pub Ends-demand : (b : Bool) → Ends k (demand b)
  unfolding demand
  Ends-demand true = record { at = λ s h r. Goes-refl s h }
  Ends-demand false = record { at = λ s h r. tt }

module _ {A B : Type 0} {k : ℕ} where
  pub Ends-bind : (m : P A) (f : A → P B) → Ends k m → ((a : A) → Ends k (f a)) → Ends k (m >>= f)
  Ends-bind m f em ef = record {
    at = λ s h r. Post-bind m f s (Goes s) (Goes s) (em.at s h r) (λ a t g.
        Post-mono (f a t) (Goes t) (Goes s) ((ef a).at t g.sound (omega (arith, g.less)))
          (λ u g'. Goes-trans g g'));
  }

  pub Ends-on_option :
      (o : Option A) (n : P B) (f : A → P B)
      → Ends k n
      → ((a : A) → Ends k (f a))
      → Ends k (on_option o n f)
  unfolding on_option
  Ends-on_option none n f en ef = en
  Ends-on_option (some a) n f en ef = ef a

  -- Behind a token that is taken there is less to read.
  pub Eats-bind :
      (m : P A) (f : A → P B) → Eats k m → ((a : A) → Ends (k - 1) (f a)) → Eats k (m >>= f)
  Eats-bind m f em ef = record {
    at = λ s h r. Post-bind m f s (Takes s) (Takes s) (em.at s h r) (λ a t g.
        Post-mono (f a t) (Goes t) (Takes s) ((ef a).at t g.0.sound (omega (arith, g.1)))
          (λ u g'. (Goes-trans g.0 g', omega (arith, g.1, g'.less))));
  }

  pub Eats-bind_behind :
      (m : P A) (f : A → P B) → Ends k m → ((a : A) → Eats k (f a)) → Eats k (m >>= f)
  Eats-bind_behind m f em ef = record {
    at = λ s h r. Post-bind m f s (Goes s) (Takes s) (em.at s h r) (λ a t g.
        Post-mono (f a t) (Takes t) (Takes s) ((ef a).at t g.sound (omega (arith, g.less)))
          (λ u g'. (Goes-trans g g'.0, omega (arith, g.less, g'.1))));
  }

pub Ends-then :
    {B : Type 0} {k : ℕ} (m : P (Unit {0})) (n : P B) → Ends k m → Ends k n → Ends k (m >> n)
Ends-then m n em en = Ends-bind m (λ _. n) em (λ _. en)

-- A change of the chunk that keeps the code that there is, or writes into it.
pub record Writes (f : Chunk → Chunk) : Type 0 where
  pub grows : (c : Chunk) → length c.code ≤ length (f c).code

pub Ends-emit : {k : ℕ} (f : Chunk → Chunk) → Writes f → Ends k (emit f)
unfolding emit
Ends-emit f w = record { at = λ s h r. Goes-step s _ h refl refl refl (λ e. e) (w.grows s.chunk) }
