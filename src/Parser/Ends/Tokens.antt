-- ===== src/Parser/Ends/Tokens.antt =====
-- The token functions of src/compiler.c's parser keep within their bounds, and `advance` takes a
-- token.
use opo.Base.{
  ℕ, zero, suc, ◌-◌, ◌≤◌, ◌<◌, ◌≡◌, refl, ap, ◌∙◌, inl, inr, Bool, true, false, if◌then◌else◌,
  String, List, length, arith, Bool-cases, ==_iff,
}
use opo.Lexer.Next.{lexer_next_token_lem}
use opo.Lexer.Tokens.{next_at_end}
use opo.Lexer.Cursor.{left}
use opo.Lexer.Scan.{lexer_next_token}
use opo.Lexer.{TokenType, peek}
use opo.Parser.Ends.{
  Sound, remaining, Goes, Goes-refl, Goes-trans, Goes-step, Post, Post-bind, Post-mono, Ends, Eats,
  Takes, Ends-bind, Ends-get, Ends-pure, Ends-if, Ends-of_Eats,
}
use opo.Parser.Tokens.{
  token_number, is_type, report, error_at, fetch, report_lexical, skip_errors, advance, consume,
  match, current_is, skip_type, has_implicit_terminator, match_statement_terminator, before,
  before_or_eof,
}
use opo.Parser.{Lexeme, Message, State, Outcome, ok, stop, P, pure, bind, ◌>>=◌}

pub is_type-eof : (t : TokenType) → is_type t TokenType.eof ≡ true → t ≡ TokenType.eof
is_type-eof TokenType.eof h = refl
is_type-eof _ h = ground arith

is_type_refl : (t : TokenType) → is_type t t ≡ true
is_type_refl t = (==_iff (token_number t) (token_number t)).1 refl

-- Two tokens of the same number are the end of the text together or not at all.
pub not_eof :
    (t u : TokenType)
    → is_type t u ≡ true
    → is_type u TokenType.eof ≡ false
    → is_type t TokenType.eof ≡ false
not_eof t u h n = ground (arith, ==_iff (token_number t) (token_number u))

Goes-if : (b : Bool) (s t u : State) → Goes s t → Goes s u → Goes s (if b then t else u)
Goes-if true s t u g k = g
Goes-if false s t u g k = k

pub report-Goes : (t : Lexeme) (m : Message) (s : State) → Sound s → Goes s (report t m s)
unfolding report
report-Goes t m s h =
    Goes-if s.parser.panic_mode s _ _ (Goes-refl s h)
      (Goes-step s _ h refl refl refl (λ e. refl) (omega arith))

pub Ends-error_at : {k : ℕ} (t : Lexeme) (m : Message) → Ends k (error_at t m)
unfolding error_at
Ends-error_at t m = record { at = λ s h r. report-Goes t m s h }

-- `parser.current = lexer_next_token()`, in a text whose cursor is inside it.
pub record Fetches (s t : State) : Type 0 where
  pub sound : Sound t
  pub less : remaining t ≤ left s.lexer
  pub bytes : left t.lexer ≤ left s.lexer
  pub last : peek s.lexer ≡ 0 → remaining t ≡ 0
  pub modules : t.compiled_modules_count ≡ s.compiled_modules_count
  pub errors : s.parser.had_error ≡ true → t.parser.had_error ≡ true
  pub code : t.chunk.code ≡ s.chunk.code

remaining-eof : (s : State) → s.parser.current.type ≡ TokenType.eof → remaining s ≡ 0
remaining-eof s e =
    ap (λ (y : TokenType). if is_type y TokenType.eof then 0 else suc (left s.lexer)) e

remaining-le : (s : State) → remaining s ≤ suc (left s.lexer)
remaining-le s = ground arith

fetch-Fetches : (s : State) → s.lexer.current ≤ length s.lexer.source → Fetches s (fetch s)
unfolding fetch
fetch-Fetches s h =
    let n = lexer_next_token_lem s.lexer h in
    let r = lexer_next_token s.lexer in
    record {
      sound = record {
        within = n.within;
        at_end = λ e. elim n.progress [
          | inl (eof, end) ↦ end
          | inr (more, ahead) ↦ absurd (more (is_type-eof r.0.type e))
        ];
        empty = λ e. n.empty (is_type-eof r.0.type e);
      };
      less = elim n.progress [
        | inl (eof, end) ↦ omega (arith, remaining-eof (fetch s) eof)
        | inr (more, ahead) ↦ ground (arith, n.source, n.within, remaining-le (fetch s))
      ];
      bytes = ground (arith, n.source, n.ahead);
      last = λ e. remaining-eof (fetch s) (next_at_end s.lexer e).0;
      modules = refl;
      errors = λ e. e;
      code = refl;
    }

Fetches-if : (b : Bool) (s t u : State) → Fetches s t → Fetches s u → Fetches s (if b then t else u)
Fetches-if true s t u g k = g
Fetches-if false s t u g k = k

-- `error_at` on the token that has just been read.
report_lexical-Fetches : (s t : State) → Fetches s t → Fetches s (report_lexical t)
unfolding report_lexical report
report_lexical-Fetches s t f = Fetches-if t.parser.panic_mode s _ _ f (record {
  sound = record { within = f.sound.within; at_end = f.sound.at_end; empty = f.sound.empty };
  less = f.less;
  bytes = f.bytes;
  last = f.last;
  modules = f.modules;
  errors = λ e. refl;
  code = f.code;
})

Fetches-trans : {s t u : State} → Fetches s t → Fetches t u → Fetches s u
Fetches-trans {t} f g = record {
  sound = g.sound;
  less = omega (arith, g.less, f.bytes);
  bytes = omega (arith, g.bytes, f.bytes);
  last = λ e. g.last (f.sound.at_end (is_last t (f.last e)));
  modules = g.modules ∙ f.modules;
  errors = λ e. g.errors (f.errors e);
  code = g.code ∙ f.code;
}
  where
    is_last : (t : State) → remaining t ≡ 0 → is_type t.parser.current.type TokenType.eof ≡ true
    is_last t e = ground arith

Post-if :
    (b : Bool) (s : State) (r : Outcome (Unit {0})) (u : State)
    → Post r (Fetches s)
    → Fetches s u
    → Post (if b then r else ok tt u) (Fetches s)
Post-if true s r u p g = p
Post-if false s r u p g = g

skip_errors-Fetches :
    (rounds : ℕ) (s t : State) → Fetches s t → Post (skip_errors rounds t) (Fetches s)
unfolding skip_errors
skip_errors-Fetches zero s t f = f
skip_errors-Fetches (suc rounds) s t f =
    let g = Fetches-trans f (fetch-Fetches t f.sound.within) in
    Post-if (is_type (fetch t).parser.current.type TokenType.error) s
      (skip_errors rounds (report_lexical (fetch t))) (fetch t)
      (skip_errors-Fetches rounds s (report_lexical (fetch t))
        (report_lexical-Fetches s (fetch t) g))
      g

-- `advance` from any state whose cursor is inside the text.
pub advance-Fetches :
    (s : State) → s.lexer.current ≤ length s.lexer.source → Post (advance s) (Fetches s)
unfolding advance skip_errors
advance-Fetches s h =
    let t = record s { parser = record s.parser { previous = s.parser.current } } in
    let f = fetch-Fetches t h in
    let g : Fetches s (fetch t) = record {
      sound = f.sound;
      less = f.less;
      bytes = f.bytes;
      last = f.last;
      modules = f.modules;
      errors = f.errors;
      code = f.code;
    } in
    Post-if (is_type (fetch t).parser.current.type TokenType.error) s
      (skip_errors (suc (length s.lexer.source)) (report_lexical (fetch t))) (fetch t)
      (skip_errors-Fetches (suc (length s.lexer.source)) s (report_lexical (fetch t))
        (report_lexical-Fetches s (fetch t) g))
      g

Takes-of_Fetches : (s t : State) → Sound s → Fetches s t → Takes s t
Takes-of_Fetches s t h f =
    let taken : remaining t ≤ remaining s - 1 =
      at_most (is_type s.parser.current.type TokenType.eof) (left s.lexer) (remaining t) f.less
        (λ e. f.last (h.at_end e)) in
    (
      record {
        sound = f.sound;
        less = omega (arith, taken);
        modules = omega (arith, f.modules);
        errors = f.errors;
        code = omega (arith, ap (λ (c : List ℕ). length c) f.code);
      },
      taken,
    )
  where
    at_most : (b : Bool) (n m : ℕ) → m ≤ n → (b ≡ true → m ≡ 0) → m ≤ (if b then 0 else suc n) - 1
    at_most true n m h e = omega (arith, e refl)
    at_most false n m h e = omega arith

pub Eats-advance : {k : ℕ} → Eats k advance
Eats-advance = record {
  at = λ s h r.
      Post-mono (advance s) (Fetches s) (Takes s) (advance-Fetches s h.within)
        (λ t f. Takes-of_Fetches s t h f);
}

pub Ends-advance : {k : ℕ} → Ends k advance
Ends-advance = Ends-of_Eats advance Eats-advance

pub Ends-current_is : {k : ℕ} (t : TokenType) → Ends k (current_is t)
unfolding current_is
Ends-current_is t = record { at = λ s h r. Goes-refl s h }

ruleset step_rules =
    (Ends-bind, Ends-get, Ends-pure, Ends-if, Ends-advance, Ends-error_at, Ends-current_is)

pub Ends-consume : {k : ℕ} (t : TokenType) (message : String) → Ends k (consume t message)
unfolding consume
Ends-consume t message = search step_rules

pub Ends-match : {k : ℕ} (t : TokenType) → Ends k (match t)
unfolding match
Ends-match t = search step_rules

module _ {A : Type 0} where
  match_outcome :
      (r : Outcome (Unit {0})) (f : Bool → P A)
      → bind (bind r (λ _. pure true)) f ≡ bind r (λ _. f true)
  unfolding pure
  match_outcome (ok a t) f = refl
  match_outcome (stop e) f = refl

  -- What goes on behind `match`: with the token taken, or where it was.
  pub match-bind :
      (t : TokenType) (f : Bool → P A) (s : State)
      → (match t >>= f) s
        ≡ (if is_type s.parser.current.type t then (advance >>= λ _. f true) s else f false s)
  unfolding match current_is ◌>>=◌
  match-bind t f s = elim (Bool-cases (is_type s.parser.current.type t)) [
    | inl yes_it ↦ rw yes_it (match_outcome (advance s) f)
    | inr no_it ↦ rw no_it refl
  ]

  module _ (t : TokenType) (f : Bool → P A) (n : is_type t TokenType.eof ≡ false) where
    -- With a token that is not the last, `match` has one less to read behind it.
    pub match_taken :
        (k : ℕ) (s : State)
        → ((j : ℕ) → k ≡ suc j → Ends j (f true))
        → Sound s
        → remaining s ≤ k
        → is_type s.parser.current.type t ≡ true
        → Post ((advance >>= λ _. f true) s) (λ u. Goes s u × (remaining u < remaining s))
    match_taken zero s e h r i =
        let here : 0 < remaining s = rw (not_eof s.parser.current.type t i n) (omega arith) in
        absurd (omega arith)
    match_taken (suc j) s e h r i =
        let here : 0 < remaining s = rw (not_eof s.parser.current.type t i n) (omega arith) in
        Post-bind advance (λ _. f true) s (Takes s) _ (Eats-advance.at s h r)
          (λ a v g.
            Post-mono (f true v) (Goes v) _ ((e j refl).at v g.0.sound (omega (arith, g.1)))
              (λ u g'. (Goes-trans g.0 g', omega (arith, g.1, g'.less))))

    pub Ends-match_then :
        {k : ℕ}
        → ((j : ℕ) → k ≡ suc j → Ends j (f true))
        → Ends k (f false)
        → Ends k (match t >>= f)
    Ends-match_then {k} e e' = record {
      at = λ s h r. elim (Bool-cases (is_type s.parser.current.type t)) [
        | inl yes_it ↦
            rw (match-bind t f s, yes_it)
              (Post-mono _ _ (Goes s) (match_taken k s e h r yes_it) (λ u g. g.0))
        | inr no_it ↦ rw (match-bind t f s, no_it) (e'.at s h r)
      ];
    }

    pub Eats-match_then :
        {k : ℕ}
        → ((j : ℕ) → k ≡ suc j → Ends j (f true))
        → Eats k (f false)
        → Eats k (match t >>= f)
    Eats-match_then {k} e e' = record {
      at = λ s h r. elim (Bool-cases (is_type s.parser.current.type t)) [
        | inl yes_it ↦
            rw (match-bind t f s, yes_it)
              (Post-mono _ _ (Takes s) (match_taken k s e h r yes_it)
                (λ u g. (g.0, omega (arith, g.1))))
        | inr no_it ↦ rw (match-bind t f s, no_it) (e'.at s h r)
      ];
    }

pub Ends-skip_type : {k : ℕ} (t : TokenType) → Ends k (skip_type t)
Ends-skip_type t = search (step_rules, Ends-match)

pub Ends-has_implicit_terminator : {k : ℕ} → Ends k has_implicit_terminator
unfolding has_implicit_terminator
Ends-has_implicit_terminator = record { at = λ s h r. Goes-refl s h }

pub Ends-match_statement_terminator : {k : ℕ} → Ends k match_statement_terminator
unfolding match_statement_terminator
Ends-match_statement_terminator = search (step_rules, Ends-match, Ends-has_implicit_terminator)

pub Ends-before : {k : ℕ} (t : TokenType) → Ends k (before t)
unfolding before
Ends-before t = search step_rules

pub Ends-before_or_eof : {k : ℕ} (t : TokenType) → Ends k (before_or_eof t)
unfolding before_or_eof
Ends-before_or_eof t = search step_rules
