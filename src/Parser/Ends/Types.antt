-- ===== src/Parser/Ends/Types.antt =====
-- `parse_type` of src/compiler.c keeps within its bounds: every type takes a token.
use opo.Base.{
  ℕ, zero, suc, ◌-◌, ◌≤◌, ◌<◌, ◌≡◌, refl, ap, List, [], Option, none, some, String, true, bytes_eq,
  take, arith,
}
use opo.Lexer.{TokenType}
use opo.Parser.Ends.Loops.{Turns, Ends-Turns, Turns-finish, Turns-match_then, Turns-before_or_eof}
use opo.Parser.Ends.Names.{steps}
use opo.Parser.Ends.Tokens.{Eats-advance, Eats-match_then, Ends-consume}
use opo.Parser.Ends.{
  Sound, remaining, Post, Takes, Ends, Eats, Ends-of_Eats, Ends-mono, Ends-bind, Ends-then,
  Ends-pure, Ends-get, Eats-bind, Eats-bind_behind,
}
use opo.Parser.Tokens.{is_type, advance}
use opo.Parser.Types.{
  named_with_prefix, or_unknown, user_type, member_type, wrapped_type, chan_type, word_type,
  look_up, name_or_word, array_type, map_type, param_turn, func_type, base_type, suffix_turn,
  suffixes, parse_type,
}
use opo.Parser.{Lexeme, text, State, P, ◌>>=◌}

Ends-named_with_prefix : {k : ℕ} (name : List ℕ) → Ends k (named_with_prefix name)
unfolding named_with_prefix
Ends-named_with_prefix name = search steps depth 20

Ends-or_unknown : {k : ℕ} (token : Lexeme) (type : Option ℕ) → Ends k (or_unknown token type)
unfolding or_unknown
Ends-or_unknown token none = search steps depth 20
Ends-or_unknown token (some type) = search steps

Ends-user_type : {k : ℕ} (token : Lexeme) → Ends k (user_type token)
unfolding user_type
Ends-user_type token = search (steps, Ends-named_with_prefix, Ends-or_unknown) depth 20

Ends-member_type : {k : ℕ} (token : Lexeme) → Ends k (member_type token)
unfolding member_type
Ends-member_type token = search steps depth 30

module _ {k : ℕ} (inner : P ℕ) (e : Ends k inner) where
  Ends-wrapped_type : (id : ℕ) (message : String) → Ends k (wrapped_type inner id message)
  unfolding wrapped_type
  Ends-wrapped_type id message = search steps depth 20

  Ends-chan_type : Ends k (chan_type inner)
  unfolding chan_type
  Ends-chan_type = search steps depth 20

  Ends-array_type : Ends k (array_type inner)
  unfolding array_type
  Ends-array_type = search steps depth 20

  Ends-map_type : Ends k (map_type inner)
  unfolding map_type
  Ends-map_type = search steps depth 20

  Ends-word_type : (token : Lexeme) → Ends k (word_type inner token)
  unfolding word_type
  Ends-word_type token = search (steps, Ends-user_type, Ends-chan_type, Ends-wrapped_type) depth 30

-- A token without a text starts no type inside another.
Ends-word_type_empty :
    {k : ℕ} (inner : P ℕ) (token : Lexeme) → text token ≡ [] → Ends k (word_type inner token)
unfolding word_type look_up bytes_eq
Ends-word_type_empty inner token e = rw e (search (steps, Ends-user_type) depth 20)

Eats-name_or_word :
    (k : ℕ) (inner : P ℕ) → ((j : ℕ) → k ≡ suc j → Ends j inner) → Eats k (name_or_word inner)
unfolding name_or_word ◌>>=◌
Eats-name_or_word zero inner e = record {
  at = λ s h r.
      let end : is_type s.parser.current.type TokenType.eof ≡ true = ground arith in
      let none : text s.parser.current ≡ [] =
        ap (λ (n : ℕ). take n s.parser.current.start) (h.empty end) in
      (Eats-bind advance _ Eats-advance (λ a.
          search (steps, Ends-member_type, Ends-word_type_empty inner s.parser.current none) depth
            20)).at
        s h r;
}
Eats-name_or_word (suc j) inner e =
    let e' : Ends (suc j - 1) inner = Ends-mono inner (omega arith) (e j refl) in
    Eats-bind_behind _ _ Ends-get (λ s.
      Eats-bind _ _ Eats-advance
        (λ a. search (steps, Ends-member_type, Ends-word_type inner e') depth 20))

module _ {k : ℕ} (rounds : ℕ) (l : k < rounds) where
  Turns-param_turn : (inner : P ℕ) (u : Unit {0}) → Eats k inner → Turns k (param_turn inner u)
  unfolding param_turn
  Turns-param_turn inner u e =
      Turns-before_or_eof TokenType.rangle _ (Eats-bind _ _ e (λ a. search steps depth 20))
        (Turns-finish tt)

  Ends-func_type : (inner : P ℕ) → Eats k inner → Ends k (func_type rounds inner)
  unfolding func_type
  Ends-func_type inner e =
      let e' : Ends k inner = Ends-of_Eats inner e in
      Ends-bind _ _ (Ends-Turns rounds (param_turn inner) tt l (λ u. Turns-param_turn inner u e))
        (λ u.
          Ends-then _ _ (Ends-consume _ _)
            (Ends-then _ _ (Ends-consume _ _) (Ends-bind _ _ e' (λ ret. Ends-pure _))))

  Turns-suffix_turn : (type : ℕ) → Turns k (suffix_turn type)
  unfolding suffix_turn
  Turns-suffix_turn type =
      Turns-match_then TokenType.question _ refl (λ j p. search steps)
        (Turns-match_then TokenType.bang _ refl (λ j p. search steps) (Turns-finish type))

  Ends-suffixes : (type : Option ℕ) → Ends k (suffixes rounds type)
  unfolding suffixes
  Ends-suffixes none = search steps
  Ends-suffixes (some type) = Ends-Turns rounds suffix_turn type l Turns-suffix_turn

-- Behind its first token a type has less to read.
Eats-base_type :
    (k rounds : ℕ) (inner : P ℕ)
    → k ≤ rounds
    → ((j : ℕ) → k ≡ suc j → Eats j inner)
    → Eats k (base_type rounds inner)
unfolding base_type
Eats-base_type k rounds inner l e =
    Eats-match_then TokenType.lbracket _ refl
      (λ j p. Ends-array_type inner (Ends-of_Eats inner (e j p)))
      (Eats-match_then TokenType.lbrace _ refl
        (λ j p. Ends-map_type inner (Ends-of_Eats inner (e j p)))
        (Eats-match_then TokenType.langle _ refl
          (λ j p. Ends-func_type rounds (omega arith) inner (e j p))
          (Eats-name_or_word k inner (λ j p. Ends-of_Eats inner (e j p)))))

pub Eats-parse_type : {k : ℕ} (rounds : ℕ) → k < rounds → Eats k (parse_type rounds)
unfolding parse_type
Eats-parse_type zero l = absurd (omega arith)
Eats-parse_type {k} (suc rounds) l =
    Eats-bind _ _
      (Eats-base_type k rounds (parse_type rounds) (omega arith)
        (λ j p. Eats-parse_type rounds (omega arith)))
      (λ type. Ends-suffixes (suc rounds) (omega arith) type)

pub Ends-parse_type : {k : ℕ} (rounds : ℕ) → k < rounds → Ends k (parse_type rounds)
Ends-parse_type rounds l = Ends-of_Eats (parse_type rounds) (Eats-parse_type rounds l)

-- From any state whose cursor is inside the text, with more rounds than there are bytes and a token
-- left to read, `parse_type` is never out of rounds, also on what is not a type: it returns, or
-- reaches what C leaves undefined. Where it returns, it has taken a token unless none was left, the
-- cursor is inside the text, no import and no error is forgotten, and the code has not shrunk.
pub parse_type_terminates :
    (rounds : ℕ) (s : State) → Sound s → remaining s < rounds → Post (parse_type rounds s) (Takes s)
parse_type_terminates rounds s h l =
    (Eats-parse_type {k = remaining s} rounds l).at s h (omega arith)
