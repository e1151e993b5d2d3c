-- ===== src/Parser/Ends/Captures.antt =====
-- `is_capture_list_ahead` of src/compiler.c keeps within its bounds: it looks at the
-- tokens of a list of names.
use opo.Base.{
  ap, ℕ, zero, suc, ◌≤◌, ◌<◌, ◌≡◌, ◌≢◌, refl, inl, inr, Option, none, some, Bool, true, false,
  Bool-cases, if◌then◌else◌, length, arith,
}
use opo.Lexer.Cursor.{left}
use opo.Lexer.Next.{lexer_next_token_lem}
use opo.Lexer.Scan.{lexer_next_token}
use opo.Lexer.{TokenType, Lexer}
use opo.Parser.Ends.Tokens.{not_eof}
use opo.Parser.Ends.{Sound, remaining, Goes, Goes-refl, Post, Ends}
use opo.Parser.Functions.{captures_ahead, is_capture_list_ahead}
use opo.Parser.Tokens.{is_type}
use opo.Parser.{State, out_of_rounds, on_option, fail, pure, ◌>>=◌}

within_next :
    (l : Lexer)
    → l.current ≤ length l.source
    → (lexer_next_token l).1.current ≤ length (lexer_next_token l).1.source
within_next l w = (lexer_next_token_lem l w).within

left_next : (l : Lexer) → l.current ≤ length l.source → left (lexer_next_token l).1 ≤ left l
left_next l w = let n = lexer_next_token_lem l w in ground (arith, n.source, n.ahead)

left_less :
    (l : Lexer)
    → l.current ≤ length l.source
    → (lexer_next_token l).0.type ≢ TokenType.eof
    → left (lexer_next_token l).1 < left l
left_less l w ne =
    let n = lexer_next_token_lem l w in
    elim n.progress [
      | inl (eof, end) ↦ absurd (ne eof)
      | inr (more, ahead) ↦ ground (arith, n.source, n.within, ahead)
    ]

not_last :
    (t u : TokenType) → is_type t u ≡ true → is_type u TokenType.eof ≡ false → t ≢ TokenType.eof
not_last t u h n e =
    let off = not_eof t u h n in
    let on = ap (λ (x : TokenType). is_type x TokenType.eof) e in ground (arith, off, on)

answered : {A : Type 0} (a : A) → some a ≢ none
answered a e = ground (arith, e)

-- The ways on from a token: the answer, or the tokens behind a comma or behind a name.
ways :
    (bracket last other comma close angle : Bool) (after_comma after_name : Option Bool)
    → (comma ≡ true → after_comma ≢ none)
    → (close ≡ true → after_name ≢ none)
    → (if bracket
        then some angle
        else if last
        then some false
        else if other
        then some false
        else if comma
        then after_comma
        else if close
        then after_name
        else some false)
      ≢ none
ways true last other comma close angle x y f g = answered angle
ways false true other comma close angle x y f g = answered false
ways false false true comma close angle x y f g = answered false
ways false false false true close angle x y f g = f refl
ways false false false false true angle x y f g = g refl
ways false false false false false angle x y f g = answered false

captures_ahead-ends :
    (rounds : ℕ) (here : TokenType) (l : Lexer)
    → l.current ≤ length l.source
    → left l < rounds
    → captures_ahead rounds here l ≢ none
unfolding captures_ahead
captures_ahead-ends zero here l w r = absurd (omega arith)
captures_ahead-ends (suc rounds) here l w r =
    let (first, l₁) = lexer_next_token l in
    let l₂ = (lexer_next_token l₁).1 in
    ways _ _ _ _ _ _ _ _
      (λ comma. captures_ahead-ends rounds _ l₂ (within_next l₁ (within_next l w)) (
        omega (
          arith,
          left_next l₁ (within_next l w),
          left_less l w (not_last first.type TokenType.comma comma refl),
        )))
      (λ close.
        captures_ahead-ends rounds _ l₁ (within_next l w)
          (omega (arith, left_less l w (not_last first.type TokenType.rbracket close refl))))

last_way :
    (bracket : Bool) {last : Bool} (angle : Bool) (rest : Option Bool)
    → last ≡ true
    → (if bracket then some angle else if last then some false else rest) ≢ none
last_way true angle rest e = answered angle
last_way false {last = true} angle rest e = answered false
last_way false {last = false} angle rest e = ground (arith, e)

captures_ahead-last :
    (rounds : ℕ) (here : TokenType) (l : Lexer)
    → is_type here TokenType.eof ≡ true
    → captures_ahead (suc rounds) here l ≢ none
unfolding captures_ahead
captures_ahead-last rounds here l e = last_way _ _ _ e

by_answer :
    (o : Option Bool) (s : State)
    → Sound s
    → o ≢ none
    → Post (on_option o (fail out_of_rounds) pure s) (Goes s)
unfolding ◌>>=◌
by_answer none s h n = absurd (n refl)
by_answer (some b) s h n = Goes-refl s h

looks :
    (rounds : ℕ) (s : State)
    → Sound s
    → remaining s < rounds
    → captures_ahead rounds s.parser.current.type s.lexer ≢ none
looks zero s h l = absurd (omega arith)
looks (suc rounds) s h l = elim (Bool-cases (is_type s.parser.current.type TokenType.eof)) [
  | inl last ↦ captures_ahead-last rounds _ s.lexer last
  | inr more ↦ captures_ahead-ends (suc rounds) _ s.lexer h.within (ground (arith, more, l))
]

pub Ends-is_capture_list_ahead :
    {k : ℕ} (rounds : ℕ) → k < rounds → Ends k (is_capture_list_ahead rounds)
unfolding is_capture_list_ahead ◌>>=◌
Ends-is_capture_list_ahead rounds l = record {
  at = λ s h r.
      by_answer (captures_ahead rounds s.parser.current.type s.lexer) s h
        (looks rounds s h (omega arith));
}
