-- ===== src/Lexer/Tokens.antt =====
-- All the tokens of a text, as the callers of `lexer_next_token` (src/lexer.c) ask for them.
use opo.Base.{
  ℕ, zero, suc, ◌-◌, ◌≤◌, ◌<◌, ◌≡◌, ◌≢◌, inl, inr, refl, Bool, true, false, List, [], ◌∷◌, length,
  arith, loop_done, ◌==◌, ==_iff,
}
use opo.Lexer.Next.{lexer_next_token_lem}
use opo.Lexer.Scan.{lexer_next_token}
use opo.Lexer.{
  TokenType, eof, Token, Lexer, lexer_init, peek, skip_whitespace, skips, skip_one, rounds,
}

-- At the end of the text the next token is the end of the file, and the lexer stays there.
pub next_at_end :
    (l : Lexer)
    → peek l ≡ 0
    → ((lexer_next_token l).0.type ≡ eof) × (peek (lexer_next_token l).1 ≡ 0)
unfolding lexer_next_token skip_whitespace
next_at_end l h =
    let end : (peek l == 0) ≡ true = (==_iff (peek l) 0).1 h in
    rw (loop_done skips skip_one (rounds l) l (ground arith)) (rw end (refl, h))

pub is_eof : TokenType → Bool
is_eof eof = true
is_eof _ = false

is_eof-true : (t : TokenType) → t ≡ eof → is_eof t ≡ true
unfolding is_eof
is_eof-true t e = rw e

is_eof-false : (t : TokenType) → t ≢ eof → is_eof t ≡ false
unfolding is_eof
is_eof-false eof n = absurd (n refl)
is_eof-false _ n = refl

-- The tokens up to the end-of-file token; the list is cut where the fuel runs out.
unfoldable pub tokens : ℕ → Lexer → List Token
unfolding is_eof
tokens zero l = []
tokens (suc fuel) l =
    let (t, m) = lexer_next_token l in
    let rest = tokens fuel m in t ∷ elim (is_eof t.type) [ true ↦ [] | false ↦ rest ]

-- The last token, and no other, is the end of the file.
pub data EndsInEof : List Token → Type 0 where
  last : {t : Token} → t.type ≡ eof → EndsInEof (t ∷ [])
  before : {t : Token} {ts : List Token} → t.type ≢ eof → EndsInEof ts → EndsInEof (t ∷ ts)

tokens-EndsInEof :
    (fuel : ℕ) (l : Lexer)
    → l.current ≤ length l.source
    → length l.source - l.current < fuel
    → EndsInEof (tokens fuel l)
unfolding tokens
tokens-EndsInEof zero l h f = absurd (omega arith)
tokens-EndsInEof (suc fuel) l h f =
    let (t, m) = lexer_next_token l in
    let n = lexer_next_token_lem l h in
    elim n.progress [
      | inl (at_end, _) ↦ rw (is_eof-true t.type at_end) (last at_end)
      | inr (not_end, ahead) ↦ rw (is_eof-false t.type not_end) (
          before not_end
            (tokens-EndsInEof fuel m n.within (ground (arith, n.source, n.within, ahead))))
    ]

-- Asking for tokens until the end of the file terminates on every text: one call for each byte and
-- one more are enough, and the end-of-file token comes last and only there.
pub tokens_terminate :
    (source : List ℕ) → EndsInEof (tokens (suc (length source)) (lexer_init source))
unfolding lexer_init
tokens_terminate source = tokens-EndsInEof _ _ (omega arith) (omega arith)
