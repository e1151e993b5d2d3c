-- ===== src/Lexer/Next.antt =====
-- `lexer_next_token` of src/lexer.c: where its token lies, and that it gets on.
use opo.Base.{
  ℕ, ◌+◌, ◌≤◌, ◌<◌, ◌≡◌, ◌≢◌, ◌⊎◌, inl, inr, refl, true, false, Bool, if◌then◌else◌, ◌||◌, ◌==◌,
  length, arith, Bool-cases, ◌∙◌,
}
use opo.Lexer.Cursor.{Moves, Moves-refl, Moves-trans, Moves-byte, newlines}
use opo.Lexer.Scan.{
  Scanned, token, unexpected, text_of, string, number, identifier, operator, punctuation, scan,
  mark, lexer_next_token,
}
use opo.Lexer.Scan.Keywords.{identifier_type-ne-eof}
use opo.Lexer.Skip.{skip_digits-Moves, skip_word-Moves, skip_string-Moves, skip_whitespace-Moves}
use opo.Lexer.{
  eof, error, Token, Start, source_at, message, Lexer, TokenType, lte, l_arrow, langle, gte, rangle,
  arrow, minus, eq_eq, assign, bang_bang, bang_eq, bang, and, or, dot_dot, dot, hat, colon,
  semicolon, comma, question, at, lbracket, rbracket, lbrace, rbrace, lparen, rparen, plus, star,
  slash, percent, matches, consume_match, peek, is_at_end, advance, is_digit, is_alpha, skip_digits,
  skip_word, skip_string, skip_whitespace,
}

-- How a token describes the text: the bytes from the mark to the cursor, at the marked line; or
-- an error message at the line that the lexer has reached.
abbrev pub Spells : Start → Token → Lexer → Type 0
Spells (source_at s) t m = (s ≡ m.start) × (s + t.length ≡ m.current) × (t.line ≡ m.token_line)
Spells (message text) t m = (t.type ≡ error) × (t.line ≡ m.line)

-- The cursor moves on from `l`, and the token is no end of file.
pub record Emits (l : Lexer) (r : Scanned) : Type 0 where
  pub moves : Moves l r.1
  pub progress : l.current < r.1.current
  pub spells : Spells r.0.start r.0 r.1
  pub not_eof : r.0.type ≢ eof

-- A token that has been cut off behind `l`, which may have moved on since.
record Good (l : Lexer) (r : Scanned) : Type 0 where
  moves : Moves l r.1
  spells : Spells r.0.start r.0 r.1
  not_eof : r.0.type ≢ eof

module _ (l : Lexer) (h : l.current ≤ length l.source) (k : l.start < l.current) where
  identifier-Good : Good l (identifier l)
  unfolding identifier
  identifier-Good =
      let m = skip_word-Moves l h in
      record {
        moves = m.0;
        spells = ground (arith, m.0);
        not_eof = identifier_type-ne-eof (text_of (skip_word l));
      }

  number-Good : Good l (number l)
  unfolding number
  number-Good =
      let m = skip_digits-Moves l h in
      let d = skip_digits l in
      ground (arith, m.0, Moves-byte d (d.column + 1), skip_digits-Moves (advance d))

  string-Good : Good l (string l)
  unfolding string
  string-Good =
      let m = skip_string-Moves l h in
      let d = skip_string l in ground (arith, m, Moves-byte d (d.column + 1))

  -- A token of one byte, an error, and a token of two bytes where the second one stands there.
  single : (t : TokenType) → t ≢ eof → Good l (token l t)
  single t n = record { moves = Moves-refl l h; spells = ground arith; not_eof = n }

  strange : Good l (unexpected l)
  strange = record { moves = Moves-refl l h; spells = (refl, refl); not_eof = λ e. cc }

  -- The byte is there, so that the cursor stays inside the text.
  double :
      (second : ℕ) (t : TokenType) {r : Scanned}
      → t ≢ eof
      → second ≢ 0
      → second ≢ b'\n'
      → Good l r
      → Good l (if matches l second then token (consume_match l) t else r)
  double second t n a b g = elim (Bool-cases (matches l second)) [
    | inl yes_there ↦ rw yes_there (record {
      moves = Moves-byte l l.column (ground arith) (ground arith);
      spells = ground arith;
      not_eof = n;
    })
    | inr no_match ↦ rw no_match g
  ]

  choose : (b : Bool) {r s : Scanned} → Good l r → Good l s → Good l (if b then r else s)
  choose true g k = g
  choose false g k = k

  operator-Good : (c : ℕ) → Good l (operator l c)
  unfolding operator
  operator-Good c =
      choose (c == b'<')
        (double b'=' lte (λ e. cc) (omega arith) (omega arith)
          (double b'-' l_arrow (λ e. cc) (omega arith) (omega arith) (single langle (λ e. cc))))
        (choose (c == b'>')
          (double b'=' gte (λ e. cc) (omega arith) (omega arith) (single rangle (λ e. cc)))
          (choose (c == b'-')
            (double b'>' arrow (λ e. cc) (omega arith) (omega arith) (single minus (λ e. cc)))
            (choose (c == b'=')
              (double b'=' eq_eq (λ e. cc) (omega arith) (omega arith)
                (double b'>' assign (λ e. cc) (omega arith) (omega arith) strange))
              (choose (c == b'!')
                (double b'!' bang_bang (λ e. cc) (omega arith) (omega arith)
                  (double b'=' bang_eq (λ e. cc) (omega arith) (omega arith)
                    (single bang (λ e. cc))))
                (choose (c == b'&') (double b'&' and (λ e. cc) (omega arith) (omega arith) strange)
                  (choose (c == b'|') (double b'|' or (λ e. cc) (omega arith) (omega arith) strange)
                    strange))))))

  punctuation-Good : (c : ℕ) → Good l (punctuation l c)
  unfolding punctuation
  punctuation-Good c =
      choose (c == b'.')
        (double b'.' dot_dot (λ e. cc) (omega arith) (omega arith) (single dot (λ e. cc)))
        (choose (c == b'^') (single hat (λ e. cc)) (
          choose (c == b':') (single colon (λ e. cc)) (
            choose (c == b';') (single semicolon (λ e. cc)) (
              choose (c == b',') (single comma (λ e. cc)) (
                choose (c == b'?') (single question (λ e. cc)) (
                  choose (c == b'@') (single at (λ e. cc)) (
                    choose (c == b'[') (single lbracket (λ e. cc)) (
                      choose (c == b']') (single rbracket (λ e. cc)) (
                        choose (c == b'{') (single lbrace (λ e. cc)) (
                          choose (c == b'}') (single rbrace (λ e. cc)) (
                            choose (c == b'(') (single lparen (λ e. cc)) (
                              choose (c == b')') (single rparen (λ e. cc)) (
                                choose (c == b'+') (single plus (λ e. cc)) (
                                  choose (c == b'*') (single star (λ e. cc)) (
                                    choose (c == b'/') (single slash (λ e. cc)) (
                                      choose (c == b'%') (single percent (λ e. cc))
                                        (operator-Good c)))))))))))))))))

scan-Emits :
    (l : Lexer)
    → l.start ≡ l.current
    → l.token_line ≡ l.line
    → peek l ≢ 0
    → peek l ≢ b'\n'
    → Emits l (scan l)
unfolding scan
scan-Emits l h e n k =
    let m = advance l in
    let first = Moves-byte l (l.column + 1) n k in
    let within : m.current ≤ length m.source = first.within in
    let marked : m.start < m.current = omega arith in
    let emits : (r : Scanned) → Good m r → Emits l r = λ r p. record {
      moves = Moves-trans first p.moves;
      progress = omega (arith, p.moves.ahead);
      spells = p.spells;
      not_eof = p.not_eof;
    } in
    elim (Bool-cases (is_digit (peek l))) [
      | inl digit ↦ rw digit (emits (number m) (number-Good m within marked))
      | inr no_digit ↦ rw no_digit (elim (Bool-cases (is_alpha (peek l) || peek l == b'_')) [
        | inl word ↦ rw word (emits (identifier m) (identifier-Good m within marked))
        | inr no_word ↦ rw no_word (elim (Bool-cases (peek l == b'"')) [
          | inl quote ↦ rw quote (emits (string m) (string-Good m within marked))
          | inr other ↦
              rw other (emits (punctuation m (peek l)) (punctuation-Good m within marked (peek l)))
        ])
      ])
    ]

-- Where a token lies, by its start: between the old cursor and the new one, numbered with the line
-- of its first byte. An error message has the line that the lexer has reached.
abbrev pub Lies : Start → Lexer → Scanned → Type 0
Lies (source_at s) l r =
    (l.current ≤ s)
    × (s + r.0.length ≡ r.1.current)
    × (r.0.line + newlines l.source l.current ≡ l.line + newlines l.source s)
Lies (message text) l r = (r.0.type ≡ error) × (r.0.line ≡ r.1.line)

-- What one call of `lexer_next_token` does to the lexer and says in its token.
pub record NextToken (l : Lexer) (r : Scanned) : Type 0 where
  pub source : r.1.source ≡ l.source
  pub ahead : l.current ≤ r.1.current
  pub within : r.1.current ≤ length r.1.source
  pub counts : r.1.line + newlines l.source l.current ≡ l.line + newlines l.source r.1.current
  pub progress :
      ((r.0.type ≡ eof) × (peek r.1 ≡ 0)) ⊎ ((r.0.type ≢ eof) × (l.current < r.1.current))
  pub empty : r.0.type ≡ eof → r.0.length ≡ 0
  pub lies : Lies r.0.start l r

Lies-of_Spells :
    (st : Start) (l : Lexer) (r : Scanned)
    → r.1.source ≡ l.source
    → (w : Lexer) → Moves l w
    → r.1.start ≡ w.current
    → r.1.token_line ≡ w.line
    → Spells st r.0 r.1
    → Lies st l r
Lies-of_Spells (source_at s) l r e w m a b p = ground (arith, p, m)
Lies-of_Spells (message text) l r e w m a b p = p

-- From any place inside the text the next token is found without leaving the text. Only at the end
-- of the text is it the end-of-file token, which has no text; any other token moves the cursor on.
-- A token that points into the text ends at the cursor, starts no earlier than the last one ended,
-- and carries the number of the line that it starts on.
pub lexer_next_token_lem :
    (l : Lexer) → l.current ≤ length l.source → NextToken l (lexer_next_token l)
unfolding lexer_next_token
lexer_next_token_lem l h =
    let w = skip_whitespace l in
    let m = mark w in
    let (skipped, stopped) = skip_whitespace-Moves l h in
    elim (Bool-cases (is_at_end m)) [
      | inl end ↦ rw end (record {
        source = skipped.source;
        ahead = skipped.ahead;
        within = skipped.within;
        counts = skipped.counts;
        progress = inl (refl, ground arith);
        empty = λ e. omega arith;
        lies = ground (arith, skipped);
      })
      | inr more ↦ rw more (
          let x = scan-Emits m refl refl (ground arith) (ground (arith, stopped)) in
          record {
            source = x.moves.source ∙ skipped.source;
            ahead = omega (arith, x.moves.ahead, skipped.ahead);
            within = x.moves.within;
            counts = ground (arith, x.moves.counts, skipped);
            progress = inr (x.not_eof, omega (arith, x.progress, skipped.ahead));
            empty = λ e. absurd (x.not_eof e);
            lies =
                Lies-of_Spells (scan m).0.start l (scan m) (x.moves.source ∙ skipped.source) w
                  skipped x.moves.start x.moves.token_line x.spells;
          })
    ]
