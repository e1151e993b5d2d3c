-- ===== src/Lexer/Columns.antt =====
-- The column that src/lexer.c keeps beside the cursor.
use opo.Base.{◌+◌, ◌<◌, ◌≡◌, refl, true, false, get_or, length, arith, loop_more, loop_done, ◌∙◌}
use opo.Lexer.Cursor.{lt-length_of_get_or}
use opo.Lexer.Scan.{lexer_next_token, scan, identifier, punctuation, operator, mark, token}
use opo.Lexer.Skip.{skip_word-Moves}
use opo.Lexer.{
  is_alpha, arrow, Lexer, peek, skips, rounds, skip_one, skip_whitespace, advance, source_at,
}

abbrev next_line : Lexer → Lexer
next_line l = record l { current = l.current + 1; line = l.line + 1; column = 2 }

skip_one_newline : (l : Lexer) → peek l ≡ b'\n' → skip_one l ≡ next_line l
unfolding skip_one
skip_one_newline l h = ground arith

-- A newline and nothing more to skip behind it.
skip_whitespace_newline :
    (l : Lexer) → peek l ≡ b'\n' → skips (next_line l) ≡ false → skip_whitespace l ≡ next_line l
unfolding skip_whitespace
skip_whitespace_newline l h k =
    loop_more skips skip_one _ l (ground arith)
    ∙ rw (skip_one_newline l h) (loop_done skips skip_one _ (next_line l) k)

scan_arrow :
    (l : Lexer)
    → peek l ≡ b'-'
    → get_or l.source (l.current + 1) 0 ≡ b'>'
    → scan l ≡ token (record l { current = l.current + 1 + 1; column = l.column + 1 }) arrow
unfolding scan punctuation operator
scan_arrow l h k = ground arith

-- The column does not count what `match` consumes: where `->` stands under the cursor, the lexer
-- goes two bytes on and only one column.
pub arrow_column :
    (l : Lexer)
    → peek l ≡ b'-'
    → get_or l.source (l.current + 1) 0 ≡ b'>'
    → ((lexer_next_token l).0.type ≡ arrow)
      × ((lexer_next_token l).1.current ≡ l.current + 2)
      × ((lexer_next_token l).1.column ≡ l.column + 1)
unfolding lexer_next_token skip_whitespace
arrow_column l h k =
    rw (loop_done skips skip_one (rounds l) l (ground arith), h, scan_arrow (mark l) h k)
      (refl, omega arith, refl)

-- A word that starts the line behind a newline is given column 2, although `lexer_init` numbers
-- the columns of the first line from 1.
pub newline_column :
    (l : Lexer)
    → l.current < length l.source
    → peek l ≡ b'\n'
    → is_alpha (peek (next_line l)) ≡ true
    → ((lexer_next_token l).0.start ≡ source_at (l.current + 1))
      × ((lexer_next_token l).0.column ≡ 2)
unfolding lexer_next_token scan identifier
newline_column l w h k =
    let n = mark (next_line l) in
    let moves =
      skip_word-Moves (advance n) (ground (arith, lt-length_of_get_or l.source (l.current + 1))) in
    rw (skip_whitespace_newline l h (ground arith)) (ground (arith, moves.0))
