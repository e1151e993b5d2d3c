-- ===== src/Lexer/Skip.antt =====
-- The scanning loops of src/lexer.c: each one ends by its own test, and only moves the cursor.
use opo.Base.{
  ◌+◌, ◌-◌, ◌≤◌, ◌<◌, ◌≡◌, Bool, true, false, length, arith, loop, Rounds, loop_keeps, loop_ends,
  loop_more,
}
use opo.Lexer.Cursor.{Moves, Moves-refl, Moves-trans, Moves-byte, Moves-newline, left}
use opo.Lexer.{
  Lexer, peek, advance, is_digit, is_word, rounds, in_comment, skip_comment, skips, skip_one,
  skip_whitespace, in_string, string_byte, skip_string, skip_digits, skip_word,
}

-- A body that moves the cursor on wherever its test holds.
abbrev Advances : (Lexer → Bool) → (Lexer → Lexer) → Type 0
Advances test body =
    (m : Lexer)
    → m.current ≤ length m.source
    → test m ≡ true
    → Moves m (body m) × (m.current < (body m).current)

rounds_of :
    (test : Lexer → Bool) (body : Lexer → Lexer)
    → Advances test body
    → (l : Lexer) → Rounds test body left (Moves l)
rounds_of test body moves l = record {
  keeps = λ m t p. Moves-trans p (moves m p.within t).0;
  lowers = λ m t p. let (q, lt) = moves m p.within t in ground (arith, q.within, q.source, lt);
}

-- The loop over it ends by its test, and has moved the cursor.
loop-Moves :
    (test : Lexer → Bool) (body : Lexer → Lexer)
    → Advances test body
    → (l : Lexer) → l.current ≤ length l.source
    → Moves l (loop test body (rounds l) l) × (test (loop test body (rounds l) l) ≡ false)
loop-Moves test body moves l h =
    let r = rounds_of test body moves l in
    (
      loop_keeps test body r (rounds l) l (Moves-refl l h),
      loop_ends test body r (rounds l) l (Moves-refl l h) (omega arith),
    )

-- The same, with the first round known to run.
loop-Moves_first :
    (test : Lexer → Bool) (body : Lexer → Lexer)
    → Advances test body
    → (l : Lexer) → l.current ≤ length l.source
    → test l ≡ true
    → l.current < (loop test body (rounds l) l).current
loop-Moves_first test body moves l h t =
    let (q, lt) = moves l h t in
    let after =
      loop_keeps test body (rounds_of test body moves (body l)) (length l.source - l.current)
        (body l) (Moves-refl (body l) q.within) in
    rw (loop_more test body (length l.source - l.current) l t) (omega (arith, after.ahead, lt))

in_comment-Moves :
    (m : Lexer)
    → m.current ≤ length m.source
    → in_comment m ≡ true
    → Moves m (advance m) × (m.current < (advance m).current)
in_comment-Moves m h t = (Moves-byte m (m.column + 1) (ground arith) (ground arith), omega arith)

digit-Moves :
    (m : Lexer)
    → m.current ≤ length m.source
    → is_digit (peek m) ≡ true
    → Moves m (advance m) × (m.current < (advance m).current)
digit-Moves m h t = (Moves-byte m (m.column + 1) (ground arith) (ground arith), omega arith)

word-Moves :
    (m : Lexer)
    → m.current ≤ length m.source
    → is_word (peek m) ≡ true
    → Moves m (advance m) × (m.current < (advance m).current)
word-Moves m h t = (Moves-byte m (m.column + 1) (ground arith) (ground arith), omega arith)

string-Moves :
    (m : Lexer)
    → m.current ≤ length m.source
    → in_string m ≡ true
    → Moves m (string_byte m) × (m.current < (string_byte m).current)
unfolding string_byte
string-Moves m h t = ground (arith, Moves-byte m (m.column + 1), Moves-newline m 2)

pub skip_comment-Moves :
    (l : Lexer)
    → l.current ≤ length l.source
    → Moves l (skip_comment l) × (in_comment (skip_comment l) ≡ false)
unfolding skip_comment
skip_comment-Moves l h = loop-Moves in_comment advance in_comment-Moves l h

skip_comment_first :
    (l : Lexer) → l.current ≤ length l.source → peek l ≡ b'#' → l.current < (skip_comment l).current
unfolding skip_comment
skip_comment_first l h e = loop-Moves_first in_comment advance in_comment-Moves l h (ground arith)

pub skip_digits-Moves :
    (l : Lexer)
    → l.current ≤ length l.source
    → Moves l (skip_digits l) × (is_digit (peek (skip_digits l)) ≡ false)
unfolding skip_digits
skip_digits-Moves l h = loop-Moves (λ m. is_digit (peek m)) advance digit-Moves l h

pub skip_word-Moves :
    (l : Lexer)
    → l.current ≤ length l.source
    → Moves l (skip_word l) × (is_word (peek (skip_word l)) ≡ false)
unfolding skip_word
skip_word-Moves l h = loop-Moves (λ m. is_word (peek m)) advance word-Moves l h

pub skip_string-Moves :
    (l : Lexer)
    → l.current ≤ length l.source
    → Moves l (skip_string l) × (in_string (skip_string l) ≡ false)
unfolding skip_string
skip_string-Moves l h = loop-Moves in_string string_byte string-Moves l h

skip_one-Moves :
    (m : Lexer)
    → m.current ≤ length m.source
    → skips m ≡ true
    → Moves m (skip_one m) × (m.current < (skip_one m).current)
unfolding skip_one
skip_one-Moves m h t = ground (
  arith,
  Moves-byte m (m.column + 1),
  Moves-newline m 2,
  skip_comment-Moves m h,
  skip_comment_first m h,
)

-- White space and comments are skipped to the end: what stands behind is neither, the text and
-- the token mark are kept, and the line number has gone up by the newlines that were skipped.
pub skip_whitespace-Moves :
    (l : Lexer)
    → l.current ≤ length l.source
    → Moves l (skip_whitespace l) × (skips (skip_whitespace l) ≡ false)
unfolding skip_whitespace
skip_whitespace-Moves l h = loop-Moves skips skip_one skip_one-Moves l h
