-- ===== src/Lexer/Cursor.antt =====
-- Moves of the lexer's cursor (src/lexer.c): what every scanning step keeps.
use opo.Base.{
  ℕ, zero, suc, ◌+◌, ◌-◌, ◌≤◌, ◌<◌, ◌≡◌, ◌≢◌, refl, List, [], ◌∷◌, ◌==◌, if◌then◌else◌, get_or,
  length, arith,
}
use opo.Lexer.{Lexer, peek}

-- The newlines among the first `n` bytes.
unfoldable pub newlines : List ℕ → ℕ → ℕ
newlines s zero = 0
newlines [] (suc n) = 0
newlines (c ∷ s) (suc n) = (if c == b'\n' then 1 else 0) + newlines s n

pub newlines-suc :
    (s : List ℕ) (n : ℕ)
    → newlines s (n + 1) ≡ newlines s n + (if get_or s n 0 == b'\n' then 1 else 0)
unfolding newlines
newlines-suc [] zero = refl
newlines-suc [] (suc n) = ground arith
newlines-suc (c ∷ s) zero = ground arith
newlines-suc (c ∷ s) (suc n) = ground (arith, newlines-suc s n)

-- A byte that is not the terminator stands inside the text.
pub lt-length_of_get_or : (s : List ℕ) (n : ℕ) → get_or s n 0 ≢ 0 → n < length s
lt-length_of_get_or [] n h = absurd (h refl)
lt-length_of_get_or (c ∷ s) zero h = omega arith
lt-length_of_get_or (c ∷ s) (suc n) h = omega (arith, lt-length_of_get_or s n h)

-- `m` is `l` with the cursor moved on inside the same text, the lines counted, and the mark of
-- the current token kept.
pub record Moves (l m : Lexer) : Type 0 where
  pub source : m.source ≡ l.source
  pub start : m.start ≡ l.start
  pub token_line : m.token_line ≡ l.token_line
  pub token_column : m.token_column ≡ l.token_column
  pub ahead : l.current ≤ m.current
  pub within : m.current ≤ length m.source
  pub counts : m.line + newlines l.source l.current ≡ l.line + newlines l.source m.current

pub Moves-refl : (l : Lexer) → l.current ≤ length l.source → Moves l l
Moves-refl l h = record {
  source = refl;
  start = refl;
  token_line = refl;
  token_column = refl;
  ahead = omega arith;
  within = h;
  counts = refl;
}

pub Moves-trans : {l m n : Lexer} → Moves l m → Moves m n → Moves l n
Moves-trans a b = ground arith

-- One byte that is neither the terminator nor a newline; the column may be anything.
pub Moves-byte :
    (l : Lexer) (column : ℕ)
    → peek l ≢ 0
    → peek l ≢ b'\n'
    → Moves l (record l { current = l.current + 1; column = column })
Moves-byte l column h k =
    ground (arith, newlines-suc l.source l.current, lt-length_of_get_or l.source l.current h)

pub Moves-newline :
    (l : Lexer) (column : ℕ)
    → peek l ≡ b'\n'
    → Moves l (record l { current = l.current + 1; line = l.line + 1; column = column })
Moves-newline l column h =
    ground (arith, newlines-suc l.source l.current, lt-length_of_get_or l.source l.current)

abbrev pub left : Lexer → ℕ
left l = length l.source - l.current
