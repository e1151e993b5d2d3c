-- ===== src/Tests/Lexing.antt =====
-- The theorems on src/lexer.c and on the types of src/common.h at concrete inputs.
use opo.Base.{◌≡◌, ◌≤◌, ◌+◌, refl, false, codes, length, suc, arith}
use opo.Lexer.{Lexer, lexer_init, arrow, skip_whitespace, skips, source_at}
use opo.Lexer.Columns.{arrow_column, newline_column}
use opo.Lexer.Cursor.{Moves}
use opo.Lexer.Next.{NextToken, lexer_next_token_lem}
use opo.Lexer.Scan.{lexer_next_token, identifier_type}
use opo.Lexer.Scan.Keywords.{keywords, word_type, identifier_type-table}
use opo.Lexer.Skip.{skip_whitespace-Moves}
use opo.Lexer.Tokens.{tokens, EndsInEof, tokens_terminate}
use opo.Types.{make_type, type_kind, type_sub, type_key, name_type, type_to_string}
use opo.Types.Names.{type_to_string_depth, type_to_string_fits}
use opo.Types.Packing.{make_type_fields, make_type_of_fields}

abbrev sum_text : Lexer
sum_text = lexer_init (codes "  a + 12")

lexer_next_token_example : NextToken sum_text (lexer_next_token sum_text)
unfolding lexer_init
lexer_next_token_example = lexer_next_token_lem sum_text (omega arith)

tokens_example : EndsInEof (tokens (suc (length (codes "a -> b"))) (lexer_init (codes "a -> b")))
tokens_example = tokens_terminate (codes "a -> b")

identifier_type_example : identifier_type (codes "chan") ≡ word_type keywords (codes "chan")
identifier_type_example = identifier_type-table (codes "chan")

skip_whitespace_example :
    Moves sum_text (skip_whitespace sum_text) × (skips (skip_whitespace sum_text) ≡ false)
unfolding lexer_init
skip_whitespace_example = skip_whitespace-Moves sum_text (omega arith)

abbrev arrow_text : Lexer
arrow_text = lexer_init (codes "-> x")

arrow_column_example :
    ((lexer_next_token arrow_text).0.type ≡ arrow)
    × ((lexer_next_token arrow_text).1.current ≡ 2)
    × ((lexer_next_token arrow_text).1.column ≡ 2)
unfolding lexer_init
arrow_column_example = arrow_column arrow_text refl refl

abbrev second_line : Lexer
second_line = lexer_init (codes "\nx")

newline_column_example :
    ((lexer_next_token second_line).0.start ≡ source_at 1)
    × ((lexer_next_token second_line).0.column ≡ 2)
unfolding lexer_init
newline_column_example = newline_column second_line (omega arith) refl refl

make_type_fields_example :
    (type_kind (make_type 14 4 1) ≡ 14)
    × (type_sub (make_type 14 4 1) ≡ 4)
    × (type_key (make_type 14 4 1) ≡ 1)
make_type_fields_example = make_type_fields 14 4 1 (omega arith) (omega arith) (omega arith)

make_type_of_fields_example : make_type (type_kind 66574) (type_sub 66574) (type_key 66574) ≡ 66574
make_type_of_fields_example = make_type_of_fields 66574 (omega arith)

type_to_string_depth_example : name_type 7 66574 ≡ type_to_string 66574
type_to_string_depth_example = type_to_string_depth 4 66574

type_to_string_fits_example : length (type_to_string 66574) + 1 ≤ 64
type_to_string_fits_example = type_to_string_fits 66574
