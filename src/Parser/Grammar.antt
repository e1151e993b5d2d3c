-- ===== src/Parser/Grammar.antt =====
-- `statement` of src/compiler.c, and the functions of the parser tied together, each call one level
-- below its caller.
use opo.Base.{ℕ, zero, suc, if◌then◌else◌}
use opo.Kind
use opo.Lexer.{TokenType}
use opo.Parser.Match.{match_statement}
use opo.Parser.Names.{type_push}
use opo.Parser.Rules.{precedence_body, block_body}
use opo.Parser.Statement.{go_statement, try_statement, expression_statement}
use opo.Parser.Tokens.{match}
use opo.Parser.{P, out_of_rounds, ◌>>=◌, fail, Calls}
use opo.Platform.{Platform}

module _ ⦃c : Calls⦄ where
  unfoldable pub statement_body : P (Unit {0})
  statement_body = do
    matches ← match TokenType.match
    if matches then match_statement else (do
      goes ← match TokenType.go
      if goes then go_statement else (do
        semicolon ← match TokenType.semicolon
        if semicolon then type_push Kind.void else (do
          tries ← match TokenType.try
          if tries then try_statement else expression_statement)))

module _ ⦃p : Platform⦄ where
  unfoldable pub calls : ℕ → Calls
  calls zero = record {
    rounds = 0;
    parse_precedence = λ prec. fail out_of_rounds;
    block = fail out_of_rounds;
    statement = fail out_of_rounds;
  }
  calls (suc rounds) = record {
    rounds = suc rounds;
    parse_precedence = λ prec. precedence_body ⦃c = calls rounds⦄ prec;
    block = block_body ⦃c = calls rounds⦄;
    statement = statement_body ⦃c = calls rounds⦄;
  }
