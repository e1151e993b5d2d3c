-- ===== src/Parser/Ends/Calling.antt =====
-- What the functions of src/compiler.c's parser rely on about those that they call in turn.
use opo.Base.{◌≡◌, true, ltb, ℕ, ◌+◌, ◌≤◌, arith}
use opo.Parser.Ends.Types.{Ends-parse_type}
use opo.Parser.Ends.{Ends}
use opo.Parser.Types.{parse_type}
use opo.Parser.{Calls}

-- With so much left to read, the calls keep within their bounds, and the loops have rounds enough.
pub record Calling (c : Calls) (k : ℕ) : Type 0 where
  pub precedence : (p : ℕ) → ltb 0 p ≡ true → Ends k (c.parse_precedence p)
  pub block : Ends k c.block
  pub statement : Ends k c.statement
  pub rounds : k + 18 ≤ c.rounds

pub types : {c : Calls} {k : ℕ} → Calling c k → Ends k (parse_type c.rounds)
types {c} h = Ends-parse_type c.rounds (omega (arith, h.rounds))
