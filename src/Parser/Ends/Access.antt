-- ===== src/Parser/Ends/Access.antt =====
-- `dot` of src/compiler.c keeps within its bounds.
use opo.Base.{ℕ, List, Option, none, some}
use opo.Parser.Ends.Calling.{Calling}
use opo.Parser.Ends.Names.{
  steps, Ends-type_push, Ends-type_pop, Ends-string_constant, Ends-resolve_local,
}
use opo.Parser.Ends.{Ends}
use opo.Parser.{Lexeme, Calls}
use opo.Platform.{Platform}
use opo.Parser.Access.{
  push_item, push_member, reject_any, dot_int, dot_str, dot_paren, variant_of, is_guarded,
  dot_variant, dot_local, dot_name, dot,
}

pub Ends-push_item : {k : ℕ} (lhs_type : ℕ) → Ends k (push_item lhs_type)
unfolding push_item
Ends-push_item lhs_type = search (steps, Ends-type_push) depth 40 fits 20000

pub Ends-push_member : {k : ℕ} (lhs_type : ℕ) → Ends k (push_member lhs_type)
unfolding push_member
Ends-push_member lhs_type = search (steps, Ends-type_push) depth 40 fits 20000

pub Ends-reject_any : {k : ℕ} (lhs_type : ℕ) → Ends k (reject_any lhs_type)
unfolding reject_any
Ends-reject_any lhs_type = search (steps) depth 40 fits 20000

module _ ⦃p : Platform⦄ where
  pub Ends-dot_int : {k : ℕ} (lhs_type : ℕ) → Ends k (dot_int lhs_type)
  unfolding dot_int
  Ends-dot_int lhs_type = search (steps, Ends-reject_any, Ends-push_item) depth 40 fits 20000

pub Ends-dot_str : {k : ℕ} (lhs_type : ℕ) → Ends k (dot_str lhs_type)
unfolding dot_str
Ends-dot_str lhs_type =
    search (steps, Ends-reject_any, Ends-string_constant, Ends-push_member) depth 40 fits 20000

module _ ⦃c : Calls⦄ {k : ℕ} (h : Calling c k) where
  pub Ends-dot_paren : (lhs_type : ℕ) → Ends k (dot_paren lhs_type)
  unfolding dot_paren
  Ends-dot_paren lhs_type =
      search (steps, Ends-reject_any, Ends-type_pop, Ends-push_item, h.precedence) depth 40 fits
        20000

pub Ends-variant_of : {k : ℕ} (name : List ℕ) (lhs_type : ℕ) → Ends k (variant_of name lhs_type)
unfolding variant_of
Ends-variant_of name lhs_type = search (steps) depth 40 fits 20000

pub Ends-is_guarded : {k : ℕ} (local : Option ℕ) (v : ℕ) → Ends k (is_guarded local v)
unfolding is_guarded
Ends-is_guarded none v = search steps
Ends-is_guarded (some local) v = search steps depth 20

pub Ends-dot_variant :
    {k : ℕ} (name : Lexeme) (lhs_type : ℕ) (lhs_local : Option ℕ)
    → Ends k (dot_variant name lhs_type lhs_local)
unfolding dot_variant
Ends-dot_variant name lhs_type lhs_local =
    search (steps, Ends-variant_of, Ends-is_guarded, Ends-type_push) depth 40 fits 20000

pub Ends-dot_local : {k : ℕ} (name : Lexeme) (lhs_type : ℕ) → Ends k (dot_local name lhs_type)
unfolding dot_local
Ends-dot_local name lhs_type =
    search (steps, Ends-resolve_local, Ends-push_item) depth 40 fits 20000

pub Ends-dot_name :
    {k : ℕ} (lhs_type : ℕ) (lhs_local : Option ℕ) → Ends k (dot_name lhs_type lhs_local)
unfolding dot_name
Ends-dot_name lhs_type lhs_local =
    search (steps, Ends-dot_variant, Ends-dot_local, Ends-type_push) depth 40 fits 20000

module _ ⦃p : Platform⦄ ⦃c : Calls⦄ {k : ℕ} (h : Calling c k) where
  pub Ends-dot : Ends k (dot)
  unfolding dot
  Ends-dot =
      search (steps, Ends-type_pop, Ends-dot_int, Ends-dot_str, Ends-dot_paren, Ends-dot_name) depth
        40 fits 20000
