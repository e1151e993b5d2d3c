-- ===== src/Parser/Ends/Values.antt =====
-- The rules of src/compiler.c for literals and constructors keep within their bounds.
use opo.Base.{ℕ, ◌<◌, refl, arith}
use opo.Lexer.{TokenType}
use opo.Kind
use opo.Parser.Ends.Calling.{Calling, types}
use opo.Parser.Ends.Loops.{Turns, Ends-Turns, Turns-finish, Turns-bind, Turns-match_then}
use opo.Parser.Ends.Names.{steps, Ends-type_push, Ends-type_pop, Ends-string_constant}
use opo.Parser.Ends.{Ends}
use opo.Parser.{Calls, iterate}
use opo.Platform.{Platform}
use opo.Parser.Types.{parse_type}
use opo.Parser.Values.{
  number, string, literal, emit_variant, none_expr, some_expr, ok_expr, err_expr, chan_expr,
  array_element, array_literal, map_entry, map_literal,
}

module _ ⦃p : Platform⦄ where
  pub Ends-number : {k : ℕ} → Ends k (number)
  unfolding number
  Ends-number = search (steps, Ends-type_push) depth 40 fits 20000

pub Ends-string : {k : ℕ} → Ends k (string)
unfolding string
Ends-string = search (steps, Ends-string_constant, Ends-type_push) depth 40 fits 20000

pub Ends-literal : {k : ℕ} → Ends k (literal)
unfolding literal
Ends-literal = search (steps, Ends-type_push) depth 40 fits 20000

pub Ends-emit_variant :
    {k : ℕ} (type : ℕ) (variant : ℕ) (has_payload : ℕ)
    → Ends k (emit_variant type variant has_payload)
unfolding emit_variant
Ends-emit_variant type variant has_payload = search (steps) depth 40 fits 20000

pub Ends-none_expr : {k : ℕ} → Ends k (none_expr)
unfolding none_expr
Ends-none_expr = search (steps, Ends-emit_variant, Ends-type_push) depth 40 fits 20000

module _ ⦃c : Calls⦄ {k : ℕ} (h : Calling c k) where
  parses : Ends k (parse_type c.rounds)
  parses = types h

  pub Ends-some_expr : Ends k (some_expr)
  unfolding some_expr
  Ends-some_expr =
      search (steps, Ends-type_pop, Ends-emit_variant, Ends-type_push, h.precedence) depth 40 fits
        20000

  pub Ends-ok_expr : Ends k (ok_expr)
  unfolding ok_expr
  Ends-ok_expr =
      search (steps, Ends-type_pop, Ends-emit_variant, Ends-type_push, h.precedence) depth 40 fits
        20000

  pub Ends-err_expr : Ends k (err_expr)
  unfolding err_expr
  Ends-err_expr =
      search (steps, Ends-type_pop, Ends-string, Ends-emit_variant, Ends-type_push, h.precedence)
        depth 40 fits 20000

  pub Ends-chan_expr : Ends k (chan_expr)
  unfolding chan_expr
  Ends-chan_expr =
      search (steps, Ends-type_pop, Ends-type_push, h.precedence, parses) depth 40 fits 20000

  Turns-array_element : (a : ℕ × ℕ) → Turns k (array_element a)
  unfolding array_element
  Turns-array_element (count, type) = Turns-bind _ _ (h.precedence _ refl) (λ u.
      Turns-bind _ _ Ends-type_pop (λ t.
        Turns-bind _ _ (search steps depth 20)
          (λ v. Turns-match_then TokenType.comma _ refl (λ j p. search steps) (Turns-finish _))))

  enough : k < c.rounds
  enough = omega (arith, h.rounds)

  elements : Ends k (iterate c.rounds array_element (0, Kind.any))
  elements = Ends-Turns c.rounds array_element (0, Kind.any) enough Turns-array_element

  pub Ends-array_literal : Ends k (array_literal)
  unfolding array_literal
  Ends-array_literal = search (steps, Ends-type_push, elements) depth 40 fits 20000

  Turns-map_entry : (a : ℕ × ℕ × ℕ) → Turns k (map_entry a)
  unfolding map_entry
  Turns-map_entry (count, key, value) = Turns-bind _ _ (h.precedence _ refl) (λ u.
      Turns-bind _ _ Ends-type_pop (λ t. Turns-bind _ _ (search steps depth 20) (λ v.
        Turns-bind _ _ (search steps) (λ w. Turns-bind _ _ (h.precedence _ refl) (λ x.
          Turns-bind _ _ Ends-type_pop (λ y. Turns-bind _ _ (search steps depth 20) (λ z.
            Turns-match_then TokenType.comma _ refl (λ j p. search steps) (Turns-finish _))))))))

  entries : Ends k (iterate c.rounds map_entry (0, Kind.void, Kind.void))
  entries = Ends-Turns c.rounds map_entry (0, Kind.void, Kind.void) enough Turns-map_entry

  pub Ends-map_literal : Ends k (map_literal)
  unfolding map_literal
  Ends-map_literal = search (steps, Ends-type_push, entries) depth 40 fits 20000
