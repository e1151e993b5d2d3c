-- ===== src/Parser/Ends/Bodies.antt =====
-- `parse_function` of src/compiler.c, and the expressions that start with `[`, keep within their
-- bounds.
use opo.Base.{ℕ, zero, suc, refl, List, [], ◌∷◌, Option, none, some, Bool, arith}
use opo.Parser.Bodies.{
  set_pending, add_captures, add_params, store_params, load_captures, settle_return_type,
  enter_function, set_return_type, keep_function, function_value, function_body, parse_function,
  bracket_expression,
}
use opo.Parser.Ends.Calling.{Calling}
use opo.Parser.Ends.Captures.{Ends-is_capture_list_ahead}
use opo.Parser.Ends.Functions.{Ends-function_header, Ends-define_function, Ends-parse_capture_list}
use opo.Parser.Ends.Names.{
  steps, Ends-type_push, Ends-type_pop, Ends-emit_jump, Ends-patch_here, Ends-add_local,
}
use opo.Parser.Ends.Values.{Ends-array_literal}
use opo.Parser.Ends.{Ends, Ends-then, Goes-step}
use opo.Parser.Functions.{Header, function_header, parse_capture_list, is_capture_list_ahead}
use opo.Parser.Values.{array_literal}
use opo.Parser.{Lexeme, CaptureSpec, Calls, modify}

pub Ends-set_pending : {k : ℕ} (captures : List CaptureSpec) → Ends k (set_pending captures)
unfolding set_pending modify
Ends-set_pending captures = record {
  at = λ s h r. Goes-step s _ h refl refl refl (λ e. e) (omega arith);
}

Ends-add_captures : {k : ℕ} (captures : List CaptureSpec) → Ends k (add_captures captures)
Ends-add_captures [] = search steps
Ends-add_captures (c ∷ captures) = Ends-then _ _ (Ends-add_local _ _) (Ends-add_captures captures)

Ends-add_params : {k : ℕ} (params : List (Lexeme × ℕ)) → Ends k (add_params params)
Ends-add_params [] = search steps
Ends-add_params ((name, type) ∷ params) =
    Ends-then _ _ (Ends-add_local _ _) (Ends-add_params params)

Ends-store_params : {k : ℕ} (first n : ℕ) → Ends k (store_params first n)
unfolding store_params
Ends-store_params first zero = search steps
Ends-store_params first (suc n) = Ends-then _ _ (search steps) (Ends-store_params first n)

Ends-load_captures : {k : ℕ} (captures : List CaptureSpec) → Ends k (load_captures captures)
unfolding load_captures
Ends-load_captures [] = search steps
Ends-load_captures (c ∷ captures) = Ends-then _ _ (search steps) (Ends-load_captures captures)

Ends-settle_return_type :
    {k : ℕ} (explicit : Option ℕ) (actual : ℕ) → Ends k (settle_return_type explicit actual)
unfolding settle_return_type
Ends-settle_return_type none actual = search steps depth 40 fits 20000
Ends-settle_return_type (some type) actual = search steps depth 40 fits 20000

Ends-enter_function :
    {k : ℕ} (h : Header) (is_expression is_public : Bool) (prefix : Option (List ℕ)) (addr : ℕ)
    → Ends k (enter_function h is_expression is_public prefix addr)
unfolding enter_function
Ends-enter_function h is_expression is_public prefix addr =
    search (steps, Ends-define_function) depth 40 fits 20000

Ends-set_return_type : {k : ℕ} (func : Option ℕ) (type : ℕ) → Ends k (set_return_type func type)
unfolding set_return_type
Ends-set_return_type none type = search steps
Ends-set_return_type (some i) type = search steps depth 20

Ends-keep_function : {k : ℕ} (name : Option Lexeme) (type : ℕ) → Ends k (keep_function name type)
unfolding keep_function
Ends-keep_function none type = search steps
Ends-keep_function (some name) type =
    search (steps, Ends-add_local, Ends-type_pop, Ends-type_push) depth 40 fits 20000

Ends-function_value :
    {k : ℕ} (h : Header) (captures : List CaptureSpec) (addr type : ℕ)
    → Ends k (function_value h captures addr type)
unfolding function_value
Ends-function_value h captures addr type =
    search (steps, Ends-load_captures, Ends-type_push, Ends-keep_function) depth 40 fits 20000

module _ ⦃c : Calls⦄ {k : ℕ} (h : Calling c k) where
  header_ends : Ends k (function_header c.rounds)
  header_ends = Ends-function_header c.rounds (omega (arith, h.rounds))

  list_ends : Ends k (parse_capture_list c.rounds)
  list_ends = Ends-parse_capture_list c.rounds (omega (arith, h.rounds))

  ahead_ends : Ends k (is_capture_list_ahead c.rounds)
  ahead_ends = Ends-is_capture_list_ahead c.rounds (omega (arith, h.rounds))

  array_ends : Ends k array_literal
  array_ends = Ends-array_literal h

  block_ends : Ends k c.block
  block_ends = h.block

  Ends-function_body :
      (head : Header) (captures : List CaptureSpec) → Ends k (function_body head captures)
  unfolding function_body
  Ends-function_body head captures =
      search
        (
          steps, block_ends, Ends-add_captures, Ends-add_params, Ends-store_params, Ends-type_pop,
          Ends-settle_return_type,
        )
        depth 60 fits 40000

  pub Ends-parse_function :
      (is_expression is_public : Bool) (prefix : Option (List ℕ))
      → Ends k (parse_function is_expression is_public prefix)
  unfolding parse_function
  Ends-parse_function is_expression is_public prefix =
      search
        (
          steps, header_ends, Ends-set_pending, Ends-emit_jump, Ends-enter_function,
          Ends-function_body, Ends-patch_here, Ends-set_return_type, Ends-function_value,
        )
        depth 60 fits 40000

  pub Ends-bracket_expression : Ends k bracket_expression
  unfolding bracket_expression
  Ends-bracket_expression =
      search (steps, ahead_ends, list_ends, array_ends, Ends-set_pending, Ends-parse_function) depth
        40 fits 20000
