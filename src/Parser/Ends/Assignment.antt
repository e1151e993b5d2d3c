-- ===== src/Parser/Ends/Assignment.antt =====
-- `assignment` of src/compiler.c, and the jumps of loops and functions, keep within their bounds.
use opo.Base.{ℕ, List, [], ◌∷◌, Option, none, some}
use opo.Parser.Ends.Calling.{Calling, types}
use opo.Parser.Ends.Names.{
  steps, Ends-type_push, Ends-type_pop, Ends-string_constant, Ends-emit_jump, Ends-resolve_local,
  Ends-add_local,
}
use opo.Parser.Ends.{Ends}
use opo.Parser.{Lexeme, Message, Calls, Loop}
use opo.Platform.{Platform}
use opo.Parser.Types.{parse_type}
use opo.Parser.Assignment.{
  local_for, declare_variable, assign_variable, assign_int, assign_str, assign_paren, assign_member,
  assign_element, assignment, break_from, break_op, continue_at, continue_op, returns, return_op,
}

pub Ends-local_for :
    {k : ℕ} (name : Lexeme) (type : ℕ) (found : Option ℕ) → Ends k (local_for name type found)
unfolding local_for
Ends-local_for name type none = search (steps, Ends-add_local) depth 20
Ends-local_for name type (some i) = search steps

module _ ⦃c : Calls⦄ {k : ℕ} (h : Calling c k) where
  parses : Ends k (parse_type c.rounds)
  parses = types h

  pub Ends-declare_variable : (name : Lexeme) → Ends k (declare_variable name)
  unfolding declare_variable
  Ends-declare_variable name =
      search (steps, Ends-type_pop, Ends-resolve_local, Ends-local_for, Ends-type_push, parses)
        depth 40 fits 20000

pub Ends-assign_variable : {k : ℕ} (name : Lexeme) → Ends k (assign_variable name)
unfolding assign_variable
Ends-assign_variable name =
    search (steps, Ends-resolve_local, Ends-type_pop, Ends-local_for, Ends-type_push) depth 40 fits
      20000

module _ ⦃p : Platform⦄ where
  pub Ends-assign_int :
      {k : ℕ} (name : Lexeme) (lhs_type : ℕ) (val_type : ℕ)
      → Ends k (assign_int name lhs_type val_type)
  unfolding assign_int
  Ends-assign_int name lhs_type val_type = search (steps, Ends-type_push) depth 40 fits 20000

pub Ends-assign_str :
    {k : ℕ} (name : Lexeme) (lhs_type : ℕ) (val_type : ℕ)
    → Ends k (assign_str name lhs_type val_type)
unfolding assign_str
Ends-assign_str name lhs_type val_type =
    search (steps, Ends-string_constant, Ends-type_push) depth 40 fits 20000

module _ ⦃c : Calls⦄ {k : ℕ} (h : Calling c k) where
  pub Ends-assign_paren :
      (name : Lexeme) (lhs_type : ℕ) (val_type : ℕ) → Ends k (assign_paren name lhs_type val_type)
  unfolding assign_paren
  Ends-assign_paren name lhs_type val_type =
      search (steps, Ends-type_pop, Ends-type_push, h.precedence) depth 40 fits 20000

pub Ends-assign_member :
    {k : ℕ} (name : Lexeme) (lhs_type : ℕ) (val_type : ℕ)
    → Ends k (assign_member name lhs_type val_type)
unfolding assign_member
Ends-assign_member name lhs_type val_type =
    search (steps, Ends-resolve_local, Ends-type_push) depth 40 fits 20000

module _ ⦃p : Platform⦄ ⦃c : Calls⦄ {k : ℕ} (h : Calling c k) where
  paren_ends :
      (name : Lexeme) (lhs_type : ℕ) (val_type : ℕ) → Ends k (assign_paren name lhs_type val_type)
  paren_ends = Ends-assign_paren h

  declare_ends : (name : Lexeme) → Ends k (declare_variable name)
  declare_ends = Ends-declare_variable h

  pub Ends-assign_element : (name : Lexeme) (found : Option ℕ) → Ends k (assign_element name found)
  unfolding assign_element
  Ends-assign_element name none = search steps
  Ends-assign_element name (some arg) =
      search
        (steps, Ends-type_pop, Ends-assign_int, Ends-assign_str, paren_ends, Ends-assign_member)
        depth 40 fits 20000

  pub Ends-assignment : Ends k (assignment)
  unfolding assignment
  Ends-assignment =
      search (steps, declare_ends, Ends-resolve_local, Ends-assign_element, Ends-assign_variable)
        depth 40 fits 20000

pub Ends-break_from : {k : ℕ} (loops : List Loop) → Ends k (break_from loops)
unfolding break_from
Ends-break_from [] = search steps depth 20
Ends-break_from (l ∷ outer) = search (steps, Ends-emit_jump, Ends-type_push) depth 20

pub Ends-break_op : {k : ℕ} → Ends k (break_op)
unfolding break_op
Ends-break_op = search (steps, Ends-break_from) depth 40 fits 20000

pub Ends-continue_at : {k : ℕ} (loops : List Loop) → Ends k (continue_at loops)
unfolding continue_at
Ends-continue_at [] = search steps depth 20
Ends-continue_at (l ∷ outer) = search (steps, Ends-type_push) depth 20

pub Ends-continue_op : {k : ℕ} → Ends k (continue_op)
unfolding continue_op
Ends-continue_op = search (steps, Ends-continue_at) depth 40 fits 20000

pub Ends-returns : {k : ℕ} (mismatch : Message) (t : ℕ) → Ends k (returns mismatch t)
unfolding returns
Ends-returns mismatch t = search (steps) depth 40 fits 20000

module _ ⦃c : Calls⦄ {k : ℕ} (h : Calling c k) where
  pub Ends-return_op : Ends k (return_op)
  unfolding return_op
  Ends-return_op =
      search (steps, Ends-returns, Ends-type_push, Ends-type_pop, h.precedence) depth 40 fits 20000
