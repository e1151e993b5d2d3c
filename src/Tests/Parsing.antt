-- ===== src/Tests/Parsing.antt =====
-- The theorems on the parser of src/compiler.c at concrete inputs.
use opo.Base.{
  ℕ, ◌≡◌, refl, true, false, not, none, some, List, [], ◌∷◌, ◌++◌, ◌+◌, ◌==◌, codes, length,
  if◌then◌else◌, bytes_eq, get_elem?, arith,
}
use opo.Kind
use opo.Lexer.{TokenType, lexer_init}
use opo.OpCode.{op_number, code_call}
use opo.Parser.Bodies.{parse_function}
use opo.Parser.Checks.{Checked}
use opo.Parser.Checks.Binary.{takes, makes, code_of, binary_code_lem}
use opo.Parser.Compile.{first_state, no_token}
use opo.Parser.Ends.Grammar.{UndefinedOr, rounds_suffice}
use opo.Parser.Grammar.{calls}
use opo.Tests.{whole_numbers}
use opo.Parser.Ends.{Goes, Sound, Post, Takes}
use opo.Parser.Ends.Unclosed.{parse_function_unclosed}
use opo.Parser.Ends.Types.{parse_type_terminates}
use opo.Parser.Functions.{Header, define_function}
use opo.Parser.Names.{
  find_function, find_from, add_local, resolve_local, type_push, type_pop, blank_function,
  emit_direct_function_call,
}
use opo.Parser.Operators.{binary_code}
use opo.Parser.Patches.Forward.{emit_direct_function_call-Apart}
use opo.Parser.Patches.{Apart, Patched, entry, defined, define_function-Patched}
use opo.Parser.Scope.{Gives, local_of, drop_locals, resolve_local-add_local, type_pop-type_push}
use opo.Parser.Types.{parse_type}
use opo.Parser.{Lexeme, Function, State, text, ok, stop, undefined, ◌>>◌}

abbrev token : TokenType → List ℕ → Lexeme
token type bytes = record {
  type = type;
  start = bytes;
  length = length bytes;
  line = 1;
  column = 1;
}

-- In front of the type `[int]?`, whose first token is current
abbrev at_type : State
at_type = record (first_state (codes "int]? x") [] []) {
  parser = record {
    current = token TokenType.lbracket (codes "[");
    previous = no_token;
    had_error = false;
    panic_mode = false;
  };
}

at_type-Sound : Sound at_type
unfolding first_state lexer_init
at_type-Sound = record {
  within = omega arith;
  at_end = λ e. ground (arith, e);
  empty = λ e. ground (arith, e);
}

parse_type_terminates_example : Post (parse_type 9 at_type) (Takes at_type)
unfolding first_state lexer_init
parse_type_terminates_example = parse_type_terminates 9 at_type at_type-Sound (omega arith)

abbrev empty_state : State
empty_state = first_state (codes "") [] []

abbrev x_token : Lexeme
x_token = token TokenType.id (codes "x")

resolve_local-add_local_example : Gives (add_local x_token Kind.int empty_state) (λ _ t.
    (resolve_local (codes "x") t
      ≡ ok
          (if bytes_eq (codes "x") (text x_token)
            then some empty_state.compiler.local_count
            else local_of (codes "x") empty_state)
          t)
    × (resolve_local (codes "x") (drop_locals empty_state.compiler.local_count t)
        ≡ ok (local_of (codes "x") empty_state) (drop_locals empty_state.compiler.local_count t)))
unfolding first_state
resolve_local-add_local_example =
    resolve_local-add_local x_token Kind.int (codes "x") empty_state (omega arith)

type_pop-type_push_example : Gives ((type_push Kind.str >> type_pop) empty_state) (λ r t.
    (r ≡ Kind.str)
    × (t.popped_local ≡ empty_state.next_push_local)
    × (t.next_push_local ≡ none)
    × (t.compiler.type_stack_ptr ≡ empty_state.compiler.type_stack_ptr))
unfolding first_state
type_pop-type_push_example = type_pop-type_push Kind.str empty_state (omega arith)

binary_code_example : Gives (binary_code TokenType.plus Kind.int Kind.flt empty_state) (λ _ t.
    Checked
      (not (takes TokenType.plus Kind.int Kind.flt))
      (code_of TokenType.plus)
      (makes TokenType.plus Kind.int)
      empty_state
      t)
unfolding first_state
binary_code_example =
    binary_code_lem TokenType.plus Kind.int Kind.flt empty_state refl (λ e. ground (arith, e))
      (omega arith)

abbrev waiting : Function
waiting = record blank_function { name = codes "f"; addr = none; pending_call_patches = 1 ∷ [] }

-- A chunk with the call of a function `f` that is to come.
abbrev calling_f : State
calling_f = record empty_state {
  compiler = record empty_state.compiler { functions = waiting ∷ [] };
  chunk = record empty_state.chunk { code = 24 ∷ 255 ∷ 255 ∷ 255 ∷ 255 ∷ [] };
}

abbrev no_params : Header
no_params = record {
  params = [];
  explicit = some Kind.int;
  name = some (token TokenType.id (codes "f"));
}

define_function-Patched_example :
    Gives (define_function (codes "f") 5 true no_params calling_f) (λ j t.
      (j ≡ 0)
      × Patched t.chunk.code (entry 0 calling_f).pending_call_patches 5
      × ((k : ℕ)
          → entry k t
            ≡ (if k == 0 then defined 5 true no_params (entry 0 calling_f) else entry k calling_f)))
unfolding first_state find_function find_from bytes_eq
define_function-Patched_example =
    define_function-Patched (codes "f") 5 true no_params calling_f 0 refl
      (omega arith, omega arith, tt)

emit_direct_function_call-Apart_example : Gives (emit_direct_function_call 0 calling_f) (λ _ t.
    (get_elem? t.chunk.code (length calling_f.chunk.code) ≡ some (op_number code_call))
    × (length t.chunk.code ≡ length calling_f.chunk.code + 5)
    × ((entry 0 t).pending_call_patches
        ≡ (entry 0 calling_f).pending_call_patches ++ (length calling_f.chunk.code + 1) ∷ [])
    × Apart 0 (entry 0 t).pending_call_patches (length t.chunk.code))
unfolding first_state
emit_direct_function_call-Apart_example =
    emit_direct_function_call-Apart 0 calling_f (omega arith) refl (omega arith)
      (omega arith, omega arith, tt)

-- In front of `1 + x`, whose first token is current
abbrev at_sum : State
at_sum = record (first_state (codes " + x") [] []) {
  parser = record {
    current = token TokenType.int (codes "1");
    previous = no_token;
    had_error = false;
    panic_mode = false;
  };
}

at_sum-Sound : Sound at_sum
unfolding first_state lexer_init
at_sum-Sound = record {
  within = omega arith;
  at_end = λ e. ground (arith, e);
  empty = λ e. ground (arith, e);
}

rounds_suffice_example :
    UndefinedOr ((calls ⦃p = whole_numbers⦄ 40).parse_precedence 1 at_sum) (Takes at_sum)
    × UndefinedOr ((calls ⦃p = whole_numbers⦄ 40).statement at_sum) (Takes at_sum)
    × UndefinedOr ((calls ⦃p = whole_numbers⦄ 40).block at_sum) (Goes at_sum)
unfolding first_state lexer_init
rounds_suffice_example =
    rounds_suffice ⦃p = whole_numbers⦄ 40 1 at_sum (omega arith) at_sum-Sound (omega arith)

-- Behind the `<` of a text that ends there
abbrev at_unclosed : State
at_unclosed = record (first_state (codes "<") [] []) {
  lexer = record (lexer_init (codes "<")) { current = 1 };
  parser = record {
    current = token TokenType.eof [];
    previous = token TokenType.langle (codes "<");
    had_error = false;
    panic_mode = false;
  };
}

at_unclosed-Sound : Sound at_unclosed
unfolding first_state lexer_init
at_unclosed-Sound = record { within = omega arith; at_end = λ e. refl; empty = λ e. refl }

parse_function_unclosed_example :
    parse_function ⦃c = calls ⦃p = whole_numbers⦄ 40⦄ true false none at_unclosed ≡ stop undefined
unfolding calls
parse_function_unclosed_example =
    parse_function_unclosed ⦃c = calls ⦃p = whole_numbers⦄ 40⦄ true false none at_unclosed
      at_unclosed-Sound refl (omega arith)
