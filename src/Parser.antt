-- ===== src/Parser.antt =====
-- The parser of src/compiler.c, which checks types and emits code in one pass: its tokens and
-- tables, its state, and the monad of its functions. A name is the text of its token; an index
-- or an address that may be -1 is an option; a fixed array with a count is a list.
pub mod Tokens
pub mod Names
pub mod Types
pub mod Precedence
pub mod Values
pub mod Operators
pub mod Invoke
pub mod Access
pub mod Variable
pub mod Identifier
pub mod Assignment
pub mod Functions
pub mod Bodies
pub mod Rules
pub mod Statement
pub mod Match
pub mod Grammar
pub mod Predeclare
pub mod Modules
pub mod Compile
pub mod Ends
pub mod Scope
pub mod Checks
pub mod Patches
use opo.Base.{
  ℕ, zero, suc, ◌%◌, ◌^◌, Bool, true, false, List, [], ◌∷◌, Option, none, some, String, take,
  length,
}
use opo.Compiler.{Chunk, emit_byte, emit_bytes, emit_int32, patch_int32}
use opo.Lexer.{TokenType, Lexer}
use opo.OpCode.{OpCode, op_number}

-- A token with the text from its start on.
pub record Lexeme : Type 0 where
  pub type : TokenType
  pub start : List ℕ
  pub length : ℕ
  pub line : ℕ
  pub column : ℕ

abbrev pub text : Lexeme → List ℕ
text t = take t.length t.start

pub record Parser : Type 0 where
  pub current : Lexeme
  pub previous : Lexeme
  pub had_error : Bool
  pub panic_mode : Bool

-- What `error_at` prints: a fixed text, one that names a kind, or the text of an error token.
pub data Message : Type 0 where
  says : String → Message
  cannot_call : ℕ → Message
  lexical : List ℕ → Message

pub record Report : Type 0 where
  pub message : Message
  pub line : ℕ
  pub column : ℕ
  pub prefix : Option (List ℕ)

pub record Local : Type 0 where
  pub name : List ℕ
  pub type : ℕ
  pub depth : ℕ
  pub guarded_depth : ℕ
  pub guarded_variant : Option ℕ

pub record Function : Type 0 where
  pub name : List ℕ
  pub addr : Option ℕ
  pub return_type : ℕ
  pub param_types : List ℕ
  pub is_public : Bool
  pub pending_call_patches : List ℕ

pub record Loop : Type 0 where
  pub start_addr : ℕ
  pub end_jump_patches : List ℕ

pub record Field : Type 0 where
  pub name : List ℕ
  pub type : ℕ

pub record StructDef : Type 0 where
  pub name : List ℕ
  pub fields : List Field
  pub is_public : Bool

pub record Variant : Type 0 where
  pub name : List ℕ
  pub payload_type : ℕ
  pub has_payload : Bool

pub record EnumDef : Type 0 where
  pub name : List ℕ
  pub variants : List Variant
  pub is_public : Bool

pub record Native : Type 0 where
  pub name : List ℕ
  pub index : ℕ
  pub return_type : ℕ
  pub param_types : List ℕ

pub record CaptureSpec : Type 0 where
  pub name : Lexeme
  pub type : ℕ
  pub local_index : ℕ

-- An entry of `type_stack` and of `local_stack`.
pub record Operand : Type 0 where
  pub type : ℕ
  pub local_index : Option ℕ

-- `locals` and `type_stack` keep what was written beyond their counts, as the arrays do.
pub record CompilerState : Type 0 where
  pub locals : List Local
  pub local_count : ℕ
  pub functions : List Function
  pub structs : List StructDef
  pub enums : List EnumDef
  pub natives : List Native
  pub scope_depth : ℕ
  pub loops : List Loop
  pub current_return_type : ℕ
  pub type_stack : List Operand
  pub type_stack_ptr : ℕ
  pub is_go : Bool

-- The variables of the file, with what has been reported so far.
pub record State : Type 0 where
  pub lexer : Lexer
  pub parser : Parser
  pub compiler : CompilerState
  pub chunk : Chunk
  pub active_prefix : Option (List ℕ)
  pub popped_local : Option ℕ
  pub next_push_local : Option ℕ
  pub pending_captures : List CaptureSpec
  pub compiled_modules_count : ℕ
  pub compilation_stack : List (List ℕ)
  pub root_base_dir : List ℕ
  pub std_base_dir : List ℕ
  pub reports : List Report

-- An access out of bounds, or a loop or a recursion that is not over after the rounds allowed.
pub data Stop : Type 0 where
  undefined : Stop
  out_of_rounds : Stop

pub data Outcome {ℓ} (A : Type ℓ) : Type ℓ where
  ok : A → State → Outcome A
  stop : Stop → Outcome A

abbrev pub P : Type 0 → Type 0
P A = State → Outcome A

unfoldable pub pure : {A : Type 0} → A → P A
pure a s = ok a s

unfoldable pub fail : {A : Type 0} → Stop → P A
fail e s = stop e

unfoldable pub get : P State
get s = ok s s

unfoldable pub modify : (State → State) → P (Unit {0})
modify f s = ok tt (f s)

unfoldable pub with_compiler : (CompilerState → CompilerState) → P (Unit {0})
with_compiler f s = ok tt (record s { compiler = f s.compiler })

-- `emit_byte` and its like, on the current chunk
unfoldable pub emit : (Chunk → Chunk) → P (Unit {0})
emit f s = ok tt (record s { chunk = f s.chunk })

unfoldable pub when : Bool → P (Unit {0}) → P (Unit {0})
when true m s = m s
when false m s = ok tt s

-- What C leaves undefined unless the test holds.
unfoldable pub demand : Bool → P (Unit {0})
demand true s = ok tt s
demand false s = stop undefined

unfoldable pub on_option : {A B : Type 0} → Option A → P B → (A → P B) → P B
on_option none n f = n
on_option (some a) n f = f a

-- A loop with a bound on its rounds: the body says whether it goes on.
pub data Turn (A : Type 0) : Type 0 where
  again : A → Turn A
  finish : A → Turn A

abbrev pub next : {A : Type 0} → Outcome (Turn A) → (A → P A) → Outcome A
next (ok (again a) s) f = f a s
next (ok (finish a) s) f = ok a s
next (stop e) f = stop e

unfoldable pub iterate : {A : Type 0} → ℕ → (A → P (Turn A)) → A → P A
iterate zero body a s = stop out_of_rounds
iterate (suc rounds) body a s = next (body a s) (iterate rounds body)

abbrev pub bind : {A B : Type 0} → Outcome A → (A → P B) → Outcome B
bind (ok a s) f = f a s
bind (stop e) f = stop e

-- Opening this opens the steps that the functions are made of, too.
infixl 5 ◌>>=◌ ◌>>◌
unfoldable pub ◌>>=◌ : {A B : Type 0} → P A → (A → P B) → P B
unfolding pure fail get modify with_compiler emit when demand on_option iterate
◌>>=◌ m f s = bind (m s) f

abbrev pub ◌>>◌ : {B : Type 0} → P (Unit {0}) → P B → P B
m >> k = m >>= λ _. k

abbrev pub done : P (Unit {0})
done = pure tt

-- `current_chunk->count`
abbrev pub code_count : P ℕ
code_count = get >>= λ s. pure (length s.chunk.code)

abbrev pub emit_op : OpCode → P (Unit {0})
emit_op o = emit (emit_byte (op_number o))

abbrev pub emit_op_with : OpCode → ℕ → P (Unit {0})
emit_op_with o operand = emit (emit_bytes (op_number o) (operand % 2 ^ 8))

-- The functions of the parser that call one another: what each calls, and the bound on its rounds.
pub record Calls : Type 0 where
  pub rounds : ℕ
  pub parse_precedence : ℕ → P (Unit {0})
  pub block : P (Unit {0})
  pub statement : P (Unit {0})

-- `expression`, at `PREC_ASSIGNMENT`
abbrev pub expression : ⦃c : Calls⦄ → P (Unit {0})
expression ⦃c⦄ = c.parse_precedence 1
