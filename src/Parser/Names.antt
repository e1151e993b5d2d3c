-- ===== src/Parser/Names.antt =====
-- The parser of src/compiler.c: what a name stands for, the locals, the compile-time type stack,
-- and the calls and jumps whose addresses are not known yet.
use opo.Base.{
  ℕ, zero, suc, ◌+◌, ◌-◌, ◌%◌, ◌^◌, Bool, true, false, List, [], ◌∷◌, ◌++◌, Option, none, some,
  ◌==◌, leb, ltb, if◌then◌else◌, get_or, set, length, bytes_eq,
}
use opo.Compiler.{emit_int32, patch_int32, add_string}
use opo.Kind
use opo.OpCode.{OpCode, code_call}
use opo.Parser.Tokens.{report, error_at}
use opo.Parser.{
  on_option, Lexeme, text, Message, says, Local, Function, Field, StructDef, Variant, EnumDef,
  Native, Operand, State, P, ok, stop, undefined, pure, ◌>>=◌, ◌>>◌, done, get, with_compiler, emit,
  emit_op, code_count,
}
use opo.Vm.{stack_max}

-- An entry of an array that the allocation has set to zero up to where it has been written.
unfoldable pub put_at {ℓ} : {A : Type ℓ} → A → List A → ℕ → A → List A
put_at blank [] zero v = v ∷ []
put_at blank [] (suc i) v = blank ∷ put_at blank [] i v
put_at blank (x ∷ xs) zero v = v ∷ xs
put_at blank (x ∷ xs) (suc i) v = x ∷ put_at blank xs i v

-- The place of the first element that a test accepts, counted from `i`.
unfoldable pub find_from {ℓ} : {A : Type ℓ} → (A → Bool) → ℕ → List A → Option ℕ
find_from test i [] = none
find_from test i (x ∷ xs) = elim (test x) [ true ↦ some i | false ↦ find_from test (suc i) xs ]

-- `prefix` and `name` joined, where there is a prefix
abbrev pub qualify_name : List ℕ → Option (List ℕ) → List ℕ
qualify_name name none = name
qualify_name name (some prefix) = prefix ++ name

unfoldable pub find_function : List ℕ → List Function → Option ℕ
find_function name functions = find_from (λ (f : Function). bytes_eq name f.name) 0 functions

unfoldable pub find_struct : List ℕ → List StructDef → Option ℕ
find_struct name structs = find_from (λ (d : StructDef). bytes_eq name d.name) 0 structs

unfoldable pub find_enum : List ℕ → List EnumDef → Option ℕ
find_enum name enums = find_from (λ (d : EnumDef). bytes_eq name d.name) 0 enums

unfoldable pub find_variant : List ℕ → List Variant → Option ℕ
find_variant name variants = find_from (λ (v : Variant). bytes_eq name v.name) 0 variants

-- The first struct that has such a field: the number and the type of the field.
unfoldable pub find_field : List ℕ → List StructDef → Option (ℕ × ℕ)
find_field name [] = none
find_field name (d ∷ structs) = elim (find_from (λ (f : Field). bytes_eq name f.name) 0 d.fields) [
  | some j ↦ some (j, (get_or d.fields j (record { name = []; type = 0 })).type)
  | none ↦ find_field name structs
]

abbrev pub blank_local : Local
blank_local = record { name = []; type = 0; depth = 0; guarded_depth = 0; guarded_variant = some 0 }

-- From `local_count - 1` down.
unfoldable pub last_local : ℕ → List Local → List ℕ → Option ℕ
last_local zero locals name = none
last_local (suc i) locals name =
    let rest = last_local i locals name in
    if bytes_eq name (get_or locals i blank_local).name then some i else rest

unfoldable pub resolve_local : List ℕ → P (Option ℕ)
resolve_local name s =
    if leb s.compiler.local_count 256
    then ok (last_local s.compiler.local_count s.compiler.locals name) s
    else stop undefined

abbrev pub local_at : ℕ → P Local
local_at i = get >>= λ s. pure (get_or s.compiler.locals i blank_local)

abbrev pub set_local : ℕ → Local → P (Unit {0})
set_local i l = with_compiler (λ c. record c { locals = put_at blank_local c.locals i l })

-- The index of the native of that name.
unfoldable pub resolve_native : List ℕ → List Native → Option ℕ
resolve_native name [] = none
resolve_native name (n ∷ natives) = elim (bytes_eq name n.name) [
  | true ↦ some n.index
  | false ↦ resolve_native name natives
]

unfoldable pub add_local : Lexeme → ℕ → P (Unit {0})
add_local name type s =
    if s.compiler.local_count == 256
    then error_at name (says "Too many local variables.") s
    else if ltb 256 s.compiler.local_count
    then stop undefined
    else ok tt (record s {
      compiler = record s.compiler {
        locals = put_at blank_local s.compiler.locals s.compiler.local_count (record {
          name = text name;
          type = type;
          depth = s.compiler.scope_depth;
          guarded_depth = 0;
          guarded_variant = none;
        });
        local_count = s.compiler.local_count + 1;
      };
    })

abbrev pub blank_operand : Operand
blank_operand = record { type = 0; local_index = some 0 }

-- Past `STACK_MAX` the arrays are written out of bounds.
unfoldable pub type_push : ℕ → P (Unit {0})
type_push type s =
    if leb stack_max s.compiler.type_stack_ptr
    then stop undefined
    else ok tt (record s {
      compiler = record s.compiler {
        type_stack =
            put_at blank_operand s.compiler.type_stack s.compiler.type_stack_ptr
              (record { type = type; local_index = s.next_push_local });
        type_stack_ptr = s.compiler.type_stack_ptr + 1;
      };
      next_push_local = none;
    })

abbrev top_operand : State → Operand
top_operand s = get_or s.compiler.type_stack (s.compiler.type_stack_ptr - 1) blank_operand

abbrev no_operand : State → State
no_operand s = record s { popped_local = none }

abbrev underflow : Message
underflow = says "Compile-time type stack underflow."

unfoldable pub type_pop : P ℕ
type_pop s =
    if s.compiler.type_stack_ptr == 0
    then ok Kind.void (no_operand (report s.parser.current underflow s))
    else ok (top_operand s).type (record s {
      compiler = record s.compiler { type_stack_ptr = s.compiler.type_stack_ptr - 1 };
      popped_local = (top_operand s).local_index;
    })

-- An `int` of `width` bits that may be -1, as a bit pattern
abbrev pub word_of : ℕ → Option ℕ → ℕ
word_of width none = 2 ^ width - 1
word_of width (some n) = n % 2 ^ width

abbrev pub emit_word32 : ℕ → P (Unit {0})
emit_word32 w = emit (emit_int32 w)

-- A jump with an operand of zeros; the place of its instruction.
unfoldable pub emit_jump : OpCode → P ℕ
emit_jump o = do offset ← code_count; emit_op o; emit_word32 0; pure offset

-- `patch_int32(offset, current_chunk->count)`
unfoldable pub patch_here : ℕ → P (Unit {0})
patch_here offset = do target ← code_count; emit (patch_int32 offset target)

unfoldable pub patch_all : List ℕ → ℕ → P (Unit {0})
patch_all [] target = done
patch_all (offset ∷ offsets) target = emit (patch_int32 offset target) >> patch_all offsets target

-- `parser.previous` or another token of a string, without its quotes, as a constant of the chunk
unfoldable pub string_constant : List ℕ → P ℕ
string_constant bytes s = let (i, c) = add_string bytes s.chunk in ok i (record s { chunk = c })

abbrev pub blank_function : Function
blank_function = record {
  name = [];
  addr = some 0;
  return_type = 0;
  param_types = [];
  is_public = false;
  pending_call_patches = [];
}

abbrev pub function_at : ℕ → P Function
function_at i = get >>= λ s. pure (get_or s.compiler.functions i blank_function)

abbrev pub set_function : ℕ → Function → P (Unit {0})
set_function i f = with_compiler (λ c. record c { functions = set c.functions i f })

-- The call of a function whose address is not known yet is noted, up to 64 times.
unfoldable pub emit_direct_function_call : ℕ → P (Unit {0})
emit_direct_function_call i = do
  func ← function_at i
  emit_op code_call
  patch_offset ← code_count
  emit_word32 (word_of 32 func.addr)
  on_option func.addr
      (if ltb (length func.pending_call_patches) 64
        then set_function i
            (record func { pending_call_patches = func.pending_call_patches ++ patch_offset ∷ [] })
        else done)
      (λ addr. done)
