-- ===== src/Parser/Compile.antt =====
-- `compiler_compile` of src/compiler.c: the natives, the two passes over the source, and the call
-- of `main`.
use opo.Base.{
  ℕ, suc, false, List, [], ◌∷◌, Option, none, some, String, if◌then◌else◌, codes, get_or,
}
use opo.Compiler.{Chunk, add_string}
use opo.Kind
use opo.Lexer.{TokenType, lexer_init}
use opo.OpCode.{code_call, code_halt}
use opo.Parser.Grammar.{calls}
use opo.Parser.Modules.{Files, compile_internal, modules_max}
use opo.Parser.Names.{find_function, blank_function, emit_word32, word_of}
use opo.Parser.Predeclare.{predeclare_module_functions, no_errors}
use opo.Parser.Tokens.{advance}
use opo.Parser.{
  on_option, Lexeme, Native, CompilerState, State, Outcome, P, pure, ◌>>=◌, ◌>>◌, done, get, modify,
  emit_op,
}
use opo.Platform.{Platform}
use opo.Types.{make_type}

abbrev pub result_of : ℕ → ℕ
result_of type = make_type Kind.enum Kind.result_enum_id type

-- `add_native`: a name, its index, the type of its result and those of its parameters.
abbrev pub add_native : String → ℕ → ℕ → List ℕ → Native
add_native name index ret params = record {
  name = codes name;
  index = index;
  return_type = ret;
  param_types = params;
}

abbrev pub natives : List Native
natives =
    add_native "len" 0 Kind.int (Kind.obj ∷ [])
    ∷ add_native "append" 1 Kind.obj (Kind.obj ∷ Kind.any ∷ [])
    ∷ add_native "str" 2 Kind.str (Kind.any ∷ [])
    ∷ add_native "readFile" 3 (result_of Kind.str) (Kind.str ∷ [])
    ∷ add_native "writeFile" 4 (result_of Kind.bool) (Kind.str ∷ Kind.str ∷ [])
    ∷ add_native "args" 5 Kind.obj []
    ∷ add_native "int" 6 (result_of Kind.int) (Kind.any ∷ [])
    ∷ add_native "print" 7 Kind.void (Kind.any ∷ [])
    ∷ add_native "println" 8 Kind.void (Kind.any ∷ [])
    ∷ add_native "readLine" 9 Kind.str []
    ∷ add_native "exit" 10 Kind.void (Kind.int ∷ [])
    ∷ add_native "clock" 11 Kind.flt []
    ∷ add_native "system" 12 (result_of Kind.int) (Kind.str ∷ [])
    ∷ add_native "keys" 13 Kind.obj (Kind.map ∷ [])
    ∷ add_native "delete" 14 Kind.void (Kind.map ∷ Kind.any ∷ [])
    ∷ add_native "ascii" 15 Kind.int (Kind.str ∷ [])
    ∷ add_native "char" 16 Kind.str (Kind.int ∷ [])
    ∷ add_native "has" 17 Kind.bool (Kind.map ∷ Kind.any ∷ [])
    ∷ add_native "error" 18 Kind.err (Kind.any ∷ [])
    ∷ add_native "time" 19 Kind.int []
    ∷ add_native "sqrt" 20 Kind.flt (Kind.any ∷ [])
    ∷ add_native "sin" 21 Kind.flt (Kind.any ∷ [])
    ∷ add_native "cos" 22 Kind.flt (Kind.any ∷ [])
    ∷ add_native "tan" 23 Kind.flt (Kind.any ∷ [])
    ∷ add_native "log" 24 Kind.flt (Kind.any ∷ [])
    ∷ add_native "flt" 25 (result_of Kind.flt) (Kind.any ∷ [])
    ∷ add_native "rand" 26 Kind.flt (Kind.flt ∷ Kind.flt ∷ [])
    ∷ add_native "seed" 27 Kind.void (Kind.int ∷ [])
    ∷ add_native "ffiLoad" 28 (result_of Kind.int) (Kind.str ∷ [])
    ∷ add_native "ffiCall" 29 (result_of Kind.any) (Kind.int ∷ Kind.str ∷ Kind.str ∷ Kind.str ∷ [])
    ∷ add_native "close" 30 Kind.void (Kind.chan ∷ [])
    ∷ add_native "json_stringify" 31 Kind.str (Kind.any ∷ [])
    ∷ add_native "json_parse" 32 (result_of Kind.any) (Kind.str ∷ [])
    ∷ add_native "httpGet" 33 (result_of Kind.str) (Kind.str ∷ [])
    ∷ add_native "regexMatch" 34 Kind.bool (Kind.str ∷ Kind.str ∷ [])
    ∷ add_native "fileExists" 35 Kind.bool (Kind.str ∷ [])
    ∷ add_native "removeFile" 36 (result_of Kind.bool) (Kind.str ∷ [])
    ∷ add_native "listDir" 37 (result_of Kind.obj) (Kind.str ∷ [])
    ∷ add_native "tcpListen" 38 (result_of Kind.int) (Kind.int ∷ [])
    ∷ add_native "tcpAccept" 39 (result_of Kind.int) (Kind.int ∷ [])
    ∷ add_native "tcpRecv" 40 (result_of Kind.str) (Kind.int ∷ Kind.int ∷ [])
    ∷ add_native "tcpSend" 41 (result_of Kind.int) (Kind.int ∷ Kind.str ∷ [])
    ∷ add_native "tcpClose" 42 Kind.void (Kind.int ∷ [])
    ∷ add_native "httpParse" 43 (result_of Kind.map) (Kind.str ∷ [])
    ∷ add_native "httpFormat" 44 Kind.str (Kind.map ∷ [])
    ∷ []

unfoldable pub add_strings : List (List ℕ) → Chunk → Chunk
add_strings [] c = c
add_strings (s ∷ strings) c = add_strings strings (add_string s c).1

abbrev pub type_names : List (List ℕ)
type_names =
    codes "none"
    ∷ codes "int"
    ∷ codes "flt"
    ∷ codes "bol"
    ∷ codes "str"
    ∷ codes "void"
    ∷ codes "fun"
    ∷ []

unfoldable pub first_chunk : Chunk
first_chunk =
    add_strings type_names (record { code = []; capacity = 0; strings = []; strings_capacity = 0 })

abbrev pub first_compiler : CompilerState
first_compiler = record {
  locals = [];
  local_count = 0;
  functions = [];
  structs = [];
  enums = [];
  natives = natives;
  scope_depth = 0;
  loops = [];
  current_return_type = Kind.void;
  type_stack = [];
  type_stack_ptr = 0;
  is_go = false;
}

abbrev pub no_token : Lexeme
no_token = record { type = TokenType.int; start = []; length = 0; line = 0; column = 0 }

-- What the variables of the file hold in front of the first pass.
unfoldable pub first_state : List ℕ → List ℕ → List ℕ → State
first_state source base_dir stdlib_dir = record {
  lexer = lexer_init source;
  parser = record {
    current = no_token;
    previous = no_token;
    had_error = false;
    panic_mode = false;
  };
  compiler = first_compiler;
  chunk = first_chunk;
  active_prefix = none;
  popped_local = none;
  next_push_local = none;
  pending_captures = [];
  compiled_modules_count = 0;
  compilation_stack = [];
  root_base_dir = base_dir;
  std_base_dir = stdlib_dir;
  reports = [];
}

-- `OP_CALL` of `main`, if there is one, and `OP_HALT`
unfoldable pub emit_main : P (Unit {0})
emit_main = do
  s ← get
  on_option (find_function (codes "main") s.compiler.functions) (done) (λ i. do
    emit_op code_call
    emit_word32 (word_of 32 (get_or s.compiler.functions i blank_function).addr))
  emit_op code_halt

module _ ⦃p : Platform⦄ ⦃f : Files⦄ where
  unfoldable pub compile_source : ℕ → List ℕ → P (Option Chunk)
  compile_source rounds source = do
    predeclare_module_functions rounds source none
    modify (λ s. record s {
      lexer = lexer_init source;
      parser = no_errors s.parser;
      active_prefix = none;
      pending_captures = [];
    })
    advance
    compile_internal ⦃c = calls rounds⦄ (suc (suc modules_max)) none
    emit_main
    s ← get
    pure (if s.parser.had_error then none else some s.chunk)

  -- The chunk, or none for NULL.
  unfoldable pub compiler_compile : ℕ → List ℕ → List ℕ → List ℕ → Outcome (Option Chunk)
  compiler_compile rounds source base_dir stdlib_dir =
      compile_source rounds source (first_state source base_dir stdlib_dir)
