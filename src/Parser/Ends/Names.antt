-- ===== src/Parser/Ends/Names.antt =====
-- The functions of src/compiler.c on locals, the type stack and the chunk
-- keep within their bounds.
use opo.Base.{
  ℕ, zero, suc, ◌+◌, ◌%◌, ◌^◌, ◌≡◌, ◌∙◌, refl, Bool, true, false, List, [], ◌∷◌, if◌then◌else◌,
  ◌==◌, leb, ltb, set, length, length-append, length-set, arith,
}
use opo.Compiler.{
  Chunk, emit_byte, emit_bytes, emit_word, emit_int32, emit_int, emit_push_func, byte_of,
  patch_word, patch_int32, add_string,
}
use opo.OpCode.{OpCode}
use opo.Parser.Ends.Tokens.{
  report-Goes, Ends-advance, Ends-error_at, Ends-current_is, Ends-consume, Ends-match,
  Ends-skip_type, Ends-before, Ends-before_or_eof, Ends-has_implicit_terminator,
  Ends-match_statement_terminator,
}
use opo.Parser.Ends.{
  Sound, Goes, Goes-refl, Goes-step, Goes-trans, Post, Ends, Ends-pure, Ends-undefined, Ends-if,
  Ends-get, Ends-with_compiler, Ends-when, Ends-demand, Ends-bind, Ends-then, Ends-on_option,
  Writes, Ends-emit,
}
use opo.Parser.Names.{
  resolve_local, add_local, type_push, type_pop, string_constant, emit_jump, patch_here, patch_all,
  emit_direct_function_call,
}
use opo.Parser.Tokens.{report, error_at}
use opo.Vm.{stack_max}
use opo.Parser.{Lexeme, State, Outcome}

pub Writes-emit_byte : (b : ℕ) → Writes (emit_byte b)
unfolding emit_byte
Writes-emit_byte b = record { grows = λ c. omega (arith, length-append c.code (b ∷ [])) }

Writes-after : (f g : Chunk → Chunk) → Writes f → Writes g → Writes (λ c. g (f c))
Writes-after f g a b = record { grows = λ c. omega (arith, a.grows c, b.grows (f c)) }

pub Writes-emit_bytes : (b c : ℕ) → Writes (emit_bytes b c)
unfolding emit_bytes
Writes-emit_bytes b c =
    Writes-after (emit_byte b) (emit_byte c) (Writes-emit_byte b) (Writes-emit_byte c)

pub Writes-emit_word : (n i w : ℕ) → Writes (emit_word n i w)
unfolding emit_word
Writes-emit_word zero i w = record { grows = λ c. omega arith }
Writes-emit_word (suc n) i w =
    Writes-after (emit_byte (byte_of w i)) (emit_word n (suc i) w) (Writes-emit_byte (byte_of w i))
      (Writes-emit_word n (suc i) w)

pub Writes-emit_int32 : (w : ℕ) → Writes (emit_int32 w)
unfolding emit_int32
Writes-emit_int32 w = record { grows = λ c. (Writes-emit_word 4 0 w).grows c }

pub Writes-emit_int : (w : ℕ) → Writes (emit_int w)
unfolding emit_int
Writes-emit_int w =
    Writes-after (emit_byte 1) (emit_word 8 0 w) (Writes-emit_byte 1) (Writes-emit_word 8 0 w)

pub Writes-emit_push_func : (a t n : ℕ) → Writes (emit_push_func a t n)
unfolding emit_push_func
Writes-emit_push_func a t n =
    Writes-after (λ c. emit_byte (t % 2 ^ 8) (emit_word 8 0 a (emit_byte 28 c)))
      (emit_byte (n % 2 ^ 8))
      (Writes-after (λ c. emit_word 8 0 a (emit_byte 28 c)) (emit_byte (t % 2 ^ 8))
        (Writes-after (emit_byte 28) (emit_word 8 0 a) (Writes-emit_byte 28)
          (Writes-emit_word 8 0 a))
        (Writes-emit_byte (t % 2 ^ 8)))
      (Writes-emit_byte (n % 2 ^ 8))

length-patch_word :
    (n i offset w : ℕ) (code : List ℕ) → length (patch_word n i offset w code) ≡ length code
unfolding patch_word
length-patch_word zero i offset w code = refl
length-patch_word (suc n) i offset w code =
    length-patch_word n (suc i) offset w (set code (offset + i) (byte_of w i))
    ∙ length-set code (offset + i) (byte_of w i)

pub Writes-patch_int32 : (offset w : ℕ) → Writes (patch_int32 offset w)
unfolding patch_int32
Writes-patch_int32 offset w = record {
  grows = λ c. omega (arith, length-patch_word 4 0 offset w c.code);
}

pub ruleset steps = (
  Ends-bind, Ends-then, Ends-pure, Ends-get, Ends-if, Ends-when, Ends-demand, Ends-undefined,
  Ends-on_option, Ends-with_compiler, Ends-emit, Writes-emit_byte, Writes-emit_bytes,
  Writes-emit_word, Writes-emit_int32, Writes-emit_int, Writes-emit_push_func, Writes-patch_int32,
  Ends-advance, Ends-error_at, Ends-current_is, Ends-consume, Ends-match, Ends-skip_type,
  Ends-before, Ends-before_or_eof, Ends-has_implicit_terminator, Ends-match_statement_terminator,
)

-- A step with a test, whose other branch C leaves undefined.
Post-if :
    {A : Type 0} (b : Bool) (s : State) (r r' : Outcome A)
    → Post r (Goes s)
    → Post r' (Goes s)
    → Post (if b then r else r') (Goes s)
Post-if true s r r' p q = p
Post-if false s r r' p q = q

pub Ends-resolve_local : {k : ℕ} (name : List ℕ) → Ends k (resolve_local name)
unfolding resolve_local
Ends-resolve_local name = record {
  at = λ s h r. Post-if (leb s.compiler.local_count 256) s _ _ (Goes-refl s h) tt;
}

pub Ends-add_local : {k : ℕ} (name : Lexeme) (type : ℕ) → Ends k (add_local name type)
unfolding add_local error_at
Ends-add_local name type = record {
  at = λ s h r. Post-if (s.compiler.local_count == 256) s _ _ (report-Goes name _ s h) (
      Post-if (ltb 256 s.compiler.local_count) s _ _ tt
        (Goes-step s _ h refl refl refl (λ e. e) (omega arith)));
}

pub Ends-type_push : {k : ℕ} (type : ℕ) → Ends k (type_push type)
unfolding type_push
Ends-type_push type = record {
  at = λ s h r.
      Post-if (leb stack_max s.compiler.type_stack_ptr) s _ _ tt
        (Goes-step s _ h refl refl refl (λ e. e) (omega arith));
}

pub Ends-type_pop : {k : ℕ} → Ends k type_pop
unfolding type_pop
Ends-type_pop = record {
  at = λ s h r.
      Post-if (s.compiler.type_stack_ptr == 0) s _ _
        (let g = report-Goes s.parser.current _ s h in
          Goes-trans g (
            Goes-step (report s.parser.current _ s) _ g.sound refl refl refl (λ e. e)
              (omega arith)))
        (Goes-step s _ h refl refl refl (λ e. e) (omega arith));
}

pub Ends-string_constant : {k : ℕ} (bytes : List ℕ) → Ends k (string_constant bytes)
unfolding string_constant add_string
Ends-string_constant bytes = record {
  at = λ s h r. Goes-step s _ h refl refl refl (λ e. e) (omega arith);
}

pub Ends-emit_jump : {k : ℕ} (o : OpCode) → Ends k (emit_jump o)
unfolding emit_jump
Ends-emit_jump o = search steps depth 12

pub Ends-patch_here : {k : ℕ} (offset : ℕ) → Ends k (patch_here offset)
unfolding patch_here
Ends-patch_here offset = search steps depth 12

pub Ends-patch_all : {k : ℕ} (offsets : List ℕ) (target : ℕ) → Ends k (patch_all offsets target)
unfolding patch_all
Ends-patch_all [] target = search steps
Ends-patch_all (o ∷ offsets) target =
    Ends-bind _ _ (Ends-emit _ (Writes-patch_int32 o target)) (λ _. Ends-patch_all offsets target)

pub Ends-emit_direct_function_call : {k : ℕ} (i : ℕ) → Ends k (emit_direct_function_call i)
unfolding emit_direct_function_call
Ends-emit_direct_function_call i = search steps depth 20
