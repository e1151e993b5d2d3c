-- ===== src/Parser/Patches/Forward.antt =====
-- The call of a function in front of its definition in src/compiler.c: what it appends to the code,
-- and what it notes.
use mathlib.Core.List.{append_assoc}
use opo.Base.{
  ==_iff, lt→ltb, if◌then◌else◌, get_or-set, ℕ, zero, suc, ◌+◌, ◌≤◌, ◌<◌, ◌≡◌, refl, sym, ap, subst,
  ◌∙◌, Bool, true, false, Option, none, some, List, [], ◌∷◌, ◌++◌, length, get_or, get_elem?, set,
  length-append, arith,
}
use opo.Compiler.Emit.{emit_word-code, Holds-append, Holds, word_bytes}
use opo.Compiler.{Chunk, emit_byte, emit_word, emit_int32, byte_of}
use opo.OpCode.{op_number, code_call}
use opo.Parser.Names.{emit_direct_function_call, word_of, blank_function}
use opo.Parser.Scope.{Gives, Gives_ok}
use opo.Parser.{on_option, done, Function, State, ok, P, ◌>>=◌}
use opo.Parser.Patches.{Apart, entry}

emit_word-length : (n i w : ℕ) (c : Chunk) → length (emit_word n i w c).code ≡ length c.code + n
unfolding emit_word emit_byte
emit_word-length zero i w c = omega arith
emit_word-length (suc n) i w c =
    let c' = emit_byte (byte_of w i) c in
    omega (arith, emit_word-length n (suc i) w c', length-append c.code (byte_of w i ∷ []))

Apart-wider :
    (from : ℕ) (offsets : List ℕ) (size wider : ℕ)
    → size ≤ wider
    → Apart from offsets size
    → Apart from offsets wider
Apart-wider from [] size wider l a = tt
Apart-wider from (o ∷ offsets) size wider l a =
    (a.0, omega (arith, a.1), Apart-wider (o + 4) offsets size wider l a.2)

Apart-snoc :
    (from : ℕ) (offsets : List ℕ) (size o wider : ℕ)
    → from ≤ o
    → size ≤ o
    → o + 4 ≤ wider
    → Apart from offsets size
    → Apart from (offsets ++ o ∷ []) wider
Apart-snoc from [] size o wider l m n a = (l, n, tt)
Apart-snoc from (p ∷ offsets) size o wider l m n a =
    (a.0, omega (arith, a.1), Apart-snoc (p + 4) offsets size o wider (omega (arith, a.1)) m n a.2)

-- The state behind the call of a function without an address.
abbrev noted : ℕ → Function → State → State
noted i f s = record s {
  chunk = emit_int32 (word_of 32 f.addr) (emit_byte (op_number code_call) s.chunk);
  compiler = record s.compiler {
    functions = set s.compiler.functions i (record f {
      pending_call_patches =
          f.pending_call_patches ++ length (emit_byte (op_number code_call) s.chunk).code ∷ [];
    });
  };
}

notes :
    (addr : Option ℕ) (b : Bool) (m : P (Unit {0})) (s : State)
    → addr ≡ none
    → b ≡ true
    → on_option addr (if b then m else done) (λ a. done) s ≡ m s
unfolding ◌>>=◌
notes none true m s e l = refl
notes none false m s e l = ground (arith, l)
notes (some a) b m s e l = ground (arith, e)

emit_direct_function_call_lem :
    (i : ℕ) (s : State)
    → (entry i s).addr ≡ none
    → length (entry i s).pending_call_patches < 64
    → emit_direct_function_call i s ≡ ok tt (noted i (entry i s) s)
unfolding emit_direct_function_call ◌>>=◌
emit_direct_function_call_lem i s e l = notes (entry i s).addr _ _ _ e (lt→ltb _ _ l)

-- What the call of a function appends.
called :
    (w : ℕ) (c : Chunk)
    → (get_elem? (emit_int32 w (emit_byte (op_number code_call) c)).code (length c.code)
        ≡ some (op_number code_call))
      × (length (emit_int32 w (emit_byte (op_number code_call) c)).code ≡ length c.code + 5)
unfolding emit_int32 emit_byte Holds
called w c =
    let c' = emit_byte (op_number code_call) c in
    (
      ap (λ code. get_elem? code (length c.code))
            (emit_word-code 4 0 w c'
              ∙ append_assoc c.code (op_number code_call ∷ []) (word_bytes 4 0 w))
          ∙ (Holds-append c.code (op_number code_call ∷ []) (word_bytes 4 0 w)).0,
      omega (arith, emit_word-length 4 0 w c', length-append c.code (op_number code_call ∷ [])),
    )

entry-set :
    (i : ℕ) (functions : List Function) (f : Function)
    → i < length functions
    → get_or (set functions i f) i blank_function ≡ f
entry-set i functions f l =
    get_or-set functions i f blank_function i l
    ∙ ap (λ (b : Bool). if b then f else get_or functions i blank_function) ((==_iff i i).1 refl)

-- A call of a function without an address, with room for another note, appends `OP_CALL` and an
-- operand of four bytes to the code. It is noted as the last of the calls that wait for the
-- function, and their operands are inside the code and do not overlap, if they did not before.
pub emit_direct_function_call-Apart :
    (i : ℕ) (s : State)
    → i < length s.compiler.functions
    → (entry i s).addr ≡ none
    → length (entry i s).pending_call_patches < 64
    → Apart 0 (entry i s).pending_call_patches (length s.chunk.code)
    → Gives (emit_direct_function_call i s) (λ _ t.
      (get_elem? t.chunk.code (length s.chunk.code) ≡ some (op_number code_call))
      × (length t.chunk.code ≡ length s.chunk.code + 5)
      × ((entry i t).pending_call_patches
          ≡ (entry i s).pending_call_patches ++ (length s.chunk.code + 1) ∷ [])
      × Apart 0 (entry i t).pending_call_patches (length t.chunk.code))
unfolding emit_byte
emit_direct_function_call-Apart i s b e l a = Gives_ok _ _ (emit_direct_function_call_lem i s e l) (
  (called (word_of 32 (entry i s).addr) s.chunk).0,
  size,
  waiting,
  subst (λ offsets. Apart 0 offsets (length t.chunk.code)) (sym waiting)
      (Apart-snoc 0 (entry i s).pending_call_patches (length s.chunk.code) (length s.chunk.code + 1)
        (length t.chunk.code) (omega arith) (omega arith) (omega (arith, size)) a),
)
  where
    t : State
    t = noted i (entry i s) s

    size : length t.chunk.code ≡ length s.chunk.code + 5
    size = (called (word_of 32 (entry i s).addr) s.chunk).1

    waiting :
        (entry i t).pending_call_patches
        ≡ (entry i s).pending_call_patches ++ (length s.chunk.code + 1) ∷ []
    waiting =
        ap (λ (f : Function). f.pending_call_patches) (entry-set i s.compiler.functions _ b)
        ∙ ap (λ n. (entry i s).pending_call_patches ++ n ∷ [])
            (length-append s.chunk.code (op_number code_call ∷ []))
