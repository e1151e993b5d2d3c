-- ===== src/Parser/Patches.antt =====
-- Calls in front of their function in src/compiler.c: `emit_direct_function_call` notes the place
-- of the operand, and the definition patches every place that was noted.
pub mod Forward
use mathlib.Core.List.{append_assoc}
use opo.Base.{
  ==_iff, lt→ltb, ◌==◌, if◌then◌else◌, get_or-set, ℕ, zero, suc, ◌+◌, ◌≤◌, ◌<◌, ◌≡◌, refl, sym, ap,
  subst, ◌∙◌, inl, inr, Bool, true, false, Option, none, some, List, [], ◌∷◌, ◌++◌, length, get_or,
  get_elem?, set, length-append, arith,
}
use opo.Compiler.Emit.{
  emit_word-code, Holds-append, Holds, word_bytes, patch_word-length, patch_int32-Holds,
  patch_int32-outside,
}
use opo.Compiler.{Chunk, patch_int32, emit_byte, emit_word, emit_int32, byte_of}
use opo.Parser.Functions.{Header, function_entry, define_function, declared_type, param_types}
use opo.OpCode.{op_number, code_call}
use opo.Parser.Names.{
  emit_direct_function_call, word_of, find_from, find_function, blank_function, patch_all,
}
use opo.Parser.Scope.{Gives, Gives_ok}
use opo.Parser.{on_option, done, Function, State, Outcome, ok, stop, P, bind, ◌>>=◌, ◌>>◌}

-- Operands of four bytes at ascending places, none below `from` and all inside the code.
abbrev pub Apart : ℕ → List ℕ → ℕ → Type 0
Apart from [] size = Unit {0}
Apart from (offset ∷ offsets) size =
    (from ≤ offset) × (offset + 4 ≤ size) × Apart (offset + 4) offsets size

-- At each of these places stands the address.
abbrev pub Patched : List ℕ → List ℕ → ℕ → Type 0
Patched code [] target = Unit {0}
Patched code (offset ∷ offsets) target =
    Holds code offset (word_bytes 4 0 target) × Patched code offsets target

patches : List ℕ → ℕ → Chunk → Chunk
patches [] target c = c
patches (offset ∷ offsets) target c = patches offsets target (patch_int32 offset target c)

patch_all_lem :
    (offsets : List ℕ) (target : ℕ) (s : State)
    → patch_all offsets target s ≡ ok tt (record s { chunk = patches offsets target s.chunk })
unfolding patch_all patches ◌>>=◌
patch_all_lem [] target s = refl
patch_all_lem (offset ∷ offsets) target s =
    patch_all_lem offsets target (record s { chunk = patch_int32 offset target s.chunk })

patch_int32-length :
    (offset w : ℕ) (c : Chunk) → length (patch_int32 offset w c).code ≡ length c.code
unfolding patch_int32
patch_int32-length offset w c = patch_word-length 4 0 offset w c.code

-- Below the first place the code stays.
patches-below :
    (from : ℕ) (offsets : List ℕ) (target size : ℕ) (c : Chunk) (j : ℕ)
    → Apart from offsets size
    → j < from
    → get_elem? (patches offsets target c).code j ≡ get_elem? c.code j
unfolding patches
patches-below from [] target size c j a l = refl
patches-below from (offset ∷ offsets) target size c j a l =
    patches-below (offset + 4) offsets target size (patch_int32 offset target c) j a.2
      (omega (arith, a.0))
    ∙ patch_int32-outside offset target c j (inl (omega (arith, a.0)))

Holds-agree :
    (code code' : List ℕ) (n i : ℕ) (bs : List ℕ)
    → ((j : ℕ) → j < n → get_elem? code' j ≡ get_elem? code j)
    → i + length bs ≤ n
    → Holds code i bs
    → Holds code' i bs
unfolding Holds
Holds-agree code code' n i [] f l h = tt
Holds-agree code code' n i (b ∷ bs) f l h =
    (f i (omega arith) ∙ h.0, Holds-agree code code' n (i + 1) bs f (omega arith) h.1)

word_bytes-length : (w : ℕ) → length (word_bytes 4 0 w) ≡ 4
unfolding word_bytes
word_bytes-length w = refl

patches-Patched :
    (from : ℕ) (offsets : List ℕ) (target : ℕ) (c : Chunk)
    → Apart from offsets (length c.code)
    → Patched (patches offsets target c).code offsets target
unfolding patches
patches-Patched from [] target c a = tt
patches-Patched from (offset ∷ offsets) target c a =
    let c' = patch_int32 offset target c in
    let rest =
      subst (λ (size : ℕ). Apart (offset + 4) offsets size)
        (sym (patch_int32-length offset target c)) a.2 in
    (
      Holds-agree c'.code (patches offsets target c').code (offset + 4) offset _
          (λ j l. patches-below (offset + 4) offsets target (length c.code) c' j a.2 l)
          (omega (arith, word_bytes-length target)) (patch_int32-Holds offset target c a.1),
      patches-Patched (offset + 4) offsets target c' rest,
    )

function_entry_lem :
    (new : Function) (i : ℕ) (s : State)
    → find_function new.name s.compiler.functions ≡ some i
    → function_entry new s ≡ ok i s
unfolding function_entry ◌>>=◌
function_entry_lem new i s e = rw e refl

abbrev pub entry : ℕ → State → Function
entry i s = get_or s.compiler.functions i blank_function

abbrev pub defined : ℕ → Bool → Header → Function → Function
defined addr is_public h f = record f {
  addr = some addr;
  return_type = declared_type h.explicit;
  param_types = param_types h;
  is_public = is_public;
  pending_call_patches = [];
}

abbrev with_definition : ℕ → ℕ → Bool → Header → State → State
with_definition i addr is_public h s = record s {
  chunk = patches (entry i s).pending_call_patches addr s.chunk;
  compiler = record s.compiler {
    functions = set s.compiler.functions i (defined addr is_public h (entry i s));
  };
}

define_function_lem :
    (name : List ℕ) (addr : ℕ) (is_public : Bool) (h : Header) (s : State) (i : ℕ)
    → find_function name s.compiler.functions ≡ some i
    → define_function name addr is_public h s ≡ ok i (with_definition i addr is_public h s)
unfolding define_function ◌>>=◌
define_function_lem name addr is_public h s i e =
    rw
      (
        function_entry_lem (record blank_function { name = name }) i s e,
        patch_all_lem (entry i s).pending_call_patches addr s,
      )
      refl

find_from-inside {ℓ} :
    {A : Type ℓ} (test : A → Bool) (k i : ℕ) (xs : List A)
    → find_from test k xs ≡ some i
    → i < k + length xs
unfolding find_from
find_from-inside test k i [] e = ground (arith, e)
find_from-inside test k i (x ∷ xs) e = found (test x) e (λ h. find_from-inside test (suc k) i xs h)
  where
    found :
        (b : Bool)
        → elim b [ true ↦ some k | false ↦ find_from test (suc k) xs ] ≡ some i
        → (find_from test (suc k) xs ≡ some i → i < suc k + length xs)
        → i < k + suc (length xs)
    found true h later = ground (arith, h)
    found false h later = omega (arith, later h)

find_function-inside :
    (name : List ℕ) (functions : List Function) (i : ℕ)
    → find_function name functions ≡ some i
    → i < length functions
unfolding find_function
find_function-inside name functions i e = omega (arith, find_from-inside _ 0 i functions e)

-- The definition of a function that a table lists already: the index is the one that
-- `find_function` finds; each place that a call in front of it has left holds the address, where
-- the places are operands inside the code that do not overlap; the entry has the address and waits
-- for no call; and the entries of other functions are as they were.
pub define_function-Patched :
    (name : List ℕ) (addr : ℕ) (is_public : Bool) (h : Header) (s : State) (i : ℕ)
    → find_function name s.compiler.functions ≡ some i
    → Apart 0 (entry i s).pending_call_patches (length s.chunk.code)
    → Gives (define_function name addr is_public h s) (λ j t.
      (j ≡ i)
      × Patched t.chunk.code (entry i s).pending_call_patches addr
      × ((k : ℕ)
          → entry k t ≡ (if k == i then defined addr is_public h (entry i s) else entry k s)))
define_function-Patched name addr is_public h s i e a =
    Gives_ok _ _ (define_function_lem name addr is_public h s i e) (
      refl,
      patches-Patched 0 (entry i s).pending_call_patches addr s.chunk a,
      λ k.
          get_or-set s.compiler.functions i _ blank_function k
            (find_function-inside name s.compiler.functions i e),
    )
