-- ===== src/Compiler.antt =====
-- The compiler's output in src/compiler.h and src/compiler.c: a chunk, and the functions that write
-- to it. A chunk's counts are the lengths of its lists.
pub mod Emit
pub mod Assign
pub mod Runs
use opo.Base.{
  ℕ, zero, suc, ◌+◌, ◌*◌, ◌/◌, ◌%◌, ◌^◌, Bool, List, [], ◌∷◌, ◌++◌, if◌then◌else◌, leb, ltb, set,
  length,
}
use opo.Compare.{c_string}

pub record Chunk : Type 0 where
  pub code : List ℕ
  pub capacity : ℕ
  pub strings : List (List ℕ)
  pub strings_capacity : ℕ

-- The room of a growing array, before another element is stored.
abbrev pub grown : ℕ → ℕ → ℕ
grown count capacity =
    if leb capacity count then if ltb capacity 8 then 8 else capacity * 2 else capacity

unfoldable pub emit_byte : ℕ → Chunk → Chunk
emit_byte byte c = record c {
  code = c.code ++ byte ∷ [];
  capacity = grown (length c.code) c.capacity;
}

unfoldable pub emit_bytes : ℕ → ℕ → Chunk → Chunk
unfolding emit_byte
emit_bytes b1 b2 c = emit_byte b2 (emit_byte b1 c)

-- `(value >> (i * 8)) & 0xFF`, of a word as its bit pattern
abbrev pub byte_of : ℕ → ℕ → ℕ
byte_of value i = value / 2 ^ (i * 8) % 2 ^ 8

-- `n` bytes of a word, from the byte `i` on.
unfoldable pub emit_word : ℕ → ℕ → ℕ → Chunk → Chunk
unfolding emit_byte
emit_word zero i value c = c
emit_word (suc n) i value c = emit_word n (suc i) value (emit_byte (byte_of value i) c)

unfoldable pub emit_int32 : ℕ → Chunk → Chunk
unfolding emit_word
emit_int32 value c = emit_word 4 0 value c

unfoldable pub emit_int : ℕ → Chunk → Chunk
unfolding emit_word
emit_int val c = emit_word 8 0 val (emit_byte 1 c)

unfoldable pub emit_push_func : ℕ → ℕ → ℕ → Chunk → Chunk
unfolding emit_word
emit_push_func addr type capture_count c =
    emit_byte (capture_count % 2 ^ 8)
      (emit_byte (type % 2 ^ 8) (emit_word 8 0 addr (emit_byte 28 c)))

-- The bytes that `patch_int32` stores, at an offset that is in the code.
unfoldable pub patch_word : ℕ → ℕ → ℕ → ℕ → List ℕ → List ℕ
patch_word zero i offset value code = code
patch_word (suc n) i offset value code =
    patch_word n (suc i) offset value (set code (offset + i) (byte_of value i))

unfoldable pub patch_int32 : ℕ → ℕ → Chunk → Chunk
unfolding patch_word
patch_int32 offset value c = record c { code = patch_word 4 0 offset value c.code }

-- The index that the string gets.
unfoldable pub add_string : List ℕ → Chunk → ℕ × Chunk
add_string s c = (
  length c.strings,
  record c {
    strings = c.strings ++ s ∷ [];
    strings_capacity = grown (length c.strings) c.strings_capacity;
  },
)
