-- ===== src/Compiler/Emit.antt =====
-- What src/compiler.c emits is what src/vm.c reads: words of 4 and 8 bytes, the lowest byte first.
use native.Mathlib.Nat.{
  mod-eq_of_lt, add-mul-mod_self_left, mod-lt, div-add-mod, pow-suc, mul-le-mul_left, mul_assoc,
  mul_comm, mul-add, one-le-pow,
}
use opo.Base.{
  ℕ, zero, suc, ◌+◌, ◌*◌, ◌/◌, ◌%◌, ◌^◌, ◌≤◌, ◌<◌, ◌≡◌, refl, sym, ap, ap₂, subst, ◌∙◌, List, [],
  ◌∷◌, ◌++◌, some, arith, get_elem?, length, bit_or, set, length-append, length-set,
  get_elem?-set_self, get_elem?-set_ne, ◌⊎◌, inl, inr,
}
use mathlib.Core.List.{append_assoc, append-nil}
use opo.Base.Bits.{bit_or_join}
use opo.Compiler.{Chunk, emit_byte, emit_word, emit_int, byte_of, patch_word, patch_int32}
use opo.Vm.{Vm, ok, read_byte, read_bytes}

-- The bytes that stand in a list from an index on.
unfoldable pub Holds : List ℕ → ℕ → List ℕ → Type 0
Holds code i [] = Unit {0}
Holds code i (b ∷ bs) = (get_elem? code i ≡ some b) × Holds code (i + 1) bs

unfoldable pub word_bytes : ℕ → ℕ → ℕ → List ℕ
word_bytes zero i value = []
word_bytes (suc n) i value = byte_of value i ∷ word_bytes n (suc i) value

pow_step : (i : ℕ) → 2 ^ (suc i * 8) ≡ 2 ^ (i * 8) * 256
pow_step i = ap (λ (k : ℕ). 2 ^ k) (eight i) ∙ pow_eight (i * 8)
  where
    eight : (i : ℕ) → suc i * 8 ≡ (suc (suc (suc (suc (suc (suc (suc (suc (i * 8)))))))))
    eight i = omega arith

    pow_eight : (k : ℕ) → 2 ^ (suc (suc (suc (suc (suc (suc (suc (suc k)))))))) ≡ 2 ^ k * 256
    pow_eight k = omega (
      arith,
      pow-suc 2 k,
      pow-suc 2 (suc k),
      pow-suc 2 (suc (suc k)),
      pow-suc 2 (suc (suc (suc k))),
      pow-suc 2 (suc (suc (suc (suc k)))),
      pow-suc 2 (suc (suc (suc (suc (suc k))))),
      pow-suc 2 (suc (suc (suc (suc (suc (suc k)))))),
      pow-suc 2 (suc (suc (suc (suc (suc (suc (suc k))))))),
    )

-- A remainder to 256 times a modulus, in two parts.
low_part : (d w : ℕ) → 0 < d → w % d + w / d % 256 * d ≡ w % (d * 256)
low_part d w h =
    sym (
      mod-eq_of_lt (
        omega (
          arith,
          mod-lt w h,
          mul-le-mul_left d (below w),
          mul_comm (w / d % 256) d,
          mul-add d (w / d % 256) 1,
        )))
    ∙ sym (add-mul-mod_self_left (w % d + w / d % 256 * d) (d * 256) (w / d / 256))
    ∙ ap (λ (x : ℕ). x % (d * 256))
        (omega (
          arith,
          div-add-mod w d,
          ap (λ (q : ℕ). d * q) (sym (div-add-mod (w / d) 256)),
          mul-add d (256 * (w / d / 256)) (w / d % 256),
          mul_assoc d 256 (w / d / 256),
          mul_comm (w / d % 256) d,
        ))
  where
    below : (w : ℕ) → w / d % 256 + 1 ≤ 256
    below w = omega arith

-- The low bytes of a word with the next one are the low bytes, one more of them.
low_step : (i w : ℕ) → w % 2 ^ (i * 8) + byte_of w i * 2 ^ (i * 8) ≡ w % 2 ^ (suc i * 8)
low_step i w =
    low_part (2 ^ (i * 8)) w (one-le-pow (i * 8) 2 (omega arith))
    ∙ ap (λ (m : ℕ). w % m) (sym (pow_step i))

joined : (i w : ℕ) → bit_or (w % 2 ^ (i * 8)) (byte_of w i * 2 ^ (i * 8)) ≡ w % 2 ^ (suc i * 8)
joined i w =
    bit_or_join (i * 8) (w % 2 ^ (i * 8)) (byte_of w i)
      (mod-lt w (one-le-pow (i * 8) 2 (omega arith)))
    ∙ low_step i w

pub read_bytes-Holds :
    (n i w : ℕ) (vm : Vm)
    → Holds vm.code vm.ip (word_bytes n i w)
    → read_bytes n (i * 8) (w % 2 ^ (i * 8)) vm
      ≡ ok (w % 2 ^ ((i + n) * 8)) (record vm { ip = vm.ip + n })
unfolding Holds word_bytes read_bytes read_byte
read_bytes-Holds zero i w vm h =
    ap₂ (λ (j : ℕ) (a : ℕ). ok (w % 2 ^ (j * 8)) (record vm { ip = a })) (omega arith) (omega arith)
read_bytes-Holds (suc n) i w vm (b, h) =
    rw (b, read_byte)
      (ap₂ (λ (k : ℕ) (v : ℕ). read_bytes n k v next) (omega arith) (joined i w)
        ∙ read_bytes-Holds n (suc i) w next h
        ∙ ap₂ (λ (j : ℕ) (a : ℕ). ok (w % 2 ^ (j * 8)) (record vm { ip = a })) (omega arith)
            (omega arith))
  where
    next : Vm
    next = record vm { ip = vm.ip + 1 }

-- A list in the middle of another.
pub Holds-append : (pre bs post : List ℕ) → Holds (pre ++ (bs ++ post)) (length pre) bs
unfolding Holds
Holds-append pre [] post = tt
Holds-append pre (b ∷ bs) post = (
  get_middle pre b (bs ++ post),
  subst (λ (code : List ℕ). Holds code (length pre + 1) bs) (append_assoc pre (b ∷ []) (bs ++ post))
      (subst (λ (i : ℕ). Holds ((pre ++ b ∷ []) ++ (bs ++ post)) i bs) (length-append pre (b ∷ []))
        (Holds-append (pre ++ b ∷ []) bs post)),
)
  where
    get_middle :
        (pre : List ℕ) (b : ℕ) (rest : List ℕ) → get_elem? (pre ++ b ∷ rest) (length pre) ≡ some b
    get_middle [] b rest = refl
    get_middle (x ∷ pre) b rest = get_middle pre b rest

pub emit_word-code : (n i w : ℕ) (c : Chunk) → (emit_word n i w c).code ≡ c.code ++ word_bytes n i w
unfolding emit_word word_bytes emit_byte
emit_word-code zero i w c = sym (append-nil c.code)
emit_word-code (suc n) i w c =
    emit_word-code n (suc i) w (emit_byte (byte_of w i) c)
    ∙ append_assoc c.code (byte_of w i ∷ []) (word_bytes n (suc i) w)

-- The code that `emit_int` leaves, at the place where it began.
pub emit_int-Holds :
    (w : ℕ) (c : Chunk) (rest : List ℕ)
    → Holds ((emit_int w c).code ++ rest) (length c.code) (1 ∷ word_bytes 8 0 w)
unfolding emit_int emit_byte
emit_int-Holds w c rest =
    subst (λ (code : List ℕ). Holds code (length c.code) (1 ∷ word_bytes 8 0 w)) (sym layout)
      (Holds-append c.code (1 ∷ word_bytes 8 0 w) rest)
  where
    layout : (emit_int w c).code ++ rest ≡ c.code ++ (1 ∷ word_bytes 8 0 w ++ rest)
    layout =
        ap (λ (code : List ℕ). code ++ rest)
          (emit_word-code 8 0 w (emit_byte 1 c) ∙ append_assoc c.code (1 ∷ []) (word_bytes 8 0 w))
        ∙ append_assoc c.code (1 ∷ word_bytes 8 0 w) rest

pub patch_word-length :
    (n i offset w : ℕ) (code : List ℕ) → length (patch_word n i offset w code) ≡ length code
unfolding patch_word
patch_word-length zero i offset w code = refl
patch_word-length (suc n) i offset w code =
    patch_word-length n (suc i) offset w (set code (offset + i) (byte_of w i))
    ∙ length-set code (offset + i) (byte_of w i)

patch_word-outside :
    (n i offset w : ℕ) (code : List ℕ) (j : ℕ)
    → (j < offset + i) ⊎ (offset + (i + n) ≤ j)
    → get_elem? (patch_word n i offset w code) j ≡ get_elem? code j
unfolding patch_word
patch_word-outside zero i offset w code j h = refl
patch_word-outside (suc n) i offset w code j h =
    patch_word-outside n (suc i) offset w (set code (offset + i) (byte_of w i)) j (further h)
    ∙ get_elem?-set_ne code (byte_of w i) (λ (f : offset + i ≡ j). apart h f)
  where
    further :
        (j < offset + i) ⊎ (offset + (i + suc n) ≤ j)
        → (j < offset + suc i) ⊎ (offset + (suc i + n) ≤ j)
    further (inl a) = inl (omega arith)
    further (inr a) = inr (omega arith)

    apart : (j < offset + i) ⊎ (offset + (i + suc n) ≤ j) → offset + i ≡ j → ⊥
    apart (inl a) f = omega arith
    apart (inr a) f = omega arith

patch_word-Holds :
    (n i offset w : ℕ) (code : List ℕ)
    → offset + (i + n) ≤ length code
    → Holds (patch_word n i offset w code) (offset + i) (word_bytes n i w)
unfolding patch_word Holds word_bytes
patch_word-Holds zero i offset w code h = tt
patch_word-Holds (suc n) i offset w code h = (
  patch_word-outside n (suc i) offset w (set code (offset + i) (byte_of w i)) (offset + i)
        (inl (omega arith))
      ∙ get_elem?-set_self code (offset + i) (byte_of w i) (omega arith),
  subst
      (λ (k : ℕ).
        Holds (patch_word n (suc i) offset w (set code (offset + i) (byte_of w i))) k
          (word_bytes n (suc i) w))
      (omega arith)
      (patch_word-Holds n (suc i) offset w (set code (offset + i) (byte_of w i))
        (omega (arith, length-set code (offset + i) (byte_of w i)))),
)

-- The code after a patch, at the patched place.
pub patch_int32-Holds :
    (offset w : ℕ) (c : Chunk)
    → offset + 4 ≤ length c.code
    → Holds (patch_int32 offset w c).code offset (word_bytes 4 0 w)
unfolding patch_int32
patch_int32-Holds offset w c h =
    subst (λ (k : ℕ). Holds (patch_word 4 0 offset w c.code) k (word_bytes 4 0 w)) (omega arith)
      (patch_word-Holds 4 0 offset w c.code (omega arith))

-- The code after a patch, at any other place.
pub patch_int32-outside :
    (offset w : ℕ) (c : Chunk) (j : ℕ)
    → (j < offset) ⊎ (offset + 4 ≤ j)
    → get_elem? (patch_int32 offset w c).code j ≡ get_elem? c.code j
unfolding patch_int32
patch_int32-outside offset w c j (inl h) =
    patch_word-outside 4 0 offset w c.code j (inl (omega arith))
patch_int32-outside offset w c j (inr h) =
    patch_word-outside 4 0 offset w c.code j (inr (omega arith))
