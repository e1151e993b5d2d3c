-- ===== src/Compiler/Runs.antt =====
-- Code that src/compiler.c emits, run by one turn of `vm_run` of src/vm.c.
use native.Mathlib.Nat.{mod-eq_of_lt}
use opo.Base.{
  ℕ, ◌+◌, ◌%◌, ◌^◌, ◌≤◌, ◌<◌, ◌≡◌, refl, ap, ap₂, ◌∙◌, List, ◌∷◌, ◌++◌, some, arith, get_elem?,
  length, inl,
}
use opo.Compiler.Emit.{
  Holds, word_bytes, read_bytes-Holds, emit_int-Holds, patch_int32-Holds, patch_int32-outside,
}
use opo.Compiler.{Chunk, emit_int, patch_int32}
use opo.Ops.Arith.{op_push_int}
use opo.Ops.Control.{op_jump}
use opo.Ops.Invoke.{Foreign}
use opo.Platform.{Platform}
use opo.Run.{step, dispatch, execute}
use opo.Value.{int_value}
use opo.Vm.{Vm, ok, vm_push, read_byte, read_bytes, read_int32, read_int64}

nothing : (w : ℕ) → 0 ≡ w % 2 ^ 0
nothing w = omega arith

read_int64-Holds :
    (w : ℕ) (vm : Vm)
    → w < 2 ^ 64
    → Holds vm.code vm.ip (word_bytes 8 0 w)
    → read_int64 vm ≡ ok w (record vm { ip = vm.ip + 8 })
unfolding read_int64
read_int64-Holds w vm h p =
    ap (λ (v : ℕ). read_bytes 8 0 v vm) (nothing w)
    ∙ read_bytes-Holds 8 0 w vm p
    ∙ ap (λ (v : ℕ). ok v (record vm { ip = vm.ip + 8 })) (mod-eq_of_lt h)

read_int32-Holds :
    (w : ℕ) (vm : Vm)
    → w < 2 ^ 32
    → Holds vm.code vm.ip (word_bytes 4 0 w)
    → read_int32 vm ≡ ok w (record vm { ip = vm.ip + 4 })
unfolding read_int32
read_int32-Holds w vm h p =
    ap (λ (v : ℕ). read_bytes 4 0 v vm) (nothing w)
    ∙ read_bytes-Holds 4 0 w vm p
    ∙ ap (λ (v : ℕ). ok v (record vm { ip = vm.ip + 4 })) (mod-eq_of_lt h)

module _ ⦃p : Platform⦄ ⦃f : Foreign⦄ where
  -- At the place where `emit_int` has emitted a word of 64 bits, whatever stands behind it, one
  -- turn of `vm_run` moves on by nine bytes and pushes that word as an int.
  pub step-emit_int :
      (w : ℕ) (c : Chunk) (rest : List ℕ) (vm : Vm)
      → w < 2 ^ 64
      → vm.code ≡ (emit_int w c).code ++ rest
      → vm.ip ≡ length c.code
      → step vm ≡ vm_push (int_value w) (record vm { ip = vm.ip + 9 })
  unfolding step read_byte dispatch execute op_push_int Holds emit_int word_bytes
  step-emit_int w c rest vm h code ip =
      let (op, word) = at_code (emit_int-Holds w c rest) in
      rw (op, read_int64-Holds w (record vm { ip = vm.ip + 1 }) h word)
        (ap (λ (i : ℕ). vm_push (int_value w) (record vm { ip = i })) (omega arith))
    where
      at_code :
          Holds ((emit_int w c).code ++ rest) (length c.code) (1 ∷ word_bytes 8 0 w)
          → Holds vm.code vm.ip (1 ∷ word_bytes 8 0 w)
      at_code h = rw (code, ip) h

  -- Where `OP_JUMP` stands in front of an operand of four bytes that `patch_int32` has set to an
  -- address, one turn of `vm_run` goes to that address and changes nothing else.
  pub step-patch_int32 :
      (w offset : ℕ) (c : Chunk) (vm : Vm)
      → w < 2 ^ 32
      → offset + 5 ≤ length c.code
      → get_elem? c.code offset ≡ some 22
      → vm.code ≡ (patch_int32 (offset + 1) w c).code
      → vm.ip ≡ offset
      → step vm ≡ ok tt (record vm { ip = w })
  unfolding step read_byte dispatch execute op_jump
  step-patch_int32 w offset c vm h room op code ip =
      rw
        (ap₂ (λ (cs : List ℕ) (i : ℕ). get_elem? cs i) code ip
          ∙ patch_int32-outside (offset + 1) w c offset (inl (omega arith))
          ∙ op)
        (rw (read_int32-Holds w (record vm { ip = vm.ip + 1 }) h operand) refl)
    where
      operand : Holds vm.code (vm.ip + 1) (word_bytes 4 0 w)
      operand = rw (code, ip) (patch_int32-Holds (offset + 1) w c (omega arith))
