-- ===== src/Tests/Words.antt =====
-- The theorems on src/compiler.c at concrete inputs.
use opo.Base.{◌≡◌, ◌≢◌, refl, true, [], ◌∷◌, ◌++◌, arith}
use opo.Compiler.{Chunk, emit_int, emit_word, emit_byte, patch_int32, patch_word}
use opo.Compiler.Assign.{
  is_assignable, kinds_agree, unify_inferred_types, unify_inferred_types-is_assignable,
}
use opo.Compiler.Runs.{step-emit_int, step-patch_int32}
use opo.Run.{step}
use opo.Tests.{whole_numbers, no_foreign, machine}
use opo.Value.{int_value}
use opo.Vm.{Vm, ok, vm_push}

abbrev one_byte : Chunk
one_byte = record { code = 0 ∷ []; capacity = 8; strings = []; strings_capacity = 0 }

abbrev at_int : Vm
at_int = record (machine ((emit_int 258 one_byte).code ++ 19 ∷ [])) { ip = 1 }

step-emit_int_example :
    step ⦃p = whole_numbers⦄ ⦃f = no_foreign⦄ at_int
    ≡ vm_push (int_value 258) (record at_int { ip = 10 })
unfolding emit_int emit_word emit_byte
step-emit_int_example =
    step-emit_int ⦃p = whole_numbers⦄ ⦃f = no_foreign⦄ 258 one_byte (19 ∷ []) at_int (omega arith)
      refl refl

abbrev jump_chunk : Chunk
jump_chunk = record {
  code = 0 ∷ 22 ∷ 0 ∷ 0 ∷ 0 ∷ 0 ∷ [];
  capacity = 8;
  strings = [];
  strings_capacity = 0;
}

abbrev at_jump : Vm
at_jump = record (machine (patch_int32 2 300 jump_chunk).code) { ip = 1 }

step-patch_int32_example :
    step ⦃p = whole_numbers⦄ ⦃f = no_foreign⦄ at_jump ≡ ok tt (record at_jump { ip = 300 })
unfolding patch_int32 patch_word
step-patch_int32_example =
    step-patch_int32 ⦃p = whole_numbers⦄ ⦃f = no_foreign⦄ 300 1 jump_chunk at_jump (omega arith)
      (omega arith) refl refl refl

known : unify_inferred_types 6 7 ≢ 0
unfolding unify_inferred_types is_assignable kinds_agree
known = ground arith

unify_example :
    (is_assignable (unify_inferred_types 6 7) 6 ≡ true)
    × (is_assignable (unify_inferred_types 6 7) 7 ≡ true)
unify_example = unify_inferred_types-is_assignable 6 7 (omega arith) (omega arith) known
