-- ===== src/Tests/Machine.antt =====
-- The theorems on the virtual machine of src/vm.c at concrete machines.
use opo.Base.{
  zero, suc, ◌⊎◌, ◌<◌, ℕ, ◌≡◌, ◌+◌, ◌-◌, ◌*◌, ◌^◌, refl, true, [], ◌∷◌, length, codes, arith,
  get_or, some, take, false,
}
use opo.Base.Int.{pos, int64, ltb_ℤ, nat_abs, is_neg, ◌*ℤ◌}
use opo.Ops.Arith.{op_add, op_sub, op_lt, op_div, op_mod}
use opo.Ops.Arith.Division.{op_div-op_mod}
use opo.Ops.Arith.Ints.{Fits, ◌+ℤ◌, -ℤ◌, with_ints, op_add-int64}
use opo.Ops.Control.{begin_call, op_ret, op_store, op_load, op_throw}
use opo.Ops.Control.Calls.{op_ret-begin_call, op_load-op_store}
use opo.Ops.Control.Handlers.{op_throw-Caught}
use opo.Ops.Invoke.{args_on, call_native, invoke_native}
use opo.Ops.Invoke.Panic.{result_lost_after_error}
use opo.Tests.{whole_numbers, no_foreign, machine}
use opo.Value.{is_counted_kind, int_value, bool_value, obj_value, void_value}
use opo.Vm.{Vm, ok, TryFrame, CallFrame, runtime_error, message_max, locals_max, locals_per_frame}
use opo.Heap.{Object, object_at, string, deref, allocate_string, allocate, release, retain}
use opo.Natives.Collections.{native_len}
use opo.Vm.Unwind.{Caught}
use opo.Vm.Message.{AllInside-blank, IsClosed, runtime_error-Caught}

-- In a `try` at the start of the program, with an operand that has been pushed since.
abbrev handler : TryFrame
handler = record { handler_addr = 40; stack_ptr = 0; frame_ptr = 1 }

abbrev trying : Vm
trying = record (machine []) { try_stack = handler ∷ []; stack = int_value 5 ∷ [] }

trying-IsClosed : IsClosed trying
unfolding is_counted_kind
trying-IsClosed = record {
  operands = (λ e. ground (arith, e), tt);
  variables = AllInside-blank 0 locals_max;
  objects = λ a o e. absurd (no_object a e);
}
  where
    no_object : (a : ℕ) {o : Object} → object_at trying.heap a ≡ some o → ⊥
    no_object zero e = ground (arith, e)
    no_object (suc a) e = ground (arith, e)

runtime_error-Caught_example :
    (vm' : Vm) × (runtime_error (codes "Division by zero") trying ≡ ok tt vm')
    × Caught trying handler [] (obj_value 1) vm'
    × (vm'.panic ≡ true)
    × (deref vm'.heap 1
        ≡ some (record {
          object = string (take message_max (codes "Division by zero"));
          ref_count = pos 1;
        }))
runtime_error-Caught_example =
    runtime_error-Caught (codes "Division by zero") trying handler [] refl (omega arith)
      trying-IsClosed

op_throw-Caught_example :
    (vm' : Vm) × (op_throw ⦃p = whole_numbers⦄ trying ≡ ok tt vm')
    × Caught (record trying { stack = [] }) handler [] (int_value 5) vm'
    × (vm'.panic ≡ trying.panic)
op_throw-Caught_example =
    op_throw-Caught ⦃p = whole_numbers⦄ (int_value 5) [] trying handler [] refl refl (omega arith)

-- Behind the error, at the handler, with an int on the stack that `len` is then called with.
abbrev caught_error : Vm
caught_error = record (machine []) {
  ip = 40;
  stack = obj_value 1 ∷ [];
  panic = true;
  heap = record {
    cells = some (record { object = string (codes "Division by zero"); ref_count = pos 1 }) ∷ [];
  };
}

runtime_error_runs : runtime_error (codes "Division by zero") trying ≡ ok tt caught_error
unfolding runtime_error allocate_string release allocate is_counted_kind retain
runtime_error_runs = refl

result_lost_after_error_example :
    ((after : Vm) × (invoke_native ⦃p = whole_numbers⦄ ⦃f = no_foreign⦄ 1
          (int_value 0)
          0
          (record caught_error { stack = int_value 3 ∷ obj_value 1 ∷ [] })
        ≡ ok tt after)
      × (after.stack ≡ int_value 3 ∷ obj_value 1 ∷ [])
      × (after.panic ≡ false))
    × ((fine : Vm) × (invoke_native ⦃p = whole_numbers⦄ ⦃f = no_foreign⦄ 1
            (int_value 0)
            0
            (record caught_error { stack = int_value 3 ∷ obj_value 1 ∷ []; panic = false })
          ≡ ok tt fine)
        × (fine.stack ≡ int_value 0 ∷ obj_value 1 ∷ []))
unfolding args_on call_native native_len
result_lost_after_error_example =
    result_lost_after_error ⦃p = whole_numbers⦄ ⦃f = no_foreign⦄ (codes "Division by zero") trying
      caught_error handler [] refl (omega arith) runtime_error_runs 1 0 (int_value 0) (int_value 0)
      (int_value 3 ∷ obj_value 1 ∷ []) (int_value 3 ∷ []) caught_error refl (omega arith)
      (λ b. refl)

abbrev main_frame : CallFrame
main_frame = record { return_addr = pos 0; locals_offset = 0 }

-- In the program's own frame.
abbrev calling : Vm
calling = record (machine []) { frames = main_frame ∷ [] }

op_ret-begin_call_example :
    (vm' back : Vm) × (begin_call 20 (pos 9) (int_value 1 ∷ []) calling ≡ ok tt vm')
    × (vm'.ip ≡ 20)
    × (op_ret (record trying { frames = vm'.frames }) ≡ ok tt back)
    × (back.frames ≡ calling.frames)
    × (back.ip ≡ 9)
    × (back.stack ≡ trying.stack)
    × (get_or back.locals (length calling.frames * locals_per_frame + 3) void_value ≡ void_value)
op_ret-begin_call_example =
    op_ret-begin_call 20 9 (int_value 1 ∷ []) calling trying main_frame [] 3 refl (omega arith)
      (omega arith)

-- The operands of a store and of a load, with two locals.
abbrev storing : Vm
storing = record (machine (1 ∷ 1 ∷ [])) { locals = void_value ∷ void_value ∷ [] }

op_load-op_store_example :
    (stored loaded : Vm) × (op_store
        (record storing { stack = int_value 7 ∷ []; frames = main_frame ∷ [] })
      ≡ ok tt stored)
    × (stored.stack ≡ [])
    × (op_load (record stored { ip = 1 }) ≡ ok tt loaded)
    × (loaded.stack ≡ int_value 7 ∷ [])
op_load-op_store_example =
    op_load-op_store 1 (int_value 7) [] main_frame [] storing 1 (omega arith) (omega arith) refl
      refl

op_add-int64_example :
    (sum difference : ℕ) × (op_add ⦃p = whole_numbers⦄ (with_ints trying 3 5 [])
      ≡ ok tt (record trying { stack = int_value sum ∷ [] }))
    × (int64 sum ≡ int64 3 +ℤ int64 5)
    × (op_sub ⦃p = whole_numbers⦄ (with_ints trying 3 5 [])
        ≡ ok tt (record trying { stack = int_value difference ∷ [] }))
    × (int64 difference ≡ int64 3 +ℤ -ℤ int64 5)
    × (op_lt ⦃p = whole_numbers⦄ (with_ints trying 3 5 [])
        ≡ ok tt (record trying { stack = bool_value (ltb_ℤ (int64 3) (int64 5)) ∷ [] }))
unfolding Fits
op_add-int64_example =
    op_add-int64 ⦃p = whole_numbers⦄ trying 3 5 [] (omega arith) (omega arith) (omega arith)
      (omega arith) (omega arith)

-- 17 by -5.
op_div-op_mod_example :
    (q r : ℕ) × (op_div ⦃p = whole_numbers⦄ (with_ints trying 17 (2 ^ 64 - 5) [])
      ≡ ok tt (record trying { stack = int_value q ∷ [] }))
    × (op_mod (with_ints trying 17 (2 ^ 64 - 5) [])
        ≡ ok tt (record trying { stack = int_value r ∷ [] }))
    × ((int64 (2 ^ 64 - 5) *ℤ int64 q) +ℤ int64 r ≡ int64 17)
    × (nat_abs (int64 r) < nat_abs (int64 (2 ^ 64 - 5)))
    × ((int64 r ≡ pos 0) ⊎ (is_neg (int64 r) ≡ is_neg (int64 17)))
op_div-op_mod_example =
    op_div-op_mod ⦃p = whole_numbers⦄ trying 17 (2 ^ 64 - 5) [] (omega arith) (omega arith) refl
      (omega arith) (omega arith)
