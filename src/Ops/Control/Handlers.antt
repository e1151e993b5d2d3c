-- ===== src/Ops/Control/Handlers.antt =====
-- `OP_THROW` of src/vm.c with a handler: the same unwinding as that of `runtime_error`.
use opo.Base.{◌<◌, ◌≡◌, ap, ◌∙◌, refl, List, ◌∷◌}
use opo.Ops.Control.{op_throw, throw_to}
use opo.Platform.{Platform}
use opo.Value.{Value}
use opo.Vm.Unwind.{Caught, pushes_error}
use opo.Vm.{Vm, Result, bind, ok, TryFrame, stack_max, jump, unwind_to, vm_pop, pop_from}

module _ ⦃p : Platform⦄ where
  -- With an error on the stack and a try frame whose stack height is in range, `OP_THROW` goes on
  -- at the handler of that frame, which is off the try stack; the operands and the calls are those
  -- at the `try`, with the error on top; and the panic flag is as before.
  pub op_throw-Caught :
      (err : Value) (below : List Value) (vm : Vm) (t : TryFrame) (rest : List TryFrame)
      → vm.stack ≡ err ∷ below
      → vm.try_stack ≡ t ∷ rest
      → t.stack_ptr < stack_max
      → (vm' : Vm) × (op_throw vm ≡ ok tt vm')
        × Caught (record vm { stack = below }) t rest err vm'
        × (vm'.panic ≡ vm.panic)
  unfolding op_throw throw_to vm_pop unwind_to
  op_throw-Caught err below vm t rest s e h =
      let (vm', runs, operands, calls, tries, same_code, panic, heap) =
        pushes_error t rest err (record vm { stack = below }) h in
      (
        record vm' { ip = t.handler_addr },
        ap (λ (vs : List Value). bind (pop_from vs vm) (λ v vm₁. throw_to v vm₁.try_stack vm₁)) s
            ∙ ap (λ (ts : List TryFrame). throw_to err ts (record vm { stack = below })) e
            ∙ ap (λ (r : Result (Unit {0})). bind r (λ _. jump t.handler_addr)) runs,
        record {
          at_handler = refl;
          tries = tries;
          operands = operands;
          calls = calls;
          same_code = same_code;
        },
        panic,
      )
