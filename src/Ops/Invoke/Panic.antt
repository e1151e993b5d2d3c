-- ===== src/Ops/Invoke/Panic.antt =====
-- The panic flag of src/vm.c behind an error that a program has caught.
use opo.Base.{
  Option-cases, inl, inr, ℕ, zero, suc, ◌<◌, ◌≡◌, refl, sym, ap, subst, ◌∙◌, Bool, true, false,
  List, [], ◌∷◌, some, length, drop, arith,
}
use opo.Heap.{Heap, release, retain}
use opo.Ops.Invoke.{Foreign, invoke_native, native_end, call_native, args_on}
use opo.Platform.{Platform}
use opo.Value.{Value}
use opo.Vm.{
  ◌>>◌, stop, Vm, Result, ok, bind, require, pop_from, vm_pop, vm_push, release_value, TryFrame,
  runtime_error, stack_max,
}
use opo.Vm.Unwind.{runtime_error_lem, vm_push-fits}

-- The arguments come off the stack, and are released.
drops :
    (n : ℕ) (stack : List Value) (m : Vm) {args : List Value}
    → args_on n stack ≡ some args
    → (h : Heap) × (opo.Ops.Invoke.drop n (record m { stack = stack })
        ≡ ok tt (record m { stack = drop n stack; heap = h }))
unfolding opo.Ops.Invoke.drop args_on vm_pop pop_from
drops zero stack m e = (m.heap, refl)
drops (suc n) [] m e = absurd (ground (arith, e))
drops (suc n) (v ∷ rest) m {args} e = elim (Option-cases (args_on n rest)) [
  | inl no_args ↦ absurd (ground (arith, no_args, e))
  | inr (vs, found) ↦ drops n rest (record m { heap = release m.heap v }) found
]

abbrev state_of : Result (Unit {0}) → Vm
state_of (ok u m) = m
state_of (stop e m) = m

module _ ⦃p : Platform⦄ ⦃f : Foreign⦄ where
  -- The end of a call that has gone well.
  ends_well :
      (n : ℕ) (callable result : Value) (m : Vm) {args : List Value}
      → args_on n m.stack ≡ some args
      → length (drop n m.stack) < stack_max
      → (fine : Vm) × (native_end n callable result false m ≡ ok tt fine)
        × (fine.stack ≡ result ∷ drop n m.stack)
  unfolding native_end
  ends_well n callable result m e room =
      let (h, dropped) = drops n m.stack (record m { heap = retain m.heap result }) e in
      let low = record m { stack = drop n m.stack; heap = h } in
      (
        record low {
          stack = result ∷ drop n m.stack;
          heap = release (release (retain h result) result) callable;
        },
        ap (λ r. bind r (λ _. (vm_push result >> (release_value result >> release_value callable))))
              dropped
            ∙ ap (λ r. bind r (λ _. (release_value result >> release_value callable)))
                (vm_push-fits result low room),
        refl,
      )

  fails :
      (n : ℕ) (callable result : Value) (m : Vm)
      → native_end n callable result true m
        ≡ ok tt (record m { panic = false; heap = release m.heap callable })
  unfolding native_end
  fails n callable result m = refl

  invoke_native_lem :
      (n index : ℕ) (callable result : Value) (m m' : Vm) {args : List Value}
      → args_on n m.stack ≡ some args
      → call_native index args m ≡ ok result m'
      → invoke_native n callable index m ≡ native_end n callable result m'.panic m'
  unfolding invoke_native
  invoke_native_lem n index callable result m m' e w =
      ap
        (λ o. bind (require o m) (λ args vm.
          bind (call_native index args vm) (λ r vm'. native_end n callable r vm'.panic vm')))
        e
      ∙ ap (λ q. bind q (λ r vm'. native_end n callable r vm'.panic vm')) w

  -- After any `runtime_error` that a try frame has caught, the next call of a native is taken for
  -- one that has failed. This is so for any native that returns a result for its arguments, reads
  -- and changes nothing of the panic flag and leaves the stack to its caller: the call keeps the
  -- arguments on the stack, pushes no result and clears the flag, while the same call without the
  -- flag has its result in the place of the arguments.
  pub result_lost_after_error :
      (message : List ℕ) (vm caught : Vm) (t : TryFrame) (rest : List TryFrame)
      → vm.try_stack ≡ t ∷ rest
      → t.stack_ptr < stack_max
      → runtime_error message vm ≡ ok tt caught
      → (n index : ℕ) (callable result : Value) (stack args : List Value) (m : Vm)
      → args_on n stack ≡ some args
      → length (drop n stack) < stack_max
      → ((b : Bool)
          → call_native index args (record caught { stack = stack; panic = b })
            ≡ ok result (record m { stack = stack; panic = b }))
      → ((after : Vm) × (invoke_native n callable index (record caught { stack = stack })
            ≡ ok tt after)
          × (after.stack ≡ stack)
          × (after.panic ≡ false))
        × ((fine : Vm) × (invoke_native n callable index
                (record caught { stack = stack; panic = false })
              ≡ ok tt fine)
            × (fine.stack ≡ result ∷ drop n stack))
  result_lost_after_error message vm caught t rest e h runs n index callable result stack args m on
        room works =
      let (vm', caught_there, facts, panic, heap) = runtime_error_lem message vm t rest e h in
      let still : caught.panic ≡ true =
        subst (λ (c : Vm). c.panic ≡ true) (ap state_of (sym caught_there ∙ runs)) panic in
      let (fine, finishes, replaced) =
        ends_well n callable result (record m { stack = stack; panic = false }) on room in
      (
        (
          record m { stack = stack; panic = false; heap = release m.heap callable },
          ap (λ b. invoke_native n callable index (record caught { stack = stack; panic = b }))
                still
              ∙ invoke_native_lem n index callable result
                  (record caught { stack = stack; panic = true })
                  (record m { stack = stack; panic = true }) on (works true)
              ∙ fails n callable result (record m { stack = stack; panic = true }),
          refl,
          refl,
        ),
        (
          fine,
          invoke_native_lem n index callable result (record caught { stack = stack; panic = false })
                (record m { stack = stack; panic = false }) on (works false)
              ∙ finishes,
          replaced,
        ),
      )
