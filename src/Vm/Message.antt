-- ===== src/Vm/Message.antt =====
-- What a handler finds behind a `runtime_error` of src/vm.c: the string of the message.
use opo.Base.{
  ℕ, zero, suc, ◌+◌, ◌<◌, ◌≡◌, sym, ap, subst, ◌∙◌, true, List, [], ◌∷◌, some, ltb, Bool-cases, inl,
  inr, get_or, set, take, length, replicate, arith,
}
use opo.Base.Int.{pos}
use opo.Heap.Count.{release-retain}
use opo.Heap.Inside.{
  Inside, AllInside, HeapInside, Spares, Spares-refl, Spares-trans, Spares-release,
  retain-allocate_string, deref-fresh, HeapInside-fresh,
}
use opo.Heap.{Heap, string, deref, release}
use opo.Value.{Value, is_counted_kind, void_value, obj_value}
use opo.Vm.{
  Vm, ok, CallFrame, TryFrame, drop_to, clear_locals, unwind_frames, runtime_error, message_max,
  stack_max, locals_per_frame,
}
use opo.Vm.Unwind.{Caught, unwound_heap, panicking, runtime_error_lem}

module _ (n : ℕ) where
  void-Inside : Inside n void_value
  unfolding is_counted_kind
  void-Inside e = ground (arith, e)

  get_or-Inside : (vs : List Value) (i : ℕ) → AllInside n vs → Inside n (get_or vs i void_value)
  get_or-Inside [] i a = void-Inside
  get_or-Inside (v ∷ vs) zero a = a.0
  get_or-Inside (v ∷ vs) (suc i) a = get_or-Inside vs i a.1

  set-AllInside : (vs : List Value) (i : ℕ) → AllInside n vs → AllInside n (set vs i void_value)
  set-AllInside [] i a = tt
  set-AllInside (v ∷ vs) zero a = (void-Inside, a.1)
  set-AllInside (v ∷ vs) (suc i) a = (a.0, set-AllInside vs i a.1)

  Spares-drop_to :
      (target : ℕ) (stack : List Value) (h : Heap)
      → HeapInside n h
      → AllInside n stack
      → Spares n h (drop_to target stack h).1
  unfolding drop_to
  Spares-drop_to target [] h i a = Spares-refl n i
  Spares-drop_to target (v ∷ rest) h i a =
      let s = Spares-release n h v i a.0 in
      elim (Bool-cases (ltb target (suc (length rest)))) [
        | inl above ↦
            rw above (Spares-trans n s (Spares-drop_to target rest (release h v) s.inside a.1))
        | inr done ↦ rw done (Spares-refl n i)
      ]

  Spares-clear_locals :
      (k i : ℕ) (locals : List Value) (h : Heap)
      → HeapInside n h
      → AllInside n locals
      → Spares n h (clear_locals k i locals h).1 × AllInside n (clear_locals k i locals h).0
  unfolding clear_locals
  Spares-clear_locals zero i locals h w a = (Spares-refl n w, a)
  Spares-clear_locals (suc k) i locals h w a =
      let s = Spares-release n h (get_or locals i void_value) w (get_or-Inside locals i a) in
      let (t, b) =
        Spares-clear_locals k (i + 1) (set locals i void_value)
          (release h (get_or locals i void_value)) s.inside (set-AllInside locals i a) in
      (Spares-trans n s t, b)

  Spares-unwind_frames :
      (target : ℕ) (frames : List CallFrame) (locals : List Value) (h : Heap)
      → HeapInside n h
      → AllInside n locals
      → Spares n h (unwind_frames target frames locals h).2
  unfolding unwind_frames
  Spares-unwind_frames target [] locals h w a = Spares-refl n w
  Spares-unwind_frames target (f ∷ rest) locals h w a =
      let (s, b) = Spares-clear_locals locals_per_frame f.locals_offset locals h w a in
      elim (Bool-cases (ltb target (suc (length rest)))) [
        | inl above ↦ rw above (Spares-trans n s (Spares-unwind_frames target rest _ _ s.inside b))
        | inr done ↦ rw done (Spares-refl n w)
      ]

-- A machine starts without references.
pub AllInside-blank : (n k : ℕ) → AllInside n (replicate k void_value)
AllInside-blank n zero = tt
AllInside-blank n (suc k) = (void-Inside n, AllInside-blank n k)

-- Every reference on the stack, in the locals and in the objects leads to a cell that there is.
pub record IsClosed (vm : Vm) : Type 0 where
  pub operands : AllInside (length vm.heap.cells) vm.stack
  pub variables : AllInside (length vm.heap.cells) vm.locals
  pub objects : HeapInside (length vm.heap.cells) vm.heap

module _ (message : List ℕ) (vm : Vm) (closed : IsClosed vm) where
  -- The unwinding reaches the operands, the locals and what they lead to, but not the new string.
  unwound_string :
      (t : TryFrame)
      → deref (unwound_heap t (panicking message vm)) (suc (length vm.heap.cells))
        ≡ some (record { object = string (take message_max message); ref_count = pos 1 })
  unwound_string t =
      let n = length vm.heap.cells in
      let made = retain-allocate_string vm.heap (take message_max message) in
      let within : HeapInside n (panicking message vm).heap =
        subst (λ g. HeapInside n g) (sym made)
          (HeapInside-fresh n vm.heap (take message_max message) closed.objects) in
      let s =
        Spares-drop_to n t.stack_ptr vm.stack (panicking message vm).heap within closed.operands in
      let u =
        Spares-unwind_frames n t.frame_ptr vm.frames vm.locals
          (drop_to t.stack_ptr vm.stack (panicking message vm).heap).1 s.inside closed.variables in
      u.kept
      ∙ s.kept
      ∙ ap (λ g. deref g (suc n)) made
      ∙ deref-fresh vm.heap (string (take message_max message))

-- With a try frame whose stack height is in range, from a machine whose references lead to cells
-- that there are: `runtime_error` goes on at the handler of that frame, which is off the try stack;
-- the operands and the calls are those at the `try`, with the address of a new object on top; that
-- object is alive, with one reference, and is the string of the message, cut to the 1023 bytes that
-- the buffer holds; and the panic flag stays set.
pub runtime_error-Caught :
    (message : List ℕ) (vm : Vm) (t : TryFrame) (rest : List TryFrame)
    → vm.try_stack ≡ t ∷ rest
    → t.stack_ptr < stack_max
    → IsClosed vm
    → (vm' : Vm) × (runtime_error message vm ≡ ok tt vm')
      × Caught vm t rest (obj_value (suc (length vm.heap.cells))) vm'
      × (vm'.panic ≡ true)
      × (deref vm'.heap (suc (length vm.heap.cells))
          ≡ some (record { object = string (take message_max message); ref_count = pos 1 }))
runtime_error-Caught message vm t rest e h closed =
    let err = obj_value (suc (length vm.heap.cells)) in
    let (vm', runs, caught, panic, heap) = runtime_error_lem message vm t rest e h in
    let there = unwound_string message vm closed t in
    (
      vm',
      runs,
      caught,
      panic,
      ap (λ g. deref g (suc (length vm.heap.cells)))
            (heap
              ∙ release-retain (unwound_heap t (panicking message vm)) err
                  (λ c. (string (take message_max message), 0, there)))
          ∙ there,
    )
