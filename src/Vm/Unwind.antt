-- ===== src/Vm/Unwind.antt =====
-- What `runtime_error` and `OP_THROW` of src/vm.c leave when a try frame catches the error.
use opo.Base.{
  ℕ, suc, ◌-◌, ◌≤◌, ◌<◌, ◌≡◌, refl, sym, ap, subst, ◌∙◌, true, List, [], ◌∷◌, arith, dec_lt, length,
  drop, take, lt→ltb, le→ltb,
}
use opo.Heap.{Heap, retain, release, allocate, allocate_string}
use opo.Value.{Value, obj_value}
use opo.Vm.{
  Vm, Result, bind, ◌>>◌, ok, CallFrame, TryFrame, drop_to, clear_locals, unwind_frames, unwind_to,
  vm_push, raise, raise_here, release_value, jump, runtime_error, message_max, stack_max,
  locals_per_frame,
}

module _ {ℓ} {A : Type ℓ} where
  -- The lowest `n` elements of a stack, whose top is first.
  abbrev pub kept : ℕ → List A → List A
  kept n xs = drop (length xs - n) xs

  kept_whole : (n : ℕ) (xs : List A) → length xs ≤ n → kept n xs ≡ xs
  kept_whole n xs h = ap (λ (k : ℕ). drop k xs) (none_over (length xs) n h)
    where
      none_over : (l n : ℕ) → l ≤ n → l - n ≡ 0
      none_over l n h = omega arith

  kept_lower : (n : ℕ) (x : A) (xs : List A) → n < suc (length xs) → kept n (x ∷ xs) ≡ kept n xs
  kept_lower n x xs h = ap (λ (k : ℕ). drop k (x ∷ xs)) (less (length xs) n h)
    where
      less : (l n : ℕ) → n < suc l → suc l - n ≡ suc (l - n)
      less l n h = omega arith

  length-kept : (n : ℕ) (xs : List A) → length (kept n xs) ≤ n
  length-kept n [] =
      subst (λ (ys : List A). length ys ≤ n) (sym (kept_whole n [] (omega arith))) (omega arith)
  length-kept n (x ∷ xs) = elim (dec_lt n (suc (length xs))) [
    | yes h ↦ subst (λ (ys : List A). length ys ≤ n) (sym (kept_lower n x xs h)) (length-kept n xs)
    | no h ↦
        subst (λ (ys : List A). length ys ≤ n) (sym (kept_whole n (x ∷ xs) (omega arith)))
          (omega arith)
  ]

drop_to-kept : (n : ℕ) (stack : List Value) (h : Heap) → (drop_to n stack h).0 ≡ kept n stack
unfolding drop_to
drop_to-kept n [] h = sym (kept_whole n [] (omega arith))
drop_to-kept n (v ∷ rest) h = elim (dec_lt n (suc (length rest))) [
  | yes b ↦
      rw (lt→ltb n (suc (length rest)) b)
        (drop_to-kept n rest (release h v) ∙ sym (kept_lower n v rest b))
  | no b ↦
      rw (le→ltb n (suc (length rest)) (omega arith)) (sym (kept_whole n (v ∷ rest) (omega arith)))
]

unwind_frames-kept :
    (n : ℕ) (frames : List CallFrame) (locals : List Value) (h : Heap)
    → (unwind_frames n frames locals h).0 ≡ kept n frames
unfolding unwind_frames
unwind_frames-kept n [] locals h = sym (kept_whole n [] (omega arith))
unwind_frames-kept n (f ∷ rest) locals h = elim (dec_lt n (suc (length rest))) [
  | yes b ↦ rw (lt→ltb n (suc (length rest)) b) (
      unwind_frames-kept n rest (clear_locals locals_per_frame f.locals_offset locals h).0
        (clear_locals locals_per_frame f.locals_offset locals h).1
      ∙ sym (kept_lower n f rest b))
  | no b ↦
      rw (le→ltb n (suc (length rest)) (omega arith)) (sym (kept_whole n (f ∷ rest) (omega arith)))
]

-- A machine that has caught an error with a try frame.
pub record Caught (vm : Vm) (t : TryFrame) (rest : List TryFrame) (err : Value) (vm' : Vm)
    : Type 0 where
  pub at_handler : vm'.ip ≡ t.handler_addr
  pub tries : vm'.try_stack ≡ rest
  pub operands : vm'.stack ≡ err ∷ kept t.stack_ptr vm.stack
  pub calls : vm'.frames ≡ kept t.frame_ptr vm.frames
  pub same_code : vm'.code ≡ vm.code

-- What the unwinding leaves of the heap.
abbrev pub unwound_heap : TryFrame → Vm → Heap
unwound_heap t vm =
    (unwind_frames t.frame_ptr vm.frames vm.locals (drop_to t.stack_ptr vm.stack vm.heap).1).2

-- The unwinding, with the error pushed at its end.
abbrev pub unwound : TryFrame → List TryFrame → Value → Vm → Result (Unit {0})
unwound t rest err vm = bind (unwind_to t (record vm { try_stack = rest })) λ _. vm_push err

pub vm_push-fits :
    (v : Value) (vm : Vm)
    → length vm.stack < stack_max
    → vm_push v vm ≡ ok tt (record vm { heap = retain vm.heap v; stack = v ∷ vm.stack })
unfolding vm_push
vm_push-fits v vm h = ground arith

pub pushes_error :
    (t : TryFrame) (rest : List TryFrame) (err : Value) (vm : Vm)
    → t.stack_ptr < stack_max
    → (vm' : Vm) × (unwound t rest err vm ≡ ok tt vm')
      × (vm'.stack ≡ err ∷ kept t.stack_ptr vm.stack)
      × (vm'.frames ≡ kept t.frame_ptr vm.frames)
      × (vm'.try_stack ≡ rest)
      × (vm'.code ≡ vm.code)
      × (vm'.panic ≡ vm.panic)
      × (vm'.heap ≡ retain (unwound_heap t vm) err)
unfolding unwind_to vm_push
pushes_error t rest err vm h = (
  record low { heap = retain low.heap err; stack = err ∷ low.stack },
  vm_push-fits err low (
      omega
        (arith, ap (λ (vs : List Value). length vs) operands, length-kept t.stack_ptr vm.stack)),
  ap (λ (vs : List Value). err ∷ vs) operands,
  unwind_frames-kept t.frame_ptr vm.frames vm.locals (drop_to t.stack_ptr vm.stack vm.heap).1,
  refl,
  refl,
  refl,
  refl,
)
  where
    low : Vm
    low = record vm {
      stack = (drop_to t.stack_ptr vm.stack vm.heap).0;
      locals =
          (unwind_frames t.frame_ptr vm.frames vm.locals
            (drop_to t.stack_ptr vm.stack vm.heap).1).1;
      frames =
          (unwind_frames t.frame_ptr vm.frames vm.locals
            (drop_to t.stack_ptr vm.stack vm.heap).1).0;
      try_stack = rest;
      heap =
          (unwind_frames t.frame_ptr vm.frames vm.locals
            (drop_to t.stack_ptr vm.stack vm.heap).1).2;
    }

    operands : low.stack ≡ kept t.stack_ptr vm.stack
    operands = drop_to-kept t.stack_ptr vm.stack vm.heap

raise-Caught :
    (err : Value) (t : TryFrame) (rest : List TryFrame) (vm : Vm)
    → t.stack_ptr < stack_max
    → (vm' : Vm) × (raise err (t ∷ rest) vm ≡ ok tt vm')
      × Caught vm t rest err vm'
      × (vm'.panic ≡ vm.panic)
      × (vm'.heap ≡ release (retain (unwound_heap t vm) err) err)
unfolding raise
raise-Caught err t rest vm h =
    let (vm', runs, operands, calls, tries, same_code, panic, heap) =
      pushes_error t rest err vm h in
    (
      record vm' { ip = t.handler_addr; heap = release vm'.heap err },
      ap (λ (r : Result (Unit {0})). bind r (λ _. (jump t.handler_addr >> release_value err))) runs,
      record {
        at_handler = refl;
        tries = tries;
        operands = operands;
        calls = calls;
        same_code = same_code;
      },
      panic,
      ap (λ g. release g err) heap,
    )

-- The machine that unwinds a `runtime_error`: the string of its message is there, and held.
abbrev pub panicking : List ℕ → Vm → Vm
panicking message vm = record vm {
  panic = true;
  heap =
      retain (allocate_string vm.heap (take message_max message)).1
        (obj_value (suc (length vm.heap.cells)));
}

-- Where `runtime_error` goes with a try frame, and the heap that it leaves.
pub runtime_error_lem :
    (message : List ℕ) (vm : Vm) (t : TryFrame) (rest : List TryFrame)
    → vm.try_stack ≡ t ∷ rest
    → t.stack_ptr < stack_max
    → (vm' : Vm) × (runtime_error message vm ≡ ok tt vm')
      × Caught vm t rest (obj_value (suc (length vm.heap.cells))) vm'
      × (vm'.panic ≡ true)
      × (vm'.heap
          ≡ release
              (retain
                (unwound_heap t (panicking message vm))
                (obj_value (suc (length vm.heap.cells))))
              (obj_value (suc (length vm.heap.cells))))
unfolding runtime_error allocate_string allocate raise_here
runtime_error_lem message vm t rest e h =
    let err = obj_value (suc (length vm.heap.cells)) in
    let (vm', runs, caught, panic, heap) = raise-Caught err t rest (panicking message vm) h in
    (
      vm',
      ap (λ (ts : List TryFrame). raise err ts (panicking message vm)) e ∙ runs,
      record {
        at_handler = caught.at_handler;
        tries = caught.tries;
        operands = caught.operands;
        calls = caught.calls;
        same_code = caught.same_code;
      },
      panic,
      heap,
    )
