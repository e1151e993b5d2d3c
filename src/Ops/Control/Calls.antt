-- ===== src/Ops/Control/Calls.antt =====
-- Calls of src/vm.c and their returns; locals that are stored and loaded.
use opo.Base.Int.{ℤ, pos}
use opo.Base.{
  ℕ, zero, suc, ◌+◌, ◌*◌, ◌≤◌, ◌<◌, ◌≡◌, refl, sym, ap, subst, ◌∙◌, false, List, [], ◌∷◌, some,
  arith, length, get_elem?, get_elem?-set_self, get_or, set, leb, dec_lt,
}
use opo.Heap.{Heap, retain, release}
use opo.Ops.Control.{
  begin_call, copy_captures, op_ret, leave, return_to, op_store, op_load, offset_of,
}
use opo.Value.{Value, void_value}
use opo.Vm.{
  Vm, ok, CallFrame, clear_locals, frames_max, locals_per_frame, stack_max, vm_pop, pop_from,
  read_byte,
}
use opo.Vm.Unwind.{vm_push-fits}

-- A frame's locals after it is cleared: void inside, as before outside.
clear_locals-outside :
    (n i : ℕ) (locals : List Value) (h : Heap) (j : ℕ)
    → j < i
    → get_or (clear_locals n i locals h).0 j void_value ≡ get_or locals j void_value
unfolding clear_locals
clear_locals-outside zero i locals h j a = refl
clear_locals-outside (suc n) i locals h j a =
    clear_locals-outside n (i + 1) (set locals i void_value)
      (release h (get_or locals i void_value)) j (omega arith)
    ∙ set_void locals i j a
  where
    set_void :
        (locals : List Value) (i j : ℕ)
        → j < i
        → get_or (set locals i void_value) j void_value ≡ get_or locals j void_value
    set_void [] i j a = refl
    set_void (x ∷ xs) zero j a = absurd (omega arith)
    set_void (x ∷ xs) (suc i) zero a = refl
    set_void (x ∷ xs) (suc i) (suc j) a = set_void xs i j (omega arith)

clear_locals-inside :
    (n i : ℕ) (locals : List Value) (h : Heap) (j : ℕ)
    → i ≤ j
    → j < i + n
    → get_or (clear_locals n i locals h).0 j void_value ≡ void_value
unfolding clear_locals
clear_locals-inside zero i locals h j a b = absurd (omega arith)
clear_locals-inside (suc n) i locals h j a b = elim (dec_lt i j) [
  | yes c ↦
      clear_locals-inside n (i + 1) (set locals i void_value)
        (release h (get_or locals i void_value)) j (omega arith) (omega arith)
  | no c ↦
      clear_locals-outside n (i + 1) (set locals i void_value)
        (release h (get_or locals i void_value)) j (omega arith)
      ∙ subst (λ (k : ℕ). get_or (set locals i void_value) k void_value ≡ void_value) (omega arith)
          (set_here locals i)
]
  where
    set_here :
        (locals : List Value) (i : ℕ) → get_or (set locals i void_value) i void_value ≡ void_value
    set_here [] i = refl
    set_here (x ∷ xs) zero = refl
    set_here (x ∷ xs) (suc i) = set_here xs i

begin_call-fits :
    (addr : ℕ) (r : ℤ) (captures : List Value) (vm : Vm)
    → length vm.frames < frames_max
    → (vm' : Vm) × (begin_call addr r captures vm ≡ ok tt vm')
      × (vm'.ip ≡ addr)
      × (vm'.frames
          ≡ record { return_addr = r; locals_offset = length vm.frames * locals_per_frame }
            ∷ vm.frames)
unfolding begin_call
begin_call-fits addr r captures vm h =
    let (locals, heap) =
      copy_captures captures (length vm.frames * locals_per_frame) vm.locals vm.heap in
    (
      record vm {
        frames =
            record { return_addr = r; locals_offset = length vm.frames * locals_per_frame }
            ∷ vm.frames;
        locals = locals;
        heap = heap;
        ip = addr;
      },
      ground arith,
      refl,
      refl,
    )

op_ret-returns :
    (r offset : ℕ) (f : CallFrame) (fs : List CallFrame) (late : Vm)
    → (back : Vm) × (op_ret
          (record late { frames = record { return_addr = pos r; locals_offset = offset } ∷ f ∷ fs })
        ≡ ok tt back)
      × (back.frames ≡ f ∷ fs)
      × (back.ip ≡ r)
      × (back.stack ≡ late.stack)
      × (back.locals ≡ (clear_locals locals_per_frame offset late.locals late.heap).0)
unfolding op_ret leave return_to
op_ret-returns r offset f fs late =
    let (locals, heap) = clear_locals locals_per_frame offset late.locals late.heap in
    (
      record late { frames = f ∷ fs; locals = locals; heap = heap; ip = r },
      rw (deep (length fs)) refl,
      refl,
      refl,
      refl,
      refl,
    )
  where
    deep : (n : ℕ) → leb (suc (suc n)) 1 ≡ false
    deep n = ground arith

-- From a machine in a call, with room for another frame, `begin_call` goes to the address; an
-- `OP_RET` in whatever state the callee reaches with the frames of the call then goes to the return
-- address, with the frames of before and the operands of the callee, and each of the 48 locals of
-- the callee is void.
pub op_ret-begin_call :
    (addr r : ℕ) (captures : List Value) (vm late : Vm) (f : CallFrame) (fs : List CallFrame)
    (j : ℕ)
    → vm.frames ≡ f ∷ fs
    → length vm.frames < frames_max
    → j < locals_per_frame
    → (vm' back : Vm) × (begin_call addr (pos r) captures vm ≡ ok tt vm')
      × (vm'.ip ≡ addr)
      × (op_ret (record late { frames = vm'.frames }) ≡ ok tt back)
      × (back.frames ≡ vm.frames)
      × (back.ip ≡ r)
      × (back.stack ≡ late.stack)
      × (get_or back.locals (length vm.frames * locals_per_frame + j) void_value ≡ void_value)
op_ret-begin_call addr r captures vm late f fs j e h k =
    let (vm', calls, at, frames) = begin_call-fits addr (pos r) captures vm h in
    let offset = length vm.frames * locals_per_frame in
    let (back, returns, same, ip, stack, locals) = op_ret-returns r offset f fs late in
    (
      vm',
      back,
      calls,
      at,
      ap (λ (gs : List CallFrame). op_ret (record late { frames = gs }))
            (frames
              ∙ ap
                  (λ (gs : List CallFrame).
                    record { return_addr = pos r; locals_offset = offset } ∷ gs)
                  e)
          ∙ returns,
      same ∙ sym e,
      ip,
      stack,
      ap (λ (vs : List Value). get_or vs (offset + j) void_value) locals
          ∙ clear_locals-inside locals_per_frame offset late.locals late.heap (offset + j)
              (omega arith) (omega arith),
    )

in_range : (xs : List Value) (i : ℕ) → i < length xs → (v : Value) × (get_elem? xs i ≡ some v)
in_range [] i h = absurd (omega arith)
in_range (x ∷ xs) zero h = (x, refl)
in_range (x ∷ xs) (suc i) h = in_range xs i (omega arith)

-- A value that `OP_STORE` takes off the stack into a local of the running frame is the one that
-- `OP_LOAD` of the same index then pushes onto the operands that were below it.
pub op_load-op_store :
    (index : ℕ) (v : Value) (below : List Value) (f : CallFrame) (fs : List CallFrame) (vm : Vm)
    (ip : ℕ)
    → length below < stack_max
    → f.locals_offset + index < length vm.locals
    → get_elem? vm.code vm.ip ≡ some index
    → get_elem? vm.code ip ≡ some index
    → (stored loaded : Vm) × (op_store (record vm { stack = v ∷ below; frames = f ∷ fs })
        ≡ ok tt stored)
      × (stored.stack ≡ below)
      × (op_load (record stored { ip = ip }) ≡ ok tt loaded)
      × (loaded.stack ≡ v ∷ below)
unfolding op_store op_load read_byte vm_pop offset_of pop_from
op_load-op_store index v below f fs vm ip room loc code code' =
    let (old, there) = in_range vm.locals (f.locals_offset + index) loc in
    let locals = set vm.locals (f.locals_offset + index) v in
    let stored = record vm {
      stack = below;
      frames = f ∷ fs;
      ip = vm.ip + 1;
      locals = locals;
      heap = release vm.heap old;
    } in
    (
      stored,
      record stored { ip = ip + 1; heap = retain stored.heap v; stack = v ∷ below },
      rw (code, there) refl,
      refl,
      rw (code', get_elem?-set_self vm.locals (f.locals_offset + index) v loc)
          (vm_push-fits v (record stored { ip = ip + 1 }) room),
      refl,
    )
