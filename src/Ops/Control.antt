-- ===== src/Ops/Control.antt =====
-- Locals, jumps, calls, returns, closures and exceptions: src/vm.c.
pub mod Calls
pub mod Handlers
use opo.Base.Int.{ℤ, pos, negsuc}
use opo.Base.{
  ℕ, zero, suc, ◌+◌, ◌-◌, ◌*◌, Bool, true, false, not, ◌&&◌, List, [], ◌∷◌, ◌++◌, reverse, Option,
  none, some, ◌==◌, ltb, leb, if◌then◌else◌, codes, get_elem?, set, length,
}
use opo.Heap.{Heap, ObjClosure, retain, allocate_closure}
use opo.Natives.Str.{native_str, chars_of}
use opo.Platform.{Platform}
use opo.Types.{type_to_string}
use opo.Value.{Value, kind, b_val, obj_value, void_value}
use opo.Vm.{
  Vm, M, Result, ok, stop, exits, returned, undefined, pure, done, ◌>>=◌, ◌>>◌, halt_with, require,
  modify, new_string, new_object, release_value, write_output, runtime_error, vm_push, vm_pop,
  read_byte, read_int32, read_int64, CallFrame, TryFrame, frames_max, locals_per_frame,
  try_stack_max, clear_locals, unwind_to, jump,
}

abbrev pub get_vm : M Vm
get_vm vm = ok vm vm

-- `vm->frames[vm->frame_ptr-1].locals_offset`
pub offset_of : List CallFrame → M ℕ
offset_of [] = halt_with undefined
offset_of (f ∷ fs) = pure f.locals_offset

abbrev pub locals_offset : M ℕ
locals_offset vm = offset_of vm.frames vm

-- A slot of `vm->locals`, which has to exist.
abbrev pub local_at : ℕ → M Value
local_at i vm = require (get_elem? vm.locals i) vm

abbrev pub set_local : ℕ → Value → M (Unit {0})
set_local i v = modify (λ vm. record vm { locals = set vm.locals i v })

unfoldable pub op_store : M (Unit {0})
unfolding offset_of
op_store = do
  index ← read_byte
  offset ← locals_offset
  val ← vm_pop
  old ← local_at (offset + index)
  release_value old
  set_local (offset + index) val

unfoldable pub op_load : M (Unit {0})
unfolding offset_of
op_load = do index ← read_byte; offset ← locals_offset; val ← local_at (offset + index); vm_push val

unfoldable pub op_load_g : M (Unit {0})
op_load_g = do index ← read_byte; val ← local_at index; vm_push val

unfoldable pub op_pop : M (Unit {0})
op_pop = do v ← vm_pop; release_value v

unfoldable pub op_jump_if_f : M (Unit {0})
op_jump_if_f = do
  addr ← read_int32
  cond ← vm_pop
  release_value cond
  if b_val cond then done else jump addr

unfoldable pub op_jump : M (Unit {0})
op_jump = do addr ← read_int32; jump addr

-- The captured values, retained into the locals of a new frame, which have room for the 16 captures
-- that src/compiler.c allows.
unfoldable pub copy_captures : List Value → ℕ → List Value → Heap → List Value × Heap
copy_captures [] i locals h = (locals, h)
copy_captures (v ∷ vs) i locals h = copy_captures vs (i + 1) (set locals i v) (retain h v)

-- `begin_call`; a call without a closure captures nothing.
unfoldable pub begin_call : ℕ → ℤ → List Value → M (Unit {0})
unfolding copy_captures
begin_call addr return_addr captures vm =
    if leb frames_max (length vm.frames)
    then runtime_error (codes "Stack overflow (frames)\n") vm
    else (let offset = length vm.frames * locals_per_frame in
        let (locals, h) = copy_captures captures offset vm.locals vm.heap in
        ok tt (record vm {
          frames = record { return_addr = return_addr; locals_offset = offset } ∷ vm.frames;
          locals = locals;
          heap = h;
          ip = addr;
        }))

unfoldable pub op_call : M (Unit {0})
op_call = do addr ← read_int32; vm ← get_vm; begin_call addr (pos vm.ip) []

-- To a return address; -1 ends `vm_run`.
pub return_to : ℤ → M (Unit {0})
return_to (pos addr) = jump addr
return_to (negsuc n) = halt_with (if n == 0 then returned else undefined)

-- `&vm->frames[--vm->frame_ptr]`, and the end of `OP_RET`.
pub leave : List CallFrame → M (Unit {0})
unfolding return_to
leave [] = halt_with undefined
leave (f ∷ fs) = do
  modify λ vm.
      let (locals, h) = clear_locals locals_per_frame f.locals_offset vm.locals vm.heap in
      record vm { frames = fs; locals = locals; heap = h }
  return_to f.return_addr

abbrev pub leave_top : M (Unit {0})
leave_top vm = leave vm.frames vm

-- The error does not end the instruction: it goes on with the frames that the error has left.
unfoldable pub op_ret : M (Unit {0})
unfolding leave
op_ret = do
  vm ← get_vm
  if leb (length vm.frames) 1 then runtime_error (codes "Stack underflow (frames)\n") else done
  leave_top

unfoldable pub op_typeof : M (Unit {0})
op_typeof = do
  val ← vm_pop
  address ← new_string (type_to_string val.type)
  vm_push (obj_value address)
  release_value val

-- `count` values from the stack; the one on top is the last.
unfoldable pub pop_values : ℕ → List Value → M (List Value)
pop_values zero vs = pure vs
pop_values (suc n) vs = do v ← vm_pop; pop_values n (v ∷ vs)

unfoldable pub op_push_func : M (Unit {0})
unfolding pop_values
op_push_func = do
  addr ← read_int64
  type ← read_byte
  capture_count ← read_byte
  captures ← pop_values capture_count []
  address ← new_object (λ h. allocate_closure h addr type captures)
  vm_push (record { type = type; bits = address })

-- Here too the error does not end the instruction, and the try frame is pushed behind it.
unfoldable pub op_try : M (Unit {0})
op_try = do
  handler ← read_int32
  vm ← get_vm
  if leb try_stack_max (length vm.try_stack)
      then runtime_error (codes "Try stack overflow\n")
      else done
  modify λ s. record s {
    try_stack =
        record { handler_addr = handler; stack_ptr = length s.stack; frame_ptr = length s.frames }
        ∷ s.try_stack;
  }

abbrev pub tail {ℓ} : {A : Type ℓ} → List A → List A
tail [] = []
tail (x ∷ xs) = xs

unfoldable pub op_end_try : M (Unit {0})
op_end_try = modify (λ vm. record vm { try_stack = tail vm.try_stack })

module _ ⦃p : Platform⦄ where
  -- `OP_THROW` with the value at hand, by the try stack.
  pub throw_to : Value → List TryFrame → M (Unit {0})
  throw_to err [] = do
    s ← native_str err
    chars ← chars_of s
    write_output (chars ++ codes "\n")
    release_value s
    halt_with (exits 1)
  throw_to err (t ∷ rest) = do
    modify (λ vm. record vm { try_stack = rest })
    unwind_to t
    vm_push err
    jump t.handler_addr

  abbrev pub throw_here : Value → M (Unit {0})
  throw_here err vm = throw_to err vm.try_stack vm

  unfoldable pub op_throw : M (Unit {0})
  unfolding throw_to
  op_throw = do err ← vm_pop; throw_here err
