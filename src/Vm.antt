-- ===== src/Vm.antt =====
-- The virtual machine of src/vm.h and src/vm.c: its state, the operand stack, call and try frames,
-- `runtime_error` with its unwinding, and the readers of the code. A fixed array with a fill count
-- is a list: the operand stack, the frames and the try frames have their tops first.
pub mod Init
pub mod Unwind
pub mod Message
use opo.Base.{
  ℕ, zero, suc, ◌+◌, ◌-◌, ◌*◌, ◌/◌, ◌%◌, ◌^◌, Bool, true, false, List, [], ◌∷◌, ◌++◌, Option, none,
  some, ◌==◌, ltb, leb, if◌then◌else◌, get_elem?, get_or, set, take, length, codes, bit_or,
}
use opo.Base.Int.{ℤ, pos, negsuc}
use opo.Heap.{Heap, retain, release, allocate_string, Object, object_at, set_object}
use opo.Value.{Value, void_value, obj_value}

pub record CallFrame : Type 0 where
  pub return_addr : ℤ
  pub locals_offset : ℕ

pub record TryFrame : Type 0 where
  pub handler_addr : ℕ
  pub stack_ptr : ℕ
  pub frame_ptr : ℕ

-- What `OP_GO` hands to a new thread.
pub record ThreadArgs : Type 0 where
  pub callable : Value
  pub args : List Value

-- `struct VM`, with the heap that it works on, what it has written to the standard output, and the
-- threads that it has started.
pub record Vm : Type 0 where
  pub code : List ℕ
  pub ip : ℕ
  pub stack : List Value
  pub locals : List Value
  pub frames : List CallFrame
  pub try_stack : List TryFrame
  pub strings : List (List ℕ)
  pub args : List (List ℕ)
  pub panic : Bool
  pub heap : Heap
  pub output : List ℕ
  pub spawned : List ThreadArgs

abbrev pub stack_max : ℕ
stack_max = 256

abbrev pub locals_per_frame : ℕ
locals_per_frame = 48

abbrev pub frames_max : ℕ
frames_max = 64

abbrev pub locals_max : ℕ
locals_max = frames_max * locals_per_frame

abbrev pub try_stack_max : ℕ
try_stack_max = 16

-- Why `vm_run` goes no further: `OP_HALT`; a return from the outermost frame; `exit` with a status;
-- a wait on a channel, for a thread inside `OP_SEND` or `OP_RECV`; or what C leaves undefined.
pub data Exit : Type 0 where
  halted : Exit
  returned : Exit
  exits : ℕ → Exit
  waits_to_send : Value → Value → Exit
  waits_for_taker : Value → Value → Exit
  waits_to_receive : Value → Exit
  undefined : Exit

pub data Result {ℓ} (A : Type ℓ) : Type ℓ where
  ok : A → Vm → Result A
  stop : Exit → Vm → Result A

abbrev pub M : Type 0 → Type 0
M A = Vm → Result A

abbrev pub pure : {A : Type 0} → A → M A
pure a vm = ok a vm

abbrev pub bind : {A B : Type 0} → Result A → (A → M B) → Result B
bind (ok a vm) f = f a vm
bind (stop e vm) f = stop e vm

infixl 5 ◌>>=◌ ◌>>◌
abbrev pub ◌>>=◌ : {A B : Type 0} → M A → (A → M B) → M B
◌>>=◌ m f vm = bind (m vm) f

abbrev pub ◌>>◌ : {B : Type 0} → M (Unit {0}) → M B → M B
m >> k = m >>= λ _. k

abbrev pub halt_with : {A : Type 0} → Exit → M A
halt_with e vm = stop e vm

-- The value of an option, or what C leaves undefined.
abbrev pub require : {A : Type 0} → Option A → M A
require none vm = stop undefined vm
require (some a) vm = ok a vm

abbrev pub done : M (Unit {0})
done = pure tt

-- A change of the state.
abbrev pub modify : (Vm → Vm) → M (Unit {0})
modify f vm = ok tt (f vm)

abbrev pub with_heap : (Heap → Heap) → M (Unit {0})
with_heap f = modify (λ vm. record vm { heap = f vm.heap })

abbrev pub retain_value : Value → M (Unit {0})
retain_value v = with_heap (λ h. retain h v)

abbrev pub release_value : Value → M (Unit {0})
release_value v = with_heap (λ h. release h v)

-- An allocation, with the address that it gives.
abbrev pub new_object : (Heap → ℕ × Heap) → M ℕ
new_object make vm = let (address, h) = make vm.heap in ok address (record vm { heap = h })

abbrev pub new_string : List ℕ → M ℕ
new_string chars = new_object (λ h. allocate_string h chars)

-- The object behind a pointer; NULL and a freed cell are undefined.
abbrev pub object_of : Value → M Object
object_of v vm = require (object_at vm.heap v.bits) vm

abbrev pub write_object : Value → Object → M (Unit {0})
write_object v o = with_heap (λ h. set_object h v.bits o)

abbrev pub write_output : List ℕ → M (Unit {0})
write_output text vm = ok tt (record vm { output = vm.output ++ text })

unfoldable pub vm_push : Value → M (Unit {0})
vm_push v vm =
    if leb stack_max (length vm.stack)
    then stop (exits 1) vm
    else ok tt (record vm { heap = retain vm.heap v; stack = v ∷ vm.stack })

unfoldable pub pop_from : List Value → M Value
pop_from [] vm = stop (exits 1) vm
pop_from (v ∷ rest) vm = ok v (record vm { stack = rest })

unfoldable pub vm_pop : M Value
unfolding pop_from
vm_pop vm = pop_from vm.stack vm

-- `release(vm_pop(vm))`, down to a fill of the stack.
unfoldable pub drop_to : ℕ → List Value → Heap → List Value × Heap
drop_to target [] h = ([], h)
drop_to target (v ∷ rest) h =
    let lower = drop_to target rest (release h v) in
    if ltb target (suc (length rest)) then lower else (v ∷ rest, h)

-- The locals of one frame, released and made void: `n` of them, from an index on.
unfoldable pub clear_locals : ℕ → ℕ → List Value → Heap → List Value × Heap
clear_locals zero i locals h = (locals, h)
clear_locals (suc n) i locals h =
    clear_locals n (i + 1) (set locals i void_value) (release h (get_or locals i void_value))

-- The frames above a fill of the frame stack, with their locals.
unfoldable pub unwind_frames :
    ℕ → List CallFrame → List Value → Heap → List CallFrame × List Value × Heap
unfolding clear_locals
unwind_frames target [] locals h = ([], locals, h)
unwind_frames target (f ∷ rest) locals h =
    let (locals', h') = clear_locals locals_per_frame f.locals_offset locals h in
    let lower = unwind_frames target rest locals' h' in
    if ltb target (suc (length rest)) then lower else (f ∷ rest, locals, h)

-- To the handler of a try frame that has just been taken off, with nothing pushed yet.
unfoldable pub unwind_to : TryFrame → M (Unit {0})
unfolding drop_to unwind_frames
unwind_to t vm =
    let (stack, h) = drop_to t.stack_ptr vm.stack vm.heap in
    let (frames, locals, h') = unwind_frames t.frame_ptr vm.frames vm.locals h in
    ok tt (record vm { stack = stack; frames = frames; locals = locals; heap = h' })

abbrev pub jump : ℕ → M (Unit {0})
jump addr vm = ok tt (record vm { ip = addr })

-- The two ends of `runtime_error`, by the try stack.
pub raise : Value → List TryFrame → M (Unit {0})
unfolding unwind_to vm_push
raise err [] = do release_value err; halt_with (exits 1)
raise err (t ∷ rest) = do
  modify (λ vm. record vm { try_stack = rest })
  unwind_to t
  vm_push err
  jump t.handler_addr
  release_value err

pub raise_here : Value → M (Unit {0})
unfolding raise
raise_here err vm = raise err vm.try_stack vm

-- `buf[1024]`, with its NUL
abbrev pub message_max : ℕ
message_max = 1023

-- `runtime_error`, with its formatted message, which `vsnprintf` cuts. What it prints before `exit`
-- is not modelled.
unfoldable pub runtime_error : List ℕ → M (Unit {0})
unfolding raise_here
runtime_error message = do
  address ← new_string (take message_max message)
  retain_value (obj_value address)
  modify (λ vm. record vm { panic = true })
  raise_here (obj_value address)

-- `vm->code[vm->ip++]`
unfoldable pub read_byte : M ℕ
read_byte vm =
    bind (require (get_elem? vm.code vm.ip) vm) λ b vm'. ok b (record vm' { ip = vm'.ip + 1 })

-- `n` bytes, the lowest first, from bit `shift` on.
unfoldable pub read_bytes : ℕ → ℕ → ℕ → M ℕ
read_bytes zero shift val = pure val
read_bytes (suc n) shift val = do
  b ← read_byte
  read_bytes n (shift + 8) (bit_or val (b * 2 ^ shift))

-- The words that `read_int32` and `read_int64` return, as bit patterns.
unfoldable pub read_int32 : M ℕ
unfolding read_byte read_bytes
read_int32 = read_bytes 4 0 0

unfoldable pub read_int64 : M ℕ
unfolding read_byte read_bytes
read_int64 = read_bytes 8 0 0
