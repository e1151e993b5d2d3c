-- ===== src/Ops/Invoke.antt =====
-- `OP_INVOKE`, `OP_GO` and `thread_routine` of src/vm.c: calls of values, here or in a new thread.
-- The natives on files, the network, processes, clocks and foreign code are a parameter.
pub mod Panic
use opo.Base.{
  ℕ, zero, suc, ◌+◌, ◌-◌, ◌%◌, ◌^◌, Bool, true, false, not, ◌&&◌, ◌||◌, List, [], ◌∷◌, ◌++◌,
  reverse, Option, none, some, ◌==◌, leb, ltb, if◌then◌else◌, length,
}
use opo.Base.Int.{ℤ, pos, negsuc}
use opo.Heap.{Object, native, closure, ObjClosure}
use opo.Kind
use opo.Natives.Collections.{
  native_len, native_append, native_keys, native_delete, native_has, native_ascii, native_char,
  native_error, native_close, object_if,
}
use opo.Natives.Numbers.{
  native_int, native_flt, native_print, native_println, native_math, native_exit,
}
use opo.Natives.Str.{native_str}
use opo.Ops.Control.{begin_call, pop_values, get_vm}
use opo.Platform.{Platform}
use opo.Types.{is_func_kind}
use opo.Value.{Value, kind, void_value, is_counted}
use opo.Vm.Init.{vm_init}
use opo.Vm.{
  Vm, M, ThreadArgs, undefined, exits, pure, done, ◌>>=◌, ◌>>◌, halt_with, modify, require,
  retain_value, release_value, runtime_error, vm_push, vm_pop, read_byte,
}
use opo.Base.Decimal.{decimal}
use opo.Base.{codes}

-- The natives that the model does not have, by their numbers.
pub record Foreign : Type 0 where
  pub call : ℕ → List Value → M Value

-- The top `n` values of the stack, the lowest first: `&vm->stack[vm->stack_ptr - arg_count]`.
unfoldable pub args_on : ℕ → List Value → Option (List Value)
args_on zero stack = some []
args_on (suc n) [] = none
args_on (suc n) (v ∷ rest) = elim (args_on n rest) [ none ↦ none | some vs ↦ some (vs ++ v ∷ []) ]

abbrev pub arguments : ℕ → M (List Value)
arguments n vm = require (args_on n vm.stack) vm

-- `for (…) release(vm_pop(vm))`
pub drop : ℕ → M (Unit {0})
drop zero = done
drop (suc n) = do v ← vm_pop; release_value v; drop n

-- Whether the native that has just returned has raised an error.
abbrev pub panics : M Bool
panics vm = pure vm.panic vm

-- `VAL_FUNC` and the kinds behind it, and `VAL_INT`.
abbrev pub is_callable : Value → Bool
is_callable v = leb Kind.func (kind v) || kind v == Kind.int

pub native_of : Option Object → Option ℕ
native_of (some (native i)) = some i
native_of _ = none

-- A call of a closure goes to its address. A pointer to anything else gives no address of the code,
-- and a number that is not 0 is no pointer.
pub call_object : Object → M (Unit {0})
call_object (closure c) vm = begin_call (c.addr % 2 ^ 32) (pos vm.ip) c.captures vm
call_object _ vm = halt_with undefined vm

abbrev pub call_here : ℕ → M (Unit {0})
call_here addr vm = begin_call addr (pos vm.ip) [] vm

module _ ⦃p : Platform⦄ ⦃f : Foreign⦄ where
  -- `str` as a native: any other number of arguments is an error.
  unfoldable pub str_args : List Value → M Value
  str_args (v ∷ []) = native_str v
  str_args args = do
    runtime_error (codes "str() expects 1 argument, got " ++ decimal (length args))
    pure void_value

  -- The table of `vm_init`.
  unfoldable pub call_native : ℕ → List Value → M Value
  unfolding str_args
  call_native i args =
      if i == 0
      then native_len args
      else if i == 1
      then native_append args
      else if i == 2
      then str_args args
      else if i == 6
      then native_int args
      else if i == 7
      then native_print args
      else if i == 8
      then native_println args
      else if i == 10
      then native_exit args
      else if i == 13
      then native_keys args
      else if i == 14
      then native_delete args
      else if i == 15
      then native_ascii args
      else if i == 16
      then native_char args
      else if i == 17
      then native_has args
      else if i == 18
      then native_error args
      else if i == 20
      then native_math p.flt_sqrt args
      else if i == 21
      then native_math p.flt_sin args
      else if i == 22
      then native_math p.flt_cos args
      else if i == 23
      then native_math p.flt_tan args
      else if i == 24
      then native_math p.flt_log args
      else if i == 25
      then native_flt args
      else if i == 30
      then native_close args
      else f.call i args

  -- The end of a native's call, by the panic that it has left.
  pub native_end : ℕ → Value → Value → Bool → M (Unit {0})
  unfolding drop
  native_end arg_count callable result true = do
    modify (λ vm. record vm { panic = false })
    release_value callable
  native_end arg_count callable result false = do
    retain_value result
    drop arg_count
    vm_push result
    release_value result
    release_value callable

  unfoldable pub invoke_native : ℕ → Value → ℕ → M (Unit {0})
  unfolding native_end call_native args_on
  invoke_native arg_count callable index = do
    args ← arguments arg_count
    result ← call_native index args
    panic ← panics
    native_end arg_count callable result panic

  -- `callable.as.obj != NULL` as a pointer, or 0 as an address.
  pub invoke_code : Value → M (Unit {0})
  unfolding call_object
  invoke_code callable = do
    (if callable.bits == 0
        then call_here 0
        else if kind callable == Kind.int
        then halt_with undefined
        else (object_if true callable >>= λ o. require o >>= call_object))
    release_value callable

  pub invoke : ℕ → Value → Option ℕ → M (Unit {0})
  unfolding invoke_native invoke_code
  invoke arg_count callable (some index) = invoke_native arg_count callable index
  invoke arg_count callable none =
      if is_callable callable then invoke_code callable else halt_with (exits 1)

  unfoldable pub op_invoke : M (Unit {0})
  unfolding invoke native_of
  op_invoke = do
    arg_count ← read_byte
    callable ← vm_pop
    o ← object_if (kind callable == Kind.obj) callable
    invoke arg_count callable (native_of o)

-- `targs->args` has room for 32 values.
unfoldable pub op_go : M (Unit {0})
op_go = do
  arg_count ← read_byte
  callable ← vm_pop
  args ← (if leb arg_count 32 then pop_values arg_count [] else halt_with undefined)
  modify
      λ vm. record vm { spawned = vm.spawned ++ record { callable = callable; args = args } ∷ [] }

-- The machine of a new thread, which shares the code, the constants and the heap.
abbrev pub thread_vm : Vm → Vm
thread_vm vm = vm_init vm.code vm.strings vm.args vm.heap

pub push_all : List Value → M (Unit {0})
push_all [] = done
push_all (v ∷ vs) = do vm_push v; push_all vs

pub release_each : List Value → M (Unit {0})
release_each [] = done
release_each (v ∷ vs) = do release_value v; release_each vs

module _ ⦃p : Platform⦄ ⦃f : Foreign⦄ (vm_run : M (Unit {0})) where
  -- A thread whose callable is a closure with a function's kind, or a number as an address; a
  -- pointer to anything else gives no address of the code.
  pub thread_code : List Value → Option Object → Value → M (Unit {0})
  unfolding push_all
  thread_code args (some (closure c)) callable = do
    begin_call (c.addr % 2 ^ 32) (negsuc 0) c.captures
    push_all args
    vm_run
  thread_code args _ callable = do
    (if is_counted callable
        then halt_with undefined
        else begin_call (callable.bits % 2 ^ 32) (negsuc 0) [])
    push_all args
    vm_run

  pub thread_body : ThreadArgs → Option ℕ → M (Unit {0})
  unfolding thread_code call_native
  thread_body t (some index) = do result ← call_native index t.args; done
  thread_body t none = do
    o ← object_if (is_func_kind (kind t.callable) && not (t.callable.bits == 0)) t.callable
    thread_code t.args o t.callable

  -- The locals and the stack are those that `vm_run` leaves behind.
  abbrev pub thread_cleanup : M (Unit {0})
  thread_cleanup vm = (do release_each vm.locals; release_each (reverse vm.stack)) vm

  -- `thread_routine`, for a `vm_run` that returns.
  unfoldable pub thread_routine : ThreadArgs → M (Unit {0})
  unfolding thread_body native_of release_each
  thread_routine t = do
    o ← object_if (kind t.callable == Kind.obj) t.callable
    thread_body t (native_of o)
    release_value t.callable
    release_each t.args
    thread_cleanup
