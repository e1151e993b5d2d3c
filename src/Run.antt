-- ===== src/Run.antt =====
-- `vm_run` of src/vm.c: the loop that reads an instruction and
-- carries it out.
use opo.Base.{ℕ, zero, suc, Option, none, some, get_elem?}
use opo.OpCode.{
  OpCode, op_codes, code_halt, code_push_int, code_push_flt, code_push_str, code_push_bool,
  code_add, code_sub, code_neg, code_mul, code_div, code_mod, code_eq, code_lt, code_gt, code_lte,
  code_gte, code_and, code_or, code_not, code_print, code_store, code_load, code_jump,
  code_jump_if_f, code_call, code_call_ptr, code_ret, code_typeof, code_push_func, code_get_member,
  code_set_member, code_index, code_call_native, code_array, code_struct, code_invoke, code_load_g,
  code_pop, code_map, code_set_index, code_try, code_end_try, code_throw, code_enum_variant,
  code_check_variant, code_get_enum_payload, code_extract_enum_payload, code_is_truthy, code_go,
  code_chan, code_send, code_recv, code_check_type, code_as_type,
}
use opo.Ops.Arith.{
  op_push_int, op_push_flt, op_push_str, op_push_bool, op_add, op_sub, op_neg, op_mul, op_div,
  op_mod, op_eq, op_lt, op_gt, op_lte, op_gte, op_and, op_or, op_not, op_print,
}
use opo.Ops.Channels.{op_chan, op_send, op_recv}
use opo.Ops.Control.{
  op_store, op_load, op_load_g, op_pop, op_jump, op_jump_if_f, op_call, op_ret, op_typeof,
  op_push_func, op_try, op_end_try, op_throw,
}
use opo.Ops.Enums.{
  op_enum_variant, op_check_variant, op_check_type, op_as_type, op_is_truthy,
  op_extract_enum_payload, op_get_enum_payload,
}
use opo.Ops.Invoke.{Foreign, op_invoke, op_go}
use opo.Ops.Objects.{
  op_get_member, op_set_member, op_index, op_set_index, op_array, op_struct, op_map,
}
use opo.Platform.{Platform}
use opo.Vm.{M, halted, exits, done, ◌>>=◌, ◌>>◌, halt_with, read_byte}

module _ ⦃p : Platform⦄ ⦃f : Foreign⦄ where
  -- The `switch`; a code without a case ends the process.
  unfoldable pub execute : OpCode → M (Unit {0})
  execute code_halt = halt_with halted
  execute code_push_int = op_push_int
  execute code_push_flt = op_push_flt
  execute code_push_str = op_push_str
  execute code_push_bool = op_push_bool
  execute code_add = op_add
  execute code_sub = op_sub
  execute code_neg = op_neg
  execute code_mul = op_mul
  execute code_div = op_div
  execute code_mod = op_mod
  execute code_eq = op_eq
  execute code_lt = op_lt
  execute code_gt = op_gt
  execute code_lte = op_lte
  execute code_gte = op_gte
  execute code_and = op_and
  execute code_or = op_or
  execute code_not = op_not
  execute code_print = op_print
  execute code_store = op_store
  execute code_load = op_load
  execute code_jump = op_jump
  execute code_jump_if_f = op_jump_if_f
  execute code_call = op_call
  execute code_call_ptr = halt_with (exits 1)
  execute code_ret = op_ret
  execute code_typeof = op_typeof
  execute code_push_func = op_push_func
  execute code_get_member = op_get_member
  execute code_set_member = op_set_member
  execute code_index = op_index
  execute code_call_native = halt_with (exits 1)
  execute code_array = op_array
  execute code_struct = op_struct
  execute code_invoke = op_invoke
  execute code_load_g = op_load_g
  execute code_pop = op_pop
  execute code_map = op_map
  execute code_set_index = op_set_index
  execute code_try = op_try
  execute code_end_try = op_end_try
  execute code_throw = op_throw
  execute code_enum_variant = op_enum_variant
  execute code_check_variant = op_check_variant
  execute code_get_enum_payload = op_get_enum_payload
  execute code_extract_enum_payload = op_extract_enum_payload
  execute code_is_truthy = op_is_truthy
  execute code_go = op_go
  execute code_chan = op_chan
  execute code_send = op_send
  execute code_recv = op_recv
  execute code_check_type = op_check_type
  execute code_as_type = op_as_type

  unfoldable pub dispatch : Option OpCode → M (Unit {0})
  dispatch none = halt_with (exits 1)
  dispatch (some code) = execute code

  -- One turn of the loop.
  unfoldable pub step : M (Unit {0})
  unfolding dispatch execute
  step = do instruction ← read_byte; dispatch (get_elem? op_codes instruction)

  -- The first `n` turns, as far as the machine goes.
  unfoldable pub run : ℕ → M (Unit {0})
  unfolding step
  run zero = done
  run (suc n) = do step; run n
