-- ===== src/OpCode.antt =====
-- `OpCode` of src/common.h: the instructions and their numbers.
use opo.Base.{ℕ, List, [], ◌∷◌}

pub data OpCode : Type 0 where
  code_halt : OpCode
  code_push_int : OpCode
  code_push_flt : OpCode
  code_push_str : OpCode
  code_push_bool : OpCode
  code_add : OpCode
  code_sub : OpCode
  code_neg : OpCode
  code_mul : OpCode
  code_div : OpCode
  code_mod : OpCode
  code_eq : OpCode
  code_lt : OpCode
  code_gt : OpCode
  code_lte : OpCode
  code_gte : OpCode
  code_and : OpCode
  code_or : OpCode
  code_not : OpCode
  code_print : OpCode
  code_store : OpCode
  code_load : OpCode
  code_jump : OpCode
  code_jump_if_f : OpCode
  code_call : OpCode
  code_call_ptr : OpCode
  code_ret : OpCode
  code_typeof : OpCode
  code_push_func : OpCode
  code_get_member : OpCode
  code_set_member : OpCode
  code_index : OpCode
  code_call_native : OpCode
  code_array : OpCode
  code_struct : OpCode
  code_invoke : OpCode
  code_load_g : OpCode
  code_pop : OpCode
  code_map : OpCode
  code_set_index : OpCode
  code_try : OpCode
  code_end_try : OpCode
  code_throw : OpCode
  code_enum_variant : OpCode
  code_check_variant : OpCode
  code_get_enum_payload : OpCode
  code_extract_enum_payload : OpCode
  code_is_truthy : OpCode
  code_go : OpCode
  code_chan : OpCode
  code_send : OpCode
  code_recv : OpCode
  code_check_type : OpCode
  code_as_type : OpCode

-- The codes in their order, from 0.
abbrev pub op_codes : List OpCode
op_codes =
    code_halt ∷ code_push_int ∷ code_push_flt ∷ code_push_str ∷ code_push_bool ∷ code_add ∷ code_sub
    ∷ code_neg ∷ code_mul ∷ code_div ∷ code_mod ∷ code_eq ∷ code_lt ∷ code_gt ∷ code_lte ∷ code_gte
    ∷ code_and ∷ code_or ∷ code_not ∷ code_print ∷ code_store ∷ code_load ∷ code_jump
    ∷ code_jump_if_f ∷ code_call ∷ code_call_ptr ∷ code_ret ∷ code_typeof ∷ code_push_func
    ∷ code_get_member ∷ code_set_member ∷ code_index ∷ code_call_native ∷ code_array ∷ code_struct
    ∷ code_invoke ∷ code_load_g ∷ code_pop ∷ code_map ∷ code_set_index ∷ code_try ∷ code_end_try
    ∷ code_throw ∷ code_enum_variant ∷ code_check_variant ∷ code_get_enum_payload
    ∷ code_extract_enum_payload ∷ code_is_truthy ∷ code_go ∷ code_chan ∷ code_send ∷ code_recv
    ∷ code_check_type ∷ code_as_type ∷ []

-- The number that the compiler writes for an instruction.
abbrev pub op_number : OpCode → ℕ
op_number code_halt = 0
op_number code_push_int = 1
op_number code_push_flt = 2
op_number code_push_str = 3
op_number code_push_bool = 4
op_number code_add = 5
op_number code_sub = 6
op_number code_neg = 7
op_number code_mul = 8
op_number code_div = 9
op_number code_mod = 10
op_number code_eq = 11
op_number code_lt = 12
op_number code_gt = 13
op_number code_lte = 14
op_number code_gte = 15
op_number code_and = 16
op_number code_or = 17
op_number code_not = 18
op_number code_print = 19
op_number code_store = 20
op_number code_load = 21
op_number code_jump = 22
op_number code_jump_if_f = 23
op_number code_call = 24
op_number code_call_ptr = 25
op_number code_ret = 26
op_number code_typeof = 27
op_number code_push_func = 28
op_number code_get_member = 29
op_number code_set_member = 30
op_number code_index = 31
op_number code_call_native = 32
op_number code_array = 33
op_number code_struct = 34
op_number code_invoke = 35
op_number code_load_g = 36
op_number code_pop = 37
op_number code_map = 38
op_number code_set_index = 39
op_number code_try = 40
op_number code_end_try = 41
op_number code_throw = 42
op_number code_enum_variant = 43
op_number code_check_variant = 44
op_number code_get_enum_payload = 45
op_number code_extract_enum_payload = 46
op_number code_is_truthy = 47
op_number code_go = 48
op_number code_chan = 49
op_number code_send = 50
op_number code_recv = 51
op_number code_check_type = 52
op_number code_as_type = 53
