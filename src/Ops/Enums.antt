-- ===== src/Ops/Enums.antt =====
-- Enum values and the tests of types: the instructions of `vm_run` (src/vm.c) that build them and
-- take them apart.
use opo.Base.Int.{ℤ, pos, negsuc, int32}
use opo.Base.{
  Bool, true, false, not, ◌&&◌, ◌||◌, List, [], ◌∷◌, Option, none, some, ◌==◌, if◌then◌else◌, codes,
}
use opo.Compare.{string_bytes, is_some}
use opo.Heap.{ObjEnum, Object, enum, allocate}
use opo.Kind
use opo.Types.{type_kind, type_sub}
use opo.Value.{Value, kind, b_val, bool_value}
use opo.Vm.{
  M, pure, ◌>>=◌, ◌>>◌, halt_with, undefined, new_object, object_of, retain_value, release_value,
  vm_push, vm_pop, read_byte, read_int32,
}

-- The payload, from the stack where there is one.
abbrev pub take_payload : Bool → M Value
take_payload has_payload =
    if has_payload then vm_pop else pure (record { type = Kind.void; bits = 0 })

unfoldable pub op_enum_variant : M (Unit {0})
op_enum_variant = do
  type ← read_int32
  variant_id ← read_byte
  flag ← read_byte
  payload ← take_payload (not (flag == 0))
  address ← new_object (λ h. allocate h (
      enum (record {
        enum_name = codes "enum";
        variant_name = codes "variant";
        payload = payload;
        has_payload = not (flag == 0);
        variant_index = variant_id;
      })))
  vm_push (record { type = type; bits = address })

-- `vm->stack[vm->stack_ptr - 1]`
pub top_of : List Value → M Value
top_of [] = halt_with undefined
top_of (v ∷ rest) = pure v

abbrev pub peek : M Value
peek vm = top_of vm.stack vm

pub enum_of : Object → Option ObjEnum
enum_of (enum e) = some e
enum_of _ = none

-- `TYPE_KIND(val.type) == VAL_ENUM && val.as.obj->type == OBJ_ENUM`, with the enum.
abbrev pub as_enum : Value → M (Option ObjEnum)
as_enum val = if kind val == Kind.enum then (object_of val >>= λ o. pure (enum_of o)) else pure none

-- `en->variant_index == variant_id`; the word of the code is an int32_t.
pub is_variant : ℤ → Option ObjEnum → Bool
is_variant (pos id) (some e) = e.variant_index == id
is_variant (negsuc n) (some e) = false
is_variant id none = false

unfoldable pub op_check_variant : M (Unit {0})
unfolding top_of enum_of is_variant
op_check_variant = do
  variant_id ← read_int32
  val ← peek
  e ← as_enum val
  vm_push (bool_value (is_variant (int32 variant_id) e))

-- `val.as.obj != NULL && val.as.obj->type == OBJ_STRING`
abbrev pub is_heap_string : Value → M Bool
is_heap_string val =
    if kind val == Kind.obj && not (val.bits == 0)
    then (object_of val >>= λ o. pure (is_some (string_bytes (some o))))
    else pure false

unfoldable pub op_check_type : M (Unit {0})
unfolding top_of
op_check_type = do
  type_kind ← read_byte
  val ← peek
  text ←
      (if kind val == type_kind
        then pure true
        else if type_kind == Kind.str
        then is_heap_string val
        else pure false)
  vm_push (bool_value text)

-- A heap string that is cast to `str` keeps its type.
unfoldable pub op_as_type : M (Unit {0})
op_as_type = do
  target_type ← read_int32
  val ← vm_pop
  keeps ← (if type_kind target_type == Kind.str then is_heap_string val else pure false)
  if keeps then vm_push val else vm_push (record val { type = target_type })

-- An option or a result is true in its second variant, any other enum always.
pub truthy_enum : Value → Option ObjEnum → Bool
truthy_enum val none = false
truthy_enum val (some e) =
    if type_sub val.type == Kind.option_enum_id || type_sub val.type == Kind.result_enum_id
    then not (e.variant_index == 0)
    else true

unfoldable pub truthy : Value → M Bool
unfolding truthy_enum enum_of
truthy val =
    if kind val == Kind.bool
    then pure (b_val val)
    else if kind val == Kind.enum
    then (as_enum val >>= λ e. pure (truthy_enum val e))
    else pure (not (kind val == Kind.void))

unfoldable pub op_is_truthy : M (Unit {0})
unfolding truthy
op_is_truthy = do val ← vm_pop; t ← truthy val; vm_push (bool_value t); release_value val

-- The payload is retained here, and retained again by `vm_push`.
pub push_payload : Option ObjEnum → M (Unit {0})
push_payload none = vm_push (record { type = Kind.void; bits = 0 })
push_payload (some e) = do retain_value e.payload; vm_push e.payload

unfoldable pub op_extract_enum_payload : M (Unit {0})
unfolding push_payload enum_of
op_extract_enum_payload = do val ← vm_pop; e ← as_enum val; push_payload e; release_value val

pub get_payload : Value → Option ObjEnum → M (Unit {0})
get_payload val none = vm_push val
get_payload val (some e) = do retain_value e.payload; vm_push e.payload

unfoldable pub op_get_enum_payload : M (Unit {0})
unfolding get_payload enum_of top_of
op_get_enum_payload = do
  val ← peek
  e ← (if val.bits == 0 then pure none else as_enum val)
  get_payload val e
