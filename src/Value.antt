-- ===== src/Value.antt =====
-- `Value` of src/common.h: a packed type and the eight bytes of the union `as`, as one number. The
-- readers below take from those bytes what the union's members do.
use opo.Base.{ℕ, ◌%◌, ◌^◌, Bool, not, ◌&&◌, ◌||◌, ◌==◌, if◌then◌else◌}
use opo.Kind
use opo.Types.{type_kind, is_func_kind}

pub record Value : Type 0 where
  pub type : ℕ
  pub bits : ℕ

abbrev pub kind : Value → ℕ
kind v = type_kind v.type

abbrev pub void_value : Value
void_value = record { type = Kind.void; bits = 0 }

abbrev pub int_value : ℕ → Value
int_value i = record { type = Kind.int; bits = i }

abbrev pub flt_value : ℕ → Value
flt_value d = record { type = Kind.flt; bits = d }

abbrev pub bool_value : Bool → Value
bool_value b = record { type = Kind.bool; bits = if b then 1 else 0 }

abbrev pub obj_value : ℕ → Value
obj_value address = record { type = Kind.obj; bits = address }

-- `as.b_val`: the lowest byte, as a truth value
abbrev pub b_val : Value → Bool
b_val v = not (v.bits % 2 ^ 8 == 0)

-- `(int)as.i_val` and `as.s_idx`: the low 32 bits
abbrev pub low_int : Value → ℕ
low_int v = v.bits % 2 ^ 32

-- The kinds whose `as.obj` is counted by `retain` and `release`.
unfoldable pub is_counted_kind : ℕ → Bool
is_counted_kind k =
    k == Kind.obj || k == Kind.map || k == Kind.enum || k == Kind.chan || is_func_kind k

-- The test of `retain` and `release`: a counted kind with a pointer that is not NULL.
abbrev pub is_counted : Value → Bool
is_counted v = is_counted_kind (kind v) && not (v.bits == 0)
