-- ===== src/Types/Packing.antt =====
-- `MAKE_TYPE` and the three readers of src/common.h are inverse to one another.
use opo.Base.{ℕ, ◌+◌, ◌*◌, ◌/◌, ◌%◌, ◌^◌, ◌<◌, ◌≡◌, arith, bit_or, ap}
use opo.Base.Bits.{bit_or_join}
use opo.Types.{type_kind, type_sub, type_key, make_type}

pub make_type-sum :
    (kind sub key : ℕ)
    → kind < 2 ^ 8
    → sub < 2 ^ 8
    → key < 2 ^ 8
    → make_type kind sub key ≡ kind + sub * 2 ^ 8 + key * 2 ^ 16
unfolding make_type
make_type-sum kind sub key h k l = omega (
  arith,
  bit_or_join 8 kind sub h,
  ap (λ (x : ℕ). bit_or x (key * 2 ^ 16)) (bit_or_join 8 kind sub h),
  bit_or_join 16 (kind + sub * 2 ^ 8) key (omega arith),
)

-- What is packed is read back.
pub make_type_fields :
    (kind sub key : ℕ)
    → kind < 2 ^ 8
    → sub < 2 ^ 8
    → key < 2 ^ 8
    → (type_kind (make_type kind sub key) ≡ kind)
      × (type_sub (make_type kind sub key) ≡ sub)
      × (type_key (make_type kind sub key) ≡ key)
make_type_fields kind sub key h k l = omega (arith, make_type-sum kind sub key h k l)

-- A type that uses no more than the three fields is packed from them.
pub make_type_of_fields :
    (t : ℕ) → t < 2 ^ 24 → make_type (type_kind t) (type_sub t) (type_key t) ≡ t
make_type_of_fields t h = omega (
  arith,
  make_type-sum (t % 2 ^ 8) (t / 2 ^ 8 % 2 ^ 8) (t / 2 ^ 16 % 2 ^ 8) (omega arith) (omega arith)
      (omega arith),
)
