-- ===== src/Platform.antt =====
-- What src/vm.c takes from the C implementation: arithmetic on `double`, whose 64-bit patterns are
-- numbers here, and the text that `printf` makes of one.
use opo.Base.{ℕ, Bool, List}

pub record Platform : Type 0 where
  pub flt_add : ℕ → ℕ → ℕ
  pub flt_sub : ℕ → ℕ → ℕ
  pub flt_mul : ℕ → ℕ → ℕ
  pub flt_div : ℕ → ℕ → ℕ
  pub flt_neg : ℕ → ℕ
  pub flt_eq : ℕ → ℕ → Bool
  pub flt_lt : ℕ → ℕ → Bool
  pub flt_le : ℕ → ℕ → Bool
  -- `(double)i` and `(int64_t)d`
  pub flt_of_int : ℕ → ℕ
  pub int_of_flt : ℕ → ℕ
  -- `"%g"` and `"%p"`
  pub format_flt : ℕ → List ℕ
  pub format_pointer : ℕ → List ℕ
  -- `sqrt`, `sin`, `cos`, `tan` and `log`
  pub flt_sqrt : ℕ → ℕ
  pub flt_sin : ℕ → ℕ
  pub flt_cos : ℕ → ℕ
  pub flt_tan : ℕ → ℕ
  pub flt_log : ℕ → ℕ
  -- `strtoll` to the base 10 and `strtod`: the number, and how many bytes it takes
  pub strtoll : List ℕ → ℕ × ℕ
  pub strtod : List ℕ → ℕ × ℕ
