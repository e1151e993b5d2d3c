-- ===== src/Kind.antt =====
-- `ValueType` of src/common.h: the kinds of run-time values, by their numbers. To be used
-- qualified, as `Kind.obj`.
use opo.Base.{ℕ}

abbrev pub none : ℕ
none = 0

abbrev pub int : ℕ
int = 1

abbrev pub flt : ℕ
flt = 2

abbrev pub bool : ℕ
bool = 3

abbrev pub str : ℕ
str = 4

abbrev pub void : ℕ
void = 5

abbrev pub func : ℕ
func = 6

abbrev pub func_int : ℕ
func_int = 7

abbrev pub func_flt : ℕ
func_flt = 8

abbrev pub func_bool : ℕ
func_bool = 9

abbrev pub func_str : ℕ
func_str = 10

abbrev pub func_void : ℕ
func_void = 11

abbrev pub obj : ℕ
obj = 12

abbrev pub imp : ℕ
imp = 13

abbrev pub map : ℕ
map = 14

abbrev pub err : ℕ
err = 15

abbrev pub any : ℕ
any = 16

abbrev pub enum : ℕ
enum = 17

abbrev pub chan : ℕ
chan = 18

-- `OPTION_ENUM_ID` and `RESULT_ENUM_ID`, the sub-types of the two built-in enums
abbrev pub option_enum_id : ℕ
option_enum_id = 0xFF

abbrev pub result_enum_id : ℕ
result_enum_id = 0xFE
