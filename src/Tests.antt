-- ===== src/Tests.antt =====
-- Concrete inputs for the components, and the theorems at these inputs: the text, maps, channels
-- and machines of small programs of the language.
mod Parsing
mod Lexing
mod Tables
mod Channels
mod Machine
mod Words
use opo.Base.{ℕ, ◌+◌, Bool, ◌==◌, leb, ltb, List, [], ◌∷◌, codes, length, replicate}
use opo.Base.Int.{negsuc}
use opo.Heap.{Heap}
use opo.Ops.Invoke.{Foreign}
use opo.Platform.{Platform}
use opo.Value.{Value, int_value, void_value}
use opo.Vm.{Vm, undefined, halt_with}
use opo.Vm.Init.{blank}

-- Whole numbers in the place of doubles.
abbrev pub whole_numbers : Platform
whole_numbers = record {
  flt_add = λ a b. a + b;
  flt_sub = λ a b. a;
  flt_mul = λ a b. a;
  flt_div = λ a b. a;
  flt_neg = λ a. a;
  flt_eq = λ a b. a == b;
  flt_lt = ltb;
  flt_le = leb;
  flt_of_int = λ a. a;
  int_of_flt = λ a. a;
  format_flt = λ a. codes "0";
  format_pointer = λ a. codes "0x0";
  flt_sqrt = λ a. a;
  flt_sin = λ a. a;
  flt_cos = λ a. a;
  flt_tan = λ a. a;
  flt_log = λ a. a;
  strtoll = λ s. (0, length s);
  strtod = λ s. (0, length s);
}

abbrev pub no_foreign : Foreign
no_foreign = record { call = λ i args. halt_with undefined }

abbrev pub no_objects : Heap
no_objects = record { cells = [] }

-- A machine without natives, with some code.
abbrev pub machine : List ℕ → Vm
machine code = blank code [] [] no_objects
