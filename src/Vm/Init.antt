-- ===== src/Vm/Init.antt =====
-- `vm_init` and `vm_define_native` of src/vm.c: a machine at the start, with the native functions
-- in its first locals.
use opo.Base.{ℕ, zero, suc, ◌+◌, false, List, [], ◌∷◌, ◌++◌, some, set, length, replicate}
use opo.Base.Int.{pos, negsuc}
use opo.Heap.{Heap, native}
use opo.Value.{obj_value, void_value}
use opo.Vm.{Vm, locals_max}

-- Natives are numbered here as in the table of `vm_init`, where each has the local of its number.
abbrev pub natives_count : ℕ
natives_count = 45

-- A native has a count of 1 from the start; the local that held something else is not released.
unfoldable pub vm_define_native : Vm → ℕ → Vm
vm_define_native vm index = record vm {
  heap = record {
    cells = vm.heap.cells ++ some (record { object = native index; ref_count = pos 1 }) ∷ [];
  };
  locals = set vm.locals index (obj_value (suc (length vm.heap.cells)));
}

-- `n` natives, from a number on.
unfoldable pub define_natives : ℕ → ℕ → Vm → Vm
unfolding vm_define_native
define_natives zero index vm = vm
define_natives (suc n) index vm = define_natives n (index + 1) (vm_define_native vm index)

-- The heap is what the process has allocated so far; the output is this machine's.
abbrev pub blank : List ℕ → List (List ℕ) → List (List ℕ) → Heap → Vm
blank code strings args heap = record {
  code = code;
  ip = 0;
  stack = [];
  locals = replicate locals_max void_value;
  frames = record { return_addr = negsuc 0; locals_offset = 0 } ∷ [];
  try_stack = [];
  strings = strings;
  args = args;
  panic = false;
  heap = heap;
  output = [];
  spawned = [];
}

unfoldable pub vm_init : List ℕ → List (List ℕ) → List (List ℕ) → Heap → Vm
unfolding define_natives
vm_init code strings args heap = define_natives natives_count 0 (blank code strings args heap)
