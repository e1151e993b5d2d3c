-- ===== src/Lib.antt =====
-- Opo: a small typed language with a compiler to byte code and a virtual machine, in C.
--
-- The program: src/lexer.c cuts a text into tokens; src/compiler.c parses them, checks types and
-- emits byte code into a chunk; src/vm.c runs the code on an operand stack with call frames, try
-- frames, a heap of reference-counted objects, hash maps, and channels between threads.
--
-- Lexer.antt and Lexer/ model src/lexer.h and src/lexer.c: the cursor, `skip_whitespace`, the
-- keyword switch of `identifier_type`, and `lexer_next_token`. A text is a list of bytes, a pointer
-- into it an offset, and a read at its end gives 0.
-- Kind.antt, Types.antt and Value.antt model src/common.h: the kinds, the packed types with
-- `type_to_string` of src/vm.c, and `Value`, whose union is a number of eight bytes.
-- Heap.antt models the objects of src/common.h and src/vm.h, the `allocate_…` functions, `retain`,
-- `release` and `free_object` of src/vm.c. A pointer is one more than the index of a cell, NULL is
-- 0, and a freed cell is empty and is not used again.
-- Compare.antt models `is_string`, `get_string_ptr`, `hash_value` and `values_equal` of src/vm.c.
-- Table.antt and Table/ model `map_set`, `map_get`, and what `native_delete` and `native_keys` do
-- to a map. The reference counts that change are a list of events, which the machine performs.
-- Chan.antt and Chan/ model what `OP_SEND`, `OP_RECV` and `native_close` do to a channel. A turn is
-- what a thread does under the mutex of a channel between two waits.
-- Vm.antt and Vm/ model the machine of src/vm.h and src/vm.c: its state, `vm_push`, `vm_pop`,
-- `runtime_error` with the unwinding, `read_int32`, `read_int64` and `vm_init`. A function of the
-- machine takes its state and returns the next one with a value, or an `Exit`.
-- Ops.antt and Ops/ model the cases of `vm_run` with `begin_call` and `thread_routine`; Run.antt
-- models the loop and the switch. An instruction that has to wait at a channel stops with its
-- operands, and `resume` of Ops/Channels.antt goes on with them.
-- Natives.antt and Natives/ model the native functions of src/vm.c that work on values.
-- Compiler.antt and Compiler/ model the functions of src/compiler.c that write to a chunk, and
-- `is_assignable` with `unify_inferred_types`; OpCode.antt numbers the instructions of src/common.h.
-- Parser.antt and Parser/ model the rest of src/compiler.c. A function of the parser takes the
-- state, which has all the variables of the file, and returns the next one with a value, or stops.
-- `Calls` has the functions that call one another, `parse_precedence`, `block` and `statement`, and
-- Parser/Grammar.antt ties them together; Parser/Rules.antt has the table of the prefix and infix
-- functions, which are in Values, Operators, Invoke, Access, Variable, Identifier and Assignment;
-- Functions and Bodies have `parse_function`, Statement and Match `statement`, Predeclare the first
-- pass over a module, Modules `compile_internal` with the imports, and Compile `compiler_compile`.
-- Base.antt and Base/ have the shared helpers. Tests.antt and Tests/ apply the theorems.
--
-- What is taken as given. Platform.antt has the arithmetic of `double`, on bit patterns, with the
-- functions of the C library that read and print numbers. `Foreign` of Ops/Invoke.antt stands for
-- the natives on files, the network, processes, clocks and foreign code, and `Files` of
-- Parser/Modules.antt for the reading of an imported file.
--
-- Bounds. Sizes of the machine are those of src/vm.h. The loops of the lexer have as much fuel as
-- there are bytes. `release` has a level for every cell, `type_to_string` three levels, and
-- `map_set` two, one of them for its own resize; the theorems below show that this is enough. A
-- search in a map has a step for every entry and ends at `spins` only where the code would search
-- for ever. `native_str` has a level for every cell, since a deeper value contains itself.
-- The loops and the recursion of the parser have a bound on their rounds, and stop at
-- `out_of_rounds` behind it; Parser/Ends.antt and the files below it have, for types, expressions,
-- statements and functions, a bound that grows with the text. Such a function can still come to an
-- access that C leaves undefined, where the model stops: the C code may go on from there without end,
-- as at the parameters of a function that the text does not close. For the first pass and the modules
-- no bound is given.
--
-- Not modelled: src/main.c and the JSON natives; races between threads other than at channels; the
-- text on the error output; and, in signed arithmetic, anything but the wrap-around of the machines
-- in use. What C leaves undefined is the exit `undefined` where the machine or the parser can tell.
-- `release` of an object that is freed does nothing here, where C would read freed memory, and a
-- reference count is an integer that does not wrap. The tests for a NULL map in `map_get` and for a
-- NULL machine in `hash_value` are left out, since every caller passes one.
pub mod Base
pub mod Lexer
pub mod Kind
pub mod Types
pub mod Platform
pub mod Value
pub mod Heap
pub mod Compare
pub mod Table
pub mod Vm
pub mod Natives
pub mod Chan
pub mod Compiler
pub mod Ops
pub mod Run
pub mod Tests
pub mod OpCode
pub mod Parser
