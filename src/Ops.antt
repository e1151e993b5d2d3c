-- ===== src/Ops.antt =====
-- The instructions of `vm_run` of src/vm.c, by groups.
pub mod Arith
pub mod Control
pub mod Objects
pub mod Enums
pub mod Channels
pub mod Invoke
