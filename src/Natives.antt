-- ===== src/Natives.antt =====
-- The native functions of src/vm.c.
pub mod Str
pub mod Collections
pub mod Numbers
