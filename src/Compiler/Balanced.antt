-- ===== src/Compiler/Balanced.antt =====
-- src/mvm_compiler.c: what every part of the compiler leaves as it found it.
pub mod Rules
pub mod Calls
pub mod Scopes
pub mod Blocks
pub mod Loops
pub mod For
pub mod Assign
pub mod Functions
pub mod Whole
pub mod Bounds
