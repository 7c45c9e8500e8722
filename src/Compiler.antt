-- ===== src/Compiler.antt =====
-- src/mvm_compiler.c: from the syntax tree to bytecode.
pub mod State
pub mod Scopes
pub mod Opcodes
pub mod Structs
pub mod Calls
pub mod Assign
pub mod Loops
pub mod Functions
pub mod Tree
pub mod Program
pub mod Correct
pub mod Balanced
mod Tests
