-- ===== src/Compiler/Correct.antt =====
-- The code of an expression, src/mvm_compiler.c, run by the machine, src/mvm_vm.c, against
-- the evaluation of the expression, src/interpreter.c.
pub mod Machine
pub mod Pieces
pub mod Operators
pub mod Jumps
pub mod Expressions
pub mod Emission
pub mod Results
pub mod Compound
pub mod Leaves
pub mod Whole
