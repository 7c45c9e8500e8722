-- ===== src/Interp.antt =====
-- src/interpreter.c: the operators.
pub mod Ints
pub mod Operators
pub mod Arithmetic
pub mod Integers
pub mod Equality
pub mod Eval
mod Tests
