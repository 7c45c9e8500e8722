-- ===== src/Vm.antt =====
-- src/mvm_vm.c: the stack machine.
pub mod State
pub mod Opcodes
pub mod Calls
pub mod Variables
pub mod Run
pub mod Limits
pub mod Frames
pub mod Sharing
mod Tests
