-- ===== src/Compiler/Opcodes.antt =====
-- src/mvm_bytecode.h: the instructions that the compiler emits, besides those of Mvm/Opcode and
-- Vm/Opcodes.
use myon.Base.{ℕ}

abbrev pub mop_await : ℕ
mop_await = 0x56

abbrev pub mop_new_array : ℕ
mop_new_array = 0x60

abbrev pub mop_new_map : ℕ
mop_new_map = 0x61

abbrev pub mop_index_get : ℕ
mop_index_get = 0x63

abbrev pub mop_index_set : ℕ
mop_index_set = 0x64

abbrev pub mop_new_struct : ℕ
mop_new_struct = 0x70

abbrev pub mop_get_field : ℕ
mop_get_field = 0x71

abbrev pub mop_set_field : ℕ
mop_set_field = 0x72

abbrev pub mop_invoke : ℕ
mop_invoke = 0x73

abbrev pub mop_str_concat : ℕ
mop_str_concat = 0x80

abbrev pub mop_to_str : ℕ
mop_to_str = 0x81

abbrev pub mop_cast_str : ℕ
mop_cast_str = 0x82

abbrev pub mop_cast_int : ℕ
mop_cast_int = 0x83

abbrev pub mop_cast_char : ℕ
mop_cast_char = 0x84

abbrev pub mop_make_error : ℕ
mop_make_error = 0x85

abbrev pub mop_call_native : ℕ
mop_call_native = 0x90

abbrev pub mop_unpack : ℕ
mop_unpack = 0xA0

abbrev pub mop_check_not_nil : ℕ
mop_check_not_nil = 0xA1
