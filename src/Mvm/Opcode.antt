-- ===== src/Mvm/Opcode.antt =====
-- src/mvm_bytecode.h, and the opcode tables of src/mvm_chunk.c: operand widths and instruction
-- lengths. An opcode is a byte.
pub mod Names
use myon.Base.{ℕ, ◌+◌, ◌*◌, Bool, false, ◌||◌, List, [], ◌∷◌, ◌==◌, if◌then◌else◌, Bytes, get_or}

abbrev pub mop_nop : ℕ
mop_nop = 0x00

abbrev pub mop_push_const : ℕ
mop_push_const = 0x01

abbrev pub mop_jump : ℕ
mop_jump = 0x40

abbrev pub mop_jump_if_false : ℕ
mop_jump_if_false = 0x41

abbrev pub mop_jump_if_true : ℕ
mop_jump_if_true = 0x42

abbrev pub mop_make_closure : ℕ
mop_make_closure = 0x50

-- Does a list of opcodes hold this one?
pub one_of : ℕ → List ℕ → Bool
one_of op [] = false
one_of op (x ∷ xs) = op == x || one_of op xs

-- The groups of case labels of `mvm_opcode_operand_bytes`.
abbrev pub no_operand : List ℕ
no_operand =
    0x00 ∷ 0x02 ∷ 0x03 ∷ 0x04 ∷ 0x05 ∷ 0x06 ∷ 0x10 ∷ 0x11 ∷ 0x12 ∷ 0x13 ∷ 0x18 ∷ 0x19 ∷ 0x1A ∷ 0x1B
    ∷ 0x1C ∷ 0x1D ∷ 0x28 ∷ 0x29 ∷ 0x62 ∷ 0x63 ∷ 0x64 ∷ 0x80 ∷ 0x81 ∷ 0x82 ∷ 0x83 ∷ 0x84 ∷ 0x85
    ∷ 0xA1 ∷ 0x56 ∷ []

abbrev pub one_u16 : List ℕ
one_u16 =
    0x01 ∷ 0x30 ∷ 0x31 ∷ 0x32 ∷ 0x33 ∷ 0x53 ∷ 0x54 ∷ 0x40 ∷ 0x41 ∷ 0x42 ∷ 0x60 ∷ 0x61 ∷ 0x70 ∷ 0x71
    ∷ 0x72 ∷ []

abbrev pub one_u8 : List ℕ
one_u8 = 0x51 ∷ 0x52 ∷ 0xA0 ∷ 0x55 ∷ []

abbrev pub u16_and_u8 : List ℕ
u16_and_u8 = 0x73 ∷ 0x90 ∷ []

-- The negative answers -2 (variable length) and -1 (unknown opcode), and a width.
pub data OperandBytes : Type 0 where
  width : ℕ → OperandBytes
  variable unknown : OperandBytes

unfoldable pub mvm_opcode_operand_bytes : ℕ → OperandBytes
unfolding one_of
mvm_opcode_operand_bytes op =
    if one_of op no_operand
    then width 0
    else if one_of op one_u16
    then width 2
    else if one_of op one_u8
    then width 1
    else if one_of op u16_and_u8
    then width 3
    else if op == mop_make_closure
    then variable
    else unknown

abbrev instruction_width : OperandBytes → ℕ
instruction_width (width n) = 1 + n
instruction_width variable = 0
instruction_width unknown = 0

-- `code` points at the opcode; a byte past the end reads as 0 here, where C would read on.
unfoldable pub mvm_instruction_len : Bytes → ℕ
unfolding mvm_opcode_operand_bytes
mvm_instruction_len code =
    let op = get_or code 0 0 in
    if op == mop_make_closure
    then 1 + 2 + 1 + get_or code 3 0 * 3
    else instruction_width (mvm_opcode_operand_bytes op)
