-- ===== src/Vm/Opcodes.antt =====
-- src/mvm_bytecode.h: the instructions that the machine's model runs, besides those of Mvm/Opcode.
use myon.Base.{ℕ}

abbrev pub mop_pop : ℕ
mop_pop = 0x05

abbrev pub mop_dup : ℕ
mop_dup = 0x06

abbrev pub mop_load_local : ℕ
mop_load_local = 0x30

abbrev pub mop_store_local : ℕ
mop_store_local = 0x31

abbrev pub mop_load_global : ℕ
mop_load_global = 0x32

abbrev pub mop_store_global : ℕ
mop_store_global = 0x33

abbrev pub mop_call : ℕ
mop_call = 0x51

abbrev pub mop_ret : ℕ
mop_ret = 0x52

abbrev pub mop_load_upvalue : ℕ
mop_load_upvalue = 0x53

abbrev pub mop_store_upvalue : ℕ
mop_store_upvalue = 0x54

abbrev pub mop_push_true : ℕ
mop_push_true = 0x02

abbrev pub mop_push_false : ℕ
mop_push_false = 0x03

abbrev pub mop_push_nil : ℕ
mop_push_nil = 0x04

abbrev pub mop_add : ℕ
mop_add = 0x10

abbrev pub mop_sub : ℕ
mop_sub = 0x11

abbrev pub mop_mul : ℕ
mop_mul = 0x12

abbrev pub mop_div : ℕ
mop_div = 0x13

abbrev pub mop_eq : ℕ
mop_eq = 0x18

abbrev pub mop_neq : ℕ
mop_neq = 0x19

abbrev pub mop_lt : ℕ
mop_lt = 0x1A

abbrev pub mop_gt : ℕ
mop_gt = 0x1B

abbrev pub mop_le : ℕ
mop_le = 0x1C

abbrev pub mop_ge : ℕ
mop_ge = 0x1D

abbrev pub mop_neg : ℕ
mop_neg = 0x28

abbrev pub mop_not : ℕ
mop_not = 0x29
