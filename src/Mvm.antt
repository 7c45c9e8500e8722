-- ===== src/Mvm.antt =====
-- src/mvm_chunk.h: the compiled module, its chunks and its constant pool.
-- A growable array with its count is a list; capacities are not modelled. The `captured` bitmap is
-- the list of its `captured_len` bytes, and a NULL bitmap is the empty list.
pub mod Opcode
pub mod Pool
pub mod Emit
pub mod Writer
pub mod Reader
pub mod RoundTrip
mod Tests
use myon.Base.{ℕ, Bool, List, Option, Bytes}
use myon.Base.Words.{ℤ}
use myon.Types.{TypeSpec}

-- One row of the line table: the bytecode offset at which a source line starts.
pub record LineEntry : Type 0 where
  pub code_off : ℕ
  pub line : ℕ

pub record Chunk : Type 0 where
  pub name : Bytes
  pub num_params : ℕ
  pub num_locals : ℕ
  pub ret_count : ℕ
  pub is_async : ℕ
  pub captured : Bytes
  pub code : Bytes
  pub lines : List LineEntry

-- A constant with its tag. A `double` is its 64-bit pattern.
pub data ConstEntry : Type 0 where
  int : ℤ → ConstEntry
  float : ℕ → ConstEntry
  str : Bytes → ConstEntry
  bool : Bool → ConstEntry
  nil : ConstEntry
  typespec : TypeSpec → ConstEntry

pub record Module : Type 0 where
  pub consts : List ConstEntry
  pub natives : List Bytes
  pub chunks : List Chunk
  pub entry_chunk : ℤ
  pub src_mtime : ℤ
  pub src_size : ℕ
  pub src_hash : Bytes
  pub src_path : Option Bytes
