-- ===== src/Mvm/Tests.antt =====
-- src/mvm_chunk.c on concrete modules and chunks.
use myon.Base.{
  ℕ, zero, suc, ◌+◌, ◌≤◌, ◌<◌, ◌^◌, ◌≡◌, ◌≢◌, refl, true, some, none, List, [], ◌∷◌, Bytes, length,
  get_or, str_eq, arith, inl,
}
use myon.Base.Text.{codes}
use myon.Base.Words.{pos, negsuc}
use myon.Types.{null, node, type_int, type_array}
use myon.Types
use myon.Mvm.{Chunk, int, str, nil, typespec, Module}
use myon.Mvm.Opcode.Names.{mvm_opcode_name}
use myon.Mvm.Pool.{intern, find_const, same_const, find_native}
use myon.Mvm.Pool.Laws.{IsInterned, Interned, intern-Interned, intern-IsInterned}
use myon.Mvm.Emit.{chunk_emit_loop, chunk_patch_jump, jump_target}
use myon.Mvm.Emit.Jumps.{chunk_patch_jump_lem, chunk_emit_loop_lem, chunk_patch_jump_too_far}
use myon.Mvm.Writer.{mvm_module_write, buf_le, ser_typespec, ser_args, ser_const, ser_chunk}
use myon.Mvm.Reader.Monad.{reader, c_str}
use myon.Mvm.Reader.{mvm_module_read, deser_typespec}
use myon.Mvm.Reader.Sound.{mvm_module_read-once}
use myon.Mvm.Pool.Unique.{times_const, times_name}
use myon.Mvm.Reader.Fuel.{deser_typespec_fuel}
use myon.Mvm.RoundTrip.Chunks.{ChunkFits}
use myon.Mvm.RoundTrip.{ModuleFits, canon_module, mvm_module_read-mvm_module_write}

-- A jump whose operand is at 1, and a body of two bytes.
abbrev jumping : Chunk
jumping = record {
  name = codes "f";
  num_params = 1;
  num_locals = 2;
  ret_count = 1;
  is_async = 0;
  captured = 1 ∷ 0 ∷ [];
  code = 0x41 ∷ 255 ∷ 255 ∷ 0x02 ∷ 0x04 ∷ [];
  lines = record { code_off = 0; line = 7 } ∷ record { code_off = 3; line = 8 } ∷ [];
}

abbrev tiny : Module
tiny = record {
  consts =
      int (negsuc 4)
      ∷ str (codes "hi")
      ∷ typespec (
          node type_array none (node type_int none null null Types.TypeSpecs.nil) null
            Types.TypeSpecs.nil)
      ∷ [];
  natives = codes "print" ∷ [];
  chunks = jumping ∷ [];
  entry_chunk = pos 0;
  src_mtime = pos 1700000000;
  src_size = 12;
  src_hash =
      1 ∷ 2 ∷ 3 ∷ 4 ∷ 5 ∷ 6 ∷ 7 ∷ 8 ∷ 1 ∷ 2 ∷ 3 ∷ 4 ∷ 5 ∷ 6 ∷ 7 ∷ 8 ∷ 1 ∷ 2 ∷ 3 ∷ 4 ∷ 5 ∷ 6 ∷ 7 ∷ 8
      ∷ 1 ∷ 2 ∷ 3 ∷ 4 ∷ 5 ∷ 6 ∷ 7 ∷ 8 ∷ [];
  src_path = some (codes "a.my");
}

tiny-IsInterned : IsInterned tiny
unfolding find_const same_const find_native str_eq
tiny-IsInterned = record { consts = (refl, (refl, (refl, tt))); natives = (refl, tt) }

jumping-ChunkFits : ChunkFits jumping
unfolding c_str
jumping-ChunkFits = record {
  name = record { no_nul = refl; fits = omega arith };
  num_params = omega arith;
  num_locals = omega arith;
  ret_count = omega arith;
  is_async = omega arith;
  captured = omega arith;
  code = omega arith;
  lines = omega arith;
  each_line = ((omega arith, omega arith), ((omega arith, omega arith), tt));
}

tiny_small : length (mvm_module_write tiny) < 2 ^ 32
unfolding mvm_module_write buf_le ser_typespec ser_args ser_const ser_chunk myon.Base.Words.to_u64
    myon.Base.Words.to_u32
tiny_small = omega arith

tiny-ModuleFits : ModuleFits tiny
unfolding c_str
tiny-ModuleFits = record {
  consts = (
    omega arith,
    (
      record { no_nul = refl; fits = omega arith },
      (
        (
          omega arith,
          record { no_nul = refl; fits = omega arith },
          (omega arith, record { no_nul = refl; fits = omega arith }, tt, tt, omega arith, tt),
          tt,
          omega arith,
          tt,
        ),
        tt,
      ),
    ),
  );
  interned = tiny-IsInterned;
  natives = (record { no_nul = refl; fits = omega arith }, tt);
  chunks = (jumping-ChunkFits, tt);
  entry_chunk = omega arith;
  src_mtime = omega arith;
  src_size = omega arith;
  src_hash = refl;
  src_path = record { no_nul = refl; fits = omega arith };
  native_count = omega arith;
  const_count = omega arith;
  chunk_count = omega arith;
  file_size = tiny_small;
}

mvm_module_read-mvm_module_write_example :
    mvm_module_read (mvm_module_write tiny) ≡ some (canon_module tiny)
mvm_module_read-mvm_module_write_example = mvm_module_read-mvm_module_write tiny tiny-ModuleFits

mvm_module_read-once_example :
    (times_const (str (codes "hi")) (canon_module tiny).consts ≤ 1)
    × (times_name (codes "print") (canon_module tiny).natives ≤ 1)
mvm_module_read-once_example =
    mvm_module_read-once (mvm_module_write tiny) (str (codes "hi")) (codes "print")
      mvm_module_read-mvm_module_write_example

deser_typespec_fuel_example :
    deser_typespec 7 (reader (9 ∷ 1 ∷ 0 ∷ 0 ∷ 0 ∷ 0 ∷ []))
    ≡ deser_typespec 100 (reader (9 ∷ 1 ∷ 0 ∷ 0 ∷ 0 ∷ 0 ∷ []))
deser_typespec_fuel_example =
    deser_typespec_fuel 7 100 (reader (9 ∷ 1 ∷ 0 ∷ 0 ∷ 0 ∷ 0 ∷ [])) (omega arith) (omega arith)

intern-Interned_example : Interned tiny (str (codes "hi")) (intern tiny (str (codes "hi")))
intern-Interned_example = intern-Interned tiny (str (codes "hi")) tiny-IsInterned.consts

intern-IsInterned_example : IsInterned (intern tiny nil).1
intern-IsInterned_example = intern-IsInterned tiny nil tiny-IsInterned

chunk_patch_jump_lem_example :
    (jump_target (chunk_patch_jump jumping 1).code 1 ≡ length jumping.code)
    × (length (chunk_patch_jump jumping 1).code ≡ length jumping.code)
    × (get_or (chunk_patch_jump jumping 1).code 3 0 ≡ get_or jumping.code 3 0)
chunk_patch_jump_lem_example =
    chunk_patch_jump_lem jumping 1 3 (omega arith) (omega arith) (omega arith) (omega arith)

chunk_emit_loop_lem_example :
    (jump_target (chunk_emit_loop jumping 0x40 3 9).code (length jumping.code + 1) ≡ 3)
    × (length (chunk_emit_loop jumping 0x40 3 9).code ≡ length jumping.code + 3)
chunk_emit_loop_lem_example =
    chunk_emit_loop_lem jumping 0x40 3 9 (omega arith) (omega arith) (omega arith)

named : mvm_opcode_name 0x73 ≡ "INVOKE"
unfolding mvm_opcode_name
named = refl

unfoldable nops : ℕ → Bytes
nops zero = []
nops (suc n) = 0x00 ∷ nops n

length-nops : (n : ℕ) → length (nops n) ≡ n
unfolding nops
length-nops zero = refl
length-nops (suc n) = omega (arith, length-nops n)

-- A jump over a body of 2^15 bytes.
abbrev too_long : Chunk
too_long = record jumping { code = 0x40 ∷ 255 ∷ 255 ∷ nops 32768 }

chunk_patch_jump_too_far_example :
    jump_target (chunk_patch_jump too_long 1).code 1 ≢ length too_long.code
chunk_patch_jump_too_far_example =
    chunk_patch_jump_too_far too_long 1 (omega (arith, length-nops 32768))
      (omega (arith, length-nops 32768))
