-- ===== src/Mvm/Writer.antt =====
-- src/mvm_chunk.c, the writer of .myc files. A `buf_*` or `ser_*` function is the list of the bytes
-- that it appends to the buffer; a file is the list of its bytes.
use myon.Base.{
  ℕ, zero, suc, ◌+◌, ◌-◌, ◌/◌, ◌%◌, ◌^◌, Bool, List, [], ◌∷◌, ◌++◌, Option, none, some,
  if◌then◌else◌, ◌==◌, ◌||◌, Bytes, length, set,
}
use myon.Base.Words.{to_u32, to_u64}
use myon.Types.{
  Tag, type_unknown, type_array, type_map, is_named, TypeSpec, TypeSpecs, null, node, arg_count,
}
use myon.Types
use myon.Mvm.{LineEntry, Chunk, ConstEntry, int, float, str, bool, nil, typespec, Module}

-- `n` bytes of `v`, the lowest first: `(v >> (8*i)) & 0xFF` for i below n.
unfoldable pub buf_le : ℕ → ℕ → Bytes
buf_le zero v = []
buf_le (suc n) v = (v % 256) ∷ buf_le n (v / 256)

abbrev pub buf_u8 : ℕ → Bytes
buf_u8 = buf_le 1

abbrev pub buf_u16 : ℕ → Bytes
buf_u16 = buf_le 2

abbrev pub buf_u32 : ℕ → Bytes
buf_u32 = buf_le 4

abbrev pub buf_u64 : ℕ → Bytes
buf_u64 = buf_le 8

-- A NULL string is written as the empty one.
abbrev pub string_or_empty : Option Bytes → Bytes
string_or_empty none = []
string_or_empty (some s) = s

-- `(uint32_t)strlen(s)`, then the bytes.
abbrev pub buf_str : Bytes → Bytes
buf_str s = buf_u32 (length s % 2 ^ 32) ++ s

abbrev pub when : Bool → Bytes → Bytes
when b bs = if b then bs else []

unfoldable mutual
  pub ser_typespec : TypeSpec → Bytes
  ser_typespec null = buf_u8 type_unknown ++ buf_u16 0
  ser_typespec (node base name elem key args) =
      buf_u8 base
      ++ (when (is_named base) (buf_str (string_or_empty name))
          ++ (when (base == type_array || base == type_map) (ser_typespec elem)
              ++ (when (base == type_map) (ser_typespec key)
                  ++ (buf_u16 (arg_count args) ++ ser_args args))))

  pub ser_args : TypeSpecs → Bytes
  ser_args Types.TypeSpecs.nil = []
  ser_args (Types.TypeSpecs.cons t ts) = ser_typespec t ++ ser_args ts

-- The tag, then the payload.
unfoldable pub ser_const : ConstEntry → Bytes
ser_const (int v) = buf_u8 0x01 ++ buf_u64 (to_u64 v)
ser_const (float d) = buf_u8 0x02 ++ buf_u64 d
ser_const (str s) = buf_u8 0x03 ++ buf_str s
ser_const (bool b) = buf_u8 0x04 ++ buf_u8 (if b then 1 else 0)
ser_const nil = buf_u8 0x05
ser_const (typespec t) = buf_u8 0x10 ++ ser_typespec t

abbrev pub ser_all {ℓ} : {A : Type ℓ} → (A → Bytes) → List A → Bytes
ser_all f [] = []
ser_all f (x ∷ xs) = f x ++ ser_all f xs

abbrev pub ser_const_pool : Module → Bytes
ser_const_pool m = buf_u32 (length m.consts) ++ ser_all ser_const m.consts

abbrev pub ser_native_table : Module → Bytes
ser_native_table m = buf_u16 (length m.natives) ++ ser_all buf_str m.natives

abbrev pub ser_line : LineEntry → Bytes
ser_line l = buf_u32 l.code_off ++ buf_u32 l.line

unfoldable pub ser_chunk : Chunk → Bytes
ser_chunk c =
    buf_str c.name
    ++ (buf_u16 c.num_params
        ++ (buf_u16 c.num_locals
            ++ (buf_u16 c.ret_count
                ++ (buf_u8 c.is_async
                    ++ (buf_u16 (length c.captured)
                        ++ (c.captured
                            ++ (buf_u32 (length c.code)
                                ++ (c.code
                                    ++ (buf_u32 (length c.lines)
                                        ++ ser_all ser_line c.lines)))))))))

-- The first 32 bytes, with zeros where the offsets are patched in.
abbrev pub header : Module → Bytes
header m =
    0x4D
    ∷ 0x59
    ∷ 0x43
    ∷ 0x31
    ∷ 1
    ∷ 1
    ∷ 1
    ∷ 0
    ∷ (buf_u32 0
        ++ (buf_u32 0
            ++ (buf_u32 0
                ++ (buf_u32 (length m.chunks) ++ (buf_u32 (to_u32 m.entry_chunk) ++ buf_u32 0)))))

abbrev pub ser_source_info : Module → Bytes
ser_source_info m =
    buf_u64 (to_u64 m.src_mtime)
    ++ (buf_u64 m.src_size ++ (m.src_hash ++ buf_str (string_or_empty m.src_path)))

abbrev pub ser_chunk_table : Module → Bytes
ser_chunk_table m = buf_u32 (length m.chunks) ++ ser_all ser_chunk m.chunks

-- `PATCH_U32`: four bytes are overwritten in place.
abbrev pub patch_u32 : Bytes → ℕ → ℕ → Bytes
patch_u32 b at v =
    set (set (set (set b at (v % 256)) (at + 1) (v / 256 % 256)) (at + 2) (v / 65536 % 256))
      (at + 3) (v / 16777216 % 256)

-- The file image of `mvm_module_write_file`.
unfoldable pub mvm_module_write : Module → Bytes
mvm_module_write m =
    let b₁ = header m in
    let srcinfo_off = length b₁ in
    let b₂ = b₁ ++ ser_source_info m in
    let const_off = length b₂ in
    let b₃ = b₂ ++ ser_const_pool m in
    let const_sz = length b₃ - const_off in
    let b₄ = b₃ ++ ser_native_table m in
    let chunk_off = length b₄ in
    let b₅ = b₄ ++ ser_chunk_table m in
    patch_u32 (patch_u32 (patch_u32 (patch_u32 b₅ 8 const_off) 12 const_sz) 16 chunk_off) 28
      srcinfo_off
