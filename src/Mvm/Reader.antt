-- ===== src/Mvm/Reader.antt =====
-- src/mvm_chunk.c, the reader of .myc files. A read past the end sets `err` and gives 0, and the
-- loops go on until they look at `err`; the file is refused at the end.
pub mod Monad
pub mod Sound
pub mod Fuel
use mathlib.Core.Bool.{Bool, true, false}
use myon.Base.{
  ℕ, zero, suc, ◌+◌, not, ◌&&◌, ◌||◌, List, [], ◌∷◌, ◌++◌, Option, none, some, if◌then◌else◌, ◌==◌,
  Bytes, length, drop,
}
use myon.Base.Words.{of_u32, of_u64}
use myon.Types.{type_array, type_map, is_named, TypeSpec, TypeSpecs, null, node}
use myon.Types
use myon.Mvm.{LineEntry, Chunk, Module}
use myon.Mvm.Pool.{
  module_add_const_int, module_add_const_float, module_add_const_str, module_add_const_bool,
  module_add_const_nil, module_add_const_typespec, module_add_native,
}
use myon.Mvm.Writer.{string_or_empty}
use Monad.{Reader, reader, Rd, pure, ◌>>=◌, ◌>>◌, rd8, rd16, rd32, rd64, rd_bytes, rdstr}

-- `for (i = 0; i < argc; i++) args[i] = deser_typespec(r);`
unfoldable pub deser_args : ℕ → Rd TypeSpec → Rd TypeSpecs
deser_args zero deser = pure Types.TypeSpecs.nil
deser_args (suc n) deser = do t ← deser; ts ← deser_args n deser; pure (Types.TypeSpecs.cons t ts)

-- `deser_typespec` behind its first byte, `base`; the argument is the recursive call.
unfoldable pub deser_fields : Rd TypeSpec → ℕ → Rd TypeSpec
deser_fields deser base = do
  name ← if is_named base then rdstr else pure none
  elem ← if base == type_array || base == type_map then deser else pure null
  key ← if base == type_map then deser else pure null
  argc ← rd16
  args ← deser_args argc deser
  pure (node base name elem key args)

-- The fuel bounds the nesting; the file's length is enough, since each level reads a byte.
unfoldable pub deser_typespec : ℕ → Rd TypeSpec
deser_typespec zero = pure null
deser_typespec (suc f) = rd8 >>= deser_fields (deser_typespec f)

-- `for (i = 0; i < n && !r.err; i++)` over the module that the body extends.
unfoldable pub read_each {ℓ} : {S : Type ℓ} → ℕ → (S → Rd S) → S → Rd S
read_each zero body s = pure s
read_each (suc n) body s =
    λ r. elim r.err [ true ↦ (s, r) | false ↦ (body s >>= λ s'. read_each n body s') r ]

abbrev fail : Module → Rd Module
fail m r = (m, record r { err = true })

-- The body of the constant pool's loop.
unfoldable pub read_const : ℕ → Module → Rd Module
read_const fuel m = do
  tag ← rd8
  if tag == 0x01
      then (do u ← rd64; pure (module_add_const_int m (of_u64 u)).1)
      else if tag == 0x02
      then (do d ← rd64; pure (module_add_const_float m d).1)
      else if tag == 0x03
      then (do s ← rdstr; pure (module_add_const_str m (string_or_empty s)).1)
      else if tag == 0x04
      then (do b ← rd8; pure (module_add_const_bool m b).1)
      else if tag == 0x05
      then pure (module_add_const_nil m).1
      else if tag == 0x10
      then (do t ← deser_typespec fuel; pure (module_add_const_typespec m t).1)
      else fail m

unfoldable pub read_native : Module → Rd Module
read_native m = do s ← rdstr; pure (module_add_native m (string_or_empty s)).1

unfoldable pub read_lines : ℕ → Rd (List LineEntry)
read_lines zero = pure []
read_lines (suc n) = do
  off ← rd32
  line ← rd32
  rest ← read_lines n
  pure (record { code_off = off; line = line } ∷ rest)

-- A NULL name becomes "<anon>".
abbrev chunk_name : Option Bytes → Bytes
chunk_name none = b'<' ∷ b'a' ∷ b'n' ∷ b'o' ∷ b'n' ∷ b'>' ∷ []
chunk_name (some s) = s

-- After a `break` the lines are not read.
abbrev pub unless_err {ℓ} : {A : Type ℓ} → A → Rd A → Rd A
unless_err a m = λ r. elim r.err [ true ↦ (a, r) | false ↦ m r ]

-- The body of the chunk table's loop.
unfoldable pub read_chunk : Rd Chunk
read_chunk = do
  name ← rdstr
  num_params ← rd16
  num_locals ← rd16
  ret_count ← rd16
  is_async ← rd8
  captured_len ← rd16
  captured ← rd_bytes captured_len
  code_len ← rd32
  code ← rd_bytes code_len
  lines ← unless_err [] (do n ← rd32; read_lines n)
  pure (record {
    name = chunk_name name;
    num_params = num_params;
    num_locals = num_locals;
    ret_count = ret_count;
    is_async = is_async;
    captured = captured;
    code = code;
    lines = lines;
  })

abbrev pub add_chunk : Module → Rd Module
add_chunk m = do c ← read_chunk; pure (record m { chunks = m.chunks ++ c ∷ [] })

-- `for (i = 0; i < 32; i++) m->src_hash[i] = rd8(&r);`
unfoldable pub read_hash : ℕ → Rd Bytes
read_hash zero = pure []
read_hash (suc n) = do b ← rd8; bs ← read_hash n; pure (b ∷ bs)

-- `r.pos = off;`
abbrev pub seek : Bytes → ℕ → Rd (Unit {0})
seek file off r = (tt, record r { rest = drop off file })

-- `if (r.err) { module_free(m); return NULL; } return m;`
abbrev pub finish : Module → Rd (Option Module)
finish m r = (if r.err then none else some m, r)

-- The chunk table, to the end of the function.
unfoldable pub read_chunk_table : Module → Rd (Option Module)
read_chunk_table m = do ct ← rd32; m' ← read_each ct add_chunk m; finish m'

-- The constant pool, the native table behind it, and then the chunk table at its offset.
unfoldable pub read_pools : Bytes → ℕ → Module → Rd (Option Module)
read_pools file chunk_off m = do
  cc ← rd32
  m₁ ← read_each cc (read_const (suc (length file))) m
  nc ← rd16
  m₂ ← read_each nc read_native m₁
  seek file chunk_off
  read_chunk_table m₂

-- The source information, into a new module, and then the pools at their offset.
unfoldable pub read_source_info : Bytes → ℕ → ℕ → ℕ → Rd (Option Module)
read_source_info file const_off chunk_off entry = do
  mtime ← rd64
  size ← rd64
  hash ← read_hash 32
  path ← rdstr
  let m : Module = record {
    consts = [];
    natives = [];
    chunks = [];
    entry_chunk = of_u32 entry;
    src_mtime = of_u64 mtime;
    src_size = size;
    src_hash = hash;
    src_path = path;
  }
  seek file const_off
  read_pools file chunk_off m

-- From the offsets in the header on.
unfoldable pub read_sections : Bytes → Rd (Option Module)
read_sections file = do
  const_off ← rd32
  _ ← rd32
  chunk_off ← rd32
  _ ← rd32
  entry ← rd32
  srcinfo_off ← rd32
  seek file srcinfo_off
  read_source_info file const_off chunk_off entry

abbrev pub read_version : Bytes → Rd (Option Module)
read_version file = do
  major ← rd8
  _ ← rd8
  endian ← rd8
  _ ← rd8
  if not (major == 1) || not (endian == 1) then pure none else read_sections file

abbrev pub read_magic : Bytes → Rd (Option Module)
read_magic file = do
  a ← rd8
  b ← rd8
  c ← rd8
  d ← rd8
  if a == 0x4D && b == 0x59 && c == 0x43 && d == 0x31 then read_version file else pure none

-- `mvm_module_read_file` on the bytes of the file.
unfoldable pub mvm_module_read : Bytes → Option Module
mvm_module_read file = (read_magic file (reader file)).0
