-- ===== src/Mvm/RoundTrip.antt =====
-- Reading back a written .myc file.
pub mod Fields
pub mod Specs
pub mod Pools
pub mod Chunks
pub mod Layout
use mathlib.Core.Path.{subst}
use myon.Base.{
  ℕ, ◌^◌, ◌<◌, ◌≡◌, refl, sym, ap, ◌∙◌, ◌≤◌, suc, List, [], ◌∷◌, ◌++◌, append-nil, append_assoc,
  Option, none, some, Bytes, length, length-append, drop, arith,
}
use myon.Base.Words.{
  FitsSigned, to_u32, to_u64, of_u32, of_u64, of_u32-to_u32, of_u64-to_u64, to_u32-lt, to_u64-lt,
}
use myon.Mvm.{Module}
use myon.Mvm.Writer.{
  buf_le, buf_u8, buf_u16, buf_u32, buf_u64, buf_str, string_or_empty, ser_all, ser_const,
  ser_chunk, ser_source_info, ser_const_pool, ser_native_table, ser_chunk_table, mvm_module_write,
}
use myon.Mvm.Reader.Monad.{Reader, reader, Rd, pure, ◌>>=◌, ◌>>◌, rd8}
use myon.Mvm.Reader.{
  seek, read_chunk_table, read_pools, read_source_info, read_sections, read_version, read_magic,
  mvm_module_read,
}
use myon.Mvm.Pool.Laws.{IsInterned}
use Fields.{Reads, bind_run, Reads-byte, Reads-rd_le, Reads-rdstr, IsCString}
use Pools.{All, ConstFits, map_consts, Reads-consts, Reads-natives}
use Chunks.{ChunkFits, Reads-hash, Reads-chunks}
use Layout.{
  const_off, const_sz, chunk_off, written_header, sections, layout, drop_source_info, drop_consts,
  drop_chunks, offsets_fit,
}

-- What a module built by the compiler satisfies: no constant compares equal to an earlier one, no
-- name is there twice, every number fits its field and every string is a C string.
pub record ModuleFits (m : Module) : Type 0 where
  pub consts : All ConstFits m.consts
  pub interned : IsInterned m
  pub natives : All IsCString m.natives
  pub chunks : All ChunkFits m.chunks
  pub entry_chunk : FitsSigned 31 m.entry_chunk
  pub src_mtime : FitsSigned 63 m.src_mtime
  pub src_size : m.src_size < 2 ^ 64
  pub src_hash : length m.src_hash ≡ 32
  pub src_path : IsCString (string_or_empty m.src_path)
  pub native_count : length m.natives < 2 ^ 16
  pub const_count : length m.consts < 2 ^ 32
  pub chunk_count : length m.chunks < 2 ^ 32
  pub file_size : length (mvm_module_write m) < 2 ^ 32

-- What the format keeps of a module.
abbrev pub canon_module : Module → Module
canon_module m = record m {
  consts = map_consts m.consts;
  src_path = some (string_or_empty m.src_path);
}

regroup_pools : (a b c d e : Bytes) → (a ++ b) ++ ((c ++ d) ++ e) ≡ a ++ (b ++ (c ++ (d ++ e)))
regroup_pools a b c d e = simp append_assoc

regroup_info : (a b c d e : Bytes) → (a ++ (b ++ (c ++ d))) ++ e ≡ a ++ (b ++ (c ++ (d ++ e)))
regroup_info a b c d e = simp append_assoc

-- What `m` gives from the state `r`.
record Gives {ℓ} {A : Type ℓ} (m : Rd A) (r : Reader) (a : A) : Type ℓ where
  result : (m r).0 ≡ a

module _ {ℓ κ} {A : Type ℓ} {B : Type κ} {m : Rd A} {xs : Bytes} {a : A} {b : B}
    (f : A → Rd B) where
  Gives-bind :
      {rest : Bytes}
      → Reads m xs a
      → Gives (f a) (reader rest) b
      → Gives (m >>= f) (reader (xs ++ rest)) b
  Gives-bind {rest} h k = record {
    result = ap (λ (p : B × Reader). p.0) (bind_run f rest h) ∙ k.result;
  }

  -- The reader takes all that is left.
  Gives-end : Reads m xs a → Gives (f a) (reader []) b → Gives (m >>= f) (reader xs) b
  Gives-end h k = rw append-nil at (Gives-bind h k)

seek_run {ℓ} :
    {A : Type ℓ} (file : Bytes) (off : ℕ) {rest : Bytes} (bs : Bytes) (k : Rd A)
    → drop off file ≡ rest
    → (seek file off >> k) (reader bs) ≡ k (reader rest)
unfolding ◌>>=◌
seek_run file off bs k e = rw e

Gives-seek {ℓ} :
    {A : Type ℓ} {k : Rd A} {b : A} (file : Bytes) (off : ℕ) {rest bs : Bytes}
    → drop off file ≡ rest
    → Gives k (reader rest) b
    → Gives (seek file off >> k) (reader bs) b
Gives-seek {A} {k} file off {rest} {bs} e h = record {
  result = ap (λ (p : A × Reader). p.0) (seek_run file off bs k e) ∙ h.result;
}

Gives-of {ℓ} :
    {A : Type ℓ} {m : Rd A} {b : A} {xs ys : Bytes}
    → xs ≡ ys
    → Gives m (reader ys) b
    → Gives m (reader xs) b
Gives-of {m} {b} e h = subst (λ zs. Gives m (reader zs) b) (sym e) h

module _ (m : Module) (fits : ModuleFits m) where
  -- The module when the source information has been read, and when the pools have.
  abbrev informed : Module
  informed = record m {
    consts = [];
    natives = [];
    chunks = [];
    src_path = some (string_or_empty m.src_path);
  }

  abbrev pooled : Module
  pooled = record informed { consts = map_consts m.consts; natives = m.natives }

  Gives-chunks :
      Gives (read_chunk_table pooled) (reader (ser_chunk_table m)) (some (canon_module m))
  unfolding read_chunk_table
  Gives-chunks =
      Gives-bind _ (Reads-rd_le 4 (length m.chunks) fits.chunk_count)
        (Gives-end _ (Reads-chunks m.chunks pooled fits.chunks) (record { result = refl }))

  pool_in_file : length (ser_all ser_const m.consts) ≤ suc (length (mvm_module_write m))
  pool_in_file = omega (
    arith,
    ap length (layout m),
    length-append (written_header m) (sections m),
    length-append (ser_source_info m)
        (ser_const_pool m ++ (ser_native_table m ++ ser_chunk_table m)),
    length-append (ser_const_pool m) (ser_native_table m ++ ser_chunk_table m),
    length-append (buf_u32 (length m.consts)) (ser_all ser_const m.consts),
  )

  Gives-pools :
      Gives
        (read_pools (mvm_module_write m) (chunk_off m) informed)
        (reader (ser_const_pool m ++ (ser_native_table m ++ ser_chunk_table m)))
        (some (canon_module m))
  unfolding read_pools
  Gives-pools =
      Gives-of
        (regroup_pools (buf_u32 (length m.consts)) (ser_all ser_const m.consts)
          (buf_u16 (length m.natives)) (ser_all buf_str m.natives) (ser_chunk_table m))
        (Gives-bind _ (Reads-rd_le 4 (length m.consts) fits.const_count) (
          Gives-bind _
            (Reads-consts (suc (length (mvm_module_write m))) [] m.consts informed fits.consts
              pool_in_file fits.interned.consts refl)
            (Gives-bind _ (Reads-rd_le 2 (length m.natives) fits.native_count) (
              Gives-bind _
                (Reads-natives m.natives (record informed { consts = map_consts m.consts })
                  fits.natives fits.interned.natives)
                (Gives-seek (mvm_module_write m) (chunk_off m) (drop_chunks m) Gives-chunks)))))

  Gives-source_info :
      Gives
        (read_source_info (mvm_module_write m) (const_off m) (chunk_off m) (to_u32 m.entry_chunk))
        (reader (sections m))
        (some (canon_module m))
  unfolding read_source_info
  Gives-source_info =
      Gives-of
        (regroup_info (buf_u64 (to_u64 m.src_mtime)) (buf_u64 m.src_size) m.src_hash
          (buf_str (string_or_empty m.src_path)) _)
        (Gives-bind _ (Reads-rd_le 8 (to_u64 m.src_mtime) (to_u64-lt m.src_mtime)) (
          Gives-bind _ (Reads-rd_le 8 m.src_size fits.src_size) (
            Gives-bind _ (rw fits.src_hash at (Reads-hash m.src_hash)) (
              Gives-bind _ (Reads-rdstr _ fits.src_path) (
                Gives-seek (mvm_module_write m) (const_off m) (drop_consts m) (
                  rw
                    (
                      of_u64-to_u64 m.src_mtime fits.src_mtime,
                      of_u32-to_u32 m.entry_chunk fits.entry_chunk,
                    )
                    Gives-pools))))))

  Gives-sections :
      Gives
        (read_sections (mvm_module_write m))
        (reader (
          (buf_u32 (const_off m)
            ++ (buf_u32 (const_sz m)
                ++ (buf_u32 (chunk_off m)
                    ++ (buf_u32 (length m.chunks)
                        ++ (buf_u32 (to_u32 m.entry_chunk) ++ buf_u32 32)))))
          ++ sections m))
        (some (canon_module m))
  unfolding read_sections
  Gives-sections =
      let off = offsets_fit m (2 ^ 32) fits.file_size in
      Gives-of (simp append_assoc) (
        Gives-bind _ (Reads-rd_le 4 (const_off m) off.0) (
          Gives-bind _ (Reads-rd_le 4 (const_sz m) off.1) (
            Gives-bind _ (Reads-rd_le 4 (chunk_off m) off.2) (
              Gives-bind _ (Reads-rd_le 4 (length m.chunks) fits.chunk_count) (
                Gives-bind _ (Reads-rd_le 4 (to_u32 m.entry_chunk) (to_u32-lt m.entry_chunk)) (
                  Gives-bind _ (Reads-rd_le 4 32 (omega arith)) (
                    Gives-seek (mvm_module_write m) 32 {bs = sections m} (drop_source_info m)
                      Gives-source_info)))))))

Gives-magic :
    (file rest : Bytes) {b : Option Module}
    → Gives (read_version file) (reader rest) b
    → Gives (read_magic file) (reader (0x4D ∷ 0x59 ∷ 0x43 ∷ 0x31 ∷ rest)) b
Gives-magic file rest h = Gives-bind _ (Reads-byte 0x4D) (
    Gives-bind _ (Reads-byte 0x59)
      (Gives-bind _ (Reads-byte 0x43) (Gives-bind _ (Reads-byte 0x31) h)))

Gives-version :
    (file rest : Bytes) {b : Option Module}
    → Gives (read_sections file) (reader rest) b
    → Gives (read_version file) (reader (1 ∷ 1 ∷ 1 ∷ 0 ∷ rest)) b
Gives-version file rest h =
    Gives-bind _ (Reads-byte 1)
      (Gives-bind _ (Reads-byte 1) (Gives-bind _ (Reads-byte 1) (Gives-bind _ (Reads-byte 0) h)))

-- Reading the file that is written for a module gives the module back, with type descriptors
-- reduced to what the format keeps and a missing source path as the empty one, if no constant
-- compares equal to an earlier one, no native name is there twice, every number fits its field and
-- every string is a C string.
pub mvm_module_read-mvm_module_write :
    (m : Module) → ModuleFits m → mvm_module_read (mvm_module_write m) ≡ some (canon_module m)
unfolding mvm_module_read
mvm_module_read-mvm_module_write m fits =
    let file = mvm_module_write m in
    (Gives-of (layout m) (Gives-magic file _ (Gives-version file _ (Gives-sections m fits)))).result
