-- ===== src/Mvm/RoundTrip/Layout.antt =====
-- The layout of a written file: its header with the offsets in place, and its sections.
use myon.Base.{
  ℕ, ◌-◌, ◌<◌, ◌≡◌, refl, sym, ◌∙◌, ap, ◌∷◌, ◌++◌, append_assoc, Bytes, length, length-append, drop,
  drop-append, arith,
}
use myon.Base.Words.{to_u32}
use myon.Mvm.{Module}
use myon.Mvm.Writer.{
  buf_le, buf_u32, header, patch_u32, ser_source_info, ser_const_pool, ser_native_table,
  ser_chunk_table, mvm_module_write,
}

-- The header with its six words.
abbrev pub header_of : (co sz ch n e si : ℕ) → Bytes
header_of co sz ch n e si =
    0x4D
    ∷ 0x59
    ∷ 0x43
    ∷ 0x31
    ∷ 1
    ∷ 1
    ∷ 1
    ∷ 0
    ∷ (buf_u32 co ++ (buf_u32 sz ++ (buf_u32 ch ++ (buf_u32 n ++ (buf_u32 e ++ buf_u32 si)))))

patched :
    (co sz ch n e si : ℕ) (body : Bytes)
    → patch_u32
        (patch_u32 (patch_u32 (patch_u32 (header_of 0 0 0 n e 0 ++ body) 8 co) 12 sz) 16 ch)
        28
        si
      ≡ header_of co sz ch n e si ++ body
unfolding buf_le
patched co sz ch n e si body = ground arith

-- The offsets that the header holds.
abbrev pub const_off : Module → ℕ
const_off m = length (header m ++ ser_source_info m)

abbrev pub chunk_off : Module → ℕ
chunk_off m = length (((header m ++ ser_source_info m) ++ ser_const_pool m) ++ ser_native_table m)

abbrev pub const_sz : Module → ℕ
const_sz m = length ((header m ++ ser_source_info m) ++ ser_const_pool m) - const_off m

abbrev pub written_header : Module → Bytes
written_header m =
    header_of (const_off m) (const_sz m) (chunk_off m) (length m.chunks) (to_u32 m.entry_chunk) 32

abbrev pub sections : Module → Bytes
sections m = ser_source_info m ++ (ser_const_pool m ++ (ser_native_table m ++ ser_chunk_table m))

length-header : (m : Module) → length (header m) ≡ 32
unfolding buf_le
length-header m = refl

regroup : (a b c d e : Bytes) → (((a ++ b) ++ c) ++ d) ++ e ≡ a ++ (b ++ (c ++ (d ++ e)))
regroup a b c d e = simp append_assoc

abbrev patch_all : Module → ℕ → Bytes → Bytes
patch_all m si b =
    patch_u32 (patch_u32 (patch_u32 (patch_u32 b 8 (const_off m)) 12 (const_sz m)) 16 (chunk_off m))
      28 si

pub layout : (m : Module) → mvm_module_write m ≡ written_header m ++ sections m
unfolding mvm_module_write
layout m =
    ap (patch_all m (length (header m))) (
      regroup (header m) (ser_source_info m) (ser_const_pool m) (ser_native_table m)
        (ser_chunk_table m))
    ∙ ap (λ k. patch_all m k (header m ++ sections m)) (length-header m)
    ∙ patched (const_off m) (const_sz m) (chunk_off m) (length m.chunks) (to_u32 m.entry_chunk) 32
        (sections m)

drop_at :
    (xs ys : Bytes) (n : ℕ) {file : Bytes} → file ≡ xs ++ ys → length xs ≡ n → drop n file ≡ ys
drop_at xs ys n e h = rw (e, ← h) (drop-append xs ys)

length-written : (m : Module) → length (written_header m) ≡ 32
unfolding buf_le
length-written m = refl

-- Where the three seeks of the reader land.
pub drop_source_info : (m : Module) → drop 32 (mvm_module_write m) ≡ sections m
drop_source_info m = drop_at (written_header m) (sections m) 32 (layout m) (length-written m)

pub drop_consts :
    (m : Module)
    → drop (const_off m) (mvm_module_write m)
      ≡ ser_const_pool m ++ (ser_native_table m ++ ser_chunk_table m)
drop_consts m =
    drop_at (written_header m ++ ser_source_info m) _ (const_off m)
      (layout m ∙ sym (append_assoc (written_header m) (ser_source_info m) _))
      (omega (
        arith,
        length-append (written_header m) (ser_source_info m),
        length-append (header m) (ser_source_info m),
        length-written m,
        length-header m,
      ))

pub drop_chunks : (m : Module) → drop (chunk_off m) (mvm_module_write m) ≡ ser_chunk_table m
drop_chunks m =
    let a = ser_source_info m in
    let b = ser_const_pool m in
    let c = ser_native_table m in
    drop_at (((written_header m ++ a) ++ b) ++ c) (ser_chunk_table m) (chunk_off m)
      (layout m ∙ sym (regroup (written_header m) a b c (ser_chunk_table m)))
      (omega (
        arith,
        length-append ((written_header m ++ a) ++ b) c,
        length-append (written_header m ++ a) b,
        length-append (written_header m) a,
        length-append ((header m ++ a) ++ b) c,
        length-append (header m ++ a) b,
        length-append (header m) a,
        length-written m,
        length-header m,
      ))

-- The offsets lie in the file.
pub offsets_fit :
    (m : Module) (n : ℕ)
    → length (mvm_module_write m) < n
    → (const_off m < n) × (const_sz m < n) × (chunk_off m < n)
offsets_fit m n h =
    let a = ser_source_info m in
    let b = ser_const_pool m in
    let c = ser_native_table m in
    let d = ser_chunk_table m in
    let facts : (const_off m < n) × (const_sz m < n) × (chunk_off m < n) = omega (
      arith,
      ap length (layout m),
      length-append (written_header m) (sections m),
      length-append a (b ++ (c ++ d)),
      length-append b (c ++ d),
      length-append c d,
      length-append ((header m ++ a) ++ b) c,
      length-append (header m ++ a) b,
      length-append (header m) a,
      length-written m,
      length-header m,
    ) in
    facts
