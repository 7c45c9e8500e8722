-- ===== src/Zip/Stored.antt =====
-- src/pkg_zip.c: streams of stored blocks.
use myon.Base.{
  ℕ, zero, suc, ◌+◌, ◌*◌, ◌-◌, ◌/◌, ◌%◌, ◌≤◌, ◌<◌, ◌^◌, ◌≡◌, refl, sym, ap, ◌∙◌, Bool, true, false,
  List, [], ◌∷◌, ◌++◌, append-nil, append_assoc, some, ltb, lt→ltb, le→not_ltb, ==_iff, Bytes,
  length, length-append, arith,
}
use myon.Zip.Bits.{State, inf_out_byte, inf_getbit, inf_getbits}
use myon.Zip.Inflate.{
  copy_stored, inf_stored, after_block, inflate_blocks, check_length, pkg_zip_inflate,
}

-- The length and its complement, of two bytes each, and the bytes of a stored block, behind the
-- byte of its header.
abbrev pub stored_body : Bytes → Bytes
stored_body block =
    let low = length block % 256 in
    let high = length block / 256 % 256 in low ∷ high ∷ (255 - low) ∷ (255 - high) ∷ block

-- The stream of stored blocks, the last of which is marked as final.
abbrev pub stored_stream : Bytes → List Bytes → Bytes
stored_stream block [] = 1 ∷ stored_body block
stored_stream block (next ∷ blocks) = 0 ∷ stored_body block ++ stored_stream next blocks

-- The length of every piece fits its two bytes.
abbrev pub IsShort : Bytes → List Bytes → Type 0
IsShort block [] = length block < 2 ^ 16
IsShort block (next ∷ blocks) = (length block < 2 ^ 16) × IsShort next blocks

abbrev pub join_blocks : Bytes → List Bytes → Bytes
join_blocks block [] = block
join_blocks block (next ∷ blocks) = block ++ join_blocks next blocks

-- A state between two bytes, without an error.
abbrev aligned : ℕ → Bytes → Bytes → ℕ → State
aligned cnt rest out capacity = record {
  rest = rest;
  bitbuf = 0;
  bitcnt = cnt;
  out = out;
  out_cap = capacity;
  error = false;
}

copy_stored_all :
    (block rest out : Bytes) (capacity : ℕ)
    → length out + length block ≤ capacity
    → copy_stored (length block) (aligned 0 (block ++ rest) out capacity)
      ≡ (true, aligned 0 rest (out ++ block) capacity)
unfolding copy_stored inf_out_byte
copy_stored_all [] rest out capacity h =
    ap (λ (o : Bytes). (true, aligned 0 rest o capacity)) (sym (append-nil out))
copy_stored_all (x ∷ block) rest out capacity h = rw (lt→ltb (length out) capacity (omega arith)) (
    copy_stored_all block rest (out ++ x ∷ []) capacity (omega (arith, length-append out (x ∷ [])))
    ∙ ap (λ (o : Bytes). (true, aligned 0 rest o capacity)) (append_assoc out (x ∷ []) block))

inf_stored_all :
    (block rest out : Bytes) (capacity : ℕ)
    → length block < 2 ^ 16
    → length out + length block ≤ capacity
    → inf_stored (aligned 5 (stored_body block ++ rest) out capacity)
      ≡ (true, aligned 0 rest (out ++ block) capacity)
unfolding inf_stored
inf_stored_all block rest out capacity short h =
    let len : length block % 256 + 256 * (length block / 256 % 256) ≡ length block =
      omega (arith, short) in
    let room : ltb (length (block ++ rest)) (length block) ≡ false =
      le→not_ltb (length (block ++ rest)) (length block)
        (omega (arith, length-append block rest)) in
    rw (len, le→not_ltb (suc (suc (suc (suc (length (block ++ rest)))))) 4 (omega arith), room)
      (copy_stored_all block rest out capacity h)

-- The byte of a block's header.
abbrev final_bit : Bool → ℕ
final_bit true = 1
final_bit false = 0

-- A stored block is appended whole; then the loop goes on, but for the final block.
stored_block :
    (f : ℕ) (block rest out : Bytes) (capacity : ℕ) (final : Bool)
    → length block < 2 ^ 16
    → length out + length block ≤ capacity
    → inflate_blocks (suc f) (aligned 0 (final_bit final ∷ stored_body block ++ rest) out capacity)
      ≡ after_block
          (final_bit final)
          (inflate_blocks f)
          (true, aligned 0 rest (out ++ block) capacity)
unfolding inflate_blocks inf_getbit inf_getbits
stored_block f block rest out capacity true short h =
    rw (inf_stored_all block rest out capacity short h) refl
stored_block f block rest out capacity false short h =
    rw (inf_stored_all block rest out capacity short h) refl

stored_blocks :
    (f : ℕ) (block : Bytes) (blocks : List Bytes) (out : Bytes) (capacity : ℕ)
    → IsShort block blocks
    → length (stored_stream block blocks) ≤ f
    → length out + length (join_blocks block blocks) ≤ capacity
    → inflate_blocks f (aligned 0 (stored_stream block blocks) out capacity)
      ≡ some (aligned 0 [] (out ++ join_blocks block blocks) capacity)
stored_blocks zero block [] out capacity short few h = elim few [ ]
stored_blocks zero block (next ∷ blocks) out capacity short few h = elim few [ ]
stored_blocks (suc f) block [] out capacity short few h =
    ap (λ (bs : Bytes). inflate_blocks (suc f) (aligned 0 (1 ∷ bs) out capacity))
      (sym (append-nil (stored_body block)))
    ∙ stored_block f block [] out capacity true short h
stored_blocks (suc f) block (next ∷ blocks) out capacity short few h =
    let more = length-append block (stored_stream next blocks) in
    let size = length-append block (join_blocks next blocks) in
    stored_block f block (stored_stream next blocks) out capacity false short.0
      (omega (arith, size, h))
    ∙ stored_blocks f next blocks (out ++ block) capacity short.1 (omega (arith, more, few))
        (omega (arith, size, length-append out block, h))
    ∙ ap (λ (o : Bytes). some (aligned 0 [] o capacity))
        (append_assoc out block (join_blocks next blocks))

-- The stream of stored blocks for some pieces of data of less than 65536 bytes each, the last
-- block marked as final, inflates to these pieces in their order.
pub pkg_zip_inflate-stored_stream :
    (block : Bytes) (blocks : List Bytes)
    → IsShort block blocks
    → pkg_zip_inflate (stored_stream block blocks) (length (join_blocks block blocks)) 8
      ≡ some (join_blocks block blocks)
unfolding pkg_zip_inflate
pkg_zip_inflate-stored_stream block blocks short =
    let all = join_blocks block blocks in
    ap (check_length (length all))
      (stored_blocks _ block blocks [] (length all) short (omega arith) (omega arith))
    ∙ rw ((==_iff (length all) (length all)).1 refl) refl
