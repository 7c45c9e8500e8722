-- ===== src/Compiler/Correct/Emission.antt =====
-- What the emission of src/mvm_chunk.c adds to a chunk's code, and how a jump is patched.
use myon.Base.{
  ℕ, zero, suc, ◌+◌, ◌/◌, ◌%◌, ◌≡◌, refl, sym, ap, ◌∙◌, [], ◌∷◌, ◌++◌, append_assoc, Bytes, length,
  length-append, set, arith,
}
use myon.Mvm.{Chunk}
use myon.Mvm.Emit.{
  int_sub, chunk_emit_byte, chunk_emit_op_u16, chunk_emit_jump, chunk_patch_jump, store_s16,
}
use myon.Mvm.Emit.Jumps.{chunk_note_line-code}

pub chunk_emit_byte-code :
    (ch : Chunk) (b line : ℕ) → (chunk_emit_byte ch b line).code ≡ ch.code ++ (b ∷ [])
unfolding chunk_emit_byte
chunk_emit_byte-code ch b line =
    ap (λ (s : Bytes). s ++ (b ∷ [])) (chunk_note_line-code ch (length ch.code) line)

pub chunk_emit_op_u16-code :
    (ch : Chunk) (op a line : ℕ)
    → (chunk_emit_op_u16 ch op a line).code ≡ ch.code ++ (op ∷ a % 256 ∷ a / 256 % 256 ∷ [])
chunk_emit_op_u16-code ch op a line =
    rw (chunk_emit_byte-code ch op line) (append_assoc ch.code (op ∷ []) _)

pub chunk_emit_jump-code :
    (ch : Chunk) (op line : ℕ)
    → (chunk_emit_jump ch op line).1.code ≡ ch.code ++ (op ∷ 255 ∷ 255 ∷ [])
unfolding chunk_emit_jump
chunk_emit_jump-code ch op line = chunk_emit_op_u16-code ch op 0xFFFF line

pub chunk_emit_jump-off :
    (ch : Chunk) (op line : ℕ) → (chunk_emit_jump ch op line).0 ≡ length ch.code + 1
unfolding chunk_emit_jump
chunk_emit_jump-off ch op line =
    rw (chunk_emit_byte-code ch op line) (length-append ch.code (op ∷ []))

set-append : (xs ys : Bytes) (x v i : ℕ) → i ≡ length xs → set (xs ++ (x ∷ ys)) i v ≡ xs ++ (v ∷ ys)
set-append [] ys x v zero e = refl
set-append [] ys x v (suc i) e = absurd (omega arith)
set-append (y ∷ xs) ys x v zero e = absurd (omega arith)
set-append (y ∷ xs) ys x v (suc i) e = ap (◌∷◌ y) (set-append xs ys x v i (omega arith))

store_s16-append :
    (xs ys : Bytes) (x y rel : ℕ)
    → store_s16 (xs ++ (x ∷ y ∷ ys)) (length xs) rel ≡ xs ++ (rel % 256 ∷ rel / 256 % 256 ∷ ys)
store_s16-append xs ys x y rel =
    let lo = rel % 256 in
    let hi = rel / 256 % 256 in
    let size : length xs + 1 ≡ length (xs ++ (lo ∷ [])) =
      omega (arith, length-append xs (lo ∷ [])) in
    ap (λ (s : Bytes). set s (length xs + 1) hi) (set-append xs (y ∷ ys) x lo (length xs) refl)
    ∙ ap (λ (s : Bytes). set s (length xs + 1) hi) (sym (append_assoc xs (lo ∷ []) (y ∷ ys)))
    ∙ set-append (xs ++ (lo ∷ [])) ys y hi (length xs + 1) size
    ∙ append_assoc xs (lo ∷ []) (hi ∷ ys)

-- A patched operand is the distance from behind it to the end of the code.
pub chunk_patch_jump-code :
    (ch : Chunk) (xs ys : Bytes) (off op x y : ℕ)
    → ch.code ≡ xs ++ (op ∷ x ∷ y ∷ ys)
    → off ≡ length xs + 1
    → (chunk_patch_jump ch off).code ≡ xs ++ (op ∷ length ys % 256 ∷ length ys / 256 % 256 ∷ ys)
unfolding chunk_patch_jump
chunk_patch_jump-code ch xs ys off op x y h e =
    let rel = int_sub (length ch.code) (off + 2) in
    let place : off ≡ length (xs ++ (op ∷ [])) = omega (arith, length-append xs (op ∷ [])) in
    let parts : ch.code ≡ (xs ++ (op ∷ [])) ++ (x ∷ y ∷ ys) =
      h ∙ sym (append_assoc xs (op ∷ []) (x ∷ y ∷ ys)) in
    let size : length ch.code ≡ length xs + suc (suc (suc (length ys))) =
      rw h (length-append xs (op ∷ x ∷ y ∷ ys)) in
    let lo : rel % 256 ≡ length ys % 256 = omega arith in
    let hi : rel / 256 % 256 ≡ length ys / 256 % 256 = omega arith in
    ap (λ (s : Bytes). store_s16 s off rel) parts
    ∙ ap (λ (i : ℕ). store_s16 ((xs ++ (op ∷ [])) ++ (x ∷ y ∷ ys)) i rel) place
    ∙ store_s16-append (xs ++ (op ∷ [])) ys x y rel
    ∙ append_assoc xs (op ∷ []) (rel % 256 ∷ rel / 256 % 256 ∷ ys)
    ∙ ap (λ (b : ℕ). xs ++ (op ∷ b ∷ rel / 256 % 256 ∷ ys)) lo
    ∙ ap (λ (b : ℕ). xs ++ (op ∷ length ys % 256 ∷ b ∷ ys)) hi
