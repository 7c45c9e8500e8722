-- ===== src/Mvm/Emit/Jumps.antt =====
-- Where patched jumps go.
use myon.Base.{
  ℕ, zero, suc, ◌+◌, ◌-◌, ◌/◌, ◌%◌, ◌^◌, ◌≤◌, ◌<◌, ◌≡◌, ◌≢◌, refl, ap, ◌∙◌, [], ◌∷◌, ◌++◌, Bytes,
  length, length-append, length-set, get_or, set, arith,
}
use myon.Mvm.{Chunk}
use myon.Mvm.Emit.{
  chunk_note_line, chunk_emit_byte, chunk_patch_jump, chunk_emit_loop, read_u16, jump_target,
  store_s16, int_sub,
}

get_or-set_self : (xs : Bytes) (i v : ℕ) → i < length xs → get_or (set xs i v) i 0 ≡ v
get_or-set_self [] i v h = elim h [ ]
get_or-set_self (x ∷ xs) zero v h = refl
get_or-set_self (x ∷ xs) (suc i) v h = get_or-set_self xs i v (omega arith)

get_or-set_ne : (xs : Bytes) (i j v : ℕ) → i ≢ j → get_or (set xs i v) j 0 ≡ get_or xs j 0
get_or-set_ne [] i j v h = refl
get_or-set_ne (x ∷ xs) zero zero v h = absurd (h refl)
get_or-set_ne (x ∷ xs) zero (suc j) v h = refl
get_or-set_ne (x ∷ xs) (suc i) zero v h = refl
get_or-set_ne (x ∷ xs) (suc i) (suc j) v h = get_or-set_ne xs i j v (λ e. h (ap suc e))

-- What was stored is read, and nothing else changes.
read_u16-store_s16 :
    (code : Bytes) (off rel : ℕ)
    → off + 1 < length code
    → read_u16 (store_s16 code off rel) off ≡ rel % 2 ^ 16
unfolding read_u16
read_u16-store_s16 code off rel h = omega (
  arith,
  get_or-set_ne (set code off (rel % 256)) (off + 1) off (rel / 256 % 256) (omega arith),
  get_or-set_self code off (rel % 256) (omega arith),
  get_or-set_self (set code off (rel % 256)) (off + 1) (rel / 256 % 256)
      (omega (arith, length-set code off (rel % 256))),
)

get_or-store_s16 :
    (code : Bytes) (off rel i : ℕ)
    → i ≢ off
    → i ≢ off + 1
    → get_or (store_s16 code off rel) i 0 ≡ get_or code i 0
get_or-store_s16 code off rel i h k = omega (
  arith,
  get_or-set_ne (set code off (rel % 256)) (off + 1) i (rel / 256 % 256) (λ e. omega arith),
  get_or-set_ne code off i (rel % 256) (λ e. omega arith),
)

-- Reading the operand of a stored distance, as a target, for a forward and for a backward jump.
target_forward :
    (code : Bytes) (off target : ℕ)
    → off + 1 < length code
    → off + 2 ≤ target
    → target < off + 2 + 2 ^ 15
    → jump_target (store_s16 code off (int_sub target (off + 2))) off ≡ target
unfolding jump_target
target_forward code off target h lo hi =
    let w : read_u16 (store_s16 code off (int_sub target (off + 2))) off ≡ target - (off + 2) =
      omega (arith, read_u16-store_s16 code off (int_sub target (off + 2)) h) in
    rw w (ground arith)

target_backward :
    (code : Bytes) (off target : ℕ)
    → off + 1 < length code
    → off < 2 ^ 31
    → target < off + 2
    → off + 2 ≤ target + 2 ^ 15
    → jump_target (store_s16 code off (int_sub target (off + 2))) off ≡ target
unfolding jump_target
target_backward code off target h small hi lo =
    let w : read_u16 (store_s16 code off (int_sub target (off + 2))) off
        ≡ target + 2 ^ 16 - (off + 2) =
      omega (arith, read_u16-store_s16 code off (int_sub target (off + 2)) h) in
    rw w (ground arith)

length-store_s16 : (code : Bytes) (off rel : ℕ) → length (store_s16 code off rel) ≡ length code
length-store_s16 code off rel = omega (
  arith,
  length-set code off (rel % 256),
  length-set (set code off (rel % 256)) (off + 1) (rel / 256 % 256),
)

-- A jump whose operand lies in the code, patched at the end of the code, goes to that end if the
-- way is below 2^15; the code keeps its length and every byte outside the operand.
pub chunk_patch_jump_lem :
    (c : Chunk) (off i : ℕ)
    → off + 2 ≤ length c.code
    → length c.code < off + 2 + 2 ^ 15
    → i ≢ off
    → i ≢ off + 1
    → (jump_target (chunk_patch_jump c off).code off ≡ length c.code)
      × (length (chunk_patch_jump c off).code ≡ length c.code)
      × (get_or (chunk_patch_jump c off).code i 0 ≡ get_or c.code i 0)
unfolding chunk_patch_jump
chunk_patch_jump_lem c off i h way ne ne' = (
  target_forward c.code off (length c.code) (omega arith) h way,
  length-store_s16 c.code off _,
  get_or-store_s16 c.code off _ i ne ne',
)

-- A patched jump over 2^15 or more bytes does not go to the end of the code, if that is below 2^31
-- bytes.
pub chunk_patch_jump_too_far :
    (c : Chunk) (off : ℕ)
    → off + 2 + 2 ^ 15 ≤ length c.code
    → length c.code < 2 ^ 31
    → jump_target (chunk_patch_jump c off).code off ≢ length c.code
unfolding chunk_patch_jump jump_target
chunk_patch_jump_too_far c off far small e =
    let rel = int_sub (length c.code) (off + 2) in
    let w : read_u16 (store_s16 c.code off rel) off ≡ rel % 2 ^ 16 =
      read_u16-store_s16 c.code off rel (omega arith) in
    ground (arith, w)

-- Noting a line leaves the code alone.
pub chunk_note_line-code : (c : Chunk) (off line : ℕ) → (chunk_note_line c off line).code ≡ c.code
unfolding chunk_note_line
chunk_note_line-code c off line = ground arith

-- An emitted loop jump goes to its target if that is at most 2^15 bytes back from its end, and
-- adds three bytes to a code that stays below 2^31 bytes.
pub chunk_emit_loop_lem :
    (c : Chunk) (op target line : ℕ)
    → target ≤ length c.code
    → length c.code + 3 ≤ target + 2 ^ 15
    → length c.code + 3 < 2 ^ 31
    → (jump_target (chunk_emit_loop c op target line).code (length c.code + 1) ≡ target)
      × (length (chunk_emit_loop c op target line).code ≡ length c.code + 3)
unfolding chunk_emit_loop chunk_emit_byte
chunk_emit_loop_lem c op target line h way small =
    let grown : length (c.code ++ op ∷ []) ≡ length c.code + 1 =
      omega (arith, length-append c.code (op ∷ [])) in
    let placed : length ((c.code ++ op ∷ []) ++ 0 ∷ 0 ∷ []) ≡ length c.code + 3 =
      omega (arith, grown, length-append (c.code ++ op ∷ []) (0 ∷ 0 ∷ [])) in
    rw (chunk_note_line-code c (length c.code) line, grown)
      (
        target_backward ((c.code ++ op ∷ []) ++ 0 ∷ 0 ∷ []) (length c.code + 1) target
            (omega (arith, placed)) (omega arith) (omega arith) (omega arith),
        length-store_s16 ((c.code ++ op ∷ []) ++ 0 ∷ 0 ∷ []) (length c.code + 1) _ ∙ placed,
      )
