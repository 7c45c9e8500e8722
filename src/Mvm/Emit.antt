-- ===== src/Mvm/Emit.antt =====
-- src/mvm_chunk.c, code emission and backpatching; src/mvm_vm.c, how the machine reads operands,
-- takes jumps and finds source lines. A source line is a nonnegative int, and 0 means none.
pub mod Jumps
pub mod Lines
use myon.Base.{
  ℕ, zero, suc, ◌+◌, ◌-◌, ◌*◌, ◌/◌, ◌%◌, ◌^◌, Bool, true, false, List, [], ◌∷◌, ◌++◌, ◌==◌, leb,
  ltb, if◌then◌else◌, Bytes, length, get_or, set,
}
use myon.Mvm.{LineEntry, Chunk}

abbrev last_line : List LineEntry → ℕ
last_line [] = 0
last_line (l ∷ []) = l.line
last_line (l ∷ m ∷ ls) = last_line (m ∷ ls)

-- A row is added only where the line changes.
unfoldable pub chunk_note_line : Chunk → ℕ → ℕ → Chunk
chunk_note_line c off line =
    if line == 0
    then c
    else if last_line c.lines == line
    then c
    else record c { lines = c.lines ++ (record { code_off = off; line = line }) ∷ [] }

unfoldable pub chunk_emit_byte : Chunk → ℕ → ℕ → Chunk
chunk_emit_byte c b line =
    let noted = chunk_note_line c (length c.code) line in
    record noted { code = noted.code ++ b ∷ [] }

abbrev pub chunk_emit_op : Chunk → ℕ → ℕ → Chunk
chunk_emit_op = chunk_emit_byte

-- Two bytes, the low one first.
abbrev pub chunk_emit_u16 : Chunk → ℕ → Chunk
chunk_emit_u16 c v = record c { code = c.code ++ (v % 256) ∷ (v / 256 % 256) ∷ [] }

abbrev pub chunk_emit_op_u16 : Chunk → ℕ → ℕ → ℕ → Chunk
chunk_emit_op_u16 c op a line = chunk_emit_u16 (chunk_emit_op c op line) a

abbrev pub chunk_emit_op_u8 : Chunk → ℕ → ℕ → ℕ → Chunk
chunk_emit_op_u8 c op a line =
    let emitted = chunk_emit_op c op line in record emitted { code = emitted.code ++ a ∷ [] }

abbrev pub chunk_here : Chunk → ℕ
chunk_here c = length c.code

-- The operand's offset, and the chunk with a placeholder there.
unfoldable pub chunk_emit_jump : Chunk → ℕ → ℕ → ℕ × Chunk
chunk_emit_jump c op line =
    let emitted = chunk_emit_op c op line in (length emitted.code, chunk_emit_u16 emitted 0xFFFF)

-- `int` subtraction, as its 32-bit pattern; both are code offsets.
abbrev pub int_sub : ℕ → ℕ → ℕ
int_sub a b = (a + 2 ^ 32 - b) % 2 ^ 32

-- `code[off] = rel & 0xFF; code[off+1] = (rel >> 8) & 0xFF;`
abbrev pub store_s16 : Bytes → ℕ → ℕ → Bytes
store_s16 code off rel = set (set code off (rel % 256)) (off + 1) (rel / 256 % 256)

unfoldable pub chunk_patch_jump : Chunk → ℕ → Chunk
chunk_patch_jump c operand_off = record c {
  code = store_s16 c.code operand_off (int_sub (length c.code) (operand_off + 2));
}

unfoldable pub chunk_emit_loop : Chunk → ℕ → ℕ → ℕ → Chunk
chunk_emit_loop c op target_off line =
    let emitted = chunk_emit_op c op line in
    let operand_off = length emitted.code in
    let placed = chunk_emit_u16 emitted 0 in
    record placed {
      code = store_s16 placed.code operand_off (int_sub target_off (operand_off + 2));
    }

-- `read_u16`: the two bytes at an offset.
unfoldable pub read_u16 : Bytes → ℕ → ℕ
read_u16 code off = get_or code off 0 + 256 * get_or code (off + 1) 0

-- `int16_t o = read_s16(f); f->ip += o;`: where a jump with its operand at `off` goes. The offset is
-- counted from behind the operand; a place before the code would be 0 here.
unfoldable pub jump_target : Bytes → ℕ → ℕ
jump_target code off =
    let w = read_u16 code off in if ltb w (2 ^ 15) then off + 2 + w else off + 2 + w - 2 ^ 16

abbrev line_from : ℕ → List LineEntry → ℕ → ℕ
line_from best [] off = best
line_from best (l ∷ ls) off = if leb l.code_off off then line_from l.line ls off else best

-- `line_for`: the line of the last row at or before the offset; the scan stops at the first row
-- behind it.
unfoldable pub line_for : Chunk → ℕ → ℕ
line_for c off = line_from 0 c.lines off
