-- ===== src/Mvm/Emit/Lines.antt =====
-- The line table: every instruction is found at the line that it was emitted for.
use myon.Base.{ℕ, ◌≤◌, ◌<◌, List, [], ◌∷◌, ◌++◌, length, ◌==◌, if◌then◌else◌}
use myon.Mvm.{LineEntry, Chunk}
use myon.Mvm.Emit.{last_line}

-- Rows stand in the order of their offsets, all in the code, and none has line 0.
abbrev pub RowsFrom : ℕ → List LineEntry → ℕ → Type 0
RowsFrom low [] high = Unit
RowsFrom low (l ∷ ls) high =
    (low ≤ l.code_off) × (l.code_off < high) × (0 < l.line) × RowsFrom l.code_off ls high

abbrev pub LinesOrdered : Chunk → Type 0
LinesOrdered c = RowsFrom 0 c.lines (length c.code)

-- The table behind an emission, as `chunk_note_line` leaves it.
abbrev noted : List LineEntry → ℕ → ℕ → List LineEntry
noted ls off line =
    if last_line ls == line then ls else ls ++ (record { code_off = off; line = line }) ∷ []
