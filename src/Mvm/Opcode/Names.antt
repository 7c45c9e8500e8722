-- ===== src/Mvm/Opcode/Names.antt =====
-- src/mvm_chunk.c: the names of the opcodes.
use Prim.Native.String.{String}
use myon.Base.{
  ℕ, zero, suc, ◌<◌, ◌≡◌, refl, Bool, true, false, not, ◌&&◌, Bool-cases, inl, inr, List, [], ◌∷◌,
  ◌==◌, ==_iff, if◌then◌else◌, arith,
}
use myon.Mvm.Opcode.{OperandBytes, width, variable, unknown, mvm_opcode_operand_bytes, one_of}

-- `none` is the default case.
abbrev pub opcode_names : List (ℕ × String)
opcode_names =
    (0x00, "NOP")
    ∷ (0x01, "PUSH_CONST")
    ∷ (0x02, "PUSH_TRUE")
    ∷ (0x03, "PUSH_FALSE")
    ∷ (0x04, "PUSH_NIL")
    ∷ (0x05, "POP")
    ∷ (0x06, "DUP")
    ∷ (0x10, "ADD")
    ∷ (0x11, "SUB")
    ∷ (0x12, "MUL")
    ∷ (0x13, "DIV")
    ∷ (0x18, "EQ")
    ∷ (0x19, "NEQ")
    ∷ (0x1A, "LT")
    ∷ (0x1B, "GT")
    ∷ (0x1C, "LE")
    ∷ (0x1D, "GE")
    ∷ (0x28, "NEG")
    ∷ (0x29, "NOT")
    ∷ (0x30, "LOAD_LOCAL")
    ∷ (0x31, "STORE_LOCAL")
    ∷ (0x32, "LOAD_GLOBAL")
    ∷ (0x33, "STORE_GLOBAL")
    ∷ (0x40, "JUMP")
    ∷ (0x41, "JUMP_IF_FALSE")
    ∷ (0x42, "JUMP_IF_TRUE")
    ∷ (0x50, "MAKE_CLOSURE")
    ∷ (0x53, "LOAD_UPVALUE")
    ∷ (0x54, "STORE_UPVALUE")
    ∷ (0x55, "SPAWN_ASYNC")
    ∷ (0x56, "AWAIT")
    ∷ (0x51, "CALL")
    ∷ (0x52, "RET")
    ∷ (0x60, "NEW_ARRAY")
    ∷ (0x61, "NEW_MAP")
    ∷ (0x62, "ARRAY_PUSH")
    ∷ (0x63, "INDEX_GET")
    ∷ (0x64, "INDEX_SET")
    ∷ (0x70, "NEW_STRUCT")
    ∷ (0x71, "GET_FIELD")
    ∷ (0x72, "SET_FIELD")
    ∷ (0x73, "INVOKE")
    ∷ (0x80, "STR_CONCAT")
    ∷ (0x81, "TO_STR")
    ∷ (0x82, "CAST_STR")
    ∷ (0x83, "CAST_INT")
    ∷ (0x84, "CAST_CHAR")
    ∷ (0x85, "MAKE_ERROR")
    ∷ (0x90, "CALL_NATIVE")
    ∷ (0xA0, "UNPACK")
    ∷ (0xA1, "CHECK_NOT_NIL")
    ∷ []

abbrev pub name_in : List (ℕ × String) → ℕ → String
name_in [] op = "???"
name_in ((code, name) ∷ rows) op = if op == code then name else name_in rows op

unfoldable pub mvm_opcode_name : ℕ → String
mvm_opcode_name op = name_in opcode_names op

abbrev pub is_listed : List (ℕ × String) → ℕ → Bool
is_listed [] op = false
is_listed ((code, name) ∷ rows) op = if op == code then true else is_listed rows op

abbrev pub has_width : OperandBytes → Bool
has_width (width n) = true
has_width variable = true
has_width unknown = false

abbrev bool_same : Bool → Bool → Bool
bool_same true b = b
bool_same false b = not b

abbrev all_below : (ℕ → Bool) → ℕ → Bool
all_below p zero = true
all_below p (suc n) = p n && all_below p n

all_below-at : (p : ℕ → Bool) (n op : ℕ) → op < n → all_below p n ≡ true → p op ≡ true
all_below-at p zero op lt h = elim lt [ ]
all_below-at p (suc n) op lt h =
    let last : p n ≡ true = ground arith in
    let others : all_below p n ≡ true = ground arith in
    elim (Bool-cases (op == n)) [
      | inl here ↦ rw ((==_iff op n).0 here) last
      | inr further ↦ all_below-at p n op (ground arith) others
    ]

abbrev agree : ℕ → Bool
agree op = bool_same (is_listed opcode_names op) (has_width (mvm_opcode_operand_bytes op))

all_agree : all_below agree 256 ≡ true
unfolding mvm_opcode_operand_bytes one_of
all_agree = refl

bool_same→≡ : (a b : Bool) → bool_same a b ≡ true → a ≡ b
bool_same→≡ true true h = refl
bool_same→≡ _ _ h = ground arith

-- A byte has a name of its own if and only if its operand width is known or variable: the two
-- tables know the same opcodes.
pub opcode_names_same :
    (op : ℕ) → op < 256 → is_listed opcode_names op ≡ has_width (mvm_opcode_operand_bytes op)
opcode_names_same op lt =
    bool_same→≡ (is_listed opcode_names op) (has_width (mvm_opcode_operand_bytes op))
      (all_below-at agree 256 op lt all_agree)
