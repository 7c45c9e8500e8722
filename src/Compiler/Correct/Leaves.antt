-- ===== src/Compiler/Correct/Leaves.antt =====
-- The constants, texts and opcodes of expressions, src/mvm_compiler.c.
use myon.Base.{
  ℕ, ◌%◌, ◌^◌, ◌≡◌, ◌≢◌, refl, ap, true, false, ◌||◌, ◌&&◌, ◌==◌, [], ◌∷◌, some, inl, inr, Bytes,
  arith, str_eq_iff,
}
use myon.Base.Words.{ℤ, pos, negsuc}
use myon.Value.{v_int, v_float, v_str}
use myon.Interp.Ints.{
  value, OpKind, op_add, op_sub, op_mul, op_div, op_eq, op_neq, op_lt, op_gt, op_le, op_ge,
}
use myon.Interp.Eval.{interpolate_string}
use myon.Mvm.{ConstEntry, int, float, str}
use myon.Mvm.Pool.{same_const, int_eq, float_eq}
use myon.Mvm.Opcode.{mop_nop}
use myon.Vm.Variables.{const_value}
use myon.Compiler.State.{Compiler, made, on_chunk}
use myon.Compiler.Calls.{binary_opcode, holds, open_brace, close_brace}
use myon.Compiler.Tree.{emit_binary}
use myon.Compiler.Correct.Expressions.{Stands}
use myon.Compiler.Correct.Compound.{emitted}

pub int-Stands : (x : ConstEntry) (i : ℤ) → Stands x (int i) → const_value x ≡ v_int i
unfolding same_const int_eq
int-Stands x i (inr e) = ap const_value e
int-Stands (int (pos a)) (pos b) (inl e) = ap (λ (n : ℕ). v_int (pos n)) (ground arith)
int-Stands (int (negsuc a)) (negsuc b) (inl e) = ap (λ (n : ℕ). v_int (negsuc n)) (ground arith)
int-Stands x i (inl e) = absurd (cc)

float_eq-same : (a d : ℕ) → d % 2 ^ 63 ≢ 0 → float_eq a d ≡ true → a ≡ d
unfolding float_eq
float_eq-same a d nz e = ground arith

-- Equal doubles that are not 0 have the same bits.
pub float-Stands :
    (x : ConstEntry) (d : ℕ) → d % 2 ^ 63 ≢ 0 → Stands x (float d) → const_value x ≡ v_float d
unfolding same_const float_eq
float-Stands x d nz (inr e) = ap const_value e
float-Stands (float a) d nz (inl e) = ap v_float (float_eq-same a d nz e)
float-Stands x d nz (inl e) = absurd (cc)

pub str-Stands : (x : ConstEntry) (s : Bytes) → Stands x (str s) → const_value x ≡ v_str s
unfolding same_const
str-Stands x s (inr e) = ap const_value e
str-Stands (str a) s (inl e) = ap v_str ((str_eq_iff a s).0 e)
str-Stands x s (inl e) = absurd (cc)

-- A text without braces is its own value.
pub interpolate_string-plain :
    (s : Bytes)
    → (holds open_brace s || holds close_brace s) ≡ false
    → interpolate_string s ≡ some (value s)
unfolding interpolate_string holds
interpolate_string-plain [] h = refl
interpolate_string-plain (b ∷ []) h =
    let not_open : (b == open_brace) ≡ false = ground arith in rw not_open refl
interpolate_string-plain (b ∷ b' ∷ s) h =
    let not_open : (b == open_brace) ≡ false = ground arith in
    let no_pair : (b == b' && (b == open_brace || b == close_brace)) ≡ false = ground arith in
    let rest : (holds open_brace (b' ∷ s) || holds close_brace (b' ∷ s)) ≡ false = ground arith in
    let there : interpolate_string (b' ∷ s) ≡ some (value (b' ∷ s)) =
      interpolate_string-plain (b' ∷ s) rest in
    ground (arith, no_pair, not_open, there)

-- The opcode of a binary operator is emitted.
pub emit_binary-known :
    (op : OpKind) (line : ℕ) (c : Compiler)
    → binary_opcode op ≢ mop_nop
    → emit_binary (binary_opcode op) line c ≡ made (tt, emitted (binary_opcode op) line c)
unfolding emit_binary binary_opcode on_chunk
emit_binary-known op_add line c known = refl
emit_binary-known op_sub line c known = refl
emit_binary-known op_mul line c known = refl
emit_binary-known op_div line c known = refl
emit_binary-known op_eq line c known = refl
emit_binary-known op_neq line c known = refl
emit_binary-known op_lt line c known = refl
emit_binary-known op_gt line c known = refl
emit_binary-known op_le line c known = refl
emit_binary-known op_ge line c known = refl
emit_binary-known _ line c known = absurd (known refl)
