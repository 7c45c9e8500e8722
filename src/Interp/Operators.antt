-- ===== src/Interp/Operators.antt =====
-- src/interpreter.c: `eval_binary`, and the machine's calls of it and of the unary operators.
-- Arithmetic and order on doubles are the processor's: a parameter.
use myon.Base.{ℕ, Bool, true, false, not, ◌||◌, ◌++◌, ◌==◌, ltb, if◌then◌else◌, Bytes, str_eq}
use myon.Base.Words.{ℤ, pos, negsuc}
use Prim.Native.String.{String}
use myon.Value.{
  Value, v_int, v_float, v_bool, v_nil, v_void, v_str, v_char, v_error, v_ref, RefKind, ref_array,
  ref_map, ref_struct, ref_func, ref_task, int_eq, float_eq, bool_eq,
}
use myon.Interp.Ints.{
  Evaluated, value, runtime_error, overflowed, OpKind, op_add, op_sub, op_mul, op_div, op_eq,
  op_neq, op_lt, op_gt, op_le, op_ge, int_arith, to_double, negℤ, is_min,
}

-- IEEE 754 on the bits of doubles.
pub record FloatOps : Type 0 where
  pub add : ℕ → ℕ → ℕ
  pub sub : ℕ → ℕ → ℕ
  pub mul : ℕ → ℕ → ℕ
  pub div : ℕ → ℕ → ℕ
  pub less : ℕ → ℕ → Bool
  pub negate : ℕ → ℕ

abbrev pub int_less : ℤ → ℤ → Bool
int_less (pos a) (pos b) = ltb a b
int_less (pos a) (negsuc b) = false
int_less (negsuc a) (pos b) = true
int_less (negsuc a) (negsuc b) = ltb b a

-- `compare_ordered`, from `<`, `>` and `==` of its operands.
abbrev pub compare_ordered : Bool → Bool → Bool → OpKind → Bool
compare_ordered lt gt eq op_lt = lt
compare_ordered lt gt eq op_gt = gt
compare_ordered lt gt eq op_le = lt || eq
compare_ordered lt gt eq op_ge = gt || eq
compare_ordered lt gt eq op_eq = eq
compare_ordered lt gt eq op_neq = not eq
compare_ordered lt gt eq _ = false

abbrev pub as_int : Evaluated ℤ → Evaluated Value
as_int (value i) = value (v_int i)
as_int (runtime_error message) = runtime_error message
as_int overflowed = overflowed

-- Integers are compared as doubles.
unfoldable pub compare_ints : OpKind → ℤ → ℤ → Bool
compare_ints op a b =
    let x = to_double a in
    let y = to_double b in compare_ordered (int_less x y) (int_less y x) (int_eq x y) op

abbrev pub eval_ints : OpKind → ℤ → ℤ → Evaluated Value
eval_ints op_add a b = as_int (int_arith op_add a b)
eval_ints op_sub a b = as_int (int_arith op_sub a b)
eval_ints op_mul a b = as_int (int_arith op_mul a b)
eval_ints op_div a b = as_int (int_arith op_div a b)
eval_ints op a b = value (v_bool (compare_ints op a b))

abbrev pub eval_floats : FloatOps → OpKind → ℕ → ℕ → Evaluated Value
eval_floats fl op_add a b = value (v_float (fl.add a b))
eval_floats fl op_sub a b = value (v_float (fl.sub a b))
eval_floats fl op_mul a b = value (v_float (fl.mul a b))
eval_floats fl op_div a b =
    if float_eq b 0 then runtime_error "division by zero" else value (v_float (fl.div a b))
eval_floats fl op a b =
    value (v_bool (compare_ordered (fl.less a b) (fl.less b a) (float_eq a b) op))

-- `==` and `!=` where no other operator is supported.
abbrev pub eval_equal_only : String → OpKind → Bool → Evaluated Value
eval_equal_only message op_eq eq = value (v_bool eq)
eval_equal_only message op_neq eq = value (v_bool (not eq))
eval_equal_only message _ eq = runtime_error message

abbrev pub eval_strs : OpKind → Bytes → Bytes → Evaluated Value
eval_strs op_add a b = value (v_str (a ++ b))
eval_strs op a b = eval_equal_only "unsupported operator on str" op (str_eq a b)

-- The operands have the same type.
abbrev pub eval_same : FloatOps → OpKind → Value → Value → Evaluated Value
eval_same fl op (v_int a) (v_int b) = eval_ints op a b
eval_same fl op (v_float a) (v_float b) = eval_floats fl op a b
eval_same fl op (v_str a) (v_str b) = eval_strs op a b
eval_same fl op (v_char a) (v_char b) =
    eval_equal_only "unsupported operator on char" op (str_eq a b)
eval_same fl op (v_bool a) (v_bool b) =
    eval_equal_only "unsupported operator on bool" op (bool_eq a b)
eval_same fl op (v_error a) (v_error b) =
    eval_equal_only "unsupported operator on error" op (str_eq a b)
eval_same fl op l r = runtime_error "unsupported operand type %s"

abbrev pub kind_tag : RefKind → ℕ
kind_tag ref_array = 8
kind_tag ref_map = 9
kind_tag ref_struct = 10
kind_tag ref_func = 11
kind_tag ref_task = 12

-- The types, in some order.
abbrev pub type_tag : Value → ℕ
type_tag (v_int i) = 0
type_tag (v_float d) = 1
type_tag (v_str s) = 2
type_tag (v_char s) = 3
type_tag (v_bool b) = 4
type_tag v_nil = 5
type_tag (v_error s) = 6
type_tag v_void = 7
type_tag (v_ref kind a) = kind_tag kind

abbrev pub eval_typed : FloatOps → OpKind → Value → Value → Evaluated Value
eval_typed fl op l r =
    if type_tag l == type_tag r
    then eval_same fl op l r
    else runtime_error "type mismatch: cannot apply operator to %s and %s (strict typing, spec 2.2)"

-- `==` and `!=` come here first: `equal` makes the answer of whether the operands are equal.
abbrev pub eval_nil : (Bool → Bool) → Value → Value → Evaluated Value → Evaluated Value
eval_nil equal v_nil v_nil other = value (v_bool (equal true))
eval_nil equal v_nil (v_error s) other = value (v_bool (equal false))
eval_nil equal (v_error s) v_nil other = value (v_bool (equal false))
eval_nil equal v_nil r other =
    runtime_error "myon.nil may only be compared with error values (spec 2.4); got %s and %s"
eval_nil equal l v_nil other =
    runtime_error "myon.nil may only be compared with error values (spec 2.4); got %s and %s"
eval_nil equal l r other = other

unfoldable pub eval_binary : FloatOps → OpKind → Value → Value → Evaluated Value
eval_binary fl op_eq l r = eval_nil (λ b. b) l r (eval_typed fl op_eq l r)
eval_binary fl op_neq l r = eval_nil not l r (eval_typed fl op_neq l r)
eval_binary fl op l r = eval_typed fl op l r

-- `-x` of the least integer is a signed overflow.
unfoldable pub myon_bridge_neg : FloatOps → Value → Evaluated Value
myon_bridge_neg fl (v_int x) = if is_min x then overflowed else value (v_int (negℤ x))
myon_bridge_neg fl (v_float x) = value (v_float (fl.negate x))
myon_bridge_neg fl v = runtime_error "unary '-' requires int or float, got %s"

unfoldable pub myon_bridge_not : Value → Evaluated Value
myon_bridge_not (v_bool b) = value (v_bool (not b))
myon_bridge_not v = runtime_error "myon.not requires bool, got %s"
