-- ===== src/Interp/Tests.antt =====
-- Instances of the theorems on numbers.
use myon.Base.{◌^◌, ◌≡◌, refl, true, false, arith}
use myon.Base.Words.{pos, negsuc}
use myon.Base.Text.{codes}
use myon.Value.{v_int, v_bool, v_str, value_equal}
use myon.Interp.Ints.{value, int_arith, op_div, op_eq, op_neq}
use myon.Interp.Operators.{FloatOps, eval_binary}
use myon.Interp.Arithmetic.{Computes, int_arith_lem}
use myon.Interp.Equality.{negated, eval_binary-neq, eval_binary_collapse}

-- No operator of these runs works on doubles.
abbrev no_floats : FloatOps
no_floats = record {
  add = λ a b. 0;
  sub = λ a b. 0;
  mul = λ a b. 0;
  div = λ a b. 0;
  less = λ a b. false;
  negate = λ a. 0;
}

seven_by_minus_two : int_arith op_div (pos 7) (negsuc 1) ≡ value (negsuc 2)
unfolding int_arith
seven_by_minus_two = refl

int_arith_lem_example : Computes op_div (pos 7) (negsuc 1) (int_arith op_div (pos 7) (negsuc 1))
int_arith_lem_example = int_arith_lem op_div (pos 7) (negsuc 1) refl (omega arith) (omega arith)

eval_binary-neq_example :
    eval_binary no_floats op_neq (v_str (codes "a")) (v_str (codes "b"))
    ≡ negated (eval_binary no_floats op_eq (v_str (codes "a")) (v_str (codes "b")))
eval_binary-neq_example = eval_binary-neq no_floats (v_str (codes "a")) (v_str (codes "b"))

eval_binary_collapse_example :
    (eval_binary no_floats op_eq (v_int (pos 9007199254740993)) (v_int (pos 9007199254740992))
      ≡ value (v_bool true))
    × (value_equal (v_int (pos 9007199254740993)) (v_int (pos 9007199254740992)) ≡ false)
eval_binary_collapse_example = eval_binary_collapse no_floats (2 ^ 51) (omega arith) (omega arith)
