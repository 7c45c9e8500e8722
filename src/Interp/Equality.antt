-- ===== src/Interp/Equality.antt =====
-- src/interpreter.c: `==` and `!=`.
use myon.Base.{
  ℕ, ◌+◌, ◌*◌, ◌^◌, ◌≤◌, ◌<◌, ◌≡◌, refl, ap, ◌∙◌, Bool, true, false, not, ◌==◌, if◌then◌else◌,
  arith,
}
use myon.Base.Words.{pos}
use myon.Value.{Value, v_int, v_float, v_bool, v_nil, v_str, v_char, v_error, value_equal}
use myon.Interp.Ints.{Evaluated, value, runtime_error, overflowed, op_eq, op_neq}
use myon.Interp.Operators.{
  FloatOps, compare_ints, eval_same, type_tag, eval_typed, eval_nil, eval_binary,
}
use myon.Interp.Integers.{compare_ints_collapse}

-- A truth value is turned round; an error stays.
abbrev pub negated : Evaluated Value → Evaluated Value
negated (value (v_bool b)) = value (v_bool (not b))
negated (value v) = value v
negated (runtime_error message) = runtime_error message
negated overflowed = overflowed

eval_same-neq :
    (fl : FloatOps) (l r : Value) → eval_same fl op_neq l r ≡ negated (eval_same fl op_eq l r)
unfolding compare_ints
eval_same-neq fl (v_int a) (v_int b) = refl
eval_same-neq fl (v_float a) (v_float b) = refl
eval_same-neq fl (v_str a) (v_str b) = refl
eval_same-neq fl (v_char a) (v_char b) = refl
eval_same-neq fl (v_bool a) (v_bool b) = refl
eval_same-neq fl (v_error a) (v_error b) = refl
eval_same-neq fl _ _ = refl

eval_typed-neq :
    (fl : FloatOps) (l r : Value) → eval_typed fl op_neq l r ≡ negated (eval_typed fl op_eq l r)
eval_typed-neq fl l r = go (type_tag l == type_tag r)
  where
    go :
        (b : Bool)
        → (if b
            then eval_same fl op_neq l r
            else runtime_error
                "type mismatch: cannot apply operator to %s and %s (strict typing, spec 2.2)")
          ≡ negated (
              if b
              then eval_same fl op_eq l r
              else runtime_error
                  "type mismatch: cannot apply operator to %s and %s (strict typing, spec 2.2)")
    go true = eval_same-neq fl l r
    go false = refl

eval_nil-neq :
    (l r : Value) (other : Evaluated Value)
    → eval_nil not l r (negated other) ≡ negated (eval_nil (λ b. b) l r other)
eval_nil-neq v_nil v_nil other = refl
eval_nil-neq v_nil (v_error s) other = refl
eval_nil-neq (v_error s) v_nil other = refl
eval_nil-neq v_nil r other = refl
eval_nil-neq l v_nil other = refl
eval_nil-neq l r other = refl

-- For any two values, != gives the negation of what == gives, or the same error.
pub eval_binary-neq :
    (fl : FloatOps) (l r : Value) → eval_binary fl op_neq l r ≡ negated (eval_binary fl op_eq l r)
unfolding eval_binary
eval_binary-neq fl l r =
    ap (eval_nil not l r) (eval_typed-neq fl l r) ∙ eval_nil-neq l r (eval_typed fl op_eq l r)

-- From 2^53 to below 2^54, a multiple of 4 and the odd number above it are equal to the operator
-- ==, whatever the processor does with doubles, but not to the comparison of values that maps use.
pub eval_binary_collapse :
    (fl : FloatOps) (m : ℕ)
    → 2 ^ 51 ≤ m
    → m < 2 ^ 52
    → (eval_binary fl op_eq (v_int (pos (4 * m + 1))) (v_int (pos (4 * m))) ≡ value (v_bool true))
      × (value_equal (v_int (pos (4 * m + 1))) (v_int (pos (4 * m))) ≡ false)
unfolding eval_binary value_equal
eval_binary_collapse fl m low high =
    (ap (λ (b : Bool). value (v_bool b)) (compare_ints_collapse m low high), ground arith)
