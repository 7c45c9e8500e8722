-- ===== src/Interp/Ints.antt =====
-- src/interpreter.c: arithmetic on `long long`, and its conversion to `double`.
use myon.Base.{
  ℕ, zero, suc, ◌+◌, ◌*◌, ◌-◌, ◌/◌, ◌%◌, ◌^◌, Bool, false, ◌&&◌, ◌==◌, ltb, leb, if◌then◌else◌,
}
use myon.Base.Words.{ℤ, pos, negsuc}
use Prim.Native.String.{String}

-- A value, `runtime_error` with the format of its message, or a signed overflow, which C leaves
-- undefined.
pub data Evaluated {ℓ} (A : Type ℓ) : Type ℓ where
  value : A → Evaluated A
  runtime_error : String → Evaluated A
  overflowed : Evaluated A

pub data OpKind : Type 0 where
  op_add : OpKind
  op_sub : OpKind
  op_mul : OpKind
  op_div : OpKind
  op_eq : OpKind
  op_neq : OpKind
  op_lt : OpKind
  op_gt : OpKind
  op_le : OpKind
  op_ge : OpKind
  op_and : OpKind
  op_or : OpKind
  op_neg : OpKind
  op_not : OpKind

abbrev pub negℤ : ℤ → ℤ
negℤ (pos zero) = pos zero
negℤ (pos (suc n)) = negsuc n
negℤ (negsuc n) = pos (suc n)

-- `a - b`
abbrev pub difference : ℕ → ℕ → ℤ
difference a b = if leb b a then pos (a - b) else negsuc (b - a - 1)

abbrev pub addℤ : ℤ → ℤ → ℤ
addℤ (pos a) (pos b) = pos (a + b)
addℤ (pos a) (negsuc b) = difference a (suc b)
addℤ (negsuc a) (pos b) = difference b (suc a)
addℤ (negsuc a) (negsuc b) = negsuc (suc (a + b))

abbrev pub mulℤ : ℤ → ℤ → ℤ
mulℤ (pos a) (pos b) = pos (a * b)
mulℤ (pos a) (negsuc b) = negℤ (pos (a * suc b))
mulℤ (negsuc a) (pos b) = negℤ (pos (suc a * b))
mulℤ (negsuc a) (negsuc b) = pos (suc a * suc b)

-- C's division drops the fraction.
abbrev pub divℤ : ℤ → ℤ → ℤ
divℤ (pos a) (pos b) = pos (a / b)
divℤ (pos a) (negsuc b) = negℤ (pos (a / suc b))
divℤ (negsuc a) (pos b) = negℤ (pos (suc a / b))
divℤ (negsuc a) (negsuc b) = pos (suc a / suc b)

abbrev pub fits64 : ℤ → Bool
fits64 (pos n) = ltb n (2 ^ 63)
fits64 (negsuc n) = ltb n (2 ^ 63)

-- `__builtin_*_overflow` with the exact result.
abbrev pub checked : String → ℤ → Evaluated ℤ
checked message r = if fits64 r then value r else runtime_error message

abbrev pub is_zero : ℤ → Bool
is_zero (pos n) = n == 0
is_zero (negsuc n) = false

-- `a == LLONG_MIN`, and `b == -1`
abbrev pub is_min : ℤ → Bool
is_min (pos n) = false
is_min (negsuc n) = n == 9223372036854775807

abbrev pub is_minus_one : ℤ → Bool
is_minus_one (pos n) = false
is_minus_one (negsuc n) = n == 0

unfoldable pub int_arith : OpKind → ℤ → ℤ → Evaluated ℤ
int_arith op_add a b = checked "integer overflow in addition" (addℤ a b)
int_arith op_sub a b = checked "integer overflow in subtraction" (addℤ a (negℤ b))
int_arith op_mul a b = checked "integer overflow in multiplication" (mulℤ a b)
int_arith op_div a b =
    if is_zero b
    then runtime_error "division by zero"
    else if is_min a && is_minus_one b
    then runtime_error "integer overflow in division"
    else value (divℤ a b)
int_arith _ a b = runtime_error "unsupported integer operator"

-- How many bits of a number below 2^(53 + f) a double has no room for.
abbrev pub excess : ℕ → ℕ → ℕ
excess zero n = 0
excess (suc f) n = if ltb n (2 ^ 53) then 0 else suc (excess f (n / 2))

-- The nearest multiple of `unit`, and of two the even one.
abbrev pub round_half_even : ℕ → ℕ → ℕ
round_half_even unit n =
    let q = n / unit in
    let r = n % unit in
    if ltb (2 * r) unit
    then q * unit
    else if ltb unit (2 * r)
    then suc q * unit
    else (q + q % 2) * unit

-- The integer that `(double) a` is, for a magnitude below 2^64.
abbrev pub to_double_magnitude : ℕ → ℕ
to_double_magnitude n = round_half_even (2 ^ excess 11 n) n

unfoldable pub to_double : ℤ → ℤ
to_double (pos n) = pos (to_double_magnitude n)
to_double (negsuc n) = negℤ (pos (to_double_magnitude (suc n)))
