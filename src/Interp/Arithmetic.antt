-- ===== src/Interp/Arithmetic.antt =====
-- src/interpreter.c: int_arith against the arithmetic of the integers.
use myon.Base.{
  ℕ, zero, suc, ◌+◌, ◌*◌, ◌/◌, ◌%◌, ◌^◌, ◌≤◌, ◌<◌, ◌≡◌, refl, ◌⊎◌, inl, inr, Bool, true, false,
  ◌&&◌, ltb→lt, if_cases, arith,
}
use native.Mathlib.Nat.{div-lt_iff_lt-mul, div-le_self, div-add-mod, mod-lt, zero-lt-suc}
use myon.Base.Words.{ℤ, pos, negsuc, FitsSigned}
use myon.Interp.Ints.{
  Evaluated, value, runtime_error, overflowed, OpKind, op_add, op_sub, op_mul, op_div, negℤ, addℤ,
  mulℤ, divℤ, fits64, checked, is_zero, is_min, is_minus_one, int_arith,
}

-- An integer is the difference of its parts, one of which is 0.
abbrev pub pos_part : ℤ → ℕ
pos_part (pos n) = n
pos_part (negsuc n) = 0

abbrev pub neg_part : ℤ → ℕ
neg_part (pos n) = 0
neg_part (negsuc n) = suc n

-- r = a + b
abbrev pub IsSum : ℤ → ℤ → ℤ → Type 0
IsSum a b r = pos_part a + pos_part b + neg_part r ≡ pos_part r + neg_part a + neg_part b

-- r = a * b, by the product of the differences
abbrev pub IsProduct : ℤ → ℤ → ℤ → Type 0
IsProduct a b r =
    pos_part a * pos_part b + neg_part a * neg_part b + neg_part r
    ≡ pos_part r + (pos_part a * neg_part b + neg_part a * pos_part b)

-- a = p + s, where p = q * b, s is smaller than b, and no part of s is on the other side of 0 than
-- that of a.
pub record IsQuotient (a b q : ℤ) : Type 0 where
  pub product : ℤ
  pub rest : ℤ
  pub is_product : IsProduct q b product
  pub is_sum : IsSum product rest a
  pub smaller : pos_part rest + neg_part rest < pos_part b + neg_part b
  pub above : pos_part rest ≤ pos_part a
  pub below : neg_part rest ≤ neg_part a

-- The result of an arithmetic operator on integers of any size.
abbrev pub Exact : OpKind → ℤ → ℤ → ℤ → Type 0
Exact op_add a b r = IsSum a b r
Exact op_sub a b r = IsSum r b a
Exact op_mul a b r = IsProduct a b r
Exact op_div a b r = IsQuotient a b r
Exact _ a b r = Unit

-- A value is exact and fits; for an error the divisor is 0 or the exact result does not fit.
abbrev pub Computes : OpKind → ℤ → ℤ → Evaluated ℤ → Type 0
Computes op a b (value r) = Exact op a b r × FitsSigned 63 r
Computes op a b (runtime_error message) =
    ((op ≡ op_div) × (b ≡ pos 0) × (message ≡ "division by zero"))
    ⊎ ((r : ℤ) × Exact op a b r × (¬ FitsSigned 63 r))
Computes op a b overflowed = ⊥

fits64-FitsSigned : (r : ℤ) → fits64 r ≡ true → FitsSigned 63 r
fits64-FitsSigned (pos n) h = ltb→lt n (2 ^ 63) h
fits64-FitsSigned (negsuc n) h = ltb→lt n (2 ^ 63) h

fits64-too_large : (r : ℤ) → fits64 r ≡ false → ¬ FitsSigned 63 r
fits64-too_large (pos n) h k = ground (arith, h, k)
fits64-too_large (negsuc n) h k = ground (arith, h, k)

checked-Computes :
    (op : OpKind) (a b r : ℤ) (message : _) → Exact op a b r → Computes op a b (checked message r)
checked-Computes op a b r message e =
    if_cases (Computes op a b) (fits64 r) (λ h. (e, fits64-FitsSigned r h))
      (λ h. inr (r, e, fits64-too_large r h))

addℤ-IsSum : (a b : ℤ) → IsSum a b (addℤ a b)
addℤ-IsSum a b = ground arith

sub-IsSum : (a b : ℤ) → IsSum (addℤ a (negℤ b)) b a
sub-IsSum a b = ground arith

mulℤ-IsProduct : (a b : ℤ) → IsProduct a b (mulℤ a b)
mulℤ-IsProduct a b = ground arith

-- The quotient is right up to its signs.
pos-pos-IsQuotient : (n d q s : ℕ) → d * q + s ≡ n → s < d → IsQuotient (pos n) (pos d) (pos q)
pos-pos-IsQuotient n d q s e l = record {
  product = pos (d * q);
  rest = pos s;
  is_product = ground arith;
  is_sum = ground (arith, e);
  smaller = omega (arith, l);
  above = omega (arith, e);
  below = omega arith;
}

pos-neg-IsQuotient :
    (n d q s : ℕ) → suc d * q + s ≡ n → s < suc d → IsQuotient (pos n) (negsuc d) (negℤ (pos q))
pos-neg-IsQuotient n d q s e l = record {
  product = pos (suc d * q);
  rest = pos s;
  is_product = ground arith;
  is_sum = ground (arith, e);
  smaller = omega (arith, l);
  above = omega (arith, e);
  below = omega arith;
}

neg-pos-IsQuotient :
    (n d q s : ℕ) → d * q + s ≡ suc n → s < d → IsQuotient (negsuc n) (pos d) (negℤ (pos q))
neg-pos-IsQuotient n d q s e l = record {
  product = negℤ (pos (d * q));
  rest = negℤ (pos s);
  is_product = ground arith;
  is_sum = ground (arith, e);
  smaller = ground (arith, l);
  above = ground arith;
  below = ground (arith, e);
}

neg-neg-IsQuotient :
    (n d q s : ℕ) → suc d * q + s ≡ suc n → s < suc d → IsQuotient (negsuc n) (negsuc d) (pos q)
neg-neg-IsQuotient n d q s e l = record {
  product = negℤ (pos (suc d * q));
  rest = negℤ (pos s);
  is_product = ground arith;
  is_sum = ground (arith, e);
  smaller = ground (arith, l);
  above = ground arith;
  below = ground (arith, e);
}

divℤ-IsQuotient : (a b : ℤ) → is_zero b ≡ false → IsQuotient a b (divℤ a b)
divℤ-IsQuotient (pos n) (pos (suc d)) h =
    pos-pos-IsQuotient n (suc d) (n / suc d) (n % suc d) (div-add-mod n (suc d))
      (mod-lt n (zero-lt-suc d))
divℤ-IsQuotient (pos n) (negsuc d) h =
    pos-neg-IsQuotient n d (n / suc d) (n % suc d) (div-add-mod n (suc d))
      (mod-lt n (zero-lt-suc d))
divℤ-IsQuotient (negsuc n) (pos (suc d)) h =
    neg-pos-IsQuotient n (suc d) (suc n / suc d) (suc n % suc d) (div-add-mod (suc n) (suc d))
      (mod-lt (suc n) (zero-lt-suc d))
divℤ-IsQuotient (negsuc n) (negsuc d) h =
    neg-neg-IsQuotient n d (suc n / suc d) (suc n % suc d) (div-add-mod (suc n) (suc d))
      (mod-lt (suc n) (zero-lt-suc d))
divℤ-IsQuotient _ (pos zero) h = absurd (cc)

negated_fits : (n : ℕ) → n ≤ 2 ^ 63 → FitsSigned 63 (negℤ (pos n))
negated_fits zero h = omega arith
negated_fits (suc n) h = omega (arith, h)

divℤ-FitsSigned :
    (a b : ℤ)
    → FitsSigned 63 a
    → FitsSigned 63 b
    → is_min a && is_minus_one b ≡ false
    → FitsSigned 63 (divℤ a b)
divℤ-FitsSigned (pos a) (pos b) ha hb h = omega (arith, div-le_self a b, ha)
divℤ-FitsSigned (pos a) (negsuc b) ha hb h =
    negated_fits (a / suc b) (omega (arith, div-le_self a (suc b), ha))
divℤ-FitsSigned (negsuc a) (pos b) ha hb h =
    negated_fits (suc a / b) (omega (arith, div-le_self (suc a) b, ha))
divℤ-FitsSigned (negsuc a) (negsuc zero) ha hb h =
    let small : a < 9223372036854775807 = ground (arith, h, ha) in
    omega (arith, div-le_self (suc a) 1, small)
divℤ-FitsSigned (negsuc a) (negsuc (suc b)) ha hb h =
    (div-lt_iff_lt-mul {k = suc (suc b)} {x = suc a} {y = 2 ^ 63} (omega arith)).1
      (omega (arith, ha))

-- The one quotient that does not fit.
min-IsQuotient :
    (a b : ℤ) → is_min a && is_minus_one b ≡ true → (r : ℤ) × IsQuotient a b r × (¬ FitsSigned 63 r)
min-IsQuotient (negsuc n) (negsuc zero) h =
    let is_last : n ≡ 9223372036854775807 = ground (arith, h) in
    (
      divℤ (negsuc n) (negsuc zero),
      divℤ-IsQuotient (negsuc n) (negsuc zero) refl,
      λ k. ground (arith, k, is_last, div-le_self (suc n) 1),
    )
min-IsQuotient (negsuc n) (negsuc (suc m)) h = absurd (ground arith)
min-IsQuotient (negsuc n) (pos m) h = absurd (ground arith)
min-IsQuotient (pos n) b h = absurd (cc)

div-Computes :
    (a b : ℤ) → FitsSigned 63 a → FitsSigned 63 b → Computes op_div a b (int_arith op_div a b)
unfolding int_arith
div-Computes a b ha hb =
    if_cases (Computes op_div a b) (is_zero b) (λ z. inl (refl, zero_only b z, refl))
      (λ z.
        if_cases (Computes op_div a b) (is_min a && is_minus_one b)
          (λ h. inr (min-IsQuotient a b h))
          (λ h. (divℤ-IsQuotient a b z, divℤ-FitsSigned a b ha hb h)))
  where
    zero_only : (b : ℤ) → is_zero b ≡ true → b ≡ pos 0
    zero_only (pos n) h = ground (arith, h)
    zero_only (negsuc n) h = absurd (cc)

abbrev pub is_arithmetic : OpKind → Bool
is_arithmetic op_add = true
is_arithmetic op_sub = true
is_arithmetic op_mul = true
is_arithmetic op_div = true
is_arithmetic _ = false

-- For two integers of 64 bits, addition, subtraction, multiplication and division, which drops the
-- fraction, either give the exact result, which then has 64 bits, or report an error; the error is
-- the division by zero, or the exact result does not have 64 bits. No case is left to an overflow.
pub int_arith_lem :
    (op : OpKind) (a b : ℤ)
    → is_arithmetic op ≡ true
    → FitsSigned 63 a
    → FitsSigned 63 b
    → Computes op a b (int_arith op a b)
unfolding int_arith
int_arith_lem op_add a b h ha hb =
    checked-Computes op_add a b (addℤ a b) "integer overflow in addition" (addℤ-IsSum a b)
int_arith_lem op_sub a b h ha hb =
    checked-Computes op_sub a b (addℤ a (negℤ b)) "integer overflow in subtraction" (sub-IsSum a b)
int_arith_lem op_mul a b h ha hb =
    checked-Computes op_mul a b (mulℤ a b) "integer overflow in multiplication" (mulℤ-IsProduct a b)
int_arith_lem op_div a b h ha hb = div-Computes a b ha hb
int_arith_lem _ a b h ha hb = absurd (cc)
