-- ===== src/Interp/Integers.antt =====
-- src/interpreter.c: where comparisons of integers are exact.
use myon.Base.{
  ℕ, suc, ◌+◌, ◌*◌, ◌/◌, ◌%◌, ◌^◌, ◌≤◌, ◌<◌, ◌≡◌, refl, sym, ap, ◌∙◌, true, ==_iff, lt→ltb,
  le→not_ltb, arith,
}
use myon.Base.Words.{ℤ, pos, negsuc}
use myon.Interp.Ints.{op_eq, excess, round_half_even, to_double_magnitude, to_double}
use myon.Interp.Operators.{compare_ints}

-- The magnitude is at most `n`.
abbrev pub Within : ℕ → ℤ → Type 0
Within n (pos a) = a ≤ n
Within n (negsuc a) = suc a ≤ n

excess_one : (n : ℕ) → 2 ^ 53 ≤ n → n < 2 ^ 54 → excess 11 n ≡ 1
excess_one n low high =
    rw (le→not_ltb n (2 ^ 53) low, lt→ltb (n / 2) (2 ^ 53) (omega (arith, high))) refl

even_exact : (n : ℕ) → n % 2 ≡ 0 → round_half_even 2 n ≡ n
even_exact n h = ground (arith, h)

odd_down : (m : ℕ) → round_half_even 2 (4 * m + 1) ≡ 4 * m
odd_down m = ground arith

magnitude_unit : (n k : ℕ) → excess 11 n ≡ k → to_double_magnitude n ≡ round_half_even (2 ^ k) n
magnitude_unit n k e = ap (λ (j : ℕ). round_half_even (2 ^ j) n) e

-- Collapse.
pub compare_ints_collapse :
    (m : ℕ) → 2 ^ 51 ≤ m → m < 2 ^ 52 → compare_ints op_eq (pos (4 * m + 1)) (pos (4 * m)) ≡ true
unfolding compare_ints to_double
compare_ints_collapse m low high =
    let odd =
      magnitude_unit (4 * m + 1) 1
        (excess_one (4 * m + 1) (omega (arith, low)) (omega (arith, high))) in
    let even =
      magnitude_unit (4 * m) 1 (excess_one (4 * m) (omega (arith, low)) (omega (arith, high))) in
    (==_iff (to_double_magnitude (4 * m + 1)) (to_double_magnitude (4 * m))).1
      (odd ∙ odd_down m ∙ sym (even_exact (4 * m) (omega arith)) ∙ sym even)
