-- ===== src/Value/Equal.antt =====
-- src/value.c: what the equality of values promises.
use myon.Base.{
  ℕ, ◌≡◌, refl, ◌%◌, ◌^◌, Bool, true, not, ◌&&◌, ◌||◌, str_eq, str_eq_iff, ◌==◌, arith, Bytes, [],
  ◌∷◌,
}
use myon.Base.Words.{ℤ, pos, negsuc}
use myon.Value.{
  Value, v_int, v_float, v_bool, v_str, v_char, v_error, v_ref, value_equal, int_eq, is_nan,
  float_eq, bool_eq, kind_eq, RefKind, ref_array, ref_map,
}

int_same : (a b k : ℤ) → int_eq a b ≡ true → int_eq a k ≡ int_eq b k
int_same (pos a) (pos b) (pos k) h = ground arith
int_same _ _ _ h = ground arith

float_core :
    (x y z : Bool) (a b k p q r : ℕ)
    → (not x && (not y && (a == b || (p == 0 && q == 0)))) ≡ true
    → (a ≡ b → p ≡ q)
    → (a ≡ k → p ≡ r)
    → (b ≡ k → q ≡ r)
    → (not x && (not z && (a == k || (p == 0 && r == 0))))
      ≡ (not y && (not z && (b == k || (q == 0 && r == 0))))
float_core x y z a b k p q r h i j l = ground arith

float_same : (a b k : ℕ) → float_eq a b ≡ true → float_eq a k ≡ float_eq b k
float_same a b k h =
    float_core (is_nan a) (is_nan b) (is_nan k) a b k (a % 2 ^ 63) (b % 2 ^ 63) (k % 2 ^ 63) h
      (λ e. rw e refl) (λ e. rw e refl) (λ e. rw e refl)

bool_same : (a b k : Bool) → bool_eq a b ≡ true → bool_eq a k ≡ bool_eq b k
bool_same true true k h = refl
bool_same _ _ k h = ground arith

text_same : (a b k : Bytes) → str_eq a b ≡ true → str_eq a k ≡ str_eq b k
text_same a b k h = rw ((str_eq_iff a b).0 h) refl

kind_same : (k l m : RefKind) → kind_eq k l ≡ true → kind_eq k m ≡ kind_eq l m
kind_same ref_array ref_array ref_array h = refl
kind_same _ _ _ h = ground arith

ref_same :
    (k l m : RefKind) (a b c : ℕ)
    → (kind_eq k l && a == b) ≡ true
    → (kind_eq k m && a == c) ≡ (kind_eq l m && b == c)
ref_same k l m a b c h = ground (arith, kind_same k l m)

-- Two values that compare equal give the same answer in every comparison.
pub value_equal-same : (a b k : Value) → value_equal a b ≡ true → value_equal a k ≡ value_equal b k
unfolding value_equal
value_equal-same (v_int a) (v_int b) (v_int k) h = int_same a b k h
value_equal-same (v_float a) (v_float b) (v_float k) h = float_same a b k h
value_equal-same (v_bool a) (v_bool b) (v_bool k) h = bool_same a b k h
value_equal-same (v_str a) (v_str b) (v_str k) h = text_same a b k h
value_equal-same (v_char a) (v_char b) (v_char k) h = text_same a b k h
value_equal-same (v_error a) (v_error b) (v_error k) h = text_same a b k h
value_equal-same (v_ref k a) (v_ref l b) (v_ref m c) h = ref_same k l m a b c h
value_equal-same _ _ _ h = ground arith

str_eq_comm : (a b : Bytes) → str_eq a b ≡ str_eq b a
unfolding str_eq
str_eq_comm [] [] = refl
str_eq_comm (x ∷ a) (y ∷ b) = ground (arith, str_eq_comm a b)
str_eq_comm _ _ = refl

float_eq_comm : (a b : ℕ) → float_eq a b ≡ float_eq b a
float_eq_comm a b = core (is_nan a) (is_nan b) (a % 2 ^ 63) (b % 2 ^ 63)
  where
    core :
        (x y : Bool) (p q : ℕ)
        → (not x && (not y && (a == b || (p == 0 && q == 0))))
          ≡ (not y && (not x && (b == a || (q == 0 && p == 0))))
    core x y p q = ground arith

kind_eq_comm : (k l : RefKind) → kind_eq k l ≡ kind_eq l k
kind_eq_comm ref_array ref_array = refl
kind_eq_comm _ ref_array = refl
kind_eq_comm ref_map ref_map = refl
kind_eq_comm _ _ = refl

-- The order of the operands of a comparison of values does not matter.
pub value_equal_comm : (a b : Value) → value_equal a b ≡ value_equal b a
unfolding value_equal
value_equal_comm (v_int (pos a)) (v_int (pos b)) = ground arith
value_equal_comm (v_int (negsuc a)) (v_int (negsuc b)) = ground arith
value_equal_comm (v_float a) (v_float b) = float_eq_comm a b
value_equal_comm (v_bool true) (v_bool true) = refl
value_equal_comm (v_str a) (v_str b) = str_eq_comm a b
value_equal_comm (v_char a) (v_char b) = str_eq_comm a b
value_equal_comm (v_error a) (v_error b) = str_eq_comm a b
value_equal_comm (v_ref k a) (v_ref l b) = ground (arith, kind_eq_comm k l)
value_equal_comm _ _ = ground arith
