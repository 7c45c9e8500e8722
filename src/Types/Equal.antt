-- ===== src/Types/Equal.antt =====
-- What `typespec_equal` decides.
use myon.Base.{true, ◌≡◌, refl, Option, none, some, if◌then◌else◌, Bytes, str_eq_iff, arith}
use myon.Types.{
  is_named, TypeSpec, TypeSpecs, null, node, nil, cons, name_eq, typespec_equal, args_equal,
  typespec_clone, args_clone,
}

name_eq-sym : (a b : Option Bytes) → name_eq a b ≡ name_eq b a
unfolding name_eq
name_eq-sym none none = refl
name_eq-sym none (some b) = refl
name_eq-sym (some a) none = refl
name_eq-sym (some a) (some b) = ground (arith, str_eq_iff a b, str_eq_iff b a)

mutual
  unfolding typespec_equal args_equal

  equal_sym : (a b : TypeSpec) → typespec_equal a b ≡ typespec_equal b a
  equal_sym null null = refl
  equal_sym null (node b n e k xs) = refl
  equal_sym (node b n e k xs) null = refl
  equal_sym (node b n e k xs) (node b' n' e' k' ys) =
      ground (arith, equal_sym e e', equal_sym k k', name_eq-sym n n', args_equal_sym xs ys)

  args_equal_sym : (a b : TypeSpecs) → args_equal a b ≡ args_equal b a
  args_equal_sym nil nil = refl
  args_equal_sym nil (cons t ts) = refl
  args_equal_sym (cons t ts) nil = refl
  args_equal_sym (cons t ts) (cons u us) = ground (arith, equal_sym t u, args_equal_sym ts us)

name_eq_trans :
    (a b c : Option Bytes) → name_eq a b ≡ true → name_eq b c ≡ true → name_eq a c ≡ true
unfolding name_eq
name_eq_trans (some a) (some b) (some c) p q =
    ground (arith, str_eq_iff a b, str_eq_iff b c, str_eq_iff a c)
name_eq_trans (some a) (some b) none p q = cc
name_eq_trans (some a) none c p q = cc
name_eq_trans none b c p q = cc

mutual
  unfolding typespec_equal args_equal

  equal_trans :
      (a b c : TypeSpec)
      → typespec_equal a b ≡ true
      → typespec_equal b c ≡ true
      → typespec_equal a c ≡ true
  equal_trans null null c p q = q
  equal_trans null (node b n e k xs) c p q = cc
  equal_trans (node b n e k xs) null c p q = cc
  equal_trans (node b n e k xs) (node b' n' e' k' ys) null p q = cc
  equal_trans (node b n e k xs) (node b' n' e' k' ys) (node b'' n'' e'' k'' zs) p q = ground (
    arith,
    equal_trans e e' e'',
    equal_trans k k' k'',
    name_eq_trans n n' n'',
    args_equal_trans xs ys zs,
  )

  args_equal_trans :
      (a b c : TypeSpecs) → args_equal a b ≡ true → args_equal b c ≡ true → args_equal a c ≡ true
  args_equal_trans nil nil c p q = q
  args_equal_trans nil (cons t ts) c p q = cc
  args_equal_trans (cons t ts) nil c p q = cc
  args_equal_trans (cons t ts) (cons u us) nil p q = cc
  args_equal_trans (cons t ts) (cons u us) (cons v vs) p q =
      ground (arith, equal_trans t u v, args_equal_trans ts us vs)

-- Every node that is compared by its name has one.
abbrev mutual
  pub IsNamed : TypeSpec → Type 0
  IsNamed null = Unit
  IsNamed (node b n e k xs) =
      ((if is_named b then name_eq n n else true) ≡ true) × IsNamed e × IsNamed k × AreNamed xs

  pub AreNamed : TypeSpecs → Type 0
  AreNamed nil = Unit
  AreNamed (cons t ts) = IsNamed t × AreNamed ts

mutual
  unfolding typespec_equal args_equal

  equal_refl : (t : TypeSpec) → IsNamed t → typespec_equal t t ≡ true
  equal_refl null h = refl
  equal_refl (node b n e k xs) h =
      ground (arith, h.0, equal_refl e h.1, equal_refl k h.2, args_equal_refl xs h.3)

  args_equal_refl : (ts : TypeSpecs) → AreNamed ts → args_equal ts ts ≡ true
  args_equal_refl nil h = refl
  args_equal_refl (cons t ts) h = ground (arith, equal_refl t h.0, args_equal_refl ts h.1)

mutual
  unfolding typespec_clone args_clone

  pub clone_same : (t : TypeSpec) → typespec_clone t ≡ t
  clone_same null = refl
  clone_same (node b n e k xs) = rw (clone_same e, clone_same k, args_clone_same xs)

  args_clone_same : (ts : TypeSpecs) → args_clone ts ≡ ts
  args_clone_same nil = refl
  args_clone_same (cons t ts) = rw (clone_same t, args_clone_same ts)

-- The clone of a descriptor whose struct and parameter nodes have names is equal to it, from both
-- sides.
pub typespec_equal-clone :
    (t : TypeSpec)
    → IsNamed t
    → (typespec_equal (typespec_clone t) t ≡ true) × (typespec_equal t (typespec_clone t) ≡ true)
typespec_equal-clone t h = rw (clone_same t) (equal_refl t h, equal_refl t h)

-- Two type descriptors that are equal give the same answer in every comparison.
pub typespec_equal_same :
    (t u v : TypeSpec) → typespec_equal t u ≡ true → typespec_equal t v ≡ typespec_equal u v
typespec_equal_same t u v h = ground (arith, equal_sym t u, equal_trans t u v, equal_trans u t v)
