-- ===== src/Mvm/Pool/Unique.antt =====
-- src/mvm_chunk.c: how often a constant or a name can be in a pool that interning has filled.
use myon.Base.{
  ℕ, suc, ◌+◌, ◌%◌, ◌^◌, ◌≤◌, ◌≡◌, refl, sym, ap, ◌∙◌, Bool, true, not, ◌&&◌, ◌||◌, Bool-cases, inl,
  inr, List, [], ◌∷◌, ◌++◌, append-nil, append_assoc, none, ◌==◌, if◌then◌else◌, Bytes, str_eq,
  str_eq_iff, arith,
}
use mathlib.Core.Path.{subst}
use myon.Base.Words.{ℤ, pos}
use myon.Mvm.{ConstEntry, int, float, str, bool}
use myon.Mvm.Pool.{int_eq, is_nan, float_eq, bool_eq, same_const, find_const, find_native}
use myon.Mvm.Pool.Laws.{DistinctAfter, NewAfter}

int_same : (a b k : ℤ) → int_eq a b ≡ true → int_eq k a ≡ int_eq k b
unfolding int_eq
int_same (pos a) (pos b) (pos k) h = ground arith
int_same _ _ _ h = ground arith

float_core :
    (x y z : Bool) (a b k p q r : ℕ)
    → (not x && not y && (a == b || (p == 0 && q == 0))) ≡ true
    → (a ≡ b → p ≡ q)
    → (a ≡ k → p ≡ r)
    → (b ≡ k → q ≡ r)
    → (not z && not x && (k == a || (r == 0 && p == 0)))
      ≡ (not z && not y && (k == b || (r == 0 && q == 0)))
float_core x y z a b k p q r h i j l = ground arith

float_same : (a b k : ℕ) → float_eq a b ≡ true → float_eq k a ≡ float_eq k b
unfolding float_eq
float_same a b k h =
    float_core (is_nan a) (is_nan b) (is_nan k) a b k (a % 2 ^ 63) (b % 2 ^ 63) (k % 2 ^ 63) h
      (λ e. rw e refl) (λ e. rw e refl) (λ e. rw e refl)

bool_same : (a b k : Bool) → bool_eq a b ≡ true → bool_eq k a ≡ bool_eq k b
unfolding bool_eq
bool_same a b k h = ground arith

text_same : (a b k : Bytes) → str_eq a b ≡ true → str_eq k a ≡ str_eq k b
text_same a b k h = rw ((str_eq_iff a b).0 h) refl

-- Constants that compare equal give the same answer in every comparison.
same_const-same : (e c x : ConstEntry) → same_const e c ≡ true → same_const x e ≡ same_const x c
unfolding same_const
same_const-same (int a) (int b) (int k) h = int_same a b k h
same_const-same (float a) (float b) (float k) h = float_same a b k h
same_const-same (bool a) (bool b) (bool k) h = bool_same a b k h
same_const-same (str a) (str b) (str k) h = text_same a b k h
same_const-same _ _ _ h = ground arith

-- How many constants of the pool the scan of `module_add_const_*` takes for `c`, and how many names
-- are `s`.
abbrev pub times_const : ConstEntry → List ConstEntry → ℕ
times_const c [] = 0
times_const c (e ∷ es) = let rest = times_const c es in if same_const e c then suc rest else rest

abbrev pub times_name : Bytes → List Bytes → ℕ
times_name s [] = 0
times_name s (n ∷ ns) = let rest = times_name s ns in if str_eq n s then suc rest else rest

times_const-none :
    (c : ConstEntry) (i : ℕ) (es : List ConstEntry)
    → find_const c i es ≡ none
    → times_const c es ≡ 0
unfolding find_const
times_const-none c i [] h = refl
times_const-none c i (e ∷ es) h = ground (arith, times_const-none c (i + 1) es)

times_name-none :
    (s : Bytes) (i : ℕ) (ns : List Bytes) → find_native s i ns ≡ none → times_name s ns ≡ 0
unfolding find_native
times_name-none s i [] h = refl
times_name-none s i (n ∷ ns) h = ground (arith, times_name-none s (i + 1) ns)

times_const-same :
    (e c : ConstEntry) (es : List ConstEntry)
    → same_const e c ≡ true
    → times_const e es ≡ times_const c es
times_const-same e c [] h = refl
times_const-same e c (x ∷ es) h = rw (same_const-same e c x h, times_const-same e c es h) refl

times_const-append :
    (c e : ConstEntry) (es : List ConstEntry)
    → times_const c (es ++ e ∷ []) ≡ times_const c es + times_const c (e ∷ [])
times_const-append c e [] = omega arith
times_const-append c e (x ∷ es) = ground (arith, times_const-append c e es)

times_name-append :
    (s n : Bytes) (ns : List Bytes)
    → times_name s (ns ++ n ∷ []) ≡ times_name s ns + times_name s (n ∷ [])
times_name-append s n [] = omega arith
times_name-append s n (x ∷ ns) = ground (arith, times_name-append s n ns)

-- A constant that the pool does not have yet can be added.
one_more_const :
    (c e : ConstEntry) (es : List ConstEntry)
    → times_const c es ≤ 1
    → find_const e 0 es ≡ none
    → times_const c (es ++ e ∷ []) ≤ 1
one_more_const c e es h new = elim (Bool-cases (same_const e c)) [
  | inl same ↦
      let absent : times_const c es ≡ 0 =
        sym (times_const-same e c es same) ∙ times_const-none e 0 es new in
      ground (arith, times_const-append c e es, absent, same)
  | inr other ↦ ground (arith, times_const-append c e es, h, other)
]

one_more_name :
    (s n : Bytes) (ns : List Bytes)
    → times_name s ns ≤ 1
    → find_native n 0 ns ≡ none
    → times_name s (ns ++ n ∷ []) ≤ 1
one_more_name s n ns h new = elim (Bool-cases (str_eq n s)) [
  | inl same ↦
      let absent : times_name s ns ≡ 0 =
        ap (λ (t : Bytes). times_name t ns) (sym ((str_eq_iff n s).0 same))
        ∙ times_name-none n 0 ns new in
      ground (arith, times_name-append s n ns, absent, same)
  | inr other ↦ ground (arith, times_name-append s n ns, h, other)
]

pub DistinctAfter-once :
    (c : ConstEntry) (ps cs : List ConstEntry)
    → DistinctAfter ps cs
    → times_const c ps ≤ 1
    → times_const c (ps ++ cs) ≤ 1
DistinctAfter-once c ps [] d h = rw append-nil h
DistinctAfter-once c ps (e ∷ cs) d h =
    subst (λ (es : List ConstEntry). times_const c es ≤ 1) (append_assoc ps (e ∷ []) cs)
      (DistinctAfter-once c (ps ++ e ∷ []) cs d.1 (one_more_const c e ps h d.0))

pub NewAfter-once :
    (s : Bytes) (ps ns : List Bytes)
    → NewAfter ps ns
    → times_name s ps ≤ 1
    → times_name s (ps ++ ns) ≤ 1
NewAfter-once s ps [] d h = rw append-nil h
NewAfter-once s ps (n ∷ ns) d h =
    subst (λ (es : List Bytes). times_name s es ≤ 1) (append_assoc ps (n ∷ []) ns)
      (NewAfter-once s (ps ++ n ∷ []) ns d.1 (one_more_name s n ps h d.0))
