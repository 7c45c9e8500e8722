-- ===== src/Env/Scopes.antt =====
-- src/env.c: lookups after a definition and after an assignment.
use myon.Base.{
  ◌≡◌, refl, false, Bool-cases, inl, inr, Option, none, some, [], ◌∷◌, if◌then◌else◌, arith, Bytes,
  str_eq, str_eq_iff, List,
}
use mathlib.Core.Path.{subst}
use myon.Value.{Value}
use myon.Env.{
  Binding, Scope, Env, find_in, find_local, env_define, env_get, set_in, env_set, set_at, define_at,
}

look_head :
    (b : Binding) (s : Scope) (e : Env) (k : Bytes)
    → env_get (record s { head = b ∷ s.head } ∷ e) k
      ≡ (if str_eq b.name k then some b.value else env_get (s ∷ e) k)
unfolding env_get find_local
look_head b s e k = elim (Bool-cases (str_eq b.name k)) [
  | inl hit ↦ rw hit refl
  | inr miss ↦ rw miss refl
]

-- The meaning of `k` in the chain that an operation gives, if it gives one.
abbrev Means : Option Env → Env → Bytes → Bytes → Value → Type 0
Means none e name k v = Unit
Means (some f) e name k v = env_get f k ≡ (if str_eq name k then some v else env_get e k)

abbrev Defines : Option Scope → Scope → Env → Bytes → Bytes → Value → Type 0
Defines none s e name k v = Unit
Defines (some t) s e name k v = Means (some (t ∷ e)) (s ∷ e) name k v

define_at-Defines :
    (s : Scope) (e : Env) (name k : Bytes) (v : Value) (o : Option Value)
    → Defines (define_at s name v o) s e name k v
define_at-Defines s e name k v (some taken) = tt
define_at-Defines s e name k v none = look_head (record { name = name; value = v }) s e k

-- A definition that is accepted is what the name means from then on, and other names keep their
-- meaning.
pub env_get-env_define :
    (s t : Scope) (e : Env) (name k : Bytes) (v : Value)
    → env_define s name v ≡ some t
    → env_get (t ∷ e) k ≡ (if str_eq name k then some v else env_get (s ∷ e) k)
unfolding env_define
env_get-env_define s t e name k v h =
    subst (λ (o : Option Scope). Defines o s e name k v) h
      (define_at-Defines s e name k v (find_local s name))

set_in-find :
    (bs : List Binding) (name k : Bytes) (v w : Value)
    → find_in bs name ≡ some w
    → find_in (set_in bs name v) k ≡ (if str_eq name k then some v else find_in bs k)
set_in-find [] name k v w h = ground arith
set_in-find (b ∷ bs) name k v w h = elim (Bool-cases (str_eq b.name name)) [
  | inl here ↦
      let same : b.name ≡ name = (str_eq_iff b.name name).0 here in
      rw here (elim (Bool-cases (str_eq name k)) [
        | inl hit ↦ rw (same, hit) refl
        | inr miss ↦ rw (same, miss) refl
      ])
  | inr further ↦
      let later : find_in bs name ≡ some w = ground arith in
      rw (further, set_in-find bs name k v w later) (apart b bs name k v further)
]
  where
    apart :
        (b : Binding) (bs : List Binding) (name k : Bytes) (v : Value)
        → str_eq b.name name ≡ false
        → (if str_eq b.name k
            then some b.value
            else (if str_eq name k then some v else find_in bs k))
          ≡ (if str_eq name k
              then some v
              else (if str_eq b.name k then some b.value else find_in bs k))
    apart b bs name k v h = elim (Bool-cases (str_eq name k)) [
      | inl hit ↦
          let away : str_eq b.name k ≡ false = rw (← (str_eq_iff name k).0 hit) h in
          rw (hit, away) refl
      | inr miss ↦ rw miss refl
    ]

set_at-Means :
    (s : Scope) (e : Env) (name k : Bytes) (v : Value) (o : Option Value) (outer : Option Env)
    → find_local s name ≡ o
    → Means outer e name k v
    → Means (set_at s e name v o outer) (s ∷ e) name k v
unfolding env_get find_local
set_at-Means s e name k v (some old) outer h m =
    rw (set_in-find s.head name k v old h)
      (elim (Bool-cases (str_eq name k)) [ inl hit ↦ rw hit refl | inr miss ↦ rw miss refl ])
set_at-Means s e name k v none none h m = tt
set_at-Means s e name k v none (some f) h m = rw m (elim (Bool-cases (str_eq name k)) [
  | inl hit ↦
      let unbound : find_in s.head k ≡ none = rw (← (str_eq_iff name k).0 hit) h in
      rw (hit, unbound) refl
  | inr miss ↦ rw miss refl
])

env_set-Means : (e : Env) (name k : Bytes) (v : Value) → Means (env_set e name v) e name k v
unfolding env_set
env_set-Means [] name k v = tt
env_set-Means (s ∷ e) name k v =
    set_at-Means s e name k v (find_local s name) (env_set e name v) refl (env_set-Means e name k v)

-- An assignment that is accepted changes what the name means and no other name.
pub env_get-env_set :
    (e f : Env) (name k : Bytes) (v : Value)
    → env_set e name v ≡ some f
    → env_get f k ≡ (if str_eq name k then some v else env_get e k)
env_get-env_set e f name k v h =
    subst (λ (o : Option Env). Means o e name k v) h (env_set-Means e name k v)
