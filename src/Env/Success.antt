-- ===== src/Env/Success.antt =====
-- src/env.c: when an operation on an environment succeeds.
use myon.Base.{◌≡◌, refl, Bool, true, false, not, Option, none, some, [], ◌∷◌, Bytes}
use myon.Value.{Value}
use myon.Env.{
  Scope, Env, is_found, find_local, env_defined_local, env_define, env_get, env_set, define_at,
  set_at, outer_set, found_or,
}

-- The answer 1.
abbrev pub succeeds {ℓ} : {A : Type ℓ} → Option A → Bool
succeeds none = false
succeeds (some a) = true

succeeds-define_at :
    (s : Scope) (name : Bytes) (v : Value) (o : Option Value)
    → succeeds (define_at s name v o) ≡ not (is_found o)
succeeds-define_at s name v none = refl
succeeds-define_at s name v (some taken) = refl

succeeds-outer_set : (s : Scope) (o : Option Env) → succeeds (outer_set s o) ≡ succeeds o
succeeds-outer_set s none = refl
succeeds-outer_set s (some e) = refl

succeeds-set_at :
    (s : Scope) (e : Env) (name : Bytes) (v : Value) (here : Option Value) (outer : Option Env)
    → succeeds outer ≡ succeeds (env_get e name)
    → succeeds (set_at s e name v here outer) ≡ succeeds (found_or here (env_get e name))
succeeds-set_at s e name v (some old) outer h = refl
succeeds-set_at s e name v none outer h = rw (succeeds-outer_set s outer) h

succeeds-env_set :
    (e : Env) (name : Bytes) (v : Value) → succeeds (env_set e name v) ≡ succeeds (env_get e name)
unfolding env_set env_get
succeeds-env_set [] name v = refl
succeeds-env_set (s ∷ e) name v =
    succeeds-set_at s e name v (find_local s name) (env_set e name v) (succeeds-env_set e name v)

-- A definition succeeds if and only if the innermost scope does not have the name, and an
-- assignment if and only if a lookup finds the name.
pub env_define-env_set_succeed :
    (s : Scope) (e : Env) (name : Bytes) (v : Value)
    → (succeeds (env_define s name v) ≡ not (env_defined_local s name))
      × (succeeds (env_set (s ∷ e) name v) ≡ succeeds (env_get (s ∷ e) name))
unfolding env_define env_defined_local
env_define-env_set_succeed s e name v =
    (succeeds-define_at s name v (find_local s name), succeeds-env_set (s ∷ e) name v)
