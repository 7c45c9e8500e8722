-- ===== src/Env/Tests.antt =====
-- src/env.c on a chain of two scopes.
use myon.Base.{not, ◌≡◌, refl, true, false, [], ◌∷◌, some, if◌then◌else◌, str_eq}
use myon.Base.Text.{codes}
use myon.Base.Words.{pos}
use myon.Value.{v_int}
use myon.Env.{env_defined_local, Scope, env_get, env_define, env_set, find_local}
use myon.Env.Success.{succeeds, env_define-env_set_succeed}
use myon.Env.Scopes.{env_get-env_define, env_get-env_set}

abbrev global : Scope
global = record {
  head = record { name = codes "x"; value = v_int (pos 1) } ∷ [];
  is_block = false;
  is_fn_boundary = false;
}

abbrev block : Scope
block = record { head = []; is_block = true; is_fn_boundary = false }

abbrev shadowing : Scope
shadowing = record block { head = record { name = codes "x"; value = v_int (pos 2) } ∷ [] }

abbrev assigned : Scope
assigned = record global { head = record { name = codes "x"; value = v_int (pos 3) } ∷ [] }

env_get-env_define_example : env_get (shadowing ∷ global ∷ []) (codes "x") ≡ (
    if str_eq (codes "x") (codes "x")
    then some (v_int (pos 2))
    else env_get (block ∷ global ∷ []) (codes "x"))
unfolding env_define find_local
env_get-env_define_example =
    env_get-env_define block shadowing (global ∷ []) (codes "x") (codes "x") (v_int (pos 2)) refl

env_get-env_set_example : env_get (block ∷ assigned ∷ []) (codes "x") ≡ (
    if str_eq (codes "x") (codes "x")
    then some (v_int (pos 3))
    else env_get (block ∷ global ∷ []) (codes "x"))
unfolding env_set find_local str_eq
env_get-env_set_example =
    env_get-env_set (block ∷ global ∷ []) (block ∷ assigned ∷ []) (codes "x") (codes "x")
      (v_int (pos 3)) refl

env_define-env_set_succeed_example :
    (succeeds (env_define block (codes "x") (v_int (pos 5)))
      ≡ not (env_defined_local block (codes "x")))
    × (succeeds (env_set (block ∷ global ∷ []) (codes "x") (v_int (pos 5)))
        ≡ succeeds (env_get (block ∷ global ∷ []) (codes "x")))
env_define-env_set_succeed_example =
    env_define-env_set_succeed block (global ∷ []) (codes "x") (v_int (pos 5))
