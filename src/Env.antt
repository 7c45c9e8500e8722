-- ===== src/Env.antt =====
-- src/env.c: variable environments. An environment is the chain of its scopes, innermost first.
use myon.Base.{Bool, true, false, List, [], ◌∷◌, Option, none, some, if◌then◌else◌, Bytes, str_eq}
use myon.Value.{Value}
pub mod Scopes
pub mod Success
mod Tests

pub record Binding : Type 0 where
  pub name : Bytes
  pub value : Value

pub record Scope : Type 0 where
  pub head : List Binding
  pub is_block : Bool
  pub is_fn_boundary : Bool

abbrev pub Env : Type 0
Env = List Scope

unfoldable pub env_new : Env → Env
env_new parent = record { head = []; is_block = false; is_fn_boundary = false } ∷ parent

abbrev pub find_in : List Binding → Bytes → Option Value
find_in [] name = none
find_in (b ∷ bs) name = if str_eq b.name name then some b.value else find_in bs name

unfoldable pub find_local : Scope → Bytes → Option Value
find_local s name = find_in s.head name

abbrev pub is_found : Option Value → Bool
is_found none = false
is_found (some v) = true

unfoldable pub env_defined_local : Scope → Bytes → Bool
env_defined_local s name = is_found (find_local s name)

-- `none` is the answer 0: the name is taken in this scope.
abbrev pub define_at : Scope → Bytes → Value → Option Value → Option Scope
define_at s name v (some taken) = none
define_at s name v none = some (record s { head = record { name = name; value = v } ∷ s.head })

unfoldable pub env_define : Scope → Bytes → Value → Option Scope
env_define s name v = define_at s name v (find_local s name)

abbrev pub found_or : Option Value → Option Value → Option Value
found_or (some v) outer = some v
found_or none outer = outer

-- `none` is the answer 0.
unfoldable pub env_get : Env → Bytes → Option Value
env_get [] name = none
env_get (s ∷ e) name = found_or (find_local s name) (env_get e name)

abbrev pub set_in : List Binding → Bytes → Value → List Binding
set_in [] name v = []
set_in (b ∷ bs) name v =
    if str_eq b.name name then record b { value = v } ∷ bs else b ∷ set_in bs name v

abbrev pub outer_set : Scope → Option Env → Option Env
outer_set s none = none
outer_set s (some e) = some (s ∷ e)

-- The binding in this scope is assigned if there is one; the last argument is the outer scopes' answer.
abbrev pub set_at : Scope → Env → Bytes → Value → Option Value → Option Env → Option Env
set_at s e name v (some old) outer = some (record s { head = set_in s.head name v } ∷ e)
set_at s e name v none outer = outer_set s outer

-- The innermost binding of the name is assigned; `none` is the answer 0.
unfoldable pub env_set : Env → Bytes → Value → Option Env
env_set [] name v = none
env_set (s ∷ e) name v = set_at s e name v (find_local s name) (env_set e name v)
