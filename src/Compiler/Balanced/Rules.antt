-- ===== src/Compiler/Balanced/Rules.antt =====
-- How the functions of src/mvm_compiler.c change the scopes and loops that are open, and the
-- bounds on its tables.
use myon.Base.{ℕ, ◌≤◌, ◌<◌, ◌≡◌, Bool, true, false, List, [], ◌∷◌, if◌then◌else◌, length}
use Prim.Native.String.{String}
use myon.Mvm.{Chunk, Module}
use myon.Compiler.State.{
  Local, FnComp, Compiler, Compiled, made, after_made, compile_error, Compiling, ◌>>=◌, give, fail,
  not_modelled, asks, on_chunk, on_module, emit_jump, max_locals, max_loop, max_depth, max_upvalues,
}

-- The locals have the slots from 0 on, in the order of their declarations.
abbrev pub InOrder : List Local → Type 0
InOrder [] = Unit
InOrder (l ∷ ls) = (l.slot ≡ length ls) × InOrder ls

-- The tables of a function are within their bounds, and its locals have the first slots.
pub record IsSound (fn : FnComp) : Type 0 where
  pub in_order : InOrder fn.locals
  pub next : fn.next_slot ≡ length fn.locals
  pub high : fn.next_slot ≤ fn.max_slot
  pub few_locals : fn.max_slot ≤ max_locals
  pub few_loops : length fn.loops ≤ max_loop
  pub shallow : length fn.depth_is_block < max_depth
  pub few_upvalues : length fn.upvalues ≤ max_upvalues

-- The open scopes of a function and the number of its open loops, for each function in turn.
abbrev pub Shape : Type 0
Shape = List (List Bool × ℕ)

abbrev pub Fits : List FnComp → Shape → Type 0
Fits [] [] = Unit
Fits [] (s ∷ ss) = ⊥
Fits (fn ∷ fns) [] = ⊥
Fits (fn ∷ fns) (s ∷ ss) =
    IsSound fn × (fn.depth_is_block ≡ s.0) × (length fn.loops ≡ s.1) × Fits fns ss

abbrev pub At : Shape → Compiler → Type 0
At s c = Fits (c.fn ∷ c.enclosing) s

abbrev pub OnMade {ℓ} : {A : Type ℓ} → (A → Type 0) → Compiled A → Type 0
OnMade P (made a) = P a
OnMade P (compile_error message) = Unit
OnMade P Compiled.endless = Unit
OnMade P Compiled.elsewhere = Unit

-- From one shape to another, if it does not fail.
pub record Takes {ℓ} {A : Type ℓ} (s t : Shape) (act : Compiling A) : Type ℓ where
  pub at : (c : Compiler) → At s c → OnMade (λ (r : A × Compiler). At t r.1) (act c)

on_bind {ℓ κ} :
    {A : Type ℓ} {B : Type κ} (t u : Shape) (o : Compiled (A × Compiler)) (k : A → Compiling B)
    → OnMade (λ (r : A × Compiler). At t r.1) o
    → ((a : A) → Takes t u (k a))
    → OnMade (λ (r : B × Compiler). At u r.1) (after_made o (λ (r : A × Compiler). k r.0 r.1))
on_bind t u (made (a, c)) k h p = (p a).at c h
on_bind t u (compile_error message) k h p = tt
on_bind t u Compiled.endless k h p = tt
on_bind t u Compiled.elsewhere k h p = tt

pub bind-Takes {ℓ κ} :
    {A : Type ℓ} {B : Type κ} {s t u : Shape} (m : Compiling A) (k : A → Compiling B)
    → Takes s t m
    → ((a : A) → Takes t u (k a))
    → Takes s u (m >>= k)
unfolding ◌>>=◌
bind-Takes {t = t} {u = u} m k p q = record { at = λ c h. on_bind t u (m c) k (p.at c h) q }

-- It leaves every shape as it is.
pub record Keeps {ℓ} {A : Type ℓ} (act : Compiling A) : Type ℓ where
  pub for : (s : Shape) → Takes s s act

pub Keeps-bind {ℓ κ} :
    {A : Type ℓ} {B : Type κ} (m : Compiling A) (k : A → Compiling B)
    → Keeps m
    → ((a : A) → Keeps (k a))
    → Keeps (m >>= k)
Keeps-bind m k p q = record { for = λ s. bind-Takes m k (p.for s) (λ a. (q a).for s) }

pub Keeps-give {ℓ} : {A : Type ℓ} (a : A) → Keeps (give a)
unfolding give
Keeps-give a = record { for = λ s. record { at = λ c h. h } }

pub Keeps-fail {ℓ} : {A : Type ℓ} (message : String) → Keeps {A = A} (fail message)
unfolding fail
Keeps-fail message = record { for = λ s. record { at = λ c h. tt } }

pub Keeps-not_modelled {ℓ} : {A : Type ℓ} → Keeps {A = A} not_modelled
unfolding not_modelled
Keeps-not_modelled = record { for = λ s. record { at = λ c h. tt } }

pub Keeps-asks {ℓ} : {A : Type ℓ} (f : Compiler → A) → Keeps (asks f)
unfolding asks
Keeps-asks f = record { for = λ s. record { at = λ c h. h } }

pub Keeps-on_module : (f : Module → ℕ × Module) → Keeps (on_module f)
unfolding on_module
Keeps-on_module f = record { for = λ s. record { at = λ c h. h } }

chunk-Fits :
    (s : Shape) (fn : FnComp) (ch : Chunk) (fns : List FnComp)
    → Fits (fn ∷ fns) s
    → Fits (record fn { chunk = ch } ∷ fns) s
chunk-Fits [] fn ch fns h = h
chunk-Fits (s ∷ ss) fn ch fns (h, b, l, rest) = (
  record {
    in_order = h.in_order;
    next = h.next;
    high = h.high;
    few_locals = h.few_locals;
    few_loops = h.few_loops;
    shallow = h.shallow;
    few_upvalues = h.few_upvalues;
  },
  b,
  l,
  rest,
)

pub Keeps-on_chunk : (f : Chunk → Chunk) → Keeps (on_chunk f)
unfolding on_chunk
Keeps-on_chunk f = record {
  for = λ s. record { at = λ c h. chunk-Fits s c.fn (f c.fn.chunk) c.enclosing h };
}

pub Keeps-emit_jump : (op line : ℕ) → Keeps (emit_jump op line)
unfolding emit_jump
Keeps-emit_jump op line = record {
  for = λ s. record { at = λ c h. chunk-Fits s c.fn _ c.enclosing h };
}

pub Keeps-if {ℓ} :
    {A : Type ℓ} (b : Bool) (p q : Compiling A) → Keeps p → Keeps q → Keeps (if b then p else q)
Keeps-if true p q hp hq = hp
Keeps-if false p q hp hq = hq

pub ruleset keeps_rules = (
  Keeps-bind, Keeps-give, Keeps-fail, Keeps-not_modelled, Keeps-asks, Keeps-on_module,
  Keeps-on_chunk, Keeps-emit_jump, Keeps-if,
)
