-- ===== src/Compiler/Balanced/For.antt =====
-- The loops over a range and over a collection in src/mvm_compiler.c.
use myon.Base.{ℕ, Bool, List, [], ◌∷◌, Bytes}
use myon.Compiler.State.{Compiling, Action, ◌>>=◌, change_fn}
use myon.Compiler.Scopes.{begin_scope, end_scope}
use myon.Compiler.Loops.{loop_tail, compile_for_range, compile_for_in, increment}
use myon.Compiler.Balanced.Rules.{Shape, Takes, Keeps, keeps_rules, bind-Takes}
use myon.Compiler.Balanced.Scopes.{Keeps-declare_local}
use myon.Compiler.Balanced.Blocks.{begin_scope-Takes, end_scope-Takes}
use myon.Compiler.Balanced.Loops.{in_loop-Takes, loop_end-Takes, Keeps-loop_patch_continues}

Keeps-increment : (line slot : ℕ) → Keeps (increment line slot)
Keeps-increment line slot = search keeps_rules

Keeps-loop_tail :
    (line counter top exit_jump : ℕ) (body : Action)
    → Keeps body
    → Keeps (loop_tail line counter top exit_jump body)
unfolding loop_tail
Keeps-loop_tail line counter top exit_jump body kb = record { for = go }
  where
    go : (s : Shape) → Takes s s (loop_tail line counter top exit_jump body)
    go [] = record { at = λ c h. elim h [ ] }
    go ((bs, n) ∷ ss) = in_loop-Takes n ss bs body _ kb (
        bind-Takes _ _ (Keeps-loop_patch_continues.for _) (λ _.
          bind-Takes _ _ ((Keeps-increment line counter).for _)
            (λ _. loop_end-Takes n ss bs top exit_jump line)))

-- It closes the scope that is open.
pub record Closes {ℓ} {A : Type ℓ} (act : Compiling A) : Type ℓ where
  pub for :
      (b : Bool) (bs : List Bool) (n : ℕ) (ss : Shape) → Takes ((b ∷ bs, n) ∷ ss) ((bs, n) ∷ ss) act

pub Closes-bind {ℓ κ} :
    {A : Type ℓ} {B : Type κ} (m : Compiling A) (k : A → Compiling B)
    → Keeps m
    → ((a : A) → Closes (k a))
    → Closes (m >>= k)
Closes-bind m k p q = record {
  for = λ b bs n ss. bind-Takes _ _ (p.for _) (λ a. (q a).for b bs n ss);
}

pub Closes-end : Closes (change_fn end_scope)
Closes-end = record { for = λ b bs n ss. end_scope-Takes n ss b bs }

-- A scope around an action that closes it.
pub Keeps-open :
    (is_block : Bool) (rest : Unit {0} → Action)
    → ((u : Unit {0}) → Closes (rest u))
    → Keeps (begin_scope is_block >>= rest)
Keeps-open is_block rest k = record { for = go }
  where
    go : (s : Shape) → Takes s s (begin_scope is_block >>= rest)
    go [] = record { at = λ c h. elim h [ ] }
    go ((bs, n) ∷ ss) =
        bind-Takes _ _ (begin_scope-Takes n ss is_block bs) (λ u. (k u).for is_block bs n ss)

ruleset closes_rules =
    (keeps_rules, Closes-bind, Closes-end, Keeps-open, Keeps-declare_local, Keeps-loop_tail)

pub Keeps-compile_for_range :
    (line : ℕ) (var : Bytes) (range_start range_end body : Action)
    → Keeps range_start
    → Keeps range_end
    → Keeps body
    → Keeps (compile_for_range line var range_start range_end body)
unfolding compile_for_range
Keeps-compile_for_range line var range_start range_end body ks ke kb = search closes_rules depth 40

pub Keeps-compile_for_in :
    (line : ℕ) (var : Bytes) (iterable body : Action)
    → Keeps iterable
    → Keeps body
    → Keeps (compile_for_in line var iterable body)
unfolding compile_for_in
Keeps-compile_for_in line var iterable body ki kb = search closes_rules depth 40
