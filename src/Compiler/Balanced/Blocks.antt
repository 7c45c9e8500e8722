-- ===== src/Compiler/Balanced/Blocks.antt =====
-- Scopes, loops and functions that are opened and closed in src/mvm_compiler.c.
use myon.Base.{
  ℕ, suc, ◌+◌, ◌≡◌, ap, Bool, List, [], ◌∷◌, ◌==◌, leb, Bool-cases, inl, inr, length, arith,
}
use myon.Compiler.State.{Local, Action, ◌>>=◌, change_fn, max_depth, max_loop, scope_depth}
use myon.Compiler.Scopes.{begin_scope, drop_scope, end_scope, tail}
use myon.Compiler.Loops.{loop_push}
use myon.Compiler.Tree.{scoped}
use myon.Compiler.Balanced.Rules.{InOrder, Shape, Takes, Keeps, bind-Takes}

-- A function that keeps all but its locals' depths, its scopes and its loops.
module _ (n : ℕ) (ss : Shape) where
  pub begin_scope-Takes :
      (b : Bool) (bs : List Bool) → Takes ((bs, n) ∷ ss) ((b ∷ bs, n) ∷ ss) (begin_scope b)
  unfolding begin_scope
  begin_scope-Takes b bs = record {
    at = λ c (h, e, l, rest). elim (Bool-cases (leb max_depth (scope_depth c.fn + 1))) [
      | inl deep ↦ rw deep tt
      | inr fine ↦ rw fine (
        record {
          in_order = h.in_order;
          next = h.next;
          high = h.high;
          few_locals = h.few_locals;
          few_loops = h.few_loops;
          shallow = ground arith;
          few_upvalues = h.few_upvalues;
        },
        ap (◌∷◌ b) e,
        l,
        rest,
      )
    ];
  }

-- What is left of the locals is in order, and the rest is counted.
drop_scope-InOrder :
    (depth : ℕ) (ls : List Local)
    → InOrder ls
    → InOrder (drop_scope depth ls).1
      × (length (drop_scope depth ls).1 + (drop_scope depth ls).0 ≡ length ls)
unfolding drop_scope
drop_scope-InOrder depth [] h = (tt, omega arith)
drop_scope-InOrder depth (l ∷ ls) (e, h) = elim (Bool-cases (l.depth == depth)) [
  | inl here ↦ let (o, n) = drop_scope-InOrder depth ls h in rw here (o, omega (arith, n))
  | inr other ↦ rw other ((e, h), omega arith)
]

module _ (n : ℕ) (ss : Shape) where
  pub end_scope-Takes :
      (b : Bool) (bs : List Bool) → Takes ((b ∷ bs, n) ∷ ss) ((bs, n) ∷ ss) (change_fn end_scope)
  unfolding change_fn end_scope
  end_scope-Takes b bs = record {
    at = λ c (h, e, l, rest).
        let (o, k) = drop_scope-InOrder (scope_depth c.fn) c.fn.locals h.in_order in
        (
          record {
            in_order = o;
            next = omega (arith, k, h.next);
            high = omega (arith, h.high);
            few_locals = h.few_locals;
            few_loops = h.few_loops;
            shallow =
                let size : length (tail c.fn.depth_is_block) ≡ length bs =
                  ap (λ (x : List Bool). length (tail x)) e in
                let size' : length c.fn.depth_is_block ≡ suc (length bs) = ap length e in
                omega (arith, h.shallow);
            few_upvalues = h.few_upvalues;
          },
          ap tail e,
          l,
          rest,
        );
  }

  pub loop_push-Takes : (bs : List Bool) → Takes ((bs, n) ∷ ss) ((bs, suc n) ∷ ss) loop_push
  unfolding loop_push
  loop_push-Takes bs = record {
    at = λ c (h, e, l, rest). elim (Bool-cases (leb max_loop (length c.fn.loops))) [
      | inl deep ↦ rw deep tt
      | inr fine ↦ rw fine (
        record {
          in_order = h.in_order;
          next = h.next;
          high = h.high;
          few_locals = h.few_locals;
          few_loops = ground arith;
          shallow = h.shallow;
          few_upvalues = h.few_upvalues;
        },
        e,
        ap suc l,
        rest,
      )
    ];
  }

-- An action of each part of the compiler keeps what is open around it.
pub scoped-Keeps : (b : Bool) (act : Action) → Keeps act → Keeps (scoped b act)
unfolding scoped
scoped-Keeps b act k = record { for = go }
  where
    go : (s : Shape) → Takes s s (begin_scope b >>= λ _. act >>= λ _. change_fn end_scope)
    go [] = record { at = λ c h. elim h [ ] }
    go ((bs, n) ∷ ss) =
        bind-Takes _ _ (begin_scope-Takes n ss b bs)
          (λ _. bind-Takes _ _ (k.for ((b ∷ bs, n) ∷ ss)) (λ _. end_scope-Takes n ss b bs))
