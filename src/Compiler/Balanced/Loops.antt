-- ===== src/Compiler/Balanced/Loops.antt =====
-- Conditionals and loops in src/mvm_compiler.c, and `expose`.
use myon.Base.{ℕ, suc, ◌≤◌, ◌≡◌, refl, ◌∙◌, Bool, List, [], ◌∷◌, Option, none, some, length, arith}
use Prim.Native.String.{String}
use myon.Mvm.Opcode.{mop_jump}
use myon.Compiler.State.{LoopCtx, FnComp, Action, ◌>>=◌, change_fn, patch_jump, emit_loop}
use myon.Compiler.Loops.{
  patch_jumps, loop_push, cur_loop, loop_patch_continues, loop_pop, without_loop, on_loop,
  compile_break, compile_continue, end_jump, compile_arms, compile_if, compile_while, in_loop,
  breaks_of,
}
use myon.Compiler.Balanced.Rules.{
  Shape, Fits, Takes, Keeps, keeps_rules, Keeps-bind, bind-Takes, Keeps-asks, Keeps-on_chunk,
  Keeps-emit_jump,
}
use myon.Compiler.Balanced.Blocks.{loop_push-Takes}

-- What keeps the number of the loops, and the locals in order, fits where the function did.
loops-Fits :
    (s : List Bool × ℕ) (ss : Shape) (fn : FnComp) (fns : List FnComp) (ls : List LoopCtx) (n : ℕ)
    → length ls ≡ n
    → length ls ≤ length fn.loops
    → Fits (fn ∷ fns) (s ∷ ss)
    → Fits (record fn { loops = ls } ∷ fns) ((s.0, n) ∷ ss)
loops-Fits s ss fn fns ls n e le (h, b, l, rest) = (
  record {
    in_order = h.in_order;
    next = h.next;
    high = h.high;
    few_locals = h.few_locals;
    few_loops = omega (arith, h.few_loops);
    shallow = h.shallow;
    few_upvalues = h.few_upvalues;
  },
  b,
  e,
  rest,
)

length-without_loop : (ls : List LoopCtx) (n : ℕ) → length ls ≡ suc n → length (without_loop ls) ≡ n
length-without_loop [] n e = absurd (omega arith)
length-without_loop (l ∷ ls) n e = omega arith

length-on_loop : (f : LoopCtx → LoopCtx) (ls : List LoopCtx) → length (on_loop f ls) ≡ length ls
length-on_loop f [] = refl
length-on_loop f (l ∷ ls) = refl

without_loop-Takes :
    (n : ℕ) (ss : Shape) (bs : List Bool)
    → Takes
        ((bs, suc n) ∷ ss)
        ((bs, n) ∷ ss)
        (change_fn (λ fn. record fn { loops = without_loop fn.loops }))
unfolding change_fn
without_loop-Takes n ss bs = record {
  at = λ c (h, e, l, rest).
      let size : length (without_loop c.fn.loops) ≡ n = length-without_loop c.fn.loops n l in
      loops-Fits (bs, suc n) ss c.fn c.enclosing (without_loop c.fn.loops) n size
        (omega (arith, size, l)) (h, e, l, rest);
}

Keeps-on_loop :
    (f : LoopCtx → LoopCtx) → Keeps (change_fn (λ fn. record fn { loops = on_loop f fn.loops }))
unfolding change_fn
Keeps-on_loop f = record { for = go }
  where
    go : (s : Shape) → Takes s s (change_fn (λ fn. record fn { loops = on_loop f fn.loops }))
    go [] = record { at = λ c h. elim h [ ] }
    go ((bs, n) ∷ ss) = record {
      at = λ c (h, e, l, rest).
          loops-Fits (bs, n) ss c.fn c.enclosing (on_loop f c.fn.loops) n
            (length-on_loop f c.fn.loops ∙ l) (omega (arith, length-on_loop f c.fn.loops))
            (h, e, l, rest);
    }

Keeps-patch_jumps : (offs : List ℕ) → Keeps (patch_jumps offs)
unfolding patch_jumps
Keeps-patch_jumps [] = search keeps_rules
Keeps-patch_jumps (off ∷ offs) = Keeps-bind _ _ (Keeps-on_chunk _) (λ _. Keeps-patch_jumps offs)

loop_pop-Takes :
    (n : ℕ) (ss : Shape) (bs : List Bool) → Takes ((bs, suc n) ∷ ss) ((bs, n) ∷ ss) loop_pop
unfolding loop_pop
loop_pop-Takes n ss bs = bind-Takes _ _ ((Keeps-asks cur_loop).for _) (λ l.
    bind-Takes _ _ ((Keeps-patch_jumps (breaks_of l)).for _) (λ _. without_loop-Takes n ss bs))

pub Keeps-loop_patch_continues : Keeps loop_patch_continues
unfolding loop_patch_continues
Keeps-loop_patch_continues = search (keeps_rules, Keeps-patch_jumps)

Keeps-in_loop :
    (message : String) (l : Option LoopCtx) (act : Action)
    → Keeps act
    → Keeps (in_loop message l act)
Keeps-in_loop message none act k = search keeps_rules
Keeps-in_loop message (some l) act k = k

pub Keeps-compile_break : (line : ℕ) → Keeps (compile_break line)
unfolding compile_break
Keeps-compile_break line = search (keeps_rules, Keeps-in_loop, Keeps-on_loop)

pub Keeps-compile_continue : (line : ℕ) → Keeps (compile_continue line)
unfolding compile_continue
Keeps-compile_continue line = search (keeps_rules, Keeps-in_loop, Keeps-on_loop)

-- The arms of a conditional keep what is open.
abbrev pub AllKeep : List (Action × Action) → Type 0
AllKeep [] = Unit
AllKeep ((cond, body) ∷ arms) = Keeps cond × Keeps body × AllKeep arms

Keeps-end_jump : (line : ℕ) (ends : List ℕ) → Keeps (end_jump line ends)
Keeps-end_jump line ends = search keeps_rules

Keeps-compile_arms :
    (line : ℕ) (arms : List (Action × Action)) (ends : List ℕ)
    → AllKeep arms
    → Keeps (compile_arms line arms ends)
unfolding compile_arms
Keeps-compile_arms line [] ends k = search keeps_rules
Keeps-compile_arms line ((cond, body) ∷ arms) ends (kc, kb, ka) = Keeps-bind _ _ kc (λ _.
    Keeps-bind _ _ (Keeps-emit_jump _ _) (λ nxt. Keeps-bind _ _ kb (λ _.
      Keeps-bind _ _ (Keeps-end_jump line ends)
        (λ ends'. Keeps-bind _ _ (Keeps-on_chunk _) (λ _. Keeps-compile_arms line arms ends' ka)))))

pub Keeps-compile_if :
    (line : ℕ) (cond then_body : Action) (arms : List (Action × Action)) (else_body : Action)
    → Keeps cond
    → Keeps then_body
    → AllKeep arms
    → Keeps else_body
    → Keeps (compile_if line cond then_body arms else_body)
unfolding compile_if
Keeps-compile_if line cond then_body arms else_body kc kt ka ke = Keeps-bind _ _ kc (λ _.
    Keeps-bind _ _ (Keeps-emit_jump _ _) (λ else_jump. Keeps-bind _ _ kt (λ _.
      Keeps-bind _ _ (Keeps-emit_jump _ _) (λ end. Keeps-bind _ _ (Keeps-on_chunk _) (λ _.
        Keeps-bind _ _ (Keeps-compile_arms line arms (end ∷ []) ka)
          (λ ends. Keeps-bind _ _ ke (λ _. Keeps-patch_jumps ends)))))))

-- What follows a loop's body, and is inside the loop.
pub in_loop-Takes :
    (n : ℕ) (ss : Shape) (bs : List Bool) (body rest : Action)
    → Keeps body
    → Takes ((bs, suc n) ∷ ss) ((bs, n) ∷ ss) rest
    → Takes ((bs, n) ∷ ss) ((bs, n) ∷ ss) (loop_push >>= λ _. body >>= λ _. rest)
in_loop-Takes n ss bs body rest kb kr =
    bind-Takes _ _ (loop_push-Takes n ss bs)
      (λ _. bind-Takes _ _ (kb.for ((bs, suc n) ∷ ss)) (λ _. kr))

pub loop_end-Takes :
    (n : ℕ) (ss : Shape) (bs : List Bool) (top exit_jump line : ℕ)
    → Takes
        ((bs, suc n) ∷ ss)
        ((bs, n) ∷ ss)
        (emit_loop mop_jump top line >>= λ _. patch_jump exit_jump >>= λ _. loop_pop)
loop_end-Takes n ss bs top exit_jump line =
    bind-Takes _ _ ((Keeps-on_chunk _).for _)
      (λ _. bind-Takes _ _ ((Keeps-on_chunk _).for _) (λ _. loop_pop-Takes n ss bs))

while_loop-Keeps :
    (body : Action) (top exit_jump line : ℕ)
    → Keeps body
    → Keeps (
        loop_push >>= λ _. body >>= λ _. loop_patch_continues >>= λ _.
        emit_loop mop_jump top line >>= λ _. patch_jump exit_jump >>= λ _. loop_pop)
while_loop-Keeps body top exit_jump line kb = record { for = go }
  where
    go :
        (s : Shape)
        → Takes s s (
            loop_push >>= λ _. body >>= λ _. loop_patch_continues >>= λ _.
            emit_loop mop_jump top line >>= λ _. patch_jump exit_jump >>= λ _. loop_pop)
    go [] = record { at = λ c h. elim h [ ] }
    go ((bs, n) ∷ ss) = in_loop-Takes n ss bs body _ kb (
        bind-Takes _ _ (Keeps-loop_patch_continues.for _)
          (λ _. loop_end-Takes n ss bs top exit_jump line))

pub Keeps-compile_while :
    (line : ℕ) (cond body : Action) → Keeps cond → Keeps body → Keeps (compile_while line cond body)
unfolding compile_while
Keeps-compile_while line cond body kc kb = Keeps-bind _ _ (Keeps-asks _) (λ top.
    Keeps-bind _ _ kc (λ _.
      Keeps-bind _ _ (Keeps-emit_jump _ _)
        (λ exit_jump. while_loop-Keeps body top exit_jump line kb)))
