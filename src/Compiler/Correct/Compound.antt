-- ===== src/Compiler/Correct/Compound.antt =====
-- compile_expr of src/mvm_compiler.c on operators, from their operands.
use myon.Base.{
  ℕ, suc, ◌+◌, ◌^◌, ◌<◌, ◌≡◌, ◌≢◌, refl, ap, ◌∙◌, Bool, not, List, [], ◌∷◌, ◌++◌, append_assoc, inl,
  inr, Bytes, length, length-append, arith,
}
use mathlib.Core.Path.{subst}
use myon.Value.{Value, v_bool}
use myon.Env.{Env}
use myon.Ast.{Expr, binary, unary, logical}
use myon.Interp.Ints.{OpKind, op_neg, op_not}
use myon.Interp.Operators.{FloatOps}
use myon.Interp.Eval.{eval_expr, gives}
use myon.Mvm.{Module}
use myon.Mvm.Emit.{chunk_emit_byte, chunk_emit_jump, chunk_patch_jump}
use myon.Mvm.Opcode.{mop_nop}
use myon.Vm.Opcodes.{mop_neg, mop_not}
use myon.Vm.State.{Frame, Vm}
use myon.Compiler.State.{Compiler}
use myon.Compiler.Calls.{binary_opcode}
use myon.Compiler.Correct.Emission.{
  chunk_emit_byte-code, chunk_emit_jump-code, chunk_emit_jump-off, chunk_patch_jump-code,
}
use myon.Compiler.Correct.Machine.{Pushes}
use myon.Compiler.Correct.Operators.{neg-Carries, not-Carries, binary-Carries}
use myon.Compiler.Correct.Jumps.{decided-Carries, undecided-Carries, logical_tail}
use myon.Vm.Opcodes.{mop_dup, mop_pop}
use myon.Compiler.Correct.Jumps.{jump_op}
use myon.Compiler.Correct.Pieces.{seq-Carries}
use myon.Compiler.Correct.Expressions.{CompiledAs, Extends-trans, code_of, consts_of}
use myon.Compiler.Correct.Results.{Decides, and_then-gives, evaluated}

abbrev pub emitted : ℕ → ℕ → Compiler → Compiler
emitted op line c = record c { fn = record c.fn { chunk = chunk_emit_byte c.fn.chunk op line } }

emitted-code :
    (c c' : Compiler) (seg : Bytes) (op line : ℕ)
    → code_of c' ≡ code_of c ++ seg
    → code_of (emitted op line c') ≡ code_of c ++ (seg ++ (op ∷ []))
emitted-code c c' seg op line e =
    chunk_emit_byte-code c'.fn.chunk op line
    ∙ ap (λ (s : Bytes). s ++ (op ∷ [])) e
    ∙ append_assoc (code_of c) seg (op ∷ [])

shorter : (xs ys : Bytes) → length (xs ++ ys) < 2 ^ 15 → (length xs < 2 ^ 15) × (length ys < 2 ^ 15)
shorter xs ys h = (omega (arith, length-append xs ys), omega (arith, length-append xs ys))

abbrev jump_emitted : Bool → ℕ → Compiler → ℕ × Compiler
jump_emitted and_ line c =
    let (off, ch) = chunk_emit_jump c.fn.chunk (jump_op and_) line in
    (off, record c { fn = record c.fn { chunk = ch } })

-- Behind the left operand, up to the right one; and the patch behind that.
abbrev pub before_right : Bool → ℕ → Compiler → Compiler
before_right and_ line c = emitted mop_pop line (jump_emitted and_ line (emitted mop_dup line c)).1

abbrev pub jump_off : Bool → ℕ → Compiler → ℕ
jump_off and_ line c = (jump_emitted and_ line (emitted mop_dup line c)).0

abbrev pub patched : ℕ → Compiler → Compiler
patched off c = record c { fn = record c.fn { chunk = chunk_patch_jump c.fn.chunk off } }

before_right-code :
    (and_ : Bool) (line : ℕ) (c : Compiler)
    → code_of (before_right and_ line c)
      ≡ (code_of c ++ (mop_dup ∷ [])) ++ (jump_op and_ ∷ 255 ∷ 255 ∷ mop_pop ∷ [])
before_right-code and_ line c =
    chunk_emit_byte-code _ mop_pop line
    ∙ ap (λ (s : Bytes). s ++ (mop_pop ∷ []))
        (chunk_emit_jump-code (emitted mop_dup line c).fn.chunk (jump_op and_) line)
    ∙ append_assoc (code_of (emitted mop_dup line c)) (jump_op and_ ∷ 255 ∷ 255 ∷ []) (mop_pop ∷ [])
    ∙ ap (λ (s : Bytes). s ++ (jump_op and_ ∷ 255 ∷ 255 ∷ mop_pop ∷ []))
        (chunk_emit_byte-code c.fn.chunk mop_dup line)

jump_off-code :
    (and_ : Bool) (line : ℕ) (c : Compiler)
    → jump_off and_ line c ≡ length (code_of c ++ (mop_dup ∷ [])) + 1
jump_off-code and_ line c =
    chunk_emit_jump-off (emitted mop_dup line c).fn.chunk (jump_op and_) line
    ∙ ap (λ (s : Bytes). length s + 1) (chunk_emit_byte-code c.fn.chunk mop_dup line)

logical-code :
    (and_ : Bool) (line : ℕ) (c c' c'' : Compiler) (seg seg' : Bytes)
    → code_of c' ≡ code_of c ++ seg
    → code_of c'' ≡ code_of (before_right and_ line c') ++ seg'
    → code_of (patched (jump_off and_ line c') c'')
      ≡ code_of c ++ (seg ++ logical_tail and_ (suc (length seg')) seg')
logical-code and_ line c c' c'' seg seg' e e' =
    let start = code_of c' ++ (mop_dup ∷ []) in
    let w = suc (length seg') in
    let whole : code_of c'' ≡ start ++ (jump_op and_ ∷ 255 ∷ 255 ∷ mop_pop ∷ seg') =
      e'
      ∙ ap (λ (s : Bytes). s ++ seg') (before_right-code and_ line c')
      ∙ append_assoc start (jump_op and_ ∷ 255 ∷ 255 ∷ mop_pop ∷ []) seg' in
    chunk_patch_jump-code c''.fn.chunk start (mop_pop ∷ seg') (jump_off and_ line c') (jump_op and_)
      255 255 whole (jump_off-code and_ line c')
    ∙ append_assoc (code_of c') (mop_dup ∷ []) _
    ∙ ap (λ (s : Bytes). s ++ logical_tail and_ w seg') e
    ∙ append_assoc (code_of c) seg (logical_tail and_ w seg')

module _ (fl : FloatOps) (m : Module) (f : Frame) (callers : List Frame) (vm : Vm) (env : Env) where
  abbrev Comp : Expr → Compiler → Compiler → Type 0
  Comp = CompiledAs fl m f callers vm env

  pub neg-Compiles :
      (e : Expr) (c c' : Compiler) (line : ℕ)
      → Comp e c c'
      → Comp (unary line op_neg e) c (emitted mop_neg line c')
  unfolding eval_expr
  neg-Compiles e c c' line p = record {
    seg = p.seg ++ (mop_neg ∷ []);
    code = emitted-code c c' p.seg mop_neg line p.code;
    some_ = omega (arith, length-append p.seg (mop_neg ∷ []));
    locals = p.locals;
    consts = p.consts;
    distinct = p.distinct;
    runs = λ w ev x few small.
        let (a, ea, ew) = and_then-gives (eval_expr fl env e) _ w ev in
        neg-Carries fl m f callers vm p.seg a w p.some_ (evaluated _ w ew)
          (p.runs a ea x few (shorter p.seg (mop_neg ∷ []) small).0);
  }

  pub not-Compiles :
      (e : Expr) (c c' : Compiler) (line : ℕ)
      → Comp e c c'
      → Comp (unary line op_not e) c (emitted mop_not line c')
  unfolding eval_expr
  not-Compiles e c c' line p = record {
    seg = p.seg ++ (mop_not ∷ []);
    code = emitted-code c c' p.seg mop_not line p.code;
    some_ = omega (arith, length-append p.seg (mop_not ∷ []));
    locals = p.locals;
    consts = p.consts;
    distinct = p.distinct;
    runs = λ w ev x few small.
        let (a, ea, ew) = and_then-gives (eval_expr fl env e) _ w ev in
        not-Carries fl m f callers vm p.seg a w p.some_ (evaluated _ w ew)
          (p.runs a ea x few (shorter p.seg (mop_not ∷ []) small).0);
  }

  pub binary-Compiles :
      (l r : Expr) (c c' c'' : Compiler) (line : ℕ) (op : OpKind)
      → binary_opcode op ≢ mop_nop
      → Comp l c c'
      → Comp r c' c''
      → Comp (binary line op l r) c (emitted (binary_opcode op) line c'')
  unfolding eval_expr
  binary-Compiles l r c c' c'' line op known p q = record {
    seg = (p.seg ++ q.seg) ++ (binary_opcode op ∷ []);
    code =
        emitted-code c c'' (p.seg ++ q.seg) (binary_opcode op) line
          (q.code ∙ ap (λ (s : Bytes). s ++ q.seg) p.code ∙ append_assoc (code_of c) p.seg q.seg);
    some_ = omega (arith, length-append (p.seg ++ q.seg) (binary_opcode op ∷ []));
    locals = q.locals ∙ p.locals;
    consts = Extends-trans (consts_of c) (consts_of c') (consts_of c'') p.consts q.consts;
    distinct = q.distinct;
    runs = λ w ev x few small.
        let (a, ea, ew) = and_then-gives (eval_expr fl env l) _ w ev in
        let (b, eb, eo) = and_then-gives (eval_expr fl env r) _ w ew in
        let short = shorter (p.seg ++ q.seg) (binary_opcode op ∷ []) small in
        let parts = shorter p.seg q.seg short.0 in
        binary-Carries fl m f callers vm p.seg q.seg op a b w p.some_ q.some_ known
          (evaluated _ w eo)
          (p.runs a ea (Extends-trans (consts_of c') (consts_of c'') m.consts q.consts x) few
            parts.0)
          (q.runs b eb x few parts.1);
  }

  pub logical-Compiles :
      (and_ : Bool) (op : OpKind) (l r : Expr) (c c' c'' : Compiler) (line : ℕ)
      → ((w : Value)
          → eval_expr fl env (logical line op l r) ≡ gives w
          → Decides and_ (eval_expr fl env l) (eval_expr fl env r) w)
      → Comp l c c'
      → Comp r (before_right and_ line c') c''
      → Comp (logical line op l r) c (patched (jump_off and_ line c') c'')
  logical-Compiles and_ op l r c c' c'' line decides p q = record {
    seg = p.seg ++ logical_tail and_ (suc (length q.seg)) q.seg;
    code = logical-code and_ line c c' c'' p.seg q.seg p.code q.code;
    some_ =
        omega (arith, p.some_, length-append p.seg (logical_tail and_ (suc (length q.seg)) q.seg));
    locals = q.locals ∙ p.locals;
    consts = Extends-trans (consts_of c) (consts_of c') (consts_of c'') p.consts q.consts;
    distinct = q.distinct;
    runs = λ w ev x few small.
        let tail = logical_tail and_ (suc (length q.seg)) q.seg in
        let parts = shorter p.seg tail small in
        let x' = Extends-trans (consts_of c') (consts_of c'') m.consts q.consts x in
        elim (decides w ev) [
          | inl (el, ew) ↦
              subst (λ (u : Value). Pushes fl m f callers vm (p.seg ++ tail) u) (ew)
                (seq-Carries fl m f callers vm p.seg tail [] (v_bool (not and_) ∷ [])
                  (v_bool (not and_) ∷ []) (omega (arith, p.some_))
                  (p.runs (v_bool (not and_)) el x' few parts.0)
                  (decided-Carries fl m f callers vm and_ (suc (length q.seg)) q.seg refl
                    (omega (arith, parts.1))))
          | inr (el, er) ↦
              seq-Carries fl m f callers vm p.seg tail [] (v_bool and_ ∷ []) (w ∷ [])
                (omega (arith, p.some_)) (p.runs (v_bool and_) el x' few parts.0)
                (undecided-Carries fl m f callers vm and_ (suc (length q.seg)) q.seg w
                  (q.runs w er x few (omega (arith, parts.1))))
        ];
  }
