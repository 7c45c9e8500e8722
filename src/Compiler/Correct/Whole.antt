-- ===== src/Compiler/Correct/Whole.antt =====
-- compile_expr of src/mvm_compiler.c against eval_expr of src/interpreter.c, for whole
-- expressions.
use myon.Base.{
  ℕ, ◌+◌, ◌^◌, ◌<◌, ◌≡◌, refl, sym, ap, ◌∙◌, true, false, List, [], ◌∷◌, ◌++◌, append_assoc, some,
  Bytes, length, length-append, arith,
}
use mathlib.Core.Path.{subst}
use myon.Value.{Value, v_int, v_float, v_bool, v_nil, v_str}
use myon.Env.{Env, env_get}
use myon.Ast
use myon.Ast.{Expr, int_lit, float_lit, bool_lit, string, ident, binary, unary, logical}
use myon.Interp.Ints.{op_and, op_or, op_neg, op_not}
use myon.Interp.Operators.{FloatOps}
use myon.Interp.Eval.{eval_expr, gives, as_text}
use myon.Mvm.{Module, int, float, str}
use myon.Mvm.Pool.Laws.{DistinctAfter}
use myon.Vm.Opcodes.{mop_push_true, mop_push_false, mop_push_nil, mop_neg, mop_not}
use myon.Vm.State.{Frame, Vm}
use myon.Compiler.State.{Local, Compiler, Compiled, made, ◌>>=◌, on_chunk, on_module, emit_jump}
use myon.Compiler.Scopes.{resolve_local, resolve_name}
use myon.Compiler.Calls.{binary_opcode, compile_string}
use myon.Compiler.Tree.{compile_expr, compile_logical}
use myon.Compiler.Correct.Pieces.{literal-Pushes}
use myon.Vm.Run.{exec, run, main_frame, boot}
use myon.Compiler.Functions.{new_chunk}
use myon.Vm.State.{went, mvm_stack_max}
use myon.Vm.Calls.{running}
use myon.Compiler.Correct.Machine.{at_place, run-Reaches}
use myon.Compiler.Correct.Expressions.{
  IsPlain, Agrees, CompiledAs, Extends, code_of, consts_of, literal-Compiles, const-Compiles,
  local-Compiles,
}
use myon.Compiler.Correct.Compound.{
  emitted, before_right, jump_off, patched, neg-Compiles, not-Compiles, binary-Compiles,
  logical-Compiles,
}
use myon.Compiler.Correct.Results.{eval_and-Decides, eval_or-Decides}
use myon.Compiler.Correct.Leaves.{
  int-Stands, float-Stands, str-Stands, interpolate_string-plain, emit_binary-known,
}

module _ (fl : FloatOps) (m : Module) (f : Frame) (callers : List Frame) (vm : Vm) (env : Env) where
  abbrev Done : Expr → Compiler → Type 0
  Done e c =
      (c' : Compiler) × (compile_expr e c ≡ made (tt, c')) × CompiledAs fl m f callers vm env e c c'

  -- The second operand is compiled where the first one's code ends.
  abbrev Ready : List Local → Expr → Type 0
  Ready ls e = IsPlain ls e × Agrees ls env f vm

  ready :
      (e : Expr) (ls ls' : List Local)
      → ls' ≡ ls
      → IsPlain ls e
      → Agrees ls env f vm
      → IsPlain ls' e × Agrees ls' env f vm
  ready e ls ls' same plain agree =
      subst (λ (l : List Local). IsPlain l e × Agrees l env f vm) (sym same) (plain, agree)

  pub compile_expr-Compiles :
      (e : Expr) (c : Compiler)
      → IsPlain c.fn.locals e
      → DistinctAfter [] (consts_of c)
      → Agrees c.fn.locals env f vm
      → Done e c
  unfolding compile_expr eval_expr ◌>>=◌ on_chunk on_module emit_jump compile_logical resolve_name
      resolve_local exec compile_string as_text
  compile_expr-Compiles (int_lit line i) c plain d agree = (
    _,
    refl,
    const-Compiles fl m f callers vm env (int_lit line i) c (int i) line (v_int i) d refl
        (λ x h. int-Stands x i h),
  )
  compile_expr-Compiles (float_lit line k) c plain d agree = (
    _,
    refl,
    const-Compiles fl m f callers vm env (float_lit line k) c (float k) line (v_float k) d refl
        (λ x h. float-Stands x k plain h),
  )
  compile_expr-Compiles (bool_lit line true) c plain d agree = (
    _,
    refl,
    literal-Compiles fl m f callers vm env (bool_lit line true) c mop_push_true line (v_bool true) d
        refl (literal-Pushes fl m f callers vm mop_push_true (v_bool true) (λ g off vm'. refl)),
  )
  compile_expr-Compiles (bool_lit line false) c plain d agree = (
    _,
    refl,
    literal-Compiles fl m f callers vm env (bool_lit line false) c mop_push_false line
        (v_bool false) d refl
        (literal-Pushes fl m f callers vm mop_push_false (v_bool false) (λ g off vm'. refl)),
  )
  compile_expr-Compiles (Ast.Expr.nil line) c plain d agree = (
    _,
    refl,
    literal-Compiles fl m f callers vm env (Ast.Expr.nil line) c mop_push_nil line v_nil d refl
        (literal-Pushes fl m f callers vm mop_push_nil v_nil (λ g off vm'. refl)),
  )
  compile_expr-Compiles (string line (some s)) c plain d agree = (
    _,
    rw plain refl,
    const-Compiles fl m f callers vm env (string line (some s)) c (str s) line (v_str s) d
        (rw (interpolate_string-plain s plain) refl) (λ x h. str-Stands x s h),
  )
  compile_expr-Compiles (ident line name) c (slot, found, small) d agree =
      (_, rw found refl, local-Compiles fl m f callers vm env c line slot name d agree found small)
  compile_expr-Compiles (unary line op_neg e) c plain d agree =
      let (c', made', p) = compile_expr-Compiles e c plain d agree in
      (emitted mop_neg line c', rw made' refl, neg-Compiles fl m f callers vm env e c c' line p)
  compile_expr-Compiles (unary line op_not e) c plain d agree =
      let (c', made', p) = compile_expr-Compiles e c plain d agree in
      (emitted mop_not line c', rw made' refl, not-Compiles fl m f callers vm env e c c' line p)
  compile_expr-Compiles (binary line op l r) c (known, pl, pr) d agree =
      let (c', made', p) = compile_expr-Compiles l c pl d agree in
      let (pr', agree') = ready r c.fn.locals c'.fn.locals p.locals pr agree in
      let (c'', made'', q) = compile_expr-Compiles r c' pr' p.distinct agree' in
      (
        emitted (binary_opcode op) line c'',
        rw (made', made'') (emit_binary-known op line c'' known),
        binary-Compiles fl m f callers vm env l r c c' c'' line op known p q,
      )
  compile_expr-Compiles (logical line op_and l r) c (pl, pr) d agree =
      let (c', made', p) = compile_expr-Compiles l c pl d agree in
      let (pr', agree') = ready r c.fn.locals c'.fn.locals p.locals pr agree in
      let (c'', made'', q) =
        compile_expr-Compiles r (before_right true line c') pr' p.distinct agree' in
      (
        patched (jump_off true line c') c'',
        rw (made', made'') refl,
        logical-Compiles fl m f callers vm env true op_and l r c c' c'' line
            (λ w ev. eval_and-Decides (eval_expr fl env l) (eval_expr fl env r) w ev) p q,
      )
  compile_expr-Compiles (logical line op_or l r) c (pl, pr) d agree =
      let (c', made', p) = compile_expr-Compiles l c pl d agree in
      let (pr', agree') = ready r c.fn.locals c'.fn.locals p.locals pr agree in
      let (c'', made'', q) =
        compile_expr-Compiles r (before_right false line c') pr' p.distinct agree' in
      (
        patched (jump_off false line c') c'',
        rw (made', made'') refl,
        logical-Compiles fl m f callers vm env false op_or l r c c' c'' line
            (λ w ev. eval_or-Decides (eval_expr fl env l) (eval_expr fl env r) w ev) p q,
      )
  compile_expr-Compiles _ c plain d agree = elim plain [ ]

made_inj :
    (c c' : Compiler)
    → ◌≡◌ {A = Compiled (Unit {0} × Compiler)} (made (tt, c)) (made (tt, c'))
    → c ≡ c'
made_inj c c' e = ap (λ (o : Compiled (Unit {0} × Compiler)). result o) e
  where
    result : Compiled (Unit {0} × Compiler) → Compiler
    result (made (u, d)) = d
    result _ = c

abbrev no_floats : FloatOps
no_floats = record {
  add = λ a b. 0;
  sub = λ a b. 0;
  mul = λ a b. 0;
  div = λ a b. 0;
  less = λ a b. false;
  negate = λ a. 0;
}

-- An expression of literals, of locals that are declared at slots below 2^16 and of operators,
-- with no float literal 0 and no brace in a text, compiles with a pool in which no constant
-- compares equal to an earlier one; it only appends to the code and to the pool, of which the same
-- still holds, and leaves the locals as they are.
pub compile_expr-plain :
    (e : Expr) (c : Compiler)
    → IsPlain c.fn.locals e
    → DistinctAfter [] (consts_of c)
    → (c' : Compiler) × (seg : Bytes) × (compile_expr e c ≡ made (tt, c'))
      × (code_of c' ≡ code_of c ++ seg)
      × (c'.fn.locals ≡ c.fn.locals)
      × Extends (consts_of c) (consts_of c')
      × DistinctAfter [] (consts_of c')
unfolding env_get
compile_expr-plain e c plain d =
    let ch = new_chunk [] in
    let (c', compiled, p) =
      compile_expr-Compiles no_floats c.mvm_module (main_frame ch) [] (boot ch) [] e c plain d
        (λ name slot v found got. absurd (cc)) in
    (c', p.seg, compiled, p.code, p.locals, p.consts, p.distinct)

-- If an expression of literals, of locals that are declared at slots below 2^16 and of operators,
-- with no float literal 0 and no brace in a text, is compiled with a pool in which no constant
-- compares equal to an earlier one, if each local of the machine holds what the environment gives
-- its name, and if evaluating the expression in the environment gives a value, then the machine,
-- on a code that starts with the compiled one, with a pool that extends the compiled one and has
-- less than 2^16 constants, goes from where the code of the expression starts to where it ends and
-- leaves that value on its stack, if the code is below 2^15 bytes and the stack has as much room
-- as the code is long.
pub run-compile_expr :
    (fl : FloatOps) (m : Module) (f : Frame) (callers : List Frame) (vm : Vm) (env : Env) (e : Expr)
    (c c' : Compiler) (v : Value) (post : Bytes)
    → IsPlain c.fn.locals e
    → DistinctAfter [] (consts_of c)
    → Agrees c.fn.locals env f vm
    → compile_expr e c ≡ made (tt, c')
    → eval_expr fl env e ≡ gives v
    → f.chunk.code ≡ code_of c' ++ post
    → Extends (consts_of c') m.consts
    → length m.consts < 2 ^ 16
    → length (code_of c') < 2 ^ 15
    → length vm.stack + length (code_of c') < mvm_stack_max
    → (n : ℕ) × (capacity : ℕ) × (run fl m n
          (at_place fl m f callers vm (length (code_of c)) [] vm.stack_cap)
        ≡ went (running (at_place fl m f callers vm (length (code_of c')) (v ∷ []) capacity)))
run-compile_expr fl m f callers vm env e c c' v post plain d agree compiled ev placed pool few short
      room =
    let (c'', made'', p) = compile_expr-Compiles fl m f callers vm env e c plain d agree in
    let same : c'' ≡ c' = made_inj c'' c' (sym made'' ∙ compiled) in
    let q = subst (λ (k : Compiler). CompiledAs fl m f callers vm env e c k) (same) p in
    let size : length (code_of c') ≡ length (code_of c) + length q.seg =
      ap length q.code ∙ length-append (code_of c) q.seg in
    let there : f.chunk.code ≡ code_of c ++ (q.seg ++ post) =
      placed ∙ ap (λ (s : Bytes). s ++ post) q.code ∙ append_assoc (code_of c) q.seg post in
    let (capacity, r) =
      q.runs v ev pool few (omega arith) (code_of c) post [] vm.stack_cap there (omega arith) in
    let (n, h) = run-Reaches fl m r in
    (
      n,
      capacity,
      h
          ∙ ap (λ (i : ℕ). went (running (at_place fl m f callers vm i (v ∷ []) capacity)))
              (sym size),
    )
