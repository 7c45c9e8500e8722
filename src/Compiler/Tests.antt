-- ===== src/Compiler/Tests.antt =====
-- Programs that src/mvm_compiler.c compiles, and the theorems on them.
use myon.Base.{
  ℕ, ◌≡◌, refl, true, false, [], ◌∷◌, ◌++◌, Option, none, some, Bool-cases, inl, inr, Bytes, str_eq,
  get_elem?, arith,
}
use mathlib.Core.Path.{subst}
use myon.Base.Text.{codes}
use myon.Value.{v_bool}
use myon.Env.{Env, env_get, find_local}
use myon.Types.{null}
use myon.Interp.Ints.{op_or, op_not}
use myon.Interp.Operators.{FloatOps, myon_bridge_not}
use myon.Interp.Eval.{eval_expr, eval_name, eval_logical, and_then}
use myon.Ast.{
  Expr, Stmt, StmtList, no_stmts, stmt_and, assign, unary, ident, bool_lit, while_stmt, break_stmt,
  logical,
}
use myon.Mvm.Emit.{
  chunk_emit_byte, chunk_note_line, chunk_emit_jump, chunk_patch_jump, chunk_emit_loop,
}
use myon.Mvm.Pool.Laws.{DistinctAfter}
use myon.Vm.State.{Vm, went}
use myon.Vm.Calls.{running}
use myon.Vm.Run.{run, main_frame, boot}
use myon.Compiler.State.{
  Compiler, Compiled, made, ◌>>=◌, give, asks, on_chunk, on_module, emit_jump, change_fn,
}
use myon.Compiler.Scopes.{
  with_local, resolve_local, resolve_name, find_in_current_scope, find_in_outer_scope,
  cur_scope_is_block, declare_local, begin_scope, end_scope, drop_scope, resolve_upvalue,
}
use myon.Compiler.Assign.{
  assigned_variable, compile_assign_target_name, compile_assign, compile_assign_single,
}
use myon.Compiler.Loops.{
  compile_while, compile_break, loop_push, loop_pop, loop_patch_continues, patch_jumps,
}
use myon.Compiler.Tree.{compile_expr, compile_stmt, compile_stmts, compile_logical, scoped}
use myon.Compiler.Program.{start, compile_top, register_structs, resolve_parents}
use myon.Compiler.Correct.Machine.{at_place}
use myon.Compiler.Correct.Expressions.{IsPlain, Agrees, Extends, code_of, consts_of}
use myon.Compiler.Correct.Whole.{run-compile_expr, compile_expr-plain}

abbrev x : Bytes
x = codes "x"

abbrev result_of : Compiled (Unit {0} × Compiler) → Compiler
result_of (made (u, c)) = c
result_of _ = start

-- `x or myon.not x`, where x is the only local.
abbrev x_or_not : Expr
x_or_not = logical 1 op_or (ident 1 x) (unary 1 op_not (ident 1 x))

abbrev with_x : Compiler
with_x = record start { fn = with_local x start.fn }

abbrev plain_x : IsPlain with_x.fn.locals x_or_not
unfolding str_eq
plain_x = ((0, refl, omega arith), (0, refl, omega arith))

abbrev compiled_x : Compiler
unfolding compile_expr compile_logical ◌>>=◌ on_chunk on_module emit_jump resolve_name resolve_local
    str_eq chunk_emit_byte chunk_note_line chunk_emit_jump chunk_patch_jump
compiled_x = result_of (compile_expr x_or_not with_x)

compile_x : compile_expr x_or_not with_x ≡ made (tt, compiled_x)
unfolding compile_expr compile_logical ◌>>=◌ on_chunk on_module emit_jump resolve_name resolve_local
    str_eq chunk_emit_byte chunk_note_line chunk_emit_jump chunk_patch_jump
compile_x = refl

-- LOAD_LOCAL 0; DUP; JUMP_IF_TRUE +5; POP; LOAD_LOCAL 0; NOT
code_of_x :
    code_of compiled_x ≡ 0x30 ∷ 0 ∷ 0 ∷ 0x06 ∷ 0x42 ∷ 5 ∷ 0 ∷ 0x05 ∷ 0x30 ∷ 0 ∷ 0 ∷ 0x29 ∷ []
unfolding compiled_x
code_of_x = refl

abbrev no_doubles : FloatOps
no_doubles = record {
  add = λ a b. 0;
  sub = λ a b. 0;
  mul = λ a b. 0;
  div = λ a b. 0;
  less = λ a b. false;
  negate = λ a. 0;
}

abbrev env_x : Env
env_x =
    record {
      head = record { name = x; value = v_bool false } ∷ [];
      is_block = false;
      is_fn_boundary = false;
    }
    ∷ []

abbrev vm_x : Vm
vm_x = record (boot compiled_x.fn.chunk) { globals = v_bool false ∷ [] }

agree_x : Agrees with_x.fn.locals env_x (main_frame compiled_x.fn.chunk) vm_x
unfolding env_get find_local
agree_x name slot v found got = elim (Bool-cases (str_eq x name)) [
  | inl same ↦
      let zero_slot : ◌≡◌ {A = Option ℕ} (some 0) (some slot) = rw same at found in
      let value_x : some (v_bool false) ≡ some v = rw same at got in
      let at_zero : 0 ≡ slot = cc in
      subst (λ (k : ℕ). get_elem? (v_bool false ∷ []) k ≡ some v) (at_zero) value_x
  | inr other ↦ let never : ◌≡◌ {A = Option ℕ} none (some slot) = rw other at found in absurd (cc)
]

run-compile_expr_example :
    (n : ℕ) × (capacity : ℕ) × (run no_doubles compiled_x.mvm_module n
        (at_place no_doubles compiled_x.mvm_module (main_frame compiled_x.fn.chunk) [] vm_x 0 [] 0)
      ≡ went (
          running (
            at_place no_doubles compiled_x.mvm_module
              (main_frame compiled_x.fn.chunk)
              []
              vm_x
              12
              (v_bool true ∷ [])
              capacity)))
unfolding eval_expr env_get eval_logical and_then eval_name find_local str_eq myon_bridge_not
    compiled_x
run-compile_expr_example =
    run-compile_expr no_doubles compiled_x.mvm_module (main_frame compiled_x.fn.chunk) [] vm_x env_x
      x_or_not with_x compiled_x (v_bool true) [] plain_x tt agree_x compile_x refl refl ([], refl)
      (omega arith) (omega arith) (omega arith)

compile_expr-plain_example :
    (c' : Compiler) × (seg : Bytes) × (compile_expr x_or_not with_x ≡ made (tt, c'))
    × (code_of c' ≡ code_of with_x ++ seg)
    × (c'.fn.locals ≡ with_x.fn.locals)
    × Extends (consts_of with_x) (consts_of c')
    × DistinctAfter [] (consts_of c')
compile_expr-plain_example = compile_expr-plain x_or_not with_x plain_x tt

-- `myon.while x { y = x; myon.break }`
abbrev loop_stmt : Stmt
loop_stmt =
    while_stmt 2 (ident 2 x)
      (stmt_and (assign 3 (codes "y") null none (ident 3 x) []) (stmt_and (break_stmt 4) no_stmts))

abbrev looped : Compiler
unfolding compile_expr compile_stmt compile_stmts compile_while scoped ◌>>=◌ on_chunk on_module
    emit_jump resolve_name resolve_local str_eq chunk_emit_byte chunk_note_line chunk_emit_jump
    chunk_patch_jump chunk_emit_loop asks change_fn give begin_scope end_scope drop_scope
    compile_break loop_push loop_pop loop_patch_continues patch_jumps compile_assign
    compile_assign_single compile_assign_target_name assigned_variable find_in_current_scope
    find_in_outer_scope cur_scope_is_block declare_local resolve_upvalue
looped = result_of (compile_stmt loop_stmt with_x)

-- `x = myon.true`
abbrev one_global : StmtList
one_global = stmt_and (assign 1 x null none (bool_lit 1 true) []) no_stmts

abbrev topped : Compiler
unfolding compile_expr compile_stmt compile_stmts ◌>>=◌ on_chunk on_module resolve_name
    resolve_local str_eq chunk_emit_byte chunk_note_line asks give compile_assign
    compile_assign_single compile_assign_target_name assigned_variable find_in_current_scope
    find_in_outer_scope cur_scope_is_block declare_local compile_top register_structs
    resolve_parents
topped = result_of (compile_top one_global start)
