-- ===== src/Compiler/Tree.antt =====
-- src/mvm_compiler.c: the dispatch over the syntax tree.
use myon.Base.{
  ℕ, suc, ◌%◌, ◌^◌, Bool, true, false, ◌&&◌, ◌||◌, not, List, [], ◌∷◌, Option, none, some, ◌==◌,
  if◌then◌else◌, Bytes, str_eq,
}
use myon.Base.Text.{codes}
use myon.Types.{node, type_map}
use myon.Types
use myon.Interp.Ints.{OpKind, op_and, op_not}
use myon.Ast.{
  StructField, Expr, Args, no_args, arg, Exprs, no_exprs, expr_and, FuncDecl, func_decl, FuncDecls,
  no_funcs, func_and, StructDecl, struct_decl, Stmt, StmtList, no_stmts, stmt_and, ElifArms,
  no_arms, arm, OptBody, no_body, body, int_lit, float_lit, bool_lit, str_ctor, char_ctor, int_ctor,
  error_ctor, string, ident, binary, unary, logical, call, index, member, array_ctor, map_ctor,
  lambda, await, generic, system_decl, module_decl, assign, assign_target, expr_stmt, if_stmt,
  while_stmt, for_range, for_in, break_stmt, continue_stmt, block, expose, func, struct_stmt,
  return_stmt,
}
use myon.Ast
use myon.Mvm.{Module}
use myon.Mvm.Opcode.{mop_nop, mop_push_const, mop_jump_if_false, mop_jump_if_true}
use myon.Mvm.Pool.{
  module_add_const_int, module_add_const_float, module_add_const_str, module_add_const_typespec,
}
use myon.Vm.Opcodes.{
  mop_push_true, mop_push_false, mop_push_nil, mop_pop, mop_dup, mop_neg, mop_not, mop_ret,
}
use myon.Compiler.Opcodes.{
  mop_index_get, mop_get_field, mop_new_array, mop_new_map, mop_cast_str, mop_cast_int,
  mop_cast_char, mop_make_error, mop_await,
}
use myon.Compiler.State.{
  Action, ◌>>=◌, ◌>>◌, fail, change_fn, on_module, emit_op, emit_op_u16, emit_op_u8, emit_jump,
  patch_jump, skip,
}
use myon.Compiler.Scopes.{begin_scope, end_scope, expose_local}
use myon.Compiler.Structs.{Arg, struct_name}
use myon.Compiler.Calls.{begins_with, compile_string, binary_opcode, load_name, compile_call}
use myon.Compiler.Assign.{compile_assign, compile_assign_target}
use myon.Compiler.Loops.{
  compile_if, compile_while, compile_for_range, compile_for_in, compile_break, compile_continue,
}
use myon.Compiler.Functions.{Function, compile_lambda, compile_func, compile_methods}

abbrev pub text_or_empty : Option Bytes → Bytes
text_or_empty none = []
text_or_empty (some s) = s

abbrev pub push_const_of : ℕ → (Module → ℕ × Module) → Action
push_const_of line add = do idx ← on_module add; emit_op_u16 mop_push_const idx line

unfoldable pub emit_binary : ℕ → ℕ → Action
emit_binary op line =
    if op == mop_nop then fail "MVM: unsupported binary operator" else emit_op op line

abbrev pub is_not : OpKind → Bool
is_not op_not = true
is_not _ = false

abbrev pub is_and : OpKind → Bool
is_and op_and = true
is_and _ = false

unfoldable pub compile_logical : ℕ → OpKind → Action → Action → Action
compile_logical line op left right = do
  left
  emit_op mop_dup line
  off ← emit_jump (if is_and op then mop_jump_if_false else mop_jump_if_true) line
  emit_op mop_pop line
  right
  patch_jump off

abbrev pub emit_member : ℕ → Bytes → Action
emit_member line name = do
  nidx ← on_module (λ m. module_add_const_str m name)
  emit_op_u16 mop_get_field nidx line

-- `STMT_MODULE`: only modules of the language itself are allowed.
unfoldable pub compile_module : Option Bytes → Action
compile_module none = skip
compile_module (some path) =
    if begins_with (codes "external.") path
      || (not (begins_with (codes "myon.") path) && not (str_eq path (codes "myon")))
    then fail "MVM does not support %s. %s"
    else skip

-- `STMT_BLOCK`, and the body of a conditional or of a loop.
unfoldable pub scoped : Bool → Action → Action
scoped is_block stmts = do begin_scope is_block; stmts; change_fn end_scope

unfoldable mutual
  pub compile_expr : Expr → Action
  compile_expr (int_lit line i) = push_const_of line (λ m. module_add_const_int m i)
  compile_expr (float_lit line d) = push_const_of line (λ m. module_add_const_float m d)
  compile_expr (bool_lit line b) = emit_op (if b then mop_push_true else mop_push_false) line
  compile_expr (Ast.Expr.nil line) = emit_op mop_push_nil line
  compile_expr (string line s) = compile_string line (text_or_empty s)
  compile_expr (ident line name) = load_name "undefined variable '%s'" line name
  compile_expr (binary line op l r) = do
    compile_expr l
    compile_expr r
    emit_binary (binary_opcode op) line
  compile_expr (unary line op e) = do
    compile_expr e
    emit_op (if is_not op then mop_not else mop_neg) line
  compile_expr (logical line op l r) = compile_logical line op (compile_expr l) (compile_expr r)
  compile_expr (call line callee args types) =
      compile_call line callee (compile_target callee) (compile_expr callee) (arg_actions args)
  compile_expr (index line e i) = do compile_expr e; compile_expr i; emit_op mop_index_get line
  compile_expr (member line e name) = do compile_expr e; emit_member line name
  compile_expr (array_ctor line t) = do
    tidx ← on_module (λ m. module_add_const_typespec m t)
    emit_op_u16 mop_new_array tidx line
  compile_expr (map_ctor line k v) = do
    tidx ← on_module (λ m. module_add_const_typespec m (node type_map none v k Types.TypeSpecs.nil))
    emit_op_u16 mop_new_map tidx line
  compile_expr (lambda line decl) = compile_lambda line (function decl)
  compile_expr (str_ctor line e) = do compile_expr e; emit_op mop_cast_str line
  compile_expr (int_ctor line e) = do compile_expr e; emit_op mop_cast_int line
  compile_expr (char_ctor line e) = do compile_expr e; emit_op mop_cast_char line
  compile_expr (error_ctor line e) = do compile_expr e; emit_op mop_make_error line
  compile_expr (await line e) = do compile_expr e; emit_op mop_await line
  compile_expr (generic line name types) = fail "generic type '%s' must be instantiated with (...)"

  -- What the expression is a member or an element of.
  pub compile_target : Expr → Action
  compile_target (member line e name) = compile_expr e
  compile_target (index line e i) = compile_expr e
  compile_target _ = skip

  pub compile_place : Expr → Action
  compile_place (index line e i) = compile_expr i
  compile_place _ = skip

  pub arg_actions : Args → List Arg
  arg_actions no_args = []
  arg_actions (arg name e args) = (name, compile_expr e) ∷ arg_actions args

  pub function : FuncDecl → Function
  function (func_decl name is_async params ret_types tparams stmts) = record {
    name = name;
    is_async = is_async;
    params = params;
    ret_types = ret_types;
    compile_body = compile_stmts stmts;
  }

  pub functions : FuncDecls → List Function
  functions no_funcs = []
  functions (func_and decl decls) = function decl ∷ functions decls

  pub methods : StructDecl → List Function
  methods (struct_decl name parent fields decls tparams) = functions decls

  pub compile_values : Exprs → Action
  compile_values no_exprs = skip
  compile_values (expr_and e es) = do compile_expr e; compile_values es

  pub arm_actions : ElifArms → List (Action × Action)
  arm_actions no_arms = []
  arm_actions (arm cond stmts arms) =
      (compile_expr cond, scoped false (compile_stmts stmts)) ∷ arm_actions arms

  pub compile_else : OptBody → Action
  compile_else no_body = skip
  compile_else (body stmts) = scoped false (compile_stmts stmts)

  pub compile_stmts : StmtList → Action
  compile_stmts no_stmts = skip
  compile_stmts (stmt_and s ss) = do compile_stmt s; compile_stmts ss

  pub compile_stmt : Stmt → Action
  compile_stmt (system_decl line version) = skip
  compile_stmt (module_decl line path alias) = compile_module path
  compile_stmt (assign line name annotated compound e extras) =
      compile_assign line name compound e (compile_expr e) extras
  compile_stmt (assign_target line target compound e) =
      compile_assign_target line target compound (compile_target target) (compile_place target)
        (compile_expr e)
  compile_stmt (expr_stmt line e) = do compile_expr e; emit_op mop_pop line
  compile_stmt (if_stmt line cond stmts arms else_body) =
      compile_if line (compile_expr cond) (scoped false (compile_stmts stmts)) (arm_actions arms)
        (compile_else else_body)
  compile_stmt (while_stmt line cond stmts) =
      compile_while line (compile_expr cond) (scoped false (compile_stmts stmts))
  compile_stmt (for_range line var lo hi stmts) =
      compile_for_range line var (compile_expr lo) (compile_expr hi)
        (scoped false (compile_stmts stmts))
  compile_stmt (for_in line var e stmts) =
      compile_for_in line var (compile_expr e) (scoped false (compile_stmts stmts))
  compile_stmt (break_stmt line) = compile_break line
  compile_stmt (continue_stmt line) = compile_continue line
  compile_stmt (block line stmts) = scoped true (compile_stmts stmts)
  compile_stmt (expose line name) = expose_local name
  compile_stmt (func line decl) = compile_func line (function decl)
  compile_stmt (struct_stmt line decl) = compile_methods (struct_name decl) (methods decl)
  compile_stmt (return_stmt line es) = do
    compile_values es
    emit_op_u8 mop_ret (count es % 2 ^ 8) line

  -- The number of values of a `return`.
  pub count : Exprs → ℕ
  count no_exprs = 0
  count (expr_and e es) = suc (count es)
