-- ===== src/Compiler/Balanced/Whole.antt =====
-- Every expression and statement in src/mvm_compiler.c leaves the scopes, loops and functions
-- that are open as they are.
use myon.Base.{ℕ, true, false, Option, none, some, Bytes}
use myon.Ast
use myon.Ast.{
  Expr, Args, no_args, arg, Exprs, no_exprs, expr_and, FuncDecl, func_decl, FuncDecls, no_funcs,
  func_and, StructDecl, struct_decl, Stmt, StmtList, no_stmts, stmt_and, ElifArms, no_arms, arm,
  OptBody, no_body, body, int_lit, float_lit, bool_lit, str_ctor, char_ctor, int_ctor, error_ctor,
  string, ident, binary, unary, logical, call, index, member, array_ctor, map_ctor, lambda, await,
  generic, system_decl, module_decl, assign, assign_target, expr_stmt, if_stmt, while_stmt,
  for_range, for_in, break_stmt, continue_stmt, block, expose, func, struct_stmt, return_stmt,
}
use myon.Interp.Ints.{OpKind}
use myon.Compiler.State.{Action, ◌>>=◌}
use myon.Compiler.Tree.{
  compile_expr, compile_target, compile_place, arg_actions, function, functions, methods,
  compile_values, arm_actions, compile_else, compile_stmts, compile_stmt, compile_module,
  compile_logical, emit_binary, text_or_empty,
}
use myon.Compiler.Balanced.Rules.{Keeps, keeps_rules, Keeps-bind}
use myon.Compiler.Balanced.Blocks.{scoped-Keeps}
use myon.Compiler.Balanced.Calls.{ArgsKeep, Keeps-compile_string}
use myon.Compiler.Balanced.Assign.{
  Keeps-load_name, Keeps-compile_call, Keeps-compile_assign, Keeps-compile_assign_target,
}
use myon.Compiler.Balanced.Loops.{
  AllKeep, Keeps-compile_if, Keeps-compile_while, Keeps-compile_break, Keeps-compile_continue,
}
use myon.Compiler.Balanced.For.{Keeps-compile_for_range, Keeps-compile_for_in}
use myon.Compiler.Balanced.Functions.{
  BodiesKeep, Keeps-compile_lambda, Keeps-compile_func, Keeps-compile_methods, Keeps-expose_local,
}

Keeps-compile_logical :
    (line : ℕ) (op : OpKind) (l r : Action)
    → Keeps l
    → Keeps r
    → Keeps (compile_logical line op l r)
unfolding compile_logical
Keeps-compile_logical line op l r kl kr = search keeps_rules depth 20

Keeps-emit_binary : (op line : ℕ) → Keeps (emit_binary op line)
unfolding emit_binary
Keeps-emit_binary op line = search keeps_rules

Keeps-compile_module : (path : Option Bytes) → Keeps (compile_module path)
unfolding compile_module
Keeps-compile_module none = search keeps_rules
Keeps-compile_module (some path) = search keeps_rules

-- One instruction behind a value.
Keeps-then_op :
    (act : Action) (k : Unit {0} → Action)
    → Keeps act
    → ((u : Unit {0}) → Keeps (k u))
    → Keeps (act >>= k)
Keeps-then_op act k ka kk = Keeps-bind act k ka kk

mutual
  unfolding compile_expr compile_target compile_place arg_actions function functions methods
      compile_values arm_actions compile_else compile_stmts compile_stmt

  pub Keeps-compile_expr : (e : Expr) → Keeps (compile_expr e)
  Keeps-compile_expr (int_lit line i) = search keeps_rules
  Keeps-compile_expr (float_lit line d) = search keeps_rules
  Keeps-compile_expr (bool_lit line b) = search keeps_rules
  Keeps-compile_expr (Ast.Expr.nil line) = search keeps_rules
  Keeps-compile_expr (string line s) = Keeps-compile_string line (text_or_empty s)
  Keeps-compile_expr (ident line name) = Keeps-load_name _ line name
  Keeps-compile_expr (binary line op l r) =
      Keeps-bind _ _ (Keeps-compile_expr l)
        (λ _. Keeps-bind _ _ (Keeps-compile_expr r) (λ _. Keeps-emit_binary _ line))
  Keeps-compile_expr (unary line op e) =
      Keeps-bind _ _ (Keeps-compile_expr e) (λ _. search keeps_rules)
  Keeps-compile_expr (logical line op l r) =
      Keeps-compile_logical line op _ _ (Keeps-compile_expr l) (Keeps-compile_expr r)
  Keeps-compile_expr (call line callee args types) =
      Keeps-compile_call line callee _ _ _ (Keeps-compile_target callee) (Keeps-compile_expr callee)
        (Keeps-arg_actions args)
  Keeps-compile_expr (index line e i) =
      Keeps-bind _ _ (Keeps-compile_expr e)
        (λ _. Keeps-bind _ _ (Keeps-compile_expr i) (λ _. search keeps_rules))
  Keeps-compile_expr (member line e name) =
      Keeps-bind _ _ (Keeps-compile_expr e) (λ _. search keeps_rules)
  Keeps-compile_expr (array_ctor line t) = search keeps_rules
  Keeps-compile_expr (map_ctor line k v) = search keeps_rules
  Keeps-compile_expr (lambda line decl) = Keeps-compile_lambda line _ (Keeps-function decl)
  Keeps-compile_expr (str_ctor line e) =
      Keeps-bind _ _ (Keeps-compile_expr e) (λ _. search keeps_rules)
  Keeps-compile_expr (int_ctor line e) =
      Keeps-bind _ _ (Keeps-compile_expr e) (λ _. search keeps_rules)
  Keeps-compile_expr (char_ctor line e) =
      Keeps-bind _ _ (Keeps-compile_expr e) (λ _. search keeps_rules)
  Keeps-compile_expr (error_ctor line e) =
      Keeps-bind _ _ (Keeps-compile_expr e) (λ _. search keeps_rules)
  Keeps-compile_expr (await line e) =
      Keeps-bind _ _ (Keeps-compile_expr e) (λ _. search keeps_rules)
  Keeps-compile_expr (generic line name types) = search keeps_rules

  Keeps-compile_target : (e : Expr) → Keeps (compile_target e)
  Keeps-compile_target (member line e name) = Keeps-compile_expr e
  Keeps-compile_target (index line e i) = Keeps-compile_expr e
  Keeps-compile_target _ = search keeps_rules

  Keeps-compile_place : (e : Expr) → Keeps (compile_place e)
  Keeps-compile_place (index line e i) = Keeps-compile_expr i
  Keeps-compile_place _ = search keeps_rules

  Keeps-arg_actions : (args : Args) → ArgsKeep (arg_actions args)
  Keeps-arg_actions no_args = tt
  Keeps-arg_actions (arg name e args) = (Keeps-compile_expr e, Keeps-arg_actions args)

  Keeps-function : (decl : FuncDecl) → Keeps (function decl).compile_body
  Keeps-function (func_decl name is_async params rets tparams stmts) = Keeps-compile_stmts stmts

  Keeps-functions : (decls : FuncDecls) → BodiesKeep (functions decls)
  Keeps-functions no_funcs = tt
  Keeps-functions (func_and decl decls) = (Keeps-function decl, Keeps-functions decls)

  Keeps-methods : (decl : StructDecl) → BodiesKeep (methods decl)
  Keeps-methods (struct_decl name parent fields decls tparams) = Keeps-functions decls

  Keeps-compile_values : (es : Exprs) → Keeps (compile_values es)
  Keeps-compile_values no_exprs = search keeps_rules
  Keeps-compile_values (expr_and e es) =
      Keeps-bind _ _ (Keeps-compile_expr e) (λ _. Keeps-compile_values es)

  Keeps-arm_actions : (arms : ElifArms) → AllKeep (arm_actions arms)
  Keeps-arm_actions no_arms = tt
  Keeps-arm_actions (arm cond stmts arms) = (
    Keeps-compile_expr cond,
    scoped-Keeps false _ (Keeps-compile_stmts stmts),
    Keeps-arm_actions arms,
  )

  Keeps-compile_else : (b : OptBody) → Keeps (compile_else b)
  Keeps-compile_else no_body = search keeps_rules
  Keeps-compile_else (body stmts) = scoped-Keeps false _ (Keeps-compile_stmts stmts)

  pub Keeps-compile_stmts : (ss : StmtList) → Keeps (compile_stmts ss)
  Keeps-compile_stmts no_stmts = search keeps_rules
  Keeps-compile_stmts (stmt_and s ss) =
      Keeps-bind _ _ (Keeps-compile_stmt s) (λ _. Keeps-compile_stmts ss)

  pub Keeps-compile_stmt : (s : Stmt) → Keeps (compile_stmt s)
  Keeps-compile_stmt (system_decl line version) = search keeps_rules
  Keeps-compile_stmt (module_decl line path alias) = Keeps-compile_module path
  Keeps-compile_stmt (assign line name annotated compound e extras) =
      Keeps-compile_assign line name compound e _ extras (Keeps-compile_expr e)
  Keeps-compile_stmt (assign_target line target compound e) =
      Keeps-compile_assign_target line target compound _ _ _ (Keeps-compile_target target)
        (Keeps-compile_place target) (Keeps-compile_expr e)
  Keeps-compile_stmt (expr_stmt line e) =
      Keeps-bind _ _ (Keeps-compile_expr e) (λ _. search keeps_rules)
  Keeps-compile_stmt (if_stmt line cond stmts arms else_body) =
      Keeps-compile_if line _ _ _ _ (Keeps-compile_expr cond)
        (scoped-Keeps false _ (Keeps-compile_stmts stmts)) (Keeps-arm_actions arms)
        (Keeps-compile_else else_body)
  Keeps-compile_stmt (while_stmt line cond stmts) =
      Keeps-compile_while line _ _ (Keeps-compile_expr cond)
        (scoped-Keeps false _ (Keeps-compile_stmts stmts))
  Keeps-compile_stmt (for_range line var lo hi stmts) =
      Keeps-compile_for_range line var _ _ _ (Keeps-compile_expr lo) (Keeps-compile_expr hi)
        (scoped-Keeps false _ (Keeps-compile_stmts stmts))
  Keeps-compile_stmt (for_in line var e stmts) =
      Keeps-compile_for_in line var _ _ (Keeps-compile_expr e)
        (scoped-Keeps false _ (Keeps-compile_stmts stmts))
  Keeps-compile_stmt (break_stmt line) = Keeps-compile_break line
  Keeps-compile_stmt (continue_stmt line) = Keeps-compile_continue line
  Keeps-compile_stmt (block line stmts) = scoped-Keeps true _ (Keeps-compile_stmts stmts)
  Keeps-compile_stmt (expose line name) = Keeps-expose_local name
  Keeps-compile_stmt (func line decl) = Keeps-compile_func line _ (Keeps-function decl)
  Keeps-compile_stmt (struct_stmt line decl) = Keeps-compile_methods _ _ (Keeps-methods decl)
  Keeps-compile_stmt (return_stmt line es) =
      Keeps-bind _ _ (Keeps-compile_values es) (λ _. search keeps_rules)
