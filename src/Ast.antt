-- ===== src/Ast.antt =====
-- src/ast.h: the syntax tree. An expression or statement carries its source line. A dynamic
-- array with its count is a list; arrays of tree nodes are lists of their own. A null pointer is
-- `none`, or the empty descriptor `null` of a type.
use myon.Base.{ℕ, Bool, true, false, List, Option, Bytes}
use myon.Base.Words.{ℤ}
use myon.Types.{TypeSpec, TypeSpecs}
use myon.Interp.Ints.{OpKind}

pub record Param : Type 0 where
  pub name : Bytes
  pub spec : TypeSpec

pub record StructField : Type 0 where
  pub name : Bytes
  pub spec : TypeSpec

-- `arg_names[i]` is the first part of an argument. The operands of `call` are the callee, the
-- arguments and the type arguments; of `lambda` the declaration. A declaration has its name, whether
-- it is async, its parameters, return types, type parameters and body; a lambda's name is empty.
mutual
  pub data Expr : Type 0 where
    int_lit : (line : ℕ) → ℤ → Expr
    float_lit : (line : ℕ) → ℕ → Expr
    bool_lit : (line : ℕ) → Bool → Expr
    str_ctor : (line : ℕ) → Expr → Expr
    char_ctor : (line : ℕ) → Expr → Expr
    int_ctor : (line : ℕ) → Expr → Expr
    error_ctor : (line : ℕ) → Expr → Expr
    string : (line : ℕ) → Option Bytes → Expr
    nil : (line : ℕ) → Expr
    ident : (line : ℕ) → Bytes → Expr
    binary : (line : ℕ) → OpKind → Expr → Expr → Expr
    unary : (line : ℕ) → OpKind → Expr → Expr
    logical : (line : ℕ) → OpKind → Expr → Expr → Expr
    call : (line : ℕ) → Expr → Args → TypeSpecs → Expr
    index : (line : ℕ) → Expr → Expr → Expr
    member : (line : ℕ) → Expr → Bytes → Expr
    array_ctor : (line : ℕ) → TypeSpec → Expr
    map_ctor : (line : ℕ) → TypeSpec → TypeSpec → Expr
    lambda : (line : ℕ) → FuncDecl → Expr
    await : (line : ℕ) → Expr → Expr
    generic : (line : ℕ) → Bytes → TypeSpecs → Expr

  pub data Args : Type 0 where
    no_args : Args
    arg : Option Bytes → Expr → Args → Args

  pub data Exprs : Type 0 where
    no_exprs : Exprs
    expr_and : Expr → Exprs → Exprs

  pub data FuncDecl : Type 0 where
    func_decl : Bytes → Bool → List Param → List TypeSpec → List Bytes → StmtList → FuncDecl

  pub data FuncDecls : Type 0 where
    no_funcs : FuncDecls
    func_and : FuncDecl → FuncDecls → FuncDecls

  -- The name, the parent's name, the fields, the methods and the type parameters.
  pub data StructDecl : Type 0 where
    struct_decl : Bytes → Option Bytes → List StructField → FuncDecls → List Bytes → StructDecl

  -- An assignment to a name has that name, the declared type, the operator of a compound one, the
  -- value and the further names of a multiple one; one to a target has the target, the operator and
  -- the value.
  pub data Stmt : Type 0 where
    system_decl : (line : ℕ) → ℕ → Stmt
    module_decl : (line : ℕ) → Option Bytes → Bytes → Stmt
    assign : (line : ℕ) → Bytes → TypeSpec → Option OpKind → Expr → List Bytes → Stmt
    assign_target : (line : ℕ) → Expr → Option OpKind → Expr → Stmt
    expr_stmt : (line : ℕ) → Expr → Stmt
    if_stmt : (line : ℕ) → Expr → StmtList → ElifArms → OptBody → Stmt
    while_stmt : (line : ℕ) → Expr → StmtList → Stmt
    for_range : (line : ℕ) → Bytes → Expr → Expr → StmtList → Stmt
    for_in : (line : ℕ) → Bytes → Expr → StmtList → Stmt
    break_stmt : (line : ℕ) → Stmt
    continue_stmt : (line : ℕ) → Stmt
    block : (line : ℕ) → StmtList → Stmt
    expose : (line : ℕ) → Bytes → Stmt
    func : (line : ℕ) → FuncDecl → Stmt
    struct_stmt : (line : ℕ) → StructDecl → Stmt
    return_stmt : (line : ℕ) → Exprs → Stmt

  pub data StmtList : Type 0 where
    no_stmts : StmtList
    stmt_and : Stmt → StmtList → StmtList

  pub data ElifArms : Type 0 where
    no_arms : ElifArms
    arm : Expr → StmtList → ElifArms → ElifArms

  pub data OptBody : Type 0 where
    no_body : OptBody
    body : StmtList → OptBody

-- `rhs->kind == EXPR_CALL` with a callee that is a name.
abbrev pub callee_name : Expr → Option Bytes
callee_name (call line (ident _ name) args types) = Option.some name
callee_name _ = Option.none

-- A call of a member of some value.
abbrev pub is_method_call : Expr → Bool
is_method_call (call line (member _ target name) args types) = true
is_method_call _ = false
