-- ===== src/Compiler/Balanced/Assign.antt =====
-- Calls of functions and assignments in src/mvm_compiler.c.
use myon.Base.{ℕ, Bool, List, [], ◌∷◌, Option, none, some, Bytes}
use Prim.Native.String.{String}
use myon.Ast.{Expr, ident, generic, member, index}
use myon.Interp.Ints.{OpKind}
use myon.Compiler.State.{FnComp, Compiler, Action}
use myon.Compiler.Scopes.{NameKind, name_local, name_global, name_upvalue, find_in_current_scope}
use myon.Compiler.Structs.{Arg}
use myon.Compiler.Calls.{
  compile_native_call, load_named, load_name, call_behind, call_variable, call_name, call_generic,
  call_method, compile_call,
}
use myon.Compiler.Assign.{
  new_local, found_or_new, outside, in_outer, in_current, assigned_variable,
  compile_assign_target_name, no_compound, compile_assign_target, assigned_variables,
  store_reversed, compile_assign_multi, compound_at, compile_assign_single, compile_assign,
}
use myon.Compiler.Balanced.Rules.{Keeps, keeps_rules, Keeps-bind}
use myon.Compiler.Balanced.Scopes.{Keeps-declare_local, Keeps-resolve_name}
use myon.Compiler.Balanced.Calls.{
  ArgsKeep, Keeps-compile_args, Keeps-compile_unnamed, Keeps-compile_struct_ctor,
}

Keeps-load_named :
    (message : String) (line : ℕ) (o : Option (NameKind × ℕ)) → Keeps (load_named message line o)
Keeps-load_named message line none = search keeps_rules
Keeps-load_named message line (some (kind, slot)) = search keeps_rules

pub Keeps-load_name :
    (message : String) (line : ℕ) (name : Bytes) → Keeps (load_name message line name)
Keeps-load_name message line name = search (keeps_rules, Keeps-resolve_name, Keeps-load_named)

Keeps-compile_native_call :
    (line : ℕ) (name : Bytes) (args : List Arg)
    → ArgsKeep args
    → Keeps (compile_native_call line name args)
unfolding compile_native_call
Keeps-compile_native_call line name args k = search (keeps_rules, Keeps-compile_unnamed) depth 20

Keeps-call_behind : (line : ℕ) (args : List Arg) → ArgsKeep args → Keeps (call_behind line args)
Keeps-call_behind line args k = search (keeps_rules, Keeps-compile_args) depth 20

Keeps-call_variable :
    (line : ℕ) (name : Bytes) (args : List Arg) (o : Option ℕ)
    → ArgsKeep args
    → Keeps (call_variable line name args o)
Keeps-call_variable line name args (some sd) k = Keeps-compile_struct_ctor line args sd k
Keeps-call_variable line name args none k =
    Keeps-bind _ _ (Keeps-load_name _ line name) (λ _. Keeps-call_behind line args k)

Keeps-call_name :
    (line : ℕ) (name : Bytes) (args : List Arg) → ArgsKeep args → Keeps (call_name line name args)
Keeps-call_name line name args k =
    search (keeps_rules, Keeps-compile_native_call, Keeps-call_variable) depth 20

Keeps-call_generic :
    (line : ℕ) (args : List Arg) (o : Option ℕ) → ArgsKeep args → Keeps (call_generic line args o)
Keeps-call_generic line args (some sd) k = Keeps-compile_struct_ctor line args sd k
Keeps-call_generic line args none k = search keeps_rules

Keeps-call_method :
    (line : ℕ) (target : Action) (name : Bytes) (args : List Arg)
    → Keeps target
    → ArgsKeep args
    → Keeps (call_method line target name args)
Keeps-call_method line target name args kt k = search (keeps_rules, Keeps-compile_args) depth 20

pub Keeps-compile_call :
    (line : ℕ) (callee : Expr) (target value : Action) (args : List Arg)
    → Keeps target
    → Keeps value
    → ArgsKeep args
    → Keeps (compile_call line callee target value args)
unfolding compile_call
Keeps-compile_call line (ident l name) target value args kt kv k = Keeps-call_name line name args k
Keeps-compile_call line (generic l name types) target value args kt kv k =
    search (keeps_rules, Keeps-call_generic)
Keeps-compile_call line (member l e name) target value args kt kv k =
    Keeps-call_method line target name args kt k
Keeps-compile_call line callee target value args kt kv k =
    Keeps-bind _ _ kv (λ _. Keeps-call_behind line args k)

Keeps-new_local : (name : Bytes) → Keeps (new_local name)
Keeps-new_local name = search (keeps_rules, Keeps-declare_local)

Keeps-found_or_new : (name : Bytes) (o : Option (NameKind × ℕ)) → Keeps (found_or_new name o)
Keeps-found_or_new name (some (name_global, slot)) = search keeps_rules
Keeps-found_or_new name (some (name_upvalue, slot)) = search keeps_rules
Keeps-found_or_new name (some (name_local, slot)) = Keeps-new_local name
Keeps-found_or_new name none = Keeps-new_local name

Keeps-outside : (name : Bytes) (fns : List FnComp) → Keeps (outside name fns)
Keeps-outside name [] = Keeps-new_local name
Keeps-outside name (up ∷ outer) = search (keeps_rules, Keeps-resolve_name, Keeps-found_or_new)

Keeps-in_outer :
    (name : Bytes) (in_block : Bool) (fns : List FnComp) (o : Option ℕ)
    → Keeps (in_outer name in_block fns o)
Keeps-in_outer name in_block fns none = Keeps-outside name fns
Keeps-in_outer name in_block fns (some slot) = search keeps_rules

Keeps-in_current : (name : Bytes) (c : Compiler) (o : Option ℕ) → Keeps (in_current name c o)
Keeps-in_current name c (some slot) = search keeps_rules
Keeps-in_current name c none = Keeps-in_outer name _ c.enclosing _

Keeps-assigned_variable : (name : Bytes) → Keeps (assigned_variable name)
unfolding assigned_variable
Keeps-assigned_variable name = record {
  for = λ s. record {
    at = λ c h. ((Keeps-in_current name c (find_in_current_scope c.fn name)).for s).at c h;
  };
}

Keeps-compile_assign_target_name :
    (line : ℕ) (name : Bytes) → Keeps (compile_assign_target_name line name)
unfolding compile_assign_target_name
Keeps-compile_assign_target_name line name =
    Keeps-bind _ _ (Keeps-assigned_variable name) (λ (kind, slot). search keeps_rules)

Keeps-no_compound : (o : Option OpKind) (message : String) → Keeps (no_compound o message)
Keeps-no_compound none message = search keeps_rules
Keeps-no_compound (some op) message = search keeps_rules

pub Keeps-compile_assign_target :
    (line : ℕ) (target : Expr) (compound : Option OpKind) (object place value : Action)
    → Keeps object
    → Keeps place
    → Keeps value
    → Keeps (compile_assign_target line target compound object place value)
unfolding compile_assign_target
Keeps-compile_assign_target line (member l e name) compound object place value ko kp kv =
    search (keeps_rules, Keeps-no_compound) depth 20
Keeps-compile_assign_target line (index l e i) compound object place value ko kp kv =
    search (keeps_rules, Keeps-no_compound) depth 20
Keeps-compile_assign_target line target compound object place value ko kp kv =
    search (keeps_rules, Keeps-no_compound) depth 20

Keeps-assigned_variables : (names : List Bytes) → Keeps (assigned_variables names)
unfolding assigned_variables
Keeps-assigned_variables [] = search keeps_rules
Keeps-assigned_variables (name ∷ names) =
    Keeps-bind _ _ (Keeps-assigned_variable name)
      (λ target. Keeps-bind _ _ (Keeps-assigned_variables names) (λ targets. search keeps_rules))

Keeps-store_reversed :
    (line : ℕ) (targets : List (NameKind × ℕ)) → Keeps (store_reversed line targets)
unfolding store_reversed
Keeps-store_reversed line [] = search keeps_rules
Keeps-store_reversed line ((kind, slot) ∷ targets) =
    Keeps-bind _ _ (Keeps-store_reversed line targets) (λ _. search keeps_rules)

Keeps-compile_assign_multi :
    (line : ℕ) (names : List Bytes) (compound : Option OpKind) (rhs : Expr) (value : Action)
    → Keeps value
    → Keeps (compile_assign_multi line names compound rhs value)
unfolding compile_assign_multi
Keeps-compile_assign_multi line names compound rhs value kv =
    search (keeps_rules, Keeps-no_compound, Keeps-assigned_variables, Keeps-store_reversed) depth 30

Keeps-compound_at :
    (line : ℕ) (op : OpKind) (value : Action) (o : Option ℕ)
    → Keeps value
    → Keeps (compound_at line op value o)
Keeps-compound_at line op value none kv = search keeps_rules
Keeps-compound_at line op value (some slot) kv = search keeps_rules depth 20

Keeps-compile_assign_single :
    (line : ℕ) (name : Bytes) (compound : Option OpKind) (value : Action)
    → Keeps value
    → Keeps (compile_assign_single line name compound value)
unfolding compile_assign_single
Keeps-compile_assign_single line name (some op) value kv = search (keeps_rules, Keeps-compound_at)
Keeps-compile_assign_single line name none value kv =
    search (keeps_rules, Keeps-compile_assign_target_name) depth 20

pub Keeps-compile_assign :
    (line : ℕ) (name : Bytes) (compound : Option OpKind) (rhs : Expr) (value : Action)
    (extras : List Bytes)
    → Keeps value
    → Keeps (compile_assign line name compound rhs value extras)
unfolding compile_assign
Keeps-compile_assign line name compound rhs value [] kv =
    Keeps-compile_assign_single line name compound value kv
Keeps-compile_assign line name compound rhs value (extra ∷ extras) kv =
    Keeps-compile_assign_multi line (name ∷ extra ∷ extras) compound rhs value kv
