-- ===== src/Compiler/Assign.antt =====
-- src/mvm_compiler.c, assignments.
use myon.Base.{
  ℕ, ◌%◌, ◌^◌, Bool, false, ◌||◌, List, [], ◌∷◌, Option, none, some, ltb, if◌then◌else◌, Bytes,
  length,
}
use Prim.Native.String.{String}
use myon.Base.Text.{codes}
use myon.Ast.{Expr, member, index, callee_name, is_method_call}
use myon.Interp.Ints.{OpKind}
use myon.Mvm.Pool.{module_add_const_str}
use myon.Vm.Opcodes.{mop_load_local, mop_store_local}
use myon.Compiler.Opcodes.{mop_index_set, mop_set_field, mop_unpack, mop_check_not_nil}
use myon.Compiler.State.{
  FnComp, Compiler, Compiling, Action, ◌>>=◌, ◌>>◌, give, fail, asks, on_module, emit_op,
  emit_op_u16, emit_op_u8, skip,
}
use myon.Compiler.Scopes.{
  NameKind, name_local, name_global, name_upvalue, resolve_local, resolve_name,
  find_in_current_scope, find_in_outer_scope, cur_scope_is_block, declare_local, emit_var_store,
}
use myon.Compiler.Calls.{begins_with, binary_opcode}

abbrev pub new_local : Bytes → Compiling (NameKind × ℕ)
new_local name = do slot ← declare_local name; give (name_local, slot)

-- A name that is no local of the function is a new one if it is not found further out either.
abbrev pub found_or_new : Bytes → Option (NameKind × ℕ) → Compiling (NameKind × ℕ)
found_or_new name (some (name_global, slot)) = give (name_global, slot)
found_or_new name (some (name_upvalue, slot)) = give (name_upvalue, slot)
found_or_new name (some (name_local, slot)) = new_local name
found_or_new name none = new_local name

abbrev pub outside : Bytes → List FnComp → Compiling (NameKind × ℕ)
outside name [] = new_local name
outside name (up ∷ outer) = do found ← resolve_name name; found_or_new name found

abbrev pub in_outer : Bytes → Bool → List FnComp → Option ℕ → Compiling (NameKind × ℕ)
in_outer name in_block enclosing none = outside name enclosing
in_outer name in_block enclosing (some slot) =
    if in_block
    then fail "redefinition of '%s' shadows an outer variable (forbidden, spec 9.2)"
    else give (name_local, slot)

abbrev pub in_current : Bytes → Compiler → Option ℕ → Compiling (NameKind × ℕ)
in_current name c (some slot) = give (name_local, slot)
in_current name c none =
    in_outer name (cur_scope_is_block c.fn) c.enclosing (find_in_outer_scope c.fn name)

-- Where an assignment to the name goes.
unfoldable pub assigned_variable : Bytes → Compiling (NameKind × ℕ)
assigned_variable name c = in_current name c (find_in_current_scope c.fn name) c

unfoldable pub compile_assign_target_name : ℕ → Bytes → Action
compile_assign_target_name line name = do
  (kind, slot) ← assigned_variable name
  emit_var_store line kind slot

abbrev pub no_compound : Option OpKind → String → Action
no_compound none message = skip
no_compound (some op) message = fail message

-- The actions compile the object that has the member or the index, the index, and the value.
unfoldable pub compile_assign_target : ℕ → Expr → Option OpKind → Action → Action → Action → Action
compile_assign_target line (member l e name) compound object place value = do
  no_compound compound "MVM does not support %s. %s"
  object
  value
  nidx ← on_module (λ m. module_add_const_str m name)
  emit_op_u16 mop_set_field nidx line
compile_assign_target line (index l e i) compound object place value = do
  no_compound compound "MVM does not support %s. %s"
  object
  place
  value
  emit_op mop_index_set line
compile_assign_target line target compound object place value = do
  no_compound compound "MVM does not support %s. %s"
  fail "MVM: unsupported assignment target"

abbrev is_native : Option Bytes → Bool
is_native none = false
is_native (some name) = begins_with (codes "myon.") name

-- The variables of the names, in their order.
unfoldable pub assigned_variables : List Bytes → Compiling (List (NameKind × ℕ))
assigned_variables [] = give []
assigned_variables (name ∷ names) = do
  target ← assigned_variable name
  targets ← assigned_variables names
  give (target ∷ targets)

-- The last one is stored first.
unfoldable pub store_reversed : ℕ → List (NameKind × ℕ) → Action
store_reversed line [] = skip
store_reversed line ((kind, slot) ∷ targets) = do
  store_reversed line targets
  emit_var_store line kind slot

unfoldable pub compile_assign_multi : ℕ → List Bytes → Option OpKind → Expr → Action → Action
compile_assign_multi line names compound rhs value = do
  no_compound compound "compound assignment cannot have multiple targets"
  value
  if is_native (callee_name rhs) || is_method_call rhs
      then emit_op_u8 mop_unpack (length names % 2 ^ 8) line
      else skip
  if ltb 64 (length names) then fail "too many assignment targets" else skip
  targets ← assigned_variables names
  store_reversed line targets

abbrev pub compound_at : ℕ → OpKind → Action → Option ℕ → Action
compound_at line op value none = fail "compound assignment to undefined variable '%s'"
compound_at line op value (some slot) = do
  emit_op_u16 mop_load_local slot line
  value
  emit_op (binary_opcode op) line
  emit_op_u16 mop_store_local slot line

-- One target: a compound assignment is to a local of the function.
unfoldable pub compile_assign_single : ℕ → Bytes → Option OpKind → Action → Action
compile_assign_single line name (some op) value = do
  slot ← asks (λ c. resolve_local c.fn name)
  compound_at line op value slot
compile_assign_single line name none value = do
  value
  emit_op mop_check_not_nil line
  compile_assign_target_name line name

unfoldable pub compile_assign : ℕ → Bytes → Option OpKind → Expr → Action → List Bytes → Action
compile_assign line name compound rhs value [] = compile_assign_single line name compound value
compile_assign line name compound rhs value (extra ∷ extras) =
    compile_assign_multi line (name ∷ extra ∷ extras) compound rhs value
