-- ===== src/Compiler/Calls.antt =====
-- src/mvm_compiler.c: texts, operators and calls. A text with an interpolated expression needs
-- the parser and is not modelled.
use myon.Base.{
  ℕ, ◌+◌, ◌%◌, ◌^◌, Bool, true, false, ◌&&◌, ◌||◌, List, [], ◌∷◌, ◌++◌, Option, none, some, ◌==◌,
  ltb, if◌then◌else◌, Bytes, length,
}
use Prim.Native.String.{String}
use myon.Base.Text.{codes}
use myon.Ast.{Expr, ident, member, generic}
use myon.Interp.Ints.{
  OpKind, op_add, op_sub, op_mul, op_div, op_eq, op_neq, op_lt, op_gt, op_le, op_ge,
}
use myon.Mvm.Opcode.{mop_nop, mop_push_const}
use myon.Mvm.Pool.{module_add_const_str, module_add_native}
use myon.Vm.Opcodes.{
  mop_add, mop_sub, mop_mul, mop_div, mop_eq, mop_neq, mop_lt, mop_gt, mop_le, mop_ge, mop_call,
}
use myon.Compiler.Opcodes.{mop_str_concat, mop_invoke, mop_call_native}
use myon.Compiler.State.{
  Compiling, Action, ◌>>=◌, ◌>>◌, give, fail, not_modelled, asks, on_module, emit_op, emit_byte,
  emit_op_u16, emit_op_u8, skip,
}
use myon.Compiler.Scopes.{NameKind, resolve_name, emit_var_load}
use myon.Compiler.Structs.{Arg, find_struct, compile_struct_ctor}

-- `strchr(s, b) != NULL`
unfoldable pub holds : ℕ → Bytes → Bool
holds b [] = false
holds b (x ∷ xs) = x == b || holds b xs

-- `strncmp(s, prefix, n) == 0` for the whole prefix
unfoldable pub begins_with : Bytes → Bytes → Bool
begins_with [] s = true
begins_with (p ∷ ps) [] = false
begins_with (p ∷ ps) (x ∷ xs) = p == x && begins_with ps xs

abbrev pub push_text : ℕ → Bytes → Action
push_text line text = do
  idx ← on_module (λ m. module_add_const_str m text)
  emit_op_u16 mop_push_const idx line

-- `FLUSH_LIT`, with the number of pieces then.
unfoldable pub flush_lit : ℕ → Bytes → ℕ → Compiling ℕ
flush_lit line [] pieces = give pieces
flush_lit line (b ∷ bs) pieces = do
  push_text line (b ∷ bs)
  if ltb 0 pieces then emit_op mop_str_concat line else skip
  give (pieces + 1)

abbrev pub open_brace : ℕ
open_brace = 0x7B

abbrev pub close_brace : ℕ
close_brace = 0x7D

-- An interpolation starts where `s` follows a brace.
abbrev pub interpolate : Bytes → Compiling ℕ
interpolate s =
    if holds close_brace s then not_modelled else fail "unterminated '{' in string interpolation"

-- The loop over the text, with the piece and the number of pieces so far.
unfoldable pub string_pieces : ℕ → Bytes → Bytes → ℕ → Compiling ℕ
string_pieces line [] lit pieces = flush_lit line lit pieces
string_pieces line (b ∷ []) lit pieces =
    if b == open_brace then interpolate [] else flush_lit line (lit ++ b ∷ []) pieces
string_pieces line (b ∷ b' ∷ s) lit pieces =
    elim (b == b' && (b == open_brace || b == close_brace)) [
      | true ↦ string_pieces line s (lit ++ b ∷ []) pieces
      | false ↦ elim (b == open_brace) [
        | true ↦ interpolate (b' ∷ s)
        | false ↦ string_pieces line (b' ∷ s) (lit ++ b ∷ []) pieces
      ]
    ]

unfoldable pub compile_string : ℕ → Bytes → Action
compile_string line raw =
    if holds open_brace raw || holds close_brace raw
    then (do pieces ← string_pieces line raw [] 0; if pieces == 0 then push_text line [] else skip)
    else push_text line raw

unfoldable pub binary_opcode : OpKind → ℕ
binary_opcode op_add = mop_add
binary_opcode op_sub = mop_sub
binary_opcode op_mul = mop_mul
binary_opcode op_div = mop_div
binary_opcode op_eq = mop_eq
binary_opcode op_neq = mop_neq
binary_opcode op_lt = mop_lt
binary_opcode op_gt = mop_gt
binary_opcode op_le = mop_le
binary_opcode op_ge = mop_ge
binary_opcode _ = mop_nop

-- The arguments' values, whatever their names.
unfoldable pub compile_args : List Arg → Action
compile_args [] = skip
compile_args ((name, act) ∷ args) = do act; compile_args args

abbrev pub unnamed : Option Bytes → Action
unnamed none = skip
unnamed (some name) = fail "MVM: named arguments are only allowed on struct constructors"

unfoldable pub compile_unnamed : List Arg → Action
compile_unnamed [] = skip
compile_unnamed ((name, act) ∷ args) = do unnamed name; act; compile_unnamed args

unfoldable pub compile_native_call : ℕ → Bytes → List Arg → Action
compile_native_call line name args = do
  compile_unnamed args
  nid ← on_module (λ m. module_add_native m name)
  emit_op_u16 mop_call_native nid line
  emit_byte (length args % 2 ^ 8) line

abbrev pub load_named : String → ℕ → Option (NameKind × ℕ) → Action
load_named message line none = fail message
load_named message line (some (kind, slot)) = emit_var_load line kind slot

abbrev pub load_name : String → ℕ → Bytes → Action
load_name message line name = do found ← resolve_name name; load_named message line found

abbrev pub call_behind : ℕ → List Arg → Action
call_behind line args = do compile_args args; emit_op_u8 mop_call (length args % 2 ^ 8) line

abbrev pub call_variable : ℕ → Bytes → List Arg → Option ℕ → Action
call_variable line name args (some sd) = compile_struct_ctor line args sd
call_variable line name args none = do
  load_name "undefined function or variable '%s'" line name
  call_behind line args

abbrev pub call_name : ℕ → Bytes → List Arg → Action
call_name line name args =
    if begins_with (codes "myon.") name
    then compile_native_call line name args
    else (do sd ← asks (find_struct name); call_variable line name args sd)

abbrev pub call_generic : ℕ → List Arg → Option ℕ → Action
call_generic line args (some sd) = compile_struct_ctor line args sd
call_generic line args none = fail "unknown generic type '%s'"

abbrev pub call_method : ℕ → Action → Bytes → List Arg → Action
call_method line target name args = do
  target
  compile_args args
  nidx ← on_module (λ m. module_add_const_str m name)
  emit_op_u16 mop_invoke nidx line
  emit_byte (length args % 2 ^ 8) line

-- `target` compiles what the callee is a member of, and `value` the callee itself.
unfoldable pub compile_call : ℕ → Expr → Action → Action → List Arg → Action
compile_call line (ident l name) target value args = call_name line name args
compile_call line (generic l name types) target value args = do
  sd ← asks (find_struct name)
  call_generic line args sd
compile_call line (member l e name) target value args = call_method line target name args
compile_call line callee target value args = do value; call_behind line args
