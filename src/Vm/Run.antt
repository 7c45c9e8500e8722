-- ===== src/Vm/Run.antt =====
-- src/mvm_vm.c: closures, operators, and the dispatch loop. A byte behind the code reads as 0.
use myon.Base.{
  ℕ, zero, suc, ◌+◌, ◌*◌, Bool, true, false, not, List, [], ◌∷◌, ◌++◌, Option, none, some, ◌==◌,
  if◌then◌else◌, length, get_elem?, get_or,
}
use myon.Value.{Value, v_bool, v_nil, v_ref, ref_func}
use myon.Mvm.{Chunk, Module}
use myon.Mvm.Emit.{read_u16, jump_target}
use myon.Mvm.Opcode.{
  mop_nop, mop_push_const, mop_jump, mop_jump_if_false, mop_jump_if_true, mop_make_closure,
}
use myon.Interp.Ints.{
  Evaluated, value, runtime_error, overflowed, OpKind, op_add, op_sub, op_mul, op_div, op_eq,
  op_neq, op_lt, op_gt, op_le, op_ge,
}
use myon.Interp.Operators.{FloatOps, eval_binary, myon_bridge_neg, myon_bridge_not}
use myon.Vm.Opcodes.{
  mop_add, mop_sub, mop_mul, mop_div, mop_eq, mop_neq, mop_lt, mop_gt, mop_le, mop_ge, mop_neg,
  mop_not, mop_pop, mop_dup, mop_load_local, mop_store_local, mop_load_global, mop_store_global,
  mop_call, mop_ret, mop_load_upvalue, mop_store_upvalue, mop_push_true, mop_push_false,
  mop_push_nil,
}
use myon.Vm.State.{
  FuncData, Frame, Vm, Outcome, went, raised, undefined, elsewhere, go_on, vm_push, vm_pop,
}
use myon.Vm.Calls.{call, return, Round, running, ended}
use myon.Vm.Variables.{
  go_to, push_const, pop_value, dup, cell_of, load_local, store_local, load_upvalue, store_upvalue,
  load_global, store_global, jump_when,
}

abbrev pub capture_or_error : ℕ → Option ℕ → (ℕ → Outcome (List ℕ)) → Outcome (List ℕ)
capture_or_error kind none next = raised (
    if kind == 1
    then "internal: captured local slot %u is not boxed"
    else "internal: bad re-captured upvalue %u")
capture_or_error kind (some cell) next = next cell

-- Kind 1 is a local's cell, another kind an upvalue of the frame itself.
abbrev pub capture : Frame → ℕ → ℕ → Option ℕ
capture f kind index = if kind == 1 then cell_of f index else get_elem? f.captures index

-- The cells of `n` captures with their operands from `off` on.
abbrev pub captures_at : Frame → ℕ → ℕ → Outcome (List ℕ)
captures_at f zero off = went []
captures_at f (suc n) off =
    let kind = get_or f.chunk.code off 0 in
    capture_or_error kind (capture f kind (read_u16 f.chunk.code (off + 1)))
      (λ cell. go_on (captures_at f n (off + 3)) (λ (cells : List ℕ). went (cell ∷ cells)))

abbrev pub is_async_chunk : Option Chunk → Bool
is_async_chunk none = false
is_async_chunk (some c) = not (c.is_async == 0)

-- `vm_make_closure`, and the push of the closure.
abbrev pub push_closure : Module → ℕ → Vm → List ℕ → Outcome Vm
push_closure m cidx vm cells =
    let fn : FuncData = record {
      mvm_chunk = suc cidx;
      mvm_is_async = is_async_chunk (get_elem? m.chunks cidx);
      upvalues = cells;
    } in
    vm_push (record vm { heap_funcs = vm.heap_funcs ++ fn ∷ [] })
      (v_ref ref_func (length vm.heap_funcs))

-- MOP_MAKE_CLOSURE, with its operands at `off`.
unfoldable pub make_closure : Module → Frame → ℕ → Vm → Outcome Vm
make_closure m f off vm =
    let code = f.chunk.code in
    let nupval = get_or code (off + 2) 0 in
    go_on (captures_at f nupval (off + 3)) (λ (cells : List ℕ).
      push_closure m (read_u16 code off) (go_to (off + 3 + 3 * nupval) vm) cells)

abbrev pub going : Outcome Vm → Outcome Round
going o = go_on o (λ (vm : Vm). went (running vm))

-- What an operator gives is pushed.
abbrev pub push_evaluated : Evaluated Value → Vm → Outcome Vm
push_evaluated (value v) vm = vm_push vm v
push_evaluated (runtime_error message) vm = raised message
push_evaluated overflowed vm = undefined

abbrev pub unary : (Value → Evaluated Value) → Vm → Outcome Vm
unary op vm = go_on (vm_pop vm) (λ (r : Value × Vm). push_evaluated (op r.0) r.1)

-- The right operand is on top.
abbrev pub binary : (Value → Value → Evaluated Value) → Vm → Outcome Vm
binary op vm =
    go_on (vm_pop vm)
      (λ (r : Value × Vm). go_on (vm_pop r.1) (λ (l : Value × Vm). push_evaluated (op l.0 r.0) l.1))

-- The table `to_opkind`.
abbrev pub to_opkind : ℕ → Option OpKind
to_opkind op =
    if op == mop_add
    then some op_add
    else if op == mop_sub
    then some op_sub
    else if op == mop_mul
    then some op_mul
    else if op == mop_div
    then some op_div
    else if op == mop_eq
    then some op_eq
    else if op == mop_neq
    then some op_neq
    else if op == mop_lt
    then some op_lt
    else if op == mop_gt
    then some op_gt
    else if op == mop_le
    then some op_le
    else if op == mop_ge
    then some op_ge
    else none

abbrev pub operator : FloatOps → ℕ → Option OpKind → Vm → Outcome Vm
operator fl op (some kind) vm = binary (eval_binary fl kind) vm
operator fl op none vm =
    if op == mop_neg
    then unary (myon_bridge_neg fl) vm
    else if op == mop_not
    then unary myon_bridge_not vm
    else elsewhere

-- The instructions that leave the frames alone but for the innermost frame's `ip`. `w` is the
-- operand at `off`.
abbrev pub plain : FloatOps → Module → Frame → ℕ → ℕ → Vm → Outcome Vm
plain fl m f op off vm =
    let w = read_u16 f.chunk.code off in
    let at_once = go_to off vm in
    let behind = go_to (off + 2) vm in
    if op == mop_nop
    then went at_once
    else if op == mop_push_const
    then push_const m w behind
    else if op == mop_push_true
    then vm_push at_once (v_bool true)
    else if op == mop_push_false
    then vm_push at_once (v_bool false)
    else if op == mop_push_nil
    then vm_push at_once v_nil
    else if op == mop_pop
    then pop_value at_once
    else if op == mop_dup
    then dup at_once
    else if op == mop_load_local
    then load_local f w behind
    else if op == mop_store_local
    then store_local f w behind
    else if op == mop_load_upvalue
    then load_upvalue f w behind
    else if op == mop_store_upvalue
    then store_upvalue f w behind
    else if op == mop_load_global
    then load_global w behind
    else if op == mop_store_global
    then store_global w behind
    else if op == mop_jump
    then went (go_to (jump_target f.chunk.code off) vm)
    else if op == mop_jump_if_false
    then jump_when false f.chunk.code off vm
    else if op == mop_jump_if_true
    then jump_when true f.chunk.code off vm
    else if op == mop_make_closure
    then make_closure m f off vm
    else operator fl op (to_opkind op) at_once

-- One round: the instruction `op`, with its operands at `off`.
unfoldable pub exec : FloatOps → Module → Frame → ℕ → ℕ → Vm → Outcome Round
exec fl m f op off vm =
    let n = get_or f.chunk.code off 0 in
    if op == mop_call
    then going (call m n (go_to (off + 1) vm))
    else if op == mop_ret
    then return n (go_to (off + 1) vm)
    else going (plain fl m f op off vm)

abbrev pub step_in : FloatOps → Module → List Frame → Vm → Outcome Round
step_in fl m [] vm = undefined
step_in fl m (f ∷ callers) vm = exec fl m f (get_or f.chunk.code f.ip 0) (suc f.ip) vm

abbrev pub step : FloatOps → Module → Vm → Outcome Round
step fl m vm = step_in fl m vm.frames vm

abbrev pub next_round : (Vm → Outcome Round) → Round → Outcome Round
next_round again (running vm) = again vm
next_round again (ended vm) = went (ended vm)

-- `n` rounds of the loop, or fewer where the outermost frame returns.
unfoldable pub run : FloatOps → Module → ℕ → Vm → Outcome Round
run fl m zero vm = went (running vm)
run fl m (suc n) vm = go_on (step fl m vm) (next_round (run fl m n))

-- `mvm_run_module` starts with the entry chunk's frame, whose locals are the globals.
abbrev pub nils : ℕ → List Value
nils zero = []
nils (suc n) = v_nil ∷ nils n

abbrev pub main_frame : Chunk → Frame
main_frame c = record {
  chunk = c;
  ip = 0;
  base = 0;
  fn_slot = none;
  captures = [];
  cells = [];
  globals_frame = true;
}

abbrev pub boot : Chunk → Vm
boot c = record {
  stack = [];
  stack_cap = 0;
  frames = main_frame c ∷ [];
  keep_top_return = false;
  globals = nils c.num_locals;
  heap_cells = [];
  heap_funcs = [];
}
