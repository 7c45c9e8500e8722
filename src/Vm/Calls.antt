-- ===== src/Vm/Calls.antt =====
-- src/mvm_vm.c: frames, calls and returns.
use myon.Base.{
  ℕ, zero, suc, ◌-◌, true, false, not, List, [], ◌∷◌, ◌++◌, Option, none, some, ◌==◌, leb,
  if◌then◌else◌, Bytes, length, get_elem?, get_or, drop,
}
use myon.Value.{Value, v_nil}
use myon.Mvm.{Chunk, Module}
use myon.Vm.State.{
  FuncData, Frame, Vm, Outcome, went, raised, undefined, elsewhere, go_on, mvm_max_frames, vm_push,
  vm_pop, vm_peek, at_slot, put_slot, mvm_fn,
}

abbrev pub value_or_nil : Option Value → Value
value_or_nil none = v_nil
value_or_nil (some v) = v

abbrev pub add_cell : ℕ → List (Option ℕ) × Vm → List (Option ℕ) × Vm
add_cell cell (cells, vm) = (some cell ∷ cells, vm)

abbrev pub add_no_cell : List (Option ℕ) × Vm → List (Option ℕ) × Vm
add_no_cell (cells, vm) = (none ∷ cells, vm)

-- The slot's value moves into a new cell.
abbrev pub box_slot : Vm → ℕ → Vm
box_slot vm i = record vm {
  heap_cells = vm.heap_cells ++ value_or_nil (at_slot vm.stack i) ∷ [];
  stack = put_slot vm.stack i v_nil;
}

-- The loop over `n` more slots, from the place `i` in the stack on.
abbrev pub open_cells : Bytes → ℕ → ℕ → Vm → List (Option ℕ) × Vm
open_cells captured zero i vm = ([], vm)
open_cells captured (suc n) i vm = elim (get_or captured 0 0 == 0) [
  | true ↦ add_no_cell (open_cells (drop 1 captured) n (suc i) vm)
  | false ↦ add_cell (length vm.heap_cells) (open_cells (drop 1 captured) n (suc i) (box_slot vm i))
]

-- The frame becomes the innermost one.
unfoldable pub frame_open_cells : Vm → Frame → Vm
frame_open_cells vm f =
    let (cells, after) = open_cells f.chunk.captured f.chunk.num_locals f.base vm in
    if length f.chunk.captured == 0
    then record vm { frames = record f { cells = [] } ∷ vm.frames }
    else record after { frames = record f { cells = cells } ∷ after.frames }

abbrev pub push_nils : ℕ → Vm → Outcome Vm
push_nils zero vm = went vm
push_nils (suc n) vm = go_on (vm_push vm v_nil) (push_nils n)

abbrev pub new_frame : Chunk → FuncData → ℕ → ℕ → Frame
new_frame c fn base fn_slot = record {
  chunk = c;
  ip = 0;
  base = base;
  fn_slot = some fn_slot;
  captures = fn.upvalues;
  cells = [];
  globals_frame = false;
}

unfoldable pub enter_chunk : Vm → FuncData → ℕ → ℕ → Chunk → Outcome Vm
enter_chunk vm fn argc fn_slot c =
    if not (c.num_params == argc)
    then raised "function '%s' expects %d argument%s but got %d"
    else if leb mvm_max_frames (length vm.frames)
    then raised "stack overflow (call depth exceeded %d; recursion too deep?)"
    else go_on (push_nils (c.num_locals - argc) vm)
        (λ ready. went (frame_open_cells ready (new_frame c fn (length vm.stack - argc) fn_slot)))

abbrev pub chunk_or_error : Option Chunk → (Chunk → Outcome Vm) → Outcome Vm
chunk_or_error none next = raised "internal: bad chunk index %d"
chunk_or_error (some c) next = next c

unfoldable pub push_frame : Module → Vm → FuncData → ℕ → ℕ → Outcome Vm
push_frame m vm fn argc fn_slot =
    chunk_or_error (get_elem? m.chunks (fn.mvm_chunk - 1)) (enter_chunk vm fn argc fn_slot)

-- A call of an asynchronous function starts a task, which is not modelled.
abbrev pub call_fn : Module → Vm → ℕ → Option FuncData → Outcome Vm
call_fn m vm argc none = raised "cannot call a %s value"
call_fn m vm argc (some fn) =
    if fn.mvm_chunk == 0
    then raised "cannot call a %s value"
    else if fn.mvm_is_async
    then elsewhere
    else push_frame m vm fn argc (length vm.stack - argc - 1)

-- MOP_CALL
unfoldable pub call : Module → ℕ → Vm → Outcome Vm
call m argc vm = go_on (vm_peek vm argc) (λ callee. call_fn m vm argc (mvm_fn vm callee))

-- The values in the order of the stack, the last one first.
abbrev pub pop_values : ℕ → Vm → Outcome (List Value × Vm)
pop_values zero vm = went ([], vm)
pop_values (suc n) vm =
    go_on (vm_pop vm) (λ (r : Value × Vm).
      go_on (pop_values n r.1) (λ (s : List Value × Vm). went (r.0 ∷ s.0, s.1)))

abbrev pub push_values : List Value → Vm → Outcome Vm
push_values [] vm = went vm
push_values (v ∷ vs) vm = go_on (push_values vs vm) (λ after. vm_push after v)

-- Without a value, nil is returned.
abbrev pub or_nil : List Value → List Value
or_nil [] = v_nil ∷ []
or_nil (v ∷ vs) = v ∷ vs

-- `while (vm->sp > f->base)`
abbrev pub pop_down_to : ℕ → Vm → Vm
pop_down_to base vm = record vm { stack = drop (length vm.stack - base) vm.stack }

abbrev pub pop_callee : Option ℕ → Vm → Outcome Vm
pop_callee none vm = went vm
pop_callee (some slot) vm = go_on (vm_pop vm) (λ (r : Value × Vm). went r.1)

-- The machine goes on, or its outermost frame has returned.
pub data Round : Type 0 where
  running : Vm → Round
  ended : Vm → Round

-- Behind the outermost frame all returned values go, or all but one.
abbrev pub after_return : ℕ → List Frame → Vm → Outcome Round
after_return n [] vm =
    go_on (pop_values (if vm.keep_top_return then n - 1 else n) vm)
      (λ (r : List Value × Vm). went (ended r.1))
after_return n (f ∷ frames) vm = went (running vm)

abbrev pub leave_frame : List Value → List Frame → Vm → Outcome Round
leave_frame rets [] vm = undefined
leave_frame rets (f ∷ callers) vm = go_on (pop_callee f.fn_slot (pop_down_to f.base vm)) (λ below.
    go_on (push_values rets (record below { frames = callers }))
      (after_return (length rets) callers))

-- MOP_RET
unfoldable pub return : ℕ → Vm → Outcome Round
return n vm =
    go_on (pop_values n vm) (λ (r : List Value × Vm). leave_frame (or_nil r.0) r.1.frames r.1)
