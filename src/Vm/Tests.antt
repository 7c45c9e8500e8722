-- ===== src/Vm/Tests.antt =====
-- Runs and instances of the theorems on a small program.
use myon.Base.{ℕ, ◌≡◌, refl, true, false, [], ◌∷◌, none, some, Bytes, arith}
use myon.Base.Words.{pos}
use myon.Value.{v_nil, v_bool}
use myon.Mvm.{Chunk, Module, int}
use myon.Interp.Operators.{FloatOps}
use myon.Vm.State.{FuncData, Frame, Vm, went, go_on, vm_push, vm_pop, put_slot}
use myon.Vm.Calls.{ended, call, return, push_frame, enter_chunk, frame_open_cells, new_frame}
use myon.Vm.Variables.{load_local, store_local, load_upvalue, store_upvalue}
use myon.Vm.Run.{run, exec, make_closure, boot, captures_at}
use myon.Vm.Limits.{Limits}
use myon.Vm.Limits.Run.{machine_of, run-boot}
use myon.Vm.Sharing.{captured_local_lem, index_at}
use myon.Mvm.Emit.{read_u16}

abbrev chunk_of : ℕ → ℕ → Bytes → Bytes → Chunk
chunk_of params locals captured code = record {
  name = [];
  num_params = params;
  num_locals = locals;
  ret_count = 1;
  is_async = 0;
  captured = captured;
  code = code;
  lines = [];
}

-- Calls the second chunk with 7 and keeps the answer in the global.
abbrev main_chunk : Chunk
main_chunk =
    chunk_of 0 1 [] (0x50 ∷ 1 ∷ 0 ∷ 0 ∷ 0x01 ∷ 0 ∷ 0 ∷ 0x51 ∷ 1 ∷ 0x31 ∷ 0 ∷ 0 ∷ 0x52 ∷ 0 ∷ [])

-- Makes a closure over its parameter, calls it, and returns the parameter.
abbrev outer_chunk : Chunk
outer_chunk =
    chunk_of 1 2 (1 ∷ 0 ∷ [])
      (0x50 ∷ 2 ∷ 0 ∷ 1 ∷ 1 ∷ 0 ∷ 0 ∷ 0x51 ∷ 0 ∷ 0x05 ∷ 0x30 ∷ 0 ∷ 0 ∷ 0x52 ∷ 1 ∷ [])

-- Assigns true to what it captured.
abbrev inner_chunk : Chunk
inner_chunk = chunk_of 0 0 [] (0x02 ∷ 0x54 ∷ 0 ∷ 0 ∷ 0x52 ∷ 0 ∷ [])

abbrev program : Module
program = record {
  consts = int (pos 7) ∷ [];
  natives = [];
  chunks = main_chunk ∷ outer_chunk ∷ inner_chunk ∷ [];
  entry_chunk = pos 0;
  src_mtime = pos 0;
  src_size = 0;
  src_hash = [];
  src_path = none;
}

-- The program has no operator on doubles.
abbrev no_floats : FloatOps
no_floats = record {
  add = λ a b. 0;
  sub = λ a b. 0;
  mul = λ a b. 0;
  div = λ a b. 0;
  less = λ a b. false;
  negate = λ a. 0;
}

-- A closure of the third chunk over the first cell, and a machine with them.
abbrev inner : FuncData
inner = record { mvm_chunk = 3; mvm_is_async = false; upvalues = 0 ∷ [] }

abbrev outer : FuncData
outer = record { mvm_chunk = 2; mvm_is_async = false; upvalues = [] }

-- What the program leaves, after its answer has been put into the global.
abbrev last_machine : Vm
last_machine = record {
  stack = [];
  stack_cap = 256;
  frames = [];
  keep_top_return = false;
  globals = v_bool true ∷ [];
  heap_cells = v_bool true ∷ [];
  heap_funcs = outer ∷ inner ∷ [];
}

ends : run no_floats program 20 (boot main_chunk) ≡ went (ended last_machine)
unfolding run exec make_closure push_frame enter_chunk frame_open_cells call return read_u16 vm_push
    vm_pop put_slot load_local store_local store_upvalue
ends = refl

run-boot_example : Limits 1 1024 (machine_of (ended last_machine))
run-boot_example = run-boot no_floats program main_chunk 20 (ended last_machine) ends

abbrev machine : Vm
machine = record {
  stack = [];
  stack_cap = 256;
  frames = new_frame main_chunk outer 0 0 ∷ [];
  keep_top_return = false;
  globals = [];
  heap_cells = v_nil ∷ [];
  heap_funcs = inner ∷ [];
}

-- The frame of the second chunk, whose parameter is in the first cell.
abbrev outer_frame : Frame
outer_frame = record (new_frame outer_chunk outer 0 0) { cells = some 0 ∷ none ∷ [] }

abbrev inner_frame : Frame
inner_frame = new_frame inner_chunk inner 2 1

captured_cells : captures_at outer_frame 1 4 ≡ went (0 ∷ [])
unfolding read_u16
captured_cells = refl

abbrev stored : Vm
stored = record machine { stack = v_bool true ∷ [] }

captured_local_lem_example :
    (go_on (store_upvalue inner_frame 0 stored) (load_local outer_frame (index_at outer_frame 4))
      ≡ go_on (store_upvalue inner_frame 0 stored) (λ after. vm_push after (v_bool true)))
    × (go_on (store_local outer_frame (index_at outer_frame 4) stored) (load_upvalue inner_frame 0)
        ≡ go_on
            (store_local outer_frame (index_at outer_frame 4) stored)
            (λ after. vm_push after (v_bool true)))
captured_local_lem_example =
    captured_local_lem outer_frame inner_frame 1 4 0 0 (0 ∷ []) stored (v_bool true) []
      captured_cells refl refl refl refl (omega arith)
