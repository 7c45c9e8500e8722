-- ===== src/Vm/Limits/Calls.antt =====
-- src/mvm_vm.c: calls and returns stay within the limits.
use myon.Base.{
  ℕ, zero, suc, ◌-◌, ◌≤◌, not, List, [], ◌∷◌, Option, none, some, ◌==◌, leb, if◌then◌else◌, if_both,
  if_cases, length, get_elem?, drop, arith,
}
use myon.Value.{Value}
use myon.Mvm.{Chunk, Module}
use myon.Vm.State.{FuncData, Frame, Vm, Outcome, mvm_max_frames, vm_pop, vm_peek, mvm_fn}
use myon.Vm.Calls.{
  push_nils, new_frame, enter_chunk, chunk_or_error, push_frame, call_fn, call, pop_values,
  push_values, or_nil, pop_down_to, pop_callee, Round, running, ended, after_return, leave_frame,
  return,
}
use myon.Vm.Limits.{
  Limits, Holds, go_on-Holds, go_on-reads, Within, vm_pop-Within, push_nils-Within,
  pop_values-Within, push_values-Within, frame_open_cells-Limits, Limits-less,
}

module _ (g : ℕ) where
  abbrev pub Bounded : Outcome Vm → Type 0
  Bounded o = Within g 1024 o

  enter_chunk-Within :
      (vm : Vm) (fn : FuncData) (argc fn_slot : ℕ) (c : Chunk)
      → Limits g 1024 vm
      → Bounded (enter_chunk vm fn argc fn_slot c)
  unfolding enter_chunk
  enter_chunk-Within vm fn argc fn_slot c h = if_both Bounded (not (c.num_params == argc)) tt (
      if_cases Bounded (leb mvm_max_frames (length vm.frames)) (λ deep. tt)
        (λ room.
          go_on-Holds (Limits g 1023) (Limits g 1024) (push_nils (c.num_locals - argc) vm) _
            (push_nils-Within g 1023 (c.num_locals - argc) vm
              (Limits-less g 1024 1023 (ground arith) h))
            (λ ready k.
              frame_open_cells-Limits g 1023 ready (new_frame c fn (length vm.stack - argc) fn_slot)
                k)))

  chunk_or_error-Within :
      (o : Option Chunk) (next : Chunk → Outcome Vm)
      → ((c : Chunk) → Bounded (next c))
      → Bounded (chunk_or_error o next)
  chunk_or_error-Within none next h = tt
  chunk_or_error-Within (some c) next h = h c

  call_fn-Within :
      (m : Module) (vm : Vm) (argc : ℕ) (o : Option FuncData)
      → Limits g 1024 vm
      → Bounded (call_fn m vm argc o)
  unfolding push_frame
  call_fn-Within m vm argc none h = tt
  call_fn-Within m vm argc (some fn) h = if_both Bounded (fn.mvm_chunk == 0) tt (
      if_both Bounded fn.mvm_is_async tt (
        chunk_or_error-Within (get_elem? m.chunks (fn.mvm_chunk - 1))
          (enter_chunk vm fn argc (length vm.stack - argc - 1))
          (λ c. enter_chunk-Within vm fn argc (length vm.stack - argc - 1) c h)))

  pub call-Within : (m : Module) (argc : ℕ) (vm : Vm) → Limits g 1024 vm → Bounded (call m argc vm)
  unfolding call
  call-Within m argc vm h =
      go_on-reads (Limits g 1024) (vm_peek vm argc) _
        (λ callee. call_fn-Within m vm argc (mvm_fn vm callee) h)

  -- The same of a state with its progress.
  unfoldable pub Goes : Round → Type 0
  Goes (running vm) = Limits g 1024 vm
  Goes (ended vm) = Limits g 1024 vm

  drop_shorter : (n : ℕ) (vs : List Value) → length (drop n vs) ≤ length vs
  drop_shorter zero vs = omega arith
  drop_shorter (suc n) [] = omega arith
  drop_shorter (suc n) (v ∷ vs) = omega (arith, drop_shorter n vs)

  pop_down_to-Limits : (base : ℕ) (vm : Vm) → Limits g 1024 vm → Limits g 1024 (pop_down_to base vm)
  pop_down_to-Limits base vm h = record {
    fits = omega (arith, h.fits, drop_shorter (length vm.stack - base) vm.stack);
    capacity = h.capacity;
    depth = h.depth;
    all_globals = h.all_globals;
  }

  pop_callee-Within : (slot : Option ℕ) (vm : Vm) → Limits g 1024 vm → Bounded (pop_callee slot vm)
  pop_callee-Within none vm h = h
  pop_callee-Within (some slot) vm h =
      go_on-Holds (λ (r : Value × Vm). Limits g 1024 r.1) (Limits g 1024) (vm_pop vm) _
        (vm_pop-Within g 1024 vm h) (λ r k. k)

  after_return-Within :
      (n : ℕ) (frames : List Frame) (vm : Vm)
      → Limits g 1024 vm
      → Holds Goes (after_return n frames vm)
  unfolding Goes
  after_return-Within n [] vm h =
      go_on-Holds (λ (r : List Value × Vm). Limits g 1024 r.1) Goes
        (pop_values (if vm.keep_top_return then n - 1 else n) vm) _
        (pop_values-Within g 1024 (if vm.keep_top_return then n - 1 else n) vm h) (λ r k. k)
  after_return-Within n (f ∷ frames) vm h = h

  leave_frame-Within :
      (rets : List Value) (frames : List Frame) (vm : Vm)
      → length frames ≤ 1024
      → Limits g 1024 vm
      → Holds Goes (leave_frame rets frames vm)
  leave_frame-Within rets [] vm few h = tt
  leave_frame-Within rets (f ∷ callers) vm few h =
      go_on-Holds (Limits g 1024) Goes (pop_callee f.fn_slot (pop_down_to f.base vm)) _
        (pop_callee-Within f.fn_slot (pop_down_to f.base vm) (pop_down_to-Limits f.base vm h))
        (λ below k.
          go_on-Holds (Limits g 1024) Goes (push_values rets (record below { frames = callers }))
            (after_return (length rets) callers)
            (push_values-Within g 1024 rets (record below { frames = callers })
              (record {
                fits = k.fits;
                capacity = k.capacity;
                depth = omega (arith, few);
                all_globals = k.all_globals;
              }))
            (λ done l. after_return-Within (length rets) callers done l))

  pub return-Within : (n : ℕ) (vm : Vm) → Limits g 1024 vm → Holds Goes (return n vm)
  unfolding return
  return-Within n vm h =
      go_on-Holds (λ (r : List Value × Vm). Limits g 1024 r.1) Goes (pop_values n vm) _
        (pop_values-Within g 1024 n vm h)
        (λ r k. leave_frame-Within (or_nil r.0) r.1.frames r.1 k.depth k)
