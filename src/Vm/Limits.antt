-- ===== src/Vm/Limits.antt =====
-- src/mvm_vm.c: the limits of the machine's stacks.
pub mod Calls
pub mod Variables
pub mod Run
use myon.Base.{
  ℕ, zero, suc, ◌+◌, ◌*◌, ◌-◌, ◌%◌, ◌^◌, ◌≤◌, ◌<◌, ◌≡◌, refl, sym, ap, ◌∙◌, Bool, true, false, not,
  List, [], ◌∷◌, ◌++◌, Option, none, some, ◌==◌, ltb, leb, if◌then◌else◌, if_both, if_cases, Bytes,
  length, length-set, get_elem?, get_or, set, drop, arith,
}
use myon.Value.{Value, v_bool, v_nil, v_ref, ref_func, value_truthy}
use myon.Mvm.{Chunk, Module, ConstEntry}
use myon.Mvm.Emit.{read_u16, jump_target}
use myon.Mvm.Opcode.{
  mop_nop, mop_push_const, mop_jump, mop_jump_if_false, mop_jump_if_true, mop_make_closure,
}
use myon.Vm.Opcodes.{
  mop_pop, mop_dup, mop_load_local, mop_store_local, mop_load_global, mop_store_global, mop_call,
  mop_ret, mop_load_upvalue, mop_store_upvalue, mop_push_true, mop_push_false, mop_push_nil,
}
use myon.Vm.State.{
  FuncData, Frame, Vm, Outcome, went, raised, undefined, elsewhere, go_on, mvm_max_frames,
  mvm_stack_max, grown_cap, vm_push, pop_from, vm_pop, defined, vm_peek, at_slot, put_slot, mvm_fn,
}
use myon.Vm.Calls.{
  value_or_nil, add_cell, add_no_cell, box_slot, open_cells, frame_open_cells, push_nils, new_frame,
  enter_chunk, chunk_or_error, push_frame, call_fn, call, pop_values, push_values, or_nil,
  pop_down_to, pop_callee, Round, running, ended, after_return, leave_frame, return,
}
use myon.Vm.Variables.{
  const_value, go_to, push_const, pop_value, dup, cell_of, load_cell, store_cell, load_slot,
  load_local, in_bounds, store_plain, store_slot, store_local, load_upvalue, store_upvalue,
  in_globals, load_global, store_global, jump_when,
}
use myon.Vm.Run.{
  capture_or_error, capture, captures_at, push_closure, make_closure, going, plain, exec, step_in,
  step, next_round, run, nils, boot,
}

-- The operand stack fits its capacity, and that its limit; there are at most `d` frames, and `g`
-- globals.
pub record Limits (g d : ℕ) (vm : Vm) : Type 0 where
  pub fits : length vm.stack ≤ vm.stack_cap
  pub capacity : vm.stack_cap ≤ 262144
  pub depth : length vm.frames ≤ d
  pub all_globals : length vm.globals ≡ g

-- What goes through satisfies `P`. An error, an access outside of an array and an instruction that is
-- not modelled leave no state to speak of.
abbrev pub Holds {ℓ} : {A : Type 0} → (A → Type ℓ) → Outcome A → Type ℓ
Holds P (went a) = P a
Holds P (raised message) = Unit
Holds P undefined = Unit
Holds P elsewhere = Unit

pub go_on-Holds :
    {A B : Type 0} (P : A → Type 0) (Q : B → Type 0) (o : Outcome A) (next : A → Outcome B)
    → Holds P o
    → ((a : A) → P a → Holds Q (next a))
    → Holds Q (go_on o next)
go_on-Holds P Q (went a) next h f = f a h
go_on-Holds P Q (raised message) next h f = tt
go_on-Holds P Q undefined next h f = tt
go_on-Holds P Q elsewhere next h f = tt

-- What is only read holds nothing to show.
pub go_on-reads :
    {A B : Type 0} (Q : B → Type 0) (o : Outcome A) (next : A → Outcome B)
    → ((a : A) → Holds Q (next a))
    → Holds Q (go_on o next)
go_on-reads Q (went a) next f = f a
go_on-reads Q (raised message) next f = tt
go_on-reads Q undefined next f = tt
go_on-reads Q elsewhere next f = tt

module _ (g d : ℕ) where
  abbrev pub Within : Outcome Vm → Type 0
  Within o = Holds (Limits g d) o

  abbrev pub WithinPop : {A : Type 0} → Outcome (A × Vm) → Type 0
  WithinPop o = Holds (λ r. Limits g d r.1) o

  pub vm_push-Within : (vm : Vm) (v : Value) → Limits g d vm → Within (vm_push vm v)
  unfolding vm_push
  vm_push-Within vm v h =
      if_cases Within (ltb (length vm.stack) vm.stack_cap)
        (λ room. record {
          fits = ground arith;
          capacity = h.capacity;
          depth = h.depth;
          all_globals = h.all_globals;
        })
        (λ full.
          if_cases Within (leb mvm_stack_max vm.stack_cap) (λ over. tt)
            (λ under. record {
              fits = ground (arith, h.fits);
              capacity = ground arith;
              depth = h.depth;
              all_globals = h.all_globals;
            }))

  pub pop_from-Within :
      (stack : List Value) (vm : Vm)
      → vm.stack ≡ stack
      → Limits g d vm
      → WithinPop (pop_from stack vm)
  pop_from-Within [] vm e h = tt
  pop_from-Within (v ∷ stack) vm e h = record {
    fits = omega (arith, ap length e, h.fits);
    capacity = h.capacity;
    depth = h.depth;
    all_globals = h.all_globals;
  }

  pub vm_pop-Within : (vm : Vm) → Limits g d vm → WithinPop (vm_pop vm)
  unfolding vm_pop
  vm_pop-Within vm h = pop_from-Within vm.stack vm refl h

  pub length-put_slot :
      (stack : List Value) (i : ℕ) (w : Value) → length (put_slot stack i w) ≡ length stack
  unfolding put_slot
  length-put_slot [] i w = refl
  length-put_slot (v ∷ stack) i w =
      if_both (λ (s : List Value). length s ≡ suc (length stack)) (i == length stack) refl
        (ap suc (length-put_slot stack i w))

  open_cells-Limits :
      (captured : Bytes) (n i : ℕ) (vm : Vm)
      → Limits g d vm
      → Limits g d (open_cells captured n i vm).1
  open_cells-Limits captured zero i vm h = h
  open_cells-Limits captured (suc n) i vm h =
      either_way (get_or captured 0 0 == 0) _ _ (open_cells-Limits (drop 1 captured) n (suc i) vm h)
        (open_cells-Limits (drop 1 captured) n (suc i) (box_slot vm i) (record {
          fits = omega (arith, length-put_slot vm.stack i v_nil, h.fits);
          capacity = h.capacity;
          depth = h.depth;
          all_globals = h.all_globals;
        }))
    where
      either_way :
          (b : Bool) (x y : List (Option ℕ) × Vm)
          → Limits g d x.1
          → Limits g d y.1
          → Limits g d (elim b as (λ z. List (Option ℕ) × Vm) [ true ↦ x | false ↦ y ]).1
      either_way true x y hx hy = hx
      either_way false x y hx hy = hy

  pub push_nils-Within : (n : ℕ) (vm : Vm) → Limits g d vm → Within (push_nils n vm)
  push_nils-Within zero vm h = h
  push_nils-Within (suc n) vm h =
      go_on-Holds (Limits g d) (Limits g d) (vm_push vm v_nil) (push_nils n)
        (vm_push-Within vm v_nil h) (push_nils-Within n)

  pub pop_values-Within : (n : ℕ) (vm : Vm) → Limits g d vm → WithinPop (pop_values n vm)
  pop_values-Within zero vm h = h
  pop_values-Within (suc n) vm h =
      go_on-Holds (λ (r : Value × Vm). Limits g d r.1) (λ (s : List Value × Vm). Limits g d s.1)
        (vm_pop vm) _ (vm_pop-Within vm h)
        (λ r k.
          go_on-Holds (λ (s : List Value × Vm). Limits g d s.1)
            (λ (s : List Value × Vm). Limits g d s.1) (pop_values n r.1) _
            (pop_values-Within n r.1 k) (λ s l. l))

  pub push_values-Within : (vs : List Value) (vm : Vm) → Limits g d vm → Within (push_values vs vm)
  push_values-Within [] vm h = h
  push_values-Within (v ∷ vs) vm h =
      go_on-Holds (Limits g d) (Limits g d) (push_values vs vm) _ (push_values-Within vs vm h)
        (λ after k. vm_push-Within after v k)

  more_frames :
      (vm : Vm) (f : Frame)
      → Limits g d vm
      → Limits g (suc d) (record vm { frames = f ∷ vm.frames })
  more_frames vm f h = record {
    fits = h.fits;
    capacity = h.capacity;
    depth = omega (arith, h.depth);
    all_globals = h.all_globals;
  }

  pub frame_open_cells-Limits :
      (vm : Vm) (f : Frame) → Limits g d vm → Limits g (suc d) (frame_open_cells vm f)
  unfolding frame_open_cells
  frame_open_cells-Limits vm f h =
      let opened = open_cells f.chunk.captured f.chunk.num_locals f.base vm in
      if_both (Limits g (suc d)) (length f.chunk.captured == 0)
        (more_frames vm (record f { cells = [] }) h)
        (more_frames opened.1 (record f { cells = opened.0 })
          (open_cells-Limits f.chunk.captured f.chunk.num_locals f.base vm h))

  pub Limits-less : {vm : Vm} (e : ℕ) → length vm.frames ≤ e → Limits g d vm → Limits g e vm
  Limits-less e few h = record {
    fits = h.fits;
    capacity = h.capacity;
    depth = few;
    all_globals = h.all_globals;
  }
