-- ===== src/Vm/Limits/Variables.antt =====
-- src/mvm_vm.c: variables, jumps and closures stay within the limits.
use myon.Base.{
  ℕ, ◌+◌, ◌*◌, ◌%◌, ◌^◌, ◌≡◌, refl, ap, ◌∙◌, Bool, not, List, [], ◌∷◌, Option, none, some, ltb, leb,
  if◌then◌else◌, if_both, Bytes, length, length-set, get_elem?, get_or, set, arith,
}
use myon.Value.{Value, v_ref, ref_func, value_truthy}
use myon.Mvm.{Module}
use myon.Mvm.Emit.{jump_target}
use myon.Vm.State.{Frame, Vm, Outcome, go_on, vm_push, vm_pop, defined, at_slot}
use myon.Vm.Variables.{
  const_value, go_to, push_const, cell_of, load_cell, store_cell, load_slot, load_local,
  store_plain, store_slot, store_local, upvalue_or_error, load_upvalue, store_upvalue, load_global,
  store_global, jump_when,
}
use myon.Vm.Run.{captures_at, make_closure}
use myon.Vm.Limits.{
  Limits, go_on-Holds, go_on-reads, vm_push-Within, vm_pop-Within, length-put_slot,
}
use myon.Vm.Limits.Calls.{Bounded}

module _ (g : ℕ) where
  pub go_to-Limits : (ip : ℕ) (vm : Vm) → Limits g 1024 vm → Limits g 1024 (go_to ip vm)
  go_to-Limits ip vm h = shifted vm.frames refl
    where
      shifted :
          (frames : List Frame)
          → vm.frames ≡ frames
          → Limits g 1024 (elim frames as (λ x. Vm) [
            | [] ↦ vm
            | f ∷ callers ↦ record vm { frames = record f { ip = ip } ∷ callers }
          ])
      shifted [] e = h
      shifted (f ∷ callers) e = record {
        fits = h.fits;
        capacity = h.capacity;
        depth = omega (arith, ap length e, h.depth);
        all_globals = h.all_globals;
      }

  pub pushes :
      {A : Type 0} (o : Outcome A) (vm : Vm) (of : A → Value)
      → Limits g 1024 vm
      → Bounded g (go_on o (λ a. vm_push vm (of a)))
  pushes o vm of h = go_on-reads (Limits g 1024) o _ (λ a. vm_push-Within g 1024 vm (of a) h)

  pub pops :
      (vm : Vm) (next : Value × Vm → Outcome Vm)
      → Limits g 1024 vm
      → ((r : Value × Vm) → Limits g 1024 r.1 → Bounded g (next r))
      → Bounded g (go_on (vm_pop vm) next)
  pops vm next h f =
      go_on-Holds (λ (r : Value × Vm). Limits g 1024 r.1) (Limits g 1024) (vm_pop vm) next
        (vm_pop-Within g 1024 vm h) f

  pub push_const-Within :
      (m : Module) (idx : ℕ) (vm : Vm) → Limits g 1024 vm → Bounded g (push_const m idx vm)
  push_const-Within m idx vm h =
      if_both (Bounded g) (leb (length m.consts % 2 ^ 16) idx) tt
        (pushes (defined (get_elem? m.consts idx)) vm const_value h)

  pub store_cell-Within : (cell : ℕ) (vm : Vm) → Limits g 1024 vm → Bounded g (store_cell cell vm)
  store_cell-Within cell vm h = pops vm _ h (λ r k. record {
    fits = k.fits;
    capacity = k.capacity;
    depth = k.depth;
    all_globals = k.all_globals;
  })

  pub load_cell-Within : (vm : Vm) (cell : ℕ) → Limits g 1024 vm → Bounded g (load_cell vm cell)
  load_cell-Within vm cell h = pushes (defined (get_elem? vm.heap_cells cell)) vm (λ v. v) h

  pub load_slot-Within :
      (f : Frame) (slot : ℕ) (o : Option ℕ) (vm : Vm)
      → Limits g 1024 vm
      → Bounded g (load_slot f slot o vm)
  load_slot-Within f slot (some cell) vm h = load_cell-Within vm cell h
  load_slot-Within f slot none vm h =
      pushes
        (defined
          (if f.globals_frame then get_elem? vm.globals slot else at_slot vm.stack (f.base + slot)))
        vm (λ v. v) h

  pub load_local-Within :
      (f : Frame) (slot : ℕ) (vm : Vm) → Limits g 1024 vm → Bounded g (load_local f slot vm)
  unfolding load_local
  load_local-Within f slot vm h = load_slot-Within f slot (cell_of f slot) vm h

  pub set_global-Limits :
      (vm : Vm) (slot : ℕ) (v : Value)
      → Limits g 1024 vm
      → Limits g 1024 (record vm { globals = set vm.globals slot v })
  set_global-Limits vm slot v h = record {
    fits = h.fits;
    capacity = h.capacity;
    depth = h.depth;
    all_globals = length-set vm.globals slot v ∙ h.all_globals;
  }

  pub store_plain-Within :
      (f : Frame) (slot : ℕ) (r : Value × Vm) → Limits g 1024 r.1 → Bounded g (store_plain f slot r)
  store_plain-Within f slot (v, vm) h =
      if_both (Bounded g) f.globals_frame
        (if_both (Bounded g) (ltb slot (length vm.globals)) (set_global-Limits vm slot v h) tt)
        (if_both (Bounded g) (ltb (f.base + slot) (length vm.stack))
          (record {
            fits = omega (arith, length-put_slot g 1024 vm.stack (f.base + slot) v, h.fits);
            capacity = h.capacity;
            depth = h.depth;
            all_globals = h.all_globals;
          })
          tt)

  pub store_slot-Within :
      (f : Frame) (slot : ℕ) (o : Option ℕ) (vm : Vm)
      → Limits g 1024 vm
      → Bounded g (store_slot f slot o vm)
  store_slot-Within f slot (some cell) vm h = store_cell-Within cell vm h
  store_slot-Within f slot none vm h = pops vm _ h (store_plain-Within f slot)

  pub store_local-Within :
      (f : Frame) (slot : ℕ) (vm : Vm) → Limits g 1024 vm → Bounded g (store_local f slot vm)
  unfolding store_local
  store_local-Within f slot vm h = store_slot-Within f slot (cell_of f slot) vm h

  pub upvalue_or_error-Within :
      (o : Option ℕ) (next : ℕ → Outcome Vm)
      → ((cell : ℕ) → Bounded g (next cell))
      → Bounded g (upvalue_or_error o next)
  upvalue_or_error-Within none next h = tt
  upvalue_or_error-Within (some cell) next h = h cell

  pub load_upvalue-Within :
      (f : Frame) (idx : ℕ) (vm : Vm) → Limits g 1024 vm → Bounded g (load_upvalue f idx vm)
  unfolding load_upvalue
  load_upvalue-Within f idx vm h =
      upvalue_or_error-Within (get_elem? f.captures idx) (load_cell vm)
        (λ cell. load_cell-Within vm cell h)

  pub store_upvalue-Within :
      (f : Frame) (idx : ℕ) (vm : Vm) → Limits g 1024 vm → Bounded g (store_upvalue f idx vm)
  unfolding store_upvalue
  store_upvalue-Within f idx vm h =
      upvalue_or_error-Within (get_elem? f.captures idx) (λ cell. store_cell cell vm)
        (λ cell. store_cell-Within cell vm h)

  pub load_global-Within : (slot : ℕ) (vm : Vm) → Limits g 1024 vm → Bounded g (load_global slot vm)
  load_global-Within slot vm h =
      if_both (Bounded g) (leb (length vm.globals % 2 ^ 16) slot) tt
        (pushes (defined (get_elem? vm.globals slot)) vm (λ v. v) h)

  pub store_global-Within :
      (slot : ℕ) (vm : Vm) → Limits g 1024 vm → Bounded g (store_global slot vm)
  store_global-Within slot vm h =
      if_both (Bounded g) (leb (length vm.globals % 2 ^ 16) slot) tt
        (pops vm _ h (λ r k. set_global-Limits r.1 slot r.0 k))

  pub jump_when-Within :
      (taken : Bool) (code : Bytes) (off : ℕ) (vm : Vm)
      → Limits g 1024 vm
      → Bounded g (jump_when taken code off vm)
  jump_when-Within taken code off vm h = pops vm _ h (λ r k.
      if_both (Limits g 1024) (if taken then value_truthy r.0 else not (value_truthy r.0))
        (go_to-Limits (jump_target code off) r.1 k) (go_to-Limits (off + 2) r.1 k))

  pub make_closure-Within :
      (m : Module) (f : Frame) (off : ℕ) (vm : Vm)
      → Limits g 1024 vm
      → Bounded g (make_closure m f off vm)
  unfolding make_closure
  make_closure-Within m f off vm h =
      let nupval = get_or f.chunk.code (off + 2) 0 in
      let moved = go_to (off + 3 + 3 * nupval) vm in
      let k = go_to-Limits (off + 3 + 3 * nupval) vm h in
      go_on-reads (Limits g 1024) (captures_at f nupval (off + 3)) _ (λ cells.
        vm_push-Within g 1024 _ (v_ref ref_func (length moved.heap_funcs)) (record {
          fits = k.fits;
          capacity = k.capacity;
          depth = k.depth;
          all_globals = k.all_globals;
        }))
