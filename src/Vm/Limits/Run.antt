-- ===== src/Vm/Limits/Run.antt =====
-- src/mvm_vm.c: operators and the dispatch loop stay within the limits.
use myon.Base.{
  ℕ, zero, suc, ◌+◌, ◌≡◌, refl, ap, true, false, List, [], ◌∷◌, Option, none, some, ◌==◌, if_both,
  length, get_or, arith,
}
use myon.Value.{Value, v_bool, v_nil}
use myon.Mvm.{Chunk, Module}
use myon.Mvm.Emit.{read_u16, jump_target}
use myon.Mvm.Opcode.{
  mop_nop, mop_push_const, mop_jump, mop_jump_if_false, mop_jump_if_true, mop_make_closure,
}
use myon.Interp.Ints.{Evaluated, value, runtime_error, overflowed, OpKind}
use myon.Interp.Operators.{FloatOps, eval_binary, myon_bridge_neg, myon_bridge_not}
use myon.Vm.Opcodes.{mop_neg, mop_not}
use myon.Vm.Run.{push_evaluated, unary, binary, to_opkind, operator}
use myon.Vm.Opcodes.{
  mop_pop, mop_dup, mop_load_local, mop_store_local, mop_load_global, mop_store_global, mop_call,
  mop_ret, mop_load_upvalue, mop_store_upvalue, mop_push_true, mop_push_false, mop_push_nil,
}
use mathlib.Core.Path.{subst}
use myon.Vm.State.{Frame, Vm, Outcome, went, vm_peek}
use myon.Vm.Calls.{call, Round, running, ended}
use myon.Vm.Variables.{go_to}
use myon.Vm.Run.{going, plain, exec, step_in, step, next_round, run, nils, boot}
use myon.Vm.Limits.{Limits, Holds, go_on-Holds, vm_push-Within}
use myon.Vm.Limits.Calls.{Bounded, Goes, call-Within, return-Within}
use myon.Vm.Limits.Variables.{
  go_to-Limits, pushes, pops, push_const-Within, load_local-Within, store_local-Within,
  load_upvalue-Within, store_upvalue-Within, load_global-Within, store_global-Within,
  jump_when-Within, make_closure-Within,
}

module _ (fl : FloatOps) (g : ℕ) where
  push_evaluated-Within :
      (e : Evaluated Value) (vm : Vm) → Limits g 1024 vm → Bounded g (push_evaluated e vm)
  push_evaluated-Within (value v) vm h = vm_push-Within g 1024 vm v h
  push_evaluated-Within (runtime_error message) vm h = tt
  push_evaluated-Within overflowed vm h = tt

  unary-Within :
      (op : Value → Evaluated Value) (vm : Vm) → Limits g 1024 vm → Bounded g (unary op vm)
  unary-Within op vm h = pops g vm _ h (λ r k. push_evaluated-Within (op r.0) r.1 k)

  binary-Within :
      (op : Value → Value → Evaluated Value) (vm : Vm) → Limits g 1024 vm → Bounded g (binary op vm)
  binary-Within op vm h =
      pops g vm _ h (λ r k. pops g r.1 _ k (λ l j. push_evaluated-Within (op l.0 r.0) l.1 j))

  operator-Within :
      (op : ℕ) (o : Option OpKind) (vm : Vm) → Limits g 1024 vm → Bounded g (operator fl op o vm)
  operator-Within op (some kind) vm h = binary-Within (eval_binary fl kind) vm h
  operator-Within op none vm h =
      if_both (Bounded g) (op == mop_neg) (unary-Within (myon_bridge_neg fl) vm h)
        (if_both (Bounded g) (op == mop_not) (unary-Within myon_bridge_not vm h) tt)

  plain-Within :
      (m : Module) (f : Frame) (op off : ℕ) (vm : Vm)
      → Limits g 1024 vm
      → Bounded g (plain fl m f op off vm)
  plain-Within m f op off vm h =
      let w = read_u16 f.chunk.code off in
      let at_once = go_to off vm in
      let behind = go_to (off + 2) vm in
      let k = go_to-Limits g off vm h in
      let l = go_to-Limits g (off + 2) vm h in
      let P : Outcome Vm → Type 0 = Bounded g in
      if_both P (op == mop_nop) k (
        if_both P (op == mop_push_const) (push_const-Within g m w behind l) (
          if_both P (op == mop_push_true) (vm_push-Within g 1024 at_once (v_bool true) k) (
            if_both P (op == mop_push_false) (vm_push-Within g 1024 at_once (v_bool false) k) (
              if_both P (op == mop_push_nil) (vm_push-Within g 1024 at_once v_nil k) (
                if_both P (op == mop_pop) (pops g at_once _ k (λ r j. j)) (
                  if_both P (op == mop_dup) (pushes g (vm_peek at_once 0) at_once (λ v. v) k) (
                    if_both P (op == mop_load_local) (load_local-Within g f w behind l) (
                      if_both P (op == mop_store_local) (store_local-Within g f w behind l) (
                        if_both P (op == mop_load_upvalue) (load_upvalue-Within g f w behind l) (
                          if_both P (op == mop_store_upvalue) (store_upvalue-Within g f w behind l)
                            (if_both P (op == mop_load_global) (load_global-Within g w behind l) (
                              if_both P (op == mop_store_global) (store_global-Within g w behind l)
                                (if_both P (op == mop_jump)
                                  (go_to-Limits g (jump_target f.chunk.code off) vm h)
                                  (if_both P (op == mop_jump_if_false)
                                    (jump_when-Within g false f.chunk.code off vm h)
                                    (if_both P (op == mop_jump_if_true)
                                      (jump_when-Within g true f.chunk.code off vm h)
                                      (if_both P (op == mop_make_closure)
                                        (make_closure-Within g m f off vm h)
                                        (operator-Within op (to_opkind op) at_once
                                          k)))))))))))))))))

  going-Within : (o : Outcome Vm) → Bounded g o → Holds (Goes g) (going o)
  unfolding Goes
  going-Within o h = go_on-Holds (Limits g 1024) (Goes g) o _ h (λ vm k. k)

  exec-Within :
      (m : Module) (f : Frame) (op off : ℕ) (vm : Vm)
      → Limits g 1024 vm
      → Holds (Goes g) (exec fl m f op off vm)
  unfolding exec
  exec-Within m f op off vm h =
      let n = get_or f.chunk.code off 0 in
      let moved = go_to (off + 1) vm in
      let k = go_to-Limits g (off + 1) vm h in
      if_both (Holds (Goes g)) (op == mop_call)
        (going-Within (call m n moved) (call-Within g m n moved k))
        (if_both (Holds (Goes g)) (op == mop_ret) (return-Within g n moved k)
          (going-Within (plain fl m f op off vm) (plain-Within m f op off vm h)))

  step_in-Within :
      (m : Module) (frames : List Frame) (vm : Vm)
      → Limits g 1024 vm
      → Holds (Goes g) (step_in fl m frames vm)
  step_in-Within m [] vm h = tt
  step_in-Within m (f ∷ callers) vm h = exec-Within m f (get_or f.chunk.code f.ip 0) (suc f.ip) vm h

  next_round-Within :
      (again : Vm → Outcome Round) (p : Round)
      → ((vm : Vm) → Limits g 1024 vm → Holds (Goes g) (again vm))
      → Goes g p
      → Holds (Goes g) (next_round again p)
  unfolding Goes
  next_round-Within again (running vm) f h = f vm h
  next_round-Within again (ended vm) f h = h

  pub run-Within :
      (m : Module) (n : ℕ) (vm : Vm) → Limits g 1024 vm → Holds (Goes g) (run fl m n vm)
  unfolding run Goes
  run-Within m zero vm h = h
  run-Within m (suc n) vm h =
      go_on-Holds (Goes g) (Goes g) (step fl m vm) (next_round (run fl m n))
        (step_in-Within m vm.frames vm h)
        (λ p k. next_round-Within (run fl m n) p (run-Within m n) k)

length-nils : (n : ℕ) → length (nils n) ≡ n
length-nils zero = refl
length-nils (suc n) = ap suc (length-nils n)

-- The machine, whether it goes on or has ended.
abbrev pub machine_of : Round → Vm
machine_of (running vm) = vm
machine_of (ended vm) = vm

Goes-Limits : (g : ℕ) (p : Round) → Goes g p → Limits g 1024 (machine_of p)
unfolding Goes
Goes-Limits g (running vm) h = h
Goes-Limits g (ended vm) h = h

boot-Limits : (c : Chunk) → Limits c.num_locals 1024 (boot c)
boot-Limits c = record {
  fits = omega arith;
  capacity = omega arith;
  depth = omega arith;
  all_globals = length-nils c.num_locals;
}

-- In every state that the machine reaches from the entry chunk of a module, in any number of
-- rounds that come neither to an error, nor to an access outside of an array, nor to an
-- instruction that is not modelled, the operand stack fits its capacity, which is at most 262144,
-- there are at most 1024 frames, and there are as many globals as the chunk has locals.
pub run-boot :
    (fl : FloatOps) (m : Module) (c : Chunk) (n : ℕ) (p : Round)
    → run fl m n (boot c) ≡ went p
    → Limits c.num_locals 1024 (machine_of p)
run-boot fl m c n p e =
    Goes-Limits c.num_locals p (
      subst (Holds (Goes c.num_locals)) e (run-Within fl c.num_locals m n (boot c) (boot-Limits c)))
