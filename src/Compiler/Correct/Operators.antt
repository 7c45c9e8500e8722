-- ===== src/Compiler/Correct/Operators.antt =====
-- The code of operators, src/mvm_compiler.c, run by src/mvm_vm.c.
use myon.Base.{
  ℕ, ◌<◌, ◌≡◌, ◌≢◌, refl, ◌∙◌, List, [], ◌∷◌, ◌++◌, Bytes, length, length-append, arith,
}
use myon.Value.{Value}
use myon.Interp.Ints.{
  value, OpKind, op_add, op_sub, op_mul, op_div, op_eq, op_neq, op_lt, op_gt, op_le, op_ge,
}
use myon.Interp.Operators.{FloatOps, eval_binary, myon_bridge_neg, myon_bridge_not}
use myon.Mvm.{Module}
use myon.Mvm.Opcode.{mop_nop}
use myon.Vm.Opcodes.{mop_neg, mop_not}
use myon.Vm.State.{Frame, Vm, vm_pop}
use myon.Vm.Variables.{go_to}
use myon.Vm.Run.{exec, going}
use myon.Compiler.Calls.{binary_opcode}
use myon.Compiler.Correct.Machine.{Carries}
use myon.Compiler.Correct.Pieces.{seq-Carries, pushing-Carries}
use myon.Vm.Run.{binary}
use myon.Vm.Variables.{go_to}

-- The instruction of a binary operator applies it.
exec-binary :
    (fl : FloatOps) (m : Module) (g : Frame) (op : OpKind) (off : ℕ) (vm : Vm)
    → binary_opcode op ≢ mop_nop
    → exec fl m g (binary_opcode op) off vm ≡ going (binary (eval_binary fl op) (go_to off vm))
unfolding exec binary_opcode
exec-binary fl m g op_add off vm known = refl
exec-binary fl m g op_sub off vm known = refl
exec-binary fl m g op_mul off vm known = refl
exec-binary fl m g op_div off vm known = refl
exec-binary fl m g op_eq off vm known = refl
exec-binary fl m g op_neq off vm known = refl
exec-binary fl m g op_lt off vm known = refl
exec-binary fl m g op_gt off vm known = refl
exec-binary fl m g op_le off vm known = refl
exec-binary fl m g op_ge off vm known = refl
exec-binary fl m g _ off vm known = absurd (known refl)

module _ (fl : FloatOps) (m : Module) (f : Frame) (callers : List Frame) (vm : Vm) where
  abbrev pub Carry : Bytes → List Value → List Value → Type 0
  Carry = Carries fl m f callers vm

  -- A value may be computed on top of others.
  pub on_top :
      (seg : Bytes) (ws : List Value) (v : Value) → Carry seg [] (v ∷ []) → Carry seg ws (v ∷ ws)
  on_top seg ws v p pre post temps capacity h room =
      p pre post (ws ++ temps) capacity h (omega (arith, length-append ws temps))

  pub neg-Carries :
      (seg : Bytes) (a v : Value)
      → 0 < length seg
      → myon_bridge_neg fl a ≡ value v
      → Carry seg [] (a ∷ [])
      → Carry (seg ++ (mop_neg ∷ [])) [] (v ∷ [])
  unfolding exec vm_pop
  neg-Carries seg a v some_ e p =
      seq-Carries fl m f callers vm seg (mop_neg ∷ []) [] (a ∷ []) (v ∷ []) (omega arith) p (
        pushing-Carries fl m f callers vm mop_neg (a ∷ []) [] v (omega arith)
          (λ ip off temps capacity. rw e refl))

  pub not-Carries :
      (seg : Bytes) (a v : Value)
      → 0 < length seg
      → myon_bridge_not a ≡ value v
      → Carry seg [] (a ∷ [])
      → Carry (seg ++ (mop_not ∷ [])) [] (v ∷ [])
  unfolding exec vm_pop
  not-Carries seg a v some_ e p =
      seq-Carries fl m f callers vm seg (mop_not ∷ []) [] (a ∷ []) (v ∷ []) (omega arith) p (
        pushing-Carries fl m f callers vm mop_not (a ∷ []) [] v (omega arith)
          (λ ip off temps capacity. rw e refl))

  pub binary-Carries :
      (seg seg' : Bytes) (op : OpKind) (a b v : Value)
      → 0 < length seg
      → 0 < length seg'
      → binary_opcode op ≢ mop_nop
      → eval_binary fl op a b ≡ value v
      → Carry seg [] (a ∷ [])
      → Carry seg' [] (b ∷ [])
      → Carry ((seg ++ seg') ++ (binary_opcode op ∷ [])) [] (v ∷ [])
  unfolding vm_pop
  binary-Carries seg seg' op a b v some_ some' known e p p' =
      seq-Carries fl m f callers vm (seg ++ seg') (binary_opcode op ∷ []) [] (b ∷ a ∷ []) (v ∷ [])
        (omega (arith, length-append seg seg'))
        (seq-Carries fl m f callers vm seg seg' [] (a ∷ []) (b ∷ a ∷ []) (omega arith) p
          (on_top seg' (a ∷ []) b p'))
        (pushing-Carries fl m f callers vm (binary_opcode op) (b ∷ a ∷ []) [] v (omega arith)
          (λ ip off temps capacity. exec-binary fl m _ op off _ known ∙ (rw e refl)))
