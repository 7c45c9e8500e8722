-- ===== src/Vm/Frames.antt =====
-- src/mvm_vm.c: what a call and a return do to the operand stack.
use myon.Base.{ℕ, zero, suc, List, ◌∷◌}
use myon.Value.{Value, v_nil}
use myon.Vm.State.{Vm}

abbrev pub with_stack : Vm → List Value → Vm
with_stack vm stack = record vm { stack = stack }

abbrev nils_on : ℕ → List Value → List Value
nils_on zero stack = stack
nils_on (suc n) stack = nils_on n (v_nil ∷ stack)
