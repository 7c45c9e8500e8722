-- ===== src/Compiler/Correct/Jumps.antt =====
-- The code of `and` and `or`, src/mvm_compiler.c, run by src/mvm_vm.c.
use myon.Base.{
  ℕ, suc, ◌+◌, ◌/◌, ◌%◌, ◌^◌, ◌<◌, ◌≡◌, refl, ap, Bool, true, false, not, List, [], ◌∷◌, ◌++◌,
  if◌then◌else◌, Bytes, length, arith,
}
use myon.Value.{Value, v_bool, value_truthy}
use myon.Interp.Operators.{FloatOps}
use myon.Mvm.{Module}
use myon.Mvm.Emit.{read_u16, jump_target}
use myon.Mvm.Opcode.{mop_jump_if_false, mop_jump_if_true}
use myon.Vm.Opcodes.{mop_dup, mop_pop}
use myon.Vm.State.{Frame, Vm, Outcome, went, vm_pop}
use myon.Vm.Run.{exec}
use myon.Compiler.Correct.Machine.{at_place, fetch_u16, round_at}
use myon.Compiler.Correct.Pieces.{seq-Carries, pushing-Carries}
use myon.Vm.Calls.{Round, running}
use myon.Compiler.Correct.Operators.{Carry}

-- The jump that `and` makes for false, and that `or` makes for true.
abbrev pub jump_op : Bool → ℕ
jump_op and_ = if and_ then mop_jump_if_false else mop_jump_if_true

-- The code of a logical operator behind its left operand, where the jump's operand is `w`.
abbrev pub logical_tail : Bool → ℕ → Bytes → Bytes
logical_tail and_ w seg = (mop_dup ∷ jump_op and_ ∷ w % 256 ∷ w / 256 % 256 ∷ mop_pop ∷ []) ++ seg

module _ (fl : FloatOps) (m : Module) (f : Frame) (callers : List Frame) (vm : Vm) where
  abbrev Carried : Bytes → List Value → List Value → Type 0
  Carried = Carry fl m f callers vm

  -- An instruction with its operands, or with all that it jumps over, that pushes nothing.
  silent-Carries :
      (op : ℕ) (args : Bytes) (ws us : List Value)
      → ((pre post : Bytes) (temps : List Value) (capacity : ℕ)
          → f.chunk.code ≡ pre ++ (op ∷ (args ++ post))
          → exec fl m
              (record f { ip = length pre })
              op
              (suc (length pre))
              (at_place fl m f callers vm (length pre) (ws ++ temps) capacity)
            ≡ went (
                running (
                  at_place fl m f callers vm
                    (length pre + suc (length args))
                    (us ++ temps)
                    capacity)))
      → Carried (op ∷ args) ws us
  silent-Carries op args ws us e pre post temps capacity h room = (
    capacity,
    round_at fl m f callers vm pre (ws ++ temps) capacity op (args ++ post) _ h
        (e pre post temps capacity h),
  )

  dup-Carries : (v : Value) → Carried (mop_dup ∷ []) (v ∷ []) (v ∷ v ∷ [])
  unfolding exec
  dup-Carries v =
      pushing-Carries fl m f callers vm mop_dup (v ∷ []) (v ∷ []) v (omega arith)
        (λ ip off temps capacity. refl)

  pop-Carries : (v : Value) → Carried (mop_pop ∷ []) (v ∷ []) []
  unfolding exec vm_pop
  pop-Carries v = silent-Carries mop_pop [] (v ∷ []) [] (λ pre post temps capacity h.
      let there : suc (length pre) ≡ length pre + 1 = omega arith in
      ap (λ (i : ℕ). went (running (at_place fl m f callers vm i temps capacity))) there)

  -- The state in which a round ends, at a place that is written in another way.
  arrives :
      (i j : ℕ) (temps : List Value) (capacity : ℕ)
      → i ≡ j
      → ◌≡◌ {A = Outcome Round}
          (went (running (at_place fl m f callers vm i temps capacity)))
          (went (running (at_place fl m f callers vm j temps capacity)))
  arrives i j temps capacity e =
      ap (λ (k : ℕ). went (running (at_place fl m f callers vm k temps capacity))) e

  not_taken :
      (and_ : Bool) (w : ℕ)
      → Carried (jump_op and_ ∷ w % 256 ∷ w / 256 % 256 ∷ []) (v_bool and_ ∷ []) []
  unfolding exec vm_pop value_truthy
  not_taken true w =
      silent-Carries mop_jump_if_false (w % 256 ∷ w / 256 % 256 ∷ []) (v_bool true ∷ []) []
        (λ pre post temps capacity h. arrives (suc (length pre) + 2) _ temps capacity (omega arith))
  not_taken false w =
      silent-Carries mop_jump_if_true (w % 256 ∷ w / 256 % 256 ∷ []) (v_bool false ∷ []) []
        (λ pre post temps capacity h. arrives (suc (length pre) + 2) _ temps capacity (omega arith))

  target :
      (pre rest : Bytes) (op w : ℕ)
      → w < 2 ^ 15
      → f.chunk.code ≡ pre ++ (op ∷ w % 256 ∷ w / 256 % 256 ∷ rest)
      → jump_target f.chunk.code (suc (length pre)) ≡ suc (length pre) + 2 + w
  unfolding jump_target
  target pre rest op w small h =
      let operand : read_u16 f.chunk.code (suc (length pre)) ≡ w =
        omega (arith, fetch_u16 f.chunk.code pre rest op (w % 256) (w / 256 % 256) h) in
      rw operand (ground arith)

  taken :
      (and_ : Bool) (w : ℕ) (seg : Bytes)
      → w ≡ length seg
      → w < 2 ^ 15
      → Carried (jump_op and_ ∷ w % 256 ∷ w / 256 % 256 ∷ seg) (v_bool (not and_) ∷ []) []
  unfolding exec vm_pop value_truthy
  taken true w seg e small =
      silent-Carries mop_jump_if_false (w % 256 ∷ w / 256 % 256 ∷ seg) (v_bool false ∷ []) []
        (λ pre post temps capacity h.
          arrives (jump_target f.chunk.code (suc (length pre))) _ temps capacity
            (omega (arith, target pre (seg ++ post) mop_jump_if_false w small h)))
  taken false w seg e small =
      silent-Carries mop_jump_if_true (w % 256 ∷ w / 256 % 256 ∷ seg) (v_bool true ∷ []) []
        (λ pre post temps capacity h.
          arrives (jump_target f.chunk.code (suc (length pre))) _ temps capacity
            (omega (arith, target pre (seg ++ post) mop_jump_if_true w small h)))

  -- A value below stays.
  above : (seg : Bytes) (b v : Value) → Carried seg (b ∷ []) [] → Carried seg (b ∷ v ∷ []) (v ∷ [])
  above seg b v p pre post temps capacity h room = p pre post (v ∷ temps) capacity h (omega arith)

  -- Where the left operand decides, it is the value.
  pub decided-Carries :
      (and_ : Bool) (w : ℕ) (seg : Bytes)
      → w ≡ suc (length seg)
      → w < 2 ^ 15
      → Carried (logical_tail and_ w seg) (v_bool (not and_) ∷ []) (v_bool (not and_) ∷ [])
  decided-Carries and_ w seg e small =
      let b = v_bool (not and_) in
      seq-Carries fl m f callers vm (mop_dup ∷ [])
        (jump_op and_ ∷ w % 256 ∷ w / 256 % 256 ∷ mop_pop ∷ seg) (b ∷ []) (b ∷ b ∷ []) (b ∷ [])
        (omega arith) (dup-Carries b)
        (above (jump_op and_ ∷ w % 256 ∷ w / 256 % 256 ∷ mop_pop ∷ seg) b b
          (taken and_ w (mop_pop ∷ seg) e small))

  -- Where it does not, the right one is.
  pub undecided-Carries :
      (and_ : Bool) (w : ℕ) (seg : Bytes) (v : Value)
      → Carried seg [] (v ∷ [])
      → Carried (logical_tail and_ w seg) (v_bool and_ ∷ []) (v ∷ [])
  undecided-Carries and_ w seg v p =
      let b = v_bool and_ in
      seq-Carries fl m f callers vm (mop_dup ∷ [])
        (jump_op and_ ∷ w % 256 ∷ w / 256 % 256 ∷ mop_pop ∷ seg) (b ∷ []) (b ∷ b ∷ []) (v ∷ [])
        (omega arith) (dup-Carries b)
        (seq-Carries fl m f callers vm (jump_op and_ ∷ w % 256 ∷ w / 256 % 256 ∷ []) (mop_pop ∷ seg)
          (b ∷ b ∷ []) (b ∷ []) (v ∷ []) (omega arith)
          (above (jump_op and_ ∷ w % 256 ∷ w / 256 % 256 ∷ []) b b (not_taken and_ w))
          (seq-Carries fl m f callers vm (mop_pop ∷ []) seg (b ∷ []) [] (v ∷ []) (omega arith)
            (pop-Carries b) p))
