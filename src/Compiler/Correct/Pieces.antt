-- ===== src/Compiler/Correct/Pieces.antt =====
-- The pieces of code that src/mvm_compiler.c emits for an expression, run by src/mvm_vm.c.
use myon.Base.{
  ℕ, suc, ◌+◌, ◌/◌, ◌%◌, ◌^◌, ◌<◌, ◌≡◌, refl, sym, ap, ◌∙◌, false, List, [], ◌∷◌, ◌++◌,
  append_assoc, Option, none, some, leb, if◌then◌else◌, Bool-cases, inl, inr, Bytes, length,
  length-append, get_elem?, arith, ◌≤◌, ◌==◌,
}
use mathlib.Core.Path.{subst}
use myon.Value.{Value}
use myon.Interp.Operators.{FloatOps}
use myon.Mvm.{Module, ConstEntry}
use myon.Mvm.Emit.{read_u16}
use myon.Mvm.Opcode.{mop_push_const}
use myon.Vm.Opcodes.{mop_load_local}
use myon.Vm.State.{Frame, Vm, vm_push, at_slot}
use myon.Vm.Variables.{go_to, const_value, load_slot, load_local, cell_of}
use myon.Vm.Run.{exec, going}
use myon.Compiler.Correct.Machine.{
  Reaches, Reaches-trans, at_place, fetch_u16, pushed_at, Carries, Pushes,
}

-- What a local holds, in its cell, among the globals or on the stack.
abbrev pub slot_value : Frame → Vm → ℕ → Option ℕ → Option Value
slot_value f vm slot (some cell) = get_elem? vm.heap_cells cell
slot_value f vm slot none =
    if f.globals_frame then get_elem? vm.globals slot else at_slot vm.stack (f.base + slot)

abbrev pub local_value : Frame → Vm → ℕ → Option Value
local_value f vm slot = slot_value f vm slot (cell_of f slot)

at_slot-lt : (vs : List Value) (i : ℕ) (v : Value) → at_slot vs i ≡ some v → i < length vs
unfolding at_slot
at_slot-lt [] i v h = absurd (cc)
at_slot-lt (w ∷ vs) i v h = elim (Bool-cases (i == length vs)) [
  | inl here ↦ ground arith
  | inr there ↦
      let found : at_slot vs i ≡ some v = ground arith in omega (arith, at_slot-lt vs i v found)
]

-- Values on top leave the places below as they are.
at_slot-append :
    (ws vs : List Value) (i : ℕ) (v : Value) → at_slot vs i ≡ some v → at_slot (ws ++ vs) i ≡ some v
unfolding at_slot
at_slot-append [] vs i v h = h
at_slot-append (w ∷ ws) vs i v h =
    let below : i < length vs = at_slot-lt vs i v h in
    let apart : (i == length (ws ++ vs)) ≡ false = ground (arith, length-append ws vs) in
    rw apart (at_slot-append ws vs i v h)

module _ (fl : FloatOps) (m : Module) (f : Frame) (callers : List Frame) (vm : Vm) where
  abbrev pub Leads : ℕ → List Value → ℕ → ℕ → List Value → Type 0
  Leads ip temps capacity ip' temps' =
      (capacity' : ℕ) × Reaches fl m (at_place fl m f callers vm ip temps capacity)
        (at_place fl m f callers vm ip' temps' capacity')

  -- `Leads` to a place that is written in another way.
  pub Leads-to :
      (ip ip' ip'' : ℕ) (temps temps' : List Value) (capacity capacity' : ℕ)
      → ip' ≡ ip''
      → Reaches fl m
          (at_place fl m f callers vm ip temps capacity)
          (at_place fl m f callers vm ip' temps' capacity')
      → Leads ip temps capacity ip'' temps'
  Leads-to ip ip' ip'' temps temps' capacity capacity' e r = (
    capacity',
    subst
        (λ (i : ℕ).
          Reaches fl m (at_place fl m f callers vm ip temps capacity)
            (at_place fl m f callers vm i temps' capacity'))
        (e) r,
  )

  Leads-from :
      (ip' ip ip'' : ℕ) (temps temps' : List Value) (capacity capacity' : ℕ)
      → ip' ≡ ip
      → Reaches fl m
          (at_place fl m f callers vm ip' temps capacity)
          (at_place fl m f callers vm ip'' temps' capacity')
      → Reaches fl m
          (at_place fl m f callers vm ip temps capacity)
          (at_place fl m f callers vm ip'' temps' capacity')
  Leads-from ip' ip ip'' temps temps' capacity capacity' e r =
      subst
        (λ (i : ℕ).
          Reaches fl m (at_place fl m f callers vm i temps capacity)
            (at_place fl m f callers vm ip'' temps' capacity'))
        (e) r

  pub seq-Carries :
      (seg seg' : Bytes) (ws us vs : List Value)
      → length us ≤ length ws + length seg
      → Carries fl m f callers vm seg ws us
      → Carries fl m f callers vm seg' us vs
      → Carries fl m f callers vm (seg ++ seg') ws vs
  seq-Carries seg seg' ws us vs fits p p' pre post temps capacity h room =
      let size : length (seg ++ seg') ≡ length seg + length seg' = length-append seg seg' in
      let whole : length (pre ++ seg) ≡ length pre + length seg = length-append pre seg in
      let front : f.chunk.code ≡ pre ++ (seg ++ (seg' ++ post)) =
        h ∙ ap (λ (s : Bytes). pre ++ s) (append_assoc seg seg' post) in
      let rear : f.chunk.code ≡ (pre ++ seg) ++ (seg' ++ post) =
        front ∙ sym (append_assoc pre seg (seg' ++ post)) in
      let (c', r) = p pre (seg' ++ post) temps capacity front (omega arith) in
      let (c'', r') = p' (pre ++ seg) post temps c' rear (omega arith) in
      let there : length pre + length seg ≡ length (pre ++ seg) = omega arith in
      let ended : length (pre ++ seg) + length seg' ≡ length pre + length (seg ++ seg') =
        omega arith in
      Leads-to (length pre) (length (pre ++ seg) + length seg') _ (ws ++ temps) (vs ++ temps)
        capacity c'' ended
        (Reaches-trans fl m r (
          Leads-from (length (pre ++ seg)) (length pre + length seg) _ (us ++ temps) (vs ++ temps)
            c' c'' (sym there) r'))

  -- An instruction without operands that takes `ws` for `us` and pushes `v`.
  pub pushing-Carries :
      (op : ℕ) (ws us : List Value) (v : Value)
      → length us ≤ length ws
      → ((ip off : ℕ) (temps : List Value) (capacity : ℕ)
          → exec fl m
              (record f { ip = ip })
              op
              off
              (at_place fl m f callers vm ip (ws ++ temps) capacity)
            ≡ going (vm_push (at_place fl m f callers vm off (us ++ temps) capacity) v))
      → Carries fl m f callers vm (op ∷ []) ws (v ∷ us)
  pushing-Carries op ws us v fits e pre post temps capacity h room =
      Leads-to (length pre) (suc (length pre)) _ (ws ++ temps) (v ∷ (us ++ temps)) capacity _
        (omega arith)
        (pushed_at fl m f callers vm pre (ws ++ temps) (us ++ temps) capacity op (suc (length pre))
          post v h (omega (arith, length-append us temps))
          (e (length pre) (suc (length pre)) temps capacity))

  pub literal-Pushes :
      (op : ℕ) (v : Value)
      → ((g : Frame) (off : ℕ) (vm' : Vm)
          → exec fl m g op off vm' ≡ going (vm_push (go_to off vm') v))
      → Pushes fl m f callers vm (op ∷ []) v
  literal-Pushes op v e pre post temps capacity h room =
      Leads-to (length pre) (suc (length pre)) _ temps (v ∷ temps) capacity _ (omega arith) (
        pushed_at fl m f callers vm pre temps temps capacity op (suc (length pre)) post v h
          (omega arith) (e _ _ _))

  -- An instruction with the operand `w`.
  operand-Pushes :
      (op w : ℕ) (v : Value)
      → w < 2 ^ 16
      → ((ip off : ℕ) (temps : List Value) (capacity : ℕ)
          → read_u16 f.chunk.code off ≡ w
          → exec fl m (record f { ip = ip }) op off (at_place fl m f callers vm ip temps capacity)
            ≡ going (vm_push (at_place fl m f callers vm (off + 2) temps capacity) v))
      → Pushes fl m f callers vm (op ∷ w % 256 ∷ w / 256 % 256 ∷ []) v
  operand-Pushes op w v small e pre post temps capacity h room =
      let operand : read_u16 f.chunk.code (suc (length pre)) ≡ w =
        omega (arith, fetch_u16 f.chunk.code pre post op (w % 256) (w / 256 % 256) h) in
      Leads-to (length pre) (suc (length pre) + 2) _ temps (v ∷ temps) capacity _ (omega arith) (
        pushed_at fl m f callers vm pre temps temps capacity op (suc (length pre) + 2)
          (w % 256 ∷ w / 256 % 256 ∷ post) v h (omega arith)
          (e (length pre) (suc (length pre)) temps capacity operand))

  pub const-Pushes :
      (w : ℕ) (c : ConstEntry)
      → w < 2 ^ 16
      → length m.consts < 2 ^ 16
      → get_elem? m.consts w ≡ some c
      → w < length m.consts
      → Pushes fl m f callers vm (mop_push_const ∷ w % 256 ∷ w / 256 % 256 ∷ []) (const_value c)
  unfolding exec
  const-Pushes w c small few found inside =
      operand-Pushes mop_push_const w (const_value c) small (λ ip off temps capacity operand.
        let inside' : leb (length m.consts % 2 ^ 16) w ≡ false = ground arith in
        rw (operand, inside', found) refl)

  load_slot-at_place :
      (ip off : ℕ) (temps : List Value) (capacity w : ℕ) (v : Value) (cell : Option ℕ)
      → slot_value f vm w cell ≡ some v
      → load_slot
          (record f { ip = ip })
          w
          cell
          (at_place fl m f callers vm (off + 2) temps capacity)
        ≡ vm_push (at_place fl m f callers vm (off + 2) temps capacity) v
  load_slot-at_place ip off temps capacity w v (some cell) found = rw found refl
  load_slot-at_place ip off temps capacity w v none found = elim (Bool-cases f.globals_frame) [
    | inl g ↦ rw (g, (rw g at found)) refl
    | inr g ↦ rw (g, at_slot-append temps vm.stack (f.base + w) v (rw g at found)) refl
  ]

  pub local-Pushes :
      (w : ℕ) (v : Value)
      → w < 2 ^ 16
      → local_value f vm w ≡ some v
      → Pushes fl m f callers vm (mop_load_local ∷ w % 256 ∷ w / 256 % 256 ∷ []) v
  unfolding exec load_local
  local-Pushes w v small found =
      operand-Pushes mop_load_local w v small (λ ip off temps capacity operand.
        rw operand (ap going (load_slot-at_place ip off temps capacity w v (cell_of f w) found)))
