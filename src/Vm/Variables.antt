-- ===== src/Vm/Variables.antt =====
-- src/mvm_vm.c: the instructions for constants, variables and jumps. A byte behind the code reads
-- as 0.
use myon.Base.{
  ℕ, ◌+◌, ◌%◌, ◌^◌, Bool, not, [], ◌∷◌, Option, none, some, ltb, leb, if◌then◌else◌, Bytes, length,
  get_elem?, get_or, set,
}
use myon.Value.{Value, v_int, v_float, v_bool, v_nil, v_str, value_truthy}
use myon.Mvm.{Module, ConstEntry, int, float, str, bool, nil, typespec}
use myon.Mvm.Emit.{jump_target}
use myon.Vm.State.{
  Frame, Vm, Outcome, went, raised, undefined, go_on, vm_push, vm_pop, defined, vm_peek, at_slot,
  put_slot,
}

-- The value of a constant; that of a type descriptor is nil.
abbrev pub const_value : ConstEntry → Value
const_value (int i) = v_int i
const_value (float d) = v_float d
const_value (str s) = v_str s
const_value (bool b) = v_bool b
const_value nil = v_nil
const_value (typespec t) = v_nil

-- The innermost frame goes on at `ip`.
abbrev pub go_to : ℕ → Vm → Vm
go_to ip vm = elim vm.frames [
  | [] ↦ vm
  | f ∷ callers ↦ record vm { frames = record f { ip = ip } ∷ callers }
]

-- `(uint16_t) count` is what an index is compared with.
abbrev pub push_const : Module → ℕ → Vm → Outcome Vm
push_const m idx vm =
    if leb (length m.consts % 2 ^ 16) idx
    then raised "internal: const index %u out of range"
    else go_on (defined (get_elem? m.consts idx)) (λ (c : ConstEntry). vm_push vm (const_value c))

abbrev pub pop_value : Vm → Outcome Vm
pop_value vm = go_on (vm_pop vm) (λ (r : Value × Vm). went r.1)

abbrev pub dup : Vm → Outcome Vm
dup vm = go_on (vm_peek vm 0) (vm_push vm)

-- `f->cells && f->cells[slot]`; there is no cell behind the last local.
abbrev pub cell_of : Frame → ℕ → Option ℕ
cell_of f slot = get_or f.cells slot none

abbrev pub load_cell : Vm → ℕ → Outcome Vm
load_cell vm cell = go_on (defined (get_elem? vm.heap_cells cell)) (vm_push vm)

abbrev pub store_cell : ℕ → Vm → Outcome Vm
store_cell cell vm = go_on (vm_pop vm) (λ (r : Value × Vm).
    let after = r.1 in went (record after { heap_cells = set after.heap_cells cell r.0 }))

abbrev pub load_slot : Frame → ℕ → Option ℕ → Vm → Outcome Vm
load_slot f slot (some cell) vm = load_cell vm cell
load_slot f slot none vm =
    go_on
      (defined
        (if f.globals_frame then get_elem? vm.globals slot else at_slot vm.stack (f.base + slot)))
      (vm_push vm)

unfoldable pub load_local : Frame → ℕ → Vm → Outcome Vm
load_local f slot vm = load_slot f slot (cell_of f slot) vm

abbrev pub in_bounds : ℕ → ℕ → Vm → Outcome Vm
in_bounds i n vm = if ltb i n then went vm else undefined

abbrev pub store_plain : Frame → ℕ → Value × Vm → Outcome Vm
store_plain f slot (v, vm) =
    if f.globals_frame
    then in_bounds slot (length vm.globals) (record vm { globals = set vm.globals slot v })
    else in_bounds (f.base + slot) (length vm.stack)
        (record vm { stack = put_slot vm.stack (f.base + slot) v })

abbrev pub store_slot : Frame → ℕ → Option ℕ → Vm → Outcome Vm
store_slot f slot (some cell) vm = store_cell cell vm
store_slot f slot none vm = go_on (vm_pop vm) (store_plain f slot)

unfoldable pub store_local : Frame → ℕ → Vm → Outcome Vm
store_local f slot vm = store_slot f slot (cell_of f slot) vm

abbrev pub upvalue_or_error : Option ℕ → (ℕ → Outcome Vm) → Outcome Vm
upvalue_or_error none next = raised "internal: bad upvalue index %u"
upvalue_or_error (some cell) next = next cell

unfoldable pub load_upvalue : Frame → ℕ → Vm → Outcome Vm
load_upvalue f idx vm = upvalue_or_error (get_elem? f.captures idx) (load_cell vm)

unfoldable pub store_upvalue : Frame → ℕ → Vm → Outcome Vm
store_upvalue f idx vm = upvalue_or_error (get_elem? f.captures idx) (λ cell. store_cell cell vm)

abbrev pub in_globals : Vm → ℕ → Outcome Vm → Outcome Vm
in_globals vm slot next =
    if leb (length vm.globals % 2 ^ 16) slot
    then raised "internal: global slot %u out of range"
    else next

abbrev pub load_global : ℕ → Vm → Outcome Vm
load_global slot vm = in_globals vm slot (go_on (defined (get_elem? vm.globals slot)) (vm_push vm))

abbrev pub store_global : ℕ → Vm → Outcome Vm
store_global slot vm = in_globals vm slot (
    go_on (vm_pop vm) (λ (r : Value × Vm).
      let after = r.1 in went (record after { globals = set after.globals slot r.0 })))

-- A conditional jump with its operand at `off`, taken for one truth value.
abbrev pub jump_when : Bool → Bytes → ℕ → Vm → Outcome Vm
jump_when taken code off vm = go_on (vm_pop vm) (λ (r : Value × Vm).
    let truth = value_truthy r.0 in
    went (
      if (if taken then truth else not truth)
      then go_to (jump_target code off) r.1
      else go_to (off + 2) r.1))
