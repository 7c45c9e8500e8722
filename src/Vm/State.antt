-- ===== src/Vm/State.antt =====
-- src/mvm_vm.c: the machine's state and its operand stack. Lists hold the top of the stack and the
-- innermost frame first; a place in the stack is counted from its bottom. Closures and cells are
-- in stores, by their addresses; the counting of references is not modelled.
use myon.Base.{
  ℕ, ◌*◌, Bool, List, [], ◌∷◌, Option, none, some, ◌==◌, ltb, leb, if◌then◌else◌, length, get_elem?,
}
use Prim.Native.String.{String}
use myon.Value.{Value, v_ref, ref_func}
use myon.Mvm.{Chunk}

-- `mvm_chunk` is the index of a chunk and 1 more, or 0 for a function of the interpreter.
pub record FuncData : Type 0 where
  pub mvm_chunk : ℕ
  pub mvm_is_async : Bool
  pub upvalues : List ℕ

-- `cells` is empty where the chunk captures nothing; `fn_slot` -1 is `none`.
pub record Frame : Type 0 where
  pub chunk : Chunk
  pub ip : ℕ
  pub base : ℕ
  pub fn_slot : Option ℕ
  pub captures : List ℕ
  pub cells : List (Option ℕ)
  pub globals_frame : Bool

pub record Vm : Type 0 where
  pub stack : List Value
  pub stack_cap : ℕ
  pub frames : List Frame
  pub keep_top_return : Bool
  pub globals : List Value
  pub heap_cells : List Value
  pub heap_funcs : List FuncData

-- `raised` is `vm_error`, with the format of its message; `undefined` is an access outside of an
-- array or an overflow that C leaves undefined, and `elsewhere` an instruction that is not modelled.
pub data Outcome {ℓ} (A : Type ℓ) : Type ℓ where
  went : A → Outcome A
  raised : String → Outcome A
  undefined : Outcome A
  elsewhere : Outcome A

abbrev pub go_on {ℓ κ} : {A : Type ℓ} {B : Type κ} → Outcome A → (A → Outcome B) → Outcome B
go_on (went a) next = next a
go_on (raised message) next = raised message
go_on undefined next = undefined
go_on elsewhere next = elsewhere

abbrev pub mvm_max_frames : ℕ
mvm_max_frames = 1024

abbrev pub mvm_stack_max : ℕ
mvm_stack_max = 262144

-- The capacity that an overfull stack grows to.
abbrev pub grown_cap : ℕ → ℕ
grown_cap capacity =
    let ncap = if capacity == 0 then 256 else capacity * 2 in
    if ltb mvm_stack_max ncap then mvm_stack_max else ncap

unfoldable pub vm_push : Vm → Value → Outcome Vm
vm_push vm v =
    let pushed = record vm { stack = v ∷ vm.stack } in
    if ltb (length vm.stack) vm.stack_cap
    then went pushed
    else if leb mvm_stack_max vm.stack_cap
    then raised "stack overflow (operand stack exceeded %d slots; recursion too deep?)"
    else went (record pushed { stack_cap = grown_cap vm.stack_cap })

abbrev pub pop_from : List Value → Vm → Outcome (Value × Vm)
pop_from [] vm = raised "internal: operand stack underflow"
pop_from (v ∷ stack) vm = went (v, record vm { stack = stack })

unfoldable pub vm_pop : Vm → Outcome (Value × Vm)
vm_pop vm = pop_from vm.stack vm

abbrev pub defined {ℓ} : {A : Type ℓ} → Option A → Outcome A
defined none = undefined
defined (some a) = went a

-- `*vm_peek(vm, back)`
abbrev pub vm_peek : Vm → ℕ → Outcome Value
vm_peek vm back = defined (get_elem? vm.stack back)

-- `vm->stack[i]`
unfoldable pub at_slot : List Value → ℕ → Option Value
at_slot [] i = none
at_slot (v ∷ stack) i = if i == length stack then some v else at_slot stack i

unfoldable pub put_slot : List Value → ℕ → Value → List Value
put_slot [] i w = []
put_slot (v ∷ stack) i w = if i == length stack then w ∷ stack else v ∷ put_slot stack i w

-- `vm_is_mvm_fn`, with the data of the closure.
abbrev pub mvm_fn : Vm → Value → Option FuncData
mvm_fn vm (v_ref ref_func a) = get_elem? vm.heap_funcs a
mvm_fn vm v = none
