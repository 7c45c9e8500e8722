-- ===== src/Vm/Sharing.antt =====
-- src/mvm_vm.c: a captured local and the closure's upvalue are one variable.
use myon.Base.{
  ℕ, zero, suc, ◌+◌, ◌*◌, ◌<◌, ◌≡◌, refl, sym, ap, ◌∙◌, Bool, List, [], ◌∷◌, Option, none, some,
  ==_iff, if◌then◌else◌, length, get_elem?, get_or, set, arith,
}
use mathlib.Core.Path.{subst, fun_ext}
use myon.Value.{Value}
use myon.Mvm.Emit.{read_u16}
use myon.Vm.State.{Frame, Vm, Outcome, went, raised, undefined, elsewhere, go_on, vm_push, vm_pop}
use myon.Vm.Variables.{
  cell_of, load_cell, store_cell, load_slot, load_local, store_slot, store_local, upvalue_or_error,
  load_upvalue, store_upvalue,
}
use myon.Vm.Run.{capture_or_error, capture, captures_at}

get_elem?-set :
    (vs : List Value) (i : ℕ) (w : Value) → i < length vs → get_elem? (set vs i w) i ≡ some w
get_elem?-set [] i w h = elim h [ ]
get_elem?-set (v ∷ vs) zero w h = refl
get_elem?-set (v ∷ vs) (suc i) w h = get_elem?-set vs i w (omega arith)

-- The operands of a capture.
abbrev pub kind_at : Frame → ℕ → ℕ
kind_at f off = get_or f.chunk.code off 0

abbrev pub index_at : Frame → ℕ → ℕ
index_at f off = read_u16 f.chunk.code (off + 1)

abbrev Captured : Frame → ℕ → List ℕ → Type 0
Captured f off [] = Unit
Captured f off (cell ∷ cells) =
    (capture f (kind_at f off) (index_at f off) ≡ some cell) × Captured f (off + 3) cells

abbrev Captures : Frame → ℕ → Outcome (List ℕ) → Type 0
Captures f off (went cells) = Captured f off cells
Captures f off (raised message) = Unit
Captures f off undefined = Unit
Captures f off elsewhere = Unit

cons-Captures :
    (f : Frame) (off cell : ℕ) (o : Outcome (List ℕ))
    → capture f (kind_at f off) (index_at f off) ≡ some cell
    → Captures f (off + 3) o
    → Captures f off (go_on o (λ (cells : List ℕ). went (cell ∷ cells)))
cons-Captures f off cell (went cells) e h = (e, h)
cons-Captures f off cell (raised message) e h = tt
cons-Captures f off cell undefined e h = tt
cons-Captures f off cell elsewhere e h = tt

captures_at-Captures : (f : Frame) (n off : ℕ) → Captures f off (captures_at f n off)
captures_at-Captures f zero off = tt
captures_at-Captures f (suc n) off =
    found (capture f (kind_at f off) (index_at f off)) refl (captures_at f n (off + 3))
      (captures_at-Captures f n (off + 3))
  where
    found :
        (o : Option ℕ)
        → capture f (kind_at f off) (index_at f off) ≡ o
        → (rest : Outcome (List ℕ)) → Captures f (off + 3) rest
        → Captures f off (
            capture_or_error
              (kind_at f off)
              o
              (λ cell. go_on rest (λ (cells : List ℕ). went (cell ∷ cells))))
    found none e rest h = tt
    found (some cell) e rest h = cons-Captures f off cell rest e h

Captured-at :
    (f : Frame) (off i cell : ℕ) (cells : List ℕ)
    → Captured f off cells
    → get_elem? cells i ≡ some cell
    → capture f (kind_at f (off + 3 * i)) (index_at f (off + 3 * i)) ≡ some cell
Captured-at f off i cell [] h e = ground arith
Captured-at f off zero cell (c ∷ cells) (here, h) e =
    let same : off + 3 * 0 ≡ off = omega arith in rw same (here ∙ e)
Captured-at f off (suc i) cell (c ∷ cells) (here, h) e =
    let same : off + 3 * suc i ≡ off + 3 + 3 * i = omega arith in
    rw same (Captured-at f (off + 3) i cell cells h e)

-- What is stored in a cell is what is loaded from it next.
store_cell-load_cell :
    (cell : ℕ) (vm : Vm) (v : Value) (stack : List Value)
    → vm.stack ≡ v ∷ stack
    → cell < length vm.heap_cells
    → go_on (store_cell cell vm) (λ after. load_cell after cell)
      ≡ go_on (store_cell cell vm) (λ after. vm_push after v)
unfolding vm_pop
store_cell-load_cell cell vm v stack top h = rw (top, get_elem?-set vm.heap_cells cell v h) refl

store_upvalue-cell :
    (h : Frame) (i cell : ℕ) (vm : Vm)
    → get_elem? h.captures i ≡ some cell
    → store_upvalue h i vm ≡ store_cell cell vm
unfolding store_upvalue
store_upvalue-cell h i cell vm e =
    ap (λ (o : Option ℕ). upvalue_or_error o (λ c. store_cell c vm)) e

load_upvalue-cell :
    (h : Frame) (i cell : ℕ) (vm : Vm)
    → get_elem? h.captures i ≡ some cell
    → load_upvalue h i vm ≡ load_cell vm cell
unfolding load_upvalue
load_upvalue-cell h i cell vm e = ap (λ (o : Option ℕ). upvalue_or_error o (load_cell vm)) e

load_local-cell :
    (f : Frame) (slot cell : ℕ) (vm : Vm)
    → cell_of f slot ≡ some cell
    → load_local f slot vm ≡ load_cell vm cell
unfolding load_local
load_local-cell f slot cell vm e = ap (λ (o : Option ℕ). load_slot f slot o vm) e

store_local-cell :
    (f : Frame) (slot cell : ℕ) (vm : Vm)
    → cell_of f slot ≡ some cell
    → store_local f slot vm ≡ store_cell cell vm
unfolding store_local
store_local-cell f slot cell vm e = ap (λ (o : Option ℕ). store_slot f slot o vm) e

-- Whatever instructions write to the cell and read it, the value gets through.
through_cell :
    (cell : ℕ) (vm : Vm) (v : Value) (stack : List Value) (store : Outcome Vm)
    (load : Vm → Outcome Vm)
    → vm.stack ≡ v ∷ stack
    → cell < length vm.heap_cells
    → store ≡ store_cell cell vm
    → ((after : Vm) → load after ≡ load_cell after cell)
    → go_on store load ≡ go_on store (λ after. vm_push after v)
through_cell cell vm v stack store load top h stores loads =
    ap (λ (o : Outcome Vm). go_on o load) stores
    ∙ ap (go_on (store_cell cell vm)) (fun_ext loads)
    ∙ store_cell-load_cell cell vm v stack top h
    ∙ ap (λ (o : Outcome Vm). go_on o (λ after. vm_push after v)) (sym stores)

-- If a closure captures a local of a frame, what a frame of the closure stores in its upvalue is
-- what the first frame loads from the local next, and the other way round.
pub captured_local_lem :
    (f h : Frame) (n off i cell : ℕ) (cells : List ℕ) (vm : Vm) (v : Value) (stack : List Value)
    → captures_at f n off ≡ went cells
    → get_elem? cells i ≡ some cell
    → kind_at f (off + 3 * i) ≡ 1
    → h.captures ≡ cells
    → vm.stack ≡ v ∷ stack
    → cell < length vm.heap_cells
    → (go_on (store_upvalue h i vm) (load_local f (index_at f (off + 3 * i)))
        ≡ go_on (store_upvalue h i vm) (λ after. vm_push after v))
      × (go_on (store_local f (index_at f (off + 3 * i)) vm) (load_upvalue h i)
          ≡ go_on (store_local f (index_at f (off + 3 * i)) vm) (λ after. vm_push after v))
captured_local_lem f h n off i cell cells vm v stack captured at kind inner top small =
    let slot = index_at f (off + 3 * i) in
    let taken =
      Captured-at f off i cell cells
        (subst (Captures f off) captured (captures_at-Captures f n off)) at in
    let local : cell_of f slot ≡ some cell =
      local_capture f (kind_at f (off + 3 * i)) slot cell kind taken in
    let upvalue : get_elem? h.captures i ≡ some cell =
      ap (λ (cs : List ℕ). get_elem? cs i) inner ∙ at in
    (
      through_cell cell vm v stack (store_upvalue h i vm) (load_local f slot) top small
          (store_upvalue-cell h i cell vm upvalue)
          (λ after. load_local-cell f slot cell after local),
      through_cell cell vm v stack (store_local f slot vm) (load_upvalue h i) top small
          (store_local-cell f slot cell vm local)
          (λ after. load_upvalue-cell h i cell after upvalue),
    )
  where
    local_capture :
        (f : Frame) (kind slot cell : ℕ)
        → kind ≡ 1
        → capture f kind slot ≡ some cell
        → cell_of f slot ≡ some cell
    local_capture f kind slot cell e t =
        ap (λ (b : Bool). if b then cell_of f slot else get_elem? f.captures slot)
          (sym ((==_iff kind 1).1 e))
        ∙ t
