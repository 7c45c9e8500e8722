-- ===== src/Compiler/Scopes.antt =====
-- src/mvm_compiler.c, scope resolution: locals, upvalues, names, and the opening and closing of
-- scopes. An answer -1 is `none`.
use myon.Base.{
  ℕ, ◌+◌, ◌-◌, Bool, true, false, ◌&&◌, List, [], ◌∷◌, ◌++◌, Option, none, some, ◌==◌, ltb, leb,
  if◌then◌else◌, Bytes, str_eq, length,
}
use myon.Vm.Opcodes.{
  mop_load_local, mop_store_local, mop_load_global, mop_store_global, mop_load_upvalue,
  mop_store_upvalue,
}
use myon.Compiler.State.{
  Local, Upvalue, FnComp, Compiler, Compiled, made, compile_error, Compiling, Action, ◌>>=◌, fail,
  asks, change_fn, scope_depth, emit_op_u16, max_locals, max_depth, max_upvalues,
}

abbrev pub local_in : List Local → Bytes → Option ℕ
local_in [] name = none
local_in (l ∷ ls) name = if str_eq l.name name then some l.slot else local_in ls name

unfoldable pub resolve_local : FnComp → Bytes → Option ℕ
resolve_local fn name = local_in fn.locals name

pub data NameKind : Type 0 where
  name_local : NameKind
  name_global : NameKind
  name_upvalue : NameKind

-- Slots are at least 0.
unfoldable pub mark_captured : ℕ → FnComp → FnComp
mark_captured slot fn =
    if ltb slot max_locals then record fn { captured_slot = slot ∷ fn.captured_slot } else fn

abbrev same_flag : Bool → Bool → Bool
same_flag true b = b
same_flag false b = if b then false else true

-- The place of an equal capture, from place `i` on.
unfoldable pub upvalue_in : List Upvalue → ℕ → Bool → ℕ → Option ℕ
upvalue_in [] index from_local i = none
upvalue_in (u ∷ us) index from_local i =
    if u.index == index && same_flag u.from_local from_local
    then some i
    else upvalue_in us index from_local (i + 1)

abbrev pub new_upvalue : Upvalue → FnComp → Option ℕ → Compiled (ℕ × FnComp)
new_upvalue u fn (some i) = made (i, fn)
new_upvalue u fn none =
    if leb max_upvalues (length fn.upvalues)
    then compile_error "too many captured variables (closures) in one function"
    else made (length fn.upvalues, record fn { upvalues = fn.upvalues ++ u ∷ [] })

unfoldable pub add_upvalue : FnComp → ℕ → Bool → Bytes → Compiled (ℕ × FnComp)
add_upvalue fn index from_local name =
    new_upvalue (record { index = index; from_local = from_local; name = name }) fn
      (upvalue_in fn.upvalues index from_local 0)

-- The answer of a search for an upvalue, with the function and those around it as they are then.
abbrev pub Searched : Type 0
Searched = Compiled (Option ℕ × (FnComp × List FnComp))

abbrev pub searched : List FnComp → Compiled (ℕ × FnComp) → Searched
searched outer (made (i, fn)) = made (some i, (fn, outer))
searched outer (compile_error message) = compile_error message
searched outer Compiled.endless = Compiled.endless
searched outer Compiled.elsewhere = Compiled.elsewhere

-- What a search in the enclosing function gives is captured once more.
abbrev pub recapture : FnComp → Bytes → Searched → Searched
recapture fn name (made (some uv, (up, outer))) =
    searched (up ∷ outer) (add_upvalue fn uv false name)
recapture fn name (made (none, (up, outer))) = made (none, (fn, up ∷ outer))
recapture fn name failed = failed

-- The local of the enclosing function `up`, which is not <main>.
abbrev pub from_enclosing : FnComp → FnComp → List FnComp → Bytes → Searched → Option ℕ → Searched
from_enclosing fn up outer name further (some slot) =
    searched (mark_captured slot up ∷ outer) (add_upvalue fn slot true name)
from_enclosing fn up outer name further none = recapture fn name further

-- The outermost function is <main>, which has no upvalues. A search in <main> for its upvalues ends
-- at once.
unfoldable pub resolve_upvalue : FnComp → List FnComp → Bytes → Searched
resolve_upvalue fn [] name = made (none, (fn, []))
resolve_upvalue fn (up ∷ []) name = made (none, (fn, up ∷ []))
resolve_upvalue fn (up ∷ over ∷ outer) name =
    from_enclosing fn up (over ∷ outer) name (resolve_upvalue up (over ∷ outer) name)
      (resolve_local up name)

-- The outermost function.
abbrev pub root : FnComp → List FnComp → FnComp
root fn [] = fn
root fn (up ∷ outer) = root up outer

abbrev pub as_global : Option ℕ → Option (NameKind × ℕ)
as_global none = none
as_global (some slot) = some (name_global, slot)

-- Only a function inside <main> has globals.
abbrev pub global_name : FnComp → List FnComp → Bytes → Option (NameKind × ℕ)
global_name fn [] name = none
global_name fn (up ∷ outer) name = as_global (resolve_local (root up outer) name)

abbrev pub or_global : Compiler → Bytes → Searched → Compiled (Option (NameKind × ℕ) × Compiler)
or_global c name (made (some uv, (fn, outer))) =
    made (some (name_upvalue, uv), record c { fn = fn; enclosing = outer })
or_global c name (made (none, (fn, outer))) =
    made (global_name fn outer name, record c { fn = fn; enclosing = outer })
or_global c name (compile_error message) = compile_error message
or_global c name Compiled.endless = Compiled.endless
or_global c name Compiled.elsewhere = Compiled.elsewhere

abbrev pub or_outer : Compiler → Bytes → Option ℕ → Compiled (Option (NameKind × ℕ) × Compiler)
or_outer c name (some slot) = made (some (name_local, slot), c)
or_outer c name none = or_global c name (resolve_upvalue c.fn c.enclosing name)

-- `NAME_NONE` is `none`.
unfoldable pub resolve_name : Bytes → Compiling (Option (NameKind × ℕ))
resolve_name name c = or_outer c name (resolve_local c.fn name)

-- The scan stops at the first local of an older scope.
abbrev current_in : List Local → ℕ → Bytes → Option ℕ
current_in [] depth name = none
current_in (l ∷ ls) depth name =
    if ltb l.depth depth
    then none
    else if str_eq l.name name
    then some l.slot
    else current_in ls depth name

unfoldable pub find_in_current_scope : FnComp → Bytes → Option ℕ
find_in_current_scope fn name = current_in fn.locals (scope_depth fn) name

abbrev outer_in : List Local → ℕ → Bytes → Option ℕ
outer_in [] depth name = none
outer_in (l ∷ ls) depth name =
    if ltb l.depth depth && str_eq l.name name then some l.slot else outer_in ls depth name

unfoldable pub find_in_outer_scope : FnComp → Bytes → Option ℕ
find_in_outer_scope fn name = outer_in fn.locals (scope_depth fn) name

abbrev pub with_local : Bytes → FnComp → FnComp
with_local name fn = record fn {
  next_slot = fn.next_slot + 1;
  max_slot = if ltb fn.max_slot (fn.next_slot + 1) then fn.next_slot + 1 else fn.max_slot;
  locals = record { name = name; depth = scope_depth fn; slot = fn.next_slot } ∷ fn.locals;
}

unfoldable pub declare_local : Bytes → Compiling ℕ
declare_local name c =
    if leb max_locals (length c.fn.locals)
    then compile_error "too many local variables in one function"
    else made (c.fn.next_slot, record c { fn = with_local name c.fn })

abbrev load_op : NameKind → ℕ
load_op name_local = mop_load_local
load_op name_global = mop_load_global
load_op name_upvalue = mop_load_upvalue

abbrev store_op : NameKind → ℕ
store_op name_local = mop_store_local
store_op name_global = mop_store_global
store_op name_upvalue = mop_store_upvalue

abbrev pub emit_var_load : ℕ → NameKind → ℕ → Action
emit_var_load line kind slot = emit_op_u16 (load_op kind) slot line

abbrev pub emit_var_store : ℕ → NameKind → ℕ → Action
emit_var_store line kind slot = emit_op_u16 (store_op kind) slot line

unfoldable pub begin_scope : Bool → Action
begin_scope is_block c =
    if leb max_depth (scope_depth c.fn + 1)
    then compile_error "block nesting too deep"
    else made
        (tt, record c { fn = record c.fn { depth_is_block = is_block ∷ c.fn.depth_is_block } })

abbrev first_is_true : List Bool → Bool
first_is_true [] = false
first_is_true (b ∷ bs) = b

unfoldable pub cur_scope_is_block : FnComp → Bool
cur_scope_is_block fn = first_is_true fn.depth_is_block

-- The locals at the depth are taken off, and their number.
unfoldable pub drop_scope : ℕ → List Local → ℕ × List Local
drop_scope depth [] = (0, [])
drop_scope depth (l ∷ ls) =
    if l.depth == depth
    then (let rest = drop_scope depth ls in (rest.0 + 1, rest.1))
    else (0, l ∷ ls)

abbrev pub tail : List Bool → List Bool
tail [] = []
tail (b ∷ bs) = bs

unfoldable pub end_scope : FnComp → FnComp
end_scope fn =
    let (dropped, left) = drop_scope (scope_depth fn) fn.locals in
    record fn {
      locals = left;
      next_slot = fn.next_slot - dropped;
      depth_is_block = tail fn.depth_is_block;
    }

abbrev pub keep_local : Local → Option (List Local) → Option (List Local)
keep_local l none = none
keep_local l (some ls) = some (l ∷ ls)

-- The newest local of the name at the depth is now one scope further out; `none` if there is none.
-- A depth of 0 stays.
unfoldable pub lower_depth : ℕ → Bytes → List Local → Option (List Local)
lower_depth depth name [] = none
lower_depth depth name (l ∷ ls) =
    if l.depth == depth && str_eq l.name name
    then some (record l { depth = l.depth - 1 } ∷ ls)
    else keep_local l (lower_depth depth name ls)

abbrev pub exposed_or_error : Option (List Local) → Action
exposed_or_error none = fail "myon.expose: '%s' is not declared in this block"
exposed_or_error (some ls) = change_fn (λ fn. record fn { locals = ls })

unfoldable pub expose_local : Bytes → Action
expose_local name = do
  lowered ← asks (λ c. lower_depth (scope_depth c.fn) name c.fn.locals)
  exposed_or_error lowered
