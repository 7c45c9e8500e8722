-- ===== src/Compiler/Balanced/Scopes.antt =====
-- Declarations, the search for names, and the opening and closing of scopes in
-- src/mvm_compiler.c: the tables stay within their bounds, and the slots in order.
use myon.Base.{
  ℕ, ◌≤◌, ◌≡◌, Bool, false, List, [], ◌∷◌, ◌++◌, Option, none, some, ltb, leb, Bool-cases, inl, inr,
  Bytes, length, length-append, arith,
}
use myon.Compiler.State.{
  Upvalue, FnComp, Compiler, Compiled, made, compile_error, max_locals, max_upvalues,
}
use myon.Compiler.Scopes.{
  NameKind, Searched, resolve_local, mark_captured, add_upvalue, new_upvalue, searched, recapture,
  from_enclosing, resolve_upvalue, or_global, or_outer, resolve_name, declare_local, with_local,
}
use myon.Compiler.Balanced.Rules.{Shape, Fits, At, OnMade, Keeps}

declared :
    (s : Shape) (name : Bytes) (fn : FnComp) (fns : List FnComp)
    → leb max_locals (length fn.locals) ≡ false
    → Fits (fn ∷ fns) s
    → Fits (with_local name fn ∷ fns) s
declared [] name fn fns free h = h
declared (s ∷ ss) name fn fns free (h, b, l, rest) = (
  record {
    in_order = (h.next, h.in_order);
    next = omega (arith, h.next);
    high = ground (arith, h.high);
    few_locals = ground (arith, h.few_locals, h.next);
    few_loops = h.few_loops;
    shallow = h.shallow;
    few_upvalues = h.few_upvalues;
  },
  b,
  l,
  rest,
)

pub Keeps-declare_local : (name : Bytes) → Keeps (declare_local name)
unfolding declare_local
Keeps-declare_local name = record {
  for = λ s. record {
    at = λ c h. elim (Bool-cases (leb max_locals (length c.fn.locals))) [
      | inl full ↦ rw full tt
      | inr free ↦ rw free (declared s name c.fn c.enclosing free h)
    ];
  };
}

-- Captures leave the rest alone.
captures-Fits :
    (s : Shape) (fn : FnComp) (us : List Upvalue) (slots : List ℕ) (fns : List FnComp)
    → length us ≤ max_upvalues
    → Fits (fn ∷ fns) s
    → Fits (record fn { upvalues = us; captured_slot = slots } ∷ fns) s
captures-Fits [] fn us slots fns few h = h
captures-Fits (s ∷ ss) fn us slots fns few (h, b, l, rest) = (
  record {
    in_order = h.in_order;
    next = h.next;
    high = h.high;
    few_locals = h.few_locals;
    few_loops = h.few_loops;
    shallow = h.shallow;
    few_upvalues = few;
  },
  b,
  l,
  rest,
)

upvalues-few :
    (s : Shape) (fn : FnComp) (fns : List FnComp)
    → Fits (fn ∷ fns) s
    → length fn.upvalues ≤ max_upvalues
upvalues-few [] fn fns h = elim h [ ]
upvalues-few (s ∷ ss) fn fns (h, b, l, rest) = h.few_upvalues

-- The same for an answer of `resolve_upvalue`.
abbrev Found : Shape → Searched → Type 0
Found s o = OnMade (λ (r : Option ℕ × (FnComp × List FnComp)). Fits (r.1.0 ∷ r.1.1) s) o

searched-Found :
    (s : Shape) (fn : FnComp) (outer : List FnComp) (u : Upvalue) (o : Option ℕ)
    → Fits (fn ∷ outer) s
    → Found s (searched outer (new_upvalue u fn o))
searched-Found s fn outer u (some i) h = h
searched-Found s fn outer u none h = elim (Bool-cases (leb max_upvalues (length fn.upvalues))) [
  | inl full ↦ rw full tt
  | inr free ↦ rw free (
      captures-Fits s fn (fn.upvalues ++ u ∷ []) fn.captured_slot outer
        (ground (arith, length-append fn.upvalues (u ∷ []))) h)
]

-- What holds of the functions around one does so whatever the one is.
swap_inner :
    (s : List Bool × ℕ) (ss : Shape) (fn : FnComp) (fns fns' : List FnComp)
    → Fits (fn ∷ fns) (s ∷ ss)
    → Fits fns' ss
    → Fits (fn ∷ fns') (s ∷ ss)
swap_inner s ss fn fns fns' (h, b, l, rest) rest' = (h, b, l, rest')

mark_captured-Fits :
    (ss : Shape) (slot : ℕ) (up : FnComp) (fns : List FnComp)
    → Fits (up ∷ fns) ss
    → Fits (mark_captured slot up ∷ fns) ss
unfolding mark_captured
mark_captured-Fits ss slot up fns h = elim (Bool-cases (ltb slot max_locals)) [
  | inl inside ↦
      rw inside
        (captures-Fits ss up up.upvalues (slot ∷ up.captured_slot) fns (upvalues-few ss up fns h) h)
  | inr out ↦ rw out h
]

recapture-Found :
    (s : List Bool × ℕ) (ss : Shape) (fn : FnComp) (fns : List FnComp) (name : Bytes) (o : Searched)
    → Fits (fn ∷ fns) (s ∷ ss)
    → Found ss o
    → Found (s ∷ ss) (recapture fn name o)
unfolding add_upvalue
recapture-Found s ss fn fns name (made (some uv, (up, outer))) h k =
    searched-Found (s ∷ ss) fn (up ∷ outer) _ _ (swap_inner s ss fn fns (up ∷ outer) h k)
recapture-Found s ss fn fns name (made (none, (up, outer))) h k =
    swap_inner s ss fn fns (up ∷ outer) h k
recapture-Found s ss fn fns name (compile_error message) h k = tt
recapture-Found s ss fn fns name Compiled.endless h k = tt
recapture-Found s ss fn fns name Compiled.elsewhere h k = tt

from_enclosing-Found :
    (s : List Bool × ℕ) (ss : Shape) (fn up : FnComp) (outer : List FnComp) (name : Bytes)
    (further : Searched) (o : Option ℕ)
    → Fits (fn ∷ up ∷ outer) (s ∷ ss)
    → Found ss further
    → Found (s ∷ ss) (from_enclosing fn up outer name further o)
unfolding add_upvalue
from_enclosing-Found s ss fn up outer name further (some slot) (h, b, l, rest) k =
    searched-Found (s ∷ ss) fn (mark_captured slot up ∷ outer) _ _
      (h, b, l, mark_captured-Fits ss slot up outer rest)
from_enclosing-Found s ss fn up outer name further none h k =
    recapture-Found s ss fn (up ∷ outer) name further h k

resolve_upvalue-Found :
    (s : Shape) (fn : FnComp) (outer : List FnComp) (name : Bytes)
    → Fits (fn ∷ outer) s
    → Found s (resolve_upvalue fn outer name)
unfolding resolve_upvalue
resolve_upvalue-Found s fn [] name h = h
resolve_upvalue-Found s fn (up ∷ []) name h = h
resolve_upvalue-Found [] fn (up ∷ over ∷ outer) name h = elim h [ ]
resolve_upvalue-Found (s ∷ ss) fn (up ∷ over ∷ outer) name (h, b, l, rest) =
    from_enclosing-Found s ss fn up (over ∷ outer) name (resolve_upvalue up (over ∷ outer) name)
      (resolve_local up name) (h, b, l, rest) (resolve_upvalue-Found ss up (over ∷ outer) name rest)

or_global-Found :
    (s : Shape) (c : Compiler) (name : Bytes) (o : Searched)
    → Found s o
    → OnMade (λ (r : Option (NameKind × ℕ) × Compiler). At s r.1) (or_global c name o)
or_global-Found s c name (made (some uv, (fn, outer))) h = h
or_global-Found s c name (made (none, (fn, outer))) h = h
or_global-Found s c name (compile_error message) h = tt
or_global-Found s c name Compiled.endless h = tt
or_global-Found s c name Compiled.elsewhere h = tt

or_outer-Found :
    (s : Shape) (c : Compiler) (name : Bytes) (o : Option ℕ)
    → At s c
    → OnMade (λ (r : Option (NameKind × ℕ) × Compiler). At s r.1) (or_outer c name o)
or_outer-Found s c name (some slot) h = h
or_outer-Found s c name none h =
    or_global-Found s c name (resolve_upvalue c.fn c.enclosing name)
      (resolve_upvalue-Found s c.fn c.enclosing name h)

pub Keeps-resolve_name : (name : Bytes) → Keeps (resolve_name name)
unfolding resolve_name
Keeps-resolve_name name = record {
  for = λ s. record { at = λ c h. or_outer-Found s c name (resolve_local c.fn name) h };
}
