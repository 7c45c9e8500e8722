-- ===== src/Compiler/Balanced/Functions.antt =====
-- Functions in src/mvm_compiler.c: one is compiled inside another, and the other is as before.
use myon.Base.{
  ℕ, suc, ◌≡◌, refl, sym, ap, ◌∙◌, Bool, true, false, ◌&&◌, List, [], ◌∷◌, Option, none, some, ◌==◌,
  Bool-cases, inl, inr, Bytes, str_eq, length, arith,
}
use myon.Ast.{Param}
use myon.Mvm.{Chunk, Module}
use myon.Compiler.State.{
  Local, Upvalue, FnComp, Compiler, Compiling, ◌>>=◌, change_fn, asks, fail, scope_depth,
}
use myon.Compiler.Scopes.{lower_depth, keep_local, exposed_or_error, expose_local}
use myon.Compiler.Functions.{
  Function, enter_function, leave_function, back_to, emit_captures, emit_make_closure,
  declare_params, compile_function, compile_lambda, compile_func, compile_methods,
}
use myon.Compiler.Balanced.Rules.{
  InOrder, Shape, Fits, At, OnMade, Takes, Keeps, keeps_rules, Keeps-bind, bind-Takes,
  Keeps-on_module,
}
use myon.Compiler.Balanced.Scopes.{Keeps-declare_local}

enter_function-Takes :
    (s : Shape) (idx : ℕ) (ch : Chunk) → Takes s (([], 0) ∷ s) (enter_function idx ch)
unfolding enter_function
enter_function-Takes s idx ch = record {
  at = λ c h. (
    record {
      in_order = tt;
      next = refl;
      high = omega arith;
      few_locals = omega arith;
      few_loops = omega arith;
      shallow = omega arith;
      few_upvalues = omega arith;
    },
    refl,
    refl,
    h,
  );
}

back_to-At :
    (x : List Bool × ℕ) (s : List Bool × ℕ) (ss : Shape) (c : Compiler) (m : Module)
    (fns : List FnComp)
    → Fits fns (s ∷ ss)
    → At (s ∷ ss) (back_to c m fns)
back_to-At x s ss c m [] h = elim h [ ]
back_to-At x s ss c m (up ∷ outer) h = h

leave_function-Takes :
    (x : List Bool × ℕ) (s : List Bool × ℕ) (ss : Shape) (np nr : ℕ) (is_async : Bool)
    → Takes (x ∷ s ∷ ss) (s ∷ ss) (leave_function np nr is_async)
unfolding leave_function
leave_function-Takes x s ss np nr is_async = record {
  at = λ c (h, b, l, rest). back_to-At x s ss c _ c.enclosing rest;
}

-- It leaves the function that is compiled.
record Leaves {ℓ} {A : Type ℓ} (act : Compiling A) : Type ℓ where
  pub for :
      (x : List Bool × ℕ) (s : List Bool × ℕ) (ss : Shape)
      → x ≡ ([], 0)
      → Takes (x ∷ s ∷ ss) (s ∷ ss) act

Leaves-bind {ℓ κ} :
    {A : Type ℓ} {B : Type κ} (m : Compiling A) (k : A → Compiling B)
    → Keeps m
    → ((a : A) → Leaves (k a))
    → Leaves (m >>= k)
Leaves-bind m k p q = record {
  for = λ x s ss e. bind-Takes _ _ (p.for _) (λ a. (q a).for x s ss e);
}

-- What follows is outside again.
Leaves-end {κ} :
    {B : Type κ} (np nr : ℕ) (is_async : Bool) (k : List Upvalue → Compiling B)
    → ((us : List Upvalue) → Keeps (k us))
    → Leaves (leave_function np nr is_async >>= k)
Leaves-end np nr is_async k q = record {
  for = λ x s ss e.
      bind-Takes _ _ (leave_function-Takes x s ss np nr is_async) (λ us. (q us).for (s ∷ ss));
}

Keeps-entered {ℓ} :
    {A : Type ℓ} (idx : ℕ) (ch : Chunk) (rest : Unit {0} → Compiling A)
    → ((u : Unit {0}) → Leaves (rest u))
    → Keeps (enter_function idx ch >>= rest)
Keeps-entered idx ch rest k = record { for = go }
  where
    go : (s : Shape) → Takes s s (enter_function idx ch >>= rest)
    go [] = record { at = λ c h. elim h [ ] }
    go (s ∷ ss) =
        bind-Takes _ _ (enter_function-Takes (s ∷ ss) idx ch) (λ u. (k u).for ([], 0) s ss refl)

Keeps-declare_params : (ps : List Param) → Keeps (declare_params ps)
unfolding declare_params
Keeps-declare_params [] = search keeps_rules
Keeps-declare_params (p ∷ ps) =
    Keeps-bind _ _ (Keeps-declare_local p.name) (λ _. Keeps-declare_params ps)

Keeps-compile_function :
    (decl : Function) (dbg_name : Bytes) (self_param : Bool)
    → Keeps decl.compile_body
    → Keeps (compile_function decl dbg_name self_param)
unfolding compile_function
Keeps-compile_function decl dbg_name self_param k = Keeps-bind _ _ (Keeps-on_module _) (λ cidx.
    Keeps-entered _ _ _ (λ u. Leaves-bind _ _ (search (keeps_rules, Keeps-declare_local)) (λ _.
      Leaves-bind _ _ (Keeps-declare_params decl.params) (λ _. Leaves-bind _ _ k (λ _.
        Leaves-bind _ _ (search keeps_rules)
          (λ _. Leaves-end _ _ _ _ (λ us. search keeps_rules)))))))

Keeps-emit_captures : (line : ℕ) (us : List Upvalue) → Keeps (emit_captures line us)
unfolding emit_captures
Keeps-emit_captures line [] = search keeps_rules
Keeps-emit_captures line (u ∷ us) = Keeps-bind _ _ (search keeps_rules) (λ _.
    Keeps-bind _ _ (search keeps_rules)
      (λ _. Keeps-bind _ _ (search keeps_rules) (λ _. Keeps-emit_captures line us)))

Keeps-emit_make_closure :
    (line cidx : ℕ) (us : List Upvalue) → Keeps (emit_make_closure line cidx us)
unfolding emit_make_closure
Keeps-emit_make_closure line cidx us = search (keeps_rules, Keeps-emit_captures) depth 10

pub Keeps-compile_lambda :
    (line : ℕ) (decl : Function) → Keeps decl.compile_body → Keeps (compile_lambda line decl)
unfolding compile_lambda
Keeps-compile_lambda line decl k =
    Keeps-bind _ _ (Keeps-compile_function decl _ false k)
      (λ (cidx, upvals). Keeps-emit_make_closure line cidx upvals)

pub Keeps-compile_func :
    (line : ℕ) (decl : Function) → Keeps decl.compile_body → Keeps (compile_func line decl)
unfolding compile_func
Keeps-compile_func line decl k = Keeps-bind _ _ (Keeps-declare_local decl.name) (λ slot.
    Keeps-bind _ _ (Keeps-compile_function decl decl.name false k) (λ (cidx, upvals).
      Keeps-bind _ _ (Keeps-emit_make_closure line cidx upvals) (λ _. search keeps_rules)))

-- The bodies of all methods keep what is open.
abbrev pub BodiesKeep : List Function → Type 0
BodiesKeep [] = Unit
BodiesKeep (f ∷ fs) = Keeps f.compile_body × BodiesKeep fs

pub Keeps-compile_methods :
    (name : Bytes) (fs : List Function) → BodiesKeep fs → Keeps (compile_methods name fs)
unfolding compile_methods
Keeps-compile_methods name [] k = search keeps_rules
Keeps-compile_methods name (f ∷ fs) (kf, ks) =
    Keeps-bind _ _ (Keeps-compile_function f _ true kf) (λ _. Keeps-compile_methods name fs ks)

-- `expose` keeps the slots.
abbrev LikeLocals : List Local → Option (List Local) → Type 0
LikeLocals ls none = Unit
LikeLocals ls (some ls') = InOrder ls' × (length ls' ≡ length ls)

keep_local-LikeLocals :
    (l : Local) (ls : List Local) (o : Option (List Local))
    → l.slot ≡ length ls
    → LikeLocals ls o
    → LikeLocals (l ∷ ls) (keep_local l o)
keep_local-LikeLocals l ls none e h = tt
keep_local-LikeLocals l ls (some ls') e (o, n) = ((e ∙ sym n, o), ap suc n)

lower_depth-LikeLocals :
    (depth : ℕ) (name : Bytes) (ls : List Local)
    → InOrder ls
    → LikeLocals ls (lower_depth depth name ls)
unfolding lower_depth
lower_depth-LikeLocals depth name [] h = tt
lower_depth-LikeLocals depth name (l ∷ ls) (e, h) =
    elim (Bool-cases (l.depth == depth && str_eq l.name name)) [
      | inl here ↦ rw here ((e, h), refl)
      | inr other ↦
          rw other (keep_local-LikeLocals l ls _ e (lower_depth-LikeLocals depth name ls h))
    ]

exposed-At :
    (s : List Bool × ℕ) (ss : Shape) (c : Compiler) (o : Option (List Local))
    → LikeLocals c.fn.locals o
    → At (s ∷ ss) c
    → OnMade (λ (r : Unit {0} × Compiler). At (s ∷ ss) r.1) (exposed_or_error o c)
unfolding fail change_fn
exposed-At s ss c none k h = tt
exposed-At s ss c (some ls') (o, n) (h, b, l, rest) = (
  record {
    in_order = o;
    next = h.next ∙ sym n;
    high = h.high;
    few_locals = h.few_locals;
    few_loops = h.few_loops;
    shallow = h.shallow;
    few_upvalues = h.few_upvalues;
  },
  b,
  l,
  rest,
)

pub Keeps-expose_local : (name : Bytes) → Keeps (expose_local name)
unfolding expose_local asks ◌>>=◌
Keeps-expose_local name = record { for = go }
  where
    go : (s : Shape) → Takes s s (expose_local name)
    go [] = record { at = λ c h. elim h [ ] }
    go (s ∷ ss) = record {
      at = λ c (h, b, l, rest).
          exposed-At s ss c (lower_depth (scope_depth c.fn) name c.fn.locals)
            (lower_depth-LikeLocals (scope_depth c.fn) name c.fn.locals h.in_order) (h, b, l, rest);
    }
