-- ===== src/Compiler/Correct/Expressions.antt =====
-- compile_expr of src/mvm_compiler.c on expressions of literals, locals and operators.
use myon.Base.{
  ℕ, zero, suc, ◌+◌, ◌/◌, ◌%◌, ◌^◌, ◌<◌, ◌≡◌, ◌≢◌, ◌⊎◌, refl, sym, ap, ◌∙◌, true, false, ◌||◌, List,
  [], ◌∷◌, ◌++◌, append_assoc, append-nil, Option, none, some, Bytes, length, length-append,
  get_elem?, get_elem?-append_left, arith,
}
use mathlib.Core.Path.{subst}
use myon.Value.{Value}
use myon.Env.{Env, env_get}
use myon.Ast.{Expr, int_lit, float_lit, bool_lit, string, ident, binary, unary, logical}
use myon.Interp.Ints.{op_and, op_or, op_neg, op_not}
use myon.Interp.Operators.{FloatOps}
use myon.Interp.Eval.{eval_expr, gives, eval_name}
use myon.Mvm.{Module, ConstEntry}
use myon.Mvm.Emit.{chunk_emit_byte, chunk_emit_op_u16}
use myon.Mvm.Pool.{intern, same_const}
use myon.Mvm.Pool.Laws.{DistinctAfter, intern-Interned}
use myon.Mvm.Opcode.{mop_nop, mop_push_const}
use myon.Vm.Opcodes.{mop_load_local}
use myon.Vm.State.{Frame, Vm}
use myon.Vm.Variables.{const_value}
use myon.Compiler.State.{Local, Compiler}
use myon.Compiler.Scopes.{local_in}
use myon.Compiler.Calls.{binary_opcode, holds, open_brace, close_brace}
use myon.Compiler.Correct.Emission.{chunk_emit_byte-code, chunk_emit_op_u16-code}
use myon.Compiler.Correct.Machine.{Pushes}
use myon.Compiler.Correct.Pieces.{local_value, const-Pushes, local-Pushes}

-- The local is there, at a slot that fits its operand.
abbrev pub Declared : List Local → Bytes → Type 0
Declared ls name = (slot : ℕ) × (local_in ls name ≡ some slot) × (slot < 2 ^ 16)

-- An expression of literals, declared locals and operators. A float literal is not 0, and a text has
-- no brace.
abbrev pub IsPlain : List Local → Expr → Type 0
IsPlain ls (int_lit line i) = Unit
IsPlain ls (float_lit line d) = d % 2 ^ 63 ≢ 0
IsPlain ls (bool_lit line b) = Unit
IsPlain ls (Expr.nil line) = Unit
IsPlain ls (string line (some s)) = (holds open_brace s || holds close_brace s) ≡ false
IsPlain ls (ident line name) = Declared ls name
IsPlain ls (unary line op_neg e) = IsPlain ls e
IsPlain ls (unary line op_not e) = IsPlain ls e
IsPlain ls (binary line op l r) = (binary_opcode op ≢ mop_nop) × IsPlain ls l × IsPlain ls r
IsPlain ls (logical line op_and l r) = IsPlain ls l × IsPlain ls r
IsPlain ls (logical line op_or l r) = IsPlain ls l × IsPlain ls r
IsPlain ls _ = ⊥

-- Each local's value is that of its name.
abbrev pub Agrees : List Local → Env → Frame → Vm → Type 0
Agrees ls env f vm =
    (name : Bytes) (slot : ℕ) (v : Value)
    → local_in ls name ≡ some slot
    → env_get env name ≡ some v
    → local_value f vm slot ≡ some v

-- The second pool has the entries of the first one at their places.
abbrev pub Extends : List ConstEntry → List ConstEntry → Type 0
Extends cs ds = (es : List ConstEntry) × (ds ≡ cs ++ es)

pub Extends-trans : (bs cs ds : List ConstEntry) → Extends bs cs → Extends cs ds → Extends bs ds
Extends-trans bs cs ds (es, e) (gs, g) = (es ++ gs, rw (g, e) (append_assoc bs es gs))

abbrev pub code_of : Compiler → Bytes
code_of c = c.fn.chunk.code

abbrev pub consts_of : Compiler → List ConstEntry
consts_of c = c.mvm_module.consts

-- What compiling an expression adds to the code and to the pool, and that it runs as the expression
-- is evaluated.
pub record Compiles (fl : FloatOps) (m : Module) (f : Frame) (callers : List Frame) (vm : Vm)
    (env : Env) (e : Expr) (c c' : Compiler) : Type 0 where
  pub seg : Bytes
  pub code : code_of c' ≡ code_of c ++ seg
  pub some_ : 0 < length seg
  pub locals : c'.fn.locals ≡ c.fn.locals
  pub consts : Extends (consts_of c) (consts_of c')
  pub distinct : DistinctAfter [] (consts_of c')
  pub runs :
      (v : Value)
      → eval_expr fl env e ≡ gives v
      → Extends (consts_of c') m.consts
      → length m.consts < 2 ^ 16
      → length seg < 2 ^ 15
      → Pushes fl m f callers vm seg v

-- What a constant's entry stands for.
abbrev pub Stands : ConstEntry → ConstEntry → Type 0
Stands x k = (same_const x k ≡ true) ⊎ (x ≡ k)

pub gives_inj : (v w : Value) → gives v ≡ gives w → v ≡ w
gives_inj v w e = cc

of_name : (o : Option Value) (v : Value) → eval_name o ≡ gives v → o ≡ some v
unfolding eval_name
of_name none v e = absurd (cc)
of_name (some w) v e = cc

get_elem?-lt :
    (cs : List ConstEntry) (i : ℕ) (k : ConstEntry) → get_elem? cs i ≡ some k → i < length cs
get_elem?-lt [] i k h = absurd (cc)
get_elem?-lt (c ∷ cs) zero k h = omega arith
get_elem?-lt (c ∷ cs) (suc i) k h = omega (arith, get_elem?-lt cs i k h)

module _ (fl : FloatOps) (m : Module) (f : Frame) (callers : List Frame) (vm : Vm) (env : Env) where
  abbrev pub CompiledAs : Expr → Compiler → Compiler → Type 0
  CompiledAs = Compiles fl m f callers vm env

  -- One instruction that pushes a literal.
  pub literal-Compiles :
      (e : Expr) (c : Compiler) (op line : ℕ) (v : Value)
      → DistinctAfter [] (consts_of c)
      → eval_expr fl env e ≡ gives v
      → Pushes fl m f callers vm (op ∷ []) v
      → CompiledAs e c
          (record c { fn = record c.fn { chunk = chunk_emit_byte c.fn.chunk op line } })
  literal-Compiles e c op line v d ev p = record {
    seg = op ∷ [];
    code = chunk_emit_byte-code c.fn.chunk op line;
    some_ = omega arith;
    locals = refl;
    consts = ([], sym (append-nil (consts_of c)));
    distinct = d;
    runs = λ w e' x few small.
        subst (Pushes fl m f callers vm (op ∷ [])) (gives_inj v w (sym ev ∙ e')) p;
  }

  pub const-Compiles :
      (e : Expr) (c : Compiler) (k : ConstEntry) (line : ℕ) (v : Value)
      → DistinctAfter [] (consts_of c)
      → eval_expr fl env e ≡ gives v
      → ((x : ConstEntry) → Stands x k → const_value x ≡ v)
      → CompiledAs e c (record c {
        mvm_module = (intern c.mvm_module k).1;
        fn = record c.fn {
          chunk = chunk_emit_op_u16 c.fn.chunk mop_push_const (intern c.mvm_module k).0 line;
        };
      })
  const-Compiles e c k line v d ev means =
      let i = intern-Interned c.mvm_module k d in
      let idx = (intern c.mvm_module k).0 in
      record {
        seg = mop_push_const ∷ idx % 256 ∷ idx / 256 % 256 ∷ [];
        code = chunk_emit_op_u16-code c.fn.chunk mop_push_const idx line;
        some_ = omega arith;
        locals = refl;
        consts = (i.added, i.kept);
        distinct = i.distinct;
        runs = λ w e' (es, x) few small.
            let inside : idx < length (intern c.mvm_module k).1.consts =
              get_elem?-lt (intern c.mvm_module k).1.consts idx i.entry i.at_index in
            let size : length m.consts ≡ length (intern c.mvm_module k).1.consts + length es =
              ap length x ∙ length-append (intern c.mvm_module k).1.consts es in
            let found : get_elem? m.consts idx ≡ some i.entry =
              ap (λ (cs : List ConstEntry). get_elem? cs idx) x
              ∙ get_elem?-append_left (intern c.mvm_module k).1.consts es idx inside
              ∙ i.at_index in
            subst (Pushes fl m f callers vm (mop_push_const ∷ idx % 256 ∷ idx / 256 % 256 ∷ []))
              (means i.entry i.stands_for ∙ gives_inj v w (sym ev ∙ e'))
              (const-Pushes fl m f callers vm idx i.entry (omega arith) few found (omega arith));
      }

  pub local-Compiles :
      (c : Compiler) (line slot : ℕ) (name : Bytes)
      → DistinctAfter [] (consts_of c)
      → Agrees c.fn.locals env f vm
      → local_in c.fn.locals name ≡ some slot
      → slot < 2 ^ 16
      → CompiledAs (ident line name) c (record c {
        fn = record c.fn { chunk = chunk_emit_op_u16 c.fn.chunk mop_load_local slot line };
      })
  unfolding eval_expr eval_name
  local-Compiles c line slot name d agree found small = record {
    seg = mop_load_local ∷ slot % 256 ∷ slot / 256 % 256 ∷ [];
    code = chunk_emit_op_u16-code c.fn.chunk mop_load_local slot line;
    some_ = omega arith;
    locals = refl;
    consts = ([], sym (append-nil (consts_of c)));
    distinct = d;
    runs = λ w e x few short.
        local-Pushes fl m f callers vm slot w small
          (agree name slot w found (of_name (env_get env name) w e));
  }
