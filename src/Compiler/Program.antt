-- ===== src/Compiler/Program.antt =====
-- src/mvm_compiler.c: whole programs. The structs of the top level are registered and linked
-- first.
use myon.Base.{
  ℕ, zero, suc, ◌*◌, ◌/◌, ◌%◌, ◌^◌, Bool, true, false, ◌||◌, List, [], ◌∷◌, ◌++◌, Option, none,
  some, if◌then◌else◌, Bytes, str_eq, length, get_elem?,
}
use myon.Base.Words.{ℤ, pos}
use myon.Base.Text.{codes}
use myon.Ast.{StructField, Stmt, StmtList, no_stmts, stmt_and, struct_stmt}
use myon.Mvm.{Module}
use myon.Vm.Opcodes.{mop_ret}
use myon.Compiler.State.{
  Registered, Compiler, Compiled, made, after_made, Action, ◌>>=◌, ◌>>◌, fail, asks, emit_op_u8,
  skip,
}
use myon.Compiler.Structs.{parent_name, struct_fields, find_struct, register_struct, set_parent}
use myon.Compiler.Functions.{new_chunk, new_fn, module_add_chunk, finished_chunk, put_chunk}
use Prim.Native.Nat.{bit_xor}
use myon.Compiler.Tree.{compile_stmts}

abbrev pub registers : Stmt → Action
registers (struct_stmt line decl) = register_struct decl
registers _ = skip

-- The pass before: the structs of the top level are registered.
unfoldable pub register_structs : StmtList → Action
register_structs no_stmts = skip
register_structs (stmt_and s ss) = do registers s; register_structs ss

abbrev field_named : Bytes → List StructField → Bool
field_named name [] = false
field_named name (f ∷ fs) = str_eq name f.name || field_named name fs

abbrev in_chain : (ℕ → Option Bool) → Bytes → Option Registered → Option Bool
in_chain again name none = some false
in_chain again name (some s) =
    if field_named name (struct_fields s.decl)
    then some true
    else elim s.parent [ none ↦ some false | some p ↦ again p ]

-- Does the struct or one that it is linked to have such a field? `none` where the chain is longer
-- than the fuel.
unfoldable pub chain_has_field : List Registered → Bytes → ℕ → ℕ → Option Bool
chain_has_field structs name zero i = none
chain_has_field structs name (suc f) i =
    in_chain (chain_has_field structs name f) name (get_elem? structs i)

abbrev pub no_collision : Option Bool → Action
no_collision none c = Compiled.endless
no_collision (some true) c = fail "field '%s' in struct '%s' collides with parent (spec 14.6)" c
no_collision (some false) c = made (tt, c)

unfoldable pub check_fields : List StructField → ℕ → Action
check_fields [] p = skip
check_fields (f ∷ fs) p = do
  clash ← asks (λ c. chain_has_field c.structs f.name (suc (length c.structs)) p)
  no_collision clash
  check_fields fs p

abbrev pub linked : ℕ → Registered → Option ℕ → Action
linked i s none = fail "struct '%s' extends unknown struct '%s'"
linked i s (some p) = do set_parent i s p; check_fields (struct_fields s.decl) p

abbrev pub link : ℕ → Registered → Option Bytes → Action
link i s none = skip
link i s (some name) = do found ← asks (find_struct name); linked i s found

-- The body of the loop over the structs; only a struct with no parent yet is linked.
unfoldable pub resolve_parent : ℕ → Option Registered → Action
resolve_parent i none = skip
resolve_parent i (some s) = elim s.parent [ none ↦ link i s (parent_name s.decl) | some p ↦ skip ]

-- The loop from struct `i` on, over `n` of them.
unfoldable pub resolve_parents : ℕ → ℕ → Action
resolve_parents zero i = skip
resolve_parents (suc n) i = do
  s ← asks (λ c. get_elem? c.structs i)
  resolve_parent i s
  resolve_parents n (suc i)

abbrev pub zero_bytes : ℕ → Bytes
zero_bytes zero = []
zero_bytes (suc n) = 0 ∷ zero_bytes n

abbrev module_new : Module
module_new = record {
  consts = [];
  natives = [];
  chunks = [];
  entry_chunk = pos 0;
  src_mtime = pos 0;
  src_size = 0;
  src_hash = zero_bytes 32;
  src_path = none;
}

-- <main> is in its place, and is the current function.
abbrev pub start : Compiler
start =
    let (idx, m) = module_add_chunk (codes "<main>") module_new in
    record {
      mvm_module = record m { entry_chunk = pos idx };
      fn = new_fn idx (new_chunk (codes "<main>"));
      enclosing = [];
      structs = [];
    }

-- What the file system gives for the path: the time of the last change and the size, and the
-- contents, each if it can be read.
pub record SourceFile : Type 0 where
  pub path : Bytes
  pub stat : Option (ℤ × ℕ)
  pub contents : Option Bytes

-- FNV-1a on 64 bits: `^` of the low byte, then the multiplication by the prime.
unfoldable pub fnv1a : ℕ → Bytes → ℕ
fnv1a h [] = h
fnv1a h (b ∷ bs) = fnv1a (bit_xor h b * 1099511628211 % 2 ^ 64) bs

-- The `n` bytes of `h`, the low one first.
abbrev low_bytes : ℕ → ℕ → Bytes
low_bytes zero h = []
low_bytes (suc n) h = h % 256 ∷ low_bytes n (h / 256)

abbrev with_stat : Option (ℤ × ℕ) → Module → Module
with_stat none m = m
with_stat (some (mtime, size)) m = record m { src_mtime = mtime; src_size = size }

abbrev with_hash : Option Bytes → Module → Module
with_hash none m = m
with_hash (some contents) m = record m {
  src_hash = low_bytes 8 (fnv1a 1469598103934665603 contents) ++ zero_bytes 24;
}

unfoldable pub fill_source_info : Option SourceFile → Module → Module
fill_source_info none m = m
fill_source_info (some f) m =
    with_hash f.contents (with_stat f.stat (record m { src_path = some f.path }))

abbrev pub finish_module : Option SourceFile → Compiler → Module
finish_module source c =
    fill_source_info source (put_chunk c.fn.chunk_idx (finished_chunk 0 0 false c.fn) c.mvm_module)

unfoldable pub compile_top : StmtList → Action
compile_top stmts = do
  register_structs stmts
  n ← asks (λ c. length c.structs)
  resolve_parents n 0
  compile_stmts stmts
  emit_op_u8 mop_ret 0 0

unfoldable pub mvm_compile_program : StmtList → Option SourceFile → Compiled Module
mvm_compile_program stmts source =
    after_made (compile_top stmts start)
      (λ (r : Unit {0} × Compiler). made (finish_module source r.1))
