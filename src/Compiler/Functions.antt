-- ===== src/Compiler/Functions.antt =====
-- src/mvm_compiler.c: functions and closures. While a function is compiled its chunk is kept
-- with it; an empty one holds its place in the module, until the function ends.
use myon.Base.{
  ℕ, zero, suc, ◌+◌, ◌/◌, ◌%◌, ◌^◌, Bool, true, false, ◌||◌, List, [], ◌∷◌, ◌++◌, ◌==◌, ltb,
  if◌then◌else◌, Bytes, length, set,
}
use myon.Base.Text.{codes}
use myon.Types.{TypeSpec}
use myon.Ast.{Param}
use myon.Mvm.{Chunk, Module}
use myon.Mvm.Opcode.{mop_make_closure}
use myon.Vm.Opcodes.{mop_ret, mop_store_local}
use myon.Compiler.State.{
  Upvalue, FnComp, Compiler, made, Compiling, Action, ◌>>=◌, ◌>>◌, give, on_module, emit_byte,
  emit_op_u16, emit_op_u8, skip, max_locals,
}
use myon.Compiler.Scopes.{declare_local}

abbrev pub new_chunk : Bytes → Chunk
new_chunk name = record {
  name = name;
  num_params = 0;
  num_locals = 0;
  ret_count = 0;
  is_async = 0;
  captured = [];
  code = [];
  lines = [];
}

abbrev pub module_add_chunk : Bytes → Module → ℕ × Module
module_add_chunk name m = (length m.chunks, record m { chunks = m.chunks ++ new_chunk name ∷ [] })

abbrev pub new_fn : ℕ → Chunk → FnComp
new_fn idx ch = record {
  chunk_idx = idx;
  chunk = ch;
  locals = [];
  upvalues = [];
  captured_slot = [];
  depth_is_block = [];
  next_slot = 0;
  max_slot = 0;
  loops = [];
}

abbrev is_marked : ℕ → List ℕ → Bool
is_marked i [] = false
is_marked i (slot ∷ slots) = i == slot || is_marked i slots

-- The flags of the slots from `i` on, `n` of them.
abbrev bits_from : ℕ → ℕ → List ℕ → Bytes
bits_from zero i slots = []
bits_from (suc n) i slots = (if is_marked i slots then 1 else 0) ∷ bits_from n (suc i) slots

abbrev any_below : ℕ → List ℕ → Bool
any_below n [] = false
any_below n (slot ∷ slots) = ltb slot n || any_below n slots

-- No bitmap at all where no slot below the number of locals is marked.
unfoldable pub captured_bitmap : ℕ → List ℕ → Bytes
captured_bitmap num_locals slots =
    let n = if ltb max_locals num_locals then max_locals else num_locals in
    if any_below n slots then bits_from n 0 slots else []

unfoldable pub finished_chunk : ℕ → ℕ → Bool → FnComp → Chunk
finished_chunk num_params ret_count is_async fn =
    let num_locals = fn.max_slot % 2 ^ 16 in
    record fn.chunk {
      num_params = num_params % 2 ^ 16;
      num_locals = num_locals;
      ret_count = ret_count % 2 ^ 16;
      is_async = if is_async then 1 else 0;
      captured = captured_bitmap num_locals fn.captured_slot;
    }

unfoldable pub emit_captures : ℕ → List Upvalue → Action
emit_captures line [] = skip
emit_captures line (u ∷ us) = do
  emit_byte (if u.from_local then 1 else 0) line
  emit_byte (u.index % 256) line
  emit_byte (u.index / 256 % 256) line
  emit_captures line us

unfoldable pub emit_make_closure : ℕ → ℕ → List Upvalue → Action
emit_make_closure line cidx upvals = do
  emit_op_u16 mop_make_closure cidx line
  emit_byte (length upvals % 256) line
  emit_captures line upvals

unfoldable pub enter_function : ℕ → Chunk → Action
enter_function idx ch c = made (tt, record c { fn = new_fn idx ch; enclosing = c.fn ∷ c.enclosing })

abbrev pub back_to : Compiler → Module → List FnComp → Compiler
back_to c m [] = record c { mvm_module = m }
back_to c m (up ∷ outer) = record c { mvm_module = m; fn = up; enclosing = outer }

abbrev pub put_chunk : ℕ → Chunk → Module → Module
put_chunk idx ch m = record m { chunks = set m.chunks idx ch }

-- The chunk goes to its place, and the function around this one is the current one again.
unfoldable pub leave_function : ℕ → ℕ → Bool → Compiling (List Upvalue)
leave_function num_params ret_count is_async c = made (
  c.fn.upvalues,
  back_to c
      (put_chunk c.fn.chunk_idx (finished_chunk num_params ret_count is_async c.fn) c.mvm_module)
      c.enclosing,
)

unfoldable pub declare_params : List Param → Action
declare_params [] = skip
declare_params (p ∷ ps) = do declare_local p.name; declare_params ps

-- The parts of a declaration, as the action of its body has them.
pub record Function : Type 0 where
  pub name : Bytes
  pub is_async : Bool
  pub params : List Param
  pub ret_types : List TypeSpec
  pub compile_body : Action

-- The index of the chunk, and the captures. A method has `self` before its parameters.
unfoldable pub compile_function : Function → Bytes → Bool → Compiling (ℕ × List Upvalue)
compile_function decl dbg_name self_param = do
  cidx ← on_module (module_add_chunk dbg_name)
  enter_function cidx (new_chunk dbg_name)
  if self_param then (do declare_local (codes "self"); skip) else skip
  declare_params decl.params
  decl.compile_body
  emit_op_u8 mop_ret 0 0
  upvals ←
      leave_function (length decl.params + (if self_param then 1 else 0)) (length decl.ret_types)
        decl.is_async
  give (cidx, upvals)

unfoldable pub compile_lambda : ℕ → Function → Action
compile_lambda line decl = do
  (cidx, upvals) ← compile_function decl (codes "<lambda>") false
  emit_make_closure line cidx upvals

-- A declared function is a local, which its body can see.
unfoldable pub compile_func : ℕ → Function → Action
compile_func line decl = do
  slot ← declare_local decl.name
  (cidx, upvals) ← compile_function decl decl.name false
  emit_make_closure line cidx upvals
  emit_op_u16 mop_store_local slot line

-- The methods' captures are not used.
unfoldable pub compile_methods : Bytes → List Function → Action
compile_methods struct_name [] = skip
compile_methods struct_name (m ∷ ms) = do
  compile_function m (struct_name ++ (codes "." ++ m.name)) true
  compile_methods struct_name ms
