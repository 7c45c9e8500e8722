-- ===== src/Compiler/State.antt =====
-- src/mvm_compiler.c, the compiler's state and the emission of code. The functions under
-- compilation are a list, the innermost first, so that `enclosing` is what follows a function. The
-- chunk of a function is kept with it while its code is emitted. The locals stand newest first. The
-- table `depth_is_block` holds its entries for the open scopes, the innermost first, and so its
-- length is `scope_depth`; `captured_slot` holds the slots that are marked.
use myon.Base.{ℕ, Bool, List, Option, Bytes, length}
use Prim.Native.String.{String}
use myon.Ast.{StructDecl}
use myon.Mvm.{Chunk, Module}
use myon.Mvm.Emit.{
  chunk_emit_byte, chunk_emit_op, chunk_emit_op_u16, chunk_emit_op_u8, chunk_emit_jump,
  chunk_patch_jump, chunk_emit_loop, chunk_here,
}

abbrev pub max_locals : ℕ
max_locals = 1024

abbrev pub max_loop : ℕ
max_loop = 64

abbrev pub max_depth : ℕ
max_depth = 256

abbrev pub max_upvalues : ℕ
max_upvalues = 256

pub record Local : Type 0 where
  pub name : Bytes
  pub depth : ℕ
  pub slot : ℕ

-- The offsets of the pending jumps, in the order of their emission.
pub record LoopCtx : Type 0 where
  pub continue_jumps : List ℕ
  pub break_jumps : List ℕ
  pub scope_depth : ℕ

pub record Upvalue : Type 0 where
  pub index : ℕ
  pub from_local : Bool
  pub name : Bytes

pub record FnComp : Type 0 where
  pub chunk_idx : ℕ
  pub chunk : Chunk
  pub locals : List Local
  pub upvalues : List Upvalue
  pub captured_slot : List ℕ
  pub depth_is_block : List Bool
  pub next_slot : ℕ
  pub max_slot : ℕ
  pub loops : List LoopCtx

-- A struct that is registered; its parent is the place of another one.
pub record Registered : Type 0 where
  pub decl : StructDecl
  pub parent : Option ℕ

-- `fn` is the current function and `enclosing` are those around it.
pub record Compiler : Type 0 where
  pub mvm_module : Module
  pub fn : FnComp
  pub enclosing : List FnComp
  pub structs : List Registered

-- `compile_error` is that function, with the format of its message; `endless` is a recursion
-- without an end, and `elsewhere` code that is not modelled.
pub data Compiled {ℓ} (A : Type ℓ) : Type ℓ where
  made : A → Compiled A
  compile_error : String → Compiled A
  endless : Compiled A
  elsewhere : Compiled A

abbrev pub after_made {ℓ κ} : {A : Type ℓ} {B : Type κ} → Compiled A → (A → Compiled B) → Compiled B
after_made (made a) next = next a
after_made (compile_error message) next = compile_error message
after_made endless next = endless
after_made elsewhere next = elsewhere

abbrev pub Compiling {ℓ} : Type ℓ → Type ℓ
Compiling A = Compiler → Compiled (A × Compiler)

infixl 5 ◌>>=◌ ◌>>◌
unfoldable pub ◌>>=◌ {ℓ κ} :
    {A : Type ℓ} {B : Type κ} → Compiling A → (A → Compiling B) → Compiling B
◌>>=◌ {A = A} m f c = after_made (m c) (λ (r : A × Compiler). f r.0 r.1)

abbrev pub ◌>>◌ {ℓ κ} : {A : Type ℓ} {B : Type κ} → Compiling A → Compiling B → Compiling B
m >> k = m >>= λ _. k

unfoldable pub give {ℓ} : {A : Type ℓ} → A → Compiling A
give a c = made (a, c)

abbrev pub Action : Type 0
Action = Compiling (Unit {0})

abbrev pub skip : Action
skip = give tt

unfoldable pub fail {ℓ} : {A : Type ℓ} → String → Compiling A
fail message c = compile_error message

unfoldable pub not_modelled {ℓ} : {A : Type ℓ} → Compiling A
not_modelled c = elsewhere

-- Reads of the state, and changes of it.
unfoldable pub asks {ℓ} : {A : Type ℓ} → (Compiler → A) → Compiling A
asks f c = made (f c, c)

unfoldable pub change_fn : (FnComp → FnComp) → Action
change_fn f c = made (tt, record c { fn = f c.fn })

abbrev pub scope_depth : FnComp → ℕ
scope_depth fn = length fn.depth_is_block

-- A change of the current chunk.
unfoldable pub on_chunk : (Chunk → Chunk) → Action
on_chunk f c = made (tt, record c { fn = record c.fn { chunk = f c.fn.chunk } })

abbrev pub emit_op : ℕ → ℕ → Action
emit_op op line = on_chunk (λ ch. chunk_emit_op ch op line)

abbrev pub emit_byte : ℕ → ℕ → Action
emit_byte b line = on_chunk (λ ch. chunk_emit_byte ch b line)

abbrev pub emit_op_u16 : ℕ → ℕ → ℕ → Action
emit_op_u16 op a line = on_chunk (λ ch. chunk_emit_op_u16 ch op a line)

abbrev pub emit_op_u8 : ℕ → ℕ → ℕ → Action
emit_op_u8 op a line = on_chunk (λ ch. chunk_emit_op_u8 ch op a line)

abbrev pub emit_loop : ℕ → ℕ → ℕ → Action
emit_loop op target line = on_chunk (λ ch. chunk_emit_loop ch op target line)

abbrev pub patch_jump : ℕ → Action
patch_jump off = on_chunk (λ ch. chunk_patch_jump ch off)

unfoldable pub emit_jump : ℕ → ℕ → Compiling ℕ
emit_jump op line c =
    let (off, ch) = chunk_emit_jump c.fn.chunk op line in
    made (off, record c { fn = record c.fn { chunk = ch } })

abbrev pub here : Compiling ℕ
here = asks (λ c. chunk_here c.fn.chunk)

-- An addition to a pool of the module, with its index.
unfoldable pub on_module : (Module → ℕ × Module) → Compiling ℕ
on_module f c = let (i, m) = f c.mvm_module in made (i, record c { mvm_module = m })
