-- ===== src/Compiler/Loops.antt =====
-- src/mvm_compiler.c: conditionals and loops, with the jumps that are patched later. The actions
-- compile the conditions and the bodies.
use myon.Base.{
  ℕ, false, List, [], ◌∷◌, ◌++◌, Option, none, some, ltb, leb, if◌then◌else◌, Bytes, length,
}
use myon.Base.Words.{pos}
use myon.Base.Text.{codes}
use Prim.Native.String.{String}
use myon.Mvm.Opcode.{mop_jump, mop_jump_if_false, mop_push_const}
use myon.Mvm.Pool.{module_add_const_int, module_add_native}
use myon.Vm.Opcodes.{mop_load_local, mop_store_local, mop_lt, mop_add, mop_push_nil}
use myon.Compiler.Opcodes.{mop_call_native, mop_index_get}
use myon.Compiler.State.{
  LoopCtx, Compiler, made, compile_error, Compiling, Action, ◌>>=◌, ◌>>◌, give, fail, asks,
  change_fn, scope_depth, on_module, emit_op, emit_byte, emit_op_u16, emit_jump, emit_loop,
  patch_jump, here, skip, max_loop,
}
use myon.Compiler.Scopes.{declare_local, begin_scope, end_scope}

unfoldable pub patch_jumps : List ℕ → Action
patch_jumps [] = skip
patch_jumps (off ∷ offs) = do patch_jump off; patch_jumps offs

-- Only 128 jumps to the end are kept; behind those an arm gets none.
abbrev pub end_jump : ℕ → List ℕ → Compiling (List ℕ)
end_jump line ends =
    if ltb (length ends) 128
    then (do off ← emit_jump mop_jump line; give (ends ++ off ∷ []))
    else give ends

-- The arms of `elif`, with the jumps to the end so far.
unfoldable pub compile_arms : ℕ → List (Action × Action) → List ℕ → Compiling (List ℕ)
compile_arms line [] ends = give ends
compile_arms line ((cond, body) ∷ arms) ends = do
  cond
  nxt ← emit_jump mop_jump_if_false line
  body
  ends' ← end_jump line ends
  patch_jump nxt
  compile_arms line arms ends'

unfoldable pub compile_if : ℕ → Action → Action → List (Action × Action) → Action → Action
compile_if line cond then_body arms else_body = do
  cond
  else_jump ← emit_jump mop_jump_if_false line
  then_body
  end ← emit_jump mop_jump line
  patch_jump else_jump
  ends ← compile_arms line arms (end ∷ [])
  else_body
  patch_jumps ends

unfoldable pub loop_push : Action
loop_push c =
    if leb max_loop (length c.fn.loops)
    then compile_error "loops nested too deeply"
    else made (
      tt,
      record c {
        fn = record c.fn {
          loops =
              record { continue_jumps = []; break_jumps = []; scope_depth = scope_depth c.fn }
              ∷ c.fn.loops;
        };
      },
    )

abbrev pub first_loop : List LoopCtx → Option LoopCtx
first_loop [] = none
first_loop (l ∷ ls) = some l

abbrev pub cur_loop : Compiler → Option LoopCtx
cur_loop c = first_loop c.fn.loops

-- `cur_loop` is not NULL in a loop's body.
abbrev pub continues_of : Option LoopCtx → List ℕ
continues_of none = []
continues_of (some l) = l.continue_jumps

abbrev pub breaks_of : Option LoopCtx → List ℕ
breaks_of none = []
breaks_of (some l) = l.break_jumps

unfoldable pub loop_patch_continues : Action
loop_patch_continues = do l ← asks cur_loop; patch_jumps (continues_of l)

abbrev pub without_loop : List LoopCtx → List LoopCtx
without_loop [] = []
without_loop (l ∷ ls) = ls

unfoldable pub loop_pop : Action
loop_pop = do
  l ← asks cur_loop
  patch_jumps (breaks_of l)
  change_fn (λ fn. record fn { loops = without_loop fn.loops })

abbrev pub on_loop : (LoopCtx → LoopCtx) → List LoopCtx → List LoopCtx
on_loop f [] = []
on_loop f (l ∷ ls) = f l ∷ ls

-- A list of jumps holds at most 64.
abbrev pub keep_jump : ℕ → List ℕ → List ℕ
keep_jump off jumps = if ltb (length jumps) 64 then jumps ++ off ∷ [] else jumps

abbrev pub in_loop : String → Option LoopCtx → Action → Action
in_loop message none act = fail message
in_loop message (some l) act = act

unfoldable pub compile_break : ℕ → Action
compile_break line = do
  l ← asks cur_loop
  in_loop "myon.break outside a loop" l (do
    off ← emit_jump mop_jump line
    change_fn (λ fn. record fn {
      loops = on_loop (λ k. record k { break_jumps = keep_jump off k.break_jumps }) fn.loops;
    }))

unfoldable pub compile_continue : ℕ → Action
compile_continue line = do
  l ← asks cur_loop
  in_loop "myon.continue outside a loop" l (do
    off ← emit_jump mop_jump line
    change_fn (λ fn. record fn {
      loops = on_loop (λ k. record k { continue_jumps = keep_jump off k.continue_jumps }) fn.loops;
    }))

unfoldable pub compile_while : ℕ → Action → Action → Action
compile_while line cond body = do
  top ← here
  cond
  exit_jump ← emit_jump mop_jump_if_false line
  loop_push
  body
  loop_patch_continues
  emit_loop mop_jump top line
  patch_jump exit_jump
  loop_pop

abbrev pub load : ℕ → ℕ → Action
load line slot = emit_op_u16 mop_load_local slot line

abbrev pub store : ℕ → ℕ → Action
store line slot = emit_op_u16 mop_store_local slot line

abbrev pub push_number : ℕ → ℕ → Action
push_number line n = do
  idx ← on_module (λ m. module_add_const_int m (pos n))
  emit_op_u16 mop_push_const idx line

-- `slot` is raised by 1.
abbrev pub increment : ℕ → ℕ → Action
increment line slot = do load line slot; push_number line 1; emit_op mop_add line; store line slot

-- The body, the step of the counter, and the way back to `top`.
unfoldable pub loop_tail : ℕ → ℕ → ℕ → ℕ → Action → Action
loop_tail line counter top exit_jump body = do
  loop_push
  body
  loop_patch_continues
  increment line counter
  emit_loop mop_jump top line
  patch_jump exit_jump
  loop_pop

unfoldable pub compile_for_range : ℕ → Bytes → Action → Action → Action → Action
compile_for_range line var range_start range_end body = do
  begin_scope false
  range_start
  vslot ← declare_local var
  store line vslot
  range_end
  eslot ← declare_local (codes " __for_end")
  store line eslot
  top ← here
  load line vslot
  load line eslot
  emit_op mop_lt line
  exit_jump ← emit_jump mop_jump_if_false line
  loop_tail line vslot top exit_jump body
  change_fn end_scope

unfoldable pub compile_for_in : ℕ → Bytes → Action → Action → Action
compile_for_in line var iterable body = do
  begin_scope false
  iterable
  islot_it ← declare_local (codes " __for_it")
  store line islot_it
  push_number line 0
  islot ← declare_local (codes " __for_idx")
  store line islot
  emit_op mop_push_nil line
  vslot ← declare_local var
  store line vslot
  top ← here
  load line islot
  load line islot_it
  nlen ← on_module (λ m. module_add_native m (codes "myon.len"))
  emit_op_u16 mop_call_native nlen line
  emit_byte 1 line
  emit_op mop_lt line
  exit_jump ← emit_jump mop_jump_if_false line
  load line islot_it
  load line islot
  emit_op mop_index_get line
  store line vslot
  loop_tail line islot top exit_jump body
  change_fn end_scope
