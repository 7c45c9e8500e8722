-- ===== src/Lib.antt =====
-- Myon is a scripting language: a lexer and a parser make a syntax tree, which is either walked by
-- an interpreter or compiled to bytecode for a stack machine (the MVM) and stored in .myc files; a
-- package manager installs modules from pinned sources. These files model the core that does not
-- talk to the operating system.
--
-- Base holds what all files share: the library's names, Boolean tests, lists over native numbers,
--   C's integer casts (Base/Words) and the character classes of <ctype.h> (Base/Text).
-- Types is src/types.c: `TypeSpec` trees with `typespec_clone` and `typespec_equal`; a NULL pointer
--   is the constructor `null`, and trees share no nodes, so the shortcut of `typespec_equal` for
--   equal pointers has no counterpart. Types/Equal has the theorems.
-- Value is src/value.c: values with `value_equal` and `value_truthy`, struct fields, arrays
--   (`array_push`, `array_pop`) and maps (`map_set`, `map_get`, `map_has`, `map_delete`). A value
--   of reference type is its kind and an address; an operation works on the data at its argument's
--   address. A double is its 64 bits. Value/Equal, Value/Maps, Value/Maps/Keys
--   and Value/Arrays have the theorems.
-- Env is src/env.c: an environment is the list of its scopes, innermost first.
--   Env/Scopes and Env/Success have the theorems.
-- Lexer is src/lexer.c and src/token.h. `Lexer` is the state: the bytes from `pos` on in place of
--   the text, and the tokens emitted. Lexer/Tokens has the token types and keyword tables,
--   Lexer/State the cursor, Lexer/Scan comments, numbers, strings and names, Lexer/Operator the
--   symbols, Lexer/Tokenize the loop and `lexer_tokenize`. Lexer/Moves, Lexer/Progress, Lexer/Loop
--   and Lexer/Whole have the theorems. The loop runs on fuel, as much as the text is long; each
--   round takes a byte, and so this is enough.
-- Mvm is src/mvm_chunk.h, src/mvm_chunk.c and a part of src/mvm_vm.c. Mvm/Opcode has the operand
--   widths and the names, Mvm/Pool the constant pool and the native table, Mvm/Emit the emission of
--   code with `chunk_patch_jump` and `chunk_emit_loop` and, from src/mvm_vm.c, how the machine
--   reads operands and finds lines; Mvm/Writer is `mvm_module_write_file` and Mvm/Reader is
--   `mvm_module_read_file`, both on the bytes of the file. The reader's state is the bytes from its
--   position on and its error flag (Mvm/Reader/Monad). The nesting of type descriptors runs on
--   fuel, one more than the file is long; each level reads a byte, and so this is enough.
--   Mvm/Emit/Jumps, Mvm/Emit/Lines, Mvm/Pool/Laws, Mvm/Pool/Unique, Mvm/Reader/Sound,
--   Mvm/Reader/Fuel and
--   Mvm/RoundTrip have the theorems.
-- Package is src/package.c: hashes, package and module names (Package/Names), pinned sources
--   (Package/Source) and install URLs (Package/Url). An error is its code, line and message.
--   Package/Names/Modules, Package/Pinned and Package/Url/Safe have the theorems.
-- Zip is src/pkg_zip.c, src/pkg_zip.h and, from src/pkg_fs.c, `pkg_fs_safe_component` and
--   `pkg_fs_join`. Zip/Bits, Zip/Huffman and Zip/Inflate are the inflater: the state holds the source
--   from its position on and the bytes written. Zip/Crc is the checksum, Zip/Names the names of
--   entries, Zip/Directory the first pass of `pkg_zip_extract` and Zip/Extract the second. The file
--   system is a parameter that answers each action, from those before it, with the message of a
--   failure or none. A round of a decoding loop reads a bit and a block reads its header, so that
--   their fuel, one more than the bits left, is enough; a round over code lengths adds a length.
--   Zip/Runs, Zip/Blocks, Zip/Stored, Zip/Names/Safe, Zip/Directory/Sizes, Zip/Directory/Limits,
--   Zip/Extract/Paths, Zip/Extract/Contained
--   and Zip/Extract/Bounded have the theorems.
-- Interp is src/interpreter.c, its operators: Interp/Ints has `int_arith` and what the cast to double
--   makes of an integer, Interp/Operators `eval_binary`, `myon_bridge_neg` and `myon_bridge_not`, over
--   the processor's arithmetic on doubles, which is a parameter (`FloatOps`). Interp/Arithmetic,
--   Interp/Integers and Interp/Equality have the theorems. Interp/Eval is `eval_expr` on expressions that need neither
--   the heap, nor a call, nor the parser; its answer is `none` for the others.
-- Ast is src/ast.h: the syntax trees with their lines; lists of nodes are data types of their own.
-- Compiler is src/mvm_compiler.c. Compiler/State has the compiler's state, in which the chunk that is
--   being emitted is kept with its function, and the chain `enclosing` is a list; an operation gives
--   its result and the new state, or ends in `compile_error`. Compiler/Scopes has locals, upvalues,
--   names and scopes, Compiler/Structs the structs and their constructors, Compiler/Calls texts,
--   operators and calls, Compiler/Assign assignments, Compiler/Loops conditionals and loops,
--   Compiler/Functions functions and closures, Compiler/Tree the dispatch over the syntax tree
--   (`compile_expr`, `compile_stmt`), Compiler/Program `mvm_compile_program`, and Compiler/Opcodes
--   opcodes. A function on a part of the tree takes the actions that compile its subtrees. A search
--   along the parents of structs has fuel for one more than there are structs, so that only a circle,
--   in which the code would not end, uses it up (`endless`).
--   Compiler/Correct has the theorems about running the code: Machine the places of the machine,
--   Pieces, Operators and Jumps the pieces of code, Emission what is emitted, Results what the
--   parts of an evaluation gave, Expressions, Leaves, Compound and Whole the expressions.
--   Compiler/Balanced has those about scopes and slots: Rules the rules for sequences of actions, Scopes, Blocks, Calls, Assign, Loops, For and Functions the
--   parts, Whole the trees and Bounds what follows.
-- Vm is src/mvm_vm.c: Vm/State has the machine's state and operand stack, Vm/Calls frames, calls and
--   returns, Vm/Opcodes the opcodes, Vm/Variables constants, variables and jumps, and Vm/Run closures,
--   operators and the dispatch loop. An
--   instruction either goes on, ends in `vm_error`, accesses memory outside of an array, or is not
--   modelled (`elsewhere`). The loop runs for a number of rounds, over which the theorem is stated.
--   Vm/Limits, Vm/Limits/Calls, Vm/Limits/Variables, Vm/Limits/Run, Vm/Frames and Vm/Sharing have the theorems.
-- The modules meet where the code does: the compiler emits chunks and fills the pools by the
-- operations of Mvm; the machine runs chunks and calls the interpreter's operators; an extraction splits names, inflates and checks sums; the reader of .myc files calls the pool's operations, the
--   pool clones type descriptors, environments hold values.
--
-- Not modelled: memory management and its failure, capacities other than that of an array, texts of
-- messages except those of the package checks, the disassembler, the parser and what calls it (texts with interpolated
-- expressions), the interpreter but for its operators and simple expressions, the machine's instructions for arrays, maps, structs, natives and tasks, manifests and lock files, and everything that calls the
-- operating system or a library: files, sockets, TLS, foreign functions, hashing. A text in C ends at
-- its first 0, so texts that go through a `char *` have none. Counts and offsets are natural
-- numbers where the code has int or size_t, with the range written out where a theorem needs it.
pub mod Base
pub mod Types
pub mod Value
pub mod Env
pub mod Lexer
pub mod Mvm
pub mod Package
pub mod Zip
pub mod Vm
pub mod Interp
pub mod Ast
pub mod Compiler
