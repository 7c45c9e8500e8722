-- ===== src/Compiler/Structs.antt =====
-- src/mvm_compiler.c, the structs that are registered, and the constructor of one. A struct is
-- known by its place in the table. An argument is its name, if it has one, with the action that
-- compiles it.
use myon.Base.{
  ℕ, zero, suc, ◌+◌, Bool, false, List, [], ◌∷◌, ◌++◌, Option, none, some, ◌==◌, if◌then◌else◌,
  Bytes, str_eq, length, get_elem?, set,
}
use myon.Ast.{StructField, StructDecl, struct_decl}
use myon.Mvm.Pool.{module_add_const_str}
use myon.Compiler.State.{
  Registered, Compiler, Compiled, made, Compiling, Action, ◌>>=◌, ◌>>◌, give, fail, asks, on_module,
  emit_op_u16, skip,
}
use myon.Compiler.Opcodes.{mop_new_struct}

abbrev pub Arg : Type 0
Arg = Option Bytes × Action

abbrev pub struct_name : StructDecl → Bytes
struct_name (struct_decl name parent fields methods tparams) = name

abbrev pub parent_name : StructDecl → Option Bytes
parent_name (struct_decl name parent fields methods tparams) = parent

abbrev pub struct_fields : StructDecl → List StructField
struct_fields (struct_decl name parent fields methods tparams) = fields

-- The first struct of the name, from place `i` on.
unfoldable pub struct_in : List Registered → Bytes → ℕ → Option ℕ
struct_in [] name i = none
struct_in (s ∷ ss) name i =
    if str_eq (struct_name s.decl) name then some i else struct_in ss name (i + 1)

abbrev pub find_struct : Bytes → Compiler → Option ℕ
find_struct name c = struct_in c.structs name 0

unfoldable pub register_struct : StructDecl → Action
register_struct decl c =
    made (tt, record c { structs = c.structs ++ record { decl = decl; parent = none } ∷ [] })

unfoldable pub set_parent : ℕ → Registered → ℕ → Action
set_parent i s p c =
    made (tt, record c { structs = set c.structs i (record s { parent = some p }) })

abbrev pub parent_or_error : ℕ → Registered → Option ℕ → Compiling (Option ℕ)
parent_or_error i s none = fail "struct '%s' extends unknown struct '%s'"
parent_or_error i s (some p) = do set_parent i s p; give (some p)

abbrev pub link_named : ℕ → Registered → Option Bytes → Compiling (Option ℕ)
link_named i s none = give none
link_named i s (some name) = do found ← asks (find_struct name); parent_or_error i s found

-- The parent of the struct, which is linked if it has a name and is not linked yet.
unfoldable pub link_parent : ℕ → Option Registered → Compiling (Option ℕ)
link_parent i none = give none
link_parent i (some s) = elim s.parent [
  | none ↦ link_named i s (parent_name s.decl)
  | some p ↦ give (some p)
]

abbrev pub follow : (ℕ → Action) → Option ℕ → Action
follow again none = skip
follow again (some p) = again p

abbrev pub endlessly : {A : Type 0} → Compiling A
endlessly c = Compiled.endless

-- `for (cur = sd; cur; cur = cur->parent)`. The fuel is more than the number of structs, and so it
-- ends only in a circle.
unfoldable pub link_parents : ℕ → ℕ → Action
link_parents zero i = endlessly
link_parents (suc f) i = do
  s ← asks (λ c. get_elem? c.structs i)
  p ← link_parent i s
  follow (link_parents f) p

abbrev after_parent : List StructField → Option (List StructField) → Option (List StructField)
after_parent own none = none
after_parent own (some fields) = some (fields ++ own)

abbrev or_no_parent : (ℕ → Option (List StructField)) → Option ℕ → Option (List StructField)
or_no_parent again none = some []
or_no_parent again (some p) = again p

abbrev fields_of : (ℕ → Option (List StructField)) → Option Registered → Option (List StructField)
fields_of again none = some []
fields_of again (some s) = after_parent (struct_fields s.decl) (or_no_parent again s.parent)

-- The fields of the parents first; `none` where the chain is longer than the fuel.
unfoldable pub collect_struct_fields : List Registered → ℕ → ℕ → Option (List StructField)
collect_struct_fields structs zero i = none
collect_struct_fields structs (suc f) i =
    fields_of (collect_struct_fields structs f) (get_elem? structs i)

abbrev pub names_it : Option Bytes → Bytes → Bool
names_it none field = false
names_it (some name) field = str_eq name field

abbrev pub positional : Option Bytes → ℕ → ℕ → Bool
positional none a f = a == f
positional (some name) a f = false

-- The action of the first argument with the field's name, or else of the one at its place that has
-- no name. `a` counts the arguments, and `found` is the one so far.
unfoldable pub argument_for : Bytes → ℕ → ℕ → Option Action → List Arg → Option Action
argument_for field f a found [] = found
argument_for field f a found ((name, act) ∷ args) =
    if names_it name field
    then some act
    else argument_for field f (a + 1) (if positional name a f then some act else found) args

abbrev pub initialiser : Option Action → Action
initialiser none = fail "struct %s: missing field '%s'"
initialiser (some act) = act

unfoldable pub compile_fields : List Arg → ℕ → List StructField → Action
compile_fields args f [] = skip
compile_fields args f (field ∷ fields) = do
  initialiser (argument_for field.name f 0 none args)
  compile_fields args (f + 1) fields

abbrev pub all_fields : List Arg → Option (List StructField) → Action
all_fields args none = endlessly
all_fields args (some fields) = compile_fields args 0 fields

abbrev pub name_at : List Registered → ℕ → Bytes
name_at structs i = elim (get_elem? structs i) [ none ↦ [] | some s ↦ struct_name s.decl ]

unfoldable pub compile_struct_ctor : ℕ → List Arg → ℕ → Action
compile_struct_ctor line args i = do
  count ← asks (λ c. length c.structs)
  link_parents (suc count) i
  fields ← asks (λ c. collect_struct_fields c.structs (suc count) i)
  all_fields args fields
  name ← asks (λ c. name_at c.structs i)
  tidx ← on_module (λ m. module_add_const_str m name)
  emit_op_u16 mop_new_struct tidx line
