-- ===== src/Compiler/Balanced/Calls.antt =====
-- Calls and assignments leave the scopes and loops as they are.
use myon.Base.{
  ℕ, zero, suc, ◌+◌, Bool, true, false, List, [], ◌∷◌, ◌++◌, Option, none, some, if◌then◌else◌,
  if_both, Bytes, ◌==◌, ◌||◌, ◌&&◌,
}
use myon.Compiler.State.{Compiling, Action, give, Registered}
use myon.Compiler.Structs.{
  Arg, link_parent, link_parents, compile_fields, compile_struct_ctor, argument_for, set_parent,
  parent_or_error, link_named, follow, endlessly, names_it, positional, initialiser, all_fields,
  register_struct, parent_name,
}
use myon.Compiler.Calls.{
  push_text, flush_lit, string_pieces, compile_string, open_brace, close_brace, compile_args,
  compile_unnamed, unnamed,
}
use myon.Ast.{StructField, StructDecl}
use myon.Compiler.Balanced.Rules.{Keeps, keeps_rules, Keeps-bind, Keeps-give, Keeps-asks}

Keeps-push_text : (line : ℕ) (text : Bytes) → Keeps (push_text line text)
Keeps-push_text line text = search keeps_rules

Keeps-flush_lit : (line : ℕ) (lit : Bytes) (pieces : ℕ) → Keeps (flush_lit line lit pieces)
unfolding flush_lit
Keeps-flush_lit line [] pieces = search keeps_rules
Keeps-flush_lit line (b ∷ bs) pieces = search (keeps_rules, Keeps-push_text)

Keeps-string_pieces :
    (line : ℕ) (s lit : Bytes) (pieces : ℕ) → Keeps (string_pieces line s lit pieces)
unfolding string_pieces
Keeps-string_pieces line [] lit pieces = Keeps-flush_lit line lit pieces
Keeps-string_pieces line (b ∷ []) lit pieces = search (keeps_rules, Keeps-flush_lit) depth 10
Keeps-string_pieces line (b ∷ b' ∷ s) lit pieces =
    either (b == b' && (b == open_brace || b == close_brace)) (b == open_brace)
      (Keeps-string_pieces line s (lit ++ b ∷ []) pieces) (search keeps_rules depth 10)
      (Keeps-string_pieces line (b' ∷ s) (lit ++ b ∷ []) pieces)
  where
    either :
        (t u : Bool) {x y z : Compiling ℕ}
        → Keeps x
        → Keeps y
        → Keeps z
        → Keeps (elim t [ true ↦ x | false ↦ elim u [ true ↦ y | false ↦ z ] ])
    either true u hx hy hz = hx
    either false true hx hy hz = hy
    either false false hx hy hz = hz

pub Keeps-compile_string : (line : ℕ) (raw : Bytes) → Keeps (compile_string line raw)
unfolding compile_string
Keeps-compile_string line raw = search (keeps_rules, Keeps-string_pieces, Keeps-push_text) depth 20

-- The actions of the arguments keep what is open.
abbrev pub ArgsKeep : List Arg → Type 0
ArgsKeep [] = Unit
ArgsKeep ((name, act) ∷ args) = Keeps act × ArgsKeep args

pub Keeps-compile_args : (args : List Arg) → ArgsKeep args → Keeps (compile_args args)
unfolding compile_args
Keeps-compile_args [] k = search keeps_rules
Keeps-compile_args ((name, act) ∷ args) (ka, ks) =
    Keeps-bind _ _ ka (λ _. Keeps-compile_args args ks)

Keeps-unnamed : (name : Option Bytes) → Keeps (unnamed name)
Keeps-unnamed none = search keeps_rules
Keeps-unnamed (some name) = search keeps_rules

pub Keeps-compile_unnamed : (args : List Arg) → ArgsKeep args → Keeps (compile_unnamed args)
unfolding compile_unnamed
Keeps-compile_unnamed [] k = search keeps_rules
Keeps-compile_unnamed ((name, act) ∷ args) (ka, ks) =
    Keeps-bind _ _ (Keeps-unnamed name)
      (λ _. Keeps-bind _ _ ka (λ _. Keeps-compile_unnamed args ks))

pub Keeps-set_parent : (i : ℕ) (s : Registered) (p : ℕ) → Keeps (set_parent i s p)
unfolding set_parent
Keeps-set_parent i s p = record { for = λ t. record { at = λ c h. h } }

pub Keeps-register_struct : (decl : StructDecl) → Keeps (register_struct decl)
unfolding register_struct
Keeps-register_struct decl = record { for = λ t. record { at = λ c h. h } }

Keeps-parent_or_error : (i : ℕ) (s : Registered) (o : Option ℕ) → Keeps (parent_or_error i s o)
Keeps-parent_or_error i s none = search keeps_rules
Keeps-parent_or_error i s (some p) = search (keeps_rules, Keeps-set_parent)

Keeps-link_named : (i : ℕ) (s : Registered) (o : Option Bytes) → Keeps (link_named i s o)
Keeps-link_named i s none = search keeps_rules
Keeps-link_named i s (some name) = search (keeps_rules, Keeps-parent_or_error)

Keeps-link_parent : (i : ℕ) (o : Option Registered) → Keeps (link_parent i o)
unfolding link_parent
Keeps-link_parent i none = search keeps_rules
Keeps-link_parent i (some s) = linked s.parent
  where
    linked :
        (o : Option ℕ)
        → Keeps (elim o [ none ↦ link_named i s (parent_name s.decl) | some p ↦ give (some p) ])
    linked none = Keeps-link_named i s (parent_name s.decl)
    linked (some p) = Keeps-give (some p)

Keeps-endlessly : {A : Type 0} → Keeps {A = A} endlessly
Keeps-endlessly = record { for = λ t. record { at = λ c h. tt } }

Keeps-follow :
    (again : ℕ → Action) (o : Option ℕ) → ((i : ℕ) → Keeps (again i)) → Keeps (follow again o)
Keeps-follow again none k = search keeps_rules
Keeps-follow again (some p) k = k p

Keeps-link_parents : (f i : ℕ) → Keeps (link_parents f i)
unfolding link_parents
Keeps-link_parents zero i = Keeps-endlessly
Keeps-link_parents (suc f) i = Keeps-bind _ _ (Keeps-asks _) (λ s.
    Keeps-bind _ _ (Keeps-link_parent i s)
      (λ p. Keeps-follow (link_parents f) p (Keeps-link_parents f)))

abbrev OptKeep : Option Action → Type 0
OptKeep none = Unit
OptKeep (some act) = Keeps act

argument_for-OptKeep :
    (field : Bytes) (f a : ℕ) (found : Option Action) (args : List Arg)
    → OptKeep found
    → ArgsKeep args
    → OptKeep (argument_for field f a found args)
unfolding argument_for
argument_for-OptKeep field f a found [] k ks = k
argument_for-OptKeep field f a found ((name, act) ∷ args) k (ka, ks) =
    if_both OptKeep (names_it name field) ka (
      argument_for-OptKeep field f (a + 1) (if positional name a f then some act else found) args
        (if_both OptKeep (positional name a f) ka k) ks)

Keeps-initialiser : (o : Option Action) → OptKeep o → Keeps (initialiser o)
Keeps-initialiser none k = search keeps_rules
Keeps-initialiser (some act) k = k

Keeps-compile_fields :
    (args : List Arg) (f : ℕ) (fields : List StructField)
    → ArgsKeep args
    → Keeps (compile_fields args f fields)
unfolding compile_fields
Keeps-compile_fields args f [] k = search keeps_rules
Keeps-compile_fields args f (field ∷ fields) k =
    Keeps-bind _ _
      (Keeps-initialiser (argument_for field.name f 0 none args)
        (argument_for-OptKeep field.name f 0 none args tt k))
      (λ _. Keeps-compile_fields args (f + 1) fields k)

Keeps-all_fields :
    (args : List Arg) (o : Option (List StructField)) → ArgsKeep args → Keeps (all_fields args o)
Keeps-all_fields args none k = Keeps-endlessly
Keeps-all_fields args (some fields) k = Keeps-compile_fields args 0 fields k

pub Keeps-compile_struct_ctor :
    (line : ℕ) (args : List Arg) (i : ℕ) → ArgsKeep args → Keeps (compile_struct_ctor line args i)
unfolding compile_struct_ctor
Keeps-compile_struct_ctor line args i k =
    search (keeps_rules, Keeps-link_parents, Keeps-all_fields) depth 20
