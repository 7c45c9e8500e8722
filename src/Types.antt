-- ===== src/Types.antt =====
-- src/types.c, src/types.h: type tags and structural type descriptors.
-- A C enum is an int, and the .myc reader casts any byte to `Type`, so a tag is a number.
-- `TypeSpec` is a pointer: `null`, or a node with its base, name, elem, key and args. Two nodes of a
-- value are never the same address here, so the pointer shortcut of `typespec_equal` fires on null.
pub mod Equal
mod Tests
use myon.Base.{
  ℕ, suc, Bool, true, false, ◌&&◌, ◌||◌, Option, none, some, ◌==◌, if◌then◌else◌, Bytes, str_eq,
}

abbrev pub Tag : Type 0
Tag = ℕ

abbrev pub type_unknown : Tag
type_unknown = 0

abbrev pub type_int : Tag
type_int = 1

abbrev pub type_float : Tag
type_float = 2

abbrev pub type_str : Tag
type_str = 3

abbrev pub type_char : Tag
type_char = 4

abbrev pub type_bool : Tag
type_bool = 5

abbrev pub type_void : Tag
type_void = 6

abbrev pub type_error : Tag
type_error = 7

abbrev pub type_nil : Tag
type_nil = 8

abbrev pub type_array : Tag
type_array = 9

abbrev pub type_map : Tag
type_map = 10

abbrev pub type_struct : Tag
type_struct = 11

abbrev pub type_func : Tag
type_func = 12

abbrev pub type_typeparam : Tag
type_typeparam = 13

abbrev pub type_task : Tag
type_task = 14

mutual
  pub data TypeSpec : Type 0 where
    null : TypeSpec
    node : Tag → Option Bytes → TypeSpec → TypeSpec → TypeSpecs → TypeSpec

  pub data TypeSpecs : Type 0 where
    nil : TypeSpecs
    cons : TypeSpec → TypeSpecs → TypeSpecs

-- `t->arg_count`
abbrev pub arg_count : TypeSpecs → ℕ
arg_count = elim [ nil ↦ 0 | cons t (ts → n) ↦ suc n ]

abbrev pub typespec_new : Tag → TypeSpec
typespec_new base = node base none null null nil

-- `a->name && b->name && strcmp(a->name, b->name) == 0`
unfoldable pub name_eq : Option Bytes → Option Bytes → Bool
unfolding str_eq
name_eq (some a) (some b) = str_eq a b
name_eq _ _ = false

abbrev pub is_named : Tag → Bool
is_named base = base == type_struct || base == type_typeparam

-- The arguments are two trees. For one and the same node the code answers 1 at once; that is what
-- the comparison gives too, if every struct and parameter node in it has a name.
mutual
  pub typespec_equal : TypeSpec → TypeSpec → Bool
  typespec_equal null null = true
  typespec_equal null (node b n e k xs) = false
  typespec_equal (node b n e k xs) null = false
  typespec_equal (node b n e k xs) (node b' n' e' k' ys) =
      b == b'
      && (if b == type_array
          then typespec_equal e e'
          else if b == type_map
          then typespec_equal k k' && typespec_equal e e'
          else if is_named b
          then name_eq n n' && args_equal xs ys
          else true)

  -- `arg_count` is compared first, then the arguments in order.
  pub args_equal : TypeSpecs → TypeSpecs → Bool
  args_equal nil nil = true
  args_equal nil (cons t ts) = false
  args_equal (cons t ts) nil = false
  args_equal (cons t ts) (cons u us) = typespec_equal t u && args_equal ts us

mutual
  pub typespec_clone : TypeSpec → TypeSpec
  typespec_clone null = null
  typespec_clone (node b n e k xs) = node b n (typespec_clone e) (typespec_clone k) (args_clone xs)

  pub args_clone : TypeSpecs → TypeSpecs
  args_clone nil = nil
  args_clone (cons t ts) = cons (typespec_clone t) (args_clone ts)
