-- ===== src/Types/Tests.antt =====
-- src/types.c on concrete descriptors.
use myon.Base.{str_eq, ◌≡◌, refl, true, some, none}
use myon.Base.Text.{codes}
use myon.Types.{
  TypeSpec, TypeSpecs, null, node, nil, cons, type_int, type_array, type_struct, typespec_equal,
  typespec_clone,
}
use myon.Types.Equal.{typespec_equal-clone}

-- `Box<array<int>>`, and the array with a name that the comparison does not look at.
abbrev int_array : TypeSpec
int_array = node type_array none (node type_int none null null nil) null nil

abbrev box : TypeSpec → TypeSpec
box t = node type_struct (some (codes "Box")) null null (cons t nil)

typespec_equal-clone_example :
    (typespec_equal (typespec_clone (box int_array)) (box int_array) ≡ true)
    × (typespec_equal (box int_array) (typespec_clone (box int_array)) ≡ true)
unfolding myon.Types.name_eq str_eq
typespec_equal-clone_example =
    typespec_equal-clone (box int_array) (refl, tt, tt, ((refl, (refl, tt, tt, tt), tt, tt), tt))
