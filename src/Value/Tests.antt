-- ===== src/Value/Tests.antt =====
-- src/value.c on concrete values.
use myon.Base.{str_eq, ◌≡◌, refl, [], ◌∷◌, some, none, if◌then◌else◌}
use myon.Base.Text.{codes}
use myon.Base.Words.{pos}
use myon.Value.{
  Value, v_int, v_str, v_float, MapData, ArrayData, value_equal, map_get, map_set, map_delete,
  array_push, array_pop,
}
use myon.Value.Equal.{value_equal-same}
use myon.Value.Maps.Keys.{map_operations-DistinctKeys}
use myon.Value.Maps.{DistinctKeys, map_get-map_set, map_get-map_delete}

abbrev ages : MapData
ages =
    record { key = v_str (codes "ann"); val = v_int (pos 30) }
    ∷ record { key = v_str (codes "bob"); val = v_int (pos 41) }
    ∷ []

abbrev ann : Value
ann = v_str (codes "ann")

abbrev bob : Value
bob = v_str (codes "bob")

map_get-map_set_example :
    map_get (map_set ages bob (v_int (pos 42))) bob
    ≡ (if value_equal bob bob then some (v_int (pos 42)) else map_get ages bob)
map_get-map_set_example = map_get-map_set ages bob (v_int (pos 42)) bob

map_get-map_delete_example :
    map_get (map_delete ages ann).0 bob ≡ (if value_equal ann bob then none else map_get ages bob)
unfolding myon.Value.map_find value_equal str_eq
map_get-map_delete_example = map_get-map_delete ages ann bob (refl, (refl, tt))

map_operations-DistinctKeys_example :
    DistinctKeys (map_set ages bob (v_int (pos 7))) × DistinctKeys (map_delete ages bob).0
unfolding myon.Value.map_find value_equal str_eq
map_operations-DistinctKeys_example =
    map_operations-DistinctKeys ages bob (v_int (pos 7)) (refl, (refl, tt))

-- The two zeros of a double.
value_equal-same_example :
    value_equal (v_float 0) (v_float 1) ≡ value_equal (v_float 9223372036854775808) (v_float 1)
unfolding value_equal
value_equal-same_example =
    value_equal-same (v_float 0) (v_float 9223372036854775808) (v_float 1) refl
