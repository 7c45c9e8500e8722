-- ===== src/Value.antt =====
-- src/value.c and src/value.h: the runtime's values, arrays, maps and structs.
use myon.Base.{
  ℕ, zero, suc, length, ◌+◌, ◌*◌, ◌%◌, ◌/◌, ◌^◌, Bool, true, false, not, ◌&&◌, ◌||◌, ◌≡◌, List, [],
  ◌∷◌, ◌++◌, Option, none, some, ◌==◌, if◌then◌else◌, Bytes, str_eq, ltb,
}
use myon.Base.Words.{ℤ, pos, negsuc}
pub mod Equal
pub mod Maps
pub mod Arrays
mod Tests

-- The heap values other than texts are references: the tag says of what kind.
pub data RefKind : Type 0 where
  ref_array : RefKind
  ref_map : RefKind
  ref_struct : RefKind
  ref_func : RefKind
  ref_task : RefKind

-- A double is its 64 bits. A text is its bytes, since no code writes into one that is shared.
pub data Value : Type 0 where
  v_int : ℤ → Value
  v_float : ℕ → Value
  v_bool : Bool → Value
  v_nil : Value
  v_void : Value
  v_str : Bytes → Value
  v_char : Bytes → Value
  v_error : Bytes → Value
  v_ref : RefKind → ℕ → Value

abbrev pub int_eq : ℤ → ℤ → Bool
int_eq (pos a) (pos b) = a == b
int_eq (pos a) (negsuc b) = false
int_eq (negsuc a) (pos b) = false
int_eq (negsuc a) (negsuc b) = a == b

-- IEEE 754 binary64: the exponent is full and the fraction is not 0.
abbrev pub is_nan : ℕ → Bool
is_nan d = ltb (2047 * 2 ^ 52) (d % 2 ^ 63)

-- `==` on doubles: no NaN equals anything, and the two zeros are equal.
abbrev pub float_eq : ℕ → ℕ → Bool
float_eq a b =
    not (is_nan a) && (not (is_nan b) && (a == b || (a % 2 ^ 63 == 0 && b % 2 ^ 63 == 0)))

abbrev pub bool_eq : Bool → Bool → Bool
bool_eq true b = b
bool_eq false b = not b

abbrev pub kind_eq : RefKind → RefKind → Bool
kind_eq ref_array ref_array = true
kind_eq ref_map ref_map = true
kind_eq ref_struct ref_struct = true
kind_eq ref_func ref_func = true
kind_eq ref_task ref_task = true
kind_eq _ _ = false

-- A void value's union is 0, so two of them compare equal as references.
unfoldable pub value_equal : Value → Value → Bool
value_equal (v_int a) (v_int b) = int_eq a b
value_equal (v_float a) (v_float b) = float_eq a b
value_equal (v_bool a) (v_bool b) = bool_eq a b
value_equal v_nil v_nil = true
value_equal v_void v_void = true
value_equal (v_str a) (v_str b) = str_eq a b
value_equal (v_char a) (v_char b) = str_eq a b
value_equal (v_error a) (v_error b) = str_eq a b
value_equal (v_ref k a) (v_ref l b) = kind_eq k l && a == b
value_equal _ _ = false

abbrev int_nonzero : ℤ → Bool
int_nonzero (pos a) = not (a == 0)
int_nonzero (negsuc a) = true

-- A NaN is not 0 and so it is true.
unfoldable pub value_truthy : Value → Bool
value_truthy (v_bool b) = b
value_truthy (v_int i) = int_nonzero i
value_truthy (v_float d) = not (d % 2 ^ 63 == 0)
value_truthy v_nil = false
value_truthy _ = true

-- The type name and the declaration are not read by the code modelled here.
pub record StructData : Type 0 where
  pub fields : List (Bytes × Value)

-- The first field of the name.
abbrev pub field_in : List (Bytes × Value) → Bytes → Option Value
field_in [] name = none
field_in ((n, v) ∷ fs) name = if str_eq n name then some v else field_in fs name

unfoldable pub struct_field_ptr : StructData → Bytes → Option Value
struct_field_ptr sv name = field_in sv.fields name

unfoldable pub struct_add_field : StructData → Bytes → Value → StructData
struct_add_field sv name v = record { fields = sv.fields ++ (name, v) ∷ [] }

-- `count` is the length of the items.
pub record ArrayData : Type 0 where
  pub items : List Value
  pub capacity : ℕ

pub record MapEntry : Type 0 where
  pub key : Value
  pub val : Value

abbrev pub MapData : Type 0
MapData = List MapEntry

unfoldable pub map_find : MapData → Value → Option MapEntry
map_find [] key = none
map_find (e ∷ m) key = if value_equal e.key key then some e else map_find m key

abbrev pub keep_entry : MapEntry → Option MapData → Option MapData
keep_entry e none = none
keep_entry e (some m) = some (e ∷ m)

-- The assignment to the entry that `map_find` gives; `none` if it gives none.
abbrev pub assign_found : MapData → Value → Value → Option MapData
assign_found [] key val = none
assign_found (e ∷ m) key val =
    if value_equal e.key key
    then some (record e { val = val } ∷ m)
    else keep_entry e (assign_found m key val)

abbrev pub assign_or_add : MapData → Value → Value → Option MapData → MapData
assign_or_add m key val (some assigned) = assigned
assign_or_add m key val none = record { key = key; val = val } ∷ m

unfoldable pub map_set : MapData → Value → Value → MapData
map_set m key val = assign_or_add m key val (assign_found m key val)

abbrev pub entry_val : Option MapEntry → Option Value
entry_val none = none
entry_val (some e) = some e.val

unfoldable pub map_get : MapData → Value → Option Value
map_get m key = entry_val (map_find m key)

abbrev is_some {ℓ} : {A : Type ℓ} → Option A → Bool
is_some none = false
is_some (some a) = true

unfoldable pub map_has : MapData → Value → Bool
map_has m key = is_some (map_find m key)

-- The map without the first entry of the key, and whether there was one.
unfoldable pub map_delete : MapData → Value → MapData × Bool
map_delete [] key = ([], false)
map_delete (e ∷ m) key =
    if value_equal e.key key
    then (m, true)
    else (let rest = map_delete m key in (e ∷ rest.0, rest.1))

abbrev pub grown : ℕ → ℕ
grown zero = 8
grown (suc n) = suc n * 2

unfoldable pub array_push : ArrayData → Value → ArrayData
array_push a v = record {
  items = a.items ++ v ∷ [];
  capacity = if length a.items == a.capacity then grown a.capacity else a.capacity;
}

-- The items but the last one, and the last one.
abbrev pub last_of : Value → List Value → List Value × Value
last_of v [] = ([], v)
last_of v (w ∷ ws) = (let rest = last_of w ws in (v ∷ rest.0, rest.1))

abbrev pub pop_last : ArrayData → List Value → Option (Value × ArrayData)
pop_last a [] = none
pop_last a (v ∷ vs) = (let split = last_of v vs in some (split.1, record a { items = split.0 }))

-- `none` is the answer 0.
unfoldable pub array_pop : ArrayData → Option (Value × ArrayData)
array_pop a = pop_last a a.items
