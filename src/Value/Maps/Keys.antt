-- ===== src/Value/Maps/Keys.antt =====
-- src/value.c: no operation on a map makes two entries with equal keys.
use myon.Base.{
  arith, ◌≡◌, refl, ◌∙◌, Bool, false, Bool-cases, inl, inr, Option, none, some, [], ◌∷◌, if_cases,
}
use myon.Value.{
  Value, value_equal, MapEntry, MapData, map_find, map_get, assign_found, assign_or_add, keep_entry,
  map_set, map_delete, entry_val,
}
use myon.Value.Equal.{value_equal_comm}
use myon.Value.Maps.{After, assign_found-After, DistinctKeys, map_get-map_delete}

entry_val-none : (o : Option MapEntry) → entry_val o ≡ none → o ≡ none
entry_val-none none h = refl
entry_val-none (some e) h = ground arith

-- What an assignment leaves: a new key was not there, or the keys are as they were.
abbrev Keeps : MapData → Value → Option MapData → Type 0
Keeps m key none = map_find m key ≡ none
Keeps m key (some n) = DistinctKeys n

keep_entry-Keeps :
    (e : MapEntry) (m : MapData) (key val : Value) (o : Option MapData)
    → value_equal e.key key ≡ false
    → map_find m e.key ≡ none
    → After m key val e.key o
    → Keeps m key o
    → Keeps (e ∷ m) key (keep_entry e o)
unfolding map_find
keep_entry-Keeps e m key val none h fresh a k = rw h k
keep_entry-Keeps e m key val (some n) h fresh a k =
    let apart : value_equal key e.key ≡ false = value_equal_comm key e.key ∙ h in
    (entry_val-none (map_find n e.key) (a ∙ rw (apart, fresh) refl), k)

assign_found-Keeps :
    (m : MapData) (key val : Value) → DistinctKeys m → Keeps m key (assign_found m key val)
unfolding map_find
assign_found-Keeps [] key val d = refl
assign_found-Keeps (e ∷ m) key val d =
    if_cases (Keeps (e ∷ m) key) (value_equal e.key key) (λ same. d)
      (λ other.
        keep_entry-Keeps e m key val (assign_found m key val) other d.0
          (assign_found-After m key val e.key) (assign_found-Keeps m key val d.1))

assign_or_add-DistinctKeys :
    (m : MapData) (key val : Value) (o : Option MapData)
    → DistinctKeys m
    → Keeps m key o
    → DistinctKeys (assign_or_add m key val o)
assign_or_add-DistinctKeys m key val none d k = (k, d)
assign_or_add-DistinctKeys m key val (some n) d k = k

find-map_delete :
    (e : MapEntry) (m : MapData) (key : Value)
    → map_find m e.key ≡ none
    → DistinctKeys m
    → map_find (map_delete m key).0 e.key ≡ none
unfolding map_get
find-map_delete e m key fresh d = entry_val-none (map_find (map_delete m key).0 e.key) (
    map_get-map_delete m key e.key d ∙ elim (Bool-cases (value_equal key e.key)) [
      | inl same ↦ rw same refl
      | inr other ↦ rw (other, fresh) refl
    ])

map_delete-DistinctKeys :
    (m : MapData) (key : Value) → DistinctKeys m → DistinctKeys (map_delete m key).0
unfolding map_delete
map_delete-DistinctKeys [] key d = tt
map_delete-DistinctKeys (e ∷ m) key d =
    if_cases (λ (r : MapData × Bool). DistinctKeys r.0) (value_equal e.key key) (λ same. d.1)
      (λ other. (find-map_delete e m key d.0 d.1, map_delete-DistinctKeys m key d.1))

-- In a map with no two equal keys, an assignment and a deletion leave no two equal keys.
pub map_operations-DistinctKeys :
    (m : MapData) (key val : Value)
    → DistinctKeys m
    → DistinctKeys (map_set m key val) × DistinctKeys (map_delete m key).0
unfolding map_set
map_operations-DistinctKeys m key val d = (
  assign_or_add-DistinctKeys m key val (assign_found m key val) d (assign_found-Keeps m key val d),
  map_delete-DistinctKeys m key d,
)
