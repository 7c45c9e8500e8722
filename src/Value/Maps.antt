-- ===== src/Value/Maps.antt =====
-- src/value.c: lookups in a map after an assignment and after a deletion.
pub mod Keys
use myon.Base.{
  ◌≡◌, refl, ◌∙◌, Bool, true, false, Bool-cases, inl, inr, if_cases, Option, none, some, [], ◌∷◌,
  if◌then◌else◌, arith,
}
use myon.Value.{
  Value, value_equal, MapEntry, MapData, map_find, assign_found, assign_or_add, keep_entry, map_set,
  map_get, map_delete, entry_val,
}
use myon.Value.Equal.{value_equal-same, value_equal_comm}

-- The lookup of `k` after the assignment, where there is an entry to assign to.
abbrev pub After : MapData → Value → Value → Value → Option MapData → Type 0
After m key val k none = Unit
After m key val k (some n) =
    entry_val (map_find n k) ≡ (if value_equal key k then some val else entry_val (map_find m k))

unequal :
    (a b k : Value) → value_equal a b ≡ false → value_equal a k ≡ true → value_equal b k ≡ false
unequal a b k h g = ground (
  arith,
  value_equal-same b k a,
  value_equal_comm a b,
  value_equal_comm a k,
  value_equal_comm b a,
  value_equal_comm k a,
)

keep_entry-After :
    (e : MapEntry) (m : MapData) (key val k : Value) (o : Option MapData)
    → value_equal e.key key ≡ false
    → After m key val k o
    → After (e ∷ m) key val k (keep_entry e o)
unfolding map_find
keep_entry-After e m key val k none h a = tt
keep_entry-After e m key val k (some n) h a = elim (Bool-cases (value_equal e.key k)) [
  | inl same ↦ rw (same, unequal e.key key k h same) refl
  | inr other ↦ rw other a
]

assigned_here :
    (e : MapEntry) (m : MapData) (key val k : Value)
    → value_equal e.key key ≡ true
    → After (e ∷ m) key val k (some (record e { val = val } ∷ m))
unfolding map_find
assigned_here e m key val k h =
    let same = value_equal-same e.key key k h in
    elim (Bool-cases (value_equal key k)) [
      | inl hit ↦ rw (same, hit) refl
      | inr miss ↦ rw (same, miss) refl
    ]

pub assign_found-After :
    (m : MapData) (key val k : Value) → After m key val k (assign_found m key val)
assign_found-After [] key val k = tt
assign_found-After (e ∷ m) key val k =
    if_cases (After (e ∷ m) key val k) (value_equal e.key key) (assigned_here e m key val k)
      (λ other.
        keep_entry-After e m key val k (assign_found m key val) other
          (assign_found-After m key val k))

assign_or_add-find :
    (m : MapData) (key val k : Value) (o : Option MapData)
    → After m key val k o
    → entry_val (map_find (assign_or_add m key val o) k)
      ≡ (if value_equal key k then some val else entry_val (map_find m k))
unfolding map_find
assign_or_add-find m key val k (some n) a = a
assign_or_add-find m key val k none a = elim (Bool-cases (value_equal key k)) [
  | inl hit ↦ rw hit refl
  | inr miss ↦ rw miss refl
]

-- After an assignment to a map, a key that compares equal to the assigned one gives the new value,
-- and every other key gives what it gave before.
pub map_get-map_set :
    (m : MapData) (key val k : Value)
    → map_get (map_set m key val) k ≡ (if value_equal key k then some val else map_get m k)
unfolding map_get map_set
map_get-map_set m key val k =
    assign_or_add-find m key val k (assign_found m key val) (assign_found-After m key val k)

-- No two entries have keys that compare equal.
abbrev pub DistinctKeys : MapData → Type 0
DistinctKeys [] = Unit
DistinctKeys (e ∷ m) = (map_find m e.key ≡ none) × DistinctKeys m

map_find_same : (m : MapData) (a b : Value) → value_equal a b ≡ true → map_find m a ≡ map_find m b
unfolding map_find
map_find_same [] a b h = refl
map_find_same (e ∷ m) a b h =
    let here : value_equal e.key a ≡ value_equal e.key b =
      value_equal_comm e.key a ∙ value_equal-same a b e.key h ∙ value_equal_comm b e.key in
    rw (here, map_find_same m a b h) refl

delete_head :
    (e : MapEntry) (m : MapData) (key k : Value)
    → value_equal e.key key ≡ true
    → map_find m e.key ≡ none
    → entry_val (map_find m k)
      ≡ (if value_equal key k then none else entry_val (map_find (e ∷ m) k))
unfolding map_find
delete_head e m key k h fresh =
    let same = value_equal-same e.key key k h in
    elim (Bool-cases (value_equal key k)) [
      | inl hit ↦ rw (hit, ← map_find_same m e.key k (same ∙ hit), fresh) refl
      | inr miss ↦ rw (miss, same ∙ miss) refl
    ]

delete_tail :
    (e : MapEntry) (m n : MapData) (key k : Value)
    → value_equal e.key key ≡ false
    → entry_val (map_find n k) ≡ (if value_equal key k then none else entry_val (map_find m k))
    → entry_val (map_find (e ∷ n) k)
      ≡ (if value_equal key k then none else entry_val (map_find (e ∷ m) k))
unfolding map_find
delete_tail e m n key k h ih = elim (Bool-cases (value_equal e.key k)) [
  | inl same ↦ rw (same, unequal e.key key k h same) refl
  | inr other ↦ rw other ih
]

-- In a map with no two equal keys, after a deletion the key gives nothing and every other key
-- gives what it gave before.
pub map_get-map_delete :
    (m : MapData) (key k : Value)
    → DistinctKeys m
    → map_get (map_delete m key).0 k ≡ (if value_equal key k then none else map_get m k)
unfolding map_get map_delete
map_get-map_delete [] key k d =
    unfold map_find in
    elim (Bool-cases (value_equal key k)) [ inl hit ↦ rw hit refl | inr miss ↦ rw miss refl ]
map_get-map_delete (e ∷ m) key k d =
    if_cases
      (λ (r : MapData × Bool).
        entry_val (map_find r.0 k)
        ≡ (if value_equal key k then none else entry_val (map_find (e ∷ m) k)))
      (value_equal e.key key) (λ h. delete_head e m key k h d.0)
      (λ h. delete_tail e m (map_delete m key).0 key k h (map_get-map_delete m key k d.1))
