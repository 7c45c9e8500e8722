-- ===== src/Mvm/Pool/Laws.antt =====
-- What interning keeps: no constant compares equal to an earlier one, and indices stay valid.
use myon.Base.{
  ℕ, suc, ◌+◌, ◌-◌, ◌≤◌, ◌≡◌, refl, true, false, Bool-cases, inl, inr, List, [], ◌∷◌, ◌++◌,
  append-nil, append_assoc, none, some, Option-cases, ◌⊎◌, Bytes, length, get_elem?,
  get_elem?-append_length, arith,
}
use myon.Mvm.{ConstEntry, int, typespec, Module}
use myon.Mvm.Pool.{
  same_const, find_const, intern, find_native, module_add_native, module_add_const_typespec,
}
use myon.Types.{TypeSpec, typespec_clone}

-- No entry of `cs` compares equal to one before it, where `ps` stand before all of `cs`. A type
-- descriptor and a NaN compare equal to nothing, and so they can be there more than once.
abbrev pub DistinctAfter : List ConstEntry → List ConstEntry → Type 0
DistinctAfter ps [] = Unit
DistinctAfter ps (c ∷ cs) = (find_const c 0 ps ≡ none) × DistinctAfter (ps ++ c ∷ []) cs

-- The same for names: `ns` has no name twice, nor one of `ps`.
abbrev pub NewAfter : List Bytes → List Bytes → Type 0
NewAfter ps [] = Unit
NewAfter ps (n ∷ ns) = (find_native n 0 ps ≡ none) × NewAfter (ps ++ n ∷ []) ns

-- No constant of the pool compares equal to an earlier one, and no native name is there twice.
pub record IsInterned (m : Module) : Type 0 where
  pub consts : DistinctAfter [] m.consts
  pub natives : NewAfter [] m.natives

DistinctAfter-concat :
    (ps cs : List ConstEntry) (c : ConstEntry)
    → DistinctAfter ps cs
    → find_const c 0 (ps ++ cs) ≡ none
    → DistinctAfter ps (cs ++ c ∷ [])
DistinctAfter-concat ps [] c d h = (rw append-nil at h, tt)
DistinctAfter-concat ps (x ∷ cs) c d h =
    (d.0, DistinctAfter-concat (ps ++ x ∷ []) cs c d.1 (rw append_assoc h))

NewAfter-concat :
    (ps ns : List Bytes) (n : Bytes)
    → NewAfter ps ns
    → find_native n 0 (ps ++ ns) ≡ none
    → NewAfter ps (ns ++ n ∷ [])
NewAfter-concat ps [] n d h = (rw append-nil at h, tt)
NewAfter-concat ps (x ∷ ns) n d h =
    (d.0, NewAfter-concat (ps ++ x ∷ []) ns n d.1 (rw append_assoc h))

-- A find gives an index in range, and the entry there passes the test.
find_const_sound :
    (c : ConstEntry) (i k : ℕ) (ps : List ConstEntry)
    → find_const c i ps ≡ some k
    → (e : ConstEntry) × (i ≤ k) × (get_elem? ps (k - i) ≡ some e) × (same_const e c ≡ true)
unfolding find_const
find_const_sound c i k [] h = absurd (cc)
find_const_sound c i k (p ∷ ps) h = elim (Bool-cases (same_const p c)) [
  | inl here ↦
      let same : i ≡ k = ground arith in
      let zero_off : k - i ≡ 0 = omega arith in (p, omega arith, rw zero_off, here)
  | inr later ↦
      let (e, le, found, same) = find_const_sound c (i + 1) k ps (ground arith) in
      let next : k - i ≡ suc (k - (i + 1)) = omega arith in (e, omega arith, rw next found, same)
]

-- Behind entries that do not match, the first match is at the end.
find_const_end :
    (c : ConstEntry) (i : ℕ) (ps : List ConstEntry)
    → find_const c i ps ≡ none
    → same_const c c ≡ true
    → find_const c i (ps ++ c ∷ []) ≡ some (i + length ps)
unfolding find_const
find_const_end c i [] h same = ground arith
find_const_end c i (p ∷ ps) h same = ground (arith, find_const_end c (i + 1) ps)

-- The result of interning `c`: the entry at the index stands for `c`, the old entries keep
-- their indices, nothing but the pool changes, and no constant compares equal to an earlier one.
pub record Interned (m : Module) (c : ConstEntry) (r : ℕ × Module) : Type 0 where
  pub entry : ConstEntry
  pub at_index : get_elem? r.1.consts r.0 ≡ some entry
  pub stands_for : (same_const entry c ≡ true) ⊎ (entry ≡ c)
  pub added : List ConstEntry
  pub kept : r.1.consts ≡ m.consts ++ added
  pub rest : r.1 ≡ record m { consts = r.1.consts }
  pub distinct : DistinctAfter [] r.1.consts

intern_found :
    (m : Module) (c : ConstEntry) (k : ℕ)
    → DistinctAfter [] m.consts
    → find_const c 0 m.consts ≡ some k
    → Interned m c (k, m)
intern_found m c k d h =
    let (e, le, found, same) = find_const_sound c 0 k m.consts h in
    let off : k - 0 ≡ k = omega arith in
    record {
      entry = e;
      at_index = rw off at found;
      stands_for = inl same;
      added = [];
      kept = rw append-nil;
      rest = refl;
      distinct = d;
    }

intern_new :
    (m : Module) (c : ConstEntry)
    → DistinctAfter [] m.consts
    → find_const c 0 m.consts ≡ none
    → Interned m c (length m.consts, record m { consts = m.consts ++ c ∷ [] })
intern_new m c d h = record {
  entry = c;
  at_index = get_elem?-append_length m.consts [] c;
  stands_for = inr refl;
  added = c ∷ [];
  kept = refl;
  rest = refl;
  distinct = DistinctAfter-concat [] m.consts c d h;
}

-- If no constant of the pool compares equal to an earlier one, where a type descriptor and a NaN
-- compare equal to nothing, then interning a constant gives an index whose entry compares equal to
-- it or is it, keeps the old entries at their indices, changes nothing but the pool, and still no
-- constant compares equal to an earlier one.
pub intern-Interned :
    (m : Module) (c : ConstEntry) → DistinctAfter [] m.consts → Interned m c (intern m c)
unfolding intern
intern-Interned m c d = elim (Option-cases (find_const c 0 m.consts)) [
  | inl new ↦ rw new (intern_new m c d new)
  | inr (k, found) ↦ rw found (intern_found m c k d found)
]

-- A constant that equals itself gets the same index when it is interned again, and the module does
-- not change.
pub intern_twice :
    (m : Module) (c : ConstEntry) → same_const c c ≡ true → intern (intern m c).1 c ≡ intern m c
unfolding intern
intern_twice m c same = elim (Option-cases (find_const c 0 m.consts)) [
  | inl new ↦
      let start : 0 + length m.consts ≡ length m.consts = omega arith in
      rw new (rw (find_const_end c 0 m.consts new same) (rw start))
  | inr (k, found) ↦ rw found (rw found)
]

-- Interning keeps the whole module so, with its constants and its native names.
pub intern-IsInterned : (m : Module) (c : ConstEntry) → IsInterned m → IsInterned (intern m c).1
unfolding intern
intern-IsInterned m c h = elim (Option-cases (find_const c 0 m.consts)) [
  | inl new ↦
      rw new
        (record { consts = DistinctAfter-concat [] m.consts c h.consts new; natives = h.natives })
  | inr (k, found) ↦ rw found h
]

-- Adding a native name keeps the pools so.
pub add_native-IsInterned :
    (m : Module) (s : Bytes) → IsInterned m → IsInterned (module_add_native m s).1
unfolding module_add_native
add_native-IsInterned m s h = elim (Option-cases (find_native s 0 m.natives)) [
  | inl new ↦
      rw new (record { consts = h.consts; natives = NewAfter-concat [] m.natives s h.natives new })
  | inr (k, found) ↦ rw found h
]

-- Type descriptors are never found.
same_const_typespec : (e : ConstEntry) (t : TypeSpec) → same_const e (typespec t) ≡ false
unfolding same_const
same_const_typespec (int v) t = refl
same_const_typespec e t = refl

find_const_typespec :
    (t : TypeSpec) (i : ℕ) (ps : List ConstEntry) → find_const (typespec t) i ps ≡ none
unfolding find_const
find_const_typespec t i [] = refl
find_const_typespec t i (p ∷ ps) = rw (same_const_typespec p t, find_const_typespec t (i + 1) ps)

pub add_typespec-IsInterned :
    (m : Module) (t : TypeSpec) → IsInterned m → IsInterned (module_add_const_typespec m t).1
add_typespec-IsInterned m t h = record {
  consts =
      DistinctAfter-concat [] m.consts (typespec (typespec_clone t)) h.consts
        (find_const_typespec (typespec_clone t) 0 m.consts);
  natives = h.natives;
}
