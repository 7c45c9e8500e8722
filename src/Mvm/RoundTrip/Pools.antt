-- ===== src/Mvm/RoundTrip/Pools.antt =====
-- The constant pool and the native table: reading interns every entry again, and this adds each.
use myon.Base.{
  ℕ, suc, ◌+◌, ◌^◌, ◌<◌, ◌≤◌, ◌≡◌, refl, ap, true, false, List, [], ◌∷◌, ◌++◌, append-nil,
  append_assoc, none, Bytes, length, length-append, arith,
}
use myon.Base.Words.{FitsSigned, to_u64, of_u64-to_u64, to_u64-lt}
use myon.Types.Equal.{clone_same}
use myon.Mvm.{ConstEntry, int, float, str, bool, nil, typespec, Module}
use myon.Mvm.Pool.{same_const, find_const, intern, find_native, module_add_native}
use myon.Mvm.Pool.Laws.{DistinctAfter, NewAfter}
use myon.Mvm.Writer.{buf_u8, buf_str, ser_const, ser_all, ser_typespec}
use myon.Mvm.Reader.Monad.{Rd}
use myon.Mvm.Reader.{read_const, read_native, read_each}
use myon.Mvm.RoundTrip.Fields.{
  Reads, Reads-pure, Reads-bind, Reads-end, Reads-rd8, Reads-rd_le, IsCString, Reads-rdstr,
}
use myon.Mvm.RoundTrip.Specs.{canon, SpecFits, Reads-typespec}

-- What the format keeps of a constant.
unfoldable pub canon_const : ConstEntry → ConstEntry
canon_const (typespec t) = typespec (canon t)
canon_const (int v) = int v
canon_const (float d) = float d
canon_const (str s) = str s
canon_const (bool b) = bool b
canon_const nil = nil

abbrev pub map_consts : List ConstEntry → List ConstEntry
map_consts [] = []
map_consts (c ∷ cs) = canon_const c ∷ map_consts cs

-- Each payload fits its field.
abbrev pub ConstFits : ConstEntry → Type 0
ConstFits (int v) = FitsSigned 63 v
ConstFits (float d) = d < 2 ^ 64
ConstFits (str s) = IsCString s
ConstFits (typespec t) = SpecFits t
ConstFits _ = Unit

abbrev pub All {ℓ} : {A : Type ℓ} → (A → Type 0) → List A → Type 0
All P [] = Unit
All P (x ∷ xs) = P x × All P xs

same_const-canon : (e c : ConstEntry) → same_const (canon_const e) (canon_const c) ≡ same_const e c
unfolding canon_const same_const
same_const-canon (int a) (int b) = refl
same_const-canon e c = ground arith

find_const-canon :
    (c : ConstEntry) (i : ℕ) (ps : List ConstEntry)
    → find_const (canon_const c) i (map_consts ps) ≡ find_const c i ps
unfolding find_const
find_const-canon c i [] = refl
find_const-canon c i (e ∷ ps) = rw (same_const-canon e c, find_const-canon c (i + 1) ps)

-- Interning an entry that is not there appends it.
intern-none :
    (m : Module) (c : ConstEntry)
    → find_const c 0 m.consts ≡ none
    → (intern m c).1 ≡ record m { consts = m.consts ++ c ∷ [] }
unfolding intern
intern-none m c h = rw h

-- One entry, read where it is new.
Reads-const :
    (fuel : ℕ) (m : Module) (c : ConstEntry)
    → ConstFits c
    → length (ser_const c) ≤ fuel
    → find_const (canon_const c) 0 m.consts ≡ none
    → Reads (read_const fuel m) (ser_const c) (record m { consts = m.consts ++ canon_const c ∷ [] })
unfolding read_const ser_const canon_const
Reads-const fuel m (int v) fits h new = rw (← intern-none m (int v) new) (
    Reads-bind _ (Reads-rd8 1 (omega arith)) (
      Reads-end _ (Reads-rd_le 8 (to_u64 v) (to_u64-lt v))
        (rw (of_u64-to_u64 v fits) (Reads-pure _))))
Reads-const fuel m (float d) fits h new =
    rw (← intern-none m (float d) new)
      (Reads-bind _ (Reads-rd8 2 (omega arith)) (Reads-end _ (Reads-rd_le 8 d fits) (Reads-pure _)))
Reads-const fuel m (str s) fits h new =
    rw (← intern-none m (str s) new)
      (Reads-bind _ (Reads-rd8 3 (omega arith)) (Reads-end _ (Reads-rdstr s fits) (Reads-pure _)))
Reads-const fuel m (bool true) fits h new = rw (← intern-none m (bool true) new) (
    Reads-bind _ (Reads-rd8 4 (omega arith))
      (Reads-end _ (Reads-rd8 1 (omega arith)) (Reads-pure _)))
Reads-const fuel m (bool false) fits h new = rw (← intern-none m (bool false) new) (
    Reads-bind _ (Reads-rd8 4 (omega arith))
      (Reads-end _ (Reads-rd8 0 (omega arith)) (Reads-pure _)))
Reads-const fuel m nil fits h new =
    rw (← intern-none m nil new) (Reads-end _ (Reads-rd8 5 (omega arith)) (Reads-pure _))
Reads-const fuel m (typespec t) fits h new =
    let short : length (ser_typespec t) ≤ fuel =
      omega (arith, length-append (buf_u8 0x10) (ser_typespec t)) in
    Reads-bind _ (Reads-rd8 0x10 (omega arith))
      (Reads-end _ (Reads-typespec t fuel short fits) (rw (clone_same (canon t)) (Reads-pure _)))

pub Reads-read_each {ℓ} :
    {S : Type ℓ} {xs ys : Bytes} {s' t : S} (n : ℕ) (body : S → Rd S) (s : S)
    → Reads (body s) xs s'
    → Reads (read_each n body s') ys t
    → Reads (read_each (suc n) body s) (xs ++ ys) t
unfolding read_each
Reads-read_each n body s h k = record { run = (Reads-bind _ h k).run }

map_consts-concat :
    (ps : List ConstEntry) (c : ConstEntry)
    → map_consts ps ++ canon_const c ∷ [] ≡ map_consts (ps ++ c ∷ [])
map_consts-concat [] c = refl
map_consts-concat (p ∷ ps) c = ap (◌∷◌ (canon_const p)) (map_consts-concat ps c)

-- The loop over the pool, from a module that holds the entries before.
pub Reads-consts :
    (fuel : ℕ) (ps cs : List ConstEntry) (m : Module)
    → All ConstFits cs
    → length (ser_all ser_const cs) ≤ fuel
    → DistinctAfter ps cs
    → m.consts ≡ map_consts ps
    → Reads
        (read_each (length cs) (read_const fuel) m)
        (ser_all ser_const cs)
        (record m { consts = m.consts ++ map_consts cs })
Reads-consts fuel ps [] m fits h new e = rw append-nil (unfold read_each in Reads-pure m)
Reads-consts fuel ps (c ∷ cs) m fits h new e =
    let fresh : find_const (canon_const c) 0 m.consts ≡ none =
      rw (e, find_const-canon c 0 ps) new.0 in
    let whole = length-append (ser_const c) (ser_all ser_const cs) in
    let m' = record m { consts = m.consts ++ canon_const c ∷ [] } in
    let later =
      Reads-consts fuel (ps ++ c ∷ []) cs m' fits.1 (omega (arith, whole)) new.1
        (rw e (map_consts-concat ps c)) in
    Reads-read_each (length cs) (read_const fuel) m
      (Reads-const fuel m c fits.0 (omega (arith, whole)) fresh) (rw append_assoc at later)

add_native-none :
    (m : Module) (s : Bytes)
    → find_native s 0 m.natives ≡ none
    → (module_add_native m s).1 ≡ record m { natives = m.natives ++ s ∷ [] }
unfolding module_add_native
add_native-none m s h = rw h

Reads-native :
    (m : Module) (n : Bytes)
    → IsCString n
    → find_native n 0 m.natives ≡ none
    → Reads (read_native m) (buf_str n) (record m { natives = m.natives ++ n ∷ [] })
unfolding read_native
Reads-native m n fits new =
    rw (← add_native-none m n new) (Reads-end _ (Reads-rdstr n fits) (Reads-pure _))

pub Reads-natives :
    (ns : List Bytes) (m : Module)
    → All IsCString ns
    → NewAfter m.natives ns
    → Reads
        (read_each (length ns) read_native m)
        (ser_all buf_str ns)
        (record m { natives = m.natives ++ ns })
Reads-natives [] m fits new = rw append-nil (unfold read_each in Reads-pure m)
Reads-natives (n ∷ ns) m fits new =
    let m' = record m { natives = m.natives ++ n ∷ [] } in
    Reads-read_each (length ns) read_native m (Reads-native m n fits.0 new.0)
      (rw append_assoc at (Reads-natives ns m' fits.1 new.1))
