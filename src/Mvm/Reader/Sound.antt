-- ===== src/Mvm/Reader/Sound.antt =====
-- What holds of every module that the reader accepts, whatever the file.
use mathlib.Core.Path.{subst}
use myon.Base.{
  not, ◌&&◌, ◌||◌, length, ℕ, zero, suc, ◌≡◌, Bool, true, false, Option, none, some, Bytes,
  if◌then◌else◌, ◌==◌, ◌≤◌, [], arith,
}
use myon.Mvm.{ConstEntry, Module, nil}
use myon.Mvm.Pool.Unique.{times_const, times_name, DistinctAfter-once, NewAfter-once}
use myon.Mvm.Pool.Laws.{
  IsInterned, intern-IsInterned, add_native-IsInterned, add_typespec-IsInterned,
}
use myon.Mvm.Reader.Monad.{Reader, reader, Rd, pure, ◌>>=◌}
use myon.Mvm.Reader.{
  read_each, read_const, read_native, add_chunk, read_chunk_table, read_pools, read_source_info,
  read_sections, read_magic, mvm_module_read, finish,
}

-- Every result of `m` satisfies `P`.
record Yields {ℓ} {A : Type ℓ} (P : A → Type 0) (m : Rd A) : Type ℓ where
  yields : (r : Reader) → P (m r).0

Yields-pure {ℓ} : {A : Type ℓ} {P : A → Type 0} (a : A) → P a → Yields P (pure a)
unfolding pure
Yields-pure a h = record { yields = λ r. h }

module _ {ℓ κ} {A : Type ℓ} {B : Type κ} {P : B → Type 0} (m : Rd A) (f : A → Rd B) where
  Yields-bind_with :
      {Q : A → Type 0} → Yields Q m → ((a : A) → Q a → Yields P (f a)) → Yields P (m >>= f)
  unfolding ◌>>=◌
  Yields-bind_with h k = record { yields = λ r. (k (m r).0 (h.yields r)).yields (m r).1 }

  Yields-bind : ((a : A) → Yields P (f a)) → Yields P (m >>= f)
  Yields-bind k = Yields-bind_with {Q = λ _. Unit} (record { yields = λ r. tt }) (λ a _. k a)

if_both {ℓ} :
    {A : Type ℓ} {P : A → Type 0} (b : Bool) {m k : Rd A}
    → Yields P m
    → Yields P k
    → Yields P (if b then m else k)
if_both true h h' = h
if_both false h h' = h'

Yields-guarded {ℓ} :
    {S : Type ℓ} {P : S → Type 0} (s : S) (m : Rd S)
    → P s
    → Yields P m
    → Yields P (λ r. elim r.err [ true ↦ (s, r) | false ↦ m r ])
Yields-guarded {S} {P} s m h k = record { yields = λ r. go r r.err }
  where
    go : (r : Reader) (b : Bool) → P (elim b as (λ _. S × Reader) [ true ↦ (s, r) | false ↦ m r ]).0
    go r true = h
    go r false = k.yields r

-- A loop keeps what its body keeps.
Yields-read_each {ℓ} :
    {S : Type ℓ} {P : S → Type 0} (n : ℕ) (body : S → Rd S) (s : S)
    → ((s : S) → P s → Yields P (body s))
    → P s
    → Yields P (read_each n body s)
unfolding read_each
Yields-read_each zero body s keep h = Yields-pure s h
Yields-read_each {P} (suc n) body s keep h =
    Yields-guarded s (body s >>= λ s'. read_each n body s') h
      (Yields-bind_with _ _ (keep s h) (λ s' h'. Yields-read_each n body s' keep h'))

read_const-IsInterned :
    (fuel : ℕ) (m : Module) → IsInterned m → Yields IsInterned (read_const fuel m)
unfolding read_const
read_const-IsInterned fuel m h = Yields-bind _ _ (λ tag.
    if_both (tag == 0x01) (Yields-bind _ _ (λ u. Yields-pure _ (intern-IsInterned m _ h))) (
      if_both (tag == 0x02) (Yields-bind _ _ (λ d. Yields-pure _ (intern-IsInterned m _ h))) (
        if_both (tag == 0x03) (Yields-bind _ _ (λ s. Yields-pure _ (intern-IsInterned m _ h))) (
          if_both (tag == 0x04) (Yields-bind _ _ (λ b. Yields-pure _ (intern-IsInterned m _ h))) (
            if_both (tag == 0x05) (Yields-pure _ (intern-IsInterned m nil h)) (
              if_both (tag == 0x10)
                (Yields-bind _ _ (λ t. Yields-pure _ (add_typespec-IsInterned m t h)))
                (record { yields = λ r. h })))))))

read_native-IsInterned : (m : Module) → IsInterned m → Yields IsInterned (read_native m)
unfolding read_native
read_native-IsInterned m h = Yields-bind _ _ (λ s. Yields-pure _ (add_native-IsInterned m _ h))

add_chunk-IsInterned : (m : Module) → IsInterned m → Yields IsInterned (add_chunk m)
add_chunk-IsInterned m h =
    Yields-bind _ _ (λ c. Yields-pure _ (record { consts = h.consts; natives = h.natives }))

-- A module, if there is one.
abbrev Accepted : Option Module → Type 0
Accepted none = Unit
Accepted (some m) = IsInterned m

finish-Accepted : (m : Module) → IsInterned m → Yields Accepted (finish m)
finish-Accepted m h = record { yields = λ r. go r.err }
  where
    go : (b : Bool) → Accepted (if b then none else some m)
    go true = tt
    go false = h

read_chunk_table-Accepted : (m : Module) → IsInterned m → Yields Accepted (read_chunk_table m)
unfolding read_chunk_table
read_chunk_table-Accepted m h = Yields-bind _ _ (λ ct.
    Yields-bind_with _ _ (Yields-read_each ct add_chunk m add_chunk-IsInterned h) finish-Accepted)

read_pools-Accepted :
    (file : Bytes) (off : ℕ) (m : Module) → IsInterned m → Yields Accepted (read_pools file off m)
unfolding read_pools
read_pools-Accepted file off m h = Yields-bind _ _ (λ cc.
    Yields-bind_with _ _ (Yields-read_each cc _ m (read_const-IsInterned (suc (length file))) h)
      (λ m₁ h₁. Yields-bind _ _ (λ nc.
        Yields-bind_with _ _ (Yields-read_each nc read_native m₁ read_native-IsInterned h₁)
          (λ m₂ h₂. Yields-bind _ _ (λ _. read_chunk_table-Accepted m₂ h₂)))))

read_source_info-Accepted :
    (file : Bytes) (co ch entry : ℕ) → Yields Accepted (read_source_info file co ch entry)
unfolding read_source_info
read_source_info-Accepted file co ch entry = Yields-bind _ _ (λ mtime. Yields-bind _ _ (λ size.
    Yields-bind _ _ (λ hash. Yields-bind _ _ (λ path.
      Yields-bind _ _
        (λ _. read_pools-Accepted file ch _ (record { consts = tt; natives = tt }))))))

read_sections-Accepted : (file : Bytes) → Yields Accepted (read_sections file)
unfolding read_sections
read_sections-Accepted file = Yields-bind _ _ (λ co. Yields-bind _ _ (λ sz. Yields-bind _ _ (λ ch.
    Yields-bind _ _ (λ n. Yields-bind _ _ (λ entry.
      Yields-bind _ _ (λ si. Yields-bind _ _ (λ _. read_source_info-Accepted file co ch entry)))))))

read_magic-Accepted : (file : Bytes) → Yields Accepted (read_magic file)
read_magic-Accepted file = Yields-bind _ _ (λ a. Yields-bind _ _ (λ b. Yields-bind _ _ (λ c.
    Yields-bind _ _ (λ d.
      if_both (a == 0x4D && b == 0x59 && c == 0x43 && d == 0x31)
        (Yields-bind _ _ (λ major. Yields-bind _ _ (λ minor. Yields-bind _ _ (λ endian.
          Yields-bind _ _ (λ flags.
            if_both (not (major == 1) || not (endian == 1)) (Yields-pure none tt)
              (read_sections-Accepted file))))))
        (Yields-pure none tt)))))

-- Nothing that the reader accepts was put into the pools but by interning.
mvm_module_read-IsInterned :
    (file : Bytes) {m : Module} → mvm_module_read file ≡ some m → IsInterned m
unfolding mvm_module_read
mvm_module_read-IsInterned file e =
    subst Accepted e ((read_magic-Accepted file).yields (reader file))

-- Whatever the bytes of a file, in a module that the reader accepts at most one constant compares
-- equal to a given one, by the comparison with which the pool looks for an int, a float (which no
-- NaN meets), a text, a bool or nil but not for a type descriptor, and at most one native name is
-- a given one.
pub mvm_module_read-once :
    (file : Bytes) {m : Module} (c : ConstEntry) (s : Bytes)
    → mvm_module_read file ≡ some m
    → (times_const c m.consts ≤ 1) × (times_name s m.natives ≤ 1)
mvm_module_read-once file c s e =
    let h = mvm_module_read-IsInterned file e in
    (DistinctAfter-once c [] _ h.consts (omega arith), NewAfter-once s [] _ h.natives (omega arith))
