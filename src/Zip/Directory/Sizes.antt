-- ===== src/Zip/Directory/Sizes.antt =====
-- src/pkg_zip.c and src/pkg_zip.h: the limits on the files of an archive, and what adding an entry
-- keeps of them.
use myon.Base.{
  ℕ, zero, suc, ◌+◌, ◌*◌, ◌/◌, ◌≤◌, ◌<◌, ◌≡◌, ◌⊎◌, inl, inr, refl, Bool-cases, false, ◌&&◌, List,
  [], ◌∷◌, ◌++◌, Option, none, some, ltb, if◌then◌else◌, Bytes, length, length-append, str_eq_iff,
  arith,
}
use native.Mathlib.Nat.{div-lt_iff_lt-mul}
use myon.Zip.Names.{Zipped, rejected, done, EntryName, split_entry_name}
use myon.Zip.Directory.{ZEntry, Listing, other_root, or_root, add_entry}

-- What an entry's file takes when it is written.
abbrev pub file_size : ZEntry → ℕ
file_size e = if e.is_dir then 0 else e.uncomp_size

abbrev pub files_size : List ZEntry → ℕ
files_size [] = 0
files_size (e ∷ es) = file_size e + files_size es

abbrev pub HasRoot : Option Bytes → ZEntry → Type 0
HasRoot none e = ⊥
HasRoot (some r) e =
    (rest : Option Bytes) × (split_entry_name e.name ≡ done (record { root = r; rest = rest }))

-- A file is small, and where it is not tiny it stands for less than 201 times the bytes it is
-- compressed to, if there are any.
pub record IsWithin (e : ZEntry) : Type 0 where
  pub small : file_size e ≤ 67108864
  pub ratio : (file_size e ≤ 4096) ⊎ ((e.comp_size ≡ 0) ⊎ (file_size e < 201 * e.comp_size))

abbrev pub AllWithin : Option Bytes → List ZEntry → Type 0
AllWithin root [] = Unit
AllWithin root (e ∷ es) = (HasRoot root e × IsWithin e) × AllWithin root es

pub record IsListing (st : Listing) : Type 0 where
  pub sized : files_size st.entries ≡ st.total_uncomp
  pub total : st.total_uncomp ≤ 268435456
  pub within : AllWithin st.unique_root st.entries

pub AllWithin-root :
    (root : Option Bytes) (r : Bytes) (es : List ZEntry)
    → other_root root r ≡ false
    → AllWithin root es
    → AllWithin (or_root root r) es
AllWithin-root root r [] h w = tt
AllWithin-root none r (e ∷ es) h ((absurd, _), _) = elim absurd [ ]
AllWithin-root (some q) r (e ∷ es) h w = w

pub HasRoot-or_root :
    (root : Option Bytes) (name : EntryName) (e : ZEntry)
    → other_root root name.root ≡ false
    → split_entry_name e.name ≡ done name
    → HasRoot (or_root root name.root) e
HasRoot-or_root none name e h s = (name.rest, s)
HasRoot-or_root (some r) name e h s =
    let same : r ≡ name.root = (str_eq_iff r name.root).0 (ground arith) in (name.rest, rw same s)

pub AllWithin-snoc :
    (root : Option Bytes) (es : List ZEntry) (e : ZEntry)
    → AllWithin root es
    → HasRoot root e
    → IsWithin e
    → AllWithin root (es ++ e ∷ [])
AllWithin-snoc root [] e w h i = ((h, i), tt)
AllWithin-snoc root (d ∷ es) e (v, w) h i = (v, AllWithin-snoc root es e w h i)

pub files_size-snoc :
    (es : List ZEntry) (e : ZEntry) → files_size (es ++ e ∷ []) ≡ files_size es + file_size e
files_size-snoc [] e = omega arith
files_size-snoc (d ∷ es) e = omega (arith, files_size-snoc es e)

-- The entry is added to the list and to the total.
pub add_entry-IsListing :
    (st : Listing) (total : ℕ) (name : EntryName) (e : ZEntry)
    → IsListing st
    → other_root st.unique_root name.root ≡ false
    → split_entry_name e.name ≡ done name
    → IsWithin e
    → total ≡ st.total_uncomp + file_size e
    → total ≤ 268435456
    → IsListing (add_entry (record st { total_uncomp = total }) name.root e)
add_entry-IsListing st total name e v h s i t small = record {
  sized = omega (arith, files_size-snoc st.entries e, v.sized, t);
  total = small;
  within =
      AllWithin-snoc (or_root st.unique_root name.root) st.entries e
        (AllWithin-root st.unique_root name.root st.entries h v.within)
        (HasRoot-or_root st.unique_root name e h s) i;
}

-- What a round of the loop makes of a listing.
abbrev pub Kept : ℕ → Zipped Listing → Type 0
Kept n (rejected message) = Unit
Kept n (done st) = IsListing st × (length st.entries ≤ n)

pub add_entry-length :
    (st : Listing) (root : Bytes) (e : ZEntry)
    → length (add_entry st root e).entries ≤ suc (length st.entries)
add_entry-length st root e = omega (arith, length-append st.entries (e ∷ []))

pub ratio-low :
    (u c : ℕ)
    → ltb 0 c && (ltb 200 (u / c) && ltb 4096 u) ≡ false
    → (u ≤ 4096) ⊎ ((c ≡ 0) ⊎ (u < 201 * c))
ratio-low u zero h = inr (inl refl)
ratio-low u (suc c) h = elim (Bool-cases (ltb 4096 u)) [
  | inl large ↦ inr (inr ((div-lt_iff_lt-mul {k = suc c} (omega arith)).0 (ground (arith, large))))
  | inr tiny ↦ inl (ground arith)
]
