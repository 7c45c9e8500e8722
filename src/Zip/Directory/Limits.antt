-- ===== src/Zip/Directory/Limits.antt =====
-- src/pkg_zip.c and src/pkg_zip.h: the limits that an archive's directory is held to.
use myon.Base.{
  ℕ, zero, suc, ◌+◌, ◌%◌, ◌≤◌, ◌-◌, ◌≡◌, ◌≢◌, inl, refl, Bool, true, false, not, ◌||◌, List, [],
  ◌∷◌, Option, none, some, ◌==◌, ltb, if◌then◌else◌, if_cases, if_both, Bytes, length, str_eq,
  str_eq_iff, arith,
}
use myon.Zip.Names.{Zipped, rejected, done, EntryName, split_entry_name}
use myon.Zip.Directory.{
  rd16, rd32, ZEntry, Listing, other_root, special_file, ratio_too_high, max_entry_uncomp,
  max_total_uncomp, check_sizes, check_root, entry_at, entry_size, check_entry, and_then,
  read_entries, has_name, has_duplicate, check_duplicates, empty_listing, read_directory, find_eocd,
  max_back, list_entries,
}
use myon.Zip.Directory.Sizes.{
  file_size, IsListing, add_entry-IsListing, Kept, add_entry-length, ratio-low,
}

check_sizes-Kept :
    (st : Listing) (name : EntryName) (e : ZEntry)
    → IsListing st
    → other_root st.unique_root name.root ≡ false
    → split_entry_name e.name ≡ done name
    → Kept (suc (length st.entries)) (check_sizes st name.root e)
check_sizes-Kept st name e v h s =
    let P : Zipped Listing → Type 0 = Kept (suc (length st.entries)) in
    let total = st.total_uncomp + e.uncomp_size in
    if_cases P e.is_dir
      (λ dir.
        let none_written : file_size e ≡ 0 = rw dir refl in
        (
          add_entry-IsListing st st.total_uncomp name e v h s
              (record {
                small = omega (arith, none_written);
                ratio = inl (omega (arith, none_written));
              })
              (omega (arith, none_written)) v.total,
          add_entry-length st name.root e,
        ))
      (λ file.
        let size : file_size e ≡ e.uncomp_size = rw file refl in
        if_cases P (ltb max_entry_uncomp e.uncomp_size) (λ large. tt)
          (λ fits.
            if_cases P (ratio_too_high e) (λ high. tt)
              (λ low.
                if_cases P (ltb max_total_uncomp total) (λ much. tt)
                  (λ within. (
                    add_entry-IsListing st total name e v h s
                        (record {
                          small = ground (arith, size);
                          ratio = rw size (ratio-low e.uncomp_size e.comp_size low);
                        })
                        (omega (arith, size)) (ground arith),
                    add_entry-length st name.root e,
                  )))))

check_root-Kept :
    (st : Listing) (e : ZEntry) (name : Zipped EntryName)
    → IsListing st
    → split_entry_name e.name ≡ name
    → Kept (suc (length st.entries)) (check_root st e name)
check_root-Kept st e (rejected message) v s = tt
check_root-Kept st e (done name) v s =
    let P : Zipped Listing → Type 0 = Kept (suc (length st.entries)) in
    if_cases P (other_root st.unique_root name.root) (λ other. tt)
      (λ same. if_both P (special_file e) tt (check_sizes-Kept st name e v same s))

check_entry-Kept :
    (zip : Bytes) (cd_end p : ℕ) (st : Listing)
    → IsListing st
    → Kept (suc (length st.entries)) (check_entry zip cd_end p st)
check_entry-Kept zip cd_end p st v =
    let P : Zipped Listing → Type 0 = Kept (suc (length st.entries)) in
    let e = entry_at zip p (rd16 zip (p + 28)) in
    if_both P (ltb cd_end (p + 46)) tt (
      if_both P (not (rd32 zip p == 33639248)) tt (
        if_both P (ltb cd_end (p + entry_size zip p)) tt (
          if_both P (e.flags % 2 == 1) tt (check_root-Kept st e (split_entry_name e.name) v refl))))

Kept-more : (m n : ℕ) (r : Zipped Listing) → m ≤ n → Kept m r → Kept n r
Kept-more m n (rejected message) h k = tt
Kept-more m n (done st) h (v, few) = (v, omega (arith, few, h))

and_then-Kept :
    (m n : ℕ) (r : Zipped Listing) (next : Listing → Zipped Listing)
    → Kept m r
    → ((st : Listing) → IsListing st → length st.entries ≤ m → Kept n (next st))
    → Kept n (and_then r next)
and_then-Kept m n (rejected message) next k f = tt
and_then-Kept m n (done st) next (v, few) f = f st v few

read_entries-Kept :
    (zip : Bytes) (cd_end n p : ℕ) (st : Listing)
    → IsListing st
    → Kept (n + length st.entries) (read_entries zip cd_end n p st)
unfolding read_entries
read_entries-Kept zip cd_end zero p st v = (v, omega arith)
read_entries-Kept zip cd_end (suc n) p st v =
    and_then-Kept (suc (length st.entries)) (suc n + length st.entries)
      (check_entry zip cd_end p st) (read_entries zip cd_end n (p + entry_size zip p))
      (check_entry-Kept zip cd_end p st v)
      (λ after w few.
        Kept-more (n + length after.entries) (suc n + length st.entries)
          (read_entries zip cd_end n (p + entry_size zip p) after) (omega (arith, few))
          (read_entries-Kept zip cd_end n (p + entry_size zip p) after w))

-- No entry has the name.
abbrev pub Unnamed : Bytes → List ZEntry → Type 0
Unnamed name [] = Unit
Unnamed name (e ∷ es) = (name ≢ e.name) × Unnamed name es

abbrev pub DistinctNames : List ZEntry → Type 0
DistinctNames [] = Unit
DistinctNames (e ∷ es) = Unnamed e.name es × DistinctNames es

not_either : (a b : Bool) → (if a then true else b) ≡ false → (a ≡ false) × (b ≡ false)
not_either a b h = ground arith

has_name-Unnamed : (name : Bytes) (es : List ZEntry) → has_name name es ≡ false → Unnamed name es
has_name-Unnamed name [] h = tt
has_name-Unnamed name (e ∷ es) h =
    let (other, rest) = not_either (str_eq name e.name) (has_name name es) h in
    (λ same. (let found = (str_eq_iff name e.name).1 same in cc), has_name-Unnamed name es rest)

has_duplicate-DistinctNames : (es : List ZEntry) → has_duplicate es ≡ false → DistinctNames es
has_duplicate-DistinctNames [] h = tt
has_duplicate-DistinctNames (e ∷ es) h =
    let (first, rest) = not_either (has_name e.name es) (has_duplicate es) h in
    (has_name-Unnamed e.name es first, has_duplicate-DistinctNames es rest)

-- What the first pass answers.
abbrev pub Listed : Zipped Listing → Type 0
Listed (rejected message) = Unit
Listed (done st) = (IsListing st × (length st.entries ≤ 20000)) × DistinctNames st.entries

check_duplicates-Listed :
    (st : Listing) → IsListing st → length st.entries ≤ 20000 → Listed (check_duplicates st)
check_duplicates-Listed st v few =
    if_cases Listed (has_duplicate st.entries) (λ h. tt)
      (λ h. ((v, few), has_duplicate-DistinctNames st.entries h))

and_then-Listed :
    (n : ℕ) (r : Zipped Listing) → n ≤ 20000 → Kept n r → Listed (and_then r check_duplicates)
and_then-Listed n (rejected message) h k = tt
and_then-Listed n (done st) h (v, few) = check_duplicates-Listed st v (omega (arith, few, h))

empty_listing-IsListing : IsListing empty_listing
empty_listing-IsListing = record { sized = refl; total = omega arith; within = tt }

read_directory-Listed : (zip : Bytes) (o : Option ℕ) → Listed (read_directory zip o)
read_directory-Listed zip none = tt
read_directory-Listed zip (some eocd) =
    let n = rd16 zip (eocd + 10) in
    let cd_size = rd32 zip (eocd + 12) in
    let cd_offset = rd32 zip (eocd + 16) in
    if_both Listed (n == 65535 || (cd_size == 4294967295 || cd_offset == 4294967295)) tt (
      if_cases Listed (ltb 20000 n) (λ many. tt)
        (λ few. if_both Listed (ltb (length zip) (cd_offset + cd_size)) tt (
          and_then-Listed (n + 0) (read_entries zip (cd_offset + cd_size) n cd_offset empty_listing)
            (ground arith)
            (read_entries-Kept zip (cd_offset + cd_size) n cd_offset empty_listing
              empty_listing-IsListing))))

-- An archive whose directory is accepted has at most 20000 entries with different names, all in
-- one top-level directory; each file takes at most 64 MiB and, above 4096 bytes, less than 201
-- times its compressed size if that is not 0, and all files together take at most 256 MiB.
pub list_entries-Listed : (zip : Bytes) → Listed (list_entries zip)
unfolding list_entries
list_entries-Listed zip =
    if_both Listed (ltb (length zip) 22) tt
      (read_directory-Listed zip (find_eocd zip (max_back zip) (length zip - 22)))
