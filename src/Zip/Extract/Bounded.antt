-- ===== src/Zip/Extract/Bounded.antt =====
-- src/pkg_zip.c: how much an extraction writes.
use myon.Base.{
  ℕ, suc, ◌+◌, ◌≤◌, ◌≡◌, refl, not, List, [], ◌∷◌, ◌++◌, Option, none, some, ◌==◌, ==_iff, ltb,
  if_cases, if_both, Bytes, length, take, drop, arith,
}
use Prim.Native.String.{String}
use myon.Zip.Bits.{State}
use myon.Zip.Names.{Zipped, rejected, done, EntryName, pkg_fs_join, split_entry_name}
use myon.Zip.Crc.{crc32_bytes}
use myon.Zip.Inflate.{pkg_zip_inflate, check_length, inflate_blocks, bits_left, start}
use myon.Zip.Directory.{rd16, rd32, ZEntry, Listing, list_entries}
use myon.Zip.Directory.Sizes.{file_size, files_size}
use myon.Zip.Directory.Limits.{Listed, list_entries-Listed}
use myon.Zip.Extract.{
  Action, make_dirs, create_file, FileSystem, Progress, act, unless_failed, before_last_slash,
  make_parent, write_file, write_checked, extract_file, extract_below, extract_entry,
  extract_entries, extract_listed, pkg_zip_extract,
}

-- The bytes of the files that are created.
abbrev pub written : List Action → ℕ
written [] = 0
written (make_dirs path ∷ actions) = written actions
written (create_file path plain ∷ actions) = length plain + written actions

written-snoc :
    (actions : List Action) (a : Action)
    → written (actions ++ a ∷ []) ≡ written actions + written (a ∷ [])
written-snoc [] a = omega arith
written-snoc (make_dirs path ∷ actions) a = written-snoc actions a
written-snoc (create_file path plain ∷ actions) a = omega (arith, written-snoc actions a)

-- What an inflated entry holds.
abbrev OfLength : ℕ → Option Bytes → Type 0
OfLength n none = Unit
OfLength n (some plain) = length plain ≡ n

check_length-OfLength : (n : ℕ) (o : Option State) → OfLength n (check_length n o)
check_length-OfLength n none = tt
check_length-OfLength n (some s) =
    if_cases (OfLength n) (length s.out == n) (λ h. (==_iff (length s.out) n).0 h) (λ h. tt)

pkg_zip_inflate-OfLength : (src : Bytes) (n method : ℕ) → OfLength n (pkg_zip_inflate src n method)
unfolding pkg_zip_inflate
pkg_zip_inflate-OfLength src n method =
    if_both (OfLength n) (method == 0)
      (if_cases (OfLength n) (length src == n) (λ h. (==_iff (length src) n).0 h) (λ h. tt))
      (if_both (OfLength n) (method == 8)
        (check_length-OfLength n (inflate_blocks (suc (bits_left (start src n))) (start src n))) tt)

-- At most `n` bytes more than before.
abbrev Adds : ℕ → List Action → Progress → Type 0
Adds n actions p = written p.actions ≤ written actions + n

unless_failed-Adds :
    (m n : ℕ) (actions : List Action) (next : List Action → Progress) (p : Progress)
    → Adds m actions p
    → ((so_far : List Action) → Adds n so_far (next so_far))
    → Adds (m + n) actions (unless_failed next p)
unless_failed-Adds m n actions next p h f = go p.failed
  where
    go :
        (o : Option String)
        → Adds
            (m + n)
            actions
            (elim o as (λ x. Progress) [ none ↦ next p.actions | some message ↦ p ])
    go none = omega (arith, h, f p.actions)
    go (some message) = omega (arith, h)

make_dirs-Adds :
    (fs : FileSystem) (path : Bytes) (actions : List Action)
    → Adds 0 actions (act fs actions (make_dirs path))
make_dirs-Adds fs path actions = omega (arith, written-snoc actions (make_dirs path))

make_parent-Adds :
    (fs : FileSystem) (o : Option Bytes) (actions : List Action)
    → Adds 0 actions (make_parent fs o actions)
make_parent-Adds fs none actions = omega arith
make_parent-Adds fs (some parent) actions = make_dirs-Adds fs parent actions

write_checked-Adds :
    (fs : FileSystem) (staging rel : Bytes) (e : ZEntry) (o : Option Bytes) (n : ℕ)
    (actions : List Action)
    → OfLength n o
    → Adds n actions (write_checked fs staging rel e o actions)
write_checked-Adds fs staging rel e none n actions h = omega arith
write_checked-Adds fs staging rel e (some plain) n actions h =
    let full = pkg_fs_join staging rel in
    let both =
      unless_failed-Adds 0 n actions (λ so_far. act fs so_far (create_file full plain))
        (make_parent fs (before_last_slash full) actions)
        (make_parent-Adds fs (before_last_slash full) actions)
        (λ so_far. omega (arith, h, written-snoc so_far (create_file full plain))) in
    let wrote : Adds n actions (write_file fs staging rel plain actions) = omega (arith, both) in
    if_both (Adds n actions) (crc32_bytes plain == e.crc) wrote (omega arith)

extract_file-Adds :
    (fs : FileSystem) (zip staging rel : Bytes) (e : ZEntry) (actions : List Action)
    → Adds e.uncomp_size actions (extract_file fs zip staging rel e actions)
extract_file-Adds fs zip staging rel e actions =
    let P : Progress → Type 0 = Adds e.uncomp_size actions in
    let lh = e.local_offset in
    let data_off = lh + 30 + rd16 zip (lh + 26) + rd16 zip (lh + 28) in
    let plain = pkg_zip_inflate (take e.comp_size (drop data_off zip)) e.uncomp_size e.method in
    if_both P (ltb (length zip) (lh + 30)) (omega arith) (
      if_both P (not (rd32 zip lh == 67324752)) (omega arith) (
        if_both P (ltb (length zip) (data_off + e.comp_size)) (omega arith) (
          write_checked-Adds fs staging rel e plain e.uncomp_size actions (
            pkg_zip_inflate-OfLength (take e.comp_size (drop data_off zip)) e.uncomp_size
              e.method))))

extract_below-Adds :
    (fs : FileSystem) (zip staging : Bytes) (rest : Option Bytes) (e : ZEntry)
    (actions : List Action)
    → Adds (file_size e) actions (extract_below fs zip staging rest e actions)
extract_below-Adds fs zip staging none e actions = omega arith
extract_below-Adds fs zip staging (some rel) e actions =
    if_cases (Adds (file_size e) actions) e.is_dir
      (λ dir. omega (arith, make_dirs-Adds fs (pkg_fs_join staging rel) actions))
      (λ file.
        let size : file_size e ≡ e.uncomp_size = rw file refl in
        omega (arith, size, extract_file-Adds fs zip staging rel e actions))

extract_entry-Adds :
    (fs : FileSystem) (zip staging : Bytes) (name : Zipped EntryName) (e : ZEntry)
    (actions : List Action)
    → Adds (file_size e) actions (extract_entry fs zip staging name e actions)
extract_entry-Adds fs zip staging (rejected message) e actions = omega arith
extract_entry-Adds fs zip staging (done name) e actions =
    extract_below-Adds fs zip staging name.rest e actions

extract_entries-Adds :
    (fs : FileSystem) (zip staging : Bytes) (es : List ZEntry) (actions : List Action)
    → Adds (files_size es) actions (extract_entries fs zip staging es actions)
unfolding extract_entries
extract_entries-Adds fs zip staging [] actions = omega arith
extract_entries-Adds fs zip staging (e ∷ es) actions =
    unless_failed-Adds (file_size e) (files_size es) actions (extract_entries fs zip staging es)
      (extract_entry fs zip staging (split_entry_name e.name) e actions)
      (extract_entry-Adds fs zip staging (split_entry_name e.name) e actions)
      (extract_entries-Adds fs zip staging es)

extract_listed-bounded :
    (fs : FileSystem) (zip staging : Bytes) (listed : Zipped Listing)
    → Listed listed
    → written (extract_listed fs zip staging listed).0 ≤ 268435456
extract_listed-bounded fs zip staging (rejected message) h = omega arith
extract_listed-bounded fs zip staging (done st) ((v, few), distinct) =
    omega (arith, extract_entries-Adds fs zip staging st.entries [], v.sized, v.total)

-- Whatever the bytes of an archive and whatever the file system answers, an extraction writes at
-- most 256 MiB in all.
pub pkg_zip_extract-bounded :
    (fs : FileSystem) (zip staging : Bytes) → written (pkg_zip_extract fs zip staging).0 ≤ 268435456
unfolding pkg_zip_extract
pkg_zip_extract-bounded fs zip staging =
    extract_listed-bounded fs zip staging (list_entries zip) (list_entries-Listed zip)
