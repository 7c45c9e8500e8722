-- ===== src/Zip/Extract.antt =====
-- src/pkg_zip.c: `pkg_zip_extract`, with what it asks of the file system. The file system is a
-- parameter: from the actions so far it answers an action with the message of a failure, or none.
use myon.Base.{
  ℕ, zero, suc, ◌+◌, ◌*◌, Bool, true, false, not, List, [], ◌∷◌, ◌++◌, Option, none, some, ◌==◌,
  ltb, if◌then◌else◌, Bytes, length, take, drop,
}
use Prim.Native.String.{String}
use myon.Zip.Names.{Zipped, rejected, done, EntryName, split_entry_name, pkg_fs_join}
use myon.Zip.Crc.{crc32_bytes}
use myon.Zip.Inflate.{pkg_zip_inflate}
use myon.Zip.Directory.{rd16, rd32, ZEntry, Listing, list_entries}
pub mod Paths
pub mod Contained
pub mod Bounded

pub data Action : Type 0 where
  make_dirs : Bytes → Action
  create_file : Bytes → Bytes → Action

abbrev pub FileSystem : Type 0
FileSystem = List Action → Action → Option String

-- The actions, with the message that ended them, if there is one.
pub record Progress : Type 0 where
  pub actions : List Action
  pub failed : Option String

abbrev pub stop : List Action → String → Progress
stop done_before message = record { actions = done_before; failed = some message }

abbrev pub act : FileSystem → List Action → Action → Progress
act fs done_before a = record { actions = done_before ++ a ∷ []; failed = fs done_before a }

abbrev pub unless_failed : (List Action → Progress) → Progress → Progress
unless_failed next p = elim p.failed [ none ↦ next p.actions | some message ↦ p ]

abbrev pub parent_at : ℕ → Option Bytes → Option Bytes
parent_at b none = if b == b'/' then some [] else none
parent_at b (some p) = some (b ∷ p)

-- `strrchr`: the bytes before the last separator.
abbrev pub before_last_slash : Bytes → Option Bytes
before_last_slash [] = none
before_last_slash (b ∷ bs) = parent_at b (before_last_slash bs)

abbrev pub make_parent : FileSystem → Option Bytes → List Action → Progress
make_parent fs none done_before = record { actions = done_before; failed = none }
make_parent fs (some parent) done_before = act fs done_before (make_dirs parent)

abbrev pub write_file : FileSystem → Bytes → Bytes → Bytes → List Action → Progress
write_file fs staging rel plain done_before =
    let full = pkg_fs_join staging rel in
    unless_failed (λ so_far. act fs so_far (create_file full plain))
      (make_parent fs (before_last_slash full) done_before)

abbrev pub write_checked :
    FileSystem → Bytes → Bytes → ZEntry → Option Bytes → List Action → Progress
write_checked fs staging rel e none done_before =
    stop done_before "zip: entry decompression failed (corrupt or unsupported method)"
write_checked fs staging rel e (some plain) done_before =
    if crc32_bytes plain == e.crc
    then write_file fs staging rel plain done_before
    else stop done_before "zip: CRC mismatch (corrupt entry)"

-- A file's entry, from its local header on.
abbrev pub extract_file : FileSystem → Bytes → Bytes → Bytes → ZEntry → List Action → Progress
extract_file fs zip staging rel e done_before =
    let lh = e.local_offset in
    let data_off = lh + 30 + rd16 zip (lh + 26) + rd16 zip (lh + 28) in
    if ltb (length zip) (lh + 30)
    then stop done_before "zip: local header out of bounds"
    else if not (rd32 zip lh == 67324752)
    then stop done_before "zip: bad local header signature"
    else if ltb (length zip) (data_off + e.comp_size)
    then stop done_before "zip: entry data out of bounds"
    else write_checked fs staging rel e
        (pkg_zip_inflate (take e.comp_size (drop data_off zip)) e.uncomp_size e.method) done_before

abbrev pub extract_below :
    FileSystem → Bytes → Bytes → Option Bytes → ZEntry → List Action → Progress
extract_below fs zip staging none e done_before = record { actions = done_before; failed = none }
extract_below fs zip staging (some rel) e done_before =
    if e.is_dir
    then act fs done_before (make_dirs (pkg_fs_join staging rel))
    else extract_file fs zip staging rel e done_before

abbrev pub extract_entry :
    FileSystem → Bytes → Bytes → Zipped EntryName → ZEntry → List Action → Progress
extract_entry fs zip staging (rejected message) e done_before = stop done_before message
extract_entry fs zip staging (done name) e done_before =
    extract_below fs zip staging name.rest e done_before

-- The second pass.
unfoldable pub extract_entries : FileSystem → Bytes → Bytes → List ZEntry → List Action → Progress
extract_entries fs zip staging [] done_before = record { actions = done_before; failed = none }
extract_entries fs zip staging (e ∷ es) done_before =
    unless_failed (extract_entries fs zip staging es)
      (extract_entry fs zip staging (split_entry_name e.name) e done_before)

abbrev pub out_root : Option Bytes → Progress → Zipped (Option Bytes)
out_root root p = elim p.failed [ none ↦ done root | some message ↦ rejected message ]

abbrev pub extract_listed :
    FileSystem → Bytes → Bytes → Zipped Listing → List Action × Zipped (Option Bytes)
extract_listed fs zip staging (rejected message) = ([], rejected message)
extract_listed fs zip staging (done st) =
    let p = extract_entries fs zip staging st.entries [] in (p.actions, out_root st.unique_root p)

-- The actions asked for, and the top-level directory's name.
unfoldable pub pkg_zip_extract : FileSystem → Bytes → Bytes → List Action × Zipped (Option Bytes)
pkg_zip_extract fs zip staging = extract_listed fs zip staging (list_entries zip)
