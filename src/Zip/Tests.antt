-- ===== src/Zip/Tests.antt =====
-- Runs and instances of the theorems on archives.
use myon.Base.{◌≤◌, ◌≡◌, ◌≢◌, refl, [], ◌∷◌, none, some, Bytes, str_eq, arith}
use myon.Base.Text.{codes}
use myon.Zip.Inflate.{one_block, start, pkg_zip_inflate}
use myon.Zip.Runs.{Runs}
use myon.Zip.Blocks.{one_block-Runs}
use myon.Zip.Stored.{stored_stream, pkg_zip_inflate-stored_stream}
use myon.Zip.Names.{
  components, pkg_fs_join, last_byte_or, split_entry_name, pkg_fs_safe_component, done,
}
use myon.Zip.Names.Safe.{follow_from, below, names_of, split_entry_name-below}
use myon.Zip.Crc.{crc32_bytes}
use myon.Zip.Directory.{list_entries}
use myon.Zip.Directory.Limits.{Listed, list_entries-Listed}
use myon.Zip.Extract.{FileSystem, pkg_zip_extract}
use myon.Zip.Extract.Paths.{AllUnder}
use myon.Zip.Extract.Contained.{pkg_zip_extract-AllUnder}
use myon.Zip.Extract.Bounded.{written, pkg_zip_extract-bounded}

-- "hi hi hi hi hi", with the fixed codes.
abbrev deflated : Bytes
deflated = 203 ∷ 200 ∷ 84 ∷ 200 ∷ 64 ∷ 32 ∷ 0 ∷ []

check_value : crc32_bytes (codes "123456789") ≡ 3421780262
unfolding crc32_bytes myon.Zip.Crc.xor_bits myon.Zip.Crc.crc32_table
check_value = refl

-- A directory and a file that is deflated.
abbrev archive : Bytes
archive =
    80 ∷ 75 ∷ 3 ∷ 4 ∷ 20 ∷ 0 ∷ 0 ∷ 0 ∷ 0 ∷ 0 ∷ 0 ∷ 0 ∷ 33 ∷ 0 ∷ 0 ∷ 0 ∷ 0 ∷ 0 ∷ 0 ∷ 0 ∷ 0 ∷ 0 ∷ 0
    ∷ 0 ∷ 0 ∷ 0 ∷ 2 ∷ 0 ∷ 0 ∷ 0 ∷ 114 ∷ 47 ∷ 80 ∷ 75 ∷ 3 ∷ 4 ∷ 20 ∷ 0 ∷ 0 ∷ 0 ∷ 8 ∷ 0 ∷ 0 ∷ 0 ∷ 33
    ∷ 0 ∷ 74 ∷ 116 ∷ 155 ∷ 238 ∷ 7 ∷ 0 ∷ 0 ∷ 0 ∷ 14 ∷ 0 ∷ 0 ∷ 0 ∷ 5 ∷ 0 ∷ 0 ∷ 0 ∷ 114 ∷ 47 ∷ 100
    ∷ 47 ∷ 97 ∷ 203 ∷ 200 ∷ 84 ∷ 200 ∷ 64 ∷ 32 ∷ 0 ∷ 80 ∷ 75 ∷ 1 ∷ 2 ∷ 20 ∷ 3 ∷ 20 ∷ 0 ∷ 0 ∷ 0 ∷ 0
    ∷ 0 ∷ 0 ∷ 0 ∷ 33 ∷ 0 ∷ 0 ∷ 0 ∷ 0 ∷ 0 ∷ 0 ∷ 0 ∷ 0 ∷ 0 ∷ 0 ∷ 0 ∷ 0 ∷ 0 ∷ 2 ∷ 0 ∷ 0 ∷ 0 ∷ 0 ∷ 0 ∷ 0
    ∷ 0 ∷ 0 ∷ 0 ∷ 16 ∷ 0 ∷ 237 ∷ 65 ∷ 0 ∷ 0 ∷ 0 ∷ 0 ∷ 114 ∷ 47 ∷ 80 ∷ 75 ∷ 1 ∷ 2 ∷ 20 ∷ 3 ∷ 20 ∷ 0
    ∷ 0 ∷ 0 ∷ 8 ∷ 0 ∷ 0 ∷ 0 ∷ 33 ∷ 0 ∷ 74 ∷ 116 ∷ 155 ∷ 238 ∷ 7 ∷ 0 ∷ 0 ∷ 0 ∷ 14 ∷ 0 ∷ 0 ∷ 0 ∷ 5 ∷ 0
    ∷ 0 ∷ 0 ∷ 0 ∷ 0 ∷ 0 ∷ 0 ∷ 0 ∷ 0 ∷ 0 ∷ 0 ∷ 164 ∷ 129 ∷ 32 ∷ 0 ∷ 0 ∷ 0 ∷ 114 ∷ 47 ∷ 100 ∷ 47 ∷ 97
    ∷ 80 ∷ 75 ∷ 5 ∷ 6 ∷ 0 ∷ 0 ∷ 0 ∷ 0 ∷ 2 ∷ 0 ∷ 2 ∷ 0 ∷ 99 ∷ 0 ∷ 0 ∷ 0 ∷ 74 ∷ 0 ∷ 0 ∷ 0 ∷ 0 ∷ 0 ∷ []

abbrev staging : Bytes
staging = codes "/tmp/s/"

-- A file system where nothing fails.
abbrev working : FileSystem
working actions a = none

one_block-Runs_example : Runs (start deflated 14) (one_block 1 (start deflated 14)).1
one_block-Runs_example = one_block-Runs 1 (start deflated 14)

pkg_zip_inflate-stored_stream_example :
    pkg_zip_inflate (stored_stream (codes "hello, ") (codes "world" ∷ [])) 12 8
    ≡ some (codes "hello, world")
pkg_zip_inflate-stored_stream_example =
    pkg_zip_inflate-stored_stream (codes "hello, ") (codes "world" ∷ []) (omega arith, omega arith)

name_accepted :
    split_entry_name (codes "repo-1/src//a.my")
    ≡ done (record { root = codes "repo-1"; rest = some (codes "src//a.my") })
unfolding split_entry_name pkg_fs_safe_component str_eq
name_accepted = refl

no_backslash : last_byte_or 0 staging ≢ b'\\'
no_backslash h = omega arith

split_entry_name-below_example :
    follow_from (some []) (components (pkg_fs_join staging (codes "src//a.my")))
    ≡ below (names_of (components (codes "src//a.my"))) (follow_from (some []) (components staging))
split_entry_name-below_example =
    split_entry_name-below (codes "repo-1/src//a.my") (codes "repo-1") (codes "src//a.my") staging
      (some []) name_accepted no_backslash

list_entries-Listed_example : Listed (list_entries archive)
list_entries-Listed_example = list_entries-Listed archive

pkg_zip_extract-AllUnder_example :
    AllUnder (some []) staging (pkg_zip_extract working archive staging).0
pkg_zip_extract-AllUnder_example =
    pkg_zip_extract-AllUnder working archive staging (some []) no_backslash

pkg_zip_extract-bounded_example : written (pkg_zip_extract working archive staging).0 ≤ 268435456
pkg_zip_extract-bounded_example = pkg_zip_extract-bounded working archive staging
