-- ===== src/Zip/Directory.antt =====
-- src/pkg_zip.c: the central directory of an archive, which `pkg_zip_extract` reads and checks
-- before it writes anything.
use myon.Base.{
  ℕ, zero, suc, ◌+◌, ◌*◌, ◌-◌, ◌/◌, ◌%◌, Bool, true, false, not, ◌&&◌, ◌||◌, List, [], ◌∷◌, ◌++◌,
  Option, none, some, ◌==◌, ltb, leb, if◌then◌else◌, Bytes, length, get_or, take, drop, str_eq,
}
use myon.Zip.Names.{Zipped, rejected, done, last_byte_or, EntryName, split_entry_name}
pub mod Sizes
pub mod Limits

-- The archive is read at an offset.
abbrev pub rd16 : Bytes → ℕ → ℕ
rd16 zip p = get_or zip p 0 + 256 * get_or zip (p + 1) 0

abbrev pub rd32 : Bytes → ℕ → ℕ
rd32 zip p = rd16 zip p + 65536 * rd16 zip (p + 2)

-- The offset of the record's signature, from `p` back over `n` more offsets.
abbrev pub find_eocd : Bytes → ℕ → ℕ → Option ℕ
find_eocd zip zero p = if rd32 zip p == 101010256 then some p else none
find_eocd zip (suc n) p = elim (rd32 zip p == 101010256) [
  | true ↦ some p
  | false ↦ find_eocd zip n (p - 1)
]

pub record ZEntry : Type 0 where
  pub name : Bytes
  pub method : ℕ
  pub crc : ℕ
  pub comp_size : ℕ
  pub uncomp_size : ℕ
  pub local_offset : ℕ
  pub ext_attrs : ℕ
  pub flags : ℕ
  pub is_dir : Bool

-- What the loop over the entries keeps, with the entries in order.
pub record Listing : Type 0 where
  pub entries : List ZEntry
  pub unique_root : Option Bytes
  pub total_uncomp : ℕ

-- A C string ends at its first 0.
abbrev pub c_string : Bytes → Bytes
c_string [] = []
c_string (c ∷ cs) = if c == 0 then [] else c ∷ c_string cs

-- `strcmp(unique_root, root) != 0`, once there is one.
abbrev pub other_root : Option Bytes → Bytes → Bool
other_root none root = false
other_root (some r) root = not (str_eq r root)

abbrev pub or_root : Option Bytes → Bytes → Option Bytes
or_root none root = some root
or_root (some r) root = some r

-- The upper half of the attributes is a Unix mode, if it is not 0.
abbrev pub special_file : ZEntry → Bool
special_file e =
    let fmt = (e.ext_attrs / 65536) / 4096 * 4096 in
    not (e.ext_attrs / 65536 == 0) && (not e.is_dir && (not (fmt == 0) && not (fmt == 32768)))

abbrev pub ratio_too_high : ZEntry → Bool
ratio_too_high e =
    ltb 0 e.comp_size && (ltb 200 (e.uncomp_size / e.comp_size) && ltb 4096 e.uncomp_size)

abbrev pub max_entry_uncomp : ℕ
max_entry_uncomp = 67108864

abbrev pub max_total_uncomp : ℕ
max_total_uncomp = 268435456

abbrev pub add_entry : Listing → Bytes → ZEntry → Listing
add_entry st root e = record st {
  entries = st.entries ++ e ∷ [];
  unique_root = or_root st.unique_root root;
}

-- The sizes of a file.
abbrev pub check_sizes : Listing → Bytes → ZEntry → Zipped Listing
check_sizes st root e =
    let total = st.total_uncomp + e.uncomp_size in
    if e.is_dir
    then done (add_entry st root e)
    else if ltb max_entry_uncomp e.uncomp_size
    then rejected "zip: entry too large"
    else if ratio_too_high e
    then rejected "zip: decompression ratio too high (possible zip bomb)"
    else if ltb max_total_uncomp total
    then rejected "zip: total uncompressed size too large"
    else done (add_entry (record st { total_uncomp = total }) root e)

abbrev pub check_root : Listing → ZEntry → Zipped EntryName → Zipped Listing
check_root st e (rejected message) = rejected message
check_root st e (done name) =
    if other_root st.unique_root name.root
    then rejected "zip: archive has more than one top-level directory"
    else if special_file e
    then rejected "zip: entry is a symlink/device/special file (rejected)"
    else check_sizes st name.root e

-- The record at `p`, whose name has `nlen` bytes.
abbrev pub entry_at : Bytes → ℕ → ℕ → ZEntry
entry_at zip p nlen =
    let field = take nlen (drop (p + 46) zip) in
    record {
      name = c_string field;
      method = rd16 zip (p + 10);
      crc = rd32 zip (p + 16);
      comp_size = rd32 zip (p + 20);
      uncomp_size = rd32 zip (p + 24);
      local_offset = rd32 zip (p + 42);
      ext_attrs = rd32 zip (p + 38);
      flags = rd16 zip (p + 8);
      is_dir = ltb 0 nlen && last_byte_or 0 field == b'/';
    }

-- The bytes of the record at `p`.
abbrev pub entry_size : Bytes → ℕ → ℕ
entry_size zip p = 46 + rd16 zip (p + 28) + rd16 zip (p + 30) + rd16 zip (p + 32)

-- One round of the loop.
abbrev pub check_entry : Bytes → ℕ → ℕ → Listing → Zipped Listing
check_entry zip cd_end p st =
    let e = entry_at zip p (rd16 zip (p + 28)) in
    if ltb cd_end (p + 46)
    then rejected "zip: truncated central directory"
    else if not (rd32 zip p == 33639248)
    then rejected "zip: bad central-directory signature"
    else if ltb cd_end (p + entry_size zip p)
    then rejected "zip: central-directory entry out of bounds"
    else if e.flags % 2 == 1
    then rejected "zip: encrypted entries are not supported"
    else check_root st e (split_entry_name e.name)

-- What follows where nothing was rejected.
abbrev pub and_then {ℓ κ} : {A : Type ℓ} {B : Type κ} → Zipped A → (A → Zipped B) → Zipped B
and_then (rejected message) next = rejected message
and_then (done a) next = next a

unfoldable pub read_entries : Bytes → ℕ → ℕ → ℕ → Listing → Zipped Listing
read_entries zip cd_end zero p st = done st
read_entries zip cd_end (suc n) p st =
    and_then (check_entry zip cd_end p st) (read_entries zip cd_end n (p + entry_size zip p))

abbrev pub has_name : Bytes → List ZEntry → Bool
has_name name [] = false
has_name name (e ∷ es) = if str_eq name e.name then true else has_name name es

abbrev pub has_duplicate : List ZEntry → Bool
has_duplicate [] = false
has_duplicate (e ∷ es) = if has_name e.name es then true else has_duplicate es

abbrev pub check_duplicates : Listing → Zipped Listing
check_duplicates st =
    if has_duplicate st.entries then rejected "zip: duplicate entry path" else done st

abbrev pub empty_listing : Listing
empty_listing = record { entries = []; unique_root = none; total_uncomp = 0 }

-- From the end record at `eocd`.
abbrev pub read_directory : Bytes → Option ℕ → Zipped Listing
read_directory zip none = rejected "zip: end-of-central-directory not found (corrupt archive)"
read_directory zip (some eocd) =
    let total_entries = rd16 zip (eocd + 10) in
    let cd_size = rd32 zip (eocd + 12) in
    let cd_offset = rd32 zip (eocd + 16) in
    if total_entries == 65535 || (cd_size == 4294967295 || cd_offset == 4294967295)
    then rejected "zip: ZIP64 archives are not supported in this release"
    else if ltb 20000 total_entries
    then rejected "zip: too many entries"
    else if ltb (length zip) (cd_offset + cd_size)
    then rejected "zip: central directory out of bounds"
    else and_then (read_entries zip (cd_offset + cd_size) total_entries cd_offset empty_listing)
        check_duplicates

-- `size_t max_back = zip_len - 22; if (max_back > 65557) max_back = 65557;`
abbrev pub max_back : Bytes → ℕ
max_back zip = if ltb 65557 (length zip - 22) then 65557 else length zip - 22

-- The first pass, up to the check for duplicates.
unfoldable pub list_entries : Bytes → Zipped Listing
list_entries zip =
    if ltb (length zip) 22
    then rejected "zip: archive too small"
    else read_directory zip (find_eocd zip (max_back zip) (length zip - 22))
