-- ===== src/Zip/Names.antt =====
-- src/pkg_fs.c: safe path components and `pkg_fs_join`. src/pkg_zip.c: the names of entries.
use myon.Base.{
  ℕ, zero, suc, Bool, true, false, not, ◌&&◌, ◌||◌, List, [], ◌∷◌, ◌++◌, Option, none, some, ◌==◌,
  ltb, leb, if◌then◌else◌, Bytes, length, get_or, str_eq,
}
use myon.Base.Text.{codes}
use myon.Package.Source.{split_at}
use Prim.Native.String.{String}
pub mod Safe

abbrev pub control_byte : ℕ → Bool
control_byte c = ltb c 32 || c == 127

abbrev pub component_byte : ℕ → Bool
component_byte c =
    if control_byte c then false else if c == b'/' || c == b'\\' then false else not (c == b':')

abbrev pub every_byte : (ℕ → Bool) → Bytes → Bool
every_byte p [] = true
every_byte p (c ∷ cs) = if p c then every_byte p cs else false

unfoldable pub pkg_fs_safe_component : Bytes → Bool
pkg_fs_safe_component [] = false
pkg_fs_safe_component (c ∷ cs) =
    if str_eq (c ∷ cs) (codes ".") || str_eq (c ∷ cs) (codes "..")
    then false
    else every_byte component_byte (c ∷ cs)

abbrev pub last_byte_or : ℕ → Bytes → ℕ
last_byte_or c [] = c
last_byte_or c (d ∷ ds) = last_byte_or d ds

abbrev pub drop_last : Bytes → Bytes
drop_last [] = []
drop_last (c ∷ []) = []
drop_last (c ∷ d ∷ ds) = c ∷ drop_last (d ∷ ds)

unfoldable pub pkg_fs_join : Bytes → Bytes → Bytes
pkg_fs_join a b =
    let last = last_byte_or 0 a in
    if last == b'/' || last == b'\\' then drop_last a ++ b'/' ∷ b else a ++ b'/' ∷ b

-- `return true` with a result, or the message that is left with `return false`.
pub data Zipped {ℓ} (A : Type ℓ) : Type ℓ where
  rejected : String → Zipped A
  done : A → Zipped A

-- `strchr(s, c) != NULL`
abbrev pub has_byte : ℕ → Bytes → Bool
has_byte c [] = false
has_byte c (b ∷ bs) = if b == c then true else has_byte c bs

abbrev pub cons_first : ℕ → List Bytes → List Bytes
cons_first c [] = (c ∷ []) ∷ []
cons_first c (s ∷ ss) = (c ∷ s) ∷ ss

-- The texts between the separators, which the loop takes one after another.
abbrev pub components : Bytes → List Bytes
components [] = [] ∷ []
components (c ∷ cs) = let rest = components cs in if c == b'/' then [] ∷ rest else cons_first c rest

-- An empty component passes.
abbrev pub passes : Bytes → Bool
passes [] = true
passes (c ∷ cs) = pkg_fs_safe_component (c ∷ cs)

abbrev pub all_pass : List Bytes → Bool
all_pass [] = true
all_pass (s ∷ ss) = if passes s then all_pass ss else false

-- The top-level directory, and the path below it where there is one.
pub record EntryName : Type 0 where
  pub root : Bytes
  pub rest : Option Bytes

abbrev pub nonempty : Bytes → Option Bytes
nonempty [] = none
nonempty (c ∷ cs) = some (c ∷ cs)

abbrev pub check_remainder : Bytes → Option Bytes → Zipped EntryName
check_remainder first none = done (record { root = first; rest = none })
check_remainder first (some remainder) =
    if all_pass (components remainder)
    then done (record { root = first; rest = nonempty remainder })
    else rejected "zip: unsafe path component (traversal?)"

abbrev pub check_first : Bytes → Option Bytes → Zipped EntryName
check_first first remainder =
    if pkg_fs_safe_component first
    then check_remainder first remainder
    else rejected "zip: unsafe top-level component"

abbrev pub split_first : Bytes → Option (Bytes × Bytes) → Zipped EntryName
split_first dup none = check_first dup none
split_first dup (some (first, remainder)) = check_first first (some remainder)

-- A trailing separator is dropped.
abbrev pub without_slash : Bytes → Bytes
without_slash name = if last_byte_or 0 name == b'/' then drop_last name else name

abbrev pub check_bytes : Bytes → Zipped EntryName
check_bytes name =
    if every_byte (λ c. not (control_byte c)) name
    then split_first (without_slash name) (split_at b'/' (without_slash name))
    else rejected "zip: control byte in entry name"

unfoldable pub split_entry_name : Bytes → Zipped EntryName
split_entry_name name =
    if length name == 0 || ltb 1024 (length name)
    then rejected "zip: bad entry name length"
    else if get_or name 0 0 == b'/'
    then rejected "zip: absolute path entry rejected"
    else if has_byte b'\\' name
    then rejected "zip: backslash in entry name rejected"
    else if leb 2 (length name) && get_or name 1 0 == b':'
    then rejected "zip: drive-letter path rejected"
    else check_bytes name
