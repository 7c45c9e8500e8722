-- ===== src/Package/Names.antt =====
-- src/package.c: hashes, package names, module names and path segments.
pub mod Modules
use myon.Base.{
  ℕ, Bool, true, false, not, ◌&&◌, ◌||◌, [], ◌∷◌, Option, none, some, ◌==◌, if◌then◌else◌, Bytes,
  length,
}
use myon.Base.Text.{between, isalnum}
use myon.Package.Errors.{PkgError, err_manifest, error_plain, error_about}

-- `PKG_SHA_LEN` and `PKG_SHA256_HEX_LEN`
abbrev pub sha_len : ℕ
sha_len = 40

abbrev pub sha256_hex_len : ℕ
sha256_hex_len = 64

abbrev pub is_lower_hex : ℕ → Bool
is_lower_hex c = between b'0' b'9' c || between b'a' b'f' c

-- The loop leaves with `false` at the first byte outside the class.
abbrev pub every : (ℕ → Bool) → Bytes → Bool
every p [] = true
every p (c ∷ cs) = p c && every p cs

abbrev pub pkg_is_full_sha : Bytes → Bool
pkg_is_full_sha s = every is_lower_hex s && length s == sha_len

abbrev pub pkg_is_sha256_hex : Bytes → Bool
pkg_is_sha256_hex s = every is_lower_hex s && length s == sha256_hex_len

-- `name[n - 1]`
abbrev pub last_byte : ℕ → Bytes → ℕ
last_byte c [] = c
last_byte c (d ∷ ds) = last_byte d ds

abbrev pub package_char : ℕ → Bool
package_char c = between b'a' b'z' c || between b'0' b'9' c || c == b'.' || c == b'-'

abbrev pub starts_with_dot : Bytes → Bool
starts_with_dot [] = false
starts_with_dot (c ∷ cs) = c == b'.'

abbrev pub package_chars : Bytes → ℕ → Bytes → Option PkgError
package_chars name line [] = none
package_chars name line (c ∷ cs) =
    if not (package_char c)
    then some (
        error_about err_manifest line "invalid character in package name '" name
          "' (allowed: lowercase a-z, 0-9, '.', '-')")
    else if c == b'.' && starts_with_dot cs
    then some (error_about err_manifest line "package name '" name "' must not contain '..'")
    else package_chars name line cs

-- `none` is `true`.
unfoldable pub pkg_validate_package_name : Bytes → ℕ → Option PkgError
pkg_validate_package_name [] line = some (error_plain err_manifest line "empty package name")
pkg_validate_package_name (c ∷ cs) line =
    if c == b'.' || last_byte c cs == b'.'
    then some
        (error_about err_manifest line "package name '" (c ∷ cs) "' must not start or end with '.'")
    else if c == b'-' || last_byte c cs == b'-'
    then some
        (error_about err_manifest line "package name '" (c ∷ cs) "' must not start or end with '-'")
    else package_chars (c ∷ cs) line (c ∷ cs)

abbrev pub segment_char : ℕ → Bool
segment_char c = between b'a' b'z' c || between b'0' b'9' c || c == b'-'

-- The checks of a segment that ends here; `some first` is its first byte.
abbrev pub end_segment : Bytes → ℕ → Option ℕ → Option PkgError → Option PkgError
end_segment name line none rest =
    some (error_about err_manifest line "module name '" name "' has an empty segment")
end_segment name line (some first) rest =
    if not (between b'a' b'z' first)
    then some (
        error_about err_manifest line "module name '" name
          "': each segment must start with a lowercase letter")
    else rest

-- The first byte of a segment stays the first one.
abbrev pub keep_first : Option ℕ → ℕ → ℕ
keep_first none c = c
keep_first (some first) c = first

abbrev pub module_chars : Bytes → ℕ → Option ℕ → Bytes → Option PkgError
module_chars name line first [] = end_segment name line first none
module_chars name line first (c ∷ cs) =
    if c == b'.'
    then end_segment name line first (module_chars name line none cs)
    else if not (segment_char c)
    then some (
        error_about err_manifest line "invalid character in module name '" name
          "' (allowed: lowercase a-z, 0-9, '-', '.')")
    else module_chars name line (some (keep_first first c)) cs

-- `none` is `true`.
unfoldable pub pkg_validate_module_name : Bytes → ℕ → Option PkgError
pkg_validate_module_name [] line = some (error_plain err_manifest line "empty module name")
pkg_validate_module_name (c ∷ cs) line = module_chars (c ∷ cs) line none (c ∷ cs)

abbrev pub repo_char : ℕ → Bool
repo_char c = isalnum c || c == b'-' || c == b'_' || c == b'.'

-- `.` or `..`
abbrev pub only_dots : Bytes → Bool
only_dots [] = false
only_dots (c ∷ []) = c == b'.'
only_dots (c ∷ d ∷ []) = c == b'.' && d == b'.'
only_dots (c ∷ d ∷ e ∷ cs) = false

-- An owner or a repository in a path.
unfoldable pub valid_repo_segment : Bytes → Bool
valid_repo_segment [] = false
valid_repo_segment (c ∷ cs) = not (only_dots (c ∷ cs)) && every repo_char (c ∷ cs)
