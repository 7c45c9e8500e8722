-- ===== src/Package/Url.antt =====
-- src/package.c: the GitHub URLs that `myon pkg install` takes.
pub mod Safe
use myon.Base.{
  ℕ, zero, suc, ◌-◌, Bool, true, false, not, ◌&&◌, ◌||◌, ◌≡◌, List, [], ◌∷◌, ◌++◌, Option, none,
  some, ◌==◌, ltb, if◌then◌else◌, if_cases, Bytes, length, take, drop, str_eq, arith,
}
use myon.Base.Text.{codes}
use mathlib.Core.Path.{subst}
use myon.Package.Errors.{PkgError, Checked, refused, accepted, err_usage, error_plain, error_about}
use myon.Package.Names.{pkg_is_full_sha, valid_repo_segment}
use myon.Package.Source.{strip_prefix}

pub data PkgRefKind : Type 0 where
  ref_default : PkgRefKind
  ref_branch : PkgRefKind
  ref_commit : PkgRefKind
  ref_tag : PkgRefKind

pub record PkgInstallUrl : Type 0 where
  pub owner : Bytes
  pub repo : Bytes
  pub ref_kind : PkgRefKind
  pub ref : Option Bytes

abbrev pub url_has_control_bytes : Bytes → Bool
url_has_control_bytes [] = false
url_has_control_bytes (c ∷ cs) = ltb c 32 || (c == 127 || url_has_control_bytes cs)

-- `memchr` for '@' in front of the first '/'.
abbrev pub embeds_credentials : Bytes → Bool
embeds_credentials [] = false
embeds_credentials (c ∷ cs) =
    if c == b'/' then false else if c == b'@' then true else embeds_credentials cs

abbrev pub has_query : Bytes → Bool
has_query [] = false
has_query (c ∷ cs) = c == b'?' || (c == b'#' || has_query cs)

-- To the next '/', which is dropped.
abbrev pub take_segment : Bytes → Bytes × Bytes
take_segment [] = ([], [])
take_segment (c ∷ cs) =
    if c == b'/' then ([], cs) else (let rest = take_segment cs in (c ∷ rest.0, rest.1))

-- `while (*p && nseg < 8)`: the number is how many more segments there is room for.
abbrev pub split_segments : ℕ → Bytes → List Bytes × Bytes
split_segments zero p = ([], p)
split_segments (suc n) [] = ([], [])
split_segments (suc n) (c ∷ cs) =
    let segment = take_segment (c ∷ cs) in
    let rest = split_segments n segment.1 in (segment.0 ∷ rest.0, rest.1)

abbrev pub drop_trailing : List Bytes → List Bytes
drop_trailing [] = []
drop_trailing ([] ∷ []) = []
drop_trailing ((c ∷ cs) ∷ []) = (c ∷ cs) ∷ []
drop_trailing (s ∷ t ∷ ts) = s ∷ drop_trailing (t ∷ ts)

abbrev pub strip_git : Bytes → Bytes
strip_git repo =
    let n = length repo - 4 in
    if ltb 4 (length repo) && str_eq (drop n repo) (codes ".git") then take n repo else repo

abbrev pub with_ref : Bytes → Bytes → PkgRefKind → Option Bytes → Checked PkgInstallUrl
with_ref owner repo kind ref =
    accepted (record { owner = owner; repo = repo; ref_kind = kind; ref = ref })

abbrev pub bad_shape : Checked PkgInstallUrl
bad_shape = refused (
    error_plain err_usage 0
      "unsupported GitHub URL shape; use https://github.com/<owner>/<repo>[/tree/<ref>|/commit/<sha>|/releases/tag/<tag>]")

abbrev pub classify_ref : Bytes → Bytes → List Bytes → Checked PkgInstallUrl
classify_ref owner repo [] = with_ref owner repo ref_default none
classify_ref owner repo (word ∷ ref ∷ []) =
    if str_eq word (codes "tree")
    then with_ref owner repo (if pkg_is_full_sha ref then ref_commit else ref_branch) (some ref)
    else if str_eq word (codes "commit")
    then with_ref owner repo ref_commit (some ref)
    else bad_shape
classify_ref owner repo (word ∷ kind ∷ ref ∷ []) =
    if str_eq word (codes "releases") && str_eq kind (codes "tag")
    then with_ref owner repo ref_tag (some ref)
    else bad_shape
classify_ref owner repo _ = bad_shape

abbrev pub check_segments : List Bytes → Checked PkgInstallUrl
check_segments (owner ∷ repo ∷ more) =
    if not (valid_repo_segment owner) || not (valid_repo_segment (strip_git repo))
    then refused (error_plain err_usage 0 "install URL has an invalid owner/repository")
    else classify_ref owner (strip_git repo) more
check_segments _ =
    refused (error_plain err_usage 0 "install URL must be https://github.com/<owner>/<repo>...")

abbrev pub check_depth : List Bytes × Bytes → Checked PkgInstallUrl
check_depth (segments, []) = check_segments (drop_trailing segments)
check_depth (segments, c ∷ cs) =
    refused (error_plain err_usage 0 "install URL path is too deep to be a repository URL")

abbrev pub wrong_host : Bytes → Checked PkgInstallUrl
wrong_host url =
    refused (error_about err_usage 0 "install URL host must be github.com (got '" url "')")

-- What stands behind the host, its '/' first; the segments are split behind that '/'.
abbrev pub check_path : Bytes → Option Bytes → Checked PkgInstallUrl
check_path url none = wrong_host url
check_path url (some []) = wrong_host url
check_path url (some (c ∷ cs)) =
    if not (c == b'/')
    then wrong_host url
    else if has_query (c ∷ cs)
    then refused (error_plain err_usage 0 "install URL must not contain a query or fragment")
    else check_depth (split_segments 8 cs)

abbrev pub check_host : Bytes → Option Bytes → Checked PkgInstallUrl
check_host url none = refused (
    error_about err_usage 0 "install URL must use https:// and point at github.com (got '" url "')")
check_host url (some p) =
    if embeds_credentials p
    then refused (error_plain err_usage 0 "install URL must not embed credentials")
    else check_path url (strip_prefix (codes "github.com") p)

unfoldable pub pkg_install_url_parse : Bytes → Checked PkgInstallUrl
pkg_install_url_parse [] = refused (error_plain err_usage 0 "empty install URL")
pkg_install_url_parse (c ∷ cs) =
    if url_has_control_bytes (c ∷ cs)
    then refused (error_plain err_usage 0 "install URL contains illegal control characters")
    else check_host (c ∷ cs) (strip_prefix (codes "https://") (c ∷ cs))
