-- ===== src/Package/Source.antt =====
-- src/package.c: `github:<owner>/<repo>@<sha>`.
use myon.Base.{ℕ, not, [], ◌∷◌, ◌++◌, Option, none, some, ◌==◌, if◌then◌else◌, Bytes}
use myon.Base.Text.{codes}
use myon.Package.Errors.{Checked, refused, accepted, err_manifest, error_about}
use myon.Package.Names.{pkg_is_full_sha, valid_repo_segment}

pub record PkgSource : Type 0 where
  pub owner : Bytes
  pub repo : Bytes
  pub sha : Bytes

-- `strncmp(s, prefix, n) != 0` is `none`; else what stands behind the prefix.
abbrev pub strip_prefix : Bytes → Bytes → Option Bytes
strip_prefix [] s = some s
strip_prefix (p ∷ ps) [] = none
strip_prefix (p ∷ ps) (c ∷ cs) = if p == c then strip_prefix ps cs else none

abbrev pub cons_fst : ℕ → Option (Bytes × Bytes) → Option (Bytes × Bytes)
cons_fst c none = none
cons_fst c (some (before, after)) = some (c ∷ before, after)

-- `strchr`: the bytes before and behind the first `c`.
abbrev pub split_at : ℕ → Bytes → Option (Bytes × Bytes)
split_at c [] = none
split_at c (b ∷ bs) = if b == c then some ([], bs) else cons_fst b (split_at c bs)

abbrev pub check_source : Bytes → ℕ → Bytes → Bytes → Bytes → Checked PkgSource
check_source text line owner repo sha =
    if not (valid_repo_segment owner)
    then refused (error_about err_manifest line "source '" text "' has an invalid owner")
    else if not (valid_repo_segment repo)
    then refused (error_about err_manifest line "source '" text "' has an invalid repository")
    else if not (pkg_is_full_sha sha)
    then refused (
        error_about err_manifest line "source '" text
          "' must pin a 40-character lowercase hex commit SHA (branches, tags, 'latest' and short SHAs are rejected)")
    else accepted (record { owner = owner; repo = repo; sha = sha })

abbrev pub source_at : Bytes → ℕ → Bytes → Option (Bytes × Bytes) → Checked PkgSource
source_at text line owner none =
    refused (error_about err_manifest line "source '" text "' is missing '@<commit-sha>'")
source_at text line owner (some (repo, sha)) = check_source text line owner repo sha

abbrev pub source_slash : Bytes → ℕ → Option (Bytes × Bytes) → Checked PkgSource
source_slash text line none =
    refused (error_about err_manifest line "source '" text "' must be github:<owner>/<repo>@<sha>")
source_slash text line (some (owner, rest)) = source_at text line owner (split_at b'@' rest)

abbrev pub source_prefix : Bytes → ℕ → Option Bytes → Checked PkgSource
source_prefix text line none = refused (
    error_about err_manifest line "source '" text
      "' must start with 'github:' (only GitHub full-SHA sources are allowed)")
source_prefix text line (some p) = source_slash text line (split_at b'/' p)

unfoldable pub pkg_source_parse : Bytes → ℕ → Checked PkgSource
pkg_source_parse text line = source_prefix text line (strip_prefix (codes "github:") text)

unfoldable pub pkg_source_canonical_no_sha : PkgSource → Bytes
pkg_source_canonical_no_sha s = codes "github:" ++ (s.owner ++ (codes "/" ++ s.repo))

unfoldable pub pkg_source_archive_url : PkgSource → Bytes
pkg_source_archive_url s =
    codes "https://codeload.github.com/" ++ s.owner ++ codes "/" ++ s.repo ++ codes "/zip/" ++ s.sha
