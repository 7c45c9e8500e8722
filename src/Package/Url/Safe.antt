-- ===== src/Package/Url/Safe.antt =====
-- src/package.c: what an accepted install URL gives.
use myon.Base.{true, ◌≡◌}
use myon.Package.Errors.{Checked, refused, accepted}
use myon.Package.Names.{valid_repo_segment}
use myon.Package.Url.{PkgInstallUrl}

-- Both parts go into a path or a request as they are.
abbrev SafeUrl : Checked PkgInstallUrl → Type 0
SafeUrl (refused e) = Unit
SafeUrl (accepted u) = (valid_repo_segment u.owner ≡ true) × (valid_repo_segment u.repo ≡ true)
