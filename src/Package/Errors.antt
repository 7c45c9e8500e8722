-- ===== src/Package/Errors.antt =====
-- src/package.h and src/package.c: the error that a refused text leaves.
use myon.Base.{ℕ, ◌++◌, Bytes}
use myon.Base.Text.{codes}
use Prim.Native.String.{String}

pub data PkgErrorCode : Type 0 where
  err_ok : PkgErrorCode
  err_usage : PkgErrorCode
  err_manifest : PkgErrorCode
  err_io : PkgErrorCode
  err_network : PkgErrorCode
  err_integrity : PkgErrorCode
  err_unsupported : PkgErrorCode

pub record PkgError : Type 0 where
  pub code : PkgErrorCode
  pub line : ℕ
  pub message : Bytes

-- `return true` with a result, or `pkg_error_set` and `return false`.
pub data Checked {ℓ} (A : Type ℓ) : Type ℓ where
  refused : PkgError → Checked A
  accepted : A → Checked A

abbrev pub error_plain : PkgErrorCode → ℕ → String → PkgError
error_plain code line text = record { code = code; line = line; message = codes text }

-- The text with one `%s` in it.
abbrev pub error_about : PkgErrorCode → ℕ → String → Bytes → String → PkgError
error_about code line before name after = record {
  code = code;
  line = line;
  message = codes before ++ name ++ codes after;
}
