-- ===== src/Package.antt =====
-- src/package.c and src/package.h: the identities of the package format.
pub mod Errors
pub mod Names
pub mod Source
pub mod Pinned
pub mod Url
mod Tests
