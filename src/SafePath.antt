-- ===== src/SafePath.antt =====
-- src/safe_path.c: file names and paths in the destination directory.
pub mod Names
pub mod Laws
pub mod Utf8Laws
pub mod Unique
pub mod Candidate
mod Tests
