-- ===== src/Sha256.antt =====
-- src/sha256.c: the hash of uploaded files.
pub mod Compress
pub mod Context
pub mod Blocks
pub mod Padding
pub mod Final
pub mod Shape
mod Tests
