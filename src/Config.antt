-- ===== src/Config.antt =====
-- src/config.c: the configuration and its file.
pub mod State
pub mod Load
pub mod Laws
pub mod Keys
pub mod File
pub mod Lines
pub mod Loaded
pub mod Segments
mod Tests
