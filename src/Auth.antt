-- ===== src/Auth.antt =====
-- src/auth.c and src/auth.h: PIN challenges, sessions, and the body of a verify request.
pub mod State
pub mod Secrets
pub mod Ops
pub mod Json
pub mod JsonLaws
pub mod JsonAccepts
pub mod Compare
pub mod Invariant
pub mod Slots
pub mod Find
pub mod Preserve
pub mod Lifecycle
pub mod Bearer
pub mod Lockout
pub mod Limits
pub mod Run
pub mod Issued
mod Tests
