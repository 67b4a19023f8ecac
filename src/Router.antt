-- ===== src/Router.antt =====
-- src/router.c: the parts of the model and their proofs.
pub mod Numbers
pub mod Text
pub mod Json
pub mod Range
pub mod State
pub mod Sessions
pub mod Uploads
pub mod Storage
pub mod Dispatch
pub mod Streams
pub mod Meaning
pub mod EscapeLaws
pub mod RangeLaws
pub mod Guards
pub mod Access
pub mod Admits
pub mod Begins
pub mod Login
pub mod Destinations
pub mod Setup
mod Tests
