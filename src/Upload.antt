-- ===== src/Upload.antt =====
-- src/upload.c and src/upload.h: the receiving slot, its chunks and its writer.
pub mod State
pub mod Chunks
pub mod Ops
pub mod Invariant
pub mod Preserve
pub mod Content
pub mod Steps
pub mod StepsMore
pub mod StepsEnds
pub mod StepsStream
pub mod StepsFinish
pub mod Prepare
pub mod Reach
pub mod Publish
pub mod Written
pub mod Writer
pub mod Complete
pub mod Metadata
pub mod MetadataLaws
pub mod MetadataLoop
pub mod Stream
pub mod Flow
pub mod FlowSteps
pub mod StreamPublish
pub mod StreamFinish
pub mod StreamComplete
pub mod StreamIntact
pub mod Findings
pub mod Admin
mod Tests
mod StreamTests
