-- ===== src/Session.antt =====
-- crates/kraai-runtime/src/runtime/session: the actor that owns the turn of one session.
pub mod Errors
pub mod Scripting
pub mod Runtime
pub mod Messages
pub mod Actor
pub mod Lease
pub mod Turn
pub mod Submission
pub mod Scripts
pub mod Blocks
pub mod Approvals
pub mod Cancel
pub mod Deletion
pub mod Prepared
pub mod Stream
pub mod Run
pub mod Deferred
pub mod Steady
pub mod Answers
pub mod Permission
pub mod Stopping
pub mod Stale
pub mod Spent
mod Tests
