-- ===== src/Agent.antt =====
-- crates/kraai-agent/src: what a request to a model is made of.
pub mod Compaction
pub mod Assemble
pub mod Context
pub mod Instructions
pub mod Stability
pub mod Tests
