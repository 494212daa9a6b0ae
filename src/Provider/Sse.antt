-- ===== src/Provider/Sse.antt =====
-- crates/llm-providers/kraai-provider-core/src/sse.rs: server-sent events.
pub mod Task
pub mod Machine
pub mod RoundTrip
pub mod Bounds
mod Tests
