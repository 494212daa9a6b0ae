-- ===== src/Provider/Retry.antt =====
-- crates/llm-providers/kraai-provider-core/src/http_retry.rs: retries of a provider request.
pub mod Policy
pub mod Send
pub mod Attempts
pub mod Backoff
pub mod Delays
mod Tests
