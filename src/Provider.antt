-- ===== src/Provider.antt =====
-- crates/llm-providers/kraai-provider-core/src: the parts that every model provider shares.
pub mod Sse
pub mod Retry
