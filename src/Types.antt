-- ===== src/Types.antt =====
-- crates/kraai-types/src: values that all crates of the project exchange.
pub mod Cost
pub mod Conversation
pub mod Tokens
pub mod Options
