-- ===== src/Execution.antt =====
-- crates/kraai-execution-types/src: the sandbox capabilities that a script may hold, the policy
-- that decides on a request for more of them, and the outcome of a script.
pub mod Capability
pub mod Entails
pub mod Policy
pub mod Verdicts
mod Tests
