-- ===== src/Lib.antt =====
-- Verification library of kraai, a coding agent harness. The modules below model parts of its Rust
-- crates and prove what makes them correct.
--
-- The parts, and where they stand in the repository:
--
-- Execution: crates/kraai-execution-types/src. Execution.Capability is permissions.rs: the set of
-- capabilities of a sandboxed script, and the closure that `new` computes. A `BTreeSet` over the
-- six capabilities is its characteristic function. Execution.Policy is policy.rs: `resolve` decides
-- on a request for capabilities by the rules and the fallback. Execution.Entails describes apart
-- from the code what a capability grants; Execution.Verdicts compares the decisions with it.
--
-- Types: crates/kraai-types/src. Types.Cost is cost.rs: `estimate`, the running `CostSummary`
-- (`add`), and their displays as bytes. Types.Conversation is conversation.rs. Types.Tokens is
-- token_estimate.rs, with context_budget.rs of crates/llm-providers/kraai-provider-core/src.
-- Types.Options is model_options.rs; its children Reconcile and Validation are
-- model_options/validation.rs. A `BTreeMap` from ids is its list of pairs; the map from ids to
-- definitions is a search for the last definition with the id.
--
-- Provider: crates/llm-providers/kraai-provider-core/src. Provider.Sse is sse.rs: Task holds
-- `forward_sse_events`, `process_line` and `flush_event` with the offsets into the buffer as they
-- are in the code, Machine the description without chunks. The transport is the list of its chunks
-- with the way in which it ends, the channel the list of what was sent. Provider.Retry is
-- http_retry.rs: Policy holds the pure functions and the cooldown, Send the loop of
-- `send_with_retry`; what the outside decides in one attempt is a record of type Attempt, and the
-- calls to the observer are listed. An observer that is absent is one that permits every attempt.
--
-- Agent: crates/kraai-agent/src. Agent.Compaction is compaction.rs and the removal of exchanges in
-- compaction/summary.rs; loops that run backwards over messages and parts recur on the tail first.
-- Agent.Assemble is `assemble` of compaction.rs: the map from a message to what follows it is the
-- list of its pairs. Agent.Context is context_state.rs with the pinned files, where the file system
-- is a record of its answers and a path its bytes, so that spellings of one path are different
-- paths; Agent.Instructions is the part of it on instructions and anchors, with Agent.Stability on
-- it.
--
-- Workspace: crates/kraai-workspace-fs/src. Workspace.Edits is edits.rs, on bytes; an answer `none`
-- is a panic of `split_at` or of a subtraction. Lines, Offsets and Splice relate bytes to lines,
-- and Refinement holds the replacement of whole lines; Matches is on what the lines hold.
--
-- Session: crates/kraai-runtime/src/runtime/session, the actor that owns a session's turns.
-- Session.Errors is the part of runtime/api.rs on errors, where an error of a call is the
-- RuntimeError that it becomes; Scripting holds script requests and results and decides on a script
-- by the policy of its profile (script_execution.rs, runtime/executions.rs). Session.Runtime is the
-- interface of what an actor calls (the agent manager, the stores, the sandbox, the event bus):
-- each call is a function on a world W, any type, which includes what other tasks do. Messages,
-- Actor and Run are actor.rs: the messages and the state of a turn, a state monad with the log of
-- what was answered, told and spawned, newest first, and the loop that receives, defers and exits;
-- Run also takes the snapshot of snapshot.rs, and answers it itself, where in the code a
-- child task loads the history and may still fail. Lease is the part of session_maintenance.rs that
-- holds a session; Turn, Submission and Prepared are turn.rs, Scripts, Blocks and Approvals are
-- scripts.rs, Cancel and Deletion are cancel.rs, Stream is stream.rs. The loop takes the list of
-- the messages that arrive, then the channel is closed. A responder is a number, the same for the
-- same channel; an event leaves out the id of the session; the message that only the tests send is
-- left out. Steady lifts relations between a state before and a state after through every method,
-- and Answers, Permission, Stopping and Spent use it; Stale is on reports of children that the turn
-- does not wait for.
--
-- Base: Boolean tests, lists, machine words (`usize` has 64 bits), UTF-8 text as bytes with the
-- functions of `str` that the code uses, decimal numerals, and results.
--
-- Numbers are unbounded naturals; where the source saturates, checks or could overflow, the bound
-- is written out. Most loops recur on lists or on the number of attempts left, and `decimal` gives
-- one more step than a number can have digits. Two loops of Types.Options have a bound on their
-- rounds as an argument: the reconciliation drops a value in each round but the last, so one more
-- than the number of values is enough, and a chain of conditions visits a new id in each round, so
-- one more than the number of definitions is enough. The loop over deferred messages of Session.Run
-- has one step more than there are deferred messages: only deletions are deferred, and one that is
-- handled outside a preparation is not deferred again.
--
-- Parameters for code that is not in the repository: the floating-point jitter of a backoff, taken
-- as total although it could overflow a Duration, the date parser of the httpdate crate, and the
-- last instant that the platform represents. Opaque JSON of a provider is the text that its
-- serialization gives.
--
-- Not modelled: the registry of actors (session/mod.rs), the child tasks of an actor (loading of a
-- snapshot, driving a stream, running a script), which a message stands for when they report,
-- terminal and web front ends, the sandbox back ends of the operating systems, the database, the
-- Nushell runtime, the evaluation and performance tools, and the wiring between them.
pub mod Base
pub mod Execution
pub mod Types
pub mod Provider
pub mod Agent
pub mod Workspace
pub mod Session
