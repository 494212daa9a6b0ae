-- ===== src/Session/Messages.antt =====
-- crates/kraai-runtime/src/runtime/session/actor.rs: the messages an actor receives and the state
-- of a turn, and the replies, events and child tasks it produces. The session's id, which every
-- event repeats, is left out.
use kraai.Base.{ℕ, Bool, List, Option}
use kraai.Base.Utf8.{Bytes}
use kraai.Base.Integers.{ℤ}
use kraai.Types.Conversation.{
  MessageContent, AssistantPhase, Payload, ScriptCall, AssistantItem, ScriptExecutionOutcome,
}
use kraai.Types.Cost.{TokenUsage, RequestUsage}
use kraai.Session.Errors.{RuntimeError, RuntimeResult}
use kraai.Session.Scripting.{
  EffectiveScriptRequest, PendingScriptApproval, PendingScriptInfo, CompletedScriptExecution,
  CompletedStreamOutput,
}
use kraai.Session.Runtime.{ModelSelection, QueuedEntry, Observed, ActivityKind}

-- The sending half of a one-shot channel, by a number of its own.
abbrev pub Responder : Type 0
Responder = ℕ

pub data StreamEvent : Type 0 where
  text : Bytes → AssistantPhase → Bytes → StreamEvent
  reasoning : Bytes → Payload → StreamEvent
  reasoning_delta : Bytes → Bytes → StreamEvent
  script_call : ScriptCall → StreamEvent
  usage : TokenUsage → StreamEvent
  restart : Bytes → StreamEvent

pub data StreamDriveResult : Type 0 where
  completed : CompletedStreamOutput → StreamDriveResult
  failed_to_start : Bytes → StreamDriveResult
  failed_during_stream : Bytes → StreamDriveResult
  stopped : StreamDriveResult

-- The fields that the actor reads.
pub record PendingStreamRequest : Type 0 where
  pub message_id : Bytes
  pub context_notifications : List Bytes

pub data SessionMessage : Type 0 where
  send : MessageContent → ModelSelection → Responder → SessionMessage
  cancel : Bool → Option ℤ → Option Responder → SessionMessage
  approve : Bytes → Responder → SessionMessage
  deny : Bytes → Responder → SessionMessage
  pending_script : Responder → SessionMessage
  snapshot : Responder → SessionMessage
  set_mcp_servers : Bytes → Responder → SessionMessage
  undo : Responder → SessionMessage
  delete : Responder → SessionMessage
  stop : Responder → SessionMessage
  prepared : ℕ → RuntimeResult (Option PendingStreamRequest) → SessionMessage
  stream : ℕ → StreamEvent → SessionMessage
  stream_ended : ℕ → StreamDriveResult → SessionMessage
  script_ended : ℕ → RuntimeResult CompletedScriptExecution → SessionMessage

pub data SessionActivity : Type 0 where
  idle streaming awaiting_approval executing_script : SessionActivity

pub data StreamKind : Type 0 where
  initial continuation : StreamKind

pub data PreparationOrigin : Type 0 where
  send : Responder → PreparationOrigin
  continue queue : PreparationOrigin

pub record CancelRequest : Type 0 where
  pub discarded : Bool
  pub waiters : List Responder

pub record Preparation : Type 0 where
  pub generation : ℕ
  pub kind : StreamKind
  pub origin : PreparationOrigin
  pub intercepted : Bool
  pub retried : Bool
  pub cancel : Option CancelRequest

-- A job's token and its task are named by its generation.
pub record StreamJob : Type 0 where
  pub generation : ℕ
  pub kind : StreamKind
  pub message_id : Bytes

pub record ScriptJob : Type 0 where
  pub generation : ℕ
  pub cancel_waiters : List Responder

pub data TurnState : Type 0 where
  idle : TurnState
  preparing : Preparation → TurnState
  streaming : StreamJob → TurnState
  awaiting_approval : PendingScriptApproval → TurnState
  running_script : ScriptJob → TurnState

-- `TurnState::kind`.
unfoldable pub kind : TurnState → ActivityKind
kind idle = ActivityKind.idle
kind (preparing p) = ActivityKind.preparing
kind (streaming j) = ActivityKind.streaming
kind (awaiting_approval p) = ActivityKind.awaiting_approval
kind (running_script j) = ActivityKind.running_script

-- `From<ActivityKind> for SessionActivity`.
unfoldable pub activity_of : ActivityKind → SessionActivity
activity_of ActivityKind.idle = idle
activity_of ActivityKind.preparing = idle
activity_of ActivityKind.streaming = streaming
activity_of ActivityKind.awaiting_approval = awaiting_approval
activity_of ActivityKind.running_script = executing_script

pub data SubmitMessageOutcome : Type 0 where
  started : Bytes → SubmitMessageOutcome
  queued : ℕ → SubmitMessageOutcome

-- What a snapshot is made of, before the history is loaded.
pub record CapturedSnapshot : Type 0 where
  pub observed : Observed
  pub pending_script : Option PendingScriptInfo
  pub executing_script : Bool
  pub active_stream : Bool

pub data Reply : Type 0 where
  submitted : RuntimeResult SubmitMessageOutcome → Reply
  cancelled : RuntimeResult Bool → Reply
  finished : RuntimeResult (Unit {0}) → Reply
  pending : RuntimeResult (Option PendingScriptInfo) → Reply
  captured : RuntimeResult CapturedSnapshot → Reply
  undone : RuntimeResult (Option MessageContent) → Reply
  stopped : Reply

-- `PrepareRequest`: what a preparation child asks the agent to build.
pub data PrepareRequest : Type 0 where
  start : MessageContent → ModelSelection → PrepareRequest
  queue : List QueuedEntry → ModelSelection → PrepareRequest
  continuation : PrepareRequest

pub data Event : Type 0 where
  session_state_changed : SessionActivity → Bool → Event
  session_error : RuntimeError → Event
  stream_start : Bytes → Event
  stream_cancelled : Bytes → Event
  stream_complete : Bytes → Event
  stream_restarted : Bytes → Bytes → Event
  stream_error : Bytes → Bytes → Event
  continuation_failed : Bytes → Event
  context_state_changed : List Bytes → Event
  item_started : Bytes → ℕ → AssistantItem → Event
  item_delta : Bytes → ℕ → Bytes → Event
  reasoning_delta : Bytes → Bytes → Bytes → Event
  request_usage_updated : RequestUsage → Event
  turn_completed : Event
  script_prepared : Bytes → Bytes → Bytes → Event
  script_approval_requested : PendingScriptInfo → Event
  script_result_ready : Bytes → Bytes → Bytes → ScriptExecutionOutcome → Event

-- What the actor does to the outside, beside its calls: it answers, it tells clients, it starts a
-- child task and it cancels the token of a generation.
pub data Effect : Type 0 where
  answer : Responder → Reply → Effect
  event : Event → Effect
  spawn_preparation : ℕ → PrepareRequest → Effect
  spawn_stream : ℕ → PendingStreamRequest → Effect
  spawn_script : ℕ → EffectiveScriptRequest → Effect
  cancel_token : ℕ → Effect
