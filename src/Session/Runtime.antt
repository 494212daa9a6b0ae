-- ===== src/Session/Runtime.antt =====
-- What the actor calls: the agent manager, the session store, the execution store, the timer and
-- the files, as functions on a world. The actor is sequential, but other tasks act while a call
-- waits; a call's effect on the world includes theirs.
use kraai.Base.{ℕ, Bool, List, Option}
use kraai.Base.Utf8.{Bytes}
use kraai.Base.Integers.{ℤ}
use kraai.Types.Conversation.{
  ImageAttachment, MessageContent, AssistantPhase, Payload, ScriptCall, AssistantItem,
  ScriptExecutionOutcome,
}
use kraai.Types.Cost.{TokenUsage, RequestUsage}
use kraai.Types.Options.{ModelOptionValues}
use kraai.Session.Errors.{RuntimeResult}
use kraai.Session.Scripting.{
  ScriptProfileSnapshot, ScriptTurnContext, EffectiveScriptRequest, NewScriptExecution,
  ScriptExecutionCompletion, ScriptExecutionRecord, CompletedScriptExecution,
}

pub record ModelSelection : Type 0 where
  pub provider_id : Bytes
  pub model_id : Bytes
  pub options : ModelOptionValues

pub record QueuedMessage : Type 0 where
  pub content : MessageContent
  pub selection : ModelSelection

pub record QueuedEntry : Type 0 where
  pub sequence : ℤ
  pub message : QueuedMessage

pub data StreamedItem : Type 0 where
  started : ℕ → AssistantItem → StreamedItem
  delta : ℕ → Bytes → StreamedItem

pub data ActivityKind : Type 0 where
  idle preparing streaming awaiting_approval running_script : ActivityKind

-- What a snapshot reads outside the actor.
pub record Observed : Type 0 where
  pub foreign_owner : Bool
  pub is_running : Bool
  pub queued_messages : ℕ
  pub event_sequence : ℕ

-- A call that may fail.
abbrev pub Call : Type 0 → Type 0 → Type 0
Call W A = W → RuntimeResult A × W

pub record Runtime (W : Type 0) : Type 0 where
  -- the agent manager
  pub is_turn_active : W → Bool
  pub clear_active_turn : W → W
  pub discard_streaming_state : W → W
  pub validate_model_options : ModelSelection → Call W (Unit {0})
  pub complete_message : Bytes → Call W (Option Bytes)
  pub abort_streaming_message : Bytes → Call W (Option Bytes)
  pub cancel_streaming_message : Bytes → Bytes → Call W (Option Bytes)
  pub append_text_chunk : Bytes → Bytes → AssistantPhase → Bytes → W → Option StreamedItem × W
  pub append_reasoning : Bytes → Bytes → Payload → W → Option StreamedItem × W
  pub append_script_call : Bytes → ScriptCall → W → Option StreamedItem × W
  pub set_streaming_message_usage : Bytes → TokenUsage → Call W (Option RequestUsage)
  pub reset_streaming_message : Bytes → Call W (Option (Option RequestUsage))
  pub script_turn_context : Call W ScriptTurnContext
  pub add_script_result_to_history :
      ScriptExecutionRecord → Bytes → ScriptExecutionOutcome → Call W (Unit {0})
  pub undo_last_user_message : Call W (Option MessageContent)
  pub delete_session : Call W (Unit {0})
  pub replace_session_mcp_servers : Bytes → Call W Bool
  pub shut_down_servers : W → W
  -- the session store
  pub owns_turn : Call W Bool
  pub claim_turn : Call W (Unit {0})
  pub lease_token_matches : ℤ → W → Bool
  pub has_queued_messages : Call W Bool
  pub enqueue_message : QueuedMessage → Call W ℕ
  pub queued_messages : Call W (List QueuedEntry)
  pub clear_queued_messages : Call W Bool
  pub release_turn_with_timer : Bytes → Call W Bool
  -- the execution store
  pub recover_session_executions : Call W (Unit {0})
  pub new_execution_id : W → Bytes × W
  pub prepare_script_execution : EffectiveScriptRequest → Call W (Unit {0})
  pub create_execution : NewScriptExecution → Call W (Unit {0})
  pub finish_execution : Bytes → ScriptExecutionCompletion → Call W ScriptExecutionRecord
  pub read_output : Bytes → Call W (Bytes × Bytes)
  pub mark_awaiting_approval : Bytes → Call W (Unit {0})
  pub render_script_result : CompletedScriptExecution → Call W Bytes
  -- the registry of the actors
  pub publish_activity : ActivityKind → W → W
  pub remove_actor : W → W
  -- images, the timer, child tasks, files and snapshots
  pub read_image : ImageAttachment → Call W (Unit {0})
  pub finished_timer : Call W Bytes
  pub finish_timer : W → W
  pub resume_timer : W → W
  pub remove_timer : W → W
  pub wait_session : W → W
  pub forget_observation : W → W
  pub remove_script_output : W → W
  pub create_script_output_dir : Call W Bytes
  pub skill_read_roots : Bytes → Call W (List Bytes)
  pub script_runtime_roots : W → List Bytes
  pub script_environment : ScriptProfileSnapshot → RuntimeResult (List (Bytes × Bytes))
  pub cancelled_output : Bytes
  pub capture : Call W Observed
