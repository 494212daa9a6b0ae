-- ===== src/Session/Scripting.antt =====
-- The scripts that a session runs: crates/kraai-runtime/src/runtime/script_execution.rs,
-- crates/kraai-execution-types/src/profile.rs, crates/kraai-persistence/src/executions.rs and
-- the blocks of crates/kraai-script-protocol/src/payload.rs.
use kraai.Base.{ℕ, Bool, List, Option, none, some}
use kraai.Base.Utf8.{Bytes}
use kraai.Base.Integers.{ℤ}
use kraai.Base.Literals.{utf8}
use kraai.Base.Results.{ok, err}
use kraai.Execution.Capability.{SandboxCapability, SandboxCapabilities}
use kraai.Execution.Policy.{EscalationPolicy, CapabilityPermissionRules}
use kraai.Types.Conversation.{ScriptExecutionStatus, ScriptExecutionOutcome}
use kraai.Session.Errors.{RuntimeResult, internal, failure}

-- The parts of a profile that the actor reads; the rest goes to the script's process.
pub record ScriptProfileSnapshot : Type 0 where
  pub id : Bytes
  pub permissions : SandboxCapabilities
  pub permission_rules : CapabilityPermissionRules
  pub escalation_policy : EscalationPolicy

pub record ScriptTurnContext : Type 0 where
  pub workspace_dir : Bytes
  pub profile : ScriptProfileSnapshot

pub record ScriptBlock : Type 0 where
  pub input : Bytes
  pub source : Bytes
  pub timeout : ℕ  -- milliseconds
  pub requested_capabilities : SandboxCapabilities

pub record InvalidScriptBlock : Type 0 where
  pub input : Bytes
  pub source : Bytes
  pub timeout : Option ℕ
  pub requested_capabilities : SandboxCapabilities

pub record EffectiveScriptRequest : Type 0 where
  pub id : Bytes
  pub source_message_id : Bytes
  pub call_id : Bytes
  pub profile : ScriptProfileSnapshot
  pub source : Bytes
  pub rewrites : List Bytes
  pub workspace_root : Bytes
  pub requested_capabilities : SandboxCapabilities
  pub effective_capabilities : SandboxCapabilities
  pub timeout : ℕ
  pub environment : List (Bytes × Bytes)
  pub runtime_roots : List Bytes

pub record PendingScriptApproval : Type 0 where
  pub request : EffectiveScriptRequest
  pub additions : List SandboxCapability

pub record PendingScriptInfo : Type 0 where
  pub execution_id : Bytes
  pub call_id : Bytes
  pub source : Bytes
  pub requested_capabilities : List SandboxCapability
  pub capability_additions : List SandboxCapability
  pub timeout_millis : ℕ

pub record NewScriptExecution : Type 0 where
  pub id : Bytes
  pub source_message_id : Bytes
  pub call_id : Bytes
  pub profile : ScriptProfileSnapshot
  pub source : Bytes
  pub rewrites : List Bytes
  pub requested_capabilities : SandboxCapabilities
  pub effective_capabilities : SandboxCapabilities
  pub timeout : Option ℕ

pub record ScriptExecutionCompletion : Type 0 where
  pub status : ScriptExecutionStatus
  pub exit_code : Option ℤ
  pub sandbox_denied : Bool
  pub error : Option Bytes
  pub stdout : Bytes
  pub stderr : Bytes

pub record ScriptExecutionRecord : Type 0 where
  pub id : Bytes
  pub call_id : Bytes
  pub profile : ScriptProfileSnapshot
  pub result_message_id : Bytes
  pub status : Option ScriptExecutionStatus
  pub exit_code : Option ℤ
  pub error : Option Bytes

-- The output is the text of the two channels.
pub record CompletedScriptExecution : Type 0 where
  pub entry : ScriptExecutionRecord
  pub output : Bytes × Bytes

-- `ScriptExecutionRecord::outcome`.
unfoldable pub outcome_of : ScriptExecutionRecord → RuntimeResult ScriptExecutionOutcome
outcome_of r = elim r.status [
  | some s ↦ ok (record { status = s; exit_code = r.exit_code })
  | none ↦ err (failure internal (utf8 "Execution has no terminal status"))
]

-- `CompletedStreamOutput` of stream_driver.rs; a protocol error is the text it displays.
pub record CompletedStreamOutput : Type 0 where
  pub call_id : Option Bytes
  pub script : Option ScriptBlock
  pub invalid_script : Option InvalidScriptBlock
  pub protocol_error : Option Bytes
  pub rewrites : List Bytes
  pub reached_output_limit : Bool
