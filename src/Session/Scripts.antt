-- ===== src/Session/Scripts.antt =====
-- crates/kraai-runtime/src/runtime/session/scripts.rs: a script runs when the policy allows it, or
-- once a user has approved it.
use kraai.Base.{Bool, true, false, not, ◌||◌, List, [], Option, none, some, if◌then◌else◌}
use kraai.Base.Utf8.{Bytes}
use kraai.Base.Literals.{utf8}
use kraai.Base.Results.{ok}
use kraai.Session.Errors.{RuntimeError, RuntimeResult, internal, failure}
use kraai.Session.Runtime.{Runtime}
use kraai.Execution.Capability.{SandboxCapability, SandboxCapabilities, iter}
use kraai.Execution.Policy.{PermissionResolution, resolve, denied, prompted, allowed}
use kraai.Types.Conversation.{ScriptExecutionStatus, cancelled, host_unavailable}
use kraai.Session.Scripting.{
  ScriptProfileSnapshot, EffectiveScriptRequest, PendingScriptApproval, PendingScriptInfo,
  CompletedScriptExecution, outcome_of,
}
use kraai.Session.Messages.{
  idle, running_script, spawn_script, script_result_ready, continuation_failed,
}
use kraai.Session.Actor.{
  Act, pure, gets, call, ask, run, emit, set_state, ◌>>=◌, ◌>>◌, attempt, send_event, generation,
}
use kraai.Session.Lease.{finish_turn}
use kraai.Session.Turn.{drain, continue_turn}

pub data ScriptDecision : Type 0 where
  allow deny prompt : ScriptDecision

-- The effective capabilities, the additions and the decision of a resolution.
unfoldable pub decide :
    SandboxCapabilities
    → PermissionResolution
    → SandboxCapabilities × List SandboxCapability × ScriptDecision
decide own (denied refused) = (own, refused, deny)
decide own (prompted c) = (c.effective, c.additions, prompt)
decide own (allowed c) = (c.effective, c.additions, allow)

unfoldable pub resolve_request : ScriptProfileSnapshot → SandboxCapabilities → PermissionResolution
resolve_request p requested = resolve p.permissions requested p.permission_rules p.escalation_policy

-- `pending_script_info`, before the capabilities are named and the source is made a text.
unfoldable pub info_of : PendingScriptApproval → PendingScriptInfo
info_of p = record {
  execution_id = p.request.id;
  call_id = p.request.call_id;
  source = p.request.source;
  requested_capabilities = iter p.request.requested_capabilities;
  capability_additions = p.additions;
  timeout_millis = p.request.timeout;
}

abbrev host_missing : Bytes
host_missing = utf8 "Nushell host is unavailable; rebuild both binaries with `just build`"

-- `host_failure`.
unfoldable pub host_failure : CompletedScriptExecution → RuntimeError
host_failure c = elim c.entry.error [
  | some e ↦ failure internal e
  | none ↦ failure internal host_missing
]

abbrev pub is_host_unavailable : ScriptExecutionStatus → Bool
is_host_unavailable host_unavailable = true
is_host_unavailable _ = false

abbrev pub is_cancelled : ScriptExecutionStatus → Bool
is_cancelled cancelled = true
is_cancelled _ = false

module _ {W : Type 0} ⦃rt : Runtime W⦄ where
  unfoldable pub fail_script_turn : RuntimeError → Act W (Unit {0})
  unfolding finish_turn drain
  fail_script_turn e = do finish_turn; drain; send_event (continuation_failed e.message)

  unfoldable pub finish_prepared_execution :
      Bytes → ScriptExecutionStatus → Option Bytes → Act W (RuntimeResult CompletedScriptExecution)
  finish_prepared_execution id status error =
      attempt
        (call (
          rt.finish_execution id (record {
            status = status;
            exit_code = none;
            sandbox_denied = false;
            error = error;
            stdout = [];
            stderr = [];
          })))
        λ r.
          attempt (call (rt.read_output id))
            λ output. pure (ok (record { entry = r; output = output }))

  -- What follows a script's result.
  unfoldable pub after_script : CompletedScriptExecution → ScriptExecutionStatus → Act W (Unit {0})
  unfolding fail_script_turn finish_turn drain continue_turn
  after_script completed status = do
    turn_active ← ask rt.is_turn_active
    set_state idle
    stopping ← gets (λ a. a.stopping)
    if is_host_unavailable status
        then fail_script_turn (host_failure completed)
        else if is_cancelled status || not turn_active || stopping
        then finish_turn >> drain
        else continue_turn

  unfoldable pub finalize_script_turn : CompletedScriptExecution → Act W (RuntimeResult (Unit {0}))
  unfolding after_script
  finalize_script_turn completed = attempt (pure (outcome_of completed.entry)) λ outcome.
      attempt (call (rt.render_script_result completed)) λ result.
        attempt (call (rt.add_script_result_to_history completed.entry result outcome)) λ _. do
          send_event (script_result_ready completed.entry.id completed.entry.call_id result outcome)
          after_script completed outcome.status
          pure (ok tt)

  unfoldable pub start_prepared_script : EffectiveScriptRequest → Act W (Unit {0})
  start_prepared_script request = do
    run rt.resume_timer
    g ← generation
    emit (spawn_script g request)
    set_state (running_script (record { generation = g; cancel_waiters = [] }))
