-- ===== src/Session/Blocks.antt =====
-- crates/kraai-runtime/src/runtime/session/scripts.rs: what becomes of the script that a stream ends
-- with.
use kraai.Base.{List, [], ◌∷◌, ◌++◌, Option, none, some}
use kraai.Base.Utf8.{Bytes}
use kraai.Base.Literals.{utf8}
use kraai.Base.Results.{ok, err}
use kraai.Session.Errors.{RuntimeError, RuntimeResult, internal, failure}
use kraai.Session.Runtime.{Runtime}
use kraai.Execution.Capability.{SandboxCapability, empty, as_str}
use kraai.Types.Conversation.{denied, invalid_script}
use kraai.Session.Scripting.{
  ScriptBlock, InvalidScriptBlock, EffectiveScriptRequest, PendingScriptApproval,
}
use kraai.Session.Messages.{
  awaiting_approval, script_prepared, script_approval_requested, turn_completed,
}
use kraai.Session.Actor.{Act, pure, call, ask, set_state, ◌>>=◌, ◌>>◌, attempt, send_event}
use kraai.Session.Lease.{finish_turn}
use kraai.Session.Turn.{drain}
use kraai.Session.Scripts.{
  ScriptDecision, allow, deny, prompt, decide, resolve_request, info_of, fail_script_turn,
  finish_prepared_execution, finalize_script_turn, start_prepared_script,
}

-- `capability_names(..).join(", ")`.
unfoldable pub join_names : List SandboxCapability → Bytes
join_names [] = []
join_names (c ∷ []) = utf8 (as_str c)
join_names (c ∷ d ∷ rest) = utf8 (as_str c) ++ utf8 ", " ++ join_names (d ∷ rest)

-- What the decision stands on: the context of the turn, and the effective capabilities and additions.
pub record Prepared : Type 0 where
  pub request : EffectiveScriptRequest
  pub additions : List SandboxCapability
  pub decision : ScriptDecision

-- `unwrap_or` of a protocol error's block.
abbrev block_of : Option InvalidScriptBlock → InvalidScriptBlock
block_of (some b) = b
block_of none = record { input = []; source = []; timeout = none; requested_capabilities = empty }

abbrev pub no_call_id : RuntimeError
no_call_id = failure internal (utf8 "completed script response did not contain a call id")

module _ {W : Type 0} ⦃rt : Runtime W⦄ where
  -- The roots a script may use: the configured ones, those of the skills and its output's.
  unfoldable pub gather_roots : Bytes → Act W (RuntimeResult (List Bytes))
  gather_roots workspace = attempt (call (rt.skill_read_roots workspace)) λ skills.
      ask rt.script_runtime_roots >>= λ configured.
      attempt (call rt.create_script_output_dir)
        λ output. pure (ok (configured ++ skills ++ output ∷ []))

  -- The execution that the script of the model asks for.
  unfoldable pub build_request :
      Bytes → Bytes → ScriptBlock → List Bytes → Act W (RuntimeResult Prepared)
  unfolding gather_roots
  build_request source_message_id call_id script rewrites =
      attempt (call rt.script_turn_context) λ turn.
        attempt (gather_roots turn.workspace_dir) λ roots.
          let resolution = resolve_request turn.profile script.requested_capabilities in
          let decided = decide turn.profile.permissions resolution in
          call rt.new_execution_id >>= λ id.
          attempt (pure (rt.script_environment turn.profile)) λ environment. pure (
            ok (record {
              request = record {
                id = id;
                source_message_id = source_message_id;
                call_id = call_id;
                profile = turn.profile;
                source = script.source;
                rewrites = rewrites;
                workspace_root = turn.workspace_dir;
                requested_capabilities = script.requested_capabilities;
                effective_capabilities = decided.0;
                timeout = script.timeout;
                environment = environment;
                runtime_roots = roots;
              };
              additions = decided.1;
              decision = decided.2;
            }))

  -- The `match decision` of `prepare_or_execute_script`.
  unfoldable pub carry_by : ScriptDecision → Prepared → Act W (RuntimeResult (Unit {0}))
  unfolding finish_prepared_execution finalize_script_turn start_prepared_script
  carry_by deny p =
      attempt
        (finish_prepared_execution p.request.id denied
          (some (utf8 "Profile policy denied capabilities: " ++ join_names p.additions)))
        finalize_script_turn
  carry_by prompt p = attempt (call (rt.mark_awaiting_approval p.request.id)) λ _. do
    let pending : PendingScriptApproval = record { request = p.request; additions = p.additions }
    set_state (awaiting_approval pending)
    send_event (script_approval_requested (info_of pending))
    pure (ok tt)
  carry_by allow p = start_prepared_script p.request >> pure (ok tt)

  unfoldable pub prepare_or_execute_script :
      Bytes → Bytes → ScriptBlock → List Bytes → Act W (RuntimeResult (Unit {0}))
  unfolding build_request carry_by
  prepare_or_execute_script source_message_id call_id script rewrites =
      attempt (build_request source_message_id call_id script rewrites) λ p.
        attempt (call (rt.prepare_script_execution p.request)) λ _. do
          send_event (script_prepared p.request.id call_id script.input)
          carry_by p.decision p

  unfoldable pub finish_invalid_script :
      Bytes → Bytes → InvalidScriptBlock → Bytes → Act W (RuntimeResult (Unit {0}))
  unfolding finish_prepared_execution finalize_script_turn
  finish_invalid_script source_message_id call_id invalid error =
      attempt (call rt.script_turn_context) λ turn. call rt.new_execution_id >>= λ id.
      attempt
        (call (
          rt.create_execution (record {
            id = id;
            source_message_id = source_message_id;
            call_id = call_id;
            profile = turn.profile;
            source = invalid.source;
            rewrites = [];
            requested_capabilities = invalid.requested_capabilities;
            effective_capabilities = turn.profile.permissions;
            timeout = invalid.timeout;
          })))
        λ _. do
          send_event (script_prepared id call_id invalid.input)
          attempt (finish_prepared_execution id invalid_script (some error)) finalize_script_turn

  -- The `match (protocol_error, script)`.
  unfoldable pub process_call :
      Bytes
      → Bytes
      → Option ScriptBlock
      → Option InvalidScriptBlock
      → Option Bytes
      → List Bytes
      → Act W (RuntimeResult (Unit {0}))
  unfolding finish_invalid_script prepare_or_execute_script
  process_call message_id call_id script invalid (some error) rewrites =
      finish_invalid_script message_id call_id (block_of invalid) error
  process_call message_id call_id (some script) invalid none rewrites =
      prepare_or_execute_script message_id call_id script rewrites
  process_call message_id call_id none invalid none rewrites = pure (ok tt)

  unfoldable pub complete_turn : Act W (Unit {0})
  unfolding finish_turn drain
  complete_turn = do finish_turn; send_event turn_completed; drain

  unfoldable pub process_completed_stream_output :
      Bytes
      → Option Bytes
      → Option ScriptBlock
      → Option InvalidScriptBlock
      → Option Bytes
      → List Bytes
      → Act W (Unit {0})
  unfolding process_call complete_turn fail_script_turn
  process_completed_stream_output message_id none none invalid none rewrites = complete_turn
  process_completed_stream_output message_id none script invalid error rewrites =
      fail_script_turn no_call_id
  process_completed_stream_output message_id (some call_id) script invalid error rewrites =
      process_call message_id call_id script invalid error rewrites >>= λ r. elim r [
        | ok _ ↦ pure tt
        | err e ↦ fail_script_turn e
      ]
