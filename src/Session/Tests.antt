-- ===== src/Session/Tests.antt =====
-- A world of the session's actor in which every call succeeds, and what the actor does in it.
use kraai.Base.{ℕ, Bool, true, false, List, [], ◌∷◌, Option, none, some, ◌≡◌, refl, ◌+◌}
use kraai.Base.Utf8.{Bytes}
use kraai.Base.Literals.{utf8}
use kraai.Base.Results.{ok, err}
use kraai.Execution.Capability.{
  SandboxCapability, SandboxCapabilities, empty, network, insert, workspace_read,
}
use kraai.Execution.Policy.{
  EscalationPolicy, prompt, resolve, requested_additions, merge_capabilities, judge_all, conclude,
}
use kraai.Types.Conversation.{ContentPart}
use kraai.Session.Errors.{unavailable, failure}
use kraai.Session.Scripting.{ScriptProfileSnapshot, ScriptTurnContext, ScriptBlock}
use kraai.Session.Runtime.{Runtime, ModelSelection}
use kraai.Session.Messages.{
  SessionMessage, send, cancel, approve, snapshot, delete, stop, prepared, stream_ended,
  script_ended, PendingStreamRequest, kind, activity_of,
}
use kraai.Session.Messages
use kraai.Session.Actor.{
  pure, gets, call, ask, run, emit, set_state, take_state, ◌>>=◌, attempt, when, generation, Actor,
}
use kraai.Session.Turn.{last_selection, continuation_request}
use kraai.Session.Submission.{exceeds_limit, total_byte_length}
use kraai.Session.Scripts.{decide, resolve_request, info_of}
use kraai.Session.Approvals.{take_from}
use kraai.Session.Cancel.{merge, cancel_request, lease_gone}
use kraai.Session.Run.{
  run_actor, spawned, is_preparing, has_child, activity_eq, round, handle, run_deferred,
}
use kraai.Session.Answers.{answered, brought}
use kraai.Session.Answers.Loop.{run_actor-answers}
use kraai.Session.Permission.{AreGranted, approves}
use kraai.Session.Permission.Loop.{run_actor-grants}
use kraai.Session.Stopping.{AreDeletions, IsReport}
use kraai.Session.Stopping.Exit.{round-exits}
use kraai.Session.Spent.{IsSpent, run_deferred-IsSpent}
use kraai.Session.Stale.{IsStale, handle-stale}

abbrev asking : ScriptProfileSnapshot
asking = record {
  id = utf8 "default";
  permissions = empty;
  permission_rules = λ _. none;
  escalation_policy = EscalationPolicy.prompt;
}

abbrev turn : ScriptTurnContext
turn = record { workspace_dir = utf8 "/w"; profile = asking }

-- The world counts the executions.
abbrev calm_world : Runtime ℕ
calm_world = record {
  is_turn_active = λ w. false;
  clear_active_turn = λ w. w;
  discard_streaming_state = λ w. w;
  validate_model_options = λ s w. (ok tt, w);
  complete_message = λ m w. (ok (some m), w);
  abort_streaming_message = λ m w. (ok (some m), w);
  cancel_streaming_message = λ m o w. (ok (some m), w);
  append_text_chunk = λ m i p d w. (none, w);
  append_reasoning = λ m p x w. (none, w);
  append_script_call = λ m c w. (none, w);
  set_streaming_message_usage = λ m u w. (ok none, w);
  reset_streaming_message = λ m w. (ok none, w);
  script_turn_context = λ w. (ok turn, w);
  add_script_result_to_history = λ r x o w. (ok tt, w);
  undo_last_user_message = λ w. (ok none, w);
  delete_session = λ w. (ok tt, w);
  replace_session_mcp_servers = λ c w. (ok false, w);
  shut_down_servers = λ w. w;
  owns_turn = λ w. (ok true, w);
  claim_turn = λ w. (ok tt, w);
  lease_token_matches = λ t w. true;
  has_queued_messages = λ w. (ok false, w);
  enqueue_message = λ m w. (ok 1, w);
  queued_messages = λ w. (ok [], w);
  clear_queued_messages = λ w. (ok true, w);
  release_turn_with_timer = λ t w. (ok true, w);
  recover_session_executions = λ w. (ok tt, w);
  new_execution_id = λ w. (utf8 "e", w + 1);
  prepare_script_execution = λ q w. (ok tt, w);
  create_execution = λ q w. (ok tt, w);
  finish_execution = λ id c w. (err (failure unavailable (utf8 "gone")), w);
  read_output = λ id w. (ok ([], []), w);
  mark_awaiting_approval = λ id w. (ok tt, w);
  render_script_result = λ c w. (ok [], w);
  publish_activity = λ k w. w;
  remove_actor = λ w. w;
  read_image = λ i w. (ok tt, w);
  finished_timer = λ w. (ok [], w);
  finish_timer = λ w. w;
  resume_timer = λ w. w;
  remove_timer = λ w. w;
  wait_session = λ w. w;
  forget_observation = λ w. w;
  remove_script_output = λ w. w;
  create_script_output_dir = λ w. (ok (utf8 "/out"), w);
  skill_read_roots = λ d w. (ok [], w);
  script_runtime_roots = λ w. [];
  script_environment = λ p. ok [];
  cancelled_output = [];
  capture = λ w. (
    ok (record {
      foreign_owner = false;
      is_running = false;
      queued_messages = 0;
      event_sequence = 0;
    }),
    w,
  );
}

abbrev model : ModelSelection
model = record { provider_id = utf8 "p"; model_id = utf8 "m"; options = [] }

-- A message whose preparation a client cancels and then fails, while a deletion waits for it.
abbrev deleted_while_preparing : List SessionMessage
deleted_while_preparing =
    send (ContentPart.text (utf8 "hi") ∷ []) model 1
    ∷ delete 2
    ∷ cancel false none (some 3)
    ∷ prepared 1 (err (failure unavailable (utf8 "down")))
    ∷ snapshot 4
    ∷ []

-- A stream that ends with a script, which its user approves.
abbrev asks_for_network : ScriptBlock
asks_for_network = record {
  input = utf8 "ls";
  source = utf8 "ls";
  timeout = 30;
  requested_capabilities = insert empty network;
}

abbrev approved_script : List SessionMessage
approved_script =
    send (ContentPart.text (utf8 "hi") ∷ []) model 1
    ∷ prepared 1 (ok (some (record { message_id = utf8 "m1"; context_notifications = [] })))
    ∷ stream_ended 2 (
        Messages.completed (record {
          call_id = some (utf8 "c");
          script = some asks_for_network;
          invalid_script = none;
          protocol_error = none;
          rewrites = [];
          reached_output_limit = false;
        }))
    ∷ approve (utf8 "e") 2
    ∷ []

deletion_exits :
    (run_actor ⦃rt = calm_world⦄ deleted_while_preparing (spawned (utf8 "s") 0)).0 ≡ true
unfolding run_actor ◌>>=◌ pure gets call ask run emit set_state take_state attempt when generation
    kind activity_of last_selection continuation_request exceeds_limit total_byte_length
    cancel_request merge lease_gone spawned is_preparing has_child activity_eq
    kraai.Session.Deletion.defer
deletion_exits = refl

run_actor-answers_example :
    answered 3 (run_actor ⦃rt = calm_world⦄ deleted_while_preparing (spawned (utf8 "s") 0)).1.log
    ≡ brought 3 deleted_while_preparing
run_actor-answers_example =
    run_actor-answers ⦃rt = calm_world⦄ 3 (utf8 "s") 0 deleted_while_preparing deletion_exits

-- The script is in the log, started by the approval.
abbrev starts : List Messages.Effect → ℕ
starts [] = 0
starts (Messages.spawn_script g q ∷ log) = 1 + starts log
starts (_ ∷ log) = starts log

approval_starts_it :
    starts (run_actor ⦃rt = calm_world⦄ approved_script (spawned (utf8 "s") 0)).1.log ≡ 1
unfolding run_actor ◌>>=◌ pure gets call ask run emit set_state take_state attempt when generation
    kind activity_of last_selection continuation_request exceeds_limit total_byte_length
    cancel_request merge lease_gone spawned is_preparing has_child activity_eq decide
    resolve_request info_of take_from resolve requested_additions merge_capabilities judge_all
    conclude kraai.Execution.Capability.is_unsandboxed insert kraai.Execution.Capability.iter
    kraai.Execution.Policy.rule_for kraai.Base.Utf8.bytes_eq utf8
approval_starts_it = refl

run_actor-grants_example :
    AreGranted
      (approves approved_script)
      (run_actor ⦃rt = calm_world⦄ approved_script (spawned (utf8 "s") 0)).1.log
run_actor-grants_example = run_actor-grants ⦃rt = calm_world⦄ (utf8 "s") 0 approved_script

-- An actor that is to stop, while a continuation is prepared that took queued messages along and
-- would otherwise be tried again.
abbrev stopping_actor : Actor ℕ
stopping_actor = record {
  session_id = utf8 "s";
  world = 0;
  state = Messages.preparing (record {
    generation = 3;
    kind = Messages.continuation;
    origin = Messages.continue;
    intercepted = true;
    retried = false;
    cancel = none;
  });
  next_generation = 3;
  deferred = delete 7 ∷ [];
  stopping = true;
  stopped = 8 ∷ [];
  published = (Messages.SessionActivity.idle, true);
  log = [];
}

round-exits_example :
    (round ⦃rt = calm_world⦄
      (prepared 3 (err (failure unavailable (utf8 "down"))))
      stopping_actor).0
    ≡ true
unfolding AreDeletions IsReport
round-exits_example =
    round-exits ⦃rt = calm_world⦄ (prepared 3 (err (failure unavailable (utf8 "down"))))
      stopping_actor refl tt refl

handle-stale_example :
    handle ⦃rt = calm_world⦄ (prepared 2 (err (failure unavailable (utf8 "down")))) stopping_actor
    ≡ (false, stopping_actor)
unfolding IsStale
handle-stale_example =
    handle-stale ⦃rt = calm_world⦄ (prepared 2 (err (failure unavailable (utf8 "down"))))
      stopping_actor refl

abbrev waiting_actor : Actor ℕ
waiting_actor = record stopping_actor { state = Messages.idle; stopping = false }

run_deferred-IsSpent_example : IsSpent (run_deferred ⦃rt = calm_world⦄ 2 false waiting_actor)
unfolding AreDeletions
run_deferred-IsSpent_example = run_deferred-IsSpent ⦃rt = calm_world⦄ false waiting_actor tt
