-- ===== src/Session/Stream.antt =====
-- crates/kraai-runtime/src/runtime/session/stream.rs: what a provider's stream reports, and its end.
use kraai.Base.{
  ℕ, Bool, true, false, not, ◌&&◌, [], ◌∷◌, ◌++◌, Option, none, some, if◌then◌else◌, ◌==◌, is_empty,
}
use kraai.Base.Utf8.{Bytes}
use kraai.Base.Literals.{utf8}
use kraai.Base.Results.{ok, err}
use kraai.Session.Errors.{RuntimeError, RuntimeResult, internal, failure}
use kraai.Session.Runtime.{Runtime, StreamedItem, started, delta}
use kraai.Session.Messages.{
  TurnState, idle, streaming, StreamJob, StreamKind, initial, continuation, StreamEvent, text,
  reasoning, reasoning_delta, script_call, usage, restart, item_started, item_delta,
  request_usage_updated, stream_restarted, stream_complete, stream_error, continuation_failed,
  context_state_changed, StreamDriveResult, completed, failed_to_start, failed_during_stream,
  stopped, Event,
}
use kraai.Session.Actor.{
  Act, pure, gets, call, set_state, take_state, ◌>>=◌, ◌>>◌, attempt, when, send_event, cancel_job,
}
use kraai.Session.Lease.{finish_turn, send_session_error}
use kraai.Session.Turn.{drain}
use kraai.Types.Cost.{RequestUsage}
use kraai.Session.Scripting.{CompletedStreamOutput}
use kraai.Session.Blocks.{process_completed_stream_output}

-- `recovery_target` and `moment` of the messages.
unfoldable pub recovery_target : StreamKind → Bytes
recovery_target continuation = utf8 "continuation stream"
recovery_target initial = utf8 "stream"

unfoldable pub moment : Bool → Bytes
moment before_start = if before_start then utf8 "start failure" else utf8 "runtime error"

abbrev is_continuation : StreamKind → Bool
is_continuation continuation = true
is_continuation initial = false

unfoldable pub unrecovered : StreamKind → Bytes → Bool → RuntimeError
unrecovered k message_id before_start = failure internal (
    utf8 "Failed to recover "
    ++ recovery_target k
    ++ utf8 " "
    ++ message_id
    ++ utf8 " after "
    ++ moment before_start)

unfoldable pub not_rolled_back : StreamKind → Bytes → Bool → Bytes → RuntimeError
not_rolled_back k message_id before_start e = failure internal (
    utf8 "Failed to roll back "
    ++ recovery_target k
    ++ utf8 " "
    ++ message_id
    ++ utf8 " after "
    ++ moment before_start
    ++ utf8 ": "
    ++ e)

-- The event that reports a failure.
unfoldable pub failure_event : Bool → Bytes → Bytes → Event
failure_event as_continuation message_id e =
    if as_continuation then continuation_failed e else stream_error message_id e

module _ {W : Type 0} where
  unfoldable pub send_streamed_item : Bytes → Option StreamedItem → Act W (Unit {0})
  send_streamed_item message_id none = pure tt
  send_streamed_item message_id (some (started i x)) = send_event (item_started message_id i x)
  send_streamed_item message_id (some (delta i d)) =
      if not (is_empty d) then send_event (item_delta message_id i d) else pure tt

  unfoldable pub send_usage : Option RequestUsage → Act W (Unit {0})
  send_usage none = pure tt
  send_usage (some u) = send_event (request_usage_updated u)

module _ {W : Type 0} ⦃rt : Runtime W⦄ where
  -- `apply_stream_event`: the failure that ends the stream, if there is one.
  unfoldable pub apply_stream_event : Bytes → StreamEvent → Act W (Option Bytes)
  unfolding send_streamed_item send_usage
  apply_stream_event m (text item_id phase d) =
      call (rt.append_text_chunk m item_id phase d) >>= λ streamed.
      send_streamed_item m streamed >> pure none
  apply_stream_event m (reasoning provider_id payload) =
      call (rt.append_reasoning m provider_id payload) >>= λ streamed.
      send_streamed_item m streamed >> pure none
  apply_stream_event m (reasoning_delta item_id d) =
      send_event (Event.reasoning_delta m item_id d) >> pure none
  apply_stream_event m (script_call c) =
      call (rt.append_script_call m c) >>= λ streamed. send_streamed_item m streamed >> pure none
  apply_stream_event m (usage u) = call (rt.set_streaming_message_usage m u) >>= λ r. elim r [
    | ok request ↦ send_usage request >> pure none
    | err e ↦ pure (some e.message)
  ]
  apply_stream_event m (restart reason) = call (rt.reset_streaming_message m) >>= λ r. elim r [
    | ok reset ↦ do
      elim reset [ some request ↦ send_usage request | none ↦ pure tt ]
      send_event (stream_restarted m reason)
      pure none
    | err e ↦ pure (some (reason ++ utf8 "; discarding the partial response failed: " ++ e.message))
  ]

  -- `abort_stream_for_recovery`, by what the agent answers to the abort.
  unfoldable pub aborted : Bytes → RuntimeResult (Option Bytes) → Act W (RuntimeResult Bool)
  unfolding finish_turn
  aborted m (ok (some _)) = finish_turn >> pure (ok true)
  aborted m (ok none) = pure (ok false)
  aborted m (err e) =
      attempt (call rt.owns_turn)
        λ owned. if not owned then finish_turn >> pure (ok true) else pure (err e)

  unfoldable pub abort_stream_for_recovery : Bytes → Act W (RuntimeResult Bool)
  unfolding aborted
  abort_stream_for_recovery m = call (rt.abort_streaming_message m) >>= aborted m

  -- The `match` of `stream_failed`, and the method.
  unfoldable pub recovered : StreamKind → Bytes → Bool → RuntimeResult Bool → Act W (Unit {0})
  unfolding drain
  recovered k m before_start (ok b) =
      if b then drain else send_session_error (unrecovered k m before_start)
  recovered k m before_start (err x) =
      send_session_error (not_rolled_back k m before_start x.message)

  unfoldable pub stream_failed : StreamKind → Bytes → Bytes → Bool → Act W (Unit {0})
  unfolding abort_stream_for_recovery recovered
  stream_failed k m e before_start = do
    r ← abort_stream_for_recovery m
    recovered k m before_start r
    send_event (failure_event (before_start && is_continuation k) m e)

  -- The `match` of `completion_persistence_failed`, and the method.
  unfoldable pub unsaved : Bytes → RuntimeResult (Option Bytes) → Act W (Unit {0})
  unfolding finish_turn drain
  unsaved m (ok (some _)) = finish_turn >> drain
  unsaved m (ok none) = send_session_error (
      failure internal
        (utf8 "Failed to recover stream state for message " ++ m ++ utf8 " after completion error"))
  unsaved m (err x) = do
    (call rt.owns_turn >>= λ owned. elim owned [
      | ok o ↦ if o then pure tt else finish_turn
      | err _ ↦ pure tt
    ])
    send_session_error (
        failure internal (
          utf8 "Failed to roll back stream " ++ m ++ utf8 " after completion error: " ++ x.message))

  unfoldable pub completion_persistence_failed :
      StreamKind → Bytes → RuntimeError → Act W (Unit {0})
  unfolding unsaved
  completion_persistence_failed k m e = do
    (call (rt.abort_streaming_message m) >>= unsaved m)
    send_event (failure_event (is_continuation k) m e.message)

  -- The `match` of `stream_completed`, and the method.
  unfoldable pub completed_as :
      StreamKind → Bytes → CompletedStreamOutput → RuntimeResult (Option Bytes) → Act W (Unit {0})
  unfolding completion_persistence_failed process_completed_stream_output
  completed_as k m c (ok (some _)) = do
    send_event (stream_complete m)
    when c.reached_output_limit (
        send_event (
          context_state_changed
            (utf8 "The response stopped at the model's output token limit." ∷ [])))
    process_completed_stream_output m c.call_id c.script c.invalid_script c.protocol_error
        c.rewrites
  completed_as k m c (ok none) = pure tt
  completed_as k m c (err e) = completion_persistence_failed k m e

  unfoldable pub stream_completed : StreamKind → Bytes → CompletedStreamOutput → Act W (Unit {0})
  unfolding completed_as
  stream_completed k m c = call (rt.complete_message m) >>= completed_as k m c

  -- The `match result` of `stream_ended`.
  unfoldable pub stream_ended_with : StreamKind → Bytes → StreamDriveResult → Act W (Unit {0})
  unfolding stream_completed stream_failed
  stream_ended_with k m (completed c) = stream_completed k m c
  stream_ended_with k m (failed_to_start e) = stream_failed k m e true
  stream_ended_with k m (failed_during_stream e) = stream_failed k m e false
  stream_ended_with k m stopped =
      stream_failed k m (utf8 "Provider stream stopped unexpectedly") false

  -- `stream_ended`, by the state of the turn.
  unfoldable pub stream_ended_in : ℕ → StreamDriveResult → TurnState → Act W (Unit {0})
  unfolding stream_ended_with
  stream_ended_in g result (streaming j) =
      if j.generation == g
      then (gets (λ a. a.stopping) >>= λ stopping.
          if stopping then pure tt else stream_ended_with j.kind j.message_id result)
      else set_state (streaming j)
  stream_ended_in g result state = set_state state

  unfoldable pub stream_ended : ℕ → StreamDriveResult → Act W (Unit {0})
  unfolding stream_ended_in
  stream_ended g result = take_state >>= stream_ended_in g result

  -- An event of the stream `j`, which a failure ends.
  unfoldable pub stream_event_of : StreamJob → StreamEvent → Act W (Unit {0})
  unfolding apply_stream_event stream_failed
  stream_event_of j e = apply_stream_event j.message_id e >>= λ failed. elim failed [
    | none ↦ pure tt
    | some x ↦ do set_state idle; cancel_job j.generation; stream_failed j.kind j.message_id x false
  ]

  unfoldable pub stream_event_in : ℕ → StreamEvent → TurnState → Act W (Unit {0})
  unfolding stream_event_of
  stream_event_in g e (streaming j) = if j.generation == g then stream_event_of j e else pure tt
  stream_event_in g e _ = pure tt

  unfoldable pub stream_event : ℕ → StreamEvent → Act W (Unit {0})
  unfolding stream_event_in
  stream_event g e = gets (λ a. a.state) >>= stream_event_in g e
