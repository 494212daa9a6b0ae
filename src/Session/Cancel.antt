-- ===== src/Session/Cancel.antt =====
-- crates/kraai-runtime/src/runtime/session/cancel.rs: the end of a turn, and of a session, at a
-- client's request.
use kraai.Base.{Bool, true, false, not, ◌||◌, [], Option, none, some, if◌then◌else◌}
use kraai.Base.Utf8.{Bytes}
use kraai.Base.Literals.{utf8}
use kraai.Base.Integers.{ℤ}
use kraai.Base.Results.{ok, err}
use kraai.Session.Errors.{RuntimeError, RuntimeResult}
use kraai.Session.Runtime.{Runtime}
use kraai.Session.Messages.{
  Responder, TurnState, idle, preparing, streaming, awaiting_approval, running_script,
  CancelRequest, StreamJob, Reply, stream_cancelled,
}
use kraai.Session.Actor.{
  Act, pure, call, ask, run, set_state, take_state, ◌>>=◌, ◌>>◌, attempt, reply, send_event,
  cancel_job,
}
use kraai.Session.Lease.{finish_turn, send_session_error}
use kraai.Session.Turn.{drain}
use kraai.Types.Conversation.{cancelled}
use kraai.Session.Approvals.{end_pending_script, cancel_running_script, answer_all, extend}

-- `CancelRequest::new`.
unfoldable pub cancel_request : Bool → Option Responder → CancelRequest
cancel_request discarded response = record { discarded = discarded; waiters = extend [] response }

-- `CancelRequest::merge`, or a new one where there is none.
unfoldable pub merge : Bool → Option Responder → Option CancelRequest → Option CancelRequest
unfolding cancel_request
merge discarded response none = some (cancel_request discarded response)
merge discarded response (some c) =
    some (record { discarded = c.discarded || discarded; waiters = extend c.waiters response })

module _ {W : Type 0} where
  -- `answer` of a response that may be missing.
  unfoldable pub answer_option : Option Responder → RuntimeResult Bool → Act W (Unit {0})
  answer_option none x = pure tt
  answer_option (some r) x = reply r (Reply.cancelled x)

module _ {W : Type 0} ⦃rt : Runtime W⦄ where
  unfoldable pub discard_queue : Bool → Act W (RuntimeResult Bool)
  discard_queue discard =
      if not discard
      then pure (ok false)
      else attempt (call rt.owns_turn)
          λ owned. if owned then call rt.clear_queued_messages else pure (ok false)

  -- The cancellation could not be saved.
  unfoldable pub cancel_unsaved : StreamJob → CancelRequest → RuntimeError → Act W (Unit {0})
  unfolding finish_turn answer_all
  cancel_unsaved job c e = call rt.owns_turn >>= λ owned. elim owned [
    | ok o ↦ if o then set_state (streaming job) >> answer_all c.waiters (err e) else do
      cancel_job job.generation
      run rt.wait_session
      finish_turn
      send_session_error e
      answer_all c.waiters (ok true)
    | err _ ↦ set_state (streaming job) >> answer_all c.waiters (err e)
  ]

  -- The cancellation is saved, of the message that was streaming if there was one.
  unfoldable pub cancel_saved : StreamJob → CancelRequest → Option Bytes → Act W (Unit {0})
  unfolding finish_turn answer_all drain
  cancel_saved job c none = do
    cancel_job job.generation
    finish_turn
    answer_all c.waiters (ok c.discarded)
  cancel_saved job c (some message_id) = do
    cancel_job job.generation
    run rt.wait_session
    finish_turn
    send_event (stream_cancelled message_id)
    drain
    answer_all c.waiters (ok true)

  unfoldable pub cancel_stream_job : StreamJob → CancelRequest → Act W (Unit {0})
  unfolding cancel_unsaved cancel_saved
  cancel_stream_job job c =
      call (rt.cancel_streaming_message job.message_id rt.cancelled_output) >>= λ r. elim r [
        | err e ↦ cancel_unsaved job c e
        | ok saved ↦ cancel_saved job c saved
      ]

  -- `cancel` of a session that has nothing to do.
  unfoldable pub cancel_idle : Bool → Option Responder → Act W (Unit {0})
  unfolding finish_turn drain answer_option
  cancel_idle discarded response = do
    active ← ask rt.is_turn_active
    if active || discarded then finish_turn >> drain else pure tt
    answer_option response (ok (active || discarded))

  -- `cancel`, by the state of the turn.
  unfoldable pub cancel_turn : Bool → Option Responder → TurnState → Act W (Unit {0})
  unfolding end_pending_script cancel_running_script cancel_stream_job cancel_idle answer_option
      merge cancel_request
  cancel_turn discarded response (awaiting_approval p) =
      end_pending_script p cancelled (utf8 "Script cancelled before approval") >>= λ r. elim r [
        | ok _ ↦ answer_option response (ok true)
        | err e ↦ answer_option response (err e)
      ]
  cancel_turn discarded response (running_script j) =
      set_state (running_script j) >> cancel_running_script response
  cancel_turn discarded response (preparing p) =
      set_state (preparing (record p { cancel = merge discarded response p.cancel }))
  cancel_turn discarded response (streaming j) =
      cancel_stream_job j (cancel_request discarded response)
  cancel_turn discarded response idle = cancel_idle discarded response

  -- Whether a lease that the request expects has gone.
  unfoldable pub lease_gone : Option ℤ → W → Bool
  lease_gone none w = false
  lease_gone (some expected) w = not (rt.lease_token_matches expected w)

  -- `cancel`.
  unfoldable pub cancel_session : Bool → Option ℤ → Option Responder → Act W (Unit {0})
  unfolding lease_gone discard_queue cancel_turn answer_option
  cancel_session discard expected response = do
    gone ← ask (lease_gone expected)
    if gone
        then answer_option response (ok false)
        else discard_queue discard >>= λ r. elim r [
          | err e ↦ answer_option response (err e)
          | ok discarded ↦ take_state >>= cancel_turn discarded response
        ]
