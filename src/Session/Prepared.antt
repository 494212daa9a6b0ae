-- ===== src/Session/Prepared.antt =====
-- crates/kraai-runtime/src/runtime/session/turn.rs: a preparation has ended, and the stream begins.
use kraai.Base.{ℕ, Bool, true, not, ◌&&◌, [], Option, none, some, if◌then◌else◌, ◌==◌, is_empty}
use kraai.Base.Utf8.{Bytes}
use kraai.Base.Literals.{utf8}
use kraai.Base.Results.{ok, err}
use kraai.Session.Errors.{RuntimeError, RuntimeResult, unavailable, internal, failure}
use kraai.Session.Runtime.{Runtime}
use kraai.Session.Messages.{
  TurnState, preparing, streaming, CancelRequest, Preparation, StreamKind, PreparationOrigin,
  PendingStreamRequest, send, continue, queue, started, submitted, spawn_stream, stream_start,
  context_state_changed, continuation_failed,
}
use kraai.Session.Actor.{
  Act, pure, gets, emit, set_state, take_state, ◌>>=◌, ◌>>◌, when, reply, send_event, generation,
}
use kraai.Session.Lease.{finish_turn, send_session_report_error}
use kraai.Session.Turn.{drain, start_continuation}
use kraai.Session.Approvals.{answer_all}
use kraai.Session.Cancel.{cancel_stream_job}

module _ {W : Type 0} where
  -- `start_stream` of session/stream.rs.
  unfoldable pub start_stream : StreamKind → PendingStreamRequest → Act W (Unit {0})
  start_stream k request = do
    g ← generation
    send_event (stream_start request.message_id)
    when (not (is_empty request.context_notifications))
        (send_event (context_state_changed request.context_notifications))
    emit (spawn_stream g (record request { context_notifications = [] }))
    set_state (streaming (record { generation = g; kind = k; message_id = request.message_id }))

  -- `PreparationOrigin::started`, `nothing_started` and `fail`.
  unfoldable pub started_from : PreparationOrigin → Bytes → Act W (Unit {0})
  started_from (send r) message_id = reply r (submitted (ok (started message_id)))
  started_from continue message_id = pure tt
  started_from queue message_id = pure tt

  unfoldable pub fail_from : PreparationOrigin → RuntimeError → Act W (Unit {0})
  fail_from (send r) e = reply r (submitted (err e))
  fail_from continue e = pure tt
  fail_from queue e = pure tt

  unfoldable pub nothing_started : PreparationOrigin → Act W (Unit {0})
  unfolding fail_from
  nothing_started o = fail_from o (failure internal (utf8 "Failed to prepare a new message stream"))

  -- `cancel.answer` of a cancellation there may be.
  unfoldable pub answer_cancel : Option CancelRequest → (CancelRequest → Bool) → Act W (Unit {0})
  unfolding answer_all
  answer_cancel none f = pure tt
  answer_cancel (some c) f = answer_all c.waiters (ok (f c))

module _ {W : Type 0} ⦃rt : Runtime W⦄ where
  -- A cancellation that came while the preparation ran applies to the stream it has started.
  unfoldable pub cancel_in : CancelRequest → TurnState → Act W (Unit {0})
  unfolding cancel_stream_job
  cancel_in c (streaming job) = cancel_stream_job job c
  cancel_in c _ = pure tt

  unfoldable pub cancel_started : Option CancelRequest → Act W (Unit {0})
  unfolding cancel_in
  cancel_started none = pure tt
  cancel_started (some c) = take_state >>= cancel_in c

  unfoldable pub begin_stream :
      StreamKind
      → PreparationOrigin
      → Option CancelRequest
      → PendingStreamRequest
      → Act W (Unit {0})
  unfolding start_stream started_from cancel_started
  begin_stream k o c request = do
    start_stream k request
    started_from o request.message_id
    cancel_started c

  -- A session that the preparation was to serve, with nothing to say to the model.
  unfoldable pub finish_unless_queued : PreparationOrigin → Act W (Unit {0})
  unfolding finish_turn
  finish_unless_queued queue = pure tt
  finish_unless_queued continue = finish_turn
  finish_unless_queued (send r) = finish_turn

  unfoldable pub nothing_prepared : PreparationOrigin → Option CancelRequest → Act W (Unit {0})
  unfolding finish_unless_queued nothing_started answer_cancel
  nothing_prepared o cancel = do
    finish_unless_queued o
    nothing_started o
    answer_cancel cancel (λ c. c.discarded)

  -- A continuation has failed; one that took queued messages along is tried again once.
  unfoldable pub continuation_unprepared : Bool → Bool → RuntimeError → Act W (Unit {0})
  unfolding start_continuation finish_turn drain
  continuation_unprepared intercepted retried e = do
    stopping ← gets (λ a. a.stopping)
    if intercepted && not retried && not stopping then start_continuation true else do
      finish_turn
      if intercepted then pure tt else drain
      send_event (continuation_failed e.message)

  -- A preparation has failed, by who waits for it.
  unfoldable pub not_prepared : PreparationOrigin → Bool → Bool → RuntimeError → Act W (Unit {0})
  unfolding finish_turn continuation_unprepared
  not_prepared continue intercepted retried e = continuation_unprepared intercepted retried e
  not_prepared (send r) intercepted retried e = finish_turn >> reply r (submitted (err e))
  not_prepared queue intercepted retried e = finish_turn >> send_session_report_error e

  unfoldable pub preparation_failed :
      Option CancelRequest → PreparationOrigin → Bool → Bool → RuntimeError → Act W (Unit {0})
  unfolding finish_turn fail_from answer_all not_prepared
  preparation_failed (some c) o intercepted retried e = do
    finish_turn
    fail_from o e
    answer_all c.waiters (ok true)
  preparation_failed none o intercepted retried e = not_prepared o intercepted retried e

  -- The `match outcome`.
  unfoldable pub prepared_with :
      Preparation → RuntimeResult (Option PendingStreamRequest) → Act W (Unit {0})
  unfolding begin_stream nothing_prepared preparation_failed fail_from answer_cancel
  prepared_with p (ok (some request)) = do
    stopping ← gets (λ a. a.stopping)
    if not stopping then begin_stream p.kind p.origin p.cancel request else do
      fail_from p.origin (failure unavailable (utf8 "Runtime is stopping"))
      answer_cancel p.cancel (λ _. true)
  prepared_with p (ok none) = nothing_prepared p.origin p.cancel
  prepared_with p (err e) = preparation_failed p.cancel p.origin p.intercepted p.retried e

  -- `prepared`, by the state of the turn.
  unfoldable pub prepared_in :
      ℕ → RuntimeResult (Option PendingStreamRequest) → TurnState → Act W (Unit {0})
  unfolding prepared_with
  prepared_in g outcome (preparing p) =
      if p.generation == g then prepared_with p outcome else set_state (preparing p)
  prepared_in g outcome state = set_state state

  unfoldable pub preparation_ended :
      ℕ → RuntimeResult (Option PendingStreamRequest) → Act W (Unit {0})
  unfolding prepared_in
  preparation_ended g outcome = take_state >>= prepared_in g outcome
