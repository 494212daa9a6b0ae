-- ===== src/Session/Turn.antt =====
-- crates/kraai-runtime/src/runtime/session/turn.rs: how a turn begins, by a preparation in a child
-- task, and how a turn goes on.
use kraai.Base.{Bool, false, not, ◌||◌, List, [], ◌∷◌, Option, none, some, if◌then◌else◌, is_empty}
use kraai.Base.Results.{ok, err}
use kraai.Session.Runtime.{Runtime, ModelSelection, QueuedEntry}
use kraai.Session.Messages.{
  preparing, StreamKind, initial, continuation, PreparationOrigin, continue, queue, PrepareRequest,
  spawn_preparation,
}
use kraai.Session.Actor.{
  Act, pure, gets, call, emit, set_state, ◌>>=◌, ◌>>◌, attempt, is_idle, generation,
}
use kraai.Session.Lease.{send_session_report_error, ensure_lease}

-- The selection of the last entry, `queued.last()`.
unfoldable pub last_selection : List QueuedEntry → Option ModelSelection
last_selection [] = none
last_selection (e ∷ []) = some e.message.selection
last_selection (e ∷ f ∷ rest) = last_selection (f ∷ rest)

-- The request for a continuation takes along the messages that are queued.
unfoldable pub continuation_request : List QueuedEntry → Option ModelSelection → PrepareRequest
continuation_request entries (some selection) = PrepareRequest.queue entries selection
continuation_request entries none = PrepareRequest.continuation

module _ {W : Type 0} where
  unfoldable pub begin_preparation :
      StreamKind → PreparationOrigin → PrepareRequest → Bool → Bool → Act W (Unit {0})
  begin_preparation k o request intercepted retried = do
    g ← generation
    emit (spawn_preparation g request)
    set_state (
        preparing (record {
          generation = g;
          kind = k;
          origin = o;
          intercepted = intercepted;
          retried = retried;
          cancel = none;
        }))

  -- `drain`, for the messages that are queued.
  unfoldable pub begin_queued : List QueuedEntry → Option ModelSelection → Act W (Unit {0})
  unfolding begin_preparation
  begin_queued entries none = pure tt
  begin_queued entries (some selection) =
      begin_preparation initial queue (PrepareRequest.queue entries selection) false false

module _ {W : Type 0} ⦃rt : Runtime W⦄ where
  unfoldable pub start_continuation : Bool → Act W (Unit {0})
  unfolding begin_preparation ensure_lease continuation_request
  start_continuation retried =
      attempt (call rt.queued_messages)
        (λ queued. ensure_lease >>= λ r. elim r [ ok _ ↦ pure (ok queued) | err e ↦ pure (err e) ])
      >>= λ r. elim r [
        | err e ↦ pure tt
        | ok queued ↦
            begin_preparation continuation continue
              (continuation_request queued (last_selection queued)) (not (is_empty queued)) retried
      ]

  unfoldable pub continue_turn : Act W (Unit {0})
  unfolding start_continuation
  continue_turn = do
    stopping ← gets (λ a. a.stopping)
    if stopping then pure tt else start_continuation false

  -- Whether `drain` may not start anything.
  unfoldable pub occupied : Act W Bool
  occupied = do
    a ← gets (λ a. a)
    pure (a.stopping || not (is_idle a.state) || rt.is_turn_active a.world)

  -- Starts queued messages when the session has nothing else to do.
  unfoldable pub drain : Act W (Unit {0})
  unfolding begin_queued
  drain = do
    refused ← occupied
    if refused
        then pure tt
        else call rt.queued_messages >>= λ r. elim r [
          | err e ↦ send_session_report_error e
          | ok queued ↦ begin_queued queued (last_selection queued)
        ]
