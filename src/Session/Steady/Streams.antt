-- ===== src/Session/Steady/Streams.antt =====
-- crates/kraai-runtime/src/runtime/session/stream.rs: the methods on a provider's stream keep a steady
-- relation.
use kraai.Base.{Bool, true, false, not, Option, none, some, is_empty}
use kraai.Base.Utf8.{Bytes}
use kraai.Base.Results.{ok, err}
use kraai.Session.Errors.{RuntimeError, RuntimeResult}
use kraai.Session.Runtime.{Runtime, StreamedItem, started, delta}
use kraai.Session.Steady.{
  Steady, Keeps, Keeps-bind, Keeps-pure, Keeps-call, Keeps-event, Keeps-cancel_token, Keeps-idle,
  Keeps-if, Keeps-when, Keeps-bind_result, Keeps-bind_option, Keeps-attempt,
}
use kraai.Types.Cost.{RequestUsage}
use kraai.Session.Scripting.{CompletedStreamOutput}
use kraai.Session.Messages.{
  StreamEvent, text, reasoning, reasoning_delta, script_call, usage, restart, StreamDriveResult,
  completed, failed_to_start, failed_during_stream, stopped, StreamKind, StreamJob,
}
use kraai.Session.Actor.{Actor, Act, pure, call, ◌>>=◌, ◌>>◌}
use kraai.Session.Stream.{
  send_streamed_item, send_usage, failure_event, aborted, recovered, unsaved, completed_as,
  apply_stream_event, abort_stream_for_recovery, stream_failed, completion_persistence_failed,
  stream_completed, stream_ended_with, stream_event_of,
}
use kraai.Session.Steady.Turns.{finish_turn-Keeps, drain-Keeps}
use kraai.Session.Steady.Decisions.{process_completed_stream_output-Keeps}

module _ {W : Type 0} ⦃rt : Runtime W⦄ {R : Actor W → Actor W → Type 0} (s : Steady R) where
  send_streamed_item-Keeps :
      (m : Bytes) (x : Option StreamedItem) → Keeps R (send_streamed_item m x)
  unfolding send_streamed_item
  send_streamed_item-Keeps m none = Keeps-pure s.calm tt
  send_streamed_item-Keeps m (some (started i x)) = Keeps-event s.calm _
  send_streamed_item-Keeps m (some (delta i d)) =
      Keeps-if s.calm (not (is_empty d)) (Keeps-event s.calm _) (Keeps-pure s.calm tt)

  send_usage-Keeps : (u : Option RequestUsage) → Keeps R (send_usage u)
  unfolding send_usage
  send_usage-Keeps none = Keeps-pure s.calm tt
  send_usage-Keeps (some u) = Keeps-event s.calm _

  streamed-Keeps :
      (m : Bytes) (f : W → Option StreamedItem × W)
      → Keeps {A = Option Bytes} R (call f >>= λ x. send_streamed_item m x >> pure none)
  streamed-Keeps m f =
      Keeps-bind s.calm (Keeps-call s.calm f)
        λ x. Keeps-bind s.calm (send_streamed_item-Keeps m x) λ _. Keeps-pure s.calm _

  reset-Keeps :
      (o : Option (Option RequestUsage))
      → Keeps R (elim o as (λ _. Act W (Unit {0})) [ some u ↦ send_usage u | none ↦ pure tt ])
  reset-Keeps none = Keeps-pure s.calm tt
  reset-Keeps (some u) = send_usage-Keeps u

  apply_stream_event-Keeps : (m : Bytes) (e : StreamEvent) → Keeps R (apply_stream_event m e)
  unfolding apply_stream_event
  apply_stream_event-Keeps m (text i p d) = streamed-Keeps m _
  apply_stream_event-Keeps m (reasoning p x) = streamed-Keeps m _
  apply_stream_event-Keeps m (reasoning_delta i d) =
      Keeps-bind s.calm (Keeps-event s.calm _) λ _. Keeps-pure s.calm _
  apply_stream_event-Keeps m (script_call c) = streamed-Keeps m _
  apply_stream_event-Keeps m (usage u) =
      Keeps-bind_result s.calm (Keeps-call s.calm _)
        (λ request. Keeps-bind s.calm (send_usage-Keeps request) λ _. Keeps-pure s.calm _)
        (λ e. Keeps-pure s.calm _)
  apply_stream_event-Keeps m (restart reason) =
      Keeps-bind_result s.calm (Keeps-call s.calm _)
        (λ reset.
          Keeps-bind s.calm (reset-Keeps reset)
            λ _. Keeps-bind s.calm (Keeps-event s.calm _) λ _. Keeps-pure s.calm _)
        (λ e. Keeps-pure s.calm _)

  aborted-Keeps : (m : Bytes) (r : RuntimeResult (Option Bytes)) → Keeps R (aborted m r)
  unfolding aborted
  aborted-Keeps m (ok (some x)) = Keeps-bind s.calm (finish_turn-Keeps s) λ _. Keeps-pure s.calm _
  aborted-Keeps m (ok none) = Keeps-pure s.calm _
  aborted-Keeps m (err e) = Keeps-attempt s.calm (Keeps-call s.calm _) λ owned.
      Keeps-if s.calm (not owned) (Keeps-bind s.calm (finish_turn-Keeps s) λ _. Keeps-pure s.calm _)
        (Keeps-pure s.calm _)

  recovered-Keeps :
      (k : StreamKind) (m : Bytes) (before : Bool) (r : RuntimeResult Bool)
      → Keeps R (recovered k m before r)
  unfolding recovered
  recovered-Keeps k m before (ok b) = Keeps-if s.calm b (drain-Keeps s) (Keeps-event s.calm _)
  recovered-Keeps k m before (err x) = Keeps-event s.calm _

  pub stream_failed-Keeps :
      (k : StreamKind) (m e : Bytes) (before : Bool) → Keeps R (stream_failed k m e before)
  unfolding stream_failed abort_stream_for_recovery failure_event
  stream_failed-Keeps k m e before =
      Keeps-bind s.calm (Keeps-bind s.calm (Keeps-call s.calm _) (aborted-Keeps m))
        λ r. Keeps-bind s.calm (recovered-Keeps k m before r) λ _. Keeps-event s.calm _

  unsaved-Keeps : (m : Bytes) (r : RuntimeResult (Option Bytes)) → Keeps R (unsaved m r)
  unfolding unsaved
  unsaved-Keeps m (ok (some x)) = Keeps-bind s.calm (finish_turn-Keeps s) λ _. drain-Keeps s
  unsaved-Keeps m (ok none) = Keeps-event s.calm _
  unsaved-Keeps m (err e) =
      Keeps-bind s.calm
        (Keeps-bind_result s.calm (Keeps-call s.calm _)
          (λ o. Keeps-if s.calm o (Keeps-pure s.calm tt) (finish_turn-Keeps s))
          (λ _. Keeps-pure s.calm tt))
        λ _. Keeps-event s.calm _

  completion_persistence_failed-Keeps :
      (k : StreamKind) (m : Bytes) (e : RuntimeError)
      → Keeps R (completion_persistence_failed k m e)
  unfolding completion_persistence_failed
  completion_persistence_failed-Keeps k m e =
      Keeps-bind s.calm (Keeps-bind s.calm (Keeps-call s.calm _) (unsaved-Keeps m))
        λ _. Keeps-event s.calm _

  completed_as-Keeps :
      (k : StreamKind) (m : Bytes) (c : CompletedStreamOutput) (r : RuntimeResult (Option Bytes))
      → Keeps R (completed_as k m c r)
  unfolding completed_as
  completed_as-Keeps k m c (ok (some x)) = Keeps-bind s.calm (Keeps-event s.calm _) λ _.
      Keeps-bind s.calm (Keeps-when s.calm c.reached_output_limit (Keeps-event s.calm _))
        λ _. process_completed_stream_output-Keeps s m _ _ _ _ _
  completed_as-Keeps k m c (ok none) = Keeps-pure s.calm tt
  completed_as-Keeps k m c (err e) = completion_persistence_failed-Keeps k m e

  pub stream_ended_with-Keeps :
      (k : StreamKind) (m : Bytes) (r : StreamDriveResult) → Keeps R (stream_ended_with k m r)
  unfolding stream_ended_with stream_completed
  stream_ended_with-Keeps k m (completed c) =
      Keeps-bind s.calm (Keeps-call s.calm _) (completed_as-Keeps k m c)
  stream_ended_with-Keeps k m (failed_to_start e) = stream_failed-Keeps k m e true
  stream_ended_with-Keeps k m (failed_during_stream e) = stream_failed-Keeps k m e false
  stream_ended_with-Keeps k m stopped = stream_failed-Keeps k m _ false

  pub stream_event_of-Keeps : (j : StreamJob) (e : StreamEvent) → Keeps R (stream_event_of j e)
  unfolding stream_event_of
  stream_event_of-Keeps j e =
      Keeps-bind_option s.calm (apply_stream_event-Keeps _ e)
        (λ x.
          Keeps-bind s.calm (Keeps-idle s) λ _.
            Keeps-bind s.calm (Keeps-cancel_token s.calm _) λ _. stream_failed-Keeps _ _ x false)
        (Keeps-pure s.calm tt)
