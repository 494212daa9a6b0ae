-- ===== src/Session/Stale.antt =====
-- Reports to the actor of crates/kraai-runtime/src/runtime/session/actor.rs from children that its
-- turn no longer waits for.
use kraai.Base.{ℕ, false, Option, ◌==◌, ◌≡◌, refl, ap}
use kraai.Session.Errors.{RuntimeResult}
use kraai.Session.Runtime.{Runtime}
use kraai.Session.Scripting.{CompletedScriptExecution}
use kraai.Session.Messages.{
  SessionMessage, cancel, approve, deny, pending_script, snapshot, set_mcp_servers, undo, delete,
  stop, prepared, stream, stream_ended, script_ended, TurnState, idle, preparing, streaming,
  awaiting_approval, running_script, StreamEvent, StreamDriveResult, send, PendingStreamRequest,
}
use kraai.Session.Actor.{Actor, pure, gets, set_state, take_state, ◌>>=◌}
use kraai.Session.Approvals.{
  extend, take_from, take_pending_script, pending_script_info, approve_script, deny_script,
  cancel_running_in, cancel_running_script, script_ended_in, answer_all,
}
use kraai.Session.Approvals
use kraai.Session.Prepared.{preparation_ended, prepared_in}
use kraai.Session.Stream.{stream_event, stream_event_in, stream_ended_in}
use kraai.Session.Stream
use kraai.Session.Run.{handle}

-- Whether a message is a child's report that a state does not wait for: there is no child of its
-- kind, or one of another generation.
unfoldable pub IsStale : SessionMessage → TurnState → Type 0
IsStale (prepared g o) (preparing p) = (p.generation == g) ≡ false
IsStale (prepared g o) _ = Unit {0}
IsStale (stream g e) (streaming j) = (j.generation == g) ≡ false
IsStale (stream g e) _ = Unit {0}
IsStale (stream_ended g x) (streaming j) = (j.generation == g) ≡ false
IsStale (stream_ended g x) _ = Unit {0}
IsStale (script_ended g x) (running_script j) = (j.generation == g) ≡ false
IsStale (script_ended g x) _ = Unit {0}
IsStale _ _ = ⊥

module _ {W : Type 0} ⦃rt : Runtime W⦄ where
  prepared_in-stale :
      (g : ℕ) (o : RuntimeResult (Option PendingStreamRequest)) (s : TurnState)
      → IsStale (prepared g o) s
      → prepared_in {W = W} g o s ≡ set_state s
  unfolding prepared_in IsStale
  prepared_in-stale g o idle h = refl
  prepared_in-stale g o (preparing p) h = rw h refl
  prepared_in-stale g o (streaming j) h = refl
  prepared_in-stale g o (awaiting_approval p) h = refl
  prepared_in-stale g o (running_script j) h = refl

  stream_event_in-stale :
      (g : ℕ) (e : StreamEvent) (s : TurnState)
      → IsStale (stream g e) s
      → stream_event_in {W = W} g e s ≡ pure tt
  unfolding stream_event_in IsStale
  stream_event_in-stale g e idle h = refl
  stream_event_in-stale g e (preparing p) h = refl
  stream_event_in-stale g e (streaming j) h = rw h refl
  stream_event_in-stale g e (awaiting_approval p) h = refl
  stream_event_in-stale g e (running_script j) h = refl

  stream_ended_in-stale :
      (g : ℕ) (x : StreamDriveResult) (s : TurnState)
      → IsStale (stream_ended g x) s
      → stream_ended_in {W = W} g x s ≡ set_state s
  unfolding stream_ended_in IsStale
  stream_ended_in-stale g x idle h = refl
  stream_ended_in-stale g x (preparing p) h = refl
  stream_ended_in-stale g x (streaming j) h = rw h refl
  stream_ended_in-stale g x (awaiting_approval p) h = refl
  stream_ended_in-stale g x (running_script j) h = refl

  script_ended_in-stale :
      (g : ℕ) (x : RuntimeResult CompletedScriptExecution) (s : TurnState)
      → IsStale (script_ended g x) s
      → script_ended_in {W = W} g x s ≡ set_state s
  unfolding script_ended_in IsStale
  script_ended_in-stale g x idle h = refl
  script_ended_in-stale g x (preparing p) h = refl
  script_ended_in-stale g x (streaming j) h = refl
  script_ended_in-stale g x (awaiting_approval p) h = refl
  script_ended_in-stale g x (running_script j) h = rw h refl

  -- A report from a child that the turn does not wait for, of another kind or another generation,
  -- changes nothing: not the turn, not the world, and nobody is answered or told.
  pub handle-stale :
      (m : SessionMessage) (a : Actor W) → IsStale m a.state → handle m a ≡ (false, a)
  unfolding handle ◌>>=◌ take_state set_state gets pure preparation_ended stream_event
      Stream.stream_ended Approvals.script_ended IsStale
  handle-stale (prepared g o) a h =
      ap (λ f. (false, (f (record a { state = idle })).1)) (prepared_in-stale g o a.state h)
  handle-stale (stream g e) a h = ap (λ f. (false, (f a).1)) (stream_event_in-stale g e a.state h)
  handle-stale (stream_ended g x) a h =
      ap (λ f. (false, (f (record a { state = idle })).1)) (stream_ended_in-stale g x a.state h)
  handle-stale (script_ended g x) a h =
      ap (λ f. (false, (f (record a { state = idle })).1)) (script_ended_in-stale g x a.state h)
  handle-stale (send m q r) a h = absurd h
  handle-stale (cancel d l o) a h = absurd h
  handle-stale (approve id r) a h = absurd h
  handle-stale (deny id r) a h = absurd h
  handle-stale (pending_script r) a h = absurd h
  handle-stale (snapshot r) a h = absurd h
  handle-stale (set_mcp_servers c r) a h = absurd h
  handle-stale (undo r) a h = absurd h
  handle-stale (delete r) a h = absurd h
  handle-stale (stop r) a h = absurd h
