-- ===== src/Session/Run.antt =====
-- crates/kraai-runtime/src/runtime/session/actor.rs: the loop of the actor, and the messages it
-- answers itself.
use kraai.Base.{
  ℕ, zero, suc, Bool, true, false, not, ◌&&◌, ◌||◌, List, [], ◌∷◌, ◌++◌, Option, none, some,
  if◌then◌else◌, length,
}
use kraai.Base.Utf8.{Bytes}
use kraai.Base.Literals.{utf8}
use kraai.Base.Results.{ok, err}
use kraai.Session.Errors.{RuntimeError, unavailable, failure}
use kraai.Session.Runtime.{Runtime}
use kraai.Session.Messages.{
  Responder, SessionMessage, TurnState, idle, preparing, streaming, awaiting_approval,
  running_script, SessionActivity, executing_script, kind, activity_of, session_state_changed, send,
  cancel, approve, deny, pending_script, snapshot, set_mcp_servers, undo, delete, stop, prepared,
  stream, stream_ended, script_ended, submitted, cancelled, finished, pending, captured, undone,
  Reply,
}
use kraai.Session.Actor.{
  Actor, Act, pure, gets, call, run, ◌>>=◌, ◌>>◌, reply, send_event, cancel_job, is_idle,
}
use kraai.Session.Submission.{send_message}
use kraai.Session.Approvals.{approve_script, deny_script, pending_script_info}
use kraai.Session.Approvals
use kraai.Session.Cancel.{cancel_session}
use kraai.Session.Deletion.{delete_session, change_servers}
use kraai.Session.Prepared.{preparation_ended}
use kraai.Session.Stream.{stream_event}
use kraai.Session.Stream

abbrev actor_stopped : RuntimeError
actor_stopped = failure unavailable (utf8 "Session actor stopped")

unfoldable pub activity_eq : SessionActivity → SessionActivity → Bool
activity_eq idle idle = true
activity_eq streaming streaming = true
activity_eq awaiting_approval awaiting_approval = true
activity_eq executing_script executing_script = true
activity_eq _ _ = false

abbrev is_running_script : TurnState → Bool
is_running_script (running_script j) = true
is_running_script _ = false

abbrev is_streaming : TurnState → Bool
is_streaming (streaming j) = true
is_streaming _ = false

unfoldable pub is_preparing : TurnState → Bool
is_preparing (preparing p) = true
is_preparing _ = false

abbrev bool_eq : Bool → Bool → Bool
bool_eq true b = b
bool_eq false b = not b

-- `has_child`.
unfoldable pub has_child : TurnState → Bool
has_child (preparing p) = true
has_child (streaming j) = true
has_child (running_script j) = true
has_child _ = false

module _ {W : Type 0} where
  -- `SessionMessage::reject`.
  unfoldable pub reject : SessionMessage → Act W (Unit {0})
  reject (send m s r) = reply r (submitted (err actor_stopped))
  reject (cancel d l (some r)) = reply r (cancelled (err actor_stopped))
  reject (approve id r) = reply r (finished (err actor_stopped))
  reject (deny id r) = reply r (finished (err actor_stopped))
  reject (pending_script r) = reply r (pending (err actor_stopped))
  reject (snapshot r) = reply r (captured (err actor_stopped))
  reject (set_mcp_servers c r) = reply r (finished (err actor_stopped))
  reject (undo r) = reply r (undone (err actor_stopped))
  reject (delete r) = reply r (finished (err actor_stopped))
  reject (stop r) = reply r Reply.stopped
  reject _ = pure tt

  unfoldable pub reject_all : List SessionMessage → Act W (Unit {0})
  unfolding reject
  reject_all [] = pure tt
  reject_all (m ∷ ms) = reject m >> reject_all ms

  unfoldable pub answer_stopped : List Responder → Act W (Unit {0})
  answer_stopped [] = pure tt
  answer_stopped (r ∷ rs) = reply r Reply.stopped >> answer_stopped rs

  -- `stop`, and the responder it keeps.
  unfoldable pub mark_stopping : Responder → Act W (Unit {0})
  mark_stopping r a = (tt, record a { stopped = a.stopped ++ r ∷ []; stopping = true })

  unfoldable pub cancel_child : TurnState → Act W (Unit {0})
  cancel_child (streaming j) = cancel_job j.generation
  cancel_child (running_script j) = cancel_job j.generation
  cancel_child _ = pure tt

  unfoldable pub stop_actor : Responder → Act W (Unit {0})
  unfolding mark_stopping cancel_child
  stop_actor r = do mark_stopping r; s ← gets (λ a. a.state); cancel_child s

  unfoldable pub set_published : SessionActivity × Bool → Act W (Unit {0})
  set_published p a = (tt, record a { published = p })

  unfoldable pub forget_waiting : Act W (Unit {0})
  forget_waiting a = (tt, record a { stopped = []; deferred = [] })

module _ {W : Type 0} where
  -- A session's actor as `spawn` makes it, in a world.
  unfoldable pub spawned : Bytes → W → Actor W
  spawned id w = record {
    session_id = id;
    world = w;
    state = idle;
    next_generation = 0;
    deferred = [];
    stopping = false;
    stopped = [];
    published = (SessionActivity.idle, false);
    log = [];
  }

module _ {W : Type 0} ⦃rt : Runtime W⦄ where
  -- `capture_snapshot`; the child task that loads the history answers with it.
  unfoldable pub take_snapshot : Responder → Act W (Unit {0})
  unfolding pending_script_info
  take_snapshot r = call rt.capture >>= λ seen. elim seen [
    | err e ↦ reply r (captured (err e))
    | ok o ↦ do
      info ← pending_script_info
      s ← gets (λ a. a.state)
      reply r (
          captured (
            ok (record {
              observed = o;
              pending_script = info;
              executing_script = is_running_script s;
              active_stream = is_streaming s;
            })))
  ]

  -- `handle`: whether the actor should exit.
  unfoldable pub handle : SessionMessage → Act W Bool
  unfolding send_message cancel_session approve_script deny_script pending_script_info take_snapshot
      change_servers delete_session stop_actor preparation_ended stream_event Stream.stream_ended
      Approvals.script_ended
  handle (send m s r) = send_message m s r >> pure false
  handle (cancel d l r) = cancel_session d l r >> pure false
  handle (approve id r) = approve_script id >>= λ x. reply r (finished x) >> pure false
  handle (deny id r) = deny_script id >>= λ x. reply r (finished x) >> pure false
  handle (pending_script r) = pending_script_info >>= λ x. reply r (pending (ok x)) >> pure false
  handle (snapshot r) = take_snapshot r >> pure false
  handle (set_mcp_servers c r) = change_servers c >>= λ x. reply r (finished x) >> pure false
  handle (undo r) = call rt.undo_last_user_message >>= λ x. reply r (undone x) >> pure false
  handle (delete r) = delete_session r
  handle (stop r) = stop_actor r >> pure false
  handle (prepared g o) = preparation_ended g o >> pure false
  handle (stream g e) = stream_event g e >> pure false
  handle (stream_ended g x) = Stream.stream_ended g x >> pure false
  handle (script_ended g x) = Approvals.script_ended g x >> pure false

  -- `publish_state`: clients hear of a state once.
  unfoldable pub publish_state : Act W (Unit {0})
  unfolding set_published
  publish_state = do
    activity ← gets (λ a. kind a.state)
    run (rt.publish_activity activity)
    a ← gets (λ a. a)
    let running = not (is_idle a.state) || rt.is_turn_active a.world
    if activity_eq (activity_of activity) a.published.0 && bool_eq running a.published.1
        then pure tt
        else set_published (activity_of activity, running)
          >> send_event (session_state_changed (activity_of activity) running)

  -- Handles the first deferred message, once no preparation runs.
  unfoldable pub take_deferred : Act W (Option SessionMessage)
  take_deferred a = elim a.deferred [
    | [] ↦ (none, a)
    | m ∷ rest ↦ (some m, record a { deferred = rest })
  ]

  unfoldable pub handle_next : (Bool → Act W Bool) → Bool → Option SessionMessage → Act W Bool
  unfolding handle
  handle_next again exit none = pure exit
  handle_next again exit (some m) = handle m >>= again

  -- The condition of the inner loop, and its body.
  unfoldable pub next_deferred : (Bool → Act W Bool) → Bool → Bool → Act W Bool
  unfolding take_deferred handle_next
  next_deferred again exit preparing_ =
      if exit || preparing_ then pure exit else take_deferred >>= handle_next again exit

  -- The deferred messages; one more than there are is enough fuel.
  unfoldable pub run_deferred : ℕ → Bool → Act W Bool
  unfolding next_deferred
  run_deferred zero exit = pure exit
  run_deferred (suc fuel) exit =
      gets (λ a. is_preparing a.state) >>= next_deferred (run_deferred fuel) exit

  -- One round of the loop: whether the actor leaves it.
  unfoldable pub round : SessionMessage → Act W Bool
  unfolding handle run_deferred publish_state
  round m = do
    first ← handle m
    fuel ← gets (λ a. length a.deferred)
    exit ← run_deferred (suc fuel) first
    publish_state
    a ← gets (λ a. a)
    pure (exit || a.stopping && not (has_child a.state))

  -- What follows the loop: `mailbox` holds the messages that nobody has received.
  unfoldable pub close : List SessionMessage → Act W (Unit {0})
  unfolding answer_stopped reject_all forget_waiting
  close mailbox = do
    a ← gets (λ a. a)
    answer_stopped a.stopped
    reject_all a.deferred
    forget_waiting
    run rt.remove_actor
    reject_all mailbox

  -- `run`, on the messages that arrive: whether the actor has exited.
  unfoldable pub run_actor : List SessionMessage → Act W Bool
  unfolding round close
  run_actor [] = pure false
  run_actor (m ∷ ms) = do exit ← round m; if exit then close ms >> pure true else run_actor ms
