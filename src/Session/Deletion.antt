-- ===== src/Session/Deletion.antt =====
-- crates/kraai-runtime/src/runtime/session/cancel.rs: the end of a session, and its servers.
use kraai.Base.{Bool, true, false, not, [], ◌∷◌, ◌++◌, if◌then◌else◌}
use kraai.Base.Utf8.{Bytes}
use kraai.Base.Literals.{utf8}
use kraai.Base.Results.{ok, err}
use kraai.Session.Errors.{RuntimeError, RuntimeResult, conflict, failure}
use kraai.Session.Runtime.{Runtime}
use kraai.Session.Messages.{
  Responder, SessionMessage, TurnState, idle, preparing, streaming, awaiting_approval,
  running_script, delete, finished,
}
use kraai.Session.Actor.{
  Act, pure, gets, call, run, set_state, take_state, ◌>>=◌, ◌>>◌, attempt, reply, cancel_job,
  is_idle,
}
use kraai.Session.Lease.{release_turn}

abbrev pending_work : RuntimeError
pending_work =
    failure conflict (utf8 "Cannot change MCP servers while the session has pending work")

module _ {W : Type 0} ⦃rt : Runtime W⦄ where
  -- What follows once no child of the session's runs.
  unfoldable pub delete_now : Responder → Act W Bool
  unfolding release_turn
  delete_now r = do
    run rt.wait_session
    deleted ← call rt.delete_session
    elim deleted [
      | err e ↦ reply r (finished (err e)) >> pure false
      | ok _ ↦ do
        release_turn
        run rt.forget_observation
        run rt.remove_timer
        run rt.remove_script_output
        reply r (finished (ok tt))
        pure true
    ]

  unfoldable pub defer : SessionMessage → Act W (Unit {0})
  defer m a = (tt, record a { deferred = a.deferred ++ m ∷ [] })

  -- The error of a session that cannot be deleted.
  unfoldable pub script_active : Responder → Act W Bool
  script_active r = do
    session ← gets (λ a. a.session_id)
    reply r (
        finished (
          err (
            failure conflict
              (utf8 "Cannot delete session " ++ session ++ utf8 " while a script is active"))))
    pure false

  -- `delete`, by the state of the turn: whether the session was deleted, and the actor exits.
  unfoldable pub delete_in : Responder → TurnState → Act W Bool
  unfolding delete_now
  delete_in r (running_script j) = set_state (running_script j) >> script_active r
  delete_in r (awaiting_approval p) = set_state (awaiting_approval p) >> script_active r
  delete_in r (preparing p) = set_state (preparing p) >> defer (delete r) >> pure false
  delete_in r (streaming j) = cancel_job j.generation >> delete_now r
  delete_in r idle = delete_now r

  unfoldable pub delete_session : Responder → Act W Bool
  unfolding delete_in
  delete_session r = take_state >>= delete_in r

  unfoldable pub replace_servers : Bytes → Act W (RuntimeResult (Unit {0}))
  replace_servers config =
      attempt (call (rt.replace_session_mcp_servers config))
        λ previous. (if previous then run rt.shut_down_servers else pure tt) >> pure (ok tt)

  -- `set_mcp_servers`: the queue is read only when the session is idle.
  unfoldable pub change_servers : Bytes → Act W (RuntimeResult (Unit {0}))
  unfolding replace_servers
  change_servers config = do
    idling ← gets (λ a. is_idle a.state)
    if not idling
        then pure (err pending_work)
        else attempt (call rt.has_queued_messages)
            λ waiting. if waiting then pure (err pending_work) else replace_servers config
