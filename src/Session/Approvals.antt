-- ===== src/Session/Approvals.antt =====
-- crates/kraai-runtime/src/runtime/session/scripts.rs: a script that waits for its user, one that
-- runs and is cancelled, and one that has ended.
use kraai.Base.{ℕ, Bool, true, List, [], ◌∷◌, ◌++◌, Option, none, some, if◌then◌else◌, ◌==◌}
use kraai.Base.Utf8.{Bytes, bytes_eq}
use kraai.Base.Literals.{utf8}
use kraai.Base.Results.{ok, err}
use kraai.Session.Errors.{RuntimeError, RuntimeResult, not_found, conflict, failure}
use kraai.Session.Runtime.{Runtime}
use kraai.Types.Conversation.{ScriptExecutionStatus, denied, cancelled}
use kraai.Session.Scripting.{PendingScriptApproval, PendingScriptInfo, CompletedScriptExecution}
use kraai.Session.Messages.{
  Responder, TurnState, idle, awaiting_approval, running_script, cancelled,
}
use kraai.Session.Actor.{
  Act, pure, gets, run, set_state, take_state, ◌>>=◌, ◌>>◌, attempt, reply, cancel_job,
}
use kraai.Session.Scripts.{
  info_of, fail_script_turn, finish_prepared_execution, finalize_script_turn, start_prepared_script,
}

-- The error of a session that waits for no approval, or for another's.
unfoldable pub no_pending : Bytes → RuntimeError
no_pending session =
    failure not_found (utf8 "Session " ++ session ++ utf8 " has no pending script approval")

unfoldable pub other_pending : Bytes → Bytes → Bytes → RuntimeError
other_pending session pending execution = failure conflict (
    utf8 "Pending execution for session "
    ++ session
    ++ utf8 " is "
    ++ pending
    ++ utf8 ", not "
    ++ execution)

-- The `extend` of a list by an `Option`.
abbrev pub extend : List Responder → Option Responder → List Responder
extend rs none = rs
extend rs (some r) = rs ++ r ∷ []

unfoldable pub pending_info : TurnState → Option PendingScriptInfo
pending_info (awaiting_approval p) = some (info_of p)
pending_info _ = none

module _ {W : Type 0} where
  unfoldable pub answer_all : List Responder → RuntimeResult Bool → Act W (Unit {0})
  answer_all [] r = pure tt
  answer_all (w ∷ ws) r = reply w (cancelled r) >> answer_all ws r

  unfoldable pub take_from : Bytes → Bytes → TurnState → Act W (RuntimeResult PendingScriptApproval)
  take_from session execution_id (awaiting_approval p) =
      if bytes_eq p.request.id execution_id
      then set_state idle >> pure (ok p)
      else pure (err (other_pending session p.request.id execution_id))
  take_from session execution_id _ = pure (err (no_pending session))

  unfoldable pub take_pending_script : Bytes → Act W (RuntimeResult PendingScriptApproval)
  unfolding take_from
  take_pending_script execution_id = do
    a ← gets (λ a. a)
    take_from a.session_id execution_id a.state

  unfoldable pub pending_script_info : Act W (Option PendingScriptInfo)
  unfolding pending_info
  pending_script_info = gets (λ a. pending_info a.state)

module _ {W : Type 0} ⦃rt : Runtime W⦄ where
  unfoldable pub approve_script : Bytes → Act W (RuntimeResult (Unit {0}))
  unfolding take_pending_script start_prepared_script
  approve_script id =
      attempt (take_pending_script id) λ p. start_prepared_script p.request >> pure (ok tt)

  unfoldable pub end_pending_script :
      PendingScriptApproval → ScriptExecutionStatus → Bytes → Act W (RuntimeResult (Unit {0}))
  unfolding finish_prepared_execution finalize_script_turn fail_script_turn
  end_pending_script pending status reason =
      attempt (finish_prepared_execution pending.request.id status (some reason))
        finalize_script_turn
      >>= λ r. elim r [ ok _ ↦ pure (ok tt) | err e ↦ fail_script_turn e >> pure (err e) ]

  unfoldable pub deny_pending : PendingScriptApproval → Act W (RuntimeResult (Unit {0}))
  unfolding end_pending_script
  deny_pending p = do
    run rt.resume_timer
    end_pending_script p denied (utf8 "Capability escalation denied by user")

  unfoldable pub deny_script : Bytes → Act W (RuntimeResult (Unit {0}))
  unfolding take_pending_script deny_pending
  deny_script id = attempt (take_pending_script id) deny_pending

  unfoldable pub cancel_running_in : Option Responder → TurnState → Act W (Unit {0})
  cancel_running_in response (running_script j) = do
    cancel_job j.generation
    run rt.clear_active_turn
    set_state (running_script (record j { cancel_waiters = extend j.cancel_waiters response }))
  cancel_running_in response _ = pure tt

  unfoldable pub cancel_running_script : Option Responder → Act W (Unit {0})
  unfolding cancel_running_in
  cancel_running_script response = gets (λ a. a.state) >>= cancel_running_in response

  unfoldable pub script_ended_with : RuntimeResult CompletedScriptExecution → Act W (Unit {0})
  unfolding finalize_script_turn fail_script_turn
  script_ended_with result = attempt (pure result) finalize_script_turn >>= λ r. elim r [
    | ok _ ↦ pure tt
    | err e ↦ fail_script_turn e
  ]

  -- `script_ended`, by the state of the turn.
  unfoldable pub script_ended_in :
      ℕ → RuntimeResult CompletedScriptExecution → TurnState → Act W (Unit {0})
  unfolding script_ended_with answer_all
  script_ended_in g result (running_script j) =
      if j.generation == g
      then script_ended_with result >> answer_all j.cancel_waiters (ok true)
      else set_state (running_script j)
  script_ended_in g result state = set_state state

  unfoldable pub script_ended : ℕ → RuntimeResult CompletedScriptExecution → Act W (Unit {0})
  unfolding script_ended_in
  script_ended g result = take_state >>= script_ended_in g result
