-- ===== src/Session/Lease.antt =====
-- The lease on a session: `release_turn` and `finish_turn` of
-- crates/kraai-runtime/src/runtime/session_maintenance.rs, and `ensure_lease` of session/turn.rs.
use kraai.Base.{if◌then◌else◌}
use kraai.Base.Results.{ok, err}
use kraai.Session.Errors.{RuntimeError, RuntimeResult, internal, failure}
use kraai.Session.Runtime.{Runtime}
use kraai.Session.Messages.{idle, session_error}
use kraai.Session.Actor.{Act, pure, call, run, set_state, ◌>>=◌, ◌>>◌, attempt, send_event}

module _ {W : Type 0} ⦃rt : Runtime W⦄ where
  -- `send_session_error` wraps what it is given as an internal error; `send_session_report_error`
  -- does not.
  abbrev pub send_session_error : RuntimeError → Act W (Unit {0})
  send_session_error e = send_event (session_error (failure internal e.message))

  abbrev pub send_session_report_error : RuntimeError → Act W (Unit {0})
  send_session_report_error e = send_event (session_error e)

  unfoldable pub release_turn : Act W (Unit {0})
  release_turn = do
    run rt.discard_streaming_state
    released ← attempt (call rt.finished_timer) (λ timer. call (rt.release_turn_with_timer timer))
    elim released [
      | ok b ↦ if b then pure tt else run rt.clear_active_turn
      | err e ↦ send_session_error e
    ]

  unfoldable pub finish_turn : Act W (Unit {0})
  unfolding release_turn
  finish_turn = do set_state idle; run rt.clear_active_turn; run rt.finish_timer; release_turn

  -- Claims the lease if needed, and finishes the executions an earlier owner left behind.
  unfoldable pub ensure_lease : Act W (RuntimeResult (Unit {0}))
  unfolding release_turn
  ensure_lease = attempt (call rt.owns_turn) λ owned.
      if owned
      then pure (ok tt)
      else attempt (call rt.claim_turn) λ _. call rt.recover_session_executions >>= λ r. elim r [
        | ok _ ↦ pure (ok tt)
        | err e ↦ release_turn >> pure (err e)
      ]
