-- ===== src/Session/Answers/Children.antt =====
-- How crates/kraai-runtime/src/runtime/session answers when a child reports, and when a user decides on
-- a script.
use kraai.Base.{ℕ, ◌==◌, ◌+◌, ◌≡◌, refl, arith, ◌∙◌, ap}
use kraai.Base.Utf8.{Bytes, bytes_eq}
use kraai.Base.Results.{ok, err}
use kraai.Session.Errors.{RuntimeResult}
use kraai.Session.Runtime.{Runtime}
use kraai.Session.Steady.{
  Keeps, waiting, Keeps-bind, Keeps-pure, Keeps-gets, Keeps-run, Keeps-idle, Keeps-if,
}
use kraai.Session.Answers.{count, answered, settled, held}
use kraai.Session.Answers.Judgements.{
  Ends, Accounts, Quiet, Untouched, Quiet-Calm, Quiet-Steady, Untouched-Calm, Replies-none,
  Ends-Replies, Accounts-Replies, Ends-quiet, Ends-eq, Ends-if, holds_again, Ends-after,
  Accounts-take, Ends-result,
}
use kraai.Session.Scripting.{
  EffectiveScriptRequest, PendingScriptApproval, CompletedScriptExecution,
}
use kraai.Session.Messages.{
  TurnState, idle, preparing, streaming, awaiting_approval, running_script, StreamEvent,
  StreamDriveResult,
}
use kraai.Session.Actor.{
  Actor, Act, pure, gets, run, emit, set_state, ◌>>=◌, ◌>>◌, attempt, generation,
}
use kraai.Session.Scripts.{start_prepared_script}
use kraai.Session.Approvals.{
  extend, take_from, take_pending_script, pending_script_info, approve_script, deny_script,
  deny_pending, cancel_running_in, cancel_running_script, script_ended_in,
}
use kraai.Session.Approvals
use kraai.Session.Stream.{stream_event, stream_event_in, stream_ended_in}
use kraai.Session.Stream
use kraai.Session.Steady.Decisions.{end_pending_script-Keeps, script_ended_with-Keeps}
use kraai.Session.Steady.Streams.{stream_event_of-Keeps, stream_ended_with-Keeps}
use kraai.Session.Answers.Methods.{answer_all-Replies}

module _ {W : Type 0} ⦃rt : Runtime W⦄ (r : ℕ) where
  still : {A : Type 0} {m : Act W A} → Keeps (Untouched r) m → Accounts r 0 m
  still p = Accounts-Replies (Replies-none p)

  holds_nothing :
      (a : Actor W) (s : TurnState) → a.state ≡ s → count r (waiting s) ≡ 0 → held r a ≡ 0
  unfolding held
  holds_nothing a s e h = ap (λ t. count r (waiting t)) e ∙ h

  start-Quiet : (q : EffectiveScriptRequest) → Keeps {W = W} (Quiet r) (start_prepared_script q)
  unfolding start_prepared_script run generation emit set_state ◌>>=◌ settled held answered waiting
      count
  start-Quiet q = record { kept = λ a h. (refl, refl) }

  -- A session that waits for no approval has nothing to take.
  none_taken :
      (k : PendingScriptApproval → Act W (RuntimeResult (Unit {0}))) (session id : Bytes)
      (s : TurnState) (a : Actor W)
      → take_from {W = W} session id s ≡ pure (err (Approvals.no_pending session))
      → settled r (attempt (take_from session id s) k a).1
          + held r (attempt (take_from session id s) k a).1
        ≡ 0 + (settled r a + held r a)
  unfolding attempt ◌>>=◌ pure
  none_taken k session id s a e = rw e omega arith

  take_from-Quiet :
      (session id : Bytes) (p : PendingScriptApproval)
      → Keeps {W = W} (Quiet r) (take_from session id (awaiting_approval p))
  unfolding take_from
  take_from-Quiet session id p =
      Keeps-if (Quiet-Calm r) (bytes_eq p.request.id id)
        (Keeps-bind (Quiet-Calm r) (Keeps-idle (Quiet-Steady r)) λ _. Keeps-pure (Quiet-Calm r) _)
        (Keeps-pure (Quiet-Calm r) _)

  -- What is done with the pending script leaves the turn with nothing to hold.
  taken-Ends :
      (k : PendingScriptApproval → Act W (RuntimeResult (Unit {0})))
      → ((p : PendingScriptApproval) → Ends r 0 (k p))
      → (session id : Bytes) (p : PendingScriptApproval)
      → Ends r 0 (attempt (take_from session id (awaiting_approval p)) k)
  unfolding attempt
  taken-Ends k q session id p =
      Ends-result (take_from-Quiet session id p) q
        (λ x. Ends-quiet (Keeps-pure (Quiet-Calm r) (err x)))

  taking :
      (k : PendingScriptApproval → Act W (RuntimeResult (Unit {0})))
      → ((p : PendingScriptApproval) → Ends r 0 (k p))
      → (session id : Bytes) (s : TurnState) (a : Actor W) → a.state ≡ s
      → settled r (attempt (take_from session id s) k a).1
          + held r (attempt (take_from session id s) k a).1
        ≡ 0 + (settled r a + held r a)
  unfolding waiting count take_from
  taking k q session id (awaiting_approval p) a e = omega (
    arith,
    holds_nothing a (awaiting_approval p) e refl,
    (taken-Ends k q session id p).ended a (holds_nothing a (awaiting_approval p) e refl),
  )
  taking k q session id idle a e = none_taken k session id idle a refl
  taking k q session id (preparing p) a e = none_taken k session id (preparing p) a refl
  taking k q session id (streaming p) a e = none_taken k session id (streaming p) a refl
  taking k q session id (running_script p) a e = none_taken k session id (running_script p) a refl

  approved-Ends :
      (p : PendingScriptApproval)
      → Ends {W = W} {A = RuntimeResult (Unit {0})} r 0
          (start_prepared_script p.request >> pure (ok tt))
  approved-Ends p = Ends-after (start-Quiet p.request) λ _. Ends-quiet (Keeps-pure (Quiet-Calm r) _)

  pub approve_script-Accounts : (id : Bytes) → Accounts {W = W} r 0 (approve_script id)
  unfolding approve_script take_pending_script ◌>>=◌ gets attempt
  approve_script-Accounts id = record {
    accounted = λ a.
        taking (λ p. start_prepared_script p.request >> pure (ok tt)) approved-Ends a.session_id id
          a.state a refl;
  }

  denied-Ends : (p : PendingScriptApproval) → Ends {W = W} r 0 (deny_pending p)
  unfolding deny_pending
  denied-Ends p =
      Ends-after (Keeps-run (Quiet-Calm r) _)
        λ _. Ends-quiet (end_pending_script-Keeps (Quiet-Steady r) p _ _)

  pub deny_script-Accounts : (id : Bytes) → Accounts {W = W} r 0 (deny_script id)
  unfolding deny_script take_pending_script ◌>>=◌ gets attempt
  deny_script-Accounts id = record {
    accounted = λ a. taking deny_pending denied-Ends a.session_id id a.state a refl;
  }

  stream_event_in-Accounts :
      (g : ℕ) (e : StreamEvent) (a : Actor W) (s : TurnState)
      → a.state ≡ s
      → settled r (stream_event_in g e s a).1 + held r (stream_event_in g e s a).1
        ≡ 0 + (settled r a + held r a)
  unfolding stream_event_in waiting count
  stream_event_in-Accounts g e a (streaming j) h = omega (
    arith,
    holds_nothing a (streaming j) h refl,
    (Ends-if (j.generation == g) (Ends-quiet (stream_event_of-Keeps (Quiet-Steady r) j e))
          (Ends-quiet (Keeps-pure (Quiet-Calm r) tt))).ended
        a (holds_nothing a (streaming j) h refl),
  )
  stream_event_in-Accounts g e a idle h = (still (Keeps-pure (Untouched-Calm r) tt)).accounted a
  stream_event_in-Accounts g e a (preparing p) h =
      (still (Keeps-pure (Untouched-Calm r) tt)).accounted a
  stream_event_in-Accounts g e a (running_script p) h =
      (still (Keeps-pure (Untouched-Calm r) tt)).accounted a
  stream_event_in-Accounts g e a (awaiting_approval p) h =
      (still (Keeps-pure (Untouched-Calm r) tt)).accounted a

  pub stream_event-Accounts : (g : ℕ) (e : StreamEvent) → Accounts {W = W} r 0 (stream_event g e)
  unfolding stream_event ◌>>=◌ gets
  stream_event-Accounts g e = record {
    accounted = λ a. stream_event_in-Accounts g e a a.state refl;
  }

  script_ended_in-Ends :
      (g : ℕ) (x : RuntimeResult CompletedScriptExecution) (s : TurnState)
      → Ends {W = W} r (count r (waiting s) + 0) (script_ended_in g x s)
  unfolding script_ended_in waiting
  script_ended_in-Ends g x (running_script j) =
      Ends-if (j.generation == g)
        (Ends-eq
          (Ends-after (script_ended_with-Keeps (Quiet-Steady r) x)
            λ _. Ends-Replies (answer_all-Replies r j.cancel_waiters _))
          (omega arith))
        (holds_again (running_script j))
  script_ended_in-Ends g x idle = holds_again idle
  script_ended_in-Ends g x (preparing p) = holds_again (preparing p)
  script_ended_in-Ends g x (streaming j) = holds_again (streaming j)
  script_ended_in-Ends g x (awaiting_approval p) = holds_again (awaiting_approval p)

  stream_ended_in-Ends :
      (g : ℕ) (x : StreamDriveResult) (s : TurnState)
      → Ends {W = W} r (count r (waiting s) + 0) (stream_ended_in g x s)
  unfolding stream_ended_in waiting count
  stream_ended_in-Ends g x (streaming j) =
      Ends-if (j.generation == g)
        (Ends-eq
          (Ends-quiet (
            Keeps-bind (Quiet-Calm r) (Keeps-gets (Quiet-Calm r) _) λ stopping.
              Keeps-if (Quiet-Calm r) stopping (Keeps-pure (Quiet-Calm r) tt)
                (stream_ended_with-Keeps (Quiet-Steady r) j.kind j.message_id x)))
          (omega arith))
        (holds_again (streaming j))
  stream_ended_in-Ends g x idle = holds_again idle
  stream_ended_in-Ends g x (preparing p) = holds_again (preparing p)
  stream_ended_in-Ends g x (running_script j) = holds_again (running_script j)
  stream_ended_in-Ends g x (awaiting_approval p) = holds_again (awaiting_approval p)

  pub script_ended-Accounts :
      (g : ℕ) (x : RuntimeResult CompletedScriptExecution)
      → Accounts {W = W} r 0 (Approvals.script_ended g x)
  unfolding Approvals.script_ended
  script_ended-Accounts g x = Accounts-take (script_ended_in-Ends g x)

  pub stream_ended-Accounts :
      (g : ℕ) (x : StreamDriveResult) → Accounts {W = W} r 0 (Stream.stream_ended g x)
  unfolding Stream.stream_ended
  stream_ended-Accounts g x = Accounts-take (stream_ended_in-Ends g x)
