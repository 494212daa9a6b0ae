-- ===== src/Session/Answers/Cancellations.antt =====
-- How crates/kraai-runtime/src/runtime/session/cancel.rs answers: a cancellation, by the state of the
-- turn, and the end of a session.
use kraai.Base.{ℕ, Bool, true, false, not, ◌||◌, List, [], ◌∷◌, Option, none, some, ◌+◌, ◌≡◌, arith}
use kraai.Base.Integers.{ℤ}
use kraai.Session.Errors.{RuntimeResult}
use kraai.Session.Runtime.{Runtime}
use kraai.Session.Steady.{
  Keeps, waiting, origin_waiters, Keeps-bind, Keeps-pure, Keeps-ask, Keeps-call, Keeps-run,
  Keeps-cancel_token, Keeps-if, Keeps-attempt, cancel_waiters,
}
use kraai.Session.Answers.{
  count, count-append, brings, brought, answered, responders, settled, held, brought-append,
}
use kraai.Session.Answers.Judgements.{
  Replies, Ends, Accounts, Untouched, Quiet-Calm, Quiet-Steady, Untouched-Calm, Replies-none,
  Ends-Replies, Accounts-Replies, Ends-quiet, Ends-eq, Accounts-if, reply_one, holds, Ends-after,
  Ends-then, Accounts-after, Accounts-take, Ends-result, Accounts-result,
}
use kraai.Session.Messages.{
  Responder, delete, TurnState, idle, preparing, streaming, awaiting_approval, running_script,
  CancelRequest, Preparation, ScriptJob, Reply,
}
use kraai.Session.Actor.{pure, gets, run, emit, set_state, ◌>>=◌, ◌>>◌, reply}
use kraai.Session.Approvals.{extend, cancel_running_in, cancel_running_script}
use kraai.Session.Cancel.{
  cancel_request, merge, answer_option, discard_queue, cancel_idle, cancel_turn, cancel_session,
}
use kraai.Session.Deletion.{delete_now, defer, script_active, delete_in, delete_session}
use kraai.Session.Steady.Turns.{finish_turn-Keeps, drain-Keeps, release_turn-Keeps}
use kraai.Session.Steady.Decisions.{end_pending_script-Keeps}
use kraai.Session.Answers.Methods.{cancel_stream_job-Ends}

-- The responder of a request that may have none.
unfoldable pub optional : Option Responder → List Responder
optional none = []
optional (some x) = x ∷ []

pub count-extend :
    (r : ℕ) (ws : List Responder) (o : Option Responder)
    → count r (extend ws o) ≡ count r ws + count r (optional o)
unfolding optional count
count-extend r ws none = omega arith
count-extend r ws (some x) = omega (arith, count-append r ws (x ∷ []))

waiting-merge :
    (r : ℕ) (d : Bool) (o : Option Responder) (c : Option CancelRequest)
    → count r (cancel_waiters (merge d o c)) ≡ count r (cancel_waiters c) + count r (optional o)
unfolding merge cancel_request cancel_waiters count
waiting-merge r d o none = omega (arith, count-extend r [] o)
waiting-merge r d o (some c) = count-extend r c.waiters o

module _ {W : Type 0} ⦃rt : Runtime W⦄ (r : ℕ) where
  pub answer_option-Replies :
      (o : Option Responder) (x : RuntimeResult Bool)
      → Replies {W = W} r (count r (optional o)) (answer_option o x)
  unfolding answer_option optional count
  answer_option-Replies none x = Replies-none (Keeps-pure (Untouched-Calm r) tt)
  answer_option-Replies (some y) x = reply_one y _

  cancel_idle-Ends :
      (d : Bool) (o : Option Responder) → Ends {W = W} r (count r (optional o)) (cancel_idle d o)
  unfolding cancel_idle
  cancel_idle-Ends d o = Ends-after (Keeps-ask (Quiet-Calm r) _) λ active.
      Ends-after
        (Keeps-if (Quiet-Calm r) (active || d)
          (Keeps-bind (Quiet-Calm r) (finish_turn-Keeps (Quiet-Steady r))
            λ _. drain-Keeps (Quiet-Steady r))
          (Keeps-pure (Quiet-Calm r) tt))
        λ _. Ends-Replies (answer_option-Replies o _)

  -- The child's end will answer, too, who asks that it be cancelled.
  cancel_running-Ends :
      (j : ScriptJob) (o : Option Responder)
      → Ends {W = W} r
          (count r j.cancel_waiters + count r (optional o))
          (set_state (running_script j) >> cancel_running_script o)
  unfolding cancel_running_script cancel_running_in ◌>>=◌ set_state gets emit run held settled
      answered waiting
  cancel_running-Ends j o = record {
    ended = λ a h. omega (arith, count-extend r j.cancel_waiters o);
  }

  cancel_preparing-Ends :
      (p : Preparation) (d : Bool) (o : Option Responder)
      → Ends {W = W} r
          (count r (waiting (preparing p)) + count r (optional o))
          (set_state (preparing (record p { cancel = merge d o p.cancel })))
  unfolding waiting
  cancel_preparing-Ends p d o = Ends-eq (holds _) (
      omega (
        arith,
        waiting-merge r d o p.cancel,
        count-append r (origin_waiters p.origin) (cancel_waiters (merge d o p.cancel)),
        count-append r (origin_waiters p.origin) (cancel_waiters p.cancel),
      ))

  cancel_turn-Ends :
      (d : Bool) (o : Option Responder) (s : TurnState)
      → Ends {W = W} r (count r (waiting s) + count r (optional o)) (cancel_turn d o s)
  unfolding cancel_turn waiting count cancel_request
  cancel_turn-Ends d o (awaiting_approval p) =
      Ends-eq
        (Ends-result (end_pending_script-Keeps (Quiet-Steady r) p _ _)
          (λ _. Ends-Replies (answer_option-Replies o _))
          (λ e. Ends-Replies (answer_option-Replies o _)))
        (omega arith)
  cancel_turn-Ends d o (running_script j) = cancel_running-Ends j o
  cancel_turn-Ends d o (preparing p) = cancel_preparing-Ends p d o
  cancel_turn-Ends d o (streaming j) =
      Ends-eq (cancel_stream_job-Ends r j (cancel_request d o)) (omega (arith, count-extend r [] o))
  cancel_turn-Ends d o idle = Ends-eq (cancel_idle-Ends d o) (omega arith)

  discard_queue-Keeps : (d : Bool) → Keeps {W = W} (Untouched r) (discard_queue d)
  unfolding discard_queue
  discard_queue-Keeps d = Keeps-if (Untouched-Calm r) (not d) (Keeps-pure (Untouched-Calm r) _) (
      Keeps-attempt (Untouched-Calm r) (Keeps-call (Untouched-Calm r) _) λ owned.
        Keeps-if (Untouched-Calm r) owned (Keeps-call (Untouched-Calm r) _)
          (Keeps-pure (Untouched-Calm r) _))

  pub cancel_session-Accounts :
      (d : Bool) (l : Option ℤ) (o : Option Responder)
      → Accounts {W = W} r (count r (optional o)) (cancel_session d l o)
  unfolding cancel_session
  cancel_session-Accounts d l o = Accounts-after (Keeps-ask (Untouched-Calm r) _) λ gone.
      Accounts-if gone (Accounts-Replies (answer_option-Replies o _)) (
        Accounts-result (discard_queue-Keeps d)
          (λ discarded. Accounts-take (cancel_turn-Ends discarded o))
          (λ e. Accounts-Replies (answer_option-Replies o _)))

  delete_now-Ends : (x : Responder) → Ends {W = W} r (count r (x ∷ [])) (delete_now x)
  unfolding delete_now
  delete_now-Ends x = Ends-after (Keeps-run (Quiet-Calm r) _) λ _.
      Ends-result (Keeps-call (Quiet-Calm r) _)
        (λ _. Ends-after (release_turn-Keeps (Quiet-Calm r)) λ _.
          Ends-after (Keeps-run (Quiet-Calm r) _) λ _.
            Ends-after (Keeps-run (Quiet-Calm r) _)
              λ _. Ends-after (Keeps-run (Quiet-Calm r) _) λ _. answered_with true _)
        (λ e. answered_with false _)
    where
      answered_with :
          (b : Bool) (y : Reply) → Ends {W = W} r (count r (x ∷ [])) (reply x y >> pure b)
      answered_with b y =
          Ends-then (reply_one x _) (λ _. Ends-quiet (Keeps-pure (Quiet-Calm r) b)) (omega arith)

  defer-Ends :
      (p : Preparation) (x : Responder)
      → Ends {W = W} r
          (count r (waiting (preparing p)) + count r (x ∷ []))
          (set_state (preparing p) >> defer (delete x) >> pure false)
  unfolding defer ◌>>=◌ set_state pure held settled brought brings responders
  defer-Ends p x = record {
    ended = λ a h. omega (arith, brought-append r a.deferred (delete x ∷ []));
  }

  refuse-Ends :
      (s : TurnState) (x : Responder)
      → Ends {W = W} r (count r (waiting s) + count r (x ∷ [])) (set_state s >> script_active x)
  unfolding script_active ◌>>=◌ set_state gets emit pure held settled answered count
  refuse-Ends s x = record { ended = λ a h. omega arith }

  delete_in-Ends :
      (x : Responder) (s : TurnState)
      → Ends {W = W} r (count r (waiting s) + count r (x ∷ [])) (delete_in x s)
  unfolding delete_in waiting count
  delete_in-Ends x (running_script j) = refuse-Ends (running_script j) x
  delete_in-Ends x (awaiting_approval p) = refuse-Ends (awaiting_approval p) x
  delete_in-Ends x (preparing p) = defer-Ends p x
  delete_in-Ends x (streaming j) =
      Ends-eq (Ends-after (Keeps-cancel_token (Quiet-Calm r) _) λ _. delete_now-Ends x)
        (omega arith)
  delete_in-Ends x idle = Ends-eq (delete_now-Ends x) (omega arith)

  pub delete_session-Accounts :
      (x : Responder) → Accounts {W = W} r (count r (x ∷ [])) (delete_session x)
  unfolding delete_session
  delete_session-Accounts x = Accounts-take (delete_in-Ends x)
