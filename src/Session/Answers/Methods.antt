-- ===== src/Session/Answers/Methods.antt =====
-- How the methods of crates/kraai-runtime/src/runtime/session answer: the submission of a message, the
-- end of a preparation, and a cancellation.
use kraai.Base.{ℕ, Bool, List, [], ◌∷◌, Option, none, some, ◌+◌, refl, arith}
use kraai.Base.Utf8.{Bytes}
use kraai.Base.Results.{err}
use kraai.Session.Errors.{RuntimeError, RuntimeResult}
use kraai.Session.Runtime.{Runtime}
use kraai.Session.Steady.{
  waiting, holds_script, origin_waiters, Keeps-pure, Keeps-call, Keeps-run, Keeps-event,
  Keeps-cancel_token, cancel_waiters,
}
use kraai.Session.Answers.{count}
use kraai.Session.Answers.Judgements.{
  Replies, Ends, Quiet-Calm, Quiet-Steady, Untouched-Calm, Replies-none, Ends-Replies, Ends-quiet,
  Ends-eq, Ends-if, reply_one, Replies-bind, Ends-after, Ends-then, Ends-result,
}
use kraai.Session.Messages.{
  Responder, streaming, StreamJob, CancelRequest, PreparationOrigin, send, continue, queue,
}
use kraai.Session.Actor.{set_state, ◌>>◌}
use kraai.Session.Approvals.{answer_all}
use kraai.Session.Cancel.{cancel_unsaved, cancel_saved, cancel_stream_job}
use kraai.Session.Prepared.{
  fail_from, nothing_started, answer_cancel, nothing_prepared, not_prepared, preparation_failed,
}
use kraai.Session.Steady.Turns.{finish_turn-Keeps, drain-Keeps}
use kraai.Session.Steady.Preparations.{finish_unless_queued-Keeps, continuation_unprepared-Keeps}

module _ {W : Type 0} ⦃rt : Runtime W⦄ (r : ℕ) where
  pub answer_all-Replies :
      (ws : List Responder) (x : RuntimeResult Bool)
      → Replies {W = W} r (count r ws) (answer_all ws x)
  unfolding answer_all count
  answer_all-Replies [] x = Replies-none (Keeps-pure (Untouched-Calm r) tt)
  answer_all-Replies (w ∷ ws) x =
      Replies-bind (reply_one w _) (λ _. answer_all-Replies ws x) (omega arith)

  -- The stream that a cancellation ends, or leaves running.
  cancel_unsaved-Ends :
      (j : StreamJob) (c : CancelRequest) (e : RuntimeError)
      → Ends {W = W} r (count r c.waiters) (cancel_unsaved j c e)
  unfolding cancel_unsaved set_state waiting holds_script
  cancel_unsaved-Ends j c e =
      Ends-result (Keeps-call (Quiet-Calm r) _)
        (λ o. Ends-if o still (
          Ends-after (Keeps-cancel_token (Quiet-Calm r) _) λ _.
            Ends-after (Keeps-run (Quiet-Calm r) _) λ _.
              Ends-after (finish_turn-Keeps (Quiet-Steady r)) λ _.
                Ends-after (Keeps-event (Quiet-Calm r) _)
                  λ _. Ends-Replies (answer_all-Replies _ _)))
        (λ _. still)
    where
      still :
          Ends {W = W} r
            (count r c.waiters)
            (set_state (streaming j) >> answer_all c.waiters (err e))
      still =
          Ends-after (record { kept = λ a. (Quiet-Steady r).turns a _ refl refl })
            λ _. Ends-Replies (answer_all-Replies _ _)

  cancel_saved-Ends :
      (j : StreamJob) (c : CancelRequest) (m : Option Bytes)
      → Ends {W = W} r (count r c.waiters) (cancel_saved j c m)
  unfolding cancel_saved
  cancel_saved-Ends j c none = Ends-after (Keeps-cancel_token (Quiet-Calm r) _) λ _.
      Ends-after (finish_turn-Keeps (Quiet-Steady r)) λ _. Ends-Replies (answer_all-Replies _ _)
  cancel_saved-Ends j c (some m) = Ends-after (Keeps-cancel_token (Quiet-Calm r) _) λ _.
      Ends-after (Keeps-run (Quiet-Calm r) _) λ _.
        Ends-after (finish_turn-Keeps (Quiet-Steady r)) λ _.
          Ends-after (Keeps-event (Quiet-Calm r) _) λ _.
            Ends-after (drain-Keeps (Quiet-Steady r)) λ _. Ends-Replies (answer_all-Replies _ _)

  pub cancel_stream_job-Ends :
      (j : StreamJob) (c : CancelRequest)
      → Ends {W = W} r (count r c.waiters) (cancel_stream_job j c)
  unfolding cancel_stream_job
  cancel_stream_job-Ends j c =
      Ends-result (Keeps-call (Quiet-Calm r) _) (λ saved. cancel_saved-Ends j c saved)
        (λ e. cancel_unsaved-Ends j c e)

  pub fail_from-Replies :
      (o : PreparationOrigin) (e : RuntimeError)
      → Replies {W = W} r (count r (origin_waiters o)) (fail_from o e)
  unfolding fail_from origin_waiters count
  fail_from-Replies (send x) e = reply_one x _
  fail_from-Replies continue e = Replies-none (Keeps-pure (Untouched-Calm r) tt)
  fail_from-Replies queue e = Replies-none (Keeps-pure (Untouched-Calm r) tt)

  pub answer_cancel-Replies :
      (c : Option CancelRequest) (f : CancelRequest → Bool)
      → Replies {W = W} r (count r (cancel_waiters c)) (answer_cancel c f)
  unfolding answer_cancel cancel_waiters count
  answer_cancel-Replies none f = Replies-none (Keeps-pure (Untouched-Calm r) tt)
  answer_cancel-Replies (some c) f = answer_all-Replies c.waiters _

  pub nothing_prepared-Ends :
      (o : PreparationOrigin) (c : Option CancelRequest)
      → Ends {W = W} r
          (count r (origin_waiters o) + count r (cancel_waiters c))
          (nothing_prepared o c)
  unfolding nothing_prepared nothing_started
  nothing_prepared-Ends o c =
      Ends-after (finish_unless_queued-Keeps (Quiet-Steady r) o)
        λ _. Ends-then (fail_from-Replies o _) (λ _. Ends-Replies (answer_cancel-Replies c _)) refl

  not_prepared-Ends :
      (o : PreparationOrigin) (i t : Bool) (e : RuntimeError)
      → Ends {W = W} r (count r (origin_waiters o)) (not_prepared o i t e)
  unfolding not_prepared origin_waiters count
  not_prepared-Ends continue i t e =
      Ends-quiet (continuation_unprepared-Keeps (Quiet-Steady r) i t e)
  not_prepared-Ends (send x) i t e =
      Ends-after (finish_turn-Keeps (Quiet-Steady r)) λ _. Ends-Replies (reply_one x _)
  not_prepared-Ends queue i t e =
      Ends-after (finish_turn-Keeps (Quiet-Steady r)) λ _. Ends-quiet (Keeps-event (Quiet-Calm r) _)

  pub preparation_failed-Ends :
      (c : Option CancelRequest) (o : PreparationOrigin) (i t : Bool) (e : RuntimeError)
      → Ends {W = W} r
          (count r (origin_waiters o) + count r (cancel_waiters c))
          (preparation_failed c o i t e)
  unfolding preparation_failed cancel_waiters count
  preparation_failed-Ends (some c) o i t e = Ends-after (finish_turn-Keeps (Quiet-Steady r)) λ _.
      Ends-then (fail_from-Replies o e) (λ _. Ends-Replies (answer_all-Replies c.waiters _)) refl
  preparation_failed-Ends none o i t e = Ends-eq (not_prepared-Ends o i t e) (omega arith)
