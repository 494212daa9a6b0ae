-- ===== src/Session/Answers/Preparations.antt =====
-- How crates/kraai-runtime/src/runtime/session/turn.rs answers when a preparation ends, and when a
-- message is submitted.
use kraai.Base.{ℕ, not, Option, none, some, ◌==◌, ◌+◌, ◌≡◌, refl, arith, ◌∙◌}
use kraai.Base.Utf8.{Bytes}
use kraai.Base.Results.{ok, err}
use kraai.Session.Errors.{RuntimeResult}
use kraai.Session.Runtime.{Runtime}
use kraai.Session.Steady.{waiting, origin_waiters, Keeps-pure, Keeps-gets, cancel_waiters}
use kraai.Session.Answers.{count, count-append, settled, held}
use kraai.Session.Answers.Judgements.{
  Replies, Ends, Accounts, Quiet-Calm, Quiet-Steady, Untouched-Calm, Replies-none, Ends-Replies,
  Ends-eq, Ends-if, reply_one, holds_again, Ends-after, Ends-then, Accounts-take,
}
use kraai.Session.Messages.{
  TurnState, idle, preparing, streaming, awaiting_approval, running_script, StreamJob, StreamKind,
  CancelRequest, PreparationOrigin, send, continue, queue, Preparation, PendingStreamRequest,
}
use kraai.Session.Actor.{Actor, pure, emit, set_state, take_state, ◌>>=◌, generation}
use kraai.Session.Prepared.{
  start_stream, started_from, cancel_in, prepared_in, cancel_started, begin_stream, prepared_with,
  preparation_ended,
}
use kraai.Session.Answers.Methods.{
  nothing_prepared-Ends, preparation_failed-Ends, fail_from-Replies, answer_cancel-Replies,
  cancel_stream_job-Ends,
}
use kraai.Session.Steady.Preparations.{start_stream-Keeps}

module _ {W : Type 0} ⦃rt : Runtime W⦄ (r : ℕ) where
  -- A cancellation is taken on by the stream that has just begun.
  cancel_started-settles :
      (c : Option CancelRequest) (j : StreamJob) (a : Actor W)
      → a.state ≡ streaming j
      → settled r (cancel_started c a).1 + held r (cancel_started c a).1
        ≡ count r (cancel_waiters c) + settled r a
  unfolding cancel_started cancel_in cancel_waiters count held waiting settled ◌>>=◌ take_state pure
  cancel_started-settles none j a e = rw e omega arith
  cancel_started-settles (some c) j a e =
      rw e ((cancel_stream_job-Ends r j c).ended (record a { state = idle }) refl)

  started_from-Replies :
      (o : PreparationOrigin) (m : Bytes)
      → Replies {W = W} r (count r (origin_waiters o)) (started_from o m)
  unfolding started_from origin_waiters count
  started_from-Replies (send x) m = reply_one x _
  started_from-Replies continue m = Replies-none (Keeps-pure (Untouched-Calm r) tt)
  started_from-Replies queue m = Replies-none (Keeps-pure (Untouched-Calm r) tt)

  started_job : StreamKind → PendingStreamRequest → Actor W → StreamJob
  started_job k q a = record { generation = (generation a).0; kind = k; message_id = q.message_id }

  start_stream-state :
      (k : StreamKind) (q : PendingStreamRequest) (a : Actor W)
      → (start_stream k q a).1.state ≡ streaming (started_job k q a)
  unfolding start_stream set_state emit ◌>>=◌ started_job
  start_stream-state k q a = refl

  begin_stream-Ends :
      (k : StreamKind) (o : PreparationOrigin) (c : Option CancelRequest) (q : PendingStreamRequest)
      → Ends {W = W} r
          (count r (origin_waiters o) + count r (cancel_waiters c))
          (begin_stream k o c q)
  unfolding begin_stream ◌>>=◌
  begin_stream-Ends k o c q = record {
    ended = λ a h.
        let b : Actor W = (start_stream k q a).1 in
        let d : Actor W = (started_from o q.message_id b).1 in
        let replied : (d.state ≡ b.state)
            × (settled r d ≡ count r (origin_waiters o) + settled r b) =
          (started_from-Replies o q.message_id).replied b in
        omega (
          arith,
          ((start_stream-Keeps (Quiet-Steady r) k q).kept a h).1,
          replied.1,
          cancel_started-settles c _ d (replied.0 ∙ start_stream-state k q a),
        );
  }

  prepared_with-Ends :
      (p : Preparation) (outcome : RuntimeResult (Option PendingStreamRequest))
      → Ends {W = W} r
          (count r (origin_waiters p.origin) + count r (cancel_waiters p.cancel))
          (prepared_with p outcome)
  unfolding prepared_with
  prepared_with-Ends p (ok (some q)) = Ends-after (Keeps-gets (Quiet-Calm r) _) λ stopping.
      Ends-if (not stopping) (begin_stream-Ends p.kind p.origin p.cancel q) (
        Ends-then (fail_from-Replies r p.origin _)
          (λ _. Ends-Replies (answer_cancel-Replies r p.cancel _)) refl)
  prepared_with-Ends p (ok none) = nothing_prepared-Ends r p.origin p.cancel
  prepared_with-Ends p (err e) =
      preparation_failed-Ends r p.cancel p.origin p.intercepted p.retried e

  prepared_in-Ends :
      (g : ℕ) (outcome : RuntimeResult (Option PendingStreamRequest)) (s : TurnState)
      → Ends {W = W} r (count r (waiting s) + 0) (prepared_in g outcome s)
  unfolding prepared_in waiting
  prepared_in-Ends g outcome (preparing p) =
      Ends-if (p.generation == g)
        (Ends-eq (prepared_with-Ends p outcome)
          (omega (arith, count-append r (origin_waiters p.origin) (cancel_waiters p.cancel))))
        (holds_again (preparing p))
  prepared_in-Ends g outcome idle = holds_again idle
  prepared_in-Ends g outcome (streaming j) = holds_again (streaming j)
  prepared_in-Ends g outcome (awaiting_approval p) = holds_again (awaiting_approval p)
  prepared_in-Ends g outcome (running_script j) = holds_again (running_script j)

  pub preparation_ended-Accounts :
      (g : ℕ) (outcome : RuntimeResult (Option PendingStreamRequest))
      → Accounts {W = W} r 0 (preparation_ended g outcome)
  unfolding preparation_ended
  preparation_ended-Accounts g outcome = Accounts-take (prepared_in-Ends g outcome)
