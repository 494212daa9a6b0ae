-- ===== src/Session/Permission/Streams.antt =====
-- Preparations, streams and their cancellation in crates/kraai-runtime/src/runtime/session start no
-- script that is not permitted.
use kraai.Base.{Bool, false, not, List, [], ◌∷◌, Option, none, some, ◌≡◌, refl}
use kraai.Base.Utf8.{Bytes}
use kraai.Base.Results.{ok, err}
use kraai.Session.Errors.{RuntimeError, RuntimeResult}
use kraai.Session.Runtime.{Runtime}
use kraai.Session.Steady.{
  Keeps, holds_script, Keeps-bind, Keeps-pure, Keeps-gets, Keeps-call, Keeps-run, Keeps-event,
  Keeps-cancel_token, Keeps-take_state, Keeps-if, Keeps-bind_result,
}
use kraai.Session.Messages.{
  Responder, TurnState, idle, preparing, streaming, awaiting_approval, running_script, StreamJob,
  CancelRequest, Preparation, PreparationOrigin, send, continue, queue, PendingStreamRequest, Reply,
}
use kraai.Session.Actor.{emit, set_state, ◌>>◌, reply}
use kraai.Session.Steady.Turns.{finish_turn-Keeps, drain-Keeps}
use kraai.Session.Permission.{AreGranted, Permits, Permits-Calm, Permits-Steady, IsPending-free}
use kraai.Session.Prepared.{
  started_from, fail_from, nothing_started, answer_cancel, cancel_in, cancel_started, begin_stream,
  nothing_prepared, not_prepared, preparation_failed, prepared_with,
}
use kraai.Session.Approvals.{answer_all}
use kraai.Session.Cancel.{cancel_unsaved, cancel_saved, cancel_stream_job}
use kraai.Session.Steady.Preparations.{
  start_stream-Keeps, finish_unless_queued-Keeps, continuation_unprepared-Keeps,
}

module _ {W : Type 0} ⦃rt : Runtime W⦄ (approved : Bytes → Bool) where
  pub Keeps-reply : (x : Responder) (y : Reply) → Keeps {W = W} (Permits approved) (reply x y)
  unfolding emit AreGranted
  Keeps-reply x y = record {
    kept = λ a h. record { granted = h.granted; pending_ = h.pending_; deferred_ = h.deferred_ };
  }

  pub Keeps-free :
      (s : TurnState) → holds_script s ≡ false → Keeps {W = W} (Permits approved) (set_state s)
  unfolding set_state
  Keeps-free s n = record {
    kept = λ a h. record {
      granted = h.granted;
      pending_ = IsPending-free s n;
      deferred_ = h.deferred_;
    };
  }

  pub answer_all-Permits :
      (ws : List Responder) (x : RuntimeResult Bool)
      → Keeps {W = W} (Permits approved) (answer_all ws x)
  unfolding answer_all
  answer_all-Permits [] x = Keeps-pure (Permits-Calm approved) tt
  answer_all-Permits (w ∷ ws) x =
      Keeps-bind (Permits-Calm approved) (Keeps-reply w _) λ _. answer_all-Permits ws x

  cancel_unsaved-Permits :
      (j : StreamJob) (c : CancelRequest) (e : RuntimeError)
      → Keeps {W = W} (Permits approved) (cancel_unsaved j c e)
  unfolding cancel_unsaved holds_script
  cancel_unsaved-Permits j c e =
      Keeps-bind_result (Permits-Calm approved) (Keeps-call (Permits-Calm approved) _)
        (λ o. Keeps-if (Permits-Calm approved) o still (
          Keeps-bind (Permits-Calm approved) (Keeps-cancel_token (Permits-Calm approved) _) λ _.
            Keeps-bind (Permits-Calm approved) (Keeps-run (Permits-Calm approved) _) λ _.
              Keeps-bind (Permits-Calm approved) (finish_turn-Keeps (Permits-Steady approved)) λ _.
                Keeps-bind (Permits-Calm approved) (Keeps-event (Permits-Calm approved) _)
                  λ _. answer_all-Permits _ _))
        (λ _. still)
    where
      still :
          Keeps {W = W} (Permits approved) (set_state (streaming j) >> answer_all c.waiters (err e))
      still =
          Keeps-bind (Permits-Calm approved) (Keeps-free (streaming j) refl)
            λ _. answer_all-Permits _ _

  cancel_saved-Permits :
      (j : StreamJob) (c : CancelRequest) (m : Option Bytes)
      → Keeps {W = W} (Permits approved) (cancel_saved j c m)
  unfolding cancel_saved
  cancel_saved-Permits j c none =
      Keeps-bind (Permits-Calm approved) (Keeps-cancel_token (Permits-Calm approved) _) λ _.
        Keeps-bind (Permits-Calm approved) (finish_turn-Keeps (Permits-Steady approved))
          λ _. answer_all-Permits _ _
  cancel_saved-Permits j c (some m) =
      Keeps-bind (Permits-Calm approved) (Keeps-cancel_token (Permits-Calm approved) _) λ _.
        Keeps-bind (Permits-Calm approved) (Keeps-run (Permits-Calm approved) _) λ _.
          Keeps-bind (Permits-Calm approved) (finish_turn-Keeps (Permits-Steady approved)) λ _.
            Keeps-bind (Permits-Calm approved) (Keeps-event (Permits-Calm approved) _) λ _.
              Keeps-bind (Permits-Calm approved) (drain-Keeps (Permits-Steady approved))
                λ _. answer_all-Permits _ _

  pub cancel_stream_job-Permits :
      (j : StreamJob) (c : CancelRequest) → Keeps {W = W} (Permits approved) (cancel_stream_job j c)
  unfolding cancel_stream_job
  cancel_stream_job-Permits j c =
      Keeps-bind_result (Permits-Calm approved) (Keeps-call (Permits-Calm approved) _)
        (λ saved. cancel_saved-Permits j c saved) (λ e. cancel_unsaved-Permits j c e)

  cancel_in-Permits :
      (c : CancelRequest) (s : TurnState) → Keeps {W = W} (Permits approved) (cancel_in c s)
  unfolding cancel_in
  cancel_in-Permits c (streaming j) = cancel_stream_job-Permits j c
  cancel_in-Permits c idle = Keeps-pure (Permits-Calm approved) tt
  cancel_in-Permits c (preparing p) = Keeps-pure (Permits-Calm approved) tt
  cancel_in-Permits c (awaiting_approval p) = Keeps-pure (Permits-Calm approved) tt
  cancel_in-Permits c (running_script j) = Keeps-pure (Permits-Calm approved) tt

  cancel_started-Permits :
      (c : Option CancelRequest) → Keeps {W = W} (Permits approved) (cancel_started c)
  unfolding cancel_started
  cancel_started-Permits none = Keeps-pure (Permits-Calm approved) tt
  cancel_started-Permits (some c) =
      Keeps-bind (Permits-Calm approved) (Keeps-take_state (Permits-Steady approved))
        (cancel_in-Permits c)

  fail_from-Permits :
      (o : PreparationOrigin) (e : RuntimeError) → Keeps {W = W} (Permits approved) (fail_from o e)
  unfolding fail_from
  fail_from-Permits (send x) e = Keeps-reply x _
  fail_from-Permits continue e = Keeps-pure (Permits-Calm approved) tt
  fail_from-Permits queue e = Keeps-pure (Permits-Calm approved) tt

  started_from-Permits :
      (o : PreparationOrigin) (m : Bytes) → Keeps {W = W} (Permits approved) (started_from o m)
  unfolding started_from
  started_from-Permits (send x) m = Keeps-reply x _
  started_from-Permits continue m = Keeps-pure (Permits-Calm approved) tt
  started_from-Permits queue m = Keeps-pure (Permits-Calm approved) tt

  answer_cancel-Permits :
      (c : Option CancelRequest) (f : CancelRequest → Bool)
      → Keeps {W = W} (Permits approved) (answer_cancel c f)
  unfolding answer_cancel
  answer_cancel-Permits none f = Keeps-pure (Permits-Calm approved) tt
  answer_cancel-Permits (some c) f = answer_all-Permits c.waiters _

  not_prepared-Permits :
      (o : PreparationOrigin) (i t : Bool) (e : RuntimeError)
      → Keeps {W = W} (Permits approved) (not_prepared o i t e)
  unfolding not_prepared
  not_prepared-Permits continue i t e =
      continuation_unprepared-Keeps (Permits-Steady approved) i t e
  not_prepared-Permits (send x) i t e =
      Keeps-bind (Permits-Calm approved) (finish_turn-Keeps (Permits-Steady approved))
        λ _. Keeps-reply x _
  not_prepared-Permits queue i t e =
      Keeps-bind (Permits-Calm approved) (finish_turn-Keeps (Permits-Steady approved))
        λ _. Keeps-event (Permits-Calm approved) _

  preparation_failed-Permits :
      (c : Option CancelRequest) (o : PreparationOrigin) (i t : Bool) (e : RuntimeError)
      → Keeps {W = W} (Permits approved) (preparation_failed c o i t e)
  unfolding preparation_failed
  preparation_failed-Permits (some c) o i t e =
      Keeps-bind (Permits-Calm approved) (finish_turn-Keeps (Permits-Steady approved))
        λ _. Keeps-bind (Permits-Calm approved) (fail_from-Permits o e) λ _. answer_all-Permits _ _
  preparation_failed-Permits none o i t e = not_prepared-Permits o i t e

  pub prepared_with-Permits :
      (p : Preparation) (outcome : RuntimeResult (Option PendingStreamRequest))
      → Keeps {W = W} (Permits approved) (prepared_with p outcome)
  unfolding prepared_with begin_stream nothing_prepared nothing_started
  prepared_with-Permits p (ok (some q)) =
      Keeps-bind (Permits-Calm approved) (Keeps-gets (Permits-Calm approved) _) λ stopping.
        Keeps-if (Permits-Calm approved) (not stopping)
          (Keeps-bind (Permits-Calm approved)
            (start_stream-Keeps (Permits-Steady approved) p.kind q)
            λ _.
              Keeps-bind (Permits-Calm approved) (started_from-Permits p.origin _)
                λ _. cancel_started-Permits p.cancel)
          (Keeps-bind (Permits-Calm approved) (fail_from-Permits p.origin _)
            λ _. answer_cancel-Permits p.cancel _)
  prepared_with-Permits p (ok none) =
      Keeps-bind (Permits-Calm approved)
        (finish_unless_queued-Keeps (Permits-Steady approved) p.origin)
        λ _.
          Keeps-bind (Permits-Calm approved) (fail_from-Permits p.origin _)
            λ _. answer_cancel-Permits p.cancel _
  prepared_with-Permits p (err e) =
      preparation_failed-Permits p.cancel p.origin p.intercepted p.retried e
