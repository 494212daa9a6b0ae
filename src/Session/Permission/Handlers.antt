-- ===== src/Session/Permission/Handlers.antt =====
-- No message of crates/kraai-runtime/src/runtime/session/actor.rs starts a script that is not
-- permitted.
use kraai.Base.{ℕ, Bool, not, ◌||◌, Option, none, some, ◌==◌, refl}
use kraai.Base.Utf8.{Bytes}
use kraai.Base.Integers.{ℤ}
use kraai.Session.Errors.{RuntimeResult}
use kraai.Session.Runtime.{Runtime}
use kraai.Session.Steady.{
  Keeps, holds_script, Keeps-bind, Keeps-pure, Keeps-gets, Keeps-ask, Keeps-call, Keeps-run,
  Keeps-cancel_token, Keeps-take_state, Keeps-if, Keeps-bind_result, Keeps-attempt,
}
use kraai.Session.Scripting.{CompletedScriptExecution}
use kraai.Session.Messages.{
  Responder, TurnState, idle, preparing, streaming, awaiting_approval, running_script, ScriptJob,
  StreamEvent, StreamDriveResult, PendingStreamRequest,
}
use kraai.Session.Actor.{Actor, Act, set_state, take_state, ◌>>=◌}
use kraai.Session.Approvals.{cancel_running_in, cancel_running_script, script_ended_in}
use kraai.Session.Cancel.{answer_option, discard_queue, cancel_idle, cancel_turn, cancel_session}
use kraai.Session.Stream.{stream_event_in, stream_ended_in}
use kraai.Session.Steady.Turns.{finish_turn-Keeps, drain-Keeps}
use kraai.Session.Steady.Decisions.{end_pending_script-Keeps, script_ended_with-Keeps}
use kraai.Session.Steady.Streams.{stream_event_of-Keeps, stream_ended_with-Keeps}
use kraai.Session.Permission.{IsPending, Permits, Permits-Calm, Permits-Steady}
use kraai.Session.Prepared.{prepared_in}
use kraai.Session.Permission.Streams.{
  Keeps-reply, Keeps-free, answer_all-Permits, cancel_stream_job-Permits, prepared_with-Permits,
}

module _ {W : Type 0} ⦃rt : Runtime W⦄ (approved : Bytes → Bool) where
  -- The same, of a method that runs after a state has been taken.
  pub record KeepsFrom {A : Type 0} (s : TurnState) (m : Act W A) : Type 0 where
    pub kept_from : (a : Actor W) → IsPending s → Permits approved a (m a).1

  pub from_Keeps :
      {A : Type 0} {s : TurnState} {m : Act W A} → Keeps (Permits approved) m → KeepsFrom s m
  from_Keeps p = record { kept_from = λ a h. p.kept a }

  pub put_back : (s : TurnState) → KeepsFrom s (set_state s)
  unfolding set_state
  put_back s = record {
    kept_from = λ a h i. record { granted = i.granted; pending_ = h; deferred_ = i.deferred_ };
  }

  pub from_bind :
      {A B : Type 0} {s : TurnState} {m : Act W A} {k : A → Act W B}
      → KeepsFrom s m
      → ((x : A) → Keeps (Permits approved) (k x))
      → KeepsFrom s (m >>= k)
  unfolding ◌>>=◌
  from_bind {A} {B} {s} {m} {k} p q = record {
    kept_from = λ a h i. (q (m a).0).kept (m a).1 (p.kept_from a h i);
  }

  pub Keeps-take :
      {A : Type 0} {f : TurnState → Act W A}
      → ((s : TurnState) → KeepsFrom s (f s))
      → Keeps (Permits approved) (take_state >>= f)
  unfolding ◌>>=◌ take_state IsPending
  Keeps-take q = record {
    kept = λ a i.
        (q a.state).kept_from (record a { state = idle }) i.pending_
          (record { granted = i.granted; pending_ = tt; deferred_ = i.deferred_ });
  }

  pub Keeps-running :
      (j : ScriptJob) → Keeps {W = W} (Permits approved) (set_state (running_script j))
  unfolding set_state IsPending
  Keeps-running j = record {
    kept = λ a i. record { granted = i.granted; pending_ = tt; deferred_ = i.deferred_ };
  }

  pub prepared_in-Permits :
      (g : ℕ) (outcome : RuntimeResult (Option PendingStreamRequest)) (s : TurnState)
      → KeepsFrom s (prepared_in g outcome s)
  unfolding prepared_in holds_script
  prepared_in-Permits g outcome (preparing p) = from_Keeps (
      Keeps-if (Permits-Calm approved) (p.generation == g)
        (prepared_with-Permits approved p outcome) (Keeps-free approved (preparing p) refl))
  prepared_in-Permits g outcome idle = put_back idle
  prepared_in-Permits g outcome (streaming j) = put_back (streaming j)
  prepared_in-Permits g outcome (awaiting_approval p) = put_back (awaiting_approval p)
  prepared_in-Permits g outcome (running_script j) = put_back (running_script j)

  pub script_ended_in-Permits :
      (g : ℕ) (x : RuntimeResult CompletedScriptExecution) (s : TurnState)
      → KeepsFrom s (script_ended_in g x s)
  unfolding script_ended_in
  script_ended_in-Permits g x (running_script j) = from_Keeps (
      Keeps-if (Permits-Calm approved) (j.generation == g)
        (Keeps-bind (Permits-Calm approved) (script_ended_with-Keeps (Permits-Steady approved) x)
          λ _. answer_all-Permits approved _ _)
        (Keeps-running j))
  script_ended_in-Permits g x idle = put_back idle
  script_ended_in-Permits g x (streaming j) = put_back (streaming j)
  script_ended_in-Permits g x (awaiting_approval p) = put_back (awaiting_approval p)
  script_ended_in-Permits g x (preparing p) = put_back (preparing p)

  pub stream_ended_in-Permits :
      (g : ℕ) (x : StreamDriveResult) (s : TurnState) → KeepsFrom s (stream_ended_in g x s)
  unfolding stream_ended_in holds_script
  stream_ended_in-Permits g x (streaming j) = from_Keeps (
      Keeps-if (Permits-Calm approved) (j.generation == g)
        (Keeps-bind (Permits-Calm approved) (Keeps-gets (Permits-Calm approved) _) λ stopping.
          Keeps-if (Permits-Calm approved) stopping (Keeps-pure (Permits-Calm approved) tt)
            (stream_ended_with-Keeps (Permits-Steady approved) j.kind j.message_id x))
        (Keeps-free approved (streaming j) refl))
  stream_ended_in-Permits g x idle = put_back idle
  stream_ended_in-Permits g x (preparing p) = put_back (preparing p)
  stream_ended_in-Permits g x (awaiting_approval p) = put_back (awaiting_approval p)
  stream_ended_in-Permits g x (running_script j) = put_back (running_script j)

  pub stream_event_in-Permits :
      (g : ℕ) (e : StreamEvent) (s : TurnState)
      → Keeps {W = W} (Permits approved) (stream_event_in g e s)
  unfolding stream_event_in
  stream_event_in-Permits g e (streaming j) =
      Keeps-if (Permits-Calm approved) (j.generation == g)
        (stream_event_of-Keeps (Permits-Steady approved) j e)
        (Keeps-pure (Permits-Calm approved) tt)
  stream_event_in-Permits g e idle = Keeps-pure (Permits-Calm approved) tt
  stream_event_in-Permits g e (preparing p) = Keeps-pure (Permits-Calm approved) tt
  stream_event_in-Permits g e (awaiting_approval p) = Keeps-pure (Permits-Calm approved) tt
  stream_event_in-Permits g e (running_script j) = Keeps-pure (Permits-Calm approved) tt

  -- A cancellation.
  answer_option-Permits :
      (o : Option Responder) (x : RuntimeResult Bool)
      → Keeps {W = W} (Permits approved) (answer_option o x)
  unfolding answer_option
  answer_option-Permits none x = Keeps-pure (Permits-Calm approved) tt
  answer_option-Permits (some y) x = Keeps-reply approved y _

  cancel_running_in-Permits :
      (o : Option Responder) (s : TurnState)
      → Keeps {W = W} (Permits approved) (cancel_running_in o s)
  unfolding cancel_running_in
  cancel_running_in-Permits o (running_script j) =
      Keeps-bind (Permits-Calm approved) (Keeps-cancel_token (Permits-Calm approved) _) λ _.
        Keeps-bind (Permits-Calm approved) (Keeps-run (Permits-Calm approved) _)
          λ _. Keeps-running _
  cancel_running_in-Permits o idle = Keeps-pure (Permits-Calm approved) tt
  cancel_running_in-Permits o (preparing p) = Keeps-pure (Permits-Calm approved) tt
  cancel_running_in-Permits o (streaming j) = Keeps-pure (Permits-Calm approved) tt
  cancel_running_in-Permits o (awaiting_approval p) = Keeps-pure (Permits-Calm approved) tt

  cancel_turn-Permits :
      (d : Bool) (o : Option Responder) (s : TurnState)
      → Keeps {W = W} (Permits approved) (cancel_turn d o s)
  unfolding cancel_turn cancel_idle cancel_running_script holds_script
  cancel_turn-Permits d o (awaiting_approval p) =
      Keeps-bind_result (Permits-Calm approved)
        (end_pending_script-Keeps (Permits-Steady approved) p _ _) (λ _. answer_option-Permits o _)
        (λ e. answer_option-Permits o _)
  cancel_turn-Permits d o (running_script j) =
      Keeps-bind (Permits-Calm approved) (Keeps-running j) λ _.
        Keeps-bind (Permits-Calm approved) (Keeps-gets (Permits-Calm approved) _)
          λ s. cancel_running_in-Permits o s
  cancel_turn-Permits d o (preparing p) = Keeps-free approved _ refl
  cancel_turn-Permits d o (streaming j) = cancel_stream_job-Permits approved j _
  cancel_turn-Permits d o idle =
      Keeps-bind (Permits-Calm approved) (Keeps-ask (Permits-Calm approved) _) λ active.
        Keeps-bind (Permits-Calm approved)
          (Keeps-if (Permits-Calm approved) (active || d)
            (Keeps-bind (Permits-Calm approved) (finish_turn-Keeps (Permits-Steady approved))
              λ _. drain-Keeps (Permits-Steady approved))
            (Keeps-pure (Permits-Calm approved) tt))
          λ _. answer_option-Permits o _

  discard_queue-Permits : (d : Bool) → Keeps {W = W} (Permits approved) (discard_queue d)
  unfolding discard_queue
  discard_queue-Permits d =
      Keeps-if (Permits-Calm approved) (not d) (Keeps-pure (Permits-Calm approved) _) (
        Keeps-attempt (Permits-Calm approved) (Keeps-call (Permits-Calm approved) _) λ owned.
          Keeps-if (Permits-Calm approved) owned (Keeps-call (Permits-Calm approved) _)
            (Keeps-pure (Permits-Calm approved) _))

  pub cancel_session-Permits :
      (d : Bool) (l : Option ℤ) (o : Option Responder)
      → Keeps {W = W} (Permits approved) (cancel_session d l o)
  unfolding cancel_session
  cancel_session-Permits d l o =
      Keeps-bind (Permits-Calm approved) (Keeps-ask (Permits-Calm approved) _) λ gone.
        Keeps-if (Permits-Calm approved) gone (answer_option-Permits o _) (
          Keeps-bind_result (Permits-Calm approved) (discard_queue-Permits d)
            (λ x.
              Keeps-bind (Permits-Calm approved) (Keeps-take_state (Permits-Steady approved))
                (cancel_turn-Permits x o))
            (λ e. answer_option-Permits o _))
