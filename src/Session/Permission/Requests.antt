-- ===== src/Session/Permission/Requests.antt =====
-- The requests of crates/kraai-runtime/src/runtime/session/actor.rs that no child sends start no script
-- that is not permitted.
use kraai.Base.{Bool, true, false, not, ◌||◌, [], ◌∷◌, ◌≡◌, refl, ◌∙◌, Bool-cases, inl, inr}
use kraai.Base.Utf8.{Bytes, bytes_eq}
use kraai.Base.Results.{ok}
use kraai.Session.Runtime.{Runtime}
use kraai.Session.Steady.{
  Keeps, holds_script, Keeps-bind, Keeps-pure, Keeps-gets, Keeps-call, Keeps-run,
  Keeps-cancel_token, Keeps-if, Keeps-bind_result, Keeps-attempt,
}
use kraai.Session.Scripting.{PendingScriptApproval}
use kraai.Session.Messages.{
  Responder, SessionMessage, cancel, approve, deny, pending_script, snapshot, set_mcp_servers, undo,
  delete, stop, prepared, stream, stream_ended, script_ended, TurnState, idle, preparing, streaming,
  awaiting_approval, running_script, send, Reply,
}
use kraai.Session.Actor.{
  Actor, Act, pure, gets, run, emit, set_state, ◌>>=◌, ◌>>◌, attempt, reply, generation,
}
use kraai.Session.Scripts.{start_prepared_script}
use kraai.Session.Approvals.{
  extend, take_from, take_pending_script, pending_script_info, approve_script, deny_script,
  cancel_running_in, cancel_running_script, script_ended_in, answer_all, deny_pending,
  end_pending_script,
}
use kraai.Session.Approvals
use kraai.Session.Deletion.{delete_session, replace_servers, change_servers}
use kraai.Session.Prepared.{preparation_ended}
use kraai.Session.Stream.{stream_event, stream_event_in, stream_ended_in}
use kraai.Session.Stream
use kraai.Session.Run.{mark_stopping, cancel_child, stop_actor, take_snapshot, handle}
use kraai.Session.Steady.Decisions.{end_pending_script-Keeps}
use kraai.Session.Permission.{
  IsGranted, AreGranted, IsPending, IsPermitted, Permits, Permits-Calm, Permits-Steady, approves,
}
use kraai.Session.Permission.Streams.{Keeps-reply, Keeps-free}
use kraai.Session.Permission.Handlers.{
  Keeps-take, prepared_in-Permits, script_ended_in-Permits, stream_ended_in-Permits,
  stream_event_in-Permits, cancel_session-Permits,
}
use kraai.Session.Permission.Submissions.{send_message-Permits}
use kraai.Session.Permission.Deletions.{delete_in-Permits}

or_false : (b : Bool) → (b || false) ≡ b
or_false true = refl
or_false false = refl

module _ {W : Type 0} ⦃rt : Runtime W⦄ (approved : Bytes → Bool) where
  -- A script that waits was put to the user by the policy, and it starts when the user approves it.
  approve_in-Permits :
      (session id : Bytes) (s : TurnState) (a : Actor W)
      → ((x : Bytes) → bytes_eq x id ≡ true → approved x ≡ true)
      → IsPending s
      → IsPermitted approved a
      → IsPermitted approved
          (attempt
            (take_from session id s)
            (λ p. start_prepared_script p.request >> pure (ok tt))
            a).1
  unfolding attempt take_from ◌>>=◌ set_state pure start_prepared_script run generation emit
      AreGranted IsGranted IsPending
  approve_in-Permits session id (awaiting_approval p) a f h i =
      elim (Bool-cases (bytes_eq p.request.id id)) [
        | inl e ↦ rw e (record {
          granted = (inr (h, f p.request.id e), i.granted);
          pending_ = tt;
          deferred_ = i.deferred_;
        })
        | inr e ↦ rw e i
      ]
  approve_in-Permits session id idle a f h i = i
  approve_in-Permits session id (preparing p) a f h i = i
  approve_in-Permits session id (streaming j) a f h i = i
  approve_in-Permits session id (running_script j) a f h i = i

  approve_script-Permits :
      (id : Bytes)
      → ((x : Bytes) → bytes_eq x id ≡ true → approved x ≡ true)
      → Keeps {W = W} (Permits approved) (approve_script id)
  unfolding approve_script take_pending_script ◌>>=◌ gets attempt
  approve_script-Permits id f = record {
    kept = λ a i. approve_in-Permits a.session_id id a.state a f i.pending_ i;
  }

  deny_pending-Permits :
      (p : PendingScriptApproval) → Keeps {W = W} (Permits approved) (deny_pending p)
  unfolding deny_pending
  deny_pending-Permits p =
      Keeps-bind (Permits-Calm approved) (Keeps-run (Permits-Calm approved) _)
        λ _. end_pending_script-Keeps (Permits-Steady approved) p _ _

  take_from-Permits :
      (session id : Bytes) (s : TurnState)
      → Keeps {W = W} (Permits approved) (take_from session id s)
  unfolding take_from holds_script
  take_from-Permits session id (awaiting_approval p) =
      Keeps-if (Permits-Calm approved) (bytes_eq p.request.id id)
        (Keeps-bind (Permits-Calm approved) (Keeps-free approved idle refl)
          λ _. Keeps-pure (Permits-Calm approved) _)
        (Keeps-pure (Permits-Calm approved) _)
  take_from-Permits session id idle = Keeps-pure (Permits-Calm approved) _
  take_from-Permits session id (preparing p) = Keeps-pure (Permits-Calm approved) _
  take_from-Permits session id (streaming j) = Keeps-pure (Permits-Calm approved) _
  take_from-Permits session id (running_script j) = Keeps-pure (Permits-Calm approved) _

  change_servers-Permits : (c : Bytes) → Keeps {W = W} (Permits approved) (change_servers c)
  unfolding change_servers replace_servers
  change_servers-Permits c =
      Keeps-bind (Permits-Calm approved) (Keeps-gets (Permits-Calm approved) _) λ idling.
        Keeps-if (Permits-Calm approved) (not idling) (Keeps-pure (Permits-Calm approved) _) (
          Keeps-attempt (Permits-Calm approved) (Keeps-call (Permits-Calm approved) _) λ waiting.
            Keeps-if (Permits-Calm approved) waiting (Keeps-pure (Permits-Calm approved) _) (
              Keeps-attempt (Permits-Calm approved) (Keeps-call (Permits-Calm approved) _)
                λ previous.
                  Keeps-bind (Permits-Calm approved)
                    (Keeps-if (Permits-Calm approved) previous (Keeps-run (Permits-Calm approved) _)
                      (Keeps-pure (Permits-Calm approved) tt))
                    λ _. Keeps-pure (Permits-Calm approved) _))

  cancel_child-Permits : (s : TurnState) → Keeps {W = W} (Permits approved) (cancel_child s)
  unfolding cancel_child
  cancel_child-Permits (streaming j) = Keeps-cancel_token (Permits-Calm approved) _
  cancel_child-Permits (running_script j) = Keeps-cancel_token (Permits-Calm approved) _
  cancel_child-Permits idle = Keeps-pure (Permits-Calm approved) tt
  cancel_child-Permits (preparing p) = Keeps-pure (Permits-Calm approved) tt
  cancel_child-Permits (awaiting_approval p) = Keeps-pure (Permits-Calm approved) tt

  mark_stopping-Permits : (x : Responder) → Keeps {W = W} (Permits approved) (mark_stopping x)
  unfolding mark_stopping
  mark_stopping-Permits x = record {
    kept = λ a i. record { granted = i.granted; pending_ = i.pending_; deferred_ = i.deferred_ };
  }

  take_snapshot-Permits : (x : Responder) → Keeps {W = W} (Permits approved) (take_snapshot x)
  unfolding take_snapshot pending_script_info
  take_snapshot-Permits x =
      Keeps-bind_result (Permits-Calm approved) (Keeps-call (Permits-Calm approved) _)
        (λ seen. Keeps-bind (Permits-Calm approved) (Keeps-gets (Permits-Calm approved) _) λ info.
          Keeps-bind (Permits-Calm approved) (Keeps-gets (Permits-Calm approved) _)
            λ s. Keeps-reply approved x _)
        (λ e. Keeps-reply approved x _)

  answering :
      {A : Type 0} {m : Act W A} (x : Responder) (f : A → Reply)
      → Keeps (Permits approved) m
      → Keeps (Permits approved) (m >>= λ y. reply x (f y) >> pure false)
  answering x f p = Keeps-bind (Permits-Calm approved) p λ y.
      Keeps-bind (Permits-Calm approved) (Keeps-reply approved x (f y))
        λ _. Keeps-pure (Permits-Calm approved) false

  silent :
      {m : Act W (Unit {0})}
      → Keeps (Permits approved) m
      → Keeps (Permits approved) (m >> pure false)
  silent p = Keeps-bind (Permits-Calm approved) p λ _. Keeps-pure (Permits-Calm approved) false

  -- A message starts no script that is not granted, if what it approves is approved.
  pub handle-Permits :
      (m : SessionMessage)
      → ((x : Bytes) → approves (m ∷ []) x ≡ true → approved x ≡ true)
      → Keeps {W = W} (Permits approved) (handle m)
  unfolding handle approves Stream.stream_ended Approvals.script_ended preparation_ended
      stream_event delete_session stop_actor deny_script take_pending_script pending_script_info
  handle-Permits (approve id x) f =
      answering x _ (approve_script-Permits id (λ y e. f y (or_false (bytes_eq y id) ∙ e)))
  handle-Permits (send m q x) f = silent (send_message-Permits approved m q x)
  handle-Permits (cancel d l o) f = silent (cancel_session-Permits approved d l o)
  handle-Permits (deny id x) f = answering x _ (
      Keeps-attempt (Permits-Calm approved)
        (Keeps-bind (Permits-Calm approved) (Keeps-gets (Permits-Calm approved) _)
          λ a. take_from-Permits a.session_id id a.state)
        deny_pending-Permits)
  handle-Permits (pending_script x) f = answering x _ (Keeps-gets (Permits-Calm approved) _)
  handle-Permits (snapshot x) f = silent (take_snapshot-Permits x)
  handle-Permits (set_mcp_servers c x) f = answering x _ (change_servers-Permits c)
  handle-Permits (undo x) f = answering x _ (Keeps-call (Permits-Calm approved) _)
  handle-Permits (delete x) f = Keeps-take approved (delete_in-Permits approved x)
  handle-Permits (stop x) f = silent (
      Keeps-bind (Permits-Calm approved) (mark_stopping-Permits x) λ _.
        Keeps-bind (Permits-Calm approved) (Keeps-gets (Permits-Calm approved) _)
          cancel_child-Permits)
  handle-Permits (prepared g o) f = silent (Keeps-take approved (prepared_in-Permits approved g o))
  handle-Permits (stream g e) f = silent (
      Keeps-bind (Permits-Calm approved) (Keeps-gets (Permits-Calm approved) _)
        (stream_event_in-Permits approved g e))
  handle-Permits (stream_ended g x) f =
      silent (Keeps-take approved (stream_ended_in-Permits approved g x))
  handle-Permits (script_ended g x) f =
      silent (Keeps-take approved (script_ended_in-Permits approved g x))
