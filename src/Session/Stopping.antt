-- ===== src/Session/Stopping.antt =====
-- How an actor of crates/kraai-runtime/src/runtime/session/actor.rs that is to stop comes to its end.
use kraai.Base.{
  ℕ, zero, suc, Bool, true, false, not, ◌&&◌, ◌||◌, List, [], ◌∷◌, ◌++◌, Option, none, some,
  if◌then◌else◌, ◌==◌, ltb, ◌+◌, length, is_empty, map, any, ◌≡◌, refl, arith, ◌∙◌, sym, ap,
  Bool-cases, inl, inr,
}
use kraai.Base.Utf8.{Bytes, bytes_eq}
use kraai.Base.Literals.{utf8}
use kraai.Base.Integers.{ℤ}
use kraai.Base.Results.{Result, ok, err}
use kraai.Session.Errors.{
  RuntimeError, RuntimeResult, invalid_argument, not_found, conflict, unavailable, internal,
  failure,
}
use kraai.Session.Runtime.{
  Runtime, ModelSelection, QueuedMessage, QueuedEntry, StreamedItem, Observed,
}
use kraai.Session.Steady.{
  Calm, Steady, Keeps, waiting, holds_script, origin_waiters, IsDecided, Keeps-bind, Keeps-pure,
  Keeps-gets, Keeps-ask, Keeps-call, Keeps-run, Keeps-event, Keeps-cancel_token, Keeps-idle,
  Keeps-take_state, Keeps-generation, Keeps-if, Keeps-when, Keeps-bind_result, Keeps-bind_option,
  Keeps-attempt, cancel_waiters,
}
use kraai.Types.Conversation.{ScriptExecutionStatus, ImageAttachment, MessageContent, images}
use kraai.Session.Scripting.{
  EffectiveScriptRequest, PendingScriptApproval, CompletedScriptExecution,
}
use kraai.Session.Messages.{
  Responder, SessionMessage, cancel, approve, deny, pending_script, snapshot, set_mcp_servers, undo,
  delete, stop, prepared, stream, stream_ended, script_ended, TurnState, idle, preparing, streaming,
  awaiting_approval, running_script, StreamJob, ScriptJob, StreamEvent, StreamDriveResult,
  CancelRequest, Preparation, spawn_script, StreamKind, PreparationOrigin, send, continue, queue,
  PendingStreamRequest, PrepareRequest, Effect, answer, Reply,
}
use kraai.Session.Actor.{
  Actor, Act, pure, gets, call, ask, run, emit, set_state, take_state, ◌>>=◌, ◌>>◌, attempt, when,
  reply, send_event, cancel_job, is_idle, generation,
}
use kraai.Session.Scripts.{
  start_prepared_script, after_script, finalize_script_turn, fail_script_turn, host_failure,
  is_cancelled, is_host_unavailable,
}
use kraai.Session.Approvals.{
  extend, take_from, take_pending_script, pending_script_info, approve_script, deny_script,
  cancel_running_in, cancel_running_script, script_ended_in, answer_all, script_ended_with,
}
use kraai.Session.Approvals
use kraai.Session.Cancel.{
  cancel_request, merge, answer_option, discard_queue, cancel_idle, cancel_turn, cancel_session,
  cancel_unsaved, cancel_saved, cancel_stream_job,
}
use kraai.Session.Deletion.{
  delete_now, defer, script_active, delete_in, delete_session, replace_servers, change_servers,
}
use kraai.Session.Prepared.{
  preparation_ended, start_stream, started_from, fail_from, nothing_started, answer_cancel,
  cancel_in, prepared_in, cancel_started, begin_stream, finish_unless_queued, nothing_prepared,
  continuation_unprepared, not_prepared, preparation_failed, prepared_with,
}
use kraai.Session.Stream.{stream_event, stream_event_in, stream_ended_in, stream_ended_with}
use kraai.Session.Stream
use kraai.Session.Run.{
  mark_stopping, cancel_child, stop_actor, take_snapshot, handle, is_preparing, has_child,
  set_published, publish_state, take_deferred, handle_next, next_deferred, run_deferred, round,
}
use kraai.Session.Steady.Turns.{
  finish_turn-Keeps, drain-Keeps, release_turn-Keeps, ensure_lease-Keeps, start_continuation-Keeps,
}
use kraai.Session.Steady.Decisions.{end_pending_script-Keeps, script_ended_with-Keeps}
use kraai.Session.Steady.Streams.{stream_event_of-Keeps, stream_ended_with-Keeps}
use kraai.Session.Submission.{
  read_images, validate_submission, enqueue, exceeds_limit, max_image_attachments, submit,
  submit_when, send_message,
}
use kraai.Session.Turn.{
  begin_preparation, drain, occupied, begin_queued, last_selection, continue_turn,
}
use kraai.Session.Lease.{finish_turn}
pub mod Exit

-- What a preparation defers.
unfoldable pub AreDeletions : List SessionMessage → Type 0
AreDeletions [] = Unit {0}
AreDeletions (delete r ∷ ms) = AreDeletions ms
AreDeletions (_ ∷ ms) = ⊥

-- The report of the child that a state waits for.
unfoldable pub IsReport : SessionMessage → TurnState → Type 0
IsReport (prepared g o) (preparing p) = p.generation ≡ g
IsReport (stream_ended g x) (streaming j) = j.generation ≡ g
IsReport (script_ended g x) (running_script j) = j.generation ≡ g
IsReport _ _ = ⊥

not_again : (i t : Bool) → (i && not t && false) ≡ false
not_again true true = refl
not_again true false = refl
not_again false t = refl

module _ {W : Type 0} where
  pub record IsStopping (a : Actor W) : Type 0 where
    pub stops : a.stopping ≡ true
    pub deletions : AreDeletions a.deferred

  pub record IsResting (a : Actor W) : Type 0 where
    pub stopping_ : IsStopping a
    pub childless : has_child a.state ≡ false

  abbrev pub Rests : Actor W → Actor W → Type 0
  Rests a b = IsResting a → IsResting b

  pub Rests-Calm : Calm Rests
  Rests-Calm = record {
    rest = λ a h. h;
    then_ = λ p q h. q (p h);
    world_ = λ a w h. record {
      stopping_ = record { stops = h.stopping_.stops; deletions = h.stopping_.deletions };
      childless = h.childless;
    };
    number = λ a g h. record {
      stopping_ = record { stops = h.stopping_.stops; deletions = h.stopping_.deletions };
      childless = h.childless;
    };
    tell = λ a e h. record {
      stopping_ = record { stops = h.stopping_.stops; deletions = h.stopping_.deletions };
      childless = h.childless;
    };
    cancels = λ a g h. record {
      stopping_ = record { stops = h.stopping_.stops; deletions = h.stopping_.deletions };
      childless = h.childless;
    };
  }

  pub Rests-in : (s : TurnState) → has_child s ≡ false → Keeps {W = W} Rests (set_state s)
  unfolding set_state
  Rests-in s e = record {
    kept = λ a h. record {
      stopping_ = record { stops = h.stopping_.stops; deletions = h.stopping_.deletions };
      childless = e;
    };
  }

  pub Keeps-then :
      {A : Type 0} {m : Act W A} (k : Act W A) (b : Bool)
      → b ≡ true
      → Keeps Rests m
      → Keeps Rests (if b then m else k)
  Keeps-then k true e p = p
  Keeps-then k false e p = absurd (cc e)

  Keeps-else :
      {A : Type 0} (m : Act W A) {k : Act W A} (b : Bool)
      → b ≡ false
      → Keeps Rests k
      → Keeps Rests (if b then m else k)
  Keeps-else m true e p = absurd (cc e)
  Keeps-else m false e p = p

  stops_at :
      {A : Type 0} (k : Bool → Act W A) (b : Bool)
      → b ≡ true
      → Keeps Rests (k true)
      → Keeps Rests (k b)
  stops_at k true e p = p
  stops_at k false e p = absurd (cc e)

  -- A method that asks whether the actor is stopping, and it is.
  pub Keeps-stopping :
      {A : Type 0} (k : Bool → Act W A)
      → Keeps Rests (k true)
      → Keeps Rests (gets (λ a. a.stopping) >>= k)
  unfolding ◌>>=◌ gets
  Keeps-stopping k p = record { kept = λ a h. (stops_at k a.stopping h.stopping_.stops p).kept a h }

  pub Rests-answer : (x : Responder) (y : Reply) → Keeps {W = W} Rests (reply x y)
  unfolding emit
  Rests-answer x y = record {
    kept = λ a h. record {
      stopping_ = record { stops = h.stopping_.stops; deletions = h.stopping_.deletions };
      childless = h.childless;
    };
  }

module _ {W : Type 0} ⦃rt : Runtime W⦄ where
  finish_turn-Rests : Keeps {W = W} Rests finish_turn
  unfolding finish_turn has_child
  finish_turn-Rests = Keeps-bind Rests-Calm (Rests-in idle refl) λ _.
      Keeps-bind Rests-Calm (Keeps-run Rests-Calm _)
        λ _. Keeps-bind Rests-Calm (Keeps-run Rests-Calm _) λ _. release_turn-Keeps Rests-Calm

  -- What would begin new work does not.
  drain-Rests : Keeps {W = W} Rests drain
  unfolding drain occupied ◌>>=◌ gets pure
  drain-Rests = record {
    kept = λ a h.
        (Keeps-then _ (a.stopping || not (is_idle a.state) || rt.is_turn_active a.world)
            (ap (λ b. b || not (is_idle a.state) || rt.is_turn_active a.world) h.stopping_.stops)
            (Keeps-pure Rests-Calm tt)).kept
          a h;
  }

  continue_turn-Rests : Keeps {W = W} Rests continue_turn
  unfolding continue_turn
  continue_turn-Rests = Keeps-stopping _ (Keeps-pure Rests-Calm tt)

  fail_script_turn-Rests : (e : RuntimeError) → Keeps {W = W} Rests (fail_script_turn e)
  unfolding fail_script_turn
  fail_script_turn-Rests e =
      Keeps-bind Rests-Calm finish_turn-Rests
        λ _. Keeps-bind Rests-Calm drain-Rests λ _. Keeps-event Rests-Calm _

  after_script-Rests :
      (c : CompletedScriptExecution) (status : ScriptExecutionStatus)
      → Keeps {W = W} Rests (after_script c status)
  unfolding after_script has_child
  after_script-Rests c status = Keeps-bind Rests-Calm (Keeps-ask Rests-Calm _) λ active.
      Keeps-bind Rests-Calm (Rests-in idle refl) λ _.
        Keeps-bind Rests-Calm (Keeps-gets Rests-Calm _) λ stopping.
          Keeps-if Rests-Calm (is_host_unavailable status) (fail_script_turn-Rests (host_failure c))
            (Keeps-if Rests-Calm (is_cancelled status || not active || stopping)
              (Keeps-bind Rests-Calm finish_turn-Rests λ _. drain-Rests) continue_turn-Rests)

  pub script_ended_with-Rests :
      (x : RuntimeResult CompletedScriptExecution) → Keeps {W = W} Rests (script_ended_with x)
  unfolding script_ended_with finalize_script_turn
  script_ended_with-Rests x =
      Keeps-bind_result Rests-Calm
        (Keeps-attempt Rests-Calm (Keeps-pure Rests-Calm _) λ c.
          Keeps-attempt Rests-Calm (Keeps-pure Rests-Calm _) λ outcome.
            Keeps-attempt Rests-Calm (Keeps-call Rests-Calm _) λ result.
              Keeps-attempt Rests-Calm (Keeps-call Rests-Calm _) λ _.
                Keeps-bind Rests-Calm (Keeps-event Rests-Calm _) λ _.
                  Keeps-bind Rests-Calm (after_script-Rests c outcome.status)
                    λ _. Keeps-pure Rests-Calm _)
        (λ _. Keeps-pure Rests-Calm tt) fail_script_turn-Rests

  pub answer_all-Rests :
      (ws : List Responder) (x : RuntimeResult Bool) → Keeps {W = W} Rests (answer_all ws x)
  unfolding answer_all
  answer_all-Rests [] x = Keeps-pure Rests-Calm tt
  answer_all-Rests (w ∷ ws) x = Keeps-bind Rests-Calm (Rests-answer w _) λ _. answer_all-Rests ws x

  fail_from-Rests : (o : PreparationOrigin) (e : RuntimeError) → Keeps {W = W} Rests (fail_from o e)
  unfolding fail_from
  fail_from-Rests (send x) e = Rests-answer x _
  fail_from-Rests continue e = Keeps-pure Rests-Calm tt
  fail_from-Rests queue e = Keeps-pure Rests-Calm tt

  answer_cancel-Rests :
      (c : Option CancelRequest) (f : CancelRequest → Bool)
      → Keeps {W = W} Rests (answer_cancel c f)
  unfolding answer_cancel
  answer_cancel-Rests none f = Keeps-pure Rests-Calm tt
  answer_cancel-Rests (some c) f = answer_all-Rests c.waiters _

  not_prepared-Rests :
      (o : PreparationOrigin) (i t : Bool) (e : RuntimeError)
      → Keeps {W = W} Rests (not_prepared o i t e)
  unfolding not_prepared continuation_unprepared
  not_prepared-Rests continue i t e = Keeps-stopping _ (
      Keeps-else _ (i && not t && false) (not_again i t) (
        Keeps-bind Rests-Calm finish_turn-Rests λ _.
          Keeps-bind Rests-Calm (Keeps-if Rests-Calm i (Keeps-pure Rests-Calm tt) drain-Rests)
            λ _. Keeps-event Rests-Calm _))
  not_prepared-Rests (send x) i t e = Keeps-bind Rests-Calm finish_turn-Rests λ _. Rests-answer x _
  not_prepared-Rests queue i t e =
      Keeps-bind Rests-Calm finish_turn-Rests λ _. Keeps-event Rests-Calm _

  finish_unless_queued-Rests :
      (o : PreparationOrigin) → Keeps {W = W} Rests (finish_unless_queued o)
  unfolding finish_unless_queued
  finish_unless_queued-Rests queue = Keeps-pure Rests-Calm tt
  finish_unless_queued-Rests continue = finish_turn-Rests
  finish_unless_queued-Rests (send x) = finish_turn-Rests

  preparation_failed-Rests :
      (c : Option CancelRequest) (o : PreparationOrigin) (i t : Bool) (e : RuntimeError)
      → Keeps {W = W} Rests (preparation_failed c o i t e)
  unfolding preparation_failed
  preparation_failed-Rests (some c) o i t e =
      Keeps-bind Rests-Calm finish_turn-Rests
        λ _. Keeps-bind Rests-Calm (fail_from-Rests o e) λ _. answer_all-Rests _ _
  preparation_failed-Rests none o i t e = not_prepared-Rests o i t e

  pub prepared_with-Rests :
      (p : Preparation) (outcome : RuntimeResult (Option PendingStreamRequest))
      → Keeps {W = W} Rests (prepared_with p outcome)
  unfolding prepared_with nothing_prepared nothing_started
  prepared_with-Rests p (ok (some q)) =
      Keeps-stopping _
        (Keeps-bind Rests-Calm (fail_from-Rests p.origin _) λ _. answer_cancel-Rests p.cancel _)
  prepared_with-Rests p (ok none) =
      Keeps-bind Rests-Calm (finish_unless_queued-Rests p.origin)
        λ _. Keeps-bind Rests-Calm (fail_from-Rests p.origin _) λ _. answer_cancel-Rests p.cancel _
  prepared_with-Rests p (err e) =
      preparation_failed-Rests p.cancel p.origin p.intercepted p.retried e
