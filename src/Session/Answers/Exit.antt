-- ===== src/Session/Answers/Exit.antt =====
-- Whom the loop of crates/kraai-runtime/src/runtime/session/actor.rs has answered when it ends.
use kraai.Base.{ℕ, true, false, List, [], ◌∷◌, none, some, ◌+◌, ◌≡◌, refl, arith, ◌∙◌, ap}
use kraai.Session.Runtime.{Runtime}
use kraai.Session.Steady.{
  Calm, Keeps, waiting, Keeps-bind, Keeps-pure, Keeps-gets, Keeps-call, Keeps-run, Keeps-event,
  Keeps-if, Keeps-bind_result,
}
use kraai.Session.Answers.{count, brings, brought, answered, responders, settled, held}
use kraai.Session.Answers.Judgements.{Untouched, Untouched-Calm}
use kraai.Session.Messages.{
  Responder, SessionMessage, send, cancel, approve, deny, pending_script, snapshot, set_mcp_servers,
  undo, delete, stop, prepared, stream, stream_ended, script_ended, TurnState, idle, preparing,
  streaming, awaiting_approval, running_script, cancel_token, answer, Reply,
}
use kraai.Session.Actor.{Actor, pure, gets, run, emit, set_state, take_state, ◌>>=◌}
use kraai.Session.Deletion.{delete_now, defer, script_active, delete_in, delete_session}
use kraai.Session.Run.{
  handle, reject, reject_all, answer_stopped, forget_waiting, set_published, publish_state, close,
}
use kraai.Session.Steady.Turns.{release_turn-Keeps}

-- What leaves the state of the turn alone.
abbrev SameState : {W : Type 0} → Actor W → Actor W → Type 0
SameState a b = b.state ≡ a.state

SameState-Calm : {W : Type 0} → Calm {W = W} SameState
SameState-Calm = record {
  rest = λ a. refl;
  then_ = λ p q. q ∙ p;
  world_ = λ a w. refl;
  number = λ a g. refl;
  tell = λ a e. refl;
  cancels = λ a g. refl;
}

module _ {W : Type 0} ⦃rt : Runtime W⦄ where
  delete_now-Keeps : (x : Responder) → Keeps {W = W} SameState (delete_now x)
  unfolding delete_now emit
  delete_now-Keeps x = Keeps-bind SameState-Calm (Keeps-run SameState-Calm _) λ _.
      Keeps-bind_result SameState-Calm (Keeps-call SameState-Calm _)
        (λ _. Keeps-bind SameState-Calm (release_turn-Keeps SameState-Calm) λ _.
          Keeps-bind SameState-Calm (Keeps-run SameState-Calm _) λ _.
            Keeps-bind SameState-Calm (Keeps-run SameState-Calm _) λ _.
              Keeps-bind SameState-Calm (Keeps-run SameState-Calm _) λ _.
                Keeps-bind SameState-Calm (record { kept = λ a. refl })
                  λ _. Keeps-pure SameState-Calm true)
        (λ e.
          Keeps-bind SameState-Calm (record { kept = λ a. refl })
            λ _. Keeps-pure SameState-Calm false)

  -- The actor exits at a deletion only once the turn is idle.
  delete_in-idle :
      (x : Responder) (s : TurnState) (a : Actor W)
      → a.state ≡ idle
      → (delete_in x s a).0 ≡ true
      → (delete_in x s a).1.state ≡ idle
  unfolding delete_in ◌>>=◌ set_state script_active defer pure gets emit
  delete_in-idle x (running_script j) a i e = absurd (cc e)
  delete_in-idle x (awaiting_approval p) a i e = absurd (cc e)
  delete_in-idle x (preparing p) a i e = absurd (cc e)
  delete_in-idle x (streaming j) a i e =
      (delete_now-Keeps x).kept (emit (cancel_token j.generation) a).1 ∙ i
  delete_in-idle x idle a i e = (delete_now-Keeps x).kept a ∙ i

  pub handle-idle :
      (m : SessionMessage) (a : Actor W) → (handle m a).0 ≡ true → (handle m a).1.state ≡ idle
  unfolding handle delete_session ◌>>=◌ pure take_state
  handle-idle (delete x) a e = delete_in-idle x a.state (record a { state = idle }) refl e
  handle-idle (send m q x) a e = absurd (cc e)
  handle-idle (cancel d l o) a e = absurd (cc e)
  handle-idle (approve id x) a e = absurd (cc e)
  handle-idle (deny id x) a e = absurd (cc e)
  handle-idle (pending_script x) a e = absurd (cc e)
  handle-idle (snapshot x) a e = absurd (cc e)
  handle-idle (set_mcp_servers c x) a e = absurd (cc e)
  handle-idle (undo x) a e = absurd (cc e)
  handle-idle (stop x) a e = absurd (cc e)
  handle-idle (prepared g o) a e = absurd (cc e)
  handle-idle (stream g o) a e = absurd (cc e)
  handle-idle (stream_ended g o) a e = absurd (cc e)
  handle-idle (script_ended g o) a e = absurd (cc e)

module _ {W : Type 0} ⦃rt : Runtime W⦄ (r : ℕ) where
  pub idle-held : (a : Actor W) → a.state ≡ idle → held r a ≡ 0
  unfolding held waiting count
  idle-held a e = ap (λ s. count r (waiting s)) e

  pub publish_state-Keeps : Keeps {W = W} (Untouched r) publish_state
  unfolding publish_state set_published settled
  publish_state-Keeps = Keeps-bind (Untouched-Calm r) (Keeps-gets (Untouched-Calm r) _) λ activity.
      Keeps-bind (Untouched-Calm r) (Keeps-run (Untouched-Calm r) _) λ _.
        Keeps-bind (Untouched-Calm r) (Keeps-gets (Untouched-Calm r) _) λ a.
          Keeps-if (Untouched-Calm r) _ (Keeps-pure (Untouched-Calm r) tt) (
            Keeps-bind (Untouched-Calm r) (record { kept = λ b. (refl, refl) })
              λ _. Keeps-event (Untouched-Calm r) _)

  -- Answers go to the log, and nothing else changes.
  reject-answered :
      (m : SessionMessage) (a : Actor W)
      → answered r (reject m a).1.log ≡ brings r m + answered r a.log
  unfolding reject emit pure answered brings responders count
  reject-answered (send m q x) a = omega arith
  reject-answered (cancel d l none) a = omega arith
  reject-answered (cancel d l (some x)) a = omega arith
  reject-answered (approve id x) a = omega arith
  reject-answered (deny id x) a = omega arith
  reject-answered (pending_script x) a = omega arith
  reject-answered (snapshot x) a = omega arith
  reject-answered (set_mcp_servers c x) a = omega arith
  reject-answered (undo x) a = omega arith
  reject-answered (delete x) a = omega arith
  reject-answered (stop x) a = omega arith
  reject-answered (prepared g o) a = omega arith
  reject-answered (stream g o) a = omega arith
  reject-answered (stream_ended g o) a = omega arith
  reject-answered (script_ended g o) a = omega arith

  reject_all-answered :
      (ms : List SessionMessage) (a : Actor W)
      → answered r (reject_all ms a).1.log ≡ brought r ms + answered r a.log
  unfolding reject_all pure ◌>>=◌ brought
  reject_all-answered [] a = omega arith
  reject_all-answered (m ∷ ms) a =
      omega (arith, reject-answered m a, reject_all-answered ms (reject m a).1)

  answer_stopped-answered :
      (ws : List Responder) (a : Actor W)
      → answered r (answer_stopped ws a).1.log ≡ count r ws + answered r a.log
  unfolding answer_stopped emit pure ◌>>=◌ count answered
  answer_stopped-answered [] a = omega arith
  answer_stopped-answered (w ∷ ws) a =
      omega (arith, answer_stopped-answered ws (emit (answer w Reply.stopped) a).1)

  pub close-answered :
      (ms : List SessionMessage) (a : Actor W)
      → answered r (close ms a).1.log ≡ brought r ms + settled r a
  unfolding close ◌>>=◌ gets forget_waiting run settled
  close-answered ms a =
      let b : Actor W = (answer_stopped a.stopped a).1 in
      let c : Actor W = (reject_all a.deferred b).1 in
      omega (
        arith,
        answer_stopped-answered a.stopped a,
        reject_all-answered a.deferred b,
        reject_all-answered ms (run rt.remove_actor (forget_waiting c).1).1,
      )
