-- ===== src/Session/Stopping/Exit.antt =====
-- An actor of crates/kraai-runtime/src/runtime/session/actor.rs that is to stop exits when its child
-- has reported.
use kraai.Session.Deferred.{take_deferred-none, take_deferred-some}
use kraai.Base.{
  ℕ, zero, suc, Bool, true, false, not, ◌&&◌, ◌||◌, List, [], ◌∷◌, Option, ◌==◌, length, ◌≡◌, refl,
  arith,
}
use kraai.Session.Errors.{RuntimeResult}
use kraai.Session.Runtime.{Runtime}
use kraai.Session.Steady.{
  Keeps, Keeps-bind, Keeps-pure, Keeps-gets, Keeps-run, Keeps-event, Keeps-if,
}
use kraai.Session.Scripting.{CompletedScriptExecution}
use kraai.Session.Messages.{
  Responder, SessionMessage, cancel, approve, deny, pending_script, snapshot, set_mcp_servers, undo,
  delete, stop, prepared, stream, stream_ended, script_ended, TurnState, idle, preparing, streaming,
  awaiting_approval, running_script, StreamDriveResult, send, PendingStreamRequest,
}
use kraai.Session.Actor.{Actor, Act, pure, gets, take_state, ◌>>=◌}
use kraai.Session.Approvals.{
  extend, take_from, take_pending_script, pending_script_info, approve_script, deny_script,
  cancel_running_in, cancel_running_script, script_ended_in, answer_all, script_ended_with,
}
use kraai.Session.Approvals
use kraai.Session.Deletion.{delete_now, delete_in, delete_session}
use kraai.Session.Prepared.{preparation_ended, prepared_in}
use kraai.Session.Stream.{stream_event, stream_event_in, stream_ended_in, stream_ended_with}
use kraai.Session.Stream
use kraai.Session.Run.{
  handle, has_child, set_published, publish_state, take_deferred, handle_next, next_deferred,
  run_deferred, round,
}
use kraai.Session.Steady.Deletions.{delete_now-Keeps, script_active-Keeps}
use kraai.Session.Stopping.{
  AreDeletions, IsReport, IsStopping, IsResting, Rests, Rests-Calm, Rests-in, Rests-answer,
  Keeps-then, Keeps-stopping, prepared_with-Rests, script_ended_with-Rests, answer_all-Rests,
}

equal : (a b : ℕ) → a ≡ b → (a == b) ≡ true
equal a b e = ground (arith, e)

leaves :
    (exit stopping child : Bool)
    → stopping ≡ true
    → child ≡ false
    → (exit || stopping && not child) ≡ true
leaves true stopping child e h = refl
leaves false true false e h = refl
leaves false true true e h = absurd (cc h)
leaves false false child e h = absurd (cc e)

module _ {W : Type 0} ⦃rt : Runtime W⦄ where
  prepared_in-Rests :
      (g : ℕ) (o : RuntimeResult (Option PendingStreamRequest)) (s : TurnState)
      → IsReport (prepared g o) s
      → Keeps {W = W} Rests (prepared_in g o s)
  unfolding prepared_in IsReport
  prepared_in-Rests g o (preparing p) h =
      Keeps-then _ (p.generation == g) (equal p.generation g h) (prepared_with-Rests p o)
  prepared_in-Rests g o idle h = absurd h
  prepared_in-Rests g o (streaming j) h = absurd h
  prepared_in-Rests g o (awaiting_approval p) h = absurd h
  prepared_in-Rests g o (running_script j) h = absurd h

  stream_ended_in-Rests :
      (g : ℕ) (x : StreamDriveResult) (s : TurnState)
      → IsReport (stream_ended g x) s
      → Keeps {W = W} Rests (stream_ended_in g x s)
  unfolding stream_ended_in IsReport
  stream_ended_in-Rests g x (streaming j) h =
      Keeps-then _ (j.generation == g) (equal j.generation g h)
        (Keeps-stopping _ (Keeps-pure Rests-Calm tt))
  stream_ended_in-Rests g x idle h = absurd h
  stream_ended_in-Rests g x (preparing p) h = absurd h
  stream_ended_in-Rests g x (awaiting_approval p) h = absurd h
  stream_ended_in-Rests g x (running_script j) h = absurd h

  script_ended_in-Rests :
      (g : ℕ) (x : RuntimeResult CompletedScriptExecution) (s : TurnState)
      → IsReport (script_ended g x) s
      → Keeps {W = W} Rests (script_ended_in g x s)
  unfolding script_ended_in IsReport
  script_ended_in-Rests g x (running_script j) h =
      Keeps-then _ (j.generation == g) (equal j.generation g h)
        (Keeps-bind Rests-Calm (script_ended_with-Rests x) λ _. answer_all-Rests _ _)
  script_ended_in-Rests g x idle h = absurd h
  script_ended_in-Rests g x (preparing p) h = absurd h
  script_ended_in-Rests g x (awaiting_approval p) h = absurd h
  script_ended_in-Rests g x (streaming j) h = absurd h

  taken : (a : Actor W) → IsStopping a → IsResting (record a { state = idle })
  unfolding has_child
  taken a h = record {
    stopping_ = record { stops = h.stops; deletions = h.deletions };
    childless = refl;
  }

  report-Rests :
      (m : SessionMessage) (a : Actor W)
      → IsStopping a
      → IsReport m a.state
      → IsResting (handle m a).1
  unfolding handle ◌>>=◌ take_state pure preparation_ended Stream.stream_ended
      Approvals.script_ended IsReport
  report-Rests (prepared g o) a s h =
      (prepared_in-Rests g o a.state h).kept (record a { state = idle }) (taken a s)
  report-Rests (stream_ended g x) a s h =
      (stream_ended_in-Rests g x a.state h).kept (record a { state = idle }) (taken a s)
  report-Rests (script_ended g x) a s h =
      (script_ended_in-Rests g x a.state h).kept (record a { state = idle }) (taken a s)
  report-Rests (send m q r) a s h = absurd h
  report-Rests (cancel d l o) a s h = absurd h
  report-Rests (approve id r) a s h = absurd h
  report-Rests (deny id r) a s h = absurd h
  report-Rests (pending_script r) a s h = absurd h
  report-Rests (snapshot r) a s h = absurd h
  report-Rests (set_mcp_servers c r) a s h = absurd h
  report-Rests (undo r) a s h = absurd h
  report-Rests (delete r) a s h = absurd h
  report-Rests (stop r) a s h = absurd h
  report-Rests (stream g e) a s h = absurd h

  -- A deletion, of a session whose turn has no child.
  delete_now-Rests : (x : Responder) → Keeps {W = W} Rests (delete_now x)
  delete_now-Rests x = delete_now-Keeps Rests-Calm Rests-answer x

  delete_in-Rests :
      (x : Responder) (s : TurnState) → has_child s ≡ false → Keeps {W = W} Rests (delete_in x s)
  unfolding delete_in has_child
  delete_in-Rests x idle h = delete_now-Rests x
  delete_in-Rests x (awaiting_approval p) h =
      Keeps-bind Rests-Calm (Rests-in (awaiting_approval p) refl)
        λ _. script_active-Keeps Rests-Calm Rests-answer x
  delete_in-Rests x (preparing p) h = absurd (cc h)
  delete_in-Rests x (streaming j) h = absurd (cc h)
  delete_in-Rests x (running_script j) h = absurd (cc h)

  delete-Rests : (x : Responder) → Keeps {W = W} Rests (handle (delete x))
  unfolding handle delete_session ◌>>=◌ take_state
  delete-Rests x = record {
    kept = λ a h.
        (delete_in-Rests x a.state h.childless).kept (record a { state = idle })
          (taken a h.stopping_);
  }

  handle_next-Rests :
      (again : Bool → Act W Bool) (exit : Bool) (a : Actor W) (d : List SessionMessage)
      → ((e : Bool) → Keeps Rests (again e))
      → a.deferred ≡ d
      → AreDeletions d
      → IsResting a
      → IsResting ((take_deferred >>= handle_next again exit) a).1
  unfolding handle_next ◌>>=◌ pure AreDeletions
  handle_next-Rests again exit a [] g e t h = rw (take_deferred-none a e) h
  handle_next-Rests again exit a (delete x ∷ rest) g e t h =
      let b : Actor W = record a { deferred = rest } in
      let i : IsResting b = record {
        stopping_ = record { stops = h.stopping_.stops; deletions = t };
        childless = h.childless;
      } in
      rw (take_deferred-some (delete x) rest a e)
        ((g (handle (delete x) b).0).kept (handle (delete x) b).1 ((delete-Rests x).kept b i))
  handle_next-Rests again exit a (send m q r ∷ rest) g e t h = absurd t
  handle_next-Rests again exit a (cancel d' l o ∷ rest) g e t h = absurd t
  handle_next-Rests again exit a (approve id r ∷ rest) g e t h = absurd t
  handle_next-Rests again exit a (deny id r ∷ rest) g e t h = absurd t
  handle_next-Rests again exit a (pending_script r ∷ rest) g e t h = absurd t
  handle_next-Rests again exit a (snapshot r ∷ rest) g e t h = absurd t
  handle_next-Rests again exit a (set_mcp_servers c r ∷ rest) g e t h = absurd t
  handle_next-Rests again exit a (undo r ∷ rest) g e t h = absurd t
  handle_next-Rests again exit a (stop r ∷ rest) g e t h = absurd t
  handle_next-Rests again exit a (prepared g' o ∷ rest) g e t h = absurd t
  handle_next-Rests again exit a (stream g' x ∷ rest) g e t h = absurd t
  handle_next-Rests again exit a (stream_ended g' x ∷ rest) g e t h = absurd t
  handle_next-Rests again exit a (script_ended g' x ∷ rest) g e t h = absurd t

  next_deferred-Rests :
      (again : Bool → Act W Bool) (exit p : Bool)
      → ((e : Bool) → Keeps Rests (again e))
      → Keeps Rests (next_deferred again exit p)
  unfolding next_deferred
  next_deferred-Rests again exit p g =
      Keeps-if Rests-Calm (exit || p) (Keeps-pure Rests-Calm exit) (record {
        kept = λ a h. handle_next-Rests again exit a a.deferred g refl h.stopping_.deletions h;
      })

  run_deferred-Rests : (fuel : ℕ) (exit : Bool) → Keeps {W = W} Rests (run_deferred fuel exit)
  unfolding run_deferred
  run_deferred-Rests zero exit = Keeps-pure Rests-Calm exit
  run_deferred-Rests (suc fuel) exit =
      Keeps-bind Rests-Calm (Keeps-gets Rests-Calm _)
        λ p. next_deferred-Rests (run_deferred fuel) exit p (run_deferred-Rests fuel)

  publish_state-Rests : Keeps {W = W} Rests publish_state
  unfolding publish_state set_published
  publish_state-Rests = Keeps-bind Rests-Calm (Keeps-gets Rests-Calm _) λ activity.
      Keeps-bind Rests-Calm (Keeps-run Rests-Calm _) λ _.
        Keeps-bind Rests-Calm (Keeps-gets Rests-Calm _) λ a.
          Keeps-if Rests-Calm _ (Keeps-pure Rests-Calm tt) (
            Keeps-bind Rests-Calm
              (record {
                kept = λ b h. record {
                  stopping_ = record {
                    stops = h.stopping_.stops;
                    deletions = h.stopping_.deletions;
                  };
                  childless = h.childless;
                };
              })
              λ _. Keeps-event Rests-Calm _)

  -- An actor that is stopping, and has deferred nothing but deletions, leaves its loop in the round
  -- in which the child that its turn waits for reports, however the child has ended and whatever
  -- the calls of the actor answer.
  pub round-exits :
      (m : SessionMessage) (a : Actor W)
      → a.stopping ≡ true
      → AreDeletions a.deferred
      → IsReport m a.state
      → (round m a).0 ≡ true
  unfolding round ◌>>=◌ gets pure
  round-exits m a s d h =
      let b : Bool × Actor W = handle m a in
      let c : Bool × Actor W = run_deferred (suc (length b.1.deferred)) b.0 b.1 in
      let i : IsResting b.1 = report-Rests m a (record { stops = s; deletions = d }) h in
      let j : IsResting c.1 = (run_deferred-Rests (suc (length b.1.deferred)) b.0).kept b.1 i in
      let k : IsResting (publish_state c.1).1 = publish_state-Rests.kept c.1 j in
      leaves c.0 _ _ k.stopping_.stops k.childless
