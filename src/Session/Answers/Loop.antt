-- ===== src/Session/Answers/Loop.antt =====
-- The loop of crates/kraai-runtime/src/runtime/session/actor.rs: each responder that it receives is
-- answered once.
use kraai.Session.Deferred.{take_deferred-none, take_deferred-some}
use kraai.Base.{
  ℕ, zero, suc, Bool, true, false, not, ◌&&◌, ◌||◌, List, [], ◌∷◌, if◌then◌else◌, ◌+◌, length, ◌≡◌,
  refl, arith, ◌∙◌, ap,
}
use kraai.Base.Utf8.{Bytes}
use kraai.Session.Runtime.{Runtime}
use kraai.Session.Steady.{waiting}
use kraai.Session.Answers.{count, brings, brought, answered, settled, held}
use kraai.Session.Answers.Judgements.{Untouched}
use kraai.Session.Messages.{
  SessionMessage, TurnState, idle, preparing, streaming, awaiting_approval, running_script,
}
use kraai.Session.Actor.{Actor, Act, pure, gets, ◌>>=◌, ◌>>◌}
use kraai.Session.Run.{
  handle, is_preparing, has_child, publish_state, take_deferred, handle_next, next_deferred,
  run_deferred, round, close, run_actor, spawned,
}
use kraai.Session.Answers.Handlers.{handle-Accounts}
use kraai.Session.Answers.Exit.{handle-idle, idle-held, publish_state-Keeps, close-answered}

no_child-held : (r : ℕ) (s : TurnState) → not (has_child s) ≡ true → count r (waiting s) ≡ 0
unfolding has_child waiting count
no_child-held r idle e = refl
no_child-held r (awaiting_approval p) e = refl
no_child-held r (preparing p) e = absurd (cc e)
no_child-held r (streaming j) e = absurd (cc e)
no_child-held r (running_script j) e = absurd (cc e)

module _ {W : Type 0} ⦃rt : Runtime W⦄ (r : ℕ) where
  -- What is owed to a responder: an answer given, or one that is still to come.
  unfoldable pub owed : Actor W → ℕ
  unfolding settled held
  owed a = settled r a + held r a

  next-settles :
      (m : SessionMessage) (rest : List SessionMessage) (a : Actor W)
      → a.deferred ≡ m ∷ rest
      → owed (handle m (record a { deferred = rest })).1 ≡ owed a
  unfolding owed settled held brought
  next-settles m rest a e =
      let t : brought r a.deferred ≡ brings r m + brought r rest = ap (brought r) e in
      omega (arith, t, (handle-Accounts r m).accounted (record a { deferred = rest }))

  -- What is owed stays as it is, and an exit leaves a turn that holds nothing.
  abbrev Loops : Actor W → Bool × Actor W → Type 0
  Loops a z = (owed z.1 ≡ owed a) × (z.0 ≡ true → held r z.1 ≡ 0)

  abbrev IsLoop : (Bool → Act W Bool) → Type 0
  IsLoop again = (exit : Bool) (a : Actor W) → (exit ≡ true → held r a ≡ 0) → Loops a (again exit a)

  handle_next-Loops :
      (again : Bool → Act W Bool) (exit : Bool) (a : Actor W) (d : List SessionMessage)
      → IsLoop again
      → (exit ≡ true → held r a ≡ 0)
      → a.deferred ≡ d
      → Loops a ((take_deferred >>= handle_next again exit) a)
  unfolding handle_next ◌>>=◌ pure
  handle_next-Loops again exit a [] l h e = rw (take_deferred-none a e) (refl, h)
  handle_next-Loops again exit a (m ∷ rest) l h e =
      let b : Bool × Actor W = handle m (record a { deferred = rest }) in
      let t : Loops b.1 (again b.0 b.1) =
        l b.0 b.1 (λ x. idle-held r b.1 (handle-idle m (record a { deferred = rest }) x)) in
      rw (take_deferred-some m rest a e) (t.0 ∙ next-settles m rest a e, t.1)

  next_deferred-Loops :
      (again : Bool → Act W Bool) (exit preparing_ : Bool) (a : Actor W)
      → IsLoop again
      → (exit ≡ true → held r a ≡ 0)
      → Loops a (next_deferred again exit preparing_ a)
  unfolding next_deferred pure
  next_deferred-Loops again true p a l h = (refl, h)
  next_deferred-Loops again false true a l h = (refl, h)
  next_deferred-Loops again false false a l h = handle_next-Loops again false a a.deferred l h refl

  run_deferred-Loops : (fuel : ℕ) → IsLoop (run_deferred fuel)
  unfolding run_deferred ◌>>=◌ gets pure
  run_deferred-Loops zero exit a h = (refl, h)
  run_deferred-Loops (suc fuel) exit a h =
      next_deferred-Loops (run_deferred fuel) exit (is_preparing a.state) a
        (run_deferred-Loops fuel) h

  leaves-held :
      (exit stopping : Bool) (b : Actor W)
      → (exit ≡ true → held r b ≡ 0)
      → (exit || stopping && not (has_child b.state)) ≡ true
      → held r b ≡ 0
  unfolding held
  leaves-held true stopping b h e = h refl
  leaves-held false true b h e = no_child-held r b.state e
  leaves-held false false b h e = absurd (cc e)

  held-same : (a b : Actor W) → b.state ≡ a.state → held r b ≡ held r a
  unfolding held
  held-same a b e = ap (λ s. count r (waiting s)) e

  pub round-Loops :
      (m : SessionMessage) (a : Actor W)
      → (owed (round m a).1 ≡ brings r m + owed a)
        × ((round m a).0 ≡ true → held r (round m a).1 ≡ 0)
  unfolding round ◌>>=◌ gets pure owed
  round-Loops m a =
      let b : Bool × Actor W = handle m a in
      let c : Bool × Actor W = run_deferred (suc (length b.1.deferred)) b.0 b.1 in
      let l : Loops b.1 c =
        run_deferred-Loops (suc (length b.1.deferred)) b.0 b.1
          (λ x. idle-held r b.1 (handle-idle m a x)) in
      let p : Untouched r c.1 (publish_state c.1).1 = (publish_state-Keeps r).kept c.1 in
      let same : held r (publish_state c.1).1 ≡ held r c.1 =
        held-same c.1 (publish_state c.1).1 p.0 in
      (
        omega (arith, (handle-Accounts r m).accounted a, l.0, p.1, same),
        leaves-held c.0 (publish_state c.1).1.stopping (publish_state c.1).1 (λ x. same ∙ l.1 x),
      )

  -- The rest of the loop, after a round that does or does not leave it.
  rest-answered :
      (ms : List SessionMessage) (exit : Bool) (b : Actor W)
      → ((a : Actor W)
          → (run_actor ms a).0 ≡ true
          → answered r (run_actor ms a).1.log ≡ brought r ms + owed a)
      → (exit ≡ true → held r b ≡ 0)
      → ((if exit then close ms >> pure true else run_actor ms) b).0 ≡ true
      → answered r ((if exit then close ms >> pure true else run_actor ms) b).1.log
        ≡ brought r ms + owed b
  unfolding ◌>>=◌ pure owed
  rest-answered ms true b ih h e = omega (arith, close-answered r ms b, h refl)
  rest-answered ms false b ih h e = ih b e

  run_actor-answered :
      (ms : List SessionMessage) (a : Actor W)
      → (run_actor ms a).0 ≡ true
      → answered r (run_actor ms a).1.log ≡ brought r ms + owed a
  unfolding run_actor ◌>>=◌ pure brought
  run_actor-answered [] a e = absurd (cc e)
  run_actor-answered (m ∷ ms) a e =
      let l : (owed (round m a).1 ≡ brings r m + owed a)
          × ((round m a).0 ≡ true → held r (round m a).1 ≡ 0) =
        round-Loops m a in
      omega (arith, l.0, rest-answered ms (round m a).0 (round m a).1 (run_actor-answered ms) l.1 e)

  -- Over its whole life, from its start until it has exited, an actor answers every responder
  -- exactly as often as the messages it was sent bring it: none is forgotten, and none is
  -- answered twice.
  pub run_actor-answers :
      (id : Bytes) (w : W) (ms : List SessionMessage)
      → (run_actor ms (spawned id w)).0 ≡ true
      → answered r (run_actor ms (spawned id w)).1.log ≡ brought r ms
  unfolding spawned owed settled held answered brought count waiting
  run_actor-answers id w ms e = omega (arith, run_actor-answered ms (spawned id w) e)
