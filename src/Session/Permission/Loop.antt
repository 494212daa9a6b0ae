-- ===== src/Session/Permission/Loop.antt =====
-- The loop of crates/kraai-runtime/src/runtime/session/actor.rs starts no script that is not
-- permitted.
use kraai.Session.Deferred.{take_deferred-none, take_deferred-some}
use kraai.Base.{
  ℕ, zero, suc, Bool, true, false, ◌||◌, List, [], ◌∷◌, none, some, ◌≡◌, refl, arith, ◌∙◌, ap,
}
use kraai.Base.Utf8.{Bytes}
use kraai.Session.Runtime.{Runtime}
use kraai.Session.Steady.{
  Keeps, Keeps-bind, Keeps-pure, Keeps-gets, Keeps-run, Keeps-event, Keeps-if,
}
use kraai.Session.Messages.{
  Responder, SessionMessage, cancel, approve, deny, pending_script, snapshot, set_mcp_servers, undo,
  delete, stop, prepared, stream, stream_ended, script_ended, send,
}
use kraai.Session.Actor.{Actor, Act, pure, ◌>>=◌}
use kraai.Session.Run.{
  handle, reject, reject_all, answer_stopped, forget_waiting, set_published, publish_state,
  take_deferred, handle_next, next_deferred, run_deferred, round, close, run_actor, spawned,
}
use kraai.Session.Permission.{AreGranted, IsPending, IsPermitted, Permits, Permits-Calm, approves}
use kraai.Session.Permission.Streams.{Keeps-reply}
use kraai.Session.Permission.Requests.{handle-Permits}

approves-first :
    (m : SessionMessage) (rest : List SessionMessage) (x : Bytes)
    → approves (m ∷ []) x ≡ true
    → approves (m ∷ rest) x ≡ true
unfolding approves
approves-first (approve id r) rest x e = ground (arith, e)
approves-first (send m q r) rest x e = absurd (cc e)
approves-first (cancel d l o) rest x e = absurd (cc e)
approves-first (deny id r) rest x e = absurd (cc e)
approves-first (pending_script r) rest x e = absurd (cc e)
approves-first (snapshot r) rest x e = absurd (cc e)
approves-first (set_mcp_servers c r) rest x e = absurd (cc e)
approves-first (undo r) rest x e = absurd (cc e)
approves-first (delete r) rest x e = absurd (cc e)
approves-first (stop r) rest x e = absurd (cc e)
approves-first (prepared g o) rest x e = absurd (cc e)
approves-first (stream g e') rest x e = absurd (cc e)
approves-first (stream_ended g e') rest x e = absurd (cc e)
approves-first (script_ended g e') rest x e = absurd (cc e)

approves-rest :
    (m : SessionMessage) (rest : List SessionMessage) (x : Bytes)
    → approves rest x ≡ true
    → approves (m ∷ rest) x ≡ true
unfolding approves
approves-rest (approve id r) rest x e = ground (arith, e)
approves-rest (send m q r) rest x e = e
approves-rest (cancel d l o) rest x e = e
approves-rest (deny id r) rest x e = e
approves-rest (pending_script r) rest x e = e
approves-rest (snapshot r) rest x e = e
approves-rest (set_mcp_servers c r) rest x e = e
approves-rest (undo r) rest x e = e
approves-rest (delete r) rest x e = e
approves-rest (stop r) rest x e = e
approves-rest (prepared g o) rest x e = e
approves-rest (stream g e') rest x e = e
approves-rest (stream_ended g e') rest x e = e
approves-rest (script_ended g e') rest x e = e

module _ {W : Type 0} ⦃rt : Runtime W⦄ (approved : Bytes → Bool) where
  abbrev IsGuarded : (Bool → Act W Bool) → Type 0
  IsGuarded again = (exit : Bool) → Keeps (Permits approved) (again exit)

  handle_next-Permits :
      (again : Bool → Act W Bool) (exit : Bool) (a : Actor W) (d : List SessionMessage)
      → IsGuarded again
      → a.deferred ≡ d
      → IsPermitted approved a
      → IsPermitted approved ((take_deferred >>= handle_next again exit) a).1
  unfolding handle_next ◌>>=◌ pure
  handle_next-Permits again exit a [] g e i = rw (take_deferred-none a e) i
  handle_next-Permits again exit a (m ∷ rest) g e i =
      let f : (x : Bytes) → approves (m ∷ rest) x ≡ true → approved x ≡ true =
        λ x h. i.deferred_ x (ap (λ l. approves l x) e ∙ h) in
      let b : Actor W = record a { deferred = rest } in
      let j : IsPermitted approved b = record {
        granted = i.granted;
        pending_ = i.pending_;
        deferred_ = λ x h. f x (approves-rest m rest x h);
      } in
      rw (take_deferred-some m rest a e) (
        (g (handle m b).0).kept (handle m b).1
          ((handle-Permits approved m (λ x h. f x (approves-first m rest x h))).kept b j))

  next_deferred-Permits :
      (again : Bool → Act W Bool) (exit preparing_ : Bool)
      → IsGuarded again
      → Keeps (Permits approved) (next_deferred again exit preparing_)
  unfolding next_deferred
  next_deferred-Permits again exit p g =
      Keeps-if (Permits-Calm approved) (exit || p) (Keeps-pure (Permits-Calm approved) exit)
        (record { kept = λ a i. handle_next-Permits again exit a a.deferred g refl i })

  run_deferred-Permits : (fuel : ℕ) → IsGuarded (run_deferred fuel)
  unfolding run_deferred
  run_deferred-Permits zero exit = Keeps-pure (Permits-Calm approved) exit
  run_deferred-Permits (suc fuel) exit =
      Keeps-bind (Permits-Calm approved) (Keeps-gets (Permits-Calm approved) _)
        λ p. next_deferred-Permits (run_deferred fuel) exit p (run_deferred-Permits fuel)

  publish_state-Permits : Keeps {W = W} (Permits approved) publish_state
  unfolding publish_state set_published
  publish_state-Permits =
      Keeps-bind (Permits-Calm approved) (Keeps-gets (Permits-Calm approved) _) λ activity.
        Keeps-bind (Permits-Calm approved) (Keeps-run (Permits-Calm approved) _) λ _.
          Keeps-bind (Permits-Calm approved) (Keeps-gets (Permits-Calm approved) _) λ a.
            Keeps-if (Permits-Calm approved) _ (Keeps-pure (Permits-Calm approved) tt) (
              Keeps-bind (Permits-Calm approved)
                (record {
                  kept = λ b i. record {
                    granted = i.granted;
                    pending_ = i.pending_;
                    deferred_ = i.deferred_;
                  };
                })
                λ _. Keeps-event (Permits-Calm approved) _)

  round-Permits :
      (m : SessionMessage)
      → ((x : Bytes) → approves (m ∷ []) x ≡ true → approved x ≡ true)
      → Keeps {W = W} (Permits approved) (round m)
  unfolding round
  round-Permits m f = Keeps-bind (Permits-Calm approved) (handle-Permits approved m f) λ first.
      Keeps-bind (Permits-Calm approved) (Keeps-gets (Permits-Calm approved) _) λ fuel.
        Keeps-bind (Permits-Calm approved) (run_deferred-Permits (suc fuel) first) λ exit.
          Keeps-bind (Permits-Calm approved) publish_state-Permits λ _.
            Keeps-bind (Permits-Calm approved) (Keeps-gets (Permits-Calm approved) _)
              λ a. Keeps-pure (Permits-Calm approved) _

  reject-Permits : (m : SessionMessage) → Keeps {W = W} (Permits approved) (reject m)
  unfolding reject
  reject-Permits (send m q r) = Keeps-reply approved r _
  reject-Permits (cancel d l (some r)) = Keeps-reply approved r _
  reject-Permits (approve id r) = Keeps-reply approved r _
  reject-Permits (deny id r) = Keeps-reply approved r _
  reject-Permits (pending_script r) = Keeps-reply approved r _
  reject-Permits (snapshot r) = Keeps-reply approved r _
  reject-Permits (set_mcp_servers c r) = Keeps-reply approved r _
  reject-Permits (undo r) = Keeps-reply approved r _
  reject-Permits (delete r) = Keeps-reply approved r _
  reject-Permits (stop r) = Keeps-reply approved r _
  reject-Permits (cancel d l none) = Keeps-pure (Permits-Calm approved) tt
  reject-Permits (prepared g o) = Keeps-pure (Permits-Calm approved) tt
  reject-Permits (stream g e) = Keeps-pure (Permits-Calm approved) tt
  reject-Permits (stream_ended g e) = Keeps-pure (Permits-Calm approved) tt
  reject-Permits (script_ended g e) = Keeps-pure (Permits-Calm approved) tt

  reject_all-Permits : (ms : List SessionMessage) → Keeps {W = W} (Permits approved) (reject_all ms)
  unfolding reject_all
  reject_all-Permits [] = Keeps-pure (Permits-Calm approved) tt
  reject_all-Permits (m ∷ ms) =
      Keeps-bind (Permits-Calm approved) (reject-Permits m) λ _. reject_all-Permits ms

  answer_stopped-Permits :
      (ws : List Responder) → Keeps {W = W} (Permits approved) (answer_stopped ws)
  unfolding answer_stopped
  answer_stopped-Permits [] = Keeps-pure (Permits-Calm approved) tt
  answer_stopped-Permits (w ∷ ws) =
      Keeps-bind (Permits-Calm approved) (Keeps-reply approved w _) λ _. answer_stopped-Permits ws

  forget_waiting-Permits : Keeps {W = W} (Permits approved) forget_waiting
  unfolding forget_waiting approves
  forget_waiting-Permits = record {
    kept = λ a i. record {
      granted = i.granted;
      pending_ = i.pending_;
      deferred_ = λ x e. absurd (cc e);
    };
  }

  close-Permits : (ms : List SessionMessage) → Keeps {W = W} (Permits approved) (close ms)
  unfolding close
  close-Permits ms = Keeps-bind (Permits-Calm approved) (Keeps-gets (Permits-Calm approved) _) λ a.
      Keeps-bind (Permits-Calm approved) (answer_stopped-Permits a.stopped) λ _.
        Keeps-bind (Permits-Calm approved) (reject_all-Permits a.deferred) λ _.
          Keeps-bind (Permits-Calm approved) forget_waiting-Permits λ _.
            Keeps-bind (Permits-Calm approved) (Keeps-run (Permits-Calm approved) _)
              λ _. reject_all-Permits ms

  run_actor-Permits :
      (ms : List SessionMessage)
      → ((x : Bytes) → approves ms x ≡ true → approved x ≡ true)
      → Keeps {W = W} (Permits approved) (run_actor ms)
  unfolding run_actor
  run_actor-Permits [] f = Keeps-pure (Permits-Calm approved) false
  run_actor-Permits (m ∷ ms) f =
      Keeps-bind (Permits-Calm approved) (round-Permits m (λ x e. f x (approves-first m ms x e)))
        λ exit.
          Keeps-if (Permits-Calm approved) exit
            (Keeps-bind (Permits-Calm approved) (close-Permits ms)
              λ _. Keeps-pure (Permits-Calm approved) true)
            (run_actor-Permits ms (λ x e. f x (approves-rest m ms x e)))

module _ {W : Type 0} ⦃rt : Runtime W⦄ where
  -- Every script that an actor starts over its whole life, whatever it is sent, is one that the
  -- policy of its profile allows, with the capabilities that the policy gives it, or one that the
  -- policy puts to the user, with the capabilities it was put with, and whose execution a message
  -- to the actor has approved.
  pub run_actor-grants :
      (id : Bytes) (w : W) (ms : List SessionMessage)
      → AreGranted (approves ms) (run_actor ms (spawned id w)).1.log
  unfolding spawned AreGranted IsPending approves
  run_actor-grants id w ms =
      ((run_actor-Permits (approves ms) ms (λ x e. e)).kept (spawned id w)
        (record { granted = tt; pending_ = tt; deferred_ = λ x e. absurd (cc e) })).granted
