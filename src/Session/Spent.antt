-- ===== src/Session/Spent.antt =====
-- The inner loop of crates/kraai-runtime/src/runtime/session/actor.rs, which handles deferred messages.
use kraai.Base.{
  ℕ, zero, suc, Bool, true, false, ◌||◌, List, [], ◌∷◌, if◌then◌else◌, length, ◌≡◌, refl, ◌∙◌, ◌⊎◌,
  inl, inr, ap, arith,
}
use kraai.Session.Runtime.{Runtime}
use kraai.Session.Steady.{Calm, Keeps, Keeps-bind, Keeps-cancel_token}
use kraai.Session.Messages.{
  Responder, Reply, SessionMessage, TurnState, idle, preparing, streaming, awaiting_approval,
  running_script, delete, send, cancel, approve, deny, pending_script, snapshot, set_mcp_servers,
  undo, stop, prepared, stream, stream_ended, script_ended,
}
use kraai.Session.Actor.{Actor, Act, pure, gets, emit, reply, set_state, take_state, ◌>>=◌}
use kraai.Session.Deletion.{delete_in, delete_session}
use kraai.Session.Run.{
  handle, is_preparing, take_deferred, handle_next, next_deferred, run_deferred,
}
use kraai.Session.Steady.Deletions.{delete_now-Keeps, script_active-Keeps}
use kraai.Session.Stopping.{AreDeletions}
use kraai.Session.Deferred.{take_deferred-none, take_deferred-some}

-- The loop ends for a reason of its own: the actor is to exit, or prepares a turn, or has deferred
-- nothing.
abbrev pub IsSpent : {W : Type 0} → Bool × Actor W → Type 0
IsSpent x = ((x.0 || is_preparing x.1.state) ≡ true) ⊎ (x.1.deferred ≡ [])

deletions_rest :
    (m : SessionMessage) (rest : List SessionMessage)
    → AreDeletions (m ∷ rest)
    → (x : Responder) × (m ≡ delete x) × AreDeletions rest
unfolding AreDeletions
deletions_rest (delete x) rest h = (x, refl, h)
deletions_rest (send m q r) rest h = absurd h
deletions_rest (cancel d l o) rest h = absurd h
deletions_rest (approve id r) rest h = absurd h
deletions_rest (deny id r) rest h = absurd h
deletions_rest (pending_script r) rest h = absurd h
deletions_rest (snapshot r) rest h = absurd h
deletions_rest (set_mcp_servers c r) rest h = absurd h
deletions_rest (undo r) rest h = absurd h
deletions_rest (stop r) rest h = absurd h
deletions_rest (prepared g o) rest h = absurd h
deletions_rest (stream g e) rest h = absurd h
deletions_rest (stream_ended g x) rest h = absurd h
deletions_rest (script_ended g x) rest h = absurd h

or_false : (a b : Bool) → (a || b) ≡ false → b ≡ false
or_false true b e = absurd (cc e)
or_false false b e = e

module _ {W : Type 0} where
  -- The deferred messages stay as they are.
  abbrev Defers : Actor W → Actor W → Type 0
  Defers a b = b.deferred ≡ a.deferred

  Defers-Calm : Calm Defers
  Defers-Calm = record {
    rest = λ a. refl;
    then_ = λ p q. q ∙ p;
    world_ = λ a w. refl;
    number = λ a g. refl;
    tell = λ a e. refl;
    cancels = λ a g. refl;
  }

  reply-Defers : (x : Responder) (y : Reply) → Keeps {W = W} Defers (reply x y)
  unfolding emit
  reply-Defers x y = record { kept = λ a. refl }

  put-Defers : (s : TurnState) → Keeps {W = W} Defers (set_state s)
  unfolding set_state
  put-Defers s = record { kept = λ a. refl }

module _ {W : Type 0} ⦃rt : Runtime W⦄ where
  delete_in-Defers :
      (x : Responder) (s : TurnState)
      → is_preparing s ≡ false
      → Keeps {W = W} Defers (delete_in x s)
  unfolding delete_in is_preparing
  delete_in-Defers x idle h = delete_now-Keeps Defers-Calm reply-Defers x
  delete_in-Defers x (streaming j) h =
      Keeps-bind Defers-Calm (Keeps-cancel_token Defers-Calm _)
        λ _. delete_now-Keeps Defers-Calm reply-Defers x
  delete_in-Defers x (running_script j) h =
      Keeps-bind Defers-Calm (put-Defers _) λ _. script_active-Keeps Defers-Calm reply-Defers x
  delete_in-Defers x (awaiting_approval p) h =
      Keeps-bind Defers-Calm (put-Defers _) λ _. script_active-Keeps Defers-Calm reply-Defers x
  delete_in-Defers x (preparing p) h = absurd (cc h)

  -- A deletion outside a preparation is not deferred again.
  handle-Defers :
      (x : Responder) (a : Actor W)
      → is_preparing a.state ≡ false
      → (handle (delete x) a).1.deferred ≡ a.deferred
  unfolding handle delete_session ◌>>=◌ take_state
  handle-Defers x a h = (delete_in-Defers x a.state h).kept (record a { state = idle })

  -- What the rest of the loop does with one message less.
  abbrev IsSpending : (Bool → Act W Bool) → ℕ → Type 0
  IsSpending again n =
      (exit : Bool) (b : Actor W)
      → AreDeletions b.deferred
      → suc (length b.deferred) ≡ n
      → IsSpent (again exit b)

  handle_next-IsSpent :
      (again : Bool → Act W Bool) (exit : Bool) (a : Actor W) (ms : List SessionMessage)
      → IsSpending again (length ms)
      → is_preparing a.state ≡ false
      → AreDeletions ms
      → a.deferred ≡ ms
      → IsSpent ((take_deferred >>= handle_next again exit) a)
  unfolding handle_next ◌>>=◌ pure
  handle_next-IsSpent again exit a [] s p h e = rw (take_deferred-none a e) (inr e)
  handle_next-IsSpent again exit a (m ∷ rest) s p h e =
      let (x, i, d) = deletions_rest m rest h in
      let b : Actor W = record a { deferred = rest } in
      let k : (handle (delete x) b).1.deferred ≡ rest = handle-Defers x b p in
      rw (take_deferred-some m rest a e) (
        rw i (
          s (handle (delete x) b).0 (handle (delete x) b).1 (rw k d)
            (ap (λ ms. suc (length ms)) k)))

  next_deferred-IsSpent :
      (stops : Bool) (again : Bool → Act W Bool) (exit : Bool) (a : Actor W)
      → IsSpending again (length a.deferred)
      → (exit || is_preparing a.state) ≡ stops
      → AreDeletions a.deferred
      → IsSpent ((if stops then pure exit else take_deferred >>= handle_next again exit) a)
  unfolding pure
  next_deferred-IsSpent true again exit a s e h = inl e
  next_deferred-IsSpent false again exit a s e h =
      handle_next-IsSpent again exit a a.deferred s (or_false exit (is_preparing a.state) e) h refl

  spends :
      (n : ℕ) (exit : Bool) (a : Actor W)
      → AreDeletions a.deferred
      → length a.deferred ≡ n
      → IsSpent (run_deferred (suc n) exit a)
  unfolding run_deferred next_deferred ◌>>=◌ gets
  spends zero exit a h e =
      next_deferred-IsSpent (exit || is_preparing a.state) (run_deferred zero) exit a
        (λ x b d l. absurd (ground (arith, l, e))) refl h
  spends (suc n) exit a h e =
      next_deferred-IsSpent (exit || is_preparing a.state) (run_deferred (suc n)) exit a
        (λ x b d l. spends n x b d (ground (arith, l, e))) refl h

  -- Where only deletions are deferred, the loop over the deferred messages, with one step more than
  -- there are of them, ends because the actor is to exit, or prepares a turn, or has deferred
  -- nothing any more, and never because the steps have run out.
  pub run_deferred-IsSpent :
      (exit : Bool) (a : Actor W)
      → AreDeletions a.deferred
      → IsSpent (run_deferred (suc (length a.deferred)) exit a)
  run_deferred-IsSpent exit a h = spends (length a.deferred) exit a h refl
