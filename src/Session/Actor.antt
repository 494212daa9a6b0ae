-- ===== src/Session/Actor.antt =====
-- `SessionActor` of crates/kraai-runtime/src/runtime/session/actor.rs, and the monad its methods
-- are written in. What it does to the outside is a log, the newest first.
use kraai.Base.{ℕ, Bool, true, false, List, ◌∷◌, ◌+◌, ◌%◌, ◌^◌}
use kraai.Base.Utf8.{Bytes}
use kraai.Base.Results.{ok, err}
use kraai.Session.Errors.{RuntimeResult}
use kraai.Session.Messages.{
  Responder, SessionMessage, SessionActivity, TurnState, idle, Effect, answer, event, cancel_token,
  Event, Reply,
}

pub record Actor (W : Type 0) : Type 0 where
  pub session_id : Bytes
  pub world : W
  pub state : TurnState
  pub next_generation : ℕ
  pub deferred : List SessionMessage
  pub stopping : Bool
  pub stopped : List Responder
  pub published : SessionActivity × Bool
  pub log : List Effect

abbrev pub Act : Type 0 → Type 0 → Type 0
Act W A = Actor W → A × Actor W

abbrev pub is_idle : TurnState → Bool
is_idle idle = true
is_idle _ = false

module _ {W : Type 0} where
  module _ {A : Type 0} where
    unfoldable pub pure : A → Act W A
    pure x a = (x, a)

    unfoldable pub gets : (Actor W → A) → Act W A
    gets f a = (f a, a)

    -- A call that changes the world, and one that reads it.
    unfoldable pub call : (W → A × W) → Act W A
    call f a = let (x, w) = f a.world in (x, record a { world = w })

    unfoldable pub ask : (W → A) → Act W A
    ask f a = (f a.world, a)

  unfoldable pub run : (W → W) → Act W (Unit {0})
  run f a = (tt, record a { world = f a.world })

  unfoldable pub emit : Effect → Act W (Unit {0})
  emit e a = (tt, record a { log = e ∷ a.log })

  unfoldable pub set_state : TurnState → Act W (Unit {0})
  set_state s a = (tt, record a { state = s })

  -- `std::mem::replace(&mut self.state, TurnState::Idle)`.
  unfoldable pub take_state : Act W TurnState
  take_state a = (a.state, record a { state = idle })

  infixl 5 ◌>>=◌ ◌>>◌
  unfoldable pub ◌>>=◌ : {A B : Type 0} → Act W A → (A → Act W B) → Act W B
  ◌>>=◌ m f a = let (x, b) = m a in f x b

  abbrev pub ◌>>◌ : {A B : Type 0} → Act W A → Act W B → Act W B
  m >> k = m >>= λ _. k

  -- The `?` operator.
  unfoldable pub attempt :
      {A B : Type 0}
      → Act W (RuntimeResult A)
      → (A → Act W (RuntimeResult B))
      → Act W (RuntimeResult B)
  unfolding ◌>>=◌ pure
  attempt m f = m >>= λ r. elim r [ ok x ↦ f x | err e ↦ pure (err e) ]

  unfoldable pub when : Bool → Act W (Unit {0}) → Act W (Unit {0})
  unfolding pure
  when true m = m
  when false m = pure tt

  abbrev pub reply : Responder → Reply → Act W (Unit {0})
  reply r x = emit (answer r x)

  abbrev pub send_event : Event → Act W (Unit {0})
  send_event e = emit (event e)

  -- `job.cancel.cancel()`.
  abbrev pub cancel_job : ℕ → Act W (Unit {0})
  cancel_job g = emit (cancel_token g)

  -- `generation`: the counter of 64 bits wraps.
  unfoldable pub generation : Act W ℕ
  generation a = let g = (a.next_generation + 1) % 2 ^ 64 in (g, record a { next_generation = g })
