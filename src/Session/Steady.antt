-- ===== src/Session/Steady.antt =====
-- Relations between the actor before and after a method, for crates/kraai-runtime/src/runtime/session:
-- one that the primitive steps keep is kept by all that the methods do between two messages.
use kraai.Base.{
  ℕ, Bool, true, false, not, ◌&&◌, ◌||◌, List, [], ◌∷◌, ◌++◌, Option, none, some, if◌then◌else◌,
  ◌==◌, ltb, ◌+◌, length, is_empty, map, any, ◌≡◌, refl, sym, ap,
}
use kraai.Base.Utf8.{Bytes, bytes_eq}
use kraai.Base.Literals.{utf8}
use kraai.Base.Integers.{ℤ}
use kraai.Base.Results.{Result, ok, err}
use kraai.Session.Errors.{
  RuntimeError, RuntimeResult, invalid_argument, not_found, conflict, unavailable, internal,
  failure,
}
use kraai.Session.Runtime.{
  Runtime, ModelSelection, QueuedMessage, QueuedEntry, StreamedItem, Observed,
}
use kraai.Session.Scripting.{EffectiveScriptRequest, PendingScriptApproval}
use kraai.Session.Messages.{
  Responder, TurnState, idle, preparing, streaming, awaiting_approval, running_script, ScriptJob,
  PreparationOrigin, send, continue, queue, CancelRequest, Preparation, Event, Effect, event,
  cancel_token, spawn_preparation, spawn_stream, spawn_script, PendingStreamRequest, PrepareRequest,
}
use kraai.Session.Actor.{
  Actor, Act, pure, gets, call, ask, run, emit, set_state, take_state, ◌>>=◌, ◌>>◌, attempt, when,
  reply, send_event, cancel_job, is_idle, generation,
}
use kraai.Session.Scripts.{ScriptDecision, allow, deny, prompt, decide, resolve_request}
use kraai.Session.Blocks.{Prepared}
pub mod Turns
pub mod Deletions
pub mod Decisions
pub mod Streams
pub mod Preparations

-- The responders that a state of the turn holds.
unfoldable pub origin_waiters : PreparationOrigin → List Responder
origin_waiters (send r) = r ∷ []
origin_waiters continue = []
origin_waiters queue = []

unfoldable pub cancel_waiters : Option CancelRequest → List Responder
cancel_waiters none = []
cancel_waiters (some c) = c.waiters

unfoldable pub waiting : TurnState → List Responder
unfolding origin_waiters cancel_waiters
waiting idle = []
waiting (preparing p) = origin_waiters p.origin ++ cancel_waiters p.cancel
waiting (streaming j) = []
waiting (awaiting_approval p) = []
waiting (running_script j) = j.cancel_waiters

-- Whether a script is behind the state.
unfoldable pub holds_script : TurnState → Bool
holds_script (awaiting_approval p) = true
holds_script (running_script j) = true
holds_script _ = false

-- The decision on a script is the policy's, on the capabilities it asks for.
abbrev pub IsDecided : Prepared → Type 0
IsDecided p =
    (p.request.effective_capabilities, p.additions, p.decision)
    ≡ decide p.request.profile.permissions
        (resolve_request p.request.profile p.request.requested_capabilities)

abbrev pub job_of : ℕ → ScriptJob
job_of g = record { generation = g; cancel_waiters = [] }

-- A relation that is kept by what leaves the turn and its child tasks alone.
pub record Calm {W : Type 0} (R : Actor W → Actor W → Type 0) : Type 0 where
  pub rest : (a : Actor W) → R a a
  pub then_ : {a b c : Actor W} → R a b → R b c → R a c
  pub world_ : (a : Actor W) (w : W) → R a (record a { world = w })
  pub number : (a : Actor W) (g : ℕ) → R a (record a { next_generation = g })
  pub tell : (a : Actor W) (e : Event) → R a (record a { log = event e ∷ a.log })
  pub cancels : (a : Actor W) (g : ℕ) → R a (record a { log = cancel_token g ∷ a.log })

-- One that is kept, too, when a turn ends, a preparation or a stream begins, and a script is
-- begun or put to the user as the policy decides.
pub record Steady {W : Type 0} (R : Actor W → Actor W → Type 0) : Type 0 where
  pub calm : Calm R
  pub prepares :
      (a : Actor W) (g : ℕ) (q : PrepareRequest)
      → R a (record a { log = spawn_preparation g q ∷ a.log })
  pub streams :
      (a : Actor W) (g : ℕ) (q : PendingStreamRequest)
      → R a (record a { log = spawn_stream g q ∷ a.log })
  pub turns :
      (a : Actor W) (s : TurnState)
      → waiting s ≡ []
      → holds_script s ≡ false
      → R a (record a { state = s })
  pub awaits :
      (a : Actor W) (p : Prepared)
      → IsDecided p
      → p.decision ≡ prompt
      → R a (record a {
        state = awaiting_approval (record { request = p.request; additions = p.additions });
      })
  pub begins :
      (a : Actor W) (p : Prepared) (g : ℕ)
      → IsDecided p
      → p.decision ≡ allow
      → R a (record a { log = spawn_script g p.request ∷ a.log; state = running_script (job_of g) })

-- A method keeps a relation when it relates the actor before to the actor after.
pub record Keeps {W A : Type 0} (R : Actor W → Actor W → Type 0) (m : Act W A) : Type 0 where
  pub kept : (a : Actor W) → R a (m a).1

abbrev the_ok : {A : Type 0} → A → RuntimeResult A
the_ok x = ok x

unfoldable from_ok : {A : Type 0} (z : A) → RuntimeResult A → A
from_ok z (ok x) = x
from_ok z (err e) = z

ok_inj : {A : Type 0} (x y : A) → (the_ok x) ≡ the_ok y → x ≡ y
unfolding from_ok
ok_inj x y e = ap (from_ok x) e

-- What holds of a method's result, when it succeeds.
pub record Yields {W A : Type 0} (P : A → Type 0) (m : Act W (RuntimeResult A)) : Type 0 where
  pub yielded : (a : Actor W) (x : A) → (m a).0 ≡ ok x → P x

module _ {W : Type 0} {R : Actor W → Actor W → Type 0} (s : Calm R) where
  pub Keeps-bind :
      {A B : Type 0} {m : Act W A} {k : A → Act W B}
      → Keeps R m
      → ((x : A) → Keeps R (k x))
      → Keeps R (m >>= k)
  unfolding ◌>>=◌
  Keeps-bind {m = m} p q = record { kept = λ a. s.then_ (p.kept a) ((q (m a).0).kept (m a).1) }

  pub Keeps-pure : {A : Type 0} (x : A) → Keeps {A = A} R (pure x)
  unfolding pure
  Keeps-pure x = record { kept = λ a. s.rest a }

  pub Keeps-gets : {A : Type 0} (f : Actor W → A) → Keeps R (gets f)
  unfolding gets
  Keeps-gets f = record { kept = λ a. s.rest a }

  pub Keeps-ask : {A : Type 0} (f : W → A) → Keeps R (ask f)
  unfolding ask
  Keeps-ask f = record { kept = λ a. s.rest a }

  pub Keeps-call : {A : Type 0} (f : W → A × W) → Keeps R (call f)
  unfolding call
  Keeps-call f = record { kept = λ a. s.world_ a (f a.world).1 }

  pub Keeps-run : (f : W → W) → Keeps R (run f)
  unfolding run
  Keeps-run f = record { kept = λ a. s.world_ a (f a.world) }

  pub Keeps-event : (e : Event) → Keeps R (emit (event e))
  unfolding emit
  Keeps-event e = record { kept = λ a. s.tell a e }

  pub Keeps-cancel_token : (g : ℕ) → Keeps R (emit (cancel_token g))
  unfolding emit
  Keeps-cancel_token g = record { kept = λ a. s.cancels a g }

  pub Keeps-generation : Keeps R generation
  unfolding generation
  Keeps-generation = record { kept = λ a. s.number a _ }

  pub Keeps-if :
      {A : Type 0} {m k : Act W A} (b : Bool) → Keeps R m → Keeps R k → Keeps R (if b then m else k)
  Keeps-if true p q = p
  Keeps-if false p q = q

  pub Keeps-when : {m : Act W (Unit {0})} (b : Bool) → Keeps R m → Keeps R (when b m)
  unfolding when pure
  Keeps-when true p = record { kept = λ a. p.kept a }
  Keeps-when false p = record { kept = λ a. s.rest a }

  -- The cases of what a method returns.
  pub Keeps-bind_result :
      {A B : Type 0} {m : Act W (RuntimeResult A)} {f : A → Act W B} {g : RuntimeError → Act W B}
      → Keeps R m
      → ((x : A) → Keeps R (f x))
      → ((e : RuntimeError) → Keeps R (g e))
      → Keeps R (m >>= λ r. elim r [ ok x ↦ f x | err e ↦ g e ])
  Keeps-bind_result {A} {B} {m} {f} {g} p q h = Keeps-bind p go
    where
      go : (r : RuntimeResult A) → Keeps R (elim r [ ok x ↦ f x | err e ↦ g e ])
      go (ok x) = q x
      go (err e) = h e

  pub Keeps-bind_option :
      {A B : Type 0} {m : Act W (Option A)} {f : A → Act W B} {g : Act W B}
      → Keeps R m
      → ((x : A) → Keeps R (f x))
      → Keeps R g
      → Keeps R (m >>= λ r. elim r [ some x ↦ f x | none ↦ g ])
  Keeps-bind_option {A} {B} {m} {f} {g} p q h = Keeps-bind p go
    where
      go : (r : Option A) → Keeps R (elim r [ some x ↦ f x | none ↦ g ])
      go (some x) = q x
      go none = h

  pub Keeps-attempt :
      {A B : Type 0} {m : Act W (RuntimeResult A)} {k : A → Act W (RuntimeResult B)}
      → Keeps R m
      → ((x : A) → Keeps R (k x))
      → Keeps R (attempt m k)
  unfolding attempt
  Keeps-attempt p q = Keeps-bind_result p q (λ e. Keeps-pure (err e))

  pub Keeps-attempt_with :
      {A B : Type 0} {P : A → Type 0} {m : Act W (RuntimeResult A)}
      {k : A → Act W (RuntimeResult B)}
      → Keeps R m
      → Yields P m
      → ((x : A) → P x → Keeps R (k x))
      → Keeps R (attempt m k)
  unfolding attempt ◌>>=◌ pure
  Keeps-attempt_with {A} {B} {P} {m} {k} p y q = record { kept = λ a. go a (m a).0 refl }
    where
      go :
          (a : Actor W) (r : RuntimeResult A)
          → (m a).0 ≡ r
          → R a
              ((elim r as (λ _. Act W (RuntimeResult B)) [ ok x ↦ k x | err e ↦ pure (err e) ])
                (m a).1).1
      go a (ok x) h = s.then_ (p.kept a) ((q x (y.yielded a x h)).kept (m a).1)
      go a (err e) h = p.kept a

module _ {W : Type 0} {R : Actor W → Actor W → Type 0} (s : Steady R) where
  pub Keeps-idle : Keeps R (set_state idle)
  unfolding set_state waiting holds_script
  Keeps-idle = record { kept = λ a. s.turns a idle refl refl }

  pub Keeps-take_state : Keeps R take_state
  unfolding take_state waiting holds_script
  Keeps-take_state = record { kept = λ a. s.turns a idle refl refl }

module _ {W A : Type 0} {P : A → Type 0} where
  pub Yields-ok : (x : A) → P x → Yields {W = W} P (pure (ok x))
  unfolding pure
  Yields-ok x h = record { yielded = λ a y e. rw (sym (ok_inj x y e)) h }

  pub Yields-bind :
      {B : Type 0} (m : Act W B) {k : B → Act W (RuntimeResult A)}
      → ((x : B) → Yields P (k x))
      → Yields P (m >>= k)
  unfolding ◌>>=◌
  Yields-bind m q = record { yielded = λ a x e. (q (m a).0).yielded (m a).1 x e }

  pub Yields-attempt :
      {B : Type 0} (m : Act W (RuntimeResult B)) {k : B → Act W (RuntimeResult A)}
      → ((x : B) → Yields P (k x))
      → Yields P (attempt m k)
  unfolding attempt pure
  Yields-attempt {B} m {k} q = Yields-bind m go
    where
      go : (r : RuntimeResult B) → Yields P (elim r [ ok x ↦ k x | err e ↦ pure (err e) ])
      go (ok x) = q x
      go (err e) = record { yielded = λ a x h. absurd (cc h) }
