-- ===== src/Session/Answers.antt =====
-- How often a responder of crates/kraai-runtime/src/runtime/session has been answered, and where an
-- actor holds it until then.
use kraai.Base.{
  ℕ, Bool, true, false, not, ◌&&◌, ◌||◌, List, [], ◌∷◌, ◌++◌, Option, none, some, if◌then◌else◌,
  ◌==◌, ltb, ◌+◌, length, is_empty, map, any, ◌≡◌, refl, arith, ◌∙◌, sym, ap,
}
use kraai.Base.Utf8.{Bytes, bytes_eq}
use kraai.Base.Literals.{utf8}
use kraai.Base.Integers.{ℤ}
use kraai.Base.Results.{Result, ok, err}
use kraai.Session.Errors.{
  RuntimeError, RuntimeResult, invalid_argument, not_found, conflict, unavailable, internal,
  failure,
}
use kraai.Session.Runtime.{
  Runtime, ModelSelection, QueuedMessage, QueuedEntry, StreamedItem, Observed,
}
use kraai.Session.Steady.{
  Calm, Steady, Keeps, waiting, holds_script, origin_waiters, IsDecided, Keeps-bind, Keeps-pure,
  Keeps-gets, Keeps-ask, Keeps-call, Keeps-run, Keeps-event, Keeps-cancel_token, Keeps-idle,
  Keeps-take_state, Keeps-generation, Keeps-if, Keeps-when, Keeps-bind_result, Keeps-bind_option,
  Keeps-attempt,
}
use kraai.Session.Messages.{
  Responder, SessionMessage, send, cancel, approve, deny, pending_script, snapshot, set_mcp_servers,
  undo, delete, stop, TurnState, idle, Effect, answer, Reply,
}
use kraai.Session.Actor.{
  Actor, Act, pure, gets, call, ask, run, emit, set_state, take_state, ◌>>=◌, ◌>>◌, attempt, when,
  reply, send_event, cancel_job, is_idle, generation,
}
pub mod Judgements
pub mod Methods
pub mod Preparations
pub mod Submissions
pub mod Cancellations
pub mod Children
pub mod Handlers
pub mod Exit
pub mod Loop

unfoldable pub count : ℕ → List ℕ → ℕ
count r [] = 0
count r (x ∷ xs) = (if x == r then 1 else 0) + count r xs

pub count-append : (r : ℕ) (xs ys : List ℕ) → count r (xs ++ ys) ≡ count r xs + count r ys
unfolding count
count-append r [] ys = omega arith
count-append r (x ∷ xs) ys = omega (arith, count-append r xs ys)

-- The responders of a message.
unfoldable pub responders : SessionMessage → List Responder
responders (send m s r) = r ∷ []
responders (cancel d l none) = []
responders (cancel d l (some r)) = r ∷ []
responders (approve id r) = r ∷ []
responders (deny id r) = r ∷ []
responders (pending_script r) = r ∷ []
responders (snapshot r) = r ∷ []
responders (set_mcp_servers c r) = r ∷ []
responders (undo r) = r ∷ []
responders (delete r) = r ∷ []
responders (stop r) = r ∷ []
responders _ = []

unfoldable pub brings : ℕ → SessionMessage → ℕ
unfolding responders count
brings r m = count r (responders m)

unfoldable pub brought : ℕ → List SessionMessage → ℕ
unfolding brings
brought r [] = 0
brought r (m ∷ ms) = brings r m + brought r ms

pub brought-append :
    (r : ℕ) (ms ns : List SessionMessage) → brought r (ms ++ ns) ≡ brought r ms + brought r ns
unfolding brought
brought-append r [] ns = omega arith
brought-append r (m ∷ ms) ns = omega (arith, brought-append r ms ns)

-- How often the log answers a responder.
unfoldable pub answered : ℕ → List Effect → ℕ
answered r [] = 0
answered r (answer x y ∷ log) = (if x == r then 1 else 0) + answered r log
answered r (_ ∷ log) = answered r log

module _ {W : Type 0} where
  -- What has been answered, and what waits outside the turn.
  unfoldable pub settled : ℕ → Actor W → ℕ
  unfolding answered brought count
  settled r a = answered r a.log + brought r a.deferred + count r a.stopped

  -- What the turn holds.
  unfoldable pub held : ℕ → Actor W → ℕ
  unfolding waiting count
  held r a = count r (waiting a.state)
