-- ===== src/Session/Steady/Turns.antt =====
-- crates/kraai-runtime/src/runtime/session/turn.rs and session_maintenance.rs: the methods that end a
-- turn and begin the next one keep a steady relation.
use kraai.Base.{Bool, false, List, [], Option, none, some, ◌≡◌, refl}
use kraai.Session.Runtime.{Runtime, ModelSelection, QueuedEntry}
use kraai.Session.Steady.{
  Calm, Steady, Keeps, waiting, holds_script, origin_waiters, Keeps-bind, Keeps-pure, Keeps-gets,
  Keeps-call, Keeps-run, Keeps-event, Keeps-idle, Keeps-generation, Keeps-if, Keeps-bind_result,
  Keeps-attempt,
}
use kraai.Session.Messages.{PreparationOrigin, send, continue, queue, StreamKind, PrepareRequest}
use kraai.Session.Actor.{Actor, emit, set_state}
use kraai.Session.Lease.{release_turn, finish_turn, ensure_lease}
use kraai.Session.Turn.{
  begin_preparation, begin_queued, start_continuation, continue_turn, occupied, drain,
  last_selection,
}

module _ {W : Type 0} ⦃rt : Runtime W⦄ {R : Actor W → Actor W → Type 0} (c : Calm R) where
  pub release_turn-Keeps : Keeps R release_turn
  unfolding release_turn
  release_turn-Keeps = Keeps-bind c (Keeps-run c _) λ _.
      Keeps-bind_result c (Keeps-attempt c (Keeps-call c _) λ t. Keeps-call c _)
        (λ b. Keeps-if c b (Keeps-pure c tt) (Keeps-run c _)) (λ e. Keeps-event c _)

  pub ensure_lease-Keeps : Keeps R ensure_lease
  unfolding ensure_lease
  ensure_lease-Keeps = Keeps-attempt c (Keeps-call c _) λ owned. Keeps-if c owned (Keeps-pure c _) (
      Keeps-attempt c (Keeps-call c _) λ _.
        Keeps-bind_result c (Keeps-call c _) (λ _. Keeps-pure c _)
          λ e. Keeps-bind c release_turn-Keeps λ _. Keeps-pure c _)

module _ {W : Type 0} ⦃rt : Runtime W⦄ {R : Actor W → Actor W → Type 0} (s : Steady R) where
  pub finish_turn-Keeps : Keeps R finish_turn
  unfolding finish_turn
  finish_turn-Keeps = Keeps-bind s.calm (Keeps-idle s) λ _.
      Keeps-bind s.calm (Keeps-run s.calm _)
        λ _. Keeps-bind s.calm (Keeps-run s.calm _) λ _. release_turn-Keeps s.calm

  -- A preparation that nobody waits for.
  pub begin_preparation-Keeps :
      (k : StreamKind) (o : PreparationOrigin) (q : PrepareRequest) (i r : Bool)
      → origin_waiters o ≡ []
      → Keeps R (begin_preparation k o q i r)
  unfolding begin_preparation set_state waiting holds_script origin_waiters emit
  begin_preparation-Keeps k continue q i r h = Keeps-bind s.calm (Keeps-generation s.calm) λ g.
      Keeps-bind s.calm (record { kept = λ a. s.prepares a g q })
        λ _. record { kept = λ a. s.turns a _ refl refl }
  begin_preparation-Keeps k queue q i r h = Keeps-bind s.calm (Keeps-generation s.calm) λ g.
      Keeps-bind s.calm (record { kept = λ a. s.prepares a g q })
        λ _. record { kept = λ a. s.turns a _ refl refl }
  begin_preparation-Keeps k (send r') q i r h = absurd (cc (h))

  pub start_continuation-Keeps : (retried : Bool) → Keeps R (start_continuation retried)
  unfolding start_continuation origin_waiters
  start_continuation-Keeps retried =
      Keeps-bind_result s.calm
        (Keeps-attempt s.calm (Keeps-call s.calm _) λ queued.
          Keeps-bind_result s.calm (ensure_lease-Keeps s.calm) (λ _. Keeps-pure s.calm _)
            (λ _. Keeps-pure s.calm _))
        (λ queued. begin_preparation-Keeps _ continue _ _ retried refl) (λ _. Keeps-pure s.calm tt)

  pub continue_turn-Keeps : Keeps R continue_turn
  unfolding continue_turn
  continue_turn-Keeps =
      Keeps-bind s.calm (Keeps-gets s.calm _)
        λ stopping. Keeps-if s.calm stopping (Keeps-pure s.calm tt) (start_continuation-Keeps false)

  begin_queued-Keeps :
      (entries : List QueuedEntry) (o : Option ModelSelection) → Keeps R (begin_queued entries o)
  unfolding begin_queued origin_waiters
  begin_queued-Keeps entries none = Keeps-pure s.calm tt
  begin_queued-Keeps entries (some m) = begin_preparation-Keeps _ queue _ false false refl

  pub drain-Keeps : Keeps R drain
  unfolding drain occupied
  drain-Keeps =
      Keeps-bind s.calm (Keeps-bind s.calm (Keeps-gets s.calm _) λ a. Keeps-pure s.calm _)
        λ refused. Keeps-if s.calm refused (Keeps-pure s.calm tt) (
          Keeps-bind_result s.calm (Keeps-call s.calm _)
            (λ queued. begin_queued-Keeps queued (last_selection queued))
            (λ e. Keeps-event s.calm _))
