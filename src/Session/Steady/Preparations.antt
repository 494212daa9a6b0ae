-- ===== src/Session/Steady/Preparations.antt =====
-- crates/kraai-runtime/src/runtime/session/turn.rs: what follows a preparation keeps a steady relation,
-- but for the answers.
use kraai.Base.{Bool, true, not, ◌&&◌, is_empty, refl}
use kraai.Session.Errors.{RuntimeError}
use kraai.Session.Runtime.{Runtime}
use kraai.Session.Steady.{
  Steady, Keeps, waiting, holds_script, Keeps-bind, Keeps-pure, Keeps-gets, Keeps-event,
  Keeps-generation, Keeps-if, Keeps-when,
}
use kraai.Session.Actor.{Actor, emit, set_state}
use kraai.Session.Steady.Turns.{finish_turn-Keeps, drain-Keeps, start_continuation-Keeps}
use kraai.Session.Messages.{
  StreamKind, PreparationOrigin, send, continue, queue, PendingStreamRequest,
}
use kraai.Session.Prepared.{start_stream, finish_unless_queued, continuation_unprepared}

module _ {W : Type 0} ⦃rt : Runtime W⦄ {R : Actor W → Actor W → Type 0} (s : Steady R) where
  pub start_stream-Keeps : (k : StreamKind) (q : PendingStreamRequest) → Keeps R (start_stream k q)
  unfolding start_stream emit set_state waiting holds_script
  start_stream-Keeps k q = Keeps-bind s.calm (Keeps-generation s.calm) λ g.
      Keeps-bind s.calm (Keeps-event s.calm _) λ _.
        Keeps-bind s.calm
          (Keeps-when s.calm (not (is_empty q.context_notifications)) (Keeps-event s.calm _))
          λ _.
            Keeps-bind s.calm (record { kept = λ a. s.streams a g _ })
              λ _. record { kept = λ a. s.turns a _ refl refl }

  pub finish_unless_queued-Keeps : (o : PreparationOrigin) → Keeps R (finish_unless_queued o)
  unfolding finish_unless_queued
  finish_unless_queued-Keeps queue = Keeps-pure s.calm tt
  finish_unless_queued-Keeps continue = finish_turn-Keeps s
  finish_unless_queued-Keeps (send x) = finish_turn-Keeps s

  pub continuation_unprepared-Keeps :
      (i t : Bool) (e : RuntimeError) → Keeps R (continuation_unprepared i t e)
  unfolding continuation_unprepared
  continuation_unprepared-Keeps i t e = Keeps-bind s.calm (Keeps-gets s.calm _) λ stopping.
      Keeps-if s.calm (i && not t && not stopping) (start_continuation-Keeps s true) (
        Keeps-bind s.calm (finish_turn-Keeps s) λ _.
          Keeps-bind s.calm (Keeps-if s.calm i (Keeps-pure s.calm tt) (drain-Keeps s))
            λ _. Keeps-event s.calm _)
