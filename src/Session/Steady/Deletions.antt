-- ===== src/Session/Steady/Deletions.antt =====
-- crates/kraai-runtime/src/runtime/session/cancel.rs: the deletion of a session keeps a calm relation
-- that answers keep.
use kraai.Base.{true, false}
use kraai.Session.Runtime.{Runtime}
use kraai.Session.Steady.{
  Calm, Keeps, Keeps-bind, Keeps-pure, Keeps-gets, Keeps-call, Keeps-run, Keeps-bind_result,
}
use kraai.Session.Messages.{Responder, Reply}
use kraai.Session.Actor.{Actor, reply}
use kraai.Session.Deletion.{delete_now, script_active}
use kraai.Session.Steady.Turns.{release_turn-Keeps}

module _ {W : Type 0} ⦃rt : Runtime W⦄ {R : Actor W → Actor W → Type 0} (c : Calm R)
    (answers : (x : Responder) (y : Reply) → Keeps R (reply x y)) where
  pub delete_now-Keeps : (x : Responder) → Keeps R (delete_now x)
  unfolding delete_now
  delete_now-Keeps x = Keeps-bind c (Keeps-run c _) λ _.
      Keeps-bind_result c (Keeps-call c _)
        (λ _. Keeps-bind c (release_turn-Keeps c) λ _. Keeps-bind c (Keeps-run c _) λ _.
          Keeps-bind c (Keeps-run c _) λ _.
            Keeps-bind c (Keeps-run c _) λ _. Keeps-bind c (answers x _) λ _. Keeps-pure c true)
        (λ e. Keeps-bind c (answers x _) λ _. Keeps-pure c false)

  pub script_active-Keeps : (x : Responder) → Keeps R (script_active x)
  unfolding script_active
  script_active-Keeps x =
      Keeps-bind c (Keeps-gets c _) λ session. Keeps-bind c (answers x _) λ _. Keeps-pure c false
