-- ===== src/Session/Deferred.antt =====
-- The deferred messages of crates/kraai-runtime/src/runtime/session/actor.rs, taken one by one.
use kraai.Base.{◌≡◌, refl, List, [], ◌∷◌, none, some}
use kraai.Session.Runtime.{Runtime}
use kraai.Session.Messages.{SessionMessage}
use kraai.Session.Actor.{Actor}
use kraai.Session.Run.{take_deferred}

module _ {W : Type 0} ⦃rt : Runtime W⦄ where
  pub take_deferred-none : (a : Actor W) → a.deferred ≡ [] → take_deferred a ≡ (none, a)
  unfolding take_deferred
  take_deferred-none a e = rw e refl

  pub take_deferred-some :
      (m : SessionMessage) (rest : List SessionMessage) (a : Actor W)
      → a.deferred ≡ m ∷ rest
      → take_deferred a ≡ (some m, record a { deferred = rest })
  unfolding take_deferred
  take_deferred-some m rest a e = rw e refl
