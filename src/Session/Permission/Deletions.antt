-- ===== src/Session/Permission/Deletions.antt =====
-- No deletion in crates/kraai-runtime/src/runtime/session/cancel.rs starts a script that is not
-- permitted.
use kraai.Base.{Bool, false, ◌||◌, List, [], ◌∷◌, ◌++◌, ◌≡◌, refl, ◌∙◌, ap}
use kraai.Base.Utf8.{Bytes, bytes_eq}
use kraai.Session.Runtime.{Runtime}
use kraai.Session.Steady.{Keeps, Keeps-bind, Keeps-pure, Keeps-cancel_token}
use kraai.Session.Messages.{
  Responder, SessionMessage, cancel, approve, deny, pending_script, snapshot, set_mcp_servers, undo,
  delete, stop, prepared, stream, stream_ended, script_ended, TurnState, idle, preparing, streaming,
  awaiting_approval, running_script, send,
}
use kraai.Session.Deletion.{delete_now, defer, script_active, delete_in}
use kraai.Session.Steady.Deletions.{delete_now-Keeps, script_active-Keeps}
use kraai.Session.Permission.{Permits, Permits-Calm, approves}
use kraai.Session.Permission.Streams.{Keeps-reply}
use kraai.Session.Permission.Handlers.{KeepsFrom, from_Keeps, put_back, from_bind}

approves-deferred :
    (ms : List SessionMessage) (x : Responder) (y : Bytes)
    → approves ms y ≡ approves (ms ++ delete x ∷ []) y
unfolding approves
approves-deferred [] x y = refl
approves-deferred (approve id r ∷ ms) x y = ap (λ b. bytes_eq y id || b) (approves-deferred ms x y)
approves-deferred (send m q r ∷ ms) x y = approves-deferred ms x y
approves-deferred (cancel d l o ∷ ms) x y = approves-deferred ms x y
approves-deferred (deny id r ∷ ms) x y = approves-deferred ms x y
approves-deferred (pending_script r ∷ ms) x y = approves-deferred ms x y
approves-deferred (snapshot r ∷ ms) x y = approves-deferred ms x y
approves-deferred (set_mcp_servers c r ∷ ms) x y = approves-deferred ms x y
approves-deferred (undo r ∷ ms) x y = approves-deferred ms x y
approves-deferred (delete r ∷ ms) x y = approves-deferred ms x y
approves-deferred (stop r ∷ ms) x y = approves-deferred ms x y
approves-deferred (prepared g o ∷ ms) x y = approves-deferred ms x y
approves-deferred (stream g e ∷ ms) x y = approves-deferred ms x y
approves-deferred (stream_ended g e ∷ ms) x y = approves-deferred ms x y
approves-deferred (script_ended g e ∷ ms) x y = approves-deferred ms x y

module _ {W : Type 0} ⦃rt : Runtime W⦄ (approved : Bytes → Bool) where
  -- A deletion; a message that is deferred approves nothing.
  delete_now-Permits : (x : Responder) → Keeps {W = W} (Permits approved) (delete_now x)
  delete_now-Permits x = delete_now-Keeps (Permits-Calm approved) (Keeps-reply approved) x

  defer-Permits : (x : Responder) → Keeps {W = W} (Permits approved) (defer (delete x))
  unfolding defer
  defer-Permits x = record {
    kept = λ a i. record {
      granted = i.granted;
      pending_ = i.pending_;
      deferred_ = λ y e. i.deferred_ y (approves-deferred a.deferred x y ∙ e);
    };
  }

  script_active-Permits : (x : Responder) → Keeps {W = W} (Permits approved) (script_active x)
  script_active-Permits x = script_active-Keeps (Permits-Calm approved) (Keeps-reply approved) x

  pub delete_in-Permits :
      (x : Responder) (s : TurnState) → KeepsFrom {W = W} approved s (delete_in x s)
  unfolding delete_in
  delete_in-Permits x (running_script j) =
      from_bind approved (put_back approved (running_script j)) λ _. script_active-Permits x
  delete_in-Permits x (awaiting_approval p) =
      from_bind approved (put_back approved (awaiting_approval p)) λ _. script_active-Permits x
  delete_in-Permits x (preparing p) =
      from_bind approved (from_bind approved (put_back approved (preparing p)) λ _. defer-Permits x)
        λ _. Keeps-pure (Permits-Calm approved) false
  delete_in-Permits x (streaming j) = from_Keeps approved (
      Keeps-bind (Permits-Calm approved) (Keeps-cancel_token (Permits-Calm approved) _)
        λ _. delete_now-Permits x)
  delete_in-Permits x idle = from_Keeps approved (delete_now-Permits x)
