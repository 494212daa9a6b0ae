-- ===== src/Session/Answers/Handlers.antt =====
-- How crates/kraai-runtime/src/runtime/session/actor.rs answers each message.
use kraai.Base.{ℕ, false, not, [], ◌∷◌, none, some, refl, arith}
use kraai.Base.Utf8.{Bytes}
use kraai.Session.Runtime.{Runtime}
use kraai.Session.Steady.{
  Keeps, Keeps-bind, Keeps-pure, Keeps-gets, Keeps-call, Keeps-run, Keeps-cancel_token, Keeps-if,
  Keeps-attempt,
}
use kraai.Session.Answers.{count, count-append, brings, responders, settled}
use kraai.Session.Answers.Judgements.{
  Replies, Accounts, Untouched, Untouched-Calm, Replies-none, Accounts-Replies, reply_one,
  Replies-bind, Accounts-bind, Accounts-after, Accounts-result,
}
use kraai.Session.Messages.{
  Responder, SessionMessage, send, cancel, approve, deny, pending_script, snapshot, set_mcp_servers,
  undo, delete, stop, prepared, stream, stream_ended, script_ended, TurnState, idle, preparing,
  streaming, awaiting_approval, running_script, Reply,
}
use kraai.Session.Actor.{Act, pure, ◌>>=◌, ◌>>◌, reply}
use kraai.Session.Approvals.{pending_script_info}
use kraai.Session.Deletion.{replace_servers, change_servers}
use kraai.Session.Run.{mark_stopping, cancel_child, stop_actor, take_snapshot, handle}
use kraai.Session.Answers.Preparations.{preparation_ended-Accounts}
use kraai.Session.Answers.Submissions.{send_message-Accounts}
use kraai.Session.Answers.Cancellations.{optional, cancel_session-Accounts, delete_session-Accounts}
use kraai.Session.Answers.Children.{
  approve_script-Accounts, deny_script-Accounts, stream_event-Accounts, script_ended-Accounts,
  stream_ended-Accounts,
}

module _ {W : Type 0} ⦃rt : Runtime W⦄ (r : ℕ) where
  -- A method's result is what the request is answered with.
  answering :
      {A : Type 0} {m : Act W A} (x : Responder) (f : A → Reply)
      → Accounts r 0 m
      → Accounts r (count r (x ∷ [])) (m >>= λ y. reply x (f y) >> pure false)
  answering x f p =
      Accounts-bind {k = count r (x ∷ [])} p
        (λ y.
          Accounts-bind {k = 0} (Accounts-Replies (reply_one x (f y)))
            (λ _. Accounts-Replies (Replies-none (Keeps-pure (Untouched-Calm r) false)))
            (omega arith))
        (omega arith)

  unanswered : {m : Act W (Unit {0})} {n : ℕ} → Accounts r n m → Accounts r n (m >> pure false)
  unanswered p =
      Accounts-bind p (λ _. Accounts-Replies (Replies-none (Keeps-pure (Untouched-Calm r) false)))
        (omega arith)

  still : {A : Type 0} {m : Act W A} → Keeps (Untouched r) m → Accounts r 0 m
  still p = Accounts-Replies (Replies-none p)

  replace_servers-Keeps : (c : Bytes) → Keeps {W = W} (Untouched r) (replace_servers c)
  unfolding replace_servers
  replace_servers-Keeps c =
      Keeps-attempt (Untouched-Calm r) (Keeps-call (Untouched-Calm r) _) λ previous.
        Keeps-bind (Untouched-Calm r)
          (Keeps-if (Untouched-Calm r) previous (Keeps-run (Untouched-Calm r) _)
            (Keeps-pure (Untouched-Calm r) tt))
          λ _. Keeps-pure (Untouched-Calm r) _

  change_servers-Keeps : (c : Bytes) → Keeps {W = W} (Untouched r) (change_servers c)
  unfolding change_servers
  change_servers-Keeps c = Keeps-bind (Untouched-Calm r) (Keeps-gets (Untouched-Calm r) _) λ idling.
      Keeps-if (Untouched-Calm r) (not idling) (Keeps-pure (Untouched-Calm r) _) (
        Keeps-attempt (Untouched-Calm r) (Keeps-call (Untouched-Calm r) _) λ waiting.
          Keeps-if (Untouched-Calm r) waiting (Keeps-pure (Untouched-Calm r) _)
            (replace_servers-Keeps c))

  cancel_child-Keeps : (s : TurnState) → Keeps {W = W} (Untouched r) (cancel_child s)
  unfolding cancel_child
  cancel_child-Keeps (streaming j) = Keeps-cancel_token (Untouched-Calm r) _
  cancel_child-Keeps (running_script j) = Keeps-cancel_token (Untouched-Calm r) _
  cancel_child-Keeps idle = Keeps-pure (Untouched-Calm r) tt
  cancel_child-Keeps (preparing p) = Keeps-pure (Untouched-Calm r) tt
  cancel_child-Keeps (awaiting_approval p) = Keeps-pure (Untouched-Calm r) tt

  stop_actor-Replies : (x : Responder) → Replies {W = W} r (count r (x ∷ [])) (stop_actor x)
  unfolding stop_actor mark_stopping settled count
  stop_actor-Replies x =
      Replies-bind kept_for_later
        (λ _.
          Replies-none
            (Keeps-bind (Untouched-Calm r) (Keeps-gets (Untouched-Calm r) _) cancel_child-Keeps))
        (omega arith)
    where
      kept_for_later : Replies {W = W} r (count r (x ∷ [])) (mark_stopping x)
      kept_for_later = record {
        replied = λ a. (refl, omega (arith, count-append r a.stopped (x ∷ [])));
      }

  take_snapshot-Accounts : (x : Responder) → Accounts {W = W} r (count r (x ∷ [])) (take_snapshot x)
  unfolding take_snapshot pending_script_info
  take_snapshot-Accounts x =
      Accounts-result (Keeps-call (Untouched-Calm r) _)
        (λ seen. Accounts-after (Keeps-gets (Untouched-Calm r) _) λ info.
          Accounts-after (Keeps-gets (Untouched-Calm r) _) λ s. Accounts-Replies (reply_one x _))
        (λ e. Accounts-Replies (reply_one x _))

  -- A message's responder is answered, or held until it is.
  pub handle-Accounts : (m : SessionMessage) → Accounts {W = W} r (brings r m) (handle m)
  unfolding handle brings responders count optional pending_script_info
  handle-Accounts (send m q x) = unanswered (send_message-Accounts r m q x)
  handle-Accounts (cancel d l none) = unanswered (cancel_session-Accounts r d l none)
  handle-Accounts (cancel d l (some x)) = unanswered (cancel_session-Accounts r d l (some x))
  handle-Accounts (approve id x) = answering x _ (approve_script-Accounts r id)
  handle-Accounts (deny id x) = answering x _ (deny_script-Accounts r id)
  handle-Accounts (pending_script x) = answering x _ (still (Keeps-gets (Untouched-Calm r) _))
  handle-Accounts (snapshot x) = unanswered (take_snapshot-Accounts x)
  handle-Accounts (set_mcp_servers c x) = answering x _ (still (change_servers-Keeps c))
  handle-Accounts (undo x) = answering x _ (still (Keeps-call (Untouched-Calm r) _))
  handle-Accounts (delete x) = delete_session-Accounts r x
  handle-Accounts (stop x) = unanswered (Accounts-Replies (stop_actor-Replies x))
  handle-Accounts (prepared g o) = unanswered (preparation_ended-Accounts r g o)
  handle-Accounts (stream g e) = unanswered (stream_event-Accounts r g e)
  handle-Accounts (stream_ended g x) = unanswered (stream_ended-Accounts r g x)
  handle-Accounts (script_ended g x) = unanswered (script_ended-Accounts r g x)
