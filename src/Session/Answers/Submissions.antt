-- ===== src/Session/Answers/Submissions.antt =====
-- How crates/kraai-runtime/src/runtime/session/turn.rs answers a message that a client submits.
use kraai.Base.{
  ℕ, Bool, true, false, not, ◌||◌, List, [], ◌∷◌, ltb, ◌+◌, length, ◌≡◌, refl, arith, ap,
  Bool-cases, inl, inr,
}
use kraai.Session.Runtime.{Runtime, ModelSelection, QueuedMessage}
use kraai.Session.Steady.{
  Keeps, waiting, origin_waiters, Keeps-pure, Keeps-gets, Keeps-call, Keeps-if, Keeps-bind_result,
  Keeps-attempt, cancel_waiters,
}
use kraai.Session.Answers.{count, answered, settled, held}
use kraai.Session.Answers.Judgements.{
  Ends, Accounts, Untouched, Quiet-Calm, Quiet-Steady, Untouched-Calm, Replies-none, Ends-Replies,
  Accounts-Replies, Ends-quiet, Ends-if, Accounts-if, reply_one, Ends-then, Accounts-bind,
  Accounts-after, Ends-result, Accounts-result,
}
use kraai.Types.Conversation.{ImageAttachment, MessageContent, images}
use kraai.Session.Messages.{
  Responder, TurnState, idle, preparing, streaming, awaiting_approval, running_script, send,
  PrepareRequest, initial,
}
use kraai.Session.Actor.{Actor, pure, gets, emit, set_state, ◌>>=◌, is_idle, generation}
use kraai.Session.Turn.{begin_preparation, drain, occupied}
use kraai.Session.Submission.{
  read_images, validate_submission, enqueue, exceeds_limit, max_image_attachments, submit,
  submit_when, send_message,
}
use kraai.Session.Steady.Turns.{ensure_lease-Keeps, drain-Keeps}

or_true : (x y : Bool) → (x || true || y) ≡ true
or_true true y = refl
or_true false y = refl

pub is_idle-true : (s : TurnState) → is_idle s ≡ true → s ≡ idle
is_idle-true idle e = refl
is_idle-true (preparing p) e = absurd (cc e)
is_idle-true (streaming j) e = absurd (cc e)
is_idle-true (awaiting_approval p) e = absurd (cc e)
is_idle-true (running_script j) e = absurd (cc e)

module _ {W : Type 0} ⦃rt : Runtime W⦄ (r : ℕ) where
  -- A preparation that holds the responder of the message it begins with.
  begin_preparation-Ends :
      (x : Responder) (q : PrepareRequest)
      → Ends {W = W} r (count r (x ∷ [])) (begin_preparation initial (send x) q false false)
  unfolding begin_preparation emit ◌>>=◌ generation set_state held waiting origin_waiters
      cancel_waiters settled answered
  begin_preparation-Ends x q = record { ended = λ a h. omega arith }

  -- `drain` does nothing unless the session is idle.
  drain_busy : (a : Actor W) → is_idle a.state ≡ false → (drain a).1 ≡ a
  unfolding drain occupied ◌>>=◌ gets pure
  drain_busy a h = rw (h, or_true a.stopping (rt.is_turn_active a.world)) refl

  held_idle : (a : Actor W) → a.state ≡ idle → held r a ≡ 0
  unfolding held waiting count
  held_idle a e = ap (λ s. count r (waiting s)) e

  pub drain-Accounts : Accounts {W = W} r 0 drain
  drain-Accounts = record {
    accounted = λ a. elim (Bool-cases (is_idle a.state)) [
      | inl e ↦ omega (
        arith,
        held_idle a (is_idle-true a.state e),
        (Ends-quiet (drain-Keeps (Quiet-Steady r))).ended a (held_idle a (is_idle-true a.state e)),
      )
      | inr e ↦ rw (drain_busy a e) omega arith
    ];
  }

  -- The part of a submission that no other client's request comes between.
  read_images-Keeps : (is : List ImageAttachment) → Keeps {W = W} (Untouched r) (read_images is)
  unfolding read_images
  read_images-Keeps [] = Keeps-pure (Untouched-Calm r) _
  read_images-Keeps (i ∷ rest) =
      Keeps-bind_result (Untouched-Calm r) (Keeps-call (Untouched-Calm r) _)
        (λ _. read_images-Keeps rest) (λ e. Keeps-pure (Untouched-Calm r) _)

  validate_submission-Keeps :
      (m : MessageContent) (q : ModelSelection)
      → Keeps {W = W} (Untouched r) (validate_submission m q)
  unfolding validate_submission
  validate_submission-Keeps m q =
      Keeps-attempt (Untouched-Calm r) (Keeps-call (Untouched-Calm r) _) λ _.
        Keeps-if (Untouched-Calm r) (ltb max_image_attachments (length (images m)))
          (Keeps-pure (Untouched-Calm r) _)
          (Keeps-if (Untouched-Calm r) (exceeds_limit (images m)) (Keeps-pure (Untouched-Calm r) _)
            (read_images-Keeps (images m)))

  enqueue-Ends :
      (busy : Bool) (m : QueuedMessage) (x : Responder)
      → Ends {W = W} r (count r (x ∷ [])) (enqueue busy m x)
  unfolding enqueue
  enqueue-Ends busy m x =
      Ends-result
        (Keeps-attempt (Quiet-Calm r) (ensure_lease-Keeps (Quiet-Calm r))
          λ _. Keeps-call (Quiet-Calm r) _)
        (λ p.
          Ends-then (reply_one x _)
            (λ _.
              Ends-if busy (Ends-quiet (Keeps-pure (Quiet-Calm r) tt))
                (Ends-quiet (drain-Keeps (Quiet-Steady r))))
            (omega arith))
        (λ e. Ends-Replies (reply_one x _))

  enqueue_busy-Accounts :
      (m : QueuedMessage) (x : Responder) → Accounts {W = W} r (count r (x ∷ [])) (enqueue true m x)
  unfolding enqueue
  enqueue_busy-Accounts m x =
      Accounts-result
        (Keeps-attempt (Untouched-Calm r) (ensure_lease-Keeps (Untouched-Calm r))
          λ _. Keeps-call (Untouched-Calm r) _)
        (λ p.
          Accounts-bind (Accounts-Replies (reply_one x _))
            (λ _. Accounts-Replies (Replies-none (Keeps-pure (Untouched-Calm r) tt))) (omega arith))
        (λ e. Accounts-Replies (reply_one x _))

  submit_when-Ends :
      (busy : Bool) (m : MessageContent) (q : ModelSelection) (x : Responder)
      → Ends {W = W} r (count r (x ∷ [])) (submit_when busy m q x)
  unfolding submit_when
  submit_when-Ends busy m q x =
      Ends-result (Keeps-call (Quiet-Calm r) _)
        (λ w. Ends-if (busy || w) (enqueue-Ends busy _ x) (
          Ends-result (ensure_lease-Keeps (Quiet-Calm r)) (λ _. begin_preparation-Ends x _)
            (λ e. Ends-Replies (reply_one x _))))
        (λ e. Ends-Replies (reply_one x _))

  submit_busy-Accounts :
      (m : MessageContent) (q : ModelSelection) (x : Responder)
      → Accounts {W = W} r (count r (x ∷ [])) (submit_when true m q x)
  unfolding submit_when
  submit_busy-Accounts m q x =
      Accounts-result (Keeps-call (Untouched-Calm r) _) (λ w. enqueue_busy-Accounts _ x)
        (λ e. Accounts-Replies (reply_one x _))

  submit_when_idle :
      (m : MessageContent) (q : ModelSelection) (x : Responder) (a : Actor W)
      → a.state ≡ idle
      → settled r (submit m q x a).1 + held r (submit m q x a).1
        ≡ count r (x ∷ []) + (settled r a + held r a)
  unfolding submit ◌>>=◌ gets
  submit_when_idle m q x a e = omega (
    arith,
    held_idle a e,
    (submit_when-Ends (not (is_idle a.state) || rt.is_turn_active a.world) m q x).ended a
        (held_idle a e),
  )

  submit_busy :
      (m : MessageContent) (q : ModelSelection) (x : Responder) (a : Actor W)
      → is_idle a.state ≡ false
      → submit m q x a ≡ submit_when true m q x a
  unfolding submit ◌>>=◌ gets
  submit_busy m q x a h = ap (λ b. submit_when (not b || rt.is_turn_active a.world) m q x a) h

  -- A session that is not idle is busy, so nothing is begun over what its turn holds.
  submit-Accounts :
      (m : MessageContent) (q : ModelSelection) (x : Responder)
      → Accounts {W = W} r (count r (x ∷ [])) (submit m q x)
  submit-Accounts m q x = record {
    accounted = λ a. elim (Bool-cases (is_idle a.state)) [
      | inl e ↦ submit_when_idle m q x a (is_idle-true a.state e)
      | inr e ↦ rw (submit_busy m q x a e) ((submit_busy-Accounts m q x).accounted a)
    ];
  }

  pub send_message-Accounts :
      (m : MessageContent) (q : ModelSelection) (x : Responder)
      → Accounts {W = W} r (count r (x ∷ [])) (send_message m q x)
  unfolding send_message
  send_message-Accounts m q x = Accounts-after (Keeps-gets (Untouched-Calm r) _) λ stopping.
      Accounts-if stopping (Accounts-Replies (reply_one x _)) (
        Accounts-result (validate_submission-Keeps m q) (λ _. submit-Accounts m q x)
          (λ e. Accounts-Replies (reply_one x _)))
