-- ===== src/Session/Permission/Submissions.antt =====
-- No message that a client submits to crates/kraai-runtime/src/runtime/session/turn.rs starts a script
-- that is not permitted.
use kraai.Base.{Bool, false, ◌||◌, List, [], ◌∷◌, ltb, length, refl}
use kraai.Base.Utf8.{Bytes}
use kraai.Session.Runtime.{Runtime, ModelSelection, QueuedMessage}
use kraai.Session.Steady.{
  Keeps, holds_script, Keeps-bind, Keeps-pure, Keeps-gets, Keeps-call, Keeps-generation, Keeps-if,
  Keeps-bind_result, Keeps-attempt,
}
use kraai.Session.Messages.{Responder, send, PrepareRequest, initial}
use kraai.Session.Actor.{emit}
use kraai.Session.Steady.Turns.{drain-Keeps, ensure_lease-Keeps}
use kraai.Types.Conversation.{ImageAttachment, MessageContent, images}
use kraai.Session.Permission.{Permits, Permits-Calm, Permits-Steady}
use kraai.Session.Submission.{
  read_images, validate_submission, enqueue, exceeds_limit, max_image_attachments, submit,
  submit_when, send_message,
}
use kraai.Session.Turn.{begin_preparation}
use kraai.Session.Permission.Streams.{Keeps-reply, Keeps-free}

module _ {W : Type 0} ⦃rt : Runtime W⦄ (approved : Bytes → Bool) where
  -- A submission.
  read_images-Permits :
      (is : List ImageAttachment) → Keeps {W = W} (Permits approved) (read_images is)
  unfolding read_images
  read_images-Permits [] = Keeps-pure (Permits-Calm approved) _
  read_images-Permits (i ∷ rest) =
      Keeps-bind_result (Permits-Calm approved) (Keeps-call (Permits-Calm approved) _)
        (λ _. read_images-Permits rest) (λ e. Keeps-pure (Permits-Calm approved) _)

  begin_preparation-Permits :
      (x : Responder) (q : PrepareRequest)
      → Keeps {W = W} (Permits approved) (begin_preparation initial (send x) q false false)
  unfolding begin_preparation emit holds_script
  begin_preparation-Permits x q =
      Keeps-bind (Permits-Calm approved) (Keeps-generation (Permits-Calm approved)) λ g.
        Keeps-bind (Permits-Calm approved)
          (record { kept = λ a. (Permits-Steady approved).prepares a g q })
          λ _. Keeps-free approved _ refl

  enqueue-Permits :
      (busy : Bool) (m : QueuedMessage) (x : Responder)
      → Keeps {W = W} (Permits approved) (enqueue busy m x)
  unfolding enqueue
  enqueue-Permits busy m x =
      Keeps-bind_result (Permits-Calm approved)
        (Keeps-attempt (Permits-Calm approved) (ensure_lease-Keeps (Permits-Calm approved))
          λ _. Keeps-call (Permits-Calm approved) _)
        (λ p. Keeps-bind (Permits-Calm approved) (Keeps-reply approved x _) λ _.
          Keeps-if (Permits-Calm approved) busy (Keeps-pure (Permits-Calm approved) tt)
            (drain-Keeps (Permits-Steady approved)))
        (λ e. Keeps-reply approved x _)

  submit_when-Permits :
      (busy : Bool) (m : MessageContent) (q : ModelSelection) (x : Responder)
      → Keeps {W = W} (Permits approved) (submit_when busy m q x)
  unfolding submit_when
  submit_when-Permits busy m q x =
      Keeps-bind_result (Permits-Calm approved) (Keeps-call (Permits-Calm approved) _)
        (λ w. Keeps-if (Permits-Calm approved) (busy || w) (enqueue-Permits busy _ x) (
          Keeps-bind_result (Permits-Calm approved) (ensure_lease-Keeps (Permits-Calm approved))
            (λ _. begin_preparation-Permits x _) (λ e. Keeps-reply approved x _)))
        (λ e. Keeps-reply approved x _)

  pub send_message-Permits :
      (m : MessageContent) (q : ModelSelection) (x : Responder)
      → Keeps {W = W} (Permits approved) (send_message m q x)
  unfolding send_message validate_submission submit
  send_message-Permits m q x =
      Keeps-bind (Permits-Calm approved) (Keeps-gets (Permits-Calm approved) _) λ stopping.
        Keeps-if (Permits-Calm approved) stopping (Keeps-reply approved x _) (
          Keeps-bind_result (Permits-Calm approved)
            (Keeps-attempt (Permits-Calm approved) (Keeps-call (Permits-Calm approved) _) λ _.
              Keeps-if (Permits-Calm approved) (ltb max_image_attachments (length (images m)))
                (Keeps-pure (Permits-Calm approved) _)
                (Keeps-if (Permits-Calm approved) (exceeds_limit (images m))
                  (Keeps-pure (Permits-Calm approved) _) (read_images-Permits (images m))))
            (λ _.
              Keeps-bind (Permits-Calm approved) (Keeps-gets (Permits-Calm approved) _)
                λ busy. submit_when-Permits busy m q x)
            (λ e. Keeps-reply approved x _))
