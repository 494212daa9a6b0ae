-- ===== src/Session/Submission.antt =====
-- crates/kraai-runtime/src/runtime/session/turn.rs: a message that a client submits.
use kraai.Base.{
  ℕ, Bool, true, false, not, ◌||◌, List, [], ◌∷◌, Option, none, some, if◌then◌else◌, ltb, ◌+◌,
  length, u64_max,
}
use kraai.Base.Literals.{utf8}
use kraai.Base.Results.{ok, err}
use kraai.Session.Errors.{RuntimeResult, invalid_argument, unavailable, internal, failure}
use kraai.Session.Runtime.{Runtime, ModelSelection, QueuedMessage}
use kraai.Types.Conversation.{ImageAttachment, MessageContent, images}
use kraai.Agent.Compaction.{max_request_image_bytes}
use kraai.Session.Messages.{Responder, send, initial, PrepareRequest, queued, submitted}
use kraai.Session.Actor.{Act, pure, gets, call, ◌>>=◌, ◌>>◌, attempt, reply, is_idle}
use kraai.Session.Lease.{ensure_lease}
use kraai.Session.Turn.{begin_preparation, drain}

abbrev pub max_image_attachments : ℕ
max_image_attachments = 8

-- `try_fold` of `checked_add` over the byte lengths.
unfoldable pub total_byte_length : ℕ → List ImageAttachment → Option ℕ
total_byte_length total [] = some total
total_byte_length total (i ∷ rest) =
    if ltb u64_max (total + i.byte_length)
    then none
    else total_byte_length (total + i.byte_length) rest

-- `is_none_or` of the comparison with the limit.
unfoldable pub exceeds_limit : List ImageAttachment → Bool
exceeds_limit is = elim (total_byte_length 0 is) [
  | none ↦ true
  | some total ↦ ltb max_request_image_bytes total
]

module _ {W : Type 0} ⦃rt : Runtime W⦄ where
  unfoldable pub read_images : List ImageAttachment → Act W (RuntimeResult (Unit {0}))
  read_images [] = pure (ok tt)
  read_images (i ∷ rest) = call (rt.read_image i) >>= λ r. elim r [
    | ok _ ↦ read_images rest
    | err e ↦ pure (err (failure internal e.message))
  ]

  unfoldable pub validate_submission :
      MessageContent → ModelSelection → Act W (RuntimeResult (Unit {0}))
  unfolding read_images
  validate_submission message selection = attempt (call (rt.validate_model_options selection)) λ _.
      if ltb max_image_attachments (length (images message))
      then pure (err (failure invalid_argument (utf8 "Too many image attachments")))
      else if exceeds_limit (images message)
      then pure
          (err (failure invalid_argument (utf8 "Image attachments exceed the request byte limit")))
      else read_images (images message)

  -- A message that finds the session busy, or other messages waiting.
  unfoldable pub enqueue : Bool → QueuedMessage → Responder → Act W (Unit {0})
  unfolding ensure_lease drain
  enqueue busy message r =
      attempt ensure_lease (λ _. call (rt.enqueue_message message)) >>= λ position. elim position [
        | ok p ↦ reply r (submitted (ok (queued p))) >> (if busy then pure tt else drain)
        | err e ↦ reply r (submitted (err e))
      ]

  -- A message that may be sent at once, unless the session is busy or others wait before it.
  unfoldable pub submit_when : Bool → MessageContent → ModelSelection → Responder → Act W (Unit {0})
  unfolding enqueue begin_preparation ensure_lease
  submit_when busy message selection r = call rt.has_queued_messages >>= λ waiting. elim waiting [
    | ok w ↦
        if busy || w
        then enqueue busy (record { content = message; selection = selection }) r
        else ensure_lease >>= λ lease. elim lease [
          | ok _ ↦
              begin_preparation initial (send r) (PrepareRequest.start message selection) false
                false
          | err e ↦ reply r (submitted (err e))
        ]
    | err e ↦ reply r (submitted (err e))
  ]

  unfoldable pub submit : MessageContent → ModelSelection → Responder → Act W (Unit {0})
  unfolding submit_when
  submit message selection r = do
    busy ← gets (λ a. not (is_idle a.state) || rt.is_turn_active a.world)
    submit_when busy message selection r

  -- `send`.
  unfoldable pub send_message : MessageContent → ModelSelection → Responder → Act W (Unit {0})
  unfolding validate_submission submit
  send_message message selection r = do
    stopping ← gets (λ a. a.stopping)
    if stopping
        then reply r (submitted (err (failure unavailable (utf8 "Runtime is stopping"))))
        else validate_submission message selection >>= λ valid. elim valid [
          | ok _ ↦ submit message selection r
          | err e ↦ reply r (submitted (err e))
        ]
