-- ===== src/Agent/Compaction/Images.antt =====
-- What is left of the images of a request.
use kraai.Base.{
  ℕ, ◌+◌, ◌≤◌, List, [], ◌∷◌, ◌++◌, ◌≡◌, refl, length, arith, sat_add, u64_max, ltb, leb, ap, Bool,
  true, false, ◌&&◌, Bool-cases, ◌⊎◌, inl, inr, length-append,
}
use mathlib.Core.Path.{subst}
use kraai.Types.Conversation.{
  ContentPart, text, image, MessageContent, ImageAttachment, ConversationItem, file_context,
  compaction, system, user, assistant, script_result, images, omitted_image,
}
use kraai.Agent.Compaction.{
  ImageBudget, max_request_images, max_request_image_bytes, limit_part, limit_parts, limit_message,
  limit_messages, limit_request_images,
}

abbrev pub item_images : ConversationItem → List ImageAttachment
item_images (user c) = images c
item_images (script_result i o s) = images o
item_images _ = []

abbrev pub request_images : List ConversationItem → List ImageAttachment
request_images [] = []
request_images (m ∷ ms) = item_images m ++ request_images ms

abbrev pub total_bytes : List ImageAttachment → ℕ
total_bytes [] = 0
total_bytes (i ∷ is) = i.byte_length + total_bytes is

total_bytes-append :
    (is js : List ImageAttachment) → total_bytes (is ++ js) ≡ total_bytes is + total_bytes js
total_bytes-append [] js = omega arith
total_bytes-append (i ∷ is) js = ground (arith, total_bytes-append is js)

-- The budget is within the limits.
record Fits (b : ImageBudget) : Type 0 where
  few : b.count ≤ max_request_images
  small : b.bytes ≤ max_request_image_bytes

-- The images took the budget from `b` to `after`.
record Spends (b after : ImageBudget) (is : List ImageAttachment) : Type 0 where
  counted : after.count ≡ b.count + length is
  weighed : after.bytes ≡ b.bytes + total_bytes is
  fits : Fits after

-- Each of the images fits, so that none of them is left out.
record HasRoom (b : ImageBudget) (is : List ImageAttachment) : Type 0 where
  few : b.count + length is ≤ max_request_images
  small : b.bytes + total_bytes is ≤ max_request_image_bytes

part_images : ContentPart → List ImageAttachment
part_images (text t) = []
part_images (image i) = i ∷ []

abbrev keeps : ImageAttachment → ImageBudget → Bool
keeps i b =
    ltb b.count max_request_images
    && leb (sat_add u64_max b.bytes i.byte_length) max_request_image_bytes

limit_part-Spends :
    (p : ContentPart) (b : ImageBudget)
    → Fits b
    → Spends b ((limit_part p b).1) (part_images ((limit_part p b).0))
unfolding limit_part part_images omitted_image
limit_part-Spends (text t) b h = record { counted = omega arith; weighed = omega arith; fits = h }
limit_part-Spends (image i) b h = go (Bool-cases (keeps i b))
  where
    go :
        (keeps i b ≡ true) ⊎ (keeps i b ≡ false)
        → Spends b ((limit_part (image i) b).1) (part_images ((limit_part (image i) b).0))
    go (inl e) = rw e (record {
      counted = omega arith;
      weighed = omega arith;
      fits = record { few = ground arith; small = ground arith };
    })
    go (inr e) = rw e (record { counted = omega arith; weighed = omega arith; fits = h })

images-cons :
    (p : ContentPart) (parts : MessageContent) → images (p ∷ parts) ≡ part_images p ++ images parts
unfolding part_images
images-cons (text t) parts = refl
images-cons (image i) parts = refl

Spends-append :
    {b c d : ImageBudget} {is js : List ImageAttachment}
    → Spends b c js
    → Spends c d is
    → Spends b d (is ++ js)
Spends-append {is = is} {js} h k = record {
  counted = omega (arith, h.counted, k.counted, length-append is js);
  weighed = omega (arith, h.weighed, k.weighed, total_bytes-append is js);
  fits = k.fits;
}

limit_parts-Spends :
    (c : MessageContent) (b : ImageBudget)
    → Fits b
    → Spends b ((limit_parts c b).1) (images ((limit_parts c b).0))
unfolding limit_parts
limit_parts-Spends [] b h = record { counted = omega arith; weighed = omega arith; fits = h }
limit_parts-Spends (p ∷ parts) b h =
    let later = limit_parts-Spends parts b h in
    let this = limit_part-Spends p ((limit_parts parts b).1) later.fits in
    rw (images-cons ((limit_part p ((limit_parts parts b).1)).0) ((limit_parts parts b).0))
      (Spends-append later this)

unspent : (b : ImageBudget) → Fits b → Spends b b ([])
unspent b h = record { counted = omega arith; weighed = omega arith; fits = h }

limit_message-Spends :
    (m : ConversationItem) (b : ImageBudget)
    → Fits b
    → Spends b ((limit_message m b).1) (item_images ((limit_message m b).0))
unfolding limit_message
limit_message-Spends (user c) b h = limit_parts-Spends c b h
limit_message-Spends (script_result i o s) b h = limit_parts-Spends o b h
limit_message-Spends (file_context t) b h = unspent b h
limit_message-Spends (compaction p q) b h = unspent b h
limit_message-Spends (system t) b h = unspent b h
limit_message-Spends (assistant items) b h = unspent b h

limit_messages-Spends :
    (ms : List ConversationItem) (b : ImageBudget)
    → Fits b
    → Spends b ((limit_messages ms b).1) (request_images ((limit_messages ms b).0))
unfolding limit_messages
limit_messages-Spends [] b h = unspent b h
limit_messages-Spends (m ∷ ms) b h =
    let later = limit_messages-Spends ms b h in
    Spends-append later (limit_message-Spends m ((limit_messages ms b).1) later.fits)

no_images : Fits (record { count = 0; bytes = 0 })
no_images = record { few = omega arith; small = omega arith }

-- The images that are left in a request are at most 32 and have at most 32 MiB together.
pub limit_request_images-bounds :
    (ms : List ConversationItem)
    → (length (request_images (limit_request_images ms)) ≤ max_request_images)
      × (total_bytes (request_images (limit_request_images ms)) ≤ max_request_image_bytes)
unfolding limit_request_images
limit_request_images-bounds ms =
    let s = limit_messages-Spends ms (record { count = 0; bytes = 0 }) no_images in
    (omega (arith, s.counted, s.fits.few), omega (arith, s.weighed, s.fits.small))

-- Where all images fit, a part, a message or a request stays as it is.
limit_part-kept :
    (p : ContentPart) (b : ImageBudget) → HasRoom b (part_images p) → (limit_part p b).0 ≡ p
unfolding limit_part part_images
limit_part-kept (text t) b h = refl
limit_part-kept (image i) b h =
    let e : keeps i b ≡ true = ground (arith, h.few, h.small) in rw e refl

HasRoom-right :
    {b : ImageBudget} (is js : List ImageAttachment) → HasRoom b (is ++ js) → HasRoom b js
HasRoom-right is js h = record {
  few = omega (arith, h.few, length-append is js);
  small = omega (arith, h.small, total_bytes-append is js);
}

HasRoom-left :
    {b after : ImageBudget} (is js : List ImageAttachment)
    → HasRoom b (is ++ js)
    → Spends b after js
    → HasRoom after is
HasRoom-left is js h s = record {
  few = omega (arith, h.few, s.counted, length-append is js);
  small = omega (arith, h.small, s.weighed, total_bytes-append is js);
}

HasRoom-Fits : {b : ImageBudget} {is : List ImageAttachment} → HasRoom b is → Fits b
HasRoom-Fits h = record { few = omega (arith, h.few); small = omega (arith, h.small) }

limit_parts-kept :
    (c : MessageContent) (b : ImageBudget) → HasRoom b (images c) → (limit_parts c b).0 ≡ c
unfolding limit_parts
limit_parts-kept [] b h = refl
limit_parts-kept (p ∷ parts) b h =
    let room : HasRoom b (part_images p ++ images parts) =
      subst (HasRoom b) (images-cons p parts) h in
    let later = HasRoom-right (part_images p) (images parts) room in
    let e = limit_parts-kept parts b later in
    let s : Spends b ((limit_parts parts b).1) (images parts) =
      subst (λ l. Spends b ((limit_parts parts b).1) (images l)) e
        (limit_parts-Spends parts b (HasRoom-Fits later)) in
    let here =
      limit_part-kept p ((limit_parts parts b).1)
        (HasRoom-left (part_images p) (images parts) room s) in
    rw (here, e) refl

limit_message-kept :
    (m : ConversationItem) (b : ImageBudget) → HasRoom b (item_images m) → (limit_message m b).0 ≡ m
unfolding limit_message
limit_message-kept (user c) b h = ap user (limit_parts-kept c b h)
limit_message-kept (script_result i o s) b h =
    ap (λ l. script_result i l s) (limit_parts-kept o b h)
limit_message-kept (file_context t) b h = refl
limit_message-kept (compaction p q) b h = refl
limit_message-kept (system t) b h = refl
limit_message-kept (assistant items) b h = refl

limit_messages-kept :
    (ms : List ConversationItem) (b : ImageBudget)
    → HasRoom b (request_images ms)
    → (limit_messages ms b).0 ≡ ms
unfolding limit_messages
limit_messages-kept [] b h = refl
limit_messages-kept (m ∷ ms) b h =
    let later = HasRoom-right (item_images m) (request_images ms) h in
    let e = limit_messages-kept ms b later in
    let s : Spends b ((limit_messages ms b).1) (request_images ms) =
      subst (λ l. Spends b ((limit_messages ms b).1) (request_images l)) e
        (limit_messages-Spends ms b (HasRoom-Fits later)) in
    let here =
      limit_message-kept m ((limit_messages ms b).1)
        (HasRoom-left (item_images m) (request_images ms) h s) in
    rw (here, e) refl

-- A request whose images are within the limits is sent as it is.
pub limit_request_images-kept :
    (ms : List ConversationItem)
    → length (request_images ms) ≤ max_request_images
    → total_bytes (request_images ms) ≤ max_request_image_bytes
    → limit_request_images ms ≡ ms
unfolding limit_request_images
limit_request_images-kept ms few small =
    limit_messages-kept ms (record { count = 0; bytes = 0 })
      (record { few = omega (arith, few); small = omega (arith, small) })
