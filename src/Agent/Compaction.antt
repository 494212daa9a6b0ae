-- ===== src/Agent/Compaction.antt =====
-- crates/kraai-agent/src/compaction.rs and compaction/summary.rs: how a request is put together,
-- and how it is made smaller.
use kraai.Base.{
  ℕ, zero, suc, ◌+◌, ◌-◌, min, Bool, true, false, not, ◌&&◌, ◌||◌, List, [], ◌∷◌, ◌++◌, map,
  reverse, Option, none, some, String, length, take, any, filter, is_empty, if◌then◌else◌, ltb, leb,
  ◌==◌, sat_add, sat_mul, u64_max, usize_max,
}
use kraai.Base.Texts.{str_eq}
use kraai.Base.Utf8.{Bytes, is_char_boundary}
use kraai.Types.Conversation.{
  ContentPart, text, image, MessageContent, AssistantItem, script_call, ConversationItem,
  file_context, compaction, system, user, assistant, script_result, omitted_image, content_text,
  without_images,
}
use kraai.Types.Tokens.{bytes_per_token}
pub mod Images
pub mod Users
pub mod Exchanges

abbrev pub max_request_images : ℕ
max_request_images = 32

abbrev pub max_request_image_bytes : ℕ
max_request_image_bytes = 33_554_432

-- The images that are kept so far: how many, and their bytes.
pub record ImageBudget : Type 0 where
  pub count : ℕ
  pub bytes : ℕ

unfoldable pub limit_part : ContentPart → ImageBudget → ContentPart × ImageBudget
limit_part (text t) b = (text t, b)
limit_part (image i) b =
    if ltb b.count max_request_images
      && leb (sat_add u64_max b.bytes i.byte_length) max_request_image_bytes
    then (image i, record { count = b.count + 1; bytes = b.bytes + i.byte_length })
    else (omitted_image i, b)

-- The loop over the parts of a message, which visits the last one first.
unfoldable pub limit_parts : MessageContent → ImageBudget → MessageContent × ImageBudget
limit_parts [] b = ([], b)
limit_parts (p ∷ parts) b =
    let later = limit_parts parts b in let this = limit_part p later.1 in (this.0 ∷ later.0, this.1)

unfoldable pub limit_message : ConversationItem → ImageBudget → ConversationItem × ImageBudget
unfolding limit_parts
limit_message (user c) b = let r = limit_parts c b in (user r.0, r.1)
limit_message (script_result i o s) b = let r = limit_parts o b in (script_result i r.0 s, r.1)
limit_message (file_context t) b = (file_context t, b)
limit_message (compaction p q) b = (compaction p q, b)
limit_message (system t) b = (system t, b)
limit_message (assistant items) b = (assistant items, b)

-- The loop over the messages, which visits the last one first.
unfoldable pub limit_messages :
    List ConversationItem → ImageBudget → List ConversationItem × ImageBudget
limit_messages [] b = ([], b)
limit_messages (m ∷ messages) b =
    let later = limit_messages messages b in
    let this = limit_message m later.1 in (this.0 ∷ later.0, this.1)

-- `limit_request_images`, on the messages of the request.
unfoldable pub limit_request_images : List ConversationItem → List ConversationItem
limit_request_images messages = (limit_messages messages (record { count = 0; bytes = 0 })).0

-- `while !text.is_char_boundary(end) { end -= 1 }`.
unfoldable pub floor_boundary : Bytes → ℕ → ℕ
floor_boundary t zero = zero
floor_boundary t (suc n) = if is_char_boundary t (suc n) then suc n else floor_boundary t n

-- The loop of `retained_users`, over the messages from the last one on.
unfoldable pub retain_users : List ConversationItem → ℕ → List ConversationItem
unfolding floor_boundary
retain_users [] remaining = []
retain_users (user c ∷ older) remaining =
    let t : Bytes = content_text (without_images c) in
    let end = floor_boundary t (min (length t) remaining) in
    let rest = retain_users older (remaining - end) in
    if remaining == 0
    then []
    else if end == 0 && not (is_empty t)
    then []
    else user (text (take end t) ∷ []) ∷ rest
retain_users (_ ∷ older) remaining = retain_users older remaining

unfoldable pub retained_users : List ConversationItem → ℕ → List ConversationItem
retained_users messages token_budget =
    reverse (retain_users (reverse messages) (sat_mul usize_max token_budget bytes_per_token))

-- The leading system messages, and what follows them.
abbrev pub split_systems : List ConversationItem → List ConversationItem × List ConversationItem
split_systems [] = ([], [])
split_systems (system t ∷ items) = let r = split_systems items in (system t ∷ r.0, r.1)
split_systems (item ∷ items) = ([], item ∷ items)

abbrev pub calls_of : List AssistantItem → List String
calls_of [] = []
calls_of (script_call c ∷ items) = c.call_id ∷ calls_of items
calls_of (_ ∷ items) = calls_of items

abbrev pub answers_none : List String → ConversationItem → Bool
answers_none calls (script_result i o r) = not (any (str_eq i) calls)
answers_none calls _ = true

abbrev pub without_results : ConversationItem → List ConversationItem → List ConversationItem
without_results (assistant items) messages = filter (answers_none (calls_of items)) messages
without_results _ messages = messages

-- `none` where the messages are left as they are and the answer is false.
unfoldable pub remove_oldest_exchange : List ConversationItem → Option (List ConversationItem)
remove_oldest_exchange messages =
    let parts = split_systems messages in
    elim parts.1 [
      | [] ↦ none
      | removed ∷ tail ↦
          if is_empty tail then none else some (without_results removed (parts.0 ++ tail))
    ]
