-- ===== src/Types/Conversation.antt =====
-- crates/kraai-types/src/conversation.rs and token_estimate.rs: what a conversation consists of,
-- how it is shown, and the estimate of its tokens.
use kraai.Base.{
  ℕ, Bool, not, List, [], ◌∷◌, ◌++◌, map, Option, none, some, String, is_empty, if◌then◌else◌,
}
use kraai.Base.Utf8.{Bytes}
use kraai.Base.Decimal.{decimal}
use kraai.Base.Integers.{ℤ}
use kraai.Base.Literals.{utf8}

pub record ImageAttachment : Type 0 where
  pub id : Bytes
  pub mime_type : Bytes
  pub width : ℕ
  pub height : ℕ
  pub byte_length : ℕ

pub data ContentPart : Type 0 where
  text : Bytes → ContentPart
  image : ImageAttachment → ContentPart

abbrev pub MessageContent : Type 0
MessageContent = List ContentPart

-- `ContentPart::omitted_image`.
unfoldable pub omitted_image : ImageAttachment → ContentPart
omitted_image i = text (
    utf8 "[Image "
    ++ i.id
    ++ utf8 " omitted from active context. Reopen with kraai-view-image --attachment "
    ++ i.id
    ++ utf8 "]")

-- `MessageContent::images`.
abbrev pub images : MessageContent → List ImageAttachment
images [] = []
images (text t ∷ parts) = images parts
images (image i ∷ parts) = i ∷ images parts

abbrev pub has_images : MessageContent → Bool
has_images content = not (is_empty (images content))

unfoldable pub as_text : MessageContent → Option Bytes
as_text [] = some []
as_text (text t ∷ []) = some t
as_text (image i ∷ []) = none
as_text (p ∷ q ∷ parts) = none

-- `[String]::join`.
unfoldable pub join : Bytes → List Bytes → Bytes
join separator [] = []
join separator (t ∷ []) = t
join separator (t ∷ u ∷ ts) = t ++ separator ++ join separator (u ∷ ts)

abbrev pub display_part : ContentPart → Bytes
display_part (text t) = t
display_part (image i) =
    utf8 "[Image "
    ++ i.id
    ++ utf8 ": "
    ++ decimal i.width
    ++ utf8 "×"
    ++ decimal i.height
    ++ utf8 "]"

-- `MessageContent::display_text`.
unfoldable pub content_text : MessageContent → Bytes
content_text content = elim (as_text content) [
  | some t ↦ t
  | none ↦ join (10 ∷ []) (map display_part content)
]

abbrev texts : MessageContent → List Bytes
texts [] = []
texts (text t ∷ parts) = t ∷ texts parts
texts (image i ∷ parts) = texts parts

-- `MessageContent::text_only`.
unfoldable pub text_only : MessageContent → Bytes
text_only content = elim (as_text content) [ some t ↦ t | none ↦ join (10 ∷ []) (texts content) ]

abbrev omit : ContentPart → ContentPart
omit (text t) = text t
omit (image i) = omitted_image i

-- `MessageContent::without_images`.
unfoldable pub without_images : MessageContent → MessageContent
without_images [] = []
without_images (p ∷ parts) = omit p ∷ without_images parts

pub data AssistantPhase : Type 0 where
  commentary final_answer : AssistantPhase

pub record ScriptRewrite : Type 0 where
  pub original : Bytes
  pub changes : List Bytes

pub record ScriptCall : Type 0 where
  pub call_id : String
  pub name : Bytes
  pub input : Bytes
  pub arguments_error : Option Bytes
  pub rewrite : Option ScriptRewrite

-- Opaque data of a provider: the text that `serde_json::to_string` gives for it, if it gives one.
abbrev pub Payload : Type 0
Payload = Option Bytes

pub data AssistantItem : Type 0 where
  reasoning : String → Payload → AssistantItem
  answer : AssistantPhase → Bytes → AssistantItem
  script_call : ScriptCall → AssistantItem

pub data ScriptExecutionStatus : Type 0 where
  completed denied invalid_script timed_out cancelled : ScriptExecutionStatus
  sandbox_unavailable failed_to_start host_unavailable runtime_error : ScriptExecutionStatus

pub record ScriptExecutionOutcome : Type 0 where
  pub status : ScriptExecutionStatus
  pub exit_code : Option ℤ

pub data ConversationItem : Type 0 where
  file_context : Bytes → ConversationItem
  compaction : String → Payload → ConversationItem
  system : Bytes → ConversationItem
  user : MessageContent → ConversationItem
  assistant : List AssistantItem → ConversationItem
  script_result : String → MessageContent → ScriptExecutionOutcome → ConversationItem

pub data ChatRole : Type 0 where
  system_role user_role assistant_role tool_call_result : ChatRole

unfoldable pub role : ConversationItem → ChatRole
role (system t) = system_role
role (user c) = user_role
role (file_context t) = user_role
role (assistant items) = assistant_role
role (compaction p q) = assistant_role
role (script_result c o r) = tool_call_result

-- One round of the loop of `render_assistant_items`, on the text rendered so far.
abbrev pub render_item : AssistantItem → Bytes → Bytes
render_item (reasoning p q) rendered = rendered
render_item (answer p []) rendered = rendered
render_item (answer p (b ∷ t)) rendered =
    if is_empty rendered then b ∷ t else rendered ++ 10 ∷ 10 ∷ b ∷ t
render_item (script_call c) rendered =
    let before : Bytes = if is_empty rendered then [] else rendered ++ 10 ∷ 10 ∷ [] in
    before ++ utf8 "<tool_call>\n" ++ c.input ++ utf8 "\n</tool_call>"

unfoldable pub render_assistant_items : List AssistantItem → Bytes → Bytes
render_assistant_items [] rendered = rendered
render_assistant_items (item ∷ items) rendered =
    render_assistant_items items (render_item item rendered)

-- `ConversationItem::display_text`.
unfoldable pub display_text : ConversationItem → Bytes
display_text (compaction p q) = []
display_text (system t) = t
display_text (file_context t) = t
display_text (user c) = content_text c
display_text (assistant items) = render_assistant_items items []
display_text (script_result c o r) = content_text o

-- The fields of a message that a request is made of.
pub record Message : Type 0 where
  pub id : String
  pub content : ConversationItem
