-- ===== src/Types/Tokens.antt =====
-- crates/kraai-types/src/token_estimate.rs: how many tokens a request may cost; and
-- crates/llm-providers/kraai-provider-core/src/context_budget.rs: what of a context window is
-- left for an answer, and when a conversation is compacted.
use kraai.Base.{
  ℕ, ◌+◌, ◌-◌, ◌/◌, List, [], ◌∷◌, Option, none, some, length, if◌then◌else◌, ltb, leb, ◌==◌,
  sat_mul, usize_max,
}
use kraai.Base.Utf8.{Bytes}
use kraai.Types.Conversation.{
  ContentPart, text, image, MessageContent, Payload, AssistantItem, reasoning, answer, script_call,
  ConversationItem, file_context, compaction, system, user, assistant, script_result,
}
pub mod Limits
pub mod Tests

abbrev pub bytes_per_token : ℕ
bytes_per_token = 4

-- `text.len().div_ceil(BYTES_PER_TOKEN)`.
unfoldable pub estimate_text_tokens : Bytes → ℕ
estimate_text_tokens t = (length t + 3) / bytes_per_token

abbrev pub estimate_json_tokens : Payload → ℕ
estimate_json_tokens none = 0
estimate_json_tokens (some t) = estimate_text_tokens t

abbrev pub part_tokens : ContentPart → ℕ
part_tokens (text t) = estimate_text_tokens t
part_tokens (image i) = 1600

-- `Iterator::sum` of the estimates.
abbrev pub sum {ℓ} : {A : Type ℓ} → (A → ℕ) → List A → ℕ
sum f [] = 0
sum f (x ∷ xs) = f x + sum f xs

abbrev pub content_tokens : MessageContent → ℕ
content_tokens content = sum part_tokens content

abbrev pub item_tokens : AssistantItem → ℕ
item_tokens (reasoning p q) = estimate_json_tokens q
item_tokens (answer p t) = estimate_text_tokens t
item_tokens (script_call c) = estimate_text_tokens c.name + estimate_text_tokens c.input

-- `ConversationItem::estimated_tokens`.
unfoldable pub estimated_tokens : ConversationItem → ℕ
estimated_tokens (file_context t) = 4 + estimate_text_tokens t
estimated_tokens (system t) = 4 + estimate_text_tokens t
estimated_tokens (compaction p q) = 4 + estimate_json_tokens q
estimated_tokens (user c) = 4 + content_tokens c
estimated_tokens (script_result c o r) = 4 + content_tokens o
estimated_tokens (assistant items) = 4 + sum item_tokens items

unfoldable pub compaction_point : ℕ → ℕ
compaction_point max_context = sat_mul usize_max max_context 80 / 100

-- `a.into_iter().chain(b).min()`.
abbrev least : Option ℕ → Option ℕ → Option ℕ
least none b = b
least (some a) none = some a
least (some a) (some b) = if leb a b then some a else some b

unfoldable pub max_output : Option ℕ → Option ℕ → Option ℕ → Option ℕ
max_output (some configured) catalog max_context = some configured
max_output none catalog max_context =
    least catalog (elim max_context [ none ↦ none | some l ↦ some (l - compaction_point l) ])

abbrev positive : Option ℕ → Option ℕ
positive none = none
positive (some t) = if ltb 0 t then some t else none

-- `Model::output_limit`, from the model's `max_output` and `max_context`.
unfoldable pub output_limit : Option ℕ → Option ℕ → List ConversationItem → Option ℕ
output_limit most max_context messages = positive (
    least most
      (elim max_context [ none ↦ none | some l ↦ some (l - sum estimated_tokens messages) ]))
