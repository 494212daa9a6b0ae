-- ===== src/Agent/Assemble.antt =====
-- crates/kraai-agent/src/compaction.rs, `assemble`: the request to a model, with the current
-- instructions and pinned files placed behind the messages they follow.
use kraai.Base.{
  Bool, true, false, not, List, [], ◌∷◌, ◌++◌, Option, none, some, String, any, filter,
  if◌then◌else◌,
}
use kraai.Base.Texts.{str_eq}
use kraai.Base.Utf8.{Bytes}
use kraai.Types.Conversation.{ConversationItem, file_context, system, Message, join}
use kraai.Agent.Compaction.{limit_request_images}
pub mod Places

-- crates/kraai-persistence/src/context.rs
pub record InstructionSnapshot : Type 0 where
  pub key : Bytes
  pub label : Bytes
  pub anchor : Option String
  pub contents : Bytes

pub record FileContextSnapshot : Type 0 where
  pub path : Bytes
  pub opened_event : String
  pub anchor : String
  pub contents : Bytes

pub record RefreshedContextState : Type 0 where
  pub snapshots : List FileContextSnapshot
  pub instructions : List InstructionSnapshot
  pub notifications : List Bytes

-- `retained.contains(id)`.
abbrev pub is_retained : List Message → String → Bool
is_retained history id = any (λ m. str_eq m.id id) history

-- The map from a message to what follows it: its pairs, in the order in which they came.
abbrev pub Anchored : Type 0
Anchored = List (String × ConversationItem)

-- The messages so far, and the map.
abbrev pub Placing : Type 0
Placing = List ConversationItem × Anchored

unfoldable pub place : List Message → Option String → ConversationItem → Placing → Placing
place history none item (messages, anchored) = (messages ++ item ∷ [], anchored)
place history (some id) item (messages, anchored) =
    if is_retained history id
    then (messages, anchored ++ (id, item) ∷ [])
    else (messages ++ item ∷ [], anchored)

unfoldable pub place_instructions : List Message → List InstructionSnapshot → Placing → Placing
unfolding place
place_instructions history [] s = s
place_instructions history (i ∷ is) s =
    place_instructions history is (place history i.anchor (file_context i.contents) s)

unfoldable pub place_snapshots : List Message → List FileContextSnapshot → Placing → Placing
unfolding place
place_snapshots history [] s = s
place_snapshots history (f ∷ fs) s =
    place_snapshots history fs (place history (some f.anchor) (file_context f.contents) s)

-- `anchored.remove(&id)`: what follows the message, and the map without it.
abbrev pub items_at : String → Anchored → List ConversationItem
items_at id [] = []
items_at id ((a, item) ∷ rest) = if str_eq id a then item ∷ items_at id rest else items_at id rest

abbrev pub without : String → Anchored → Anchored
without id anchored = filter (λ e. not (str_eq id e.0)) anchored

unfoldable pub place_history : List Message → Anchored → List ConversationItem
place_history [] anchored = []
place_history (m ∷ ms) anchored =
    m.content ∷ items_at m.id anchored ++ place_history ms (without m.id anchored)

-- `assemble`, the messages of the request; `replacement` is that of the checkpoint, if there is one.
unfoldable pub assemble :
    Bytes
    → RefreshedContextState
    → Option (List ConversationItem)
    → List Message
    → List ConversationItem
unfolding place_instructions place_snapshots place_history
assemble prefix context previous history =
    let summary : List ConversationItem = elim previous [ none ↦ [] | some r ↦ r ] in
    let instructed =
      place_instructions history context.instructions (system prefix ∷ summary, []) in
    let placed = place_snapshots history context.snapshots instructed in
    limit_request_images (placed.0 ++ place_history history placed.1)

-- `append_notifications`.
unfoldable pub append_notifications : List ConversationItem → List Bytes → List ConversationItem
append_notifications messages [] = messages
append_notifications messages (n ∷ ns) = messages ++ file_context (join (10 ∷ []) (n ∷ ns)) ∷ []
