-- ===== src/Agent/Instructions.antt =====
-- crates/kraai-agent/src/context_state.rs: where the instructions and the snapshots of a request
-- stand in the conversation from one request to the next.
use kraai.Base.{
  ℕ, ◌+◌, Bool, true, false, not, ◌&&◌, List, [], ◌∷◌, ◌++◌, Option, none, some, String, any, find,
  map, if◌then◌else◌, leb, usize_max,
}
use kraai.Base.Texts.{str_eq}
use kraai.Base.Utf8.{Bytes, bytes_eq}
use kraai.Base.Literals.{utf8}
use kraai.Types.Conversation.{Message, ConversationItem, assistant}
use kraai.Agent.Assemble.{InstructionSnapshot, FileContextSnapshot, is_retained}

pub record InstructionSection : Type 0 where
  pub key : Bytes
  pub label : Bytes
  pub contents : Bytes

abbrev is_assistant : ConversationItem → Bool
is_assistant (assistant items) = true
is_assistant _ = false

-- No message of the model yet.
abbrev pub first_request : List Message → Bool
first_request history = not (any (λ m. is_assistant m.content) history)

abbrev pub previous_of : List InstructionSnapshot → InstructionSection → Option InstructionSnapshot
previous_of previous section = find (λ old. bytes_eq old.key section.key) previous

abbrev pub is_current : List InstructionSection → InstructionSnapshot → Bool
is_current current old = any (λ section. bytes_eq section.key old.key) current

abbrev pub keep_retained : List Message → Option String → Option String
keep_retained history none = none
keep_retained history (some a) = if is_retained history a then some a else none

-- The anchor of a section, and what the user is told of it.
unfoldable pub anchor_section :
    List Message
    → String
    → InstructionSection
    → Option InstructionSnapshot
    → Option String × List Bytes
anchor_section history latest section (some old) =
    if bytes_eq old.contents section.contents then (keep_retained history old.anchor, []) else (
      some latest,
      (section.label ++ utf8 " changed; the version below replaces the earlier one.") ∷ [],
    )
anchor_section history latest section none =
    if first_request history
    then (none, [])
    else (some latest, (section.label ++ utf8 " was added.") ∷ [])

abbrev pub placed_at : InstructionSection → Option String → InstructionSnapshot
placed_at section anchor = record {
  key = section.key;
  label = section.label;
  anchor = anchor;
  contents = section.contents;
}

abbrev pub removed_notes : List InstructionSection → List InstructionSnapshot → List Bytes
removed_notes current [] = []
removed_notes current (old ∷ rest) =
    if is_current current old
    then removed_notes current rest
    else (old.label ++ utf8 " was removed; its instructions no longer apply.")
      ∷ removed_notes current rest

-- The map over the current sections.
unfoldable pub place_sections :
    List InstructionSnapshot
    → List Message
    → String
    → List InstructionSection
    → List InstructionSnapshot × List Bytes
unfolding anchor_section
place_sections previous history latest [] = ([], [])
place_sections previous history latest (section ∷ rest) =
    let this = anchor_section history latest section (previous_of previous section) in
    let others = place_sections previous history latest rest in
    (placed_at section this.0 ∷ others.0, this.1 ++ others.1)

-- `refresh_instructions`: the snapshots, and the notifications.
unfoldable pub refresh_instructions :
    List InstructionSnapshot
    → List InstructionSection
    → String
    → List Message
    → List Bytes
    → List InstructionSnapshot × List Bytes
unfolding place_sections
refresh_instructions previous current latest history notifications =
    let placed = place_sections previous history latest current in
    (placed.0, notifications ++ removed_notes current previous ++ placed.1)

-- The last of the previous snapshots of a path, with its position: what `collect` into a map keeps.
abbrev pub last_of : Bytes → ℕ → List FileContextSnapshot → Option (ℕ × FileContextSnapshot)
last_of path position [] = none
last_of path position (old ∷ rest) = elim (last_of path (position + 1) rest) [
  | some found ↦ some found
  | none ↦ if bytes_eq old.path path then some (position, old) else none
]

-- The closure `unchanged`.
unfoldable pub unchanged :
    List FileContextSnapshot → FileContextSnapshot → Option (ℕ × FileContextSnapshot)
unchanged previous snapshot = elim (last_of snapshot.path 0 previous) [
  | none ↦ none
  | some found ↦
      if str_eq found.1.opened_event snapshot.opened_event
        && bytes_eq found.1.contents snapshot.contents
      then some found
      else none
]

unfoldable pub anchor_snapshot :
    List FileContextSnapshot
    → List Message
    → Option String
    → String
    → FileContextSnapshot
    → FileContextSnapshot
unfolding unchanged
anchor_snapshot previous history compacted latest snapshot = record snapshot {
  anchor = elim (unchanged previous snapshot) [
    | none ↦ latest
    | some found ↦
        if is_retained history found.1.anchor
        then found.1.anchor
        else elim compacted [ none ↦ latest | some c ↦ c ]
  ];
}

abbrev pub sort_key : List FileContextSnapshot → FileContextSnapshot → ℕ
sort_key previous snapshot = elim (unchanged previous snapshot) [
  | none ↦ usize_max
  | some found ↦ found.0
]

-- `sort_by_key`, which is stable.
unfoldable pub insert_by {ℓ} : {A : Type ℓ} → (A → ℕ) → A → List A → List A
insert_by key x [] = x ∷ []
insert_by key x (y ∷ ys) =
    let rest = insert_by key x ys in if leb (key x) (key y) then x ∷ y ∷ ys else y ∷ rest

unfoldable pub sort_by {ℓ} : {A : Type ℓ} → (A → ℕ) → List A → List A
unfolding insert_by
sort_by key [] = []
sort_by key (x ∷ xs) = insert_by key x (sort_by key xs)

-- The snapshots that `refresh_context_state` saves and returns.
unfoldable pub place_files :
    List FileContextSnapshot
    → List Message
    → Option String
    → String
    → List FileContextSnapshot
    → List FileContextSnapshot
unfolding anchor_snapshot sort_by
place_files previous history compacted latest snapshots =
    sort_by (sort_key previous) (map (anchor_snapshot previous history compacted latest) snapshots)
