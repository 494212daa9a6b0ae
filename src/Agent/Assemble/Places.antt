-- ===== src/Agent/Assemble/Places.antt =====
-- Where `assemble` places the instructions and the files.
use kraai.Base.{
  Bool, true, false, not, ◌&&◌, List, [], ◌∷◌, ◌++◌, map, Option, none, some, String, ◌≡◌, refl,
  sym, ap, ◌∙◌, any-append, all, if◌then◌else◌, append_assoc, append-nil, Bool-cases, inl, inr,
  arith,
}
use mathlib.Core.Path.{subst}
use kraai.Base.Texts.{str_eq, str_eq_iff}
use kraai.Base.Utf8.{Bytes}
use kraai.Types.Conversation.{ConversationItem, file_context, system, Message}
use kraai.Agent.Compaction.{limit_request_images}
use kraai.Agent.Assemble.{
  InstructionSnapshot, FileContextSnapshot, RefreshedContextState, is_retained, Anchored, Placing,
  place, place_instructions, place_snapshots, items_at, without, place_history, assemble,
}

-- What is placed, with the message it follows, if it follows one.
abbrev pub Entry : Type 0
Entry = Option String × ConversationItem

abbrev pub instruction_entry : InstructionSnapshot → Entry
instruction_entry i = (i.anchor, file_context i.contents)

abbrev pub snapshot_entry : FileContextSnapshot → Entry
snapshot_entry f = (some f.anchor, file_context f.contents)

abbrev pub entries : RefreshedContextState → List Entry
entries c = map instruction_entry c.instructions ++ map snapshot_entry c.snapshots

abbrev pub is_anchored : List Message → Option String → Bool
is_anchored history none = false
is_anchored history (some id) = is_retained history id

-- The entries without a message in the history.
abbrev pub loose : List Message → List Entry → List ConversationItem
loose history [] = []
loose history ((a, item) ∷ es) =
    if is_anchored history a then loose history es else item ∷ loose history es

abbrev pub follows : String → Option String → Bool
follows id none = false
follows id (some a) = str_eq id a

-- The entries that follow a message.
abbrev pub following : String → List Entry → List ConversationItem
following id [] = []
following id ((a, item) ∷ es) = if follows id a then item ∷ following id es else following id es

-- The history, each message with what follows it.
abbrev pub interleaved : List Message → List Entry → List ConversationItem
interleaved [] es = []
interleaved (m ∷ ms) es = m.content ∷ following m.id es ++ interleaved ms es

abbrev pub distinct_ids : List Message → Bool
distinct_ids [] = true
distinct_ids (m ∷ ms) = not (is_retained ms m.id) && distinct_ids ms

tied : List Message → List Entry → Anchored
tied history [] = []
tied history ((none, item) ∷ es) = tied history es
tied history ((some id, item) ∷ es) =
    if is_retained history id then (id, item) ∷ tied history es else tied history es

place_all : List Message → List Entry → Placing → Placing
place_all history [] s = s
place_all history ((a, item) ∷ es) s = place_all history es (place history a item s)

place_all-append :
    (history : List Message) (ds es : List Entry) (s : Placing)
    → place_all history (ds ++ es) s ≡ place_all history es (place_all history ds s)
unfolding place_all
place_all-append history [] es s = refl
place_all-append history ((a, item) ∷ ds) es s =
    place_all-append history ds es (place history a item s)

place_instructions_lem :
    (history : List Message) (is : List InstructionSnapshot) (s : Placing)
    → place_instructions history is s ≡ place_all history (map instruction_entry is) s
unfolding place_instructions place_all
place_instructions_lem history [] s = refl
place_instructions_lem history (i ∷ is) s =
    place_instructions_lem history is (place history i.anchor (file_context i.contents) s)

place_snapshots_lem :
    (history : List Message) (fs : List FileContextSnapshot) (s : Placing)
    → place_snapshots history fs s ≡ place_all history (map snapshot_entry fs) s
unfolding place_snapshots place_all
place_snapshots_lem history [] s = refl
place_snapshots_lem history (f ∷ fs) s =
    place_snapshots_lem history fs (place history (some f.anchor) (file_context f.contents) s)

place_all_lem :
    (history : List Message) (es : List Entry) (ms : List ConversationItem) (an : Anchored)
    → place_all history es (ms, an) ≡ (ms ++ loose history es, an ++ tied history es)
unfolding place_all place tied
place_all_lem history [] ms an = rw (append-nil ms, append-nil an) refl
place_all_lem history ((none, item) ∷ es) ms an =
    place_all_lem history es (ms ++ item ∷ []) an
    ∙ rw (append_assoc ms (item ∷ []) (loose history es)) refl
place_all_lem history ((some id, item) ∷ es) ms an = elim (Bool-cases (is_retained history id)) [
  | inl e ↦ rw e (
      place_all_lem history es ms (an ++ (id, item) ∷ [])
      ∙ rw (append_assoc an ((id, item) ∷ []) (tied history es)) refl)
  | inr e ↦ rw e (
      place_all_lem history es (ms ++ item ∷ []) an
      ∙ rw (append_assoc ms (item ∷ []) (loose history es)) refl)
]

-- The history with what the map holds for each message, where nothing is removed from the map.
spread : List Message → Anchored → List ConversationItem
spread [] an = []
spread (m ∷ ms) an = m.content ∷ items_at m.id an ++ spread ms an

items_at-without :
    (id gone : String) (an : Anchored)
    → str_eq id gone ≡ false
    → items_at id (without gone an) ≡ items_at id an
items_at-without id gone [] h = refl
items_at-without id gone ((a, item) ∷ an) h = elim (Bool-cases (str_eq gone a)) [
  | inl e ↦
      let same : gone ≡ a = (str_eq_iff gone a).0 e in
      let d : str_eq id a ≡ false = rw (← same) h in rw (e, d) (items_at-without id gone an h)
  | inr e ↦ rw e (elim (Bool-cases (str_eq id a)) [
    | inl d ↦ rw d (ap (λ l. item ∷ l) (items_at-without id gone an h))
    | inr d ↦ rw d (items_at-without id gone an h)
  ])
]

spread-without :
    (ms : List Message) (gone : String) (an : Anchored)
    → is_retained ms gone ≡ false
    → spread ms (without gone an) ≡ spread ms an
unfolding spread
spread-without [] gone an h = refl
spread-without (m ∷ ms) gone an h =
    let d : str_eq m.id gone ≡ false = ground (arith, h) in
    let r : is_retained ms gone ≡ false = ground (arith, h) in
    rw (items_at-without m.id gone an d, spread-without ms gone an r) refl

place_history-spread :
    (ms : List Message) (an : Anchored)
    → distinct_ids ms ≡ true
    → place_history ms an ≡ spread ms an
unfolding place_history spread
place_history-spread [] an h = refl
place_history-spread (m ∷ ms) an h =
    let fresh : is_retained ms m.id ≡ false = ground (arith, h) in
    let rest : distinct_ids ms ≡ true = ground (arith, h) in
    rw (place_history-spread ms (without m.id an) rest, spread-without ms m.id an fresh) refl

items_at-tied :
    (history : List Message) (id : String) (es : List Entry)
    → is_retained history id ≡ true
    → items_at id (tied history es) ≡ following id es
unfolding tied
items_at-tied history id [] h = refl
items_at-tied history id ((none, item) ∷ es) h = items_at-tied history id es h
items_at-tied history id ((some a, item) ∷ es) h = elim (Bool-cases (is_retained history a)) [
  | inl e ↦ rw e (elim (Bool-cases (str_eq id a)) [
    | inl d ↦ rw d (ap (λ l. item ∷ l) (items_at-tied history id es h))
    | inr d ↦ rw d (items_at-tied history id es h)
  ])
  | inr e ↦ elim (Bool-cases (str_eq id a)) [
    | inl d ↦
        let same : id ≡ a = (str_eq_iff id a).0 d in
        let r : is_retained history a ≡ true = rw (← same) h in cc
    | inr d ↦ rw (e, d) (items_at-tied history id es h)
  ]
]

is_retained_self : (m : Message) (ms : List Message) → is_retained (m ∷ ms) m.id ≡ true
is_retained_self m ms = let e = (str_eq_iff m.id m.id).1 refl in rw e refl

spread-interleaved :
    (history ms : List Message) (es : List Entry)
    → all (λ m. is_retained history m.id) ms ≡ true
    → spread ms (tied history es) ≡ interleaved ms es
unfolding spread
spread-interleaved history [] es h = refl
spread-interleaved history (m ∷ ms) es h =
    let here : is_retained history m.id ≡ true = ground (arith, h) in
    let rest : all (λ m. is_retained history m.id) ms ≡ true = ground (arith, h) in
    rw (items_at-tied history m.id es here, spread-interleaved history ms es rest) refl

all-is_retained : (before ms : List Message) → all (λ m. is_retained (before ++ ms) m.id) ms ≡ true
all-is_retained before [] = refl
all-is_retained before (m ∷ ms) =
    let here : is_retained (before ++ m ∷ ms) m.id ≡ true =
      any-append (λ n. str_eq n.id m.id) before (m ∷ ms)
      ∙ rw (is_retained_self m ms) (ground arith) in
    let rest : all (λ n. is_retained (before ++ m ∷ ms) n.id) ms ≡ true =
      subst (λ l. all (λ n. is_retained l n.id) ms ≡ true) (append_assoc before (m ∷ []) ms)
        (all-is_retained (before ++ m ∷ []) ms) in
    rw (here, rest) refl

-- Where the ids of the history are distinct, a request is the prompt, the summary, the instructions
-- and files that follow no message of the history, and then the history in order, each message
-- with the instructions and then the files that follow it, with the images limited.
pub assemble-places :
    (prefix : Bytes) (context : RefreshedContextState) (summary : List ConversationItem)
    (history : List Message)
    → distinct_ids history ≡ true
    → assemble prefix context (some summary) history
      ≡ limit_request_images (
          system prefix ∷ summary
          ++ loose history (entries context)
          ++ interleaved history (entries context))
unfolding assemble
assemble-places prefix context summary history h =
    let placed : place_snapshots history context.snapshots
          (place_instructions history context.instructions (system prefix ∷ summary, []))
        ≡ (
          (system prefix ∷ summary) ++ loose history (entries context),
          tied history (entries context),
        ) =
      rw (place_instructions_lem history context.instructions (system prefix ∷ summary, [])) (
        rw
          (place_snapshots_lem history context.snapshots (
            place_all history (map instruction_entry context.instructions)
              (system prefix ∷ summary, [])))
          (sym (
              place_all-append history (map instruction_entry context.instructions)
                (map snapshot_entry context.snapshots) (system prefix ∷ summary, []))
            ∙ place_all_lem history (entries context) (system prefix ∷ summary) ([]))) in
    let spreads : place_history history (tied history (entries context))
        ≡ interleaved history (entries context) =
      place_history-spread history (tied history (entries context)) h
      ∙ spread-interleaved history history (entries context) (all-is_retained [] history) in
    rw
      (
        placed,
        spreads,
        append_assoc summary (loose history (entries context))
            (interleaved history (entries context)),
      )
      refl
