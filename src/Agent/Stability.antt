-- ===== src/Agent/Stability.antt =====
-- crates/kraai-agent/src/context_state.rs: instructions that do not change stay where they are.
use mathlib.Core.Path.{subst}
use kraai.Base.{
  Bool, true, false, not, ◌&&◌, List, [], ◌∷◌, ◌++◌, map, Option, none, some, String, ◌≡◌, refl, ap,
  ◌∙◌, any, any-append, append_assoc, append-nil, arith,
}
use kraai.Base.Utf8.{Bytes, bytes_eq, bytes_eq_iff}
use kraai.Types.Conversation.{Message}
use kraai.Agent.Assemble.{InstructionSnapshot, is_retained}
use kraai.Agent.Instructions.{
  InstructionSection, previous_of, anchor_section, placed_at, place_sections, keep_retained,
  removed_notes, refresh_instructions,
}

-- The message that a section follows, if any, is still in the history.
abbrev pub anchor_kept : List Message → Option String → Bool
anchor_kept history none = true
anchor_kept history (some a) = is_retained history a

abbrev pub anchors_kept : List Message → List InstructionSnapshot → Bool
anchors_kept history [] = true
anchors_kept history (s ∷ ss) = anchor_kept history s.anchor && anchors_kept history ss

abbrev pub has_key : Bytes → InstructionSection → Bool
has_key key s = bytes_eq s.key key

abbrev pub distinct_keys : List InstructionSection → Bool
distinct_keys [] = true
distinct_keys (s ∷ ss) = not (any (has_key s.key) ss) && distinct_keys ss

module _ (α : InstructionSection → Option String) where
  abbrev at : InstructionSection → InstructionSnapshot
  at s = placed_at s (α s)

  data Finds (previous : List InstructionSnapshot) : List InstructionSection → Type 0 where
    finds_nil : Finds previous []
    finds_cons :
        {s : InstructionSection} {ss : List InstructionSection}
        → previous_of previous s ≡ some (at s)
        → Finds previous ss
        → Finds previous (s ∷ ss)

  Finds-extend :
      (previous : List InstructionSnapshot) (t : InstructionSection) (ss : List InstructionSection)
      → any (has_key t.key) ss ≡ false
      → Finds previous ss
      → Finds (at t ∷ previous) ss
  Finds-extend previous t [] h finds_nil = finds_nil
  Finds-extend previous t (s ∷ ss) h (finds_cons f fs) =
      let a = bytes_eq_iff t.key s.key in
      let b = bytes_eq_iff s.key t.key in
      let e : bytes_eq t.key s.key ≡ false = ground (arith, h, a, b) in
      let rest : any (has_key t.key) ss ≡ false = ground (arith, h) in
      finds_cons (rw e f) (Finds-extend previous t ss rest fs)

  Finds-map : (ss : List InstructionSection) → distinct_keys ss ≡ true → Finds (map at ss) ss
  Finds-map [] h = finds_nil
  Finds-map (s ∷ ss) h =
      let fresh : any (has_key s.key) ss ≡ false = ground (arith, h) in
      let rest : distinct_keys ss ≡ true = ground (arith, h) in
      let self = (bytes_eq_iff s.key s.key).1 refl in
      finds_cons (rw self refl) (Finds-extend (map at ss) s ss fresh (Finds-map ss rest))

  keep_retained-kept :
      (history : List Message) (a : Option String)
      → anchor_kept history a ≡ true
      → keep_retained history a ≡ a
  keep_retained-kept history none h = refl
  keep_retained-kept history (some a) h = rw h refl

  place_sections-stable :
      (previous : List InstructionSnapshot) (history : List Message) (latest : String)
      (ss : List InstructionSection)
      → Finds previous ss
      → anchors_kept history (map at ss) ≡ true
      → place_sections previous history latest ss ≡ (map at ss, [])
  unfolding place_sections anchor_section
  place_sections-stable previous history latest [] fs h = refl
  place_sections-stable previous history latest (s ∷ ss) (finds_cons f fs) h =
      let here : anchor_kept history (α s) ≡ true = ground (arith, h) in
      let rest : anchors_kept history (map at ss) ≡ true = ground (arith, h) in
      let self = (bytes_eq_iff s.contents s.contents).1 refl in
      let kept = keep_retained-kept history (α s) here in
      let ih = place_sections-stable previous history latest ss fs rest in
      rw (f, self, kept, ih) refl

  removed_notes-none :
      (before ss : List InstructionSection) → removed_notes (before ++ ss) (map at ss) ≡ []
  removed_notes-none before [] = refl
  removed_notes-none before (s ∷ ss) =
      let self = (bytes_eq_iff s.key s.key).1 refl in
      let here : any (λ t. bytes_eq t.key s.key) (before ++ s ∷ ss) ≡ true =
        any-append (λ t. bytes_eq t.key s.key) before (s ∷ ss) ∙ rw self (ground arith) in
      let rest : removed_notes (before ++ s ∷ ss) (map at ss) ≡ [] =
        subst (λ l. removed_notes l (map at ss) ≡ []) (append_assoc before (s ∷ []) ss)
          (removed_notes-none (before ++ s ∷ []) ss) in
      rw here rest

  refresh-stable :
      (current : List InstructionSection) (history : List Message) (latest : String)
      (notes : List Bytes)
      → distinct_keys current ≡ true
      → anchors_kept history (map at current) ≡ true
      → refresh_instructions (map at current) current latest history notes ≡ (map at current, notes)
  unfolding refresh_instructions
  refresh-stable current history latest notes d h =
      let placed =
        place_sections-stable (map at current) history latest current (Finds-map current d) h in
      rw (placed, removed_notes-none ([]) current, append-nil notes, append-nil notes) refl

-- The anchor that a refresh gives to a section.
abbrev anchor_of :
    List InstructionSnapshot → List Message → String → InstructionSection → Option String
anchor_of previous history latest s = (anchor_section history latest s (previous_of previous s)).0

place_sections-map :
    (previous : List InstructionSnapshot) (history : List Message) (latest : String)
    (ss : List InstructionSection)
    → (place_sections previous history latest ss).0
      ≡ map (λ s. placed_at s (anchor_of previous history latest s)) ss
unfolding place_sections
place_sections-map previous history latest [] = refl
place_sections-map previous history latest (s ∷ ss) =
    ap (λ l. placed_at s (anchor_of previous history latest s) ∷ l)
      (place_sections-map previous history latest ss)

-- Where the keys are distinct and the messages that the placed sections follow are still in the
-- history, refreshing the same sections again leaves each where it is and tells nothing.
pub refresh_instructions-stable :
    (previous : List InstructionSnapshot) (current : List InstructionSection)
    (latest latest' : String) (history history' : List Message) (notes notes' : List Bytes)
    → distinct_keys current ≡ true
    → anchors_kept history' ((refresh_instructions previous current latest history notes).0) ≡ true
    → refresh_instructions
        ((refresh_instructions previous current latest history notes).0)
        current
        latest'
        history'
        notes'
      ≡ ((refresh_instructions previous current latest history notes).0, notes')
refresh_instructions-stable previous current latest latest' history history' notes notes' d h =
    let α = anchor_of previous history latest in
    let m : (refresh_instructions previous current latest history notes).0
        ≡ map (λ s. placed_at s (α s)) current =
      unfold refresh_instructions in place_sections-map previous history latest current in
    let k : anchors_kept history' (map (λ s. placed_at s (α s)) current) ≡ true = rw (← m) h in
    rw m (refresh-stable α current history' latest' notes' d k)
