-- ===== src/Workspace/Edits/Refinement.antt =====
-- Exact edits, against the replacement of lines.
use mathlib.Core.Path.{subst}
use kraai.Base.{
  ℕ, zero, suc, ◌+◌, ◌-◌, ◌≤◌, ◌<◌, Bool, true, false, ◌||◌, List, [], ◌∷◌, none, some, ◌≡◌, refl,
  sym, ◌∙◌, Bool-cases, Option-cases, inl, inr, length, get_elem?, take, is_empty, ltb, ◌==◌,
  if◌then◌else◌, length-append, arith,
}
use kraai.Base.Results.{Result, ok, err, and_then}
use kraai.Base.Utf8.{Bytes, bytes_eq, is_char_boundary}
use kraai.Workspace.Edits.{
  ExactTextEdit, LineSpan, PendingEdit, EditError, get_range, validate_edit, validate_edits,
  comes_first, insert_edit, sort_edits, find_overlap, splice, apply_exact_edits,
}
use kraai.Workspace.Edits.Lines.{joined, spans_from, lines_of, index_lines-spans}
use kraai.Workspace.Edits.Offsets.{offset}
use kraai.Workspace.Edits.Splice.{
  replace_lines, Valid, Apart, apart_nil, apart_cons, splice-replace_lines,
}

pub get_elem?-spans_from :
    (start i : ℕ) (lines : List Bytes) {span : LineSpan}
    → get_elem? (spans_from start lines) i ≡ some span
    → (span.content_start ≡ start + offset lines i)
      × (span.content_end ≡ start + offset lines (suc i))
get_elem?-spans_from start i [] h = cc
get_elem?-spans_from start zero (line ∷ lines) {span} h =
    let size = length-append line ([]) in
    let a : start ≡ span.content_start = ground (arith, h) in
    let b : start + length line ≡ span.content_end = ground (arith, h) in
    (omega (arith, a), omega (arith, b, size))
get_elem?-spans_from start (suc i) (line ∷ lines) h =
    let ih = get_elem?-spans_from (start + length line) i lines h in
    (
      omega (arith, ih.0, length-append line (joined (take i lines))),
      omega (arith, ih.1, length-append line (joined (take (suc i) lines))),
    )

get_range-is_char_boundary :
    (contents : Bytes) (start end : ℕ) {t : Bytes}
    → get_range contents start end ≡ some t
    → (is_char_boundary contents start ≡ true) × (is_char_boundary contents end ≡ true)
unfolding get_range
get_range-is_char_boundary contents start end h = ground (arith, h)

abbrev pub in_range : List LineSpan → ExactTextEdit → Bool
in_range lines edit =
    edit.start_line == 0 || ltb edit.end_line edit.start_line || ltb (length lines) edit.end_line

abbrev pending_of : ExactTextEdit → LineSpan → LineSpan → PendingEdit
pending_of edit first last = record {
  start_line = edit.start_line;
  end_line = edit.end_line;
  start_byte = first.content_start;
  end_byte = last.content_end;
  new_text = edit.new_text;
}

validate_edit-pending :
    (contents : Bytes) (spans : List LineSpan) (index : ℕ) (edit : ExactTextEdit)
    (first last : LineSpan) (actual : Bytes)
    → in_range spans edit ≡ false
    → get_elem? spans (edit.start_line - 1) ≡ some first
    → get_elem? spans (edit.end_line - 1) ≡ some last
    → get_range contents first.content_start last.content_end ≡ some actual
    → bytes_eq actual edit.old_text ≡ true
    → validate_edit contents spans index edit ≡ ok (pending_of edit first last)
unfolding validate_edit
validate_edit-pending contents spans index edit first last actual c e g r d =
    ground (arith, c, e, g, r, d)

pending_of-Valid :
    (lines : List Bytes) (edit : ExactTextEdit) (first last : LineSpan) (spans : List LineSpan)
    → in_range spans edit ≡ false
    → first.content_start ≡ 0 + offset lines (edit.start_line - 1)
    → last.content_end ≡ 0 + offset lines (suc (edit.end_line - 1))
    → is_char_boundary (joined lines) first.content_start ≡ true
    → is_char_boundary (joined lines) last.content_end ≡ true
    → Valid lines (pending_of edit first last)
pending_of-Valid lines edit first last spans c a b x y =
    let counted : 1 ≤ edit.start_line = ground (arith, c) in
    let ordered : edit.start_line ≤ edit.end_line = ground (arith, c) in
    let size : suc (edit.end_line - 1) ≡ edit.end_line = omega (arith, counted, ordered) in
    record {
      counted = counted;
      ordered = ordered;
      starts = omega (arith, a);
      ends = b ∙ (rw size (omega arith));
      start_boundary = x;
      end_boundary = y;
    }

-- What the validation of an edit finds.
pub record Checked (contents : Bytes) (spans : List LineSpan) (edit : ExactTextEdit) : Type 0 where
  pub first : LineSpan
  pub last : LineSpan
  pub actual : Bytes
  pub inside : in_range spans edit ≡ false
  pub begins : get_elem? spans (edit.start_line - 1) ≡ some first
  pub closes : get_elem? spans (edit.end_line - 1) ≡ some last
  pub reads : get_range contents first.content_start last.content_end ≡ some actual
  pub agrees : bytes_eq actual edit.old_text ≡ true

pub validate_edit-Checked :
    (contents : Bytes) (spans : List LineSpan) (index : ℕ) (edit : ExactTextEdit) {p : PendingEdit}
    → validate_edit contents spans index edit ≡ ok p
    → Checked contents spans edit
unfolding validate_edit
validate_edit-Checked contents spans index edit h = elim (Bool-cases (in_range spans edit)) [
  | inl c ↦ ground (arith, h, c)
  | inr c ↦ elim (Option-cases (get_elem? spans (edit.start_line - 1))) [
    | inl e ↦ ground (arith, h, c, e)
    | inr (first, e) ↦ elim (Option-cases (get_elem? spans (edit.end_line - 1))) [
      | inl g ↦ ground (arith, h, c, e, g)
      | inr (last, g) ↦
          elim (Option-cases (get_range contents first.content_start last.content_end)) [
            | inl r ↦ ground (arith, h, c, e, g, r)
            | inr (actual, r) ↦ elim (Bool-cases (bytes_eq actual edit.old_text)) [
              | inr d ↦ ground (arith, h, c, e, g, r, d)
              | inl d ↦ record {
                first = first;
                last = last;
                actual = actual;
                inside = c;
                begins = e;
                closes = g;
                reads = r;
                agrees = d;
              }
            ]
          ]
    ]
  ]
]

validate_edit-Valid :
    (lines : List Bytes) (index : ℕ) (edit : ExactTextEdit) {p : PendingEdit}
    → validate_edit (joined lines) (spans_from 0 lines) index edit ≡ ok p
    → Valid lines p
validate_edit-Valid lines index edit {p} h =
    let v = validate_edit-Checked (joined lines) (spans_from 0 lines) index edit h in
    let a = get_elem?-spans_from 0 (edit.start_line - 1) lines v.begins in
    let b = get_elem?-spans_from 0 (edit.end_line - 1) lines v.closes in
    let x =
      get_range-is_char_boundary (joined lines) v.first.content_start v.last.content_end v.reads in
    let answer : ◌≡◌ {A = Result PendingEdit EditError} (ok (pending_of edit v.first v.last))
        (ok p) =
      (sym (
        validate_edit-pending (joined lines) (spans_from 0 lines) index edit v.first v.last v.actual
          v.inside v.begins v.closes v.reads v.agrees))
      ∙ h in
    let same : pending_of edit v.first v.last ≡ p = cc in
    subst (Valid lines) same (
      pending_of-Valid lines edit v.first v.last (spans_from 0 lines) v.inside (a.0) (b.1) (x.0)
        (x.1))

-- All the edits are valid.
data Valids (lines : List Bytes) : List PendingEdit → Type 0 where
  no_edits : Valids lines []
  and_edit :
      {e : PendingEdit} {es : List PendingEdit}
      → Valid lines e
      → Valids lines es
      → Valids lines (e ∷ es)

validate_edits-Valids :
    (lines : List Bytes) (index : ℕ) (edits : List ExactTextEdit) {ps : List PendingEdit}
    → validate_edits (joined lines) (spans_from 0 lines) index edits ≡ ok ps
    → Valids lines ps
unfolding validate_edits and_then
validate_edits-Valids lines index [] {ps} h =
    let q : [] ≡ ps = ground (arith, h) in subst (Valids lines) q no_edits
validate_edits-Valids lines index (edit ∷ edits) {ps} h =
    go (validate_edit (joined lines) (spans_from 0 lines) index edit) refl
      (validate_edits (joined lines) (spans_from 0 lines) (index + 1) edits) refl
      (λ qs k. validate_edits-Valids lines (index + 1) edits k)
  where
    go :
        (r : Result PendingEdit EditError)
        → validate_edit (joined lines) (spans_from 0 lines) index edit ≡ r
        → (rs : Result (List PendingEdit) EditError)
        → validate_edits (joined lines) (spans_from 0 lines) (index + 1) edits ≡ rs
        → ((qs : List PendingEdit)
            → validate_edits (joined lines) (spans_from 0 lines) (index + 1) edits ≡ ok qs
            → Valids lines qs)
        → Valids lines ps
    go (err x) e rs f ih = ground (arith, h, e)
    go (ok p) e (err x) f ih = ground (arith, h, e, f)
    go (ok p) e (ok qs) f ih =
        let q : p ∷ qs ≡ ps = ground (arith, h, e, f) in
        subst (Valids lines) q (and_edit (validate_edit-Valid lines index edit e) (ih qs f))

insert_edit-Valids :
    (lines : List Bytes) (e : PendingEdit) (es : List PendingEdit)
    → Valid lines e
    → Valids lines es
    → Valids lines (insert_edit e es)
unfolding insert_edit
insert_edit-Valids lines e [] v vs = and_edit v vs
insert_edit-Valids lines e (f ∷ fs) v (and_edit w ws) =
    let ih = insert_edit-Valids lines e fs v ws in
    elim (Bool-cases (comes_first e f)) [
      | inl c ↦ rw c (and_edit v (and_edit w ws))
      | inr c ↦ rw c (and_edit w ih)
    ]

sort_edits-Valids :
    (lines : List Bytes) (es : List PendingEdit) → Valids lines es → Valids lines (sort_edits es)
unfolding sort_edits
sort_edits-Valids lines [] vs = no_edits
sort_edits-Valids lines (e ∷ es) (and_edit v vs) =
    insert_edit-Valids lines e (sort_edits es) v (sort_edits-Valids lines es vs)

find_overlap-Apart :
    (lines : List Bytes) (previous : PendingEdit) (es : List PendingEdit)
    → find_overlap (previous ∷ es) ≡ none
    → Valids lines es
    → Apart lines previous.end_line es
unfolding find_overlap
find_overlap-Apart lines previous [] h vs = apart_nil
find_overlap-Apart lines previous (e ∷ es) h (and_edit v vs) =
    let after : previous.end_line < e.start_line = ground (arith, h) in
    let rest : find_overlap (e ∷ es) ≡ none = ground (arith, h) in
    apart_cons after v (find_overlap-Apart lines e es rest vs)

sorted-Apart :
    (lines : List Bytes) (es : List PendingEdit)
    → find_overlap es ≡ none
    → Valids lines es
    → Apart lines 0 es
sorted-Apart lines [] h vs = apart_nil
sorted-Apart lines (e ∷ es) h (and_edit v vs) =
    let after : 0 < e.start_line = omega (arith, v.counted) in
    apart_cons after v (find_overlap-Apart lines e es h vs)

-- The edits, line by line: validated against the lines, in the order of their lines and without an
-- overlap, each replaces its lines.
unfoldable pub edit_lines : Bytes → List ExactTextEdit → Result Bytes EditError
edit_lines contents edits =
    if is_empty edits
    then ok contents
    else elim (validate_edits contents (spans_from 0 (lines_of contents)) 0 edits) [
      | err e ↦ err e
      | ok pending ↦ elim (find_overlap (sort_edits pending)) [
        | some e ↦ err e
        | none ↦ ok (replace_lines 0 (lines_of contents) (sort_edits pending))
      ]
    ]

splice-lines_of :
    (contents : Bytes) (edits : List ExactTextEdit) (pending : List PendingEdit)
    → validate_edits contents (spans_from 0 (lines_of contents)) 0 edits ≡ ok pending
    → find_overlap (sort_edits pending) ≡ none
    → splice contents 0 (sort_edits pending)
      ≡ some (replace_lines 0 (lines_of contents) (sort_edits pending))
splice-lines_of contents edits pending e o =
    let lines = lines_of contents in
    let whole = (index_lines-spans contents).1 in
    let f : validate_edits (joined lines) (spans_from 0 lines) 0 edits ≡ ok pending = rw whole e in
    let valid = sort_edits-Valids lines pending (validate_edits-Valids lines 0 edits f) in
    subst (λ l. splice l 0 (sort_edits pending) ≡ some (replace_lines 0 lines (sort_edits pending)))
      whole
      (splice-replace_lines lines 0 (sort_edits pending)
        (sorted-Apart lines (sort_edits pending) o valid))

nonempty_edits :
    (contents : Bytes) (edits : List ExactTextEdit) (r : Result (List PendingEdit) EditError)
    → is_empty edits ≡ false
    → validate_edits contents (spans_from 0 (lines_of contents)) 0 edits ≡ r
    → apply_exact_edits contents edits ≡ some (edit_lines contents edits)
unfolding apply_exact_edits edit_lines
nonempty_edits contents edits (err x) b e =
    let i = (index_lines-spans contents).0 in ground (arith, b, i, e)
nonempty_edits contents edits (ok pending) b e =
    elim (Option-cases (find_overlap (sort_edits pending))) [
      | inr (x, o) ↦ let i = (index_lines-spans contents).0 in ground (arith, b, i, e, o)
      | inl o ↦
          let spliced = splice-lines_of contents edits pending e o in
          let i = (index_lines-spans contents).0 in ground (arith, b, i, e, o, spliced)
    ]

-- Exact edits never panic, and they give what the replacement of whole lines gives, the errors
-- included.
pub apply_exact_edits-edit_lines :
    (contents : Bytes) (edits : List ExactTextEdit)
    → apply_exact_edits contents edits ≡ some (edit_lines contents edits)
apply_exact_edits-edit_lines contents edits = elim (Bool-cases (is_empty edits)) [
  | inl b ↦ unfold apply_exact_edits edit_lines in rw b refl
  | inr b ↦
      nonempty_edits contents edits
        (validate_edits contents (spans_from 0 (lines_of contents)) 0 edits) b refl
]
