-- ===== src/Workspace/Edits/Matches.antt =====
-- What the exact edits that are applied have in common with the text.
use kraai.Base.{
  ℕ, suc, ◌+◌, ◌-◌, ◌≤◌, false, List, [], ◌∷◌, some, ◌≡◌, refl, sym, ap, ◌∙◌, length, take, drop,
  is_empty, arith,
}
use kraai.Base.Results.{Result, ok, err, and_then}
use kraai.Base.Utf8.{Bytes, bytes_eq_iff}
use kraai.Workspace.Edits.{
  ExactTextEdit, PendingEdit, EditError, get_range, validate_edit, validate_edits,
  apply_exact_edits,
}
use kraai.Workspace.Edits.Lines.{joined, spans_from, lines_of, index_lines-spans}
use kraai.Workspace.Edits.Offsets.{offset, cut, joined-drop}
use kraai.Workspace.Edits.Refinement.{
  Checked, get_elem?-spans_from, validate_edit-Checked, edit_lines, apply_exact_edits-edit_lines,
}

-- An edit names lines of the text, counted from one, and holds what they hold.
pub record Matches (lines : List Bytes) (edit : ExactTextEdit) : Type 0 where
  pub counted : 1 ≤ edit.start_line
  pub ordered : edit.start_line ≤ edit.end_line
  pub present : edit.end_line ≤ length lines
  pub old :
      joined (take (edit.end_line - (edit.start_line - 1)) (drop (edit.start_line - 1) lines))
      ≡ edit.old_text

abbrev pub AllMatch : List Bytes → List ExactTextEdit → Type 0
AllMatch lines [] = Unit
AllMatch lines (edit ∷ edits) = Matches lines edit × AllMatch lines edits

length-spans_from :
    (start : ℕ) (lines : List Bytes) → length (spans_from start lines) ≡ length lines
length-spans_from start [] = refl
length-spans_from start (line ∷ lines) = ap suc (length-spans_from (start + length line) lines)

get_range-some :
    (contents : Bytes) (start end : ℕ) {t : Bytes}
    → get_range contents start end ≡ some t
    → take (end - start) (drop start contents) ≡ t
unfolding get_range
get_range-some contents start end h = ground (arith, h)

-- The bytes from the start of a line to the end of a later one are those of the lines.
lines_between :
    (lines : List Bytes) (k m : ℕ)
    → take (offset lines (k + m) - offset lines k) (drop (offset lines k) (joined lines))
      ≡ joined (take m (drop k lines))
lines_between lines k m = rw (joined-drop k lines) ((cut k m lines).0)

Checked-Matches :
    (lines : List Bytes) (edit : ExactTextEdit)
    → Checked (joined lines) (spans_from 0 lines) edit
    → Matches lines edit
Checked-Matches lines edit v =
    let size = length-spans_from 0 lines in
    let counted : 1 ≤ edit.start_line = ground (arith, v.inside) in
    let ordered : edit.start_line ≤ edit.end_line = ground (arith, v.inside) in
    let present : edit.end_line ≤ length lines = ground (arith, v.inside, size) in
    let k : ℕ = edit.start_line - 1 in
    let m : ℕ = edit.end_line - k in
    let a = get_elem?-spans_from 0 k lines v.begins in
    let b = get_elem?-spans_from 0 (edit.end_line - 1) lines v.closes in
    let last : suc (edit.end_line - 1) ≡ k + m = omega (arith, counted, ordered) in
    let from : v.first.content_start ≡ offset lines k = omega (arith, a.0) in
    let to : v.last.content_end ≡ offset lines (k + m) = b.1 ∙ rw last (omega arith) in
    let read : take (offset lines (k + m) - offset lines k) (drop (offset lines k) (joined lines))
        ≡ v.actual =
      rw (← from, ← to)
        (get_range-some (joined lines) v.first.content_start v.last.content_end v.reads) in
    record {
      counted = counted;
      ordered = ordered;
      present = present;
      old = sym (lines_between lines k m) ∙ read ∙ (bytes_eq_iff v.actual edit.old_text).0 v.agrees;
    }

validate_edits-AllMatch :
    (lines : List Bytes) (index : ℕ) (edits : List ExactTextEdit) {ps : List PendingEdit}
    → validate_edits (joined lines) (spans_from 0 lines) index edits ≡ ok ps
    → AllMatch lines edits
unfolding validate_edits and_then
validate_edits-AllMatch lines index [] h = tt
validate_edits-AllMatch lines index (edit ∷ edits) {ps} h =
    go (validate_edit (joined lines) (spans_from 0 lines) index edit) refl
      (validate_edits (joined lines) (spans_from 0 lines) (index + 1) edits) refl
      (λ qs k. validate_edits-AllMatch lines (index + 1) edits k)
  where
    go :
        (r : Result PendingEdit EditError)
        → validate_edit (joined lines) (spans_from 0 lines) index edit ≡ r
        → (rs : Result (List PendingEdit) EditError)
        → validate_edits (joined lines) (spans_from 0 lines) (index + 1) edits ≡ rs
        → ((qs : List PendingEdit)
            → validate_edits (joined lines) (spans_from 0 lines) (index + 1) edits ≡ ok qs
            → AllMatch lines edits)
        → AllMatch lines (edit ∷ edits)
    go (err x) e rs f ih = ground (arith, h, e)
    go (ok p) e (err x) f ih = ground (arith, h, e, f)
    go (ok p) e (ok qs) f ih = (
      Checked-Matches lines edit
          (validate_edit-Checked (joined lines) (spans_from 0 lines) index edit e),
      ih qs f,
    )

validated :
    (contents : Bytes) (edits : List ExactTextEdit) {out : Bytes}
    → is_empty edits ≡ false
    → edit_lines contents edits ≡ ok out
    → (ps : List PendingEdit) × (validate_edits contents (spans_from 0 (lines_of contents)) 0 edits
        ≡ ok ps)
unfolding edit_lines
validated contents edits {out} b h =
    go (validate_edits contents (spans_from 0 (lines_of contents)) 0 edits) refl
  where
    go :
        (r : Result (List PendingEdit) EditError)
        → validate_edits contents (spans_from 0 (lines_of contents)) 0 edits ≡ r
        → (ps : List PendingEdit) × (validate_edits contents
              (spans_from 0 (lines_of contents))
              0
              edits
            ≡ ok ps)
    go (err x) e = ground (arith, b, h, e)
    go (ok ps) e = (ps, e)

-- Where exact edits succeed, each of them names lines that the text has, and its old text is what
-- these lines hold.
pub apply_exact_edits-AllMatch :
    (contents : Bytes) (edits : List ExactTextEdit) {out : Bytes}
    → apply_exact_edits contents edits ≡ some (ok out)
    → AllMatch (lines_of contents) edits
apply_exact_edits-AllMatch contents [] h = tt
apply_exact_edits-AllMatch contents (edit ∷ edits) {out} h =
    let i : some (edit_lines contents (edit ∷ edits)) ≡ some (ok out) =
      sym (apply_exact_edits-edit_lines contents (edit ∷ edits)) ∙ h in
    let j : edit_lines contents (edit ∷ edits) ≡ ok out = cc in
    let (ps, v) = validated contents (edit ∷ edits) refl j in
    let whole = (index_lines-spans contents).1 in
    validate_edits-AllMatch (lines_of contents) 0 (edit ∷ edits) {ps = ps} (rw whole v)
