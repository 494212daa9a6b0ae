-- ===== src/Workspace/Edits.antt =====
-- crates/kraai-workspace-fs/src/edits.rs: exact edits of lines of a text. The path, which every
-- error repeats, is left out of the errors.
use kraai.Base.{
  ℕ, zero, suc, ◌+◌, ◌-◌, Bool, true, false, not, ◌&&◌, ◌||◌, List, [], ◌∷◌, ◌++◌, Option, none,
  some, length, get_elem?, take, drop, is_empty, ltb, leb, ◌==◌, if◌then◌else◌,
}
use kraai.Base.Results.{Result, ok, err, and_then}
use kraai.Base.Utf8.{Bytes, bytes_eq, is_char_boundary}
pub mod Lines
pub mod Offsets
pub mod Splice
pub mod Refinement
pub mod Matches
pub mod Tests

pub record ExactTextEdit : Type 0 where
  pub start_line : ℕ
  pub end_line : ℕ
  pub old_text : Bytes
  pub new_text : Bytes

pub record LineSpan : Type 0 where
  pub content_start : ℕ
  pub content_end : ℕ

pub record PendingEdit : Type 0 where
  pub start_line : ℕ
  pub end_line : ℕ
  pub start_byte : ℕ
  pub end_byte : ℕ
  pub new_text : Bytes

pub data EditError : Type 0 where
  invalid_line_range : ℕ → ℕ → ℕ → EditError
  invalid_text_boundary : ℕ → EditError
  old_text_mismatch : ℕ → Bytes → Bytes → EditError
  overlapping_edits : ℕ → ℕ → ℕ → ℕ → EditError

-- The loop over the bytes: `index` is that of the next byte, `start` where its line starts.
unfoldable pub index_from : Bytes → ℕ → ℕ → List LineSpan
index_from [] index start =
    if ltb start index then record { content_start = start; content_end = index } ∷ [] else []
index_from (byte ∷ bytes) index start =
    let ended = index_from bytes (index + 1) (index + 1) in
    let longer = index_from bytes (index + 1) start in
    if byte == 10 then record { content_start = start; content_end = index + 1 } ∷ ended else longer

unfoldable pub index_lines : Bytes → List LineSpan
unfolding index_from
index_lines contents =
    if is_empty contents
    then record { content_start = 0; content_end = 0 } ∷ []
    else index_from contents 0 0

-- `contents.get(start..end)`.
unfoldable pub get_range : Bytes → ℕ → ℕ → Option Bytes
get_range contents start end =
    if leb start end && is_char_boundary contents start && is_char_boundary contents end
    then some (take (end - start) (drop start contents))
    else none

-- The comparison of the text in the lines with the expected one.
abbrev pub check_text :
    Bytes → ℕ → ExactTextEdit → LineSpan → LineSpan → Result PendingEdit EditError
check_text contents number edit first last =
    elim (get_range contents first.content_start last.content_end) [
      | none ↦ err (invalid_text_boundary number)
      | some actual ↦
          if bytes_eq actual edit.old_text
          then ok (record {
            start_line = edit.start_line;
            end_line = edit.end_line;
            start_byte = first.content_start;
            end_byte = last.content_end;
            new_text = edit.new_text;
          })
          else err (old_text_mismatch number edit.old_text actual)
    ]

-- `validate_edit`; a `u32` fits a `usize`.
unfoldable pub validate_edit :
    Bytes → List LineSpan → ℕ → ExactTextEdit → Result PendingEdit EditError
validate_edit contents lines index edit =
    let number = index + 1 in
    let invalid = invalid_line_range number edit.start_line edit.end_line in
    if edit.start_line == 0 || ltb edit.end_line edit.start_line || ltb (length lines) edit.end_line
    then err invalid
    else elim (get_elem? lines (edit.start_line - 1)) [
      | none ↦ err invalid
      | some first ↦ elim (get_elem? lines (edit.end_line - 1)) [
        | none ↦ err invalid
        | some last ↦ check_text contents number edit first last
      ]
    ]

unfoldable pub validate_edits :
    Bytes → List LineSpan → ℕ → List ExactTextEdit → Result (List PendingEdit) EditError
unfolding validate_edit and_then
validate_edits contents lines index [] = ok []
validate_edits contents lines index (edit ∷ edits) =
    and_then (validate_edit contents lines index edit) (λ pending.
      and_then (validate_edits contents lines (index + 1) edits) (λ rest. ok (pending ∷ rest)))

-- The order of the keys `(start_line, end_line)`.
abbrev pub comes_first : PendingEdit → PendingEdit → Bool
comes_first a b =
    ltb a.start_line b.start_line || (a.start_line == b.start_line && leb a.end_line b.end_line)

-- `sort_by_key`, which is stable.
unfoldable pub insert_edit : PendingEdit → List PendingEdit → List PendingEdit
insert_edit e [] = e ∷ []
insert_edit e (f ∷ fs) =
    let rest = insert_edit e fs in if comes_first e f then e ∷ f ∷ fs else f ∷ rest

unfoldable pub sort_edits : List PendingEdit → List PendingEdit
unfolding insert_edit
sort_edits [] = []
sort_edits (e ∷ es) = insert_edit e (sort_edits es)

-- The loop over the windows of two.
unfoldable pub find_overlap : List PendingEdit → Option EditError
find_overlap [] = none
find_overlap (previous ∷ []) = none
find_overlap (previous ∷ current ∷ rest) =
    let later = find_overlap (current ∷ rest) in
    if leb current.start_line previous.end_line
    then some (
        overlapping_edits previous.start_line previous.end_line current.start_line current.end_line)
    else later

-- `str::split_at`; `none` where it panics.
unfoldable pub split_at : Bytes → ℕ → Option (Bytes × Bytes)
split_at s middle = if is_char_boundary s middle then some (take middle s, drop middle s) else none

-- The loop that fills the buffer; `none` where it panics, by a subtraction below zero or a split.
unfoldable pub splice : Bytes → ℕ → List PendingEdit → Option Bytes
unfolding split_at
splice remaining consumed [] = some remaining
splice remaining consumed (edit ∷ edits) =
    if ltb edit.start_byte consumed || ltb edit.end_byte edit.start_byte
    then none
    else elim (split_at remaining (edit.start_byte - consumed)) [
      | none ↦ none
      | some (unchanged, tail) ↦ elim (split_at tail (edit.end_byte - edit.start_byte)) [
        | none ↦ none
        | some (replaced, rest) ↦ elim (splice rest edit.end_byte edits) [
          | none ↦ none
          | some out ↦ some (unchanged ++ edit.new_text ++ out)
        ]
      ]
    ]

-- `apply_exact_edits`; `none` where it panics. The capacity of the buffer is left out.
unfoldable pub apply_exact_edits : Bytes → List ExactTextEdit → Option (Result Bytes EditError)
unfolding validate_edits sort_edits find_overlap splice
apply_exact_edits contents edits =
    if is_empty edits
    then some (ok contents)
    else elim (validate_edits contents (index_lines contents) 0 edits) [
      | err e ↦ some (err e)
      | ok pending ↦
          let sorted = sort_edits pending in
          elim (find_overlap sorted) [
            | some e ↦ some (err e)
            | none ↦ elim (splice contents 0 sorted) [ none ↦ none | some out ↦ some (ok out) ]
          ]
    ]
