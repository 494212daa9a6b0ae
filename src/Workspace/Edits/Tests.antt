-- ===== src/Workspace/Edits/Tests.antt =====
-- Runs of exact edits on texts of the tests of edits.rs, and instances of the theorems.
use kraai.Base.{◌≡◌, refl, List, [], ◌∷◌, none, some}
use kraai.Base.Results.{ok, err}
use kraai.Base.Utf8.{Bytes}
use kraai.Workspace.Edits.{ExactTextEdit, index_lines, overlapping_edits, apply_exact_edits}
use kraai.Workspace.Edits.Lines.{joined, spans_from, lines_of, index_lines-spans}
use kraai.Workspace.Edits.Matches.{AllMatch, apply_exact_edits-AllMatch}
use kraai.Workspace.Edits.Refinement.{edit_lines, apply_exact_edits-edit_lines}

-- "a\nb\nc\n"
abbrev three_lines : Bytes
three_lines = 97 ∷ 10 ∷ 98 ∷ 10 ∷ 99 ∷ 10 ∷ []

abbrev last_then_first : List ExactTextEdit
last_then_first =
    record { start_line = 3; end_line = 3; old_text = 99 ∷ 10 ∷ []; new_text = 120 ∷ [] }
    ∷ record { start_line = 1; end_line = 1; old_text = 97 ∷ 10 ∷ []; new_text = [] }
    ∷ []

abbrev overlapping : List ExactTextEdit
overlapping =
    record { start_line = 2; end_line = 3; old_text = 98 ∷ 10 ∷ 99 ∷ 10 ∷ []; new_text = [] }
    ∷ record { start_line = 1; end_line = 2; old_text = 97 ∷ 10 ∷ 98 ∷ 10 ∷ []; new_text = [] }
    ∷ []

edits_use_original_ranges :
    apply_exact_edits three_lines last_then_first ≡ some (ok (98 ∷ 10 ∷ 120 ∷ []))
unfolding apply_exact_edits index_lines kraai.Workspace.Edits.get_range
    kraai.Base.Utf8.is_char_boundary kraai.Base.Utf8.bytes_eq
edits_use_original_ranges = refl

overlap_errors_use_sorted_ranges :
    apply_exact_edits three_lines overlapping ≡ some (err (overlapping_edits 1 2 2 3))
unfolding apply_exact_edits index_lines kraai.Workspace.Edits.get_range
    kraai.Base.Utf8.is_char_boundary kraai.Base.Utf8.bytes_eq
overlap_errors_use_sorted_ranges = refl

index_lines-spans_example :
    (index_lines three_lines ≡ spans_from 0 (lines_of three_lines))
    × (joined (lines_of three_lines) ≡ three_lines)
index_lines-spans_example = index_lines-spans three_lines

apply_exact_edits-edit_lines_example :
    apply_exact_edits three_lines last_then_first ≡ some (edit_lines three_lines last_then_first)
apply_exact_edits-edit_lines_example = apply_exact_edits-edit_lines three_lines last_then_first

apply_exact_edits-AllMatch_example : AllMatch (lines_of three_lines) last_then_first
apply_exact_edits-AllMatch_example =
    apply_exact_edits-AllMatch three_lines last_then_first edits_use_original_ranges
