-- ===== src/Workspace/Edits/Splice.antt =====
-- The loop that fills the buffer, against the replacement of lines.
use kraai.Base.{
  ℕ, ◌+◌, ◌-◌, ◌≤◌, ◌<◌, true, false, List, [], ◌∷◌, ◌++◌, some, ◌≡◌, refl, sym, ap, ◌∙◌, take,
  drop, drop-drop, ltb, arith,
}
use kraai.Base.Utf8.{Bytes, is_char_boundary}
use kraai.Workspace.Edits.{PendingEdit, split_at, splice}
use kraai.Workspace.Edits.Lines.{joined}
use kraai.Workspace.Edits.Offsets.{offset, offset-add, cut, is_char_boundary-offset}

-- The lines from the one with index `k` on, with the lines of each edit replaced.
unfoldable pub replace_lines : ℕ → List Bytes → List PendingEdit → Bytes
replace_lines k lines [] = joined lines
replace_lines k lines (e ∷ es) =
    joined (take (e.start_line - 1 - k) lines)
    ++ e.new_text
    ++ replace_lines e.end_line (drop (e.end_line - k) lines) es

-- The edit has lines of the text and stands at their bytes.
pub record Valid (lines : List Bytes) (e : PendingEdit) : Type 0 where
  pub counted : 1 ≤ e.start_line
  pub ordered : e.start_line ≤ e.end_line
  pub starts : e.start_byte ≡ offset lines (e.start_line - 1)
  pub ends : e.end_byte ≡ offset lines e.end_line
  pub start_boundary : is_char_boundary (joined lines) e.start_byte ≡ true
  pub end_boundary : is_char_boundary (joined lines) e.end_byte ≡ true

-- Valid edits, each of which starts behind the lines of the one before.
pub data Apart (lines : List Bytes) : ℕ → List PendingEdit → Type 0 where
  apart_nil : {k : ℕ} → Apart lines k []
  apart_cons :
      {k : ℕ} {e : PendingEdit} {es : List PendingEdit}
      → k < e.start_line
      → Valid lines e
      → Apart lines e.end_line es
      → Apart lines k (e ∷ es)

split_at-lines :
    (k m : ℕ) (lines : List Bytes)
    → is_char_boundary (joined lines) (offset lines (k + m)) ≡ true
    → split_at (joined (drop k lines)) (offset lines (k + m) - offset lines k)
      ≡ some (joined (take m (drop k lines)), joined (drop (k + m) lines))
unfolding split_at
split_at-lines k m lines h =
    let c = cut k m lines in rw (is_char_boundary-offset k m lines h, c.0, c.1) refl

splice-step :
    (lines : List Bytes) (k m n : ℕ) (e : PendingEdit) (es : List PendingEdit) (out : Bytes)
    → e.start_byte ≡ offset lines (k + m)
    → e.end_byte ≡ offset lines (k + m + n)
    → is_char_boundary (joined lines) (offset lines (k + m)) ≡ true
    → is_char_boundary (joined lines) (offset lines (k + m + n)) ≡ true
    → splice (joined (drop (k + m + n) lines)) e.end_byte es ≡ some out
    → splice (joined (drop k lines)) (offset lines k) (e ∷ es)
      ≡ some (joined (take m (drop k lines)) ++ e.new_text ++ out)
unfolding splice
splice-step lines k m n e es out s f sb fb h =
    let p = offset-add k m lines in
    let q = offset-add (k + m) n lines in
    let no_gap : ltb e.start_byte (offset lines k) ≡ false = ground (arith, s, p) in
    let no_turn : ltb e.end_byte e.start_byte ≡ false = ground (arith, s, f, q) in
    let first : split_at (joined (drop k lines)) (e.start_byte - offset lines k)
        ≡ some (joined (take m (drop k lines)), joined (drop (k + m) lines)) =
      rw s (split_at-lines k m lines sb) in
    let second : split_at (joined (drop (k + m) lines)) (e.end_byte - e.start_byte)
        ≡ some (joined (take n (drop (k + m) lines)), joined (drop (k + m + n) lines)) =
      rw (s, f) (split_at-lines (k + m) n lines fb) in
    rw (no_gap, no_turn, first, second, h) refl

-- Edits that are valid and apart are applied without a panic, by replacing whole lines.
pub splice-replace_lines :
    (lines : List Bytes) (k : ℕ) (es : List PendingEdit)
    → Apart lines k es
    → splice (joined (drop k lines)) (offset lines k) es ≡ some (replace_lines k (drop k lines) es)
splice-replace_lines lines k [] h = unfold splice replace_lines in refl
splice-replace_lines lines k (e ∷ es) (apart_cons after v rest) =
    let m = e.start_line - 1 - k in
    let n = e.end_line - (e.start_line - 1) in
    let start : k + m ≡ e.start_line - 1 = omega (arith, after) in
    let end : k + m + n ≡ e.end_line = omega (arith, after, v.counted, v.ordered) in
    let s : e.start_byte ≡ offset lines (k + m) = rw start v.starts in
    let f : e.end_byte ≡ offset lines (k + m + n) = rw end v.ends in
    let sb : is_char_boundary (joined lines) (offset lines (k + m)) ≡ true =
      rw (← s) v.start_boundary in
    let fb : is_char_boundary (joined lines) (offset lines (k + m + n)) ≡ true =
      rw (← f) v.end_boundary in
    let ih : splice (joined (drop (k + m + n) lines)) e.end_byte es
        ≡ some (replace_lines e.end_line (drop e.end_line lines) es) =
      rw (end, v.ends) (splice-replace_lines lines e.end_line es rest) in
    let behind : drop (e.end_line - k) (drop k lines) ≡ drop e.end_line lines =
      let size : k + (e.end_line - k) ≡ e.end_line = omega (arith, after, v.ordered) in
      sym (drop-drop k (e.end_line - k) lines) ∙ ap (λ i. drop i lines) size in
    splice-step lines k m n e es (replace_lines e.end_line (drop e.end_line lines) es) s f sb fb ih
    ∙ (unfold replace_lines in rw behind refl)
