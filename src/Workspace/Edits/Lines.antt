-- ===== src/Workspace/Edits/Lines.antt =====
-- The index of the lines, against the text cut into lines.
use kraai.Base.{
  ℕ, ◌+◌, true, false, List, [], ◌∷◌, ◌++◌, ◌≡◌, refl, sym, ap, ◌∙◌, length, length-append,
  is_empty, ltb, ◌==◌, if◌then◌else◌, append_assoc, Bool-cases, inl, inr, arith,
}
use kraai.Base.Utf8.{Bytes, split_inclusive, push_byte}
use kraai.Workspace.Edits.{LineSpan, index_from, index_lines}

-- The text of lines.
abbrev pub joined : List Bytes → Bytes
joined [] = []
joined (line ∷ lines) = line ++ joined lines

-- The spans of lines that start at a byte.
abbrev pub spans_from : ℕ → List Bytes → List LineSpan
spans_from start [] = []
spans_from start (line ∷ lines) =
    record { content_start = start; content_end = start + length line }
    ∷ spans_from (start + length line) lines

-- The lines of a text; the empty text has one empty line.
abbrev pub lines_of : Bytes → List Bytes
lines_of contents = if is_empty contents then [] ∷ [] else split_inclusive contents

joined-push_byte : (b : ℕ) (lines : List Bytes) → joined (push_byte b lines) ≡ b ∷ joined lines
joined-push_byte b [] = refl
joined-push_byte b (line ∷ lines) = refl

joined-split_inclusive : (s : Bytes) → joined (split_inclusive s) ≡ s
unfolding split_inclusive
joined-split_inclusive [] = refl
joined-split_inclusive (b ∷ s) = elim (Bool-cases (b == 10)) [
  | inl e ↦ rw e (ap (λ l. b ∷ l) (joined-split_inclusive s))
  | inr e ↦
      rw e (joined-push_byte b (split_inclusive s) ∙ ap (λ l. b ∷ l) (joined-split_inclusive s))
]

-- Lines whose first one has begun.
begin : Bytes → List Bytes → List Bytes
begin begun [] = if is_empty begun then [] else begun ∷ []
begin begun (line ∷ lines) = (begun ++ line) ∷ lines

begin-nil : (lines : List Bytes) → begin ([]) lines ≡ lines
unfolding begin
begin-nil [] = refl
begin-nil (line ∷ lines) = refl

begin-push_byte :
    (b : ℕ) (begun : Bytes) (lines : List Bytes)
    → begin begun (push_byte b lines) ≡ begin (begun ++ b ∷ []) lines
unfolding begin
begin-push_byte b [] [] = refl
begin-push_byte b (c ∷ begun) [] = refl
begin-push_byte b begun (line ∷ lines) = rw (append_assoc begun (b ∷ []) line) refl

is_empty-length : (s : Bytes) → is_empty s ≡ (length s == 0)
is_empty-length [] = refl
is_empty-length (b ∷ s) = ground arith

index_from-spans :
    (s : Bytes) (index start : ℕ) (begun : Bytes)
    → index ≡ start + length begun
    → index_from s index start ≡ spans_from start (begin begun (split_inclusive s))
unfolding index_from split_inclusive begin
index_from-spans [] index start begun h = elim (Bool-cases (is_empty begun)) [
  | inl e ↦
      let z = is_empty-length begun in
      let d : ltb start index ≡ false = ground (arith, h, e, z) in rw (e, d) refl
  | inr e ↦
      let z = is_empty-length begun in
      let d : ltb start index ≡ true = ground (arith, h, e, z) in rw (e, d, h) refl
]
index_from-spans (b ∷ s) index start begun h = elim (Bool-cases (b == 10)) [
  | inl e ↦
      let long : index + 1 ≡ start + length (begun ++ b ∷ []) =
        omega (arith, h, length-append begun (b ∷ [])) in
      let rest : index_from s (index + 1) (index + 1) ≡ spans_from (index + 1) (split_inclusive s) =
        index_from-spans s (index + 1) (index + 1) ([]) (omega arith)
        ∙ ap (spans_from (index + 1)) (begin-nil (split_inclusive s)) in
      rw (e, rest, long) refl
  | inr e ↦
      let long : index + 1 ≡ start + length (begun ++ b ∷ []) =
        omega (arith, h, length-append begun (b ∷ [])) in
      rw e (
        index_from-spans s (index + 1) start (begun ++ b ∷ []) long
        ∙ ap (spans_from start) (sym (begin-push_byte b begun (split_inclusive s))))
]

joined-lines_of : (contents : Bytes) → joined (lines_of contents) ≡ contents
joined-lines_of [] = refl
joined-lines_of (b ∷ s) = joined-split_inclusive (b ∷ s)

-- The index of the lines is that of the text cut behind each line feed, and the lines make up the
-- text.
pub index_lines-spans :
    (contents : Bytes)
    → (index_lines contents ≡ spans_from 0 (lines_of contents))
      × (joined (lines_of contents) ≡ contents)
unfolding index_lines
index_lines-spans [] = (refl, refl)
index_lines-spans (b ∷ s) = (
  index_from-spans (b ∷ s) 0 0 ([]) refl ∙ ap (spans_from 0) (begin-nil (split_inclusive (b ∷ s))),
  joined-lines_of (b ∷ s),
)
