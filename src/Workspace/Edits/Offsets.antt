-- ===== src/Workspace/Edits/Offsets.antt =====
-- Lines and the bytes at which they start.
use mathlib.Core.Path.{subst}
use kraai.Base.{
  ℕ, zero, suc, ◌+◌, ◌-◌, true, List, [], ◌∷◌, ◌++◌, ◌≡◌, refl, ap, ◌∙◌, length, length-append,
  take, drop, drop-drop, take-append_length, drop-append_length, append_assoc, arith,
}
use kraai.Base.Utf8.{Bytes, is_char_boundary, is_char_boundary-zero}
use kraai.Workspace.Edits.Lines.{joined}

-- The bytes before a line, counted from 0.
abbrev pub offset : List Bytes → ℕ → ℕ
offset lines k = length (joined (take k lines))

joined-take-drop :
    (k : ℕ) (lines : List Bytes) → joined (take k lines) ++ joined (drop k lines) ≡ joined lines
joined-take-drop zero lines = refl
joined-take-drop (suc k) [] = refl
joined-take-drop (suc k) (line ∷ lines) =
    append_assoc line (joined (take k lines)) (joined (drop k lines))
    ∙ ap (λ l. line ++ l) (joined-take-drop k lines)

take-nil : (n : ℕ) → take {A = Bytes} n ([]) ≡ []
take-nil zero = refl
take-nil (suc n) = refl

pub offset-add :
    (k m : ℕ) (lines : List Bytes)
    → offset lines (k + m) ≡ offset lines k + length (joined (take m (drop k lines)))
offset-add zero m lines = ground arith
offset-add (suc k) m [] = rw (take-nil (suc k + m), take-nil m) (omega arith)
offset-add (suc k) m (line ∷ lines) =
    let e : suc k + m ≡ suc (k + m) = omega arith in
    rw e (
      omega (
        arith,
        offset-add k m lines,
        length-append line (joined (take (k + m) lines)),
        length-append line (joined (take k lines)),
      ))

-- The bytes from a line on, cut at a later line.
pub cut :
    (k m : ℕ) (lines : List Bytes)
    → (take (offset lines (k + m) - offset lines k) (joined (drop k lines))
        ≡ joined (take m (drop k lines)))
      × (drop (offset lines (k + m) - offset lines k) (joined (drop k lines))
          ≡ joined (drop (k + m) lines))
cut k m lines =
    let size : offset lines (k + m) - offset lines k ≡ length (joined (take m (drop k lines))) =
      omega (arith, offset-add k m lines) in
    let parts = joined-take-drop m (drop k lines) in
    (
      rw (size, ← parts)
          (take-append_length (joined (take m (drop k lines))) (joined (drop m (drop k lines)))),
      rw (size, ← parts, drop-drop k m lines)
          (drop-append_length (joined (take m (drop k lines))) (joined (drop m (drop k lines)))),
    )

pub joined-drop :
    (k : ℕ) (lines : List Bytes) → drop (offset lines k) (joined lines) ≡ joined (drop k lines)
joined-drop k lines =
    rw (← joined-take-drop k lines)
      (drop-append_length (joined (take k lines)) (joined (drop k lines)))

is_char_boundary-tail :
    (b i : ℕ) (s : Bytes)
    → is_char_boundary (b ∷ s) (suc (suc i)) ≡ true
    → is_char_boundary s (suc i) ≡ true
unfolding is_char_boundary
is_char_boundary-tail b i [] h = h
is_char_boundary-tail b i (c ∷ s) h = h

is_char_boundary-drop :
    (c i : ℕ) (s : Bytes) → is_char_boundary s (c + i) ≡ true → is_char_boundary (drop c s) i ≡ true
is_char_boundary-drop c zero s h = is_char_boundary-zero (drop c s)
is_char_boundary-drop zero (suc i) s h = let e : zero + suc i ≡ suc i = omega arith in rw (← e) h
is_char_boundary-drop (suc c) (suc i) [] h =
    let e : suc c + suc i ≡ suc (c + suc i) = omega arith in
    let k : is_char_boundary ([]) (suc (c + suc i)) ≡ true = rw (← e) h in
    unfold is_char_boundary in ground (arith, k)
is_char_boundary-drop (suc c) (suc i) (b ∷ s) h =
    let e : suc c + suc i ≡ suc (suc (c + i)) = omega arith in
    let k : is_char_boundary (b ∷ s) (suc (suc (c + i))) ≡ true = rw (← e) h in
    let f : suc (c + i) ≡ c + suc i = omega arith in
    let t : is_char_boundary s (c + suc i) ≡ true =
      rw (← f) (is_char_boundary-tail b (c + i) s k) in
    is_char_boundary-drop c (suc i) s t

-- A boundary of a text is one of the text from a line on.
pub is_char_boundary-offset :
    (k m : ℕ) (lines : List Bytes)
    → is_char_boundary (joined lines) (offset lines (k + m)) ≡ true
    → is_char_boundary (joined (drop k lines)) (offset lines (k + m) - offset lines k) ≡ true
is_char_boundary-offset k m lines h =
    let size : offset lines (k + m) ≡ offset lines k + (offset lines (k + m) - offset lines k) =
      omega (arith, offset-add k m lines) in
    let b : is_char_boundary (joined lines)
          (offset lines k + (offset lines (k + m) - offset lines k))
        ≡ true =
      subst (λ n. is_char_boundary (joined lines) n ≡ true) size h in
    subst (λ l. is_char_boundary l (offset lines (k + m) - offset lines k) ≡ true)
      (joined-drop k lines)
      (is_char_boundary-drop (offset lines k) (offset lines (k + m) - offset lines k) (joined lines)
        b)
