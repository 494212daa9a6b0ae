-- ===== src/Base/Utf8.antt =====
-- What the program uses of Rust's `str` where it walks text: a text is the list of its UTF-8 bytes.
use Prim.Native.Nat.{ℕ, zero, suc}
use mathlib.Core.Bool.{Bool, true, false, not, ◌&&◌, ◌||◌}
use mathlib.Core.Path.{◌≡◌, refl}
use mathlib.Core.Logic.{◌↔◌}
use native.Mathlib.Omega.{arith}
use mathlib.Core.List.{List, [], ◌∷◌}
use mathlib.Core.Option.{Option, none, some}
use kraai.Base.Bools.{ltb, leb, ◌==◌, ==_iff, if◌then◌else◌}

abbrev pub Bytes : Type 0
Bytes = List ℕ

abbrev between : ℕ → ℕ → ℕ → Bool
between lo hi b = leb lo b && leb b hi

-- `==` on byte strings.
unfoldable pub bytes_eq : Bytes → Bytes → Bool
bytes_eq [] [] = true
bytes_eq (a ∷ s) (b ∷ t) = a == b && bytes_eq s t
bytes_eq _ _ = false

-- The ranges of the bytes that must follow a first byte, or `none` if it begins no character.
unfoldable pub lead : ℕ → Option (List (ℕ × ℕ))
lead b =
    if ltb b 0x80
    then some []
    else if between 0xc2 0xdf b
    then some ((0x80, 0xbf) ∷ [])
    else if b == 0xe0
    then some ((0xa0, 0xbf) ∷ (0x80, 0xbf) ∷ [])
    else if b == 0xed
    then some ((0x80, 0x9f) ∷ (0x80, 0xbf) ∷ [])
    else if between 0xe1 0xef b
    then some ((0x80, 0xbf) ∷ (0x80, 0xbf) ∷ [])
    else if b == 0xf0
    then some ((0x90, 0xbf) ∷ (0x80, 0xbf) ∷ (0x80, 0xbf) ∷ [])
    else if between 0xf1 0xf3 b
    then some ((0x80, 0xbf) ∷ (0x80, 0xbf) ∷ (0x80, 0xbf) ∷ [])
    else if b == 0xf4
    then some ((0x80, 0x8f) ∷ (0x80, 0xbf) ∷ (0x80, 0xbf) ∷ [])
    else none

utf8_from : List (ℕ × ℕ) → Bytes → Bool
utf8_from [] [] = true
utf8_from (r ∷ rs) [] = false
utf8_from ((lo, hi) ∷ rs) (b ∷ s) = between lo hi b && utf8_from rs s
utf8_from [] (b ∷ s) = elim (lead b) [ none ↦ false | some rs ↦ utf8_from rs s ]

-- `std::str::from_utf8(..).is_ok()`.
unfoldable pub is_utf8 : Bytes → Bool
unfolding utf8_from lead
is_utf8 s = utf8_from [] s

abbrev byte_at : Bytes → ℕ → ℕ
byte_at [] i = 0
byte_at (b ∷ s) zero = b
byte_at (b ∷ s) (suc i) = byte_at s i

-- The bytes of a leading `White_Space` character; 0 if the first character is none.
unfoldable pub space_width : Bytes → ℕ
space_width s =
    let a = byte_at s 0 in
    let b = byte_at s 1 in
    let c = byte_at s 2 in
    if between 0x09 0x0d a || a == 0x20
    then 1
    else if a == 0xc2 && (b == 0x85 || b == 0xa0)
    then 2
    else if (a == 0xe1 && b == 0x9a && c == 0x80)
        || (a == 0xe2 && b == 0x80 && (between 0x80 0x8a c || c == 0xa8 || c == 0xa9 || c == 0xaf))
        || (a == 0xe2 && b == 0x81 && c == 0x9f)
        || (a == 0xe3 && b == 0x80 && c == 0x80)
    then 3
    else 0

-- Skips the rest of a space, then every further one.
trim_from : ℕ → Bytes → Bytes
trim_from k [] = []
trim_from (suc k) (b ∷ s) = trim_from k s
trim_from zero (b ∷ s) = elim (space_width (b ∷ s)) [ zero ↦ b ∷ s | suc k ↦ trim_from k s ]

-- `str::trim_start`.
unfoldable pub trim_start : Bytes → Bytes
unfolding trim_from space_width
trim_start s = trim_from 0 s

unfoldable pub strip_prefix : Bytes → Bytes → Option Bytes
strip_prefix [] s = some s
strip_prefix (p ∷ ps) [] = none
strip_prefix (p ∷ ps) (b ∷ s) = if p == b then strip_prefix ps s else none

-- `strip_suffix(&[last]).unwrap_or(..)`, for one byte.
unfoldable pub strip_last : ℕ → Bytes → Bytes
strip_last last [] = []
strip_last last (b ∷ []) = if b == last then [] else b ∷ []
strip_last last (b ∷ c ∷ s) = b ∷ strip_last last (c ∷ s)

-- `str::is_char_boundary`, on valid UTF-8.
unfoldable pub is_char_boundary : Bytes → ℕ → Bool
is_char_boundary s zero = true
is_char_boundary [] (suc i) = false
is_char_boundary (b ∷ []) (suc zero) = true
is_char_boundary (b ∷ c ∷ s) (suc zero) = not (between 0x80 0xbf c)
is_char_boundary (b ∷ s) (suc (suc i)) = is_char_boundary s (suc i)

abbrev pub push_byte : ℕ → List Bytes → List Bytes
push_byte b [] = (b ∷ []) ∷ []
push_byte b (line ∷ lines) = (b ∷ line) ∷ lines

-- `split_inclusive('\n')`.
unfoldable pub split_inclusive : Bytes → List Bytes
split_inclusive [] = []
split_inclusive (b ∷ s) =
    let rest = split_inclusive s in if b == 10 then (b ∷ []) ∷ rest else push_byte b rest

pub bytes_eq_iff : (s t : Bytes) → (bytes_eq s t ≡ true) ↔ (s ≡ t)
unfolding bytes_eq
bytes_eq_iff [] [] = ground arith
bytes_eq_iff [] (b ∷ t) = ground arith
bytes_eq_iff (a ∷ s) [] = ground arith
bytes_eq_iff (a ∷ s) (b ∷ t) =
    let ih = bytes_eq_iff s t in let e = ==_iff a b in ground (arith, ih, e)

pub is_char_boundary-zero : (t : Bytes) → is_char_boundary t zero ≡ true
unfolding is_char_boundary
is_char_boundary-zero [] = refl
is_char_boundary-zero (b ∷ []) = refl
is_char_boundary-zero (b ∷ c ∷ s) = refl
