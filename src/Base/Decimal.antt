-- ===== src/Base/Decimal.antt =====
-- Decimal numerals as Rust's formatting writes them.
use kraai.Base.Bools.{ltb, leb, ◌==◌, if◌then◌else◌}
use kraai.Base.Utf8.{Bytes}
use kraai.Base.Lists.{all, all-append, length}
use Prim.Native.Nat.{ℕ, zero, suc, ◌+◌, ◌-◌, ◌*◌, ◌/◌, ◌%◌, ◌<◌}
use mathlib.Core.Path.{◌≡◌, refl}
use mathlib.Core.Bool.{Bool, true, ◌&&◌}
use mathlib.Core.Option.{Option, none, some}
use mathlib.Core.List.{[], ◌∷◌, ◌++◌}
use native.Mathlib.Omega.{arith}

digits_from : ℕ → ℕ → Bytes
digits_from zero n = []
digits_from (suc f) n =
    let high = digits_from f (n / 10) in
    if ltb n 10 then (n + 48) ∷ [] else high ++ (n % 10 + 48) ∷ []

-- `{}` of an unsigned number; a number has at most as many digits as its successor says.
unfoldable pub decimal : ℕ → Bytes
unfolding digits_from
decimal n = digits_from (suc n) n

-- `{:04}` of a number below 10000.
unfoldable pub decimal_four : ℕ → Bytes
decimal_four n = (n / 1000 + 48) ∷ (n / 100 % 10 + 48) ∷ (n / 10 % 10 + 48) ∷ (n % 10 + 48) ∷ []

-- The number that a run of digits stands for.
abbrev pub value_from : ℕ → Bytes → ℕ
value_from acc [] = acc
value_from acc (d ∷ ds) = value_from (acc * 10 + (d - 48)) ds

value_from-append :
    (acc : ℕ) (s t : Bytes) → value_from acc (s ++ t) ≡ value_from (value_from acc s) t
value_from-append acc [] t = refl
value_from-append acc (d ∷ s) t = value_from-append (acc * 10 + (d - 48)) s t

value_digits_from : (f n : ℕ) → n < f → value_from 0 (digits_from f n) ≡ n
unfolding digits_from
value_digits_from zero n h = elim h [ ]
value_digits_from (suc f) n h = ground (
  arith,
  value_digits_from f (n / 10),
  value_from-append 0 (digits_from f (n / 10)) ((n % 10 + 48) ∷ []),
)

pub value-decimal : (n : ℕ) → value_from 0 (decimal n) ≡ n
unfolding decimal
value-decimal n = value_digits_from (suc n) n (omega arith)

pub value-decimal_four : (n : ℕ) → n < 10000 → value_from 0 (decimal_four n) ≡ n
unfolding decimal_four
value-decimal_four n h = omega arith

abbrev pub is_digit : ℕ → Bool
is_digit b = leb 48 b && leb b 57

digits_from-digits : (f n : ℕ) → all is_digit (digits_from f n) ≡ true
unfolding digits_from
digits_from-digits zero n = refl
digits_from-digits (suc f) n = ground (
  arith,
  digits_from-digits f (n / 10),
  all-append is_digit (digits_from f (n / 10)) ((n % 10 + 48) ∷ []),
)

pub decimal-digits : (n : ℕ) → all is_digit (decimal n) ≡ true
unfolding decimal
decimal-digits n = digits_from-digits (suc n) n

pub decimal_four-digits : (n : ℕ) → n < 10000 → all is_digit (decimal_four n) ≡ true
unfolding decimal_four
decimal_four-digits n h = ground arith

pub length-decimal_four : (n : ℕ) → length (decimal_four n) ≡ 4
unfolding decimal_four
length-decimal_four n = refl

-- `str::parse` into an unsigned type with the given greatest value: an optional plus sign, then one
-- or more digits.
parse_digits : ℕ → ℕ → Bytes → Option ℕ
parse_digits greatest acc [] = some acc
parse_digits greatest acc (d ∷ ds) =
    let next = acc * 10 + (d - 48) in
    let rest = parse_digits greatest next ds in
    if leb 48 d && leb d 57 && leb next greatest then rest else none

unfoldable pub parse_unsigned : ℕ → Bytes → Option ℕ
unfolding parse_digits
parse_unsigned greatest [] = none
parse_unsigned greatest (d ∷ []) = if d == b'+' then none else parse_digits greatest 0 (d ∷ [])
parse_unsigned greatest (d ∷ e ∷ ds) =
    parse_digits greatest 0 (if d == b'+' then e ∷ ds else d ∷ e ∷ ds)
