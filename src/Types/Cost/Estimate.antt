-- ===== src/Types/Cost/Estimate.antt =====
-- `TokenRates::estimate` against exact arithmetic, and the rounding of a displayed amount.
use kraai.Base.{
  ℕ, zero, suc, ◌+◌, ◌*◌, ◌/◌, ◌%◌, ◌≤◌, ◌<◌, ◌≡◌, refl, Bool, true, false, ◌&&◌, ◌||◌, List, [],
  ◌∷◌, ◌++◌, Option, none, some, if◌then◌else◌, leb, ltb, ◌==◌, u64_max, u128_max, all, length,
  arith,
}
use kraai.Base.Utf8.{Bytes}
use kraai.Base.Decimal.{
  decimal, decimal_four, value_from, value-decimal, value-decimal_four, is_digit, decimal-digits,
  decimal_four-digits, length-decimal_four,
}
use kraai.Types.Cost.{
  Usd, TokenRates, TokenUsage, charge, charge_all, categories, estimate, is_some, show_usd, ◌>>=◌,
}

-- Whether tokens that may have no rate are priced, and what they cost, with no bound on the size of
-- numbers.
abbrev pub is_priced : ℕ → Option Usd → Bool
is_priced tokens rate = tokens == 0 || is_some rate

abbrev pub due : ℕ → Option Usd → ℕ
due tokens none = 0
due tokens (some rate) = tokens * rate

-- The tokens that were read from a cache and written to it have a rate, if there are any.
abbrev pub cache_priced : TokenRates → TokenUsage → Bool
cache_priced r u =
    is_priced u.cache_read_tokens r.cache_read && is_priced u.cache_write_tokens r.cache_write

-- Reasoning costs what output costs, where it has no rate of its own.
abbrev pub reasoning_due : ℕ → Usd → Option Usd → ℕ
reasoning_due tokens output none = tokens * output
reasoning_due tokens output (some rate) = tokens * rate

-- A million times the cost of a request: tokens times rates, with no bound on the size of numbers.
abbrev pub exact_cost : TokenRates → TokenUsage → ℕ
exact_cost r u =
    u.input_tokens * r.input
    + u.output_tokens * r.output
    + reasoning_due u.reasoning_tokens r.output r.reasoning
    + due u.cache_read_tokens r.cache_read
    + due u.cache_write_tokens r.cache_write

abbrev priced : List (ℕ × Option Usd) → Bool
priced [] = true
priced ((tokens, rate) ∷ rest) = is_priced tokens rate && priced rest

abbrev exact_total : List (ℕ × Option Usd) → ℕ
exact_total [] = 0
exact_total ((tokens, rate) ∷ rest) = due tokens rate + exact_total rest

charge_lem :
    (tokens : ℕ) (rate : Option Usd) (total : ℕ)
    → total ≤ u128_max
    → charge tokens rate total ≡ (
        if tokens == 0 || is_some rate
        then (if leb (total + due tokens rate) u128_max
            then some (total + due tokens rate)
            else none)
        else none)
unfolding charge
charge_lem zero none total h = ground arith
charge_lem zero (some rate) total h = grind arith
charge_lem (suc n) none total h = ground arith
charge_lem (suc n) (some rate) total h = ground arith

charge_all_lem :
    (cs : List (ℕ × Option Usd)) (total : ℕ)
    → total ≤ u128_max
    → charge_all cs total ≡ (
        if priced cs
        then (if leb (total + exact_total cs) u128_max then some (total + exact_total cs) else none)
        else none)
unfolding charge_all
charge_all_lem [] total h = ground arith
charge_all_lem ((tokens, rate) ∷ rest) total h =
    rw (charge_lem tokens rate total h)
      (ground (arith, charge_all_lem rest (total + due tokens rate)))

priced-categories : (r : TokenRates) (u : TokenUsage) → priced (categories r u) ≡ cache_priced r u
priced-categories r u = ground arith

exact_total-categories :
    (r : TokenRates) (u : TokenUsage) → exact_total (categories r u) ≡ exact_cost r u
exact_total-categories r u = go r.reasoning refl
  where
    go :
        (reasoning : Option Usd)
        → r.reasoning ≡ reasoning
        → exact_total (categories r u) ≡ exact_cost r u
    go none e = rw e (omega arith)
    go (some rate) e = rw e (omega arith)

-- The estimate is the sum of the tokens of each kind times the rate of this kind, rounded to a
-- nanodollar, if the tokens read from and written to a cache have rates where there are any, and
-- the result is a `u64`; else there is no estimate. Reasoning tokens without a rate of their own
-- have that of the output. No bound of the intermediate `u128` arithmetic changes that.
pub estimate_exact :
    (r : TokenRates) (u : TokenUsage)
    → let exact = (exact_cost r u + 500_000) / 1_000_000 in
      estimate r u ≡ (if cache_priced r u && leb exact u64_max then some exact else none)
unfolding estimate
estimate_exact r u = rounded (exact_cost r u) (cache_priced r u) (charge_all (categories r u) 0) (
    rw⁻¹ (exact_total-categories r u)
      (rw⁻¹ (priced-categories r u) (charge_all_lem (categories r u) 0 (omega arith))))
  where
    rounded :
        (total : ℕ) (ok : Bool) (charged : Option ℕ)
        → charged
          ≡ (if ok then (if leb (0 + total) u128_max then some (0 + total) else none) else none)
        → (do
          t ← charged
          s ← (if leb (t + 500_000) u128_max then some (t + 500_000) else none)
          if leb (s / 1_000_000) u64_max then some (s / 1_000_000) else none)
          ≡ (if ok && leb ((total + 500_000) / 1_000_000) u64_max
              then some ((total + 500_000) / 1_000_000)
              else none)
    rounded total true charged e = ground arith
    rounded total false charged e = ground arith

-- A displayed amount that is zero or at least a hundredth of a cent reads `$whole.frac`, of decimal
-- digits alone, four of them behind the point, and it stands for the amount to within half of the
-- last digit.
pub show_usd_rounds :
    (n : Usd)
    → ltb 0 n && ltb n 100_000 ≡ false
    → (whole frac : Bytes) × (show_usd n ≡ b'$' ∷ (whole ++ (b'.' ∷ frac)))
      × (all is_digit whole ≡ true)
      × (all is_digit frac ≡ true)
      × (length frac ≡ 4)
      × (n < (value_from 0 whole * 10_000 + value_from 0 frac) * 100_000 + 50_000)
      × ((value_from 0 whole * 10_000 + value_from 0 frac) * 100_000 ≤ n + 50_000)
unfolding show_usd
show_usd_rounds n h =
    let units : ℕ = (n + 50_000) / 100_000 in
    let whole = value-decimal (units / 10_000) in
    let frac = value-decimal_four (units % 10_000) (omega arith) in
    (
      decimal (units / 10_000),
      decimal_four (units % 10_000),
      rw h refl,
      decimal-digits (units / 10_000),
      decimal_four-digits (units % 10_000) (omega arith),
      length-decimal_four (units % 10_000),
      omega (arith, whole, frac),
      omega (arith, whole, frac),
    )
