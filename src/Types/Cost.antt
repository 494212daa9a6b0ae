-- ===== src/Types/Cost.antt =====
-- crates/kraai-types/src/cost.rs: what a request costs, and the running summary of a session.
-- Amounts are nanodollars (`Usd(u64)`), prices nanodollars for a million tokens.
pub mod Estimate
pub mod Summary
mod Tests
use kraai.Base.{
  ℕ, ◌+◌, ◌*◌, ◌/◌, ◌%◌, Bool, true, false, not, ◌&&◌, ◌||◌, List, [], ◌∷◌, ◌++◌, Option, none,
  some, String, if◌then◌else◌, leb, ltb, ◌==◌, u64_max, u128_max, usize_max, sat_add, checked_add,
  checked_mul,
}
use kraai.Base.Utf8.{Bytes}
use kraai.Base.Decimal.{decimal, decimal_four}

abbrev pub Usd : Type 0
Usd = ℕ

-- `Display for Usd`.
unfoldable pub show_usd : Usd → Bytes
show_usd n =
    if ltb 0 n && ltb n 100_000
    then b'<' ∷ b'$' ∷ b'0' ∷ b'.' ∷ b'0' ∷ b'0' ∷ b'0' ∷ b'1' ∷ []
    else let units = (n + 50_000) / 100_000 in
      b'$' ∷ (decimal (units / 10_000) ++ (b'.' ∷ decimal_four (units % 10_000)))

pub record TokenRates : Type 0 where
  pub input : Usd
  pub output : Usd
  pub cache_read : Option Usd
  pub cache_write : Option Usd
  pub reasoning : Option Usd

pub record RequestCost : Type 0 where
  pub amount : Usd
  pub source : String
  pub rates : Option TokenRates
  pub priced_at : ℕ  -- u64
  pub upstream : Option Usd

-- `TokenUsage` of conversation.rs.
pub record TokenUsage : Type 0 where
  pub total_tokens : ℕ
  pub input_tokens : ℕ
  pub output_tokens : ℕ
  pub reasoning_tokens : ℕ
  pub cache_read_tokens : ℕ
  pub cache_write_tokens : ℕ
  pub cost : Option RequestCost

pub record RequestUsage : Type 0 where
  pub message_id : String
  pub provider_id : String
  pub model_id : String
  pub started_at : ℕ  -- u64
  pub subscription : Bool
  pub unpriced_attempts : ℕ  -- u32
  pub usage : Option TokenUsage

infixl 5 ◌>>=◌
abbrev pub ◌>>=◌ {ℓ κ} : {A : Type ℓ} {B : Type κ} → Option A → (A → Option B) → Option B
none >>= f = none
some a >>= f = f a

-- One round of the loop over the categories.
unfoldable pub charge : ℕ → Option Usd → ℕ → Option ℕ
charge tokens rate total =
    if tokens == 0
    then some total
    else do r ← rate; product ← checked_mul u128_max tokens r; checked_add u128_max total product

abbrev pub reasoning_rate : TokenRates → Usd
reasoning_rate r = elim r.reasoning [ none ↦ r.output | some rate ↦ rate ]

unfoldable pub charge_all : List (ℕ × Option Usd) → ℕ → Option ℕ
unfolding charge
charge_all [] total = some total
charge_all ((tokens, rate) ∷ rest) total = charge tokens rate total >>= charge_all rest

abbrev pub categories : TokenRates → TokenUsage → List (ℕ × Option Usd)
categories r u =
    (u.input_tokens, some r.input)
    ∷ (u.output_tokens, some r.output)
    ∷ (u.reasoning_tokens, some (reasoning_rate r))
    ∷ (u.cache_read_tokens, r.cache_read)
    ∷ (u.cache_write_tokens, r.cache_write)
    ∷ []

-- `TokenRates::estimate`.
unfoldable pub estimate : TokenRates → TokenUsage → Option Usd
unfolding charge_all
estimate r u = do
  total ← charge_all (categories r u) 0
  rounded ← checked_add u128_max total 500_000
  let amount = rounded / 1_000_000
  if leb amount u64_max then some amount else none

pub record CostSummary : Type 0 where
  pub amount : Usd
  pub upstream : Usd
  pub estimated : Bool
  pub unknown : ℕ
  pub subscriptions : ℕ
  pub reported : ℕ
  pub overflow : Bool

unfoldable pub empty_summary : CostSummary
empty_summary = record {
  amount = 0;
  upstream = 0;
  estimated = false;
  unknown = 0;
  subscriptions = 0;
  reported = 0;
  overflow = false;
}

abbrev pub is_some {ℓ} : {A : Type ℓ} → Option A → Bool
is_some none = false
is_some (some a) = true

-- `self.amount.0.checked_add(..)`, and `overflow` if it fails; likewise for `upstream`.
unfoldable pub add_amount : Usd → CostSummary → CostSummary
add_amount a s = elim (checked_add u64_max s.amount a) [
  | some total ↦ record s { amount = total }
  | none ↦ record s { overflow = true }
]

unfoldable pub add_upstream : Option Usd → CostSummary → CostSummary
add_upstream none s = s
add_upstream (some a) s = elim (checked_add u64_max s.upstream a) [
  | some total ↦ record s { upstream = total }
  | none ↦ record s { overflow = true }
]

abbrev pub cost_of : RequestUsage → Option RequestCost
cost_of r = r.usage >>= λ u. u.cost

unfoldable pub add_cost : Bool → Option RequestCost → CostSummary → CostSummary
unfolding add_amount add_upstream
add_cost subscription none s = record s { unknown = sat_add usize_max s.unknown 1 }
add_cost subscription (some cost) s =
    let s' = record s {
      reported = sat_add usize_max s.reported 1;
      estimated = s.estimated || (subscription || is_some cost.rates);
    } in
    add_upstream cost.upstream (add_amount cost.amount s')

-- `CostSummary::add`.
unfoldable pub add : CostSummary → RequestUsage → CostSummary
unfolding add_cost
add s r =
    let s' = record s {
      subscriptions =
          if r.subscription then sat_add usize_max s.subscriptions 1 else s.subscriptions;
      unknown = sat_add usize_max s.unknown r.unpriced_attempts;
    } in
    add_cost r.subscription (cost_of r) s'

abbrev pub text_overflow : Bytes
text_overflow =
    b'c' ∷ b'o' ∷ b's' ∷ b't' ∷ 32 ∷ b'o' ∷ b'v' ∷ b'e' ∷ b'r' ∷ b'f' ∷ b'l' ∷ b'o' ∷ b'w' ∷ []

abbrev pub text_unknown : Bytes
text_unknown = b'$' ∷ b'u' ∷ b'n' ∷ b'k' ∷ b'n' ∷ b'o' ∷ b'w' ∷ b'n' ∷ []

abbrev pub text_plus : Bytes
text_plus = 32 ∷ b'+' ∷ 32 ∷ []

abbrev pub text_upstream : Bytes
text_upstream = 32 ∷ b'u' ∷ b'p' ∷ b's' ∷ b't' ∷ b'r' ∷ b'e' ∷ b'a' ∷ b'm' ∷ []

-- `Display for CostSummary`.
unfoldable pub show_summary : CostSummary → Bytes
unfolding show_usd
show_summary s =
    let show_amount = not (s.reported == 0) || s.unknown == 0 in
    let mark : Bytes = if s.estimated then b'~' ∷ [] else [] in
    let first : Bytes = if show_amount then mark ++ show_usd s.amount else [] in
    let second : Bytes =
      if s.unknown == 0 then [] else (if show_amount then text_plus else []) ++ text_unknown in
    let third : Bytes =
      if s.upstream == 0
      then []
      else text_plus ++ (b'~' ∷ (show_usd s.upstream ++ text_upstream)) in
    if s.overflow then text_overflow else first ++ (second ++ third)
