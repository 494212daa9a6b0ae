-- ===== src/Types/Cost/Tests.antt =====
-- Runs of cost.rs on the values of its own tests, and instances of the theorems.
use kraai.Base.{
  ◌+◌, ◌*◌, ◌/◌, ◌≤◌, ◌<◌, ◌≡◌, refl, ◌⊎◌, ◌↔◌, true, false, ◌&&◌, List, [], ◌∷◌, ◌++◌, none, some,
  any, all, length, min, if◌then◌else◌, leb, u64_max, usize_max,
}
use kraai.Base.Utf8.{Bytes}
use kraai.Base.Decimal.{decimal, decimal_four, value_from, is_digit}
use kraai.Types.Cost.{
  TokenRates, TokenUsage, RequestUsage, estimate, show_usd, show_summary, empty_summary, add,
}
use kraai.Types.Cost.Estimate.{exact_cost, cache_priced, estimate_exact, show_usd_rounds}
use kraai.Types.Cost.Summary.{
  summary, amounts, upstreams, unknowns, reports, subscribed, is_estimate, summary-amounts,
  summary_counts,
}

abbrev rates : TokenRates
rates = record {
  input = 2_000_000_000;
  output = 8_000_000_000;
  cache_read = some 500_000_000;
  cache_write = some 3_000_000_000;
  reasoning = none;
}

abbrev tokens : TokenUsage
tokens = record {
  total_tokens = 200;
  input_tokens = 100;
  output_tokens = 20;
  reasoning_tokens = 10;
  cache_read_tokens = 40;
  cache_write_tokens = 30;
  cost = none;
}

prices_each_category_once : estimate rates tokens ≡ some 550_000
unfolding estimate
prices_each_category_once = refl

missing_cache_rate : estimate (record rates { cache_write = none }) tokens ≡ none
unfolding estimate
missing_cache_rate = refl

shows_small_charge : show_usd 123_450_000 ≡ b'$' ∷ b'0' ∷ b'.' ∷ b'1' ∷ b'2' ∷ b'3' ∷ b'5' ∷ []
unfolding show_usd decimal decimal_four
shows_small_charge = refl

abbrev request : RequestUsage
request = record {
  message_id = "request";
  provider_id = "provider";
  model_id = "model";
  started_at = 0;
  subscription = true;
  unpriced_attempts = 2;
  usage = some (record tokens {
    cost = some (record {
      amount = 50_000_000;
      source = "provider";
      rates = none;
      priced_at = 0;
      upstream = some 40_000_000;
    });
  });
}

abbrev unpriced : RequestUsage
unpriced = record request { usage = none; subscription = false }

-- `~$0.0500 + $unknown + ~$0.0400 upstream`
shows_summary :
    show_summary (add (add empty_summary unpriced) request)
    ≡ b'~' ∷ b'$' ∷ b'0' ∷ b'.' ∷ b'0' ∷ b'5' ∷ b'0' ∷ b'0' ∷ 32 ∷ b'+' ∷ 32 ∷ b'$' ∷ b'u' ∷ b'n'
      ∷ b'k' ∷ b'n' ∷ b'o' ∷ b'w' ∷ b'n' ∷ 32 ∷ b'+' ∷ 32 ∷ b'~' ∷ b'$' ∷ b'0' ∷ b'.' ∷ b'0' ∷ b'4'
      ∷ b'0' ∷ b'0' ∷ 32 ∷ b'u' ∷ b'p' ∷ b's' ∷ b't' ∷ b'r' ∷ b'e' ∷ b'a' ∷ b'm' ∷ []
unfolding show_summary show_usd decimal decimal_four add empty_summary
shows_summary = refl

estimate_exact_example :
    let exact = (exact_cost rates tokens + 500_000) / 1_000_000 in
    estimate rates tokens
    ≡ (if cache_priced rates tokens && leb exact u64_max then some exact else none)
estimate_exact_example = estimate_exact rates tokens

show_usd_rounds_example :
    (whole frac : Bytes) × (show_usd 123_450_000 ≡ b'$' ∷ (whole ++ (b'.' ∷ frac)))
    × (all is_digit whole ≡ true)
    × (all is_digit frac ≡ true)
    × (length frac ≡ 4)
    × (123_450_000 < (value_from 0 whole * 10_000 + value_from 0 frac) * 100_000 + 50_000)
    × ((value_from 0 whole * 10_000 + value_from 0 frac) * 100_000 ≤ 123_450_000 + 50_000)
show_usd_rounds_example = show_usd_rounds 123_450_000 refl

abbrev both : List RequestUsage
both = unpriced ∷ request ∷ []

summary-amounts_example :
    (((summary both).overflow ≡ true) ↔ ((u64_max < amounts both) ⊎ (u64_max < upstreams both)))
    × ((summary both).overflow ≡ false
        → ((summary both).amount ≡ amounts both) × ((summary both).upstream ≡ upstreams both))
summary-amounts_example = summary-amounts both

summary_counts_example :
    ((summary both).unknown ≡ min usize_max (unknowns both))
    × ((summary both).reported ≡ min usize_max (reports both))
    × ((summary both).subscriptions ≡ min usize_max (subscribed both))
    × ((summary both).estimated ≡ any is_estimate both)
summary_counts_example = summary_counts both
