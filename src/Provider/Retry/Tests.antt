-- ===== src/Provider/Retry/Tests.antt =====
-- Instances of the theorems on retries.
use kraai.Base.{ℕ, zero, suc, ◌*◌, ◌/◌, ◌≡◌, refl, true, [], ◌∷◌, none, some, arith}
use kraai.Base.Utf8.{Bytes, trim_start}
use kraai.Base.Decimal.{parse_unsigned}
use kraai.Provider.Retry.Policy.{
  default_http_retry_policy, second, backoff_for_retry, Response, parse_retry_after, is_visible,
  trim, is_retryable_status, retry_fits_budget, jittered_backoff_for_retry, cooldown_remaining,
  defer,
}
use kraai.Provider.Retry.Send.{
  response, Attempt, before_attempt, on_retry_scheduled, instant_overflow, Setting, max_attempts,
  send_with_retry,
}
use kraai.Provider.Retry.Attempts.{IsSound, send_with_retry-IsSound}
use kraai.Provider.Retry.Delays.{Delays, send_with_retry-Delays}
use kraai.Provider.Retry.Backoff.{huge_retry_after_panics}

-- A cooldown is shared; the random factor is a per cent, and no date is read.
abbrev shared : Setting
shared = record {
  policy = record default_http_retry_policy { max_attempts = 3 };
  has_cooldown = true;
  context_max_attempts = none;
  instant_max = 9_223_372_036_854_775_807 * second;
  apply_jitter = λ delay percent. delay * percent / 100;
  http_date = λ raw. none;
}

abbrev overloaded : Bytes → Response
overloaded header = record { status = 503; retry_after_header = some header }

abbrev replies : Response → Attempt
replies r = record {
  others = none;
  cooldown_overrun = 0;
  permitted = true;
  duration = second;
  reply = response r;
  percent = 100;
  system_now = 0;
  delay_overrun = 0;
}

-- 503 with `Retry-After: 2`, then 200.
abbrev recovers : ℕ → Attempt
recovers zero = replies (overloaded [])
recovers (suc zero) = replies (overloaded (b'2' ∷ []))
recovers (suc (suc n)) = replies (record { status = 200; retry_after_header = none })

waits_as_asked :
    (send_with_retry shared recovers none).calls
    ≡ before_attempt 0 ∷ on_retry_scheduled 1 second (2 * second) ∷ before_attempt 1 ∷ []
unfolding send_with_retry max_attempts parse_retry_after parse_unsigned trim trim_start is_visible
    is_retryable_status retry_fits_budget jittered_backoff_for_retry backoff_for_retry
    cooldown_remaining defer
waits_as_asked = refl

send_with_retry-IsSound_example :
    IsSound shared (max_attempts shared) 0 (send_with_retry shared recovers none)
send_with_retry-IsSound_example =
    send_with_retry-IsSound shared recovers none (unfold max_attempts in omega arith)

send_with_retry-Delays_example :
    Delays shared recovers 1 (send_with_retry shared recovers none).calls
send_with_retry-Delays_example =
    send_with_retry-Delays shared recovers (omega arith) (unfold max_attempts in omega arith) none

-- `Retry-After: 18446744073709551615`.
abbrev far_away : Bytes
far_away =
    b'1' ∷ b'8' ∷ b'4' ∷ b'4' ∷ b'6' ∷ b'7' ∷ b'4' ∷ b'4' ∷ b'0' ∷ b'7' ∷ b'3' ∷ b'7' ∷ b'0' ∷ b'9'
    ∷ b'5' ∷ b'5' ∷ b'1' ∷ b'6' ∷ b'1' ∷ b'5' ∷ []

far_away_parses :
    parse_retry_after (λ raw. none) 0 (overloaded far_away)
    ≡ some (18_446_744_073_709_551_615 * second)
unfolding parse_retry_after parse_unsigned trim trim_start is_visible
far_away_parses = refl

huge_retry_after_panics_example :
    (send_with_retry shared (λ n. replies (overloaded far_away)) none).outcome ≡ instant_overflow
huge_retry_after_panics_example =
    huge_retry_after_panics shared (λ n. replies (overloaded far_away)) (overloaded far_away)
      (18_446_744_073_709_551_615 * second) refl (unfold max_attempts in omega arith) refl refl refl
      refl far_away_parses (omega arith)
