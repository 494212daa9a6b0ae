-- ===== src/Provider/Retry/Policy.antt =====
-- The pure parts of http_retry.rs: the backoff, the budget, the cooldown, and what is retried.
-- Durations and instants count nanoseconds.
use kraai.Base.{
  ℕ, ◌+◌, ◌-◌, ◌*◌, ◌^◌, Bool, not, ◌&&◌, ◌||◌, Option, none, some, if◌then◌else◌, leb, ltb, ◌==◌,
  min, u32_max, u64_max, is_empty, all, reverse,
}
use kraai.Base.Utf8.{Bytes, trim_start}
use kraai.Base.Decimal.{parse_unsigned}

-- `Duration::MAX`.
abbrev pub duration_max : ℕ
duration_max = 18_446_744_073_709_551_615_999_999_999

abbrev pub second : ℕ
second = 1_000_000_000

pub record HttpRetryPolicy : Type 0 where
  pub max_attempts : ℕ
  pub initial_backoff : ℕ
  pub max_delay : ℕ
  pub max_elapsed : ℕ

abbrev pub default_http_retry_policy : HttpRetryPolicy
default_http_retry_policy = record {
  max_attempts = 10;
  initial_backoff = 1 * second;
  max_delay = 15 * second;
  max_elapsed = 300 * second;
}

unfoldable pub backoff_multiplier : ℕ → ℕ
backoff_multiplier retry_number =
    let exponent = retry_number - 1 in if leb 31 exponent then u32_max else 2 ^ exponent

-- `checked_mul(..).unwrap_or(Duration::MAX).min(max_delay)`.
unfoldable pub backoff_for_retry : HttpRetryPolicy → ℕ → ℕ
unfolding backoff_multiplier
backoff_for_retry policy retry_number =
    let product = policy.initial_backoff * backoff_multiplier retry_number in
    min (if leb product duration_max then product else duration_max) policy.max_delay

-- `apply_jitter` multiplies by a floating-point factor of `percent`; the model leaves it open, and
-- leaves out that the product panics where it is no `Duration`.
unfoldable pub jittered_backoff_for_retry : (ℕ → ℕ → ℕ) → HttpRetryPolicy → ℕ → ℕ → ℕ
jittered_backoff_for_retry apply_jitter policy percent retry_number =
    min (apply_jitter (backoff_for_retry policy retry_number) percent) policy.max_delay

-- `ProviderCooldown`, the deadline behind its lock, and the time that remains until it.
unfoldable pub cooldown_remaining : Option ℕ → ℕ → ℕ
cooldown_remaining none now = 0
cooldown_remaining (some until) now = until - now

-- `defer`: `none` where the addition of the instant and the delay panics.
unfoldable pub defer : ℕ → Option ℕ → ℕ → ℕ → Option (Option ℕ)
defer instant_max current now delay =
    let until = now + delay in
    let kept : Option ℕ = elim current [
      | none ↦ some until
      | some c ↦ if ltb c until then some until else some c
    ] in
    if leb until instant_max then some kept else none

-- `retry_fits_budget`, at the time since the start.
unfoldable pub retry_fits_budget : HttpRetryPolicy → ℕ → ℕ → Bool
retry_fits_budget policy elapsed delay =
    leb (elapsed + delay) duration_max && leb (elapsed + delay) policy.max_elapsed

unfoldable pub is_server_error : ℕ → Bool
is_server_error status = leb 500 status && ltb status 600

unfoldable pub is_retryable_status : ℕ → Bool
unfolding is_server_error
is_retryable_status status =
    (status == 408 || (status == 409 || status == 429)) || is_server_error status

-- What `reqwest::Error` tells of itself.
pub record TransportError : Type 0 where
  pub is_timeout : Bool
  pub is_connect : Bool
  pub is_request : Bool
  pub has_status : Bool
  pub is_body : Bool
  pub is_decode : Bool
  pub is_builder : Bool
  pub is_redirect : Bool

unfoldable pub is_retryable_error : TransportError → Bool
is_retryable_error e =
    e.is_timeout
    || (e.is_connect
        || (e.is_request
            && (not e.has_status
                && (not e.is_body
                    && (not e.is_decode && (not e.is_builder && not e.is_redirect))))))

pub record Response : Type 0 where
  pub status : ℕ
  pub retry_after_header : Option Bytes

-- `HeaderValue::to_str`: visible ASCII and tabs.
unfoldable pub is_visible : Bytes → Bool
is_visible = all (λ b. (leb 32 b && ltb b 127) || b == 9)

unfoldable pub trim : Bytes → Bytes
trim s = reverse (trim_start (reverse (trim_start s)))

-- `parse_retry_after`. `http_date` is the parser of the `httpdate` crate, to the system time.
unfoldable pub parse_retry_after : (Bytes → Option ℕ) → ℕ → Response → Option ℕ
parse_retry_after http_date system_now response = elim response.retry_after_header [
  | none ↦ none
  | some header ↦
      let raw = trim header in
      let date : Option ℕ = elim (http_date raw) [ none ↦ none | some t ↦ some (t - system_now) ] in
      let seconds : Option ℕ = elim (parse_unsigned u64_max raw) [
        | none ↦ date
        | some s ↦ some (s * second)
      ] in
      if not (is_visible header) || is_empty raw then none else seconds
]
