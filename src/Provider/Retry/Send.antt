-- ===== src/Provider/Retry/Send.antt =====
-- `send_with_retry` of http_retry.rs. What the outside decides in an attempt is a record; the
-- function returns the calls that it makes to the observer and its result.
use kraai.Base.{
  ℕ, zero, suc, ◌+◌, Bool, not, ◌&&◌, ◌||◌, List, [], ◌∷◌, Option, none, some, if◌then◌else◌, leb,
  ◌==◌, min, max, u32_max,
}
use kraai.Base.Utf8.{Bytes}
use kraai.Provider.Retry.Policy.{
  HttpRetryPolicy, jittered_backoff_for_retry, cooldown_remaining, defer, retry_fits_budget,
  is_server_error, is_retryable_status, TransportError, is_retryable_error, Response,
  parse_retry_after,
}

pub data Reply : Type 0 where
  response : Response → Reply
  transport_error : TransportError → Reply

-- One attempt: the deadline to which other requests deferred the shared cooldown meanwhile, how
-- much longer than asked each sleep takes, whether the observer lets the attempt pass, how long the
-- request takes and how it ends, the random percentage, and the system time of the reply.
pub record Attempt : Type 0 where
  pub others : Option ℕ
  pub cooldown_overrun : ℕ
  pub permitted : Bool
  pub duration : ℕ
  pub reply : Reply
  pub percent : ℕ
  pub system_now : ℕ
  pub delay_overrun : ℕ

pub data Call : Type 0 where
  before_attempt : ℕ → Call  -- with the unpriced prior attempts
  on_retry_scheduled : ℕ → ℕ → ℕ → Call  -- retry number, time since the start, delay

pub data Outcome : Type 0 where
  responded : Response → Outcome
  rate_limited : ℕ → Outcome
  refused : Outcome
  failed : TransportError → Outcome
  instant_overflow : Outcome  -- a panic in `defer`
  unreachable : Outcome  -- the panic behind the loop

pub record Run : Type 0 where
  pub calls : List Call
  pub outcome : Outcome

abbrev pub stop : Outcome → Run
stop o = record { calls = []; outcome = o }

abbrev pub call : Call → Run → Run
call c r = record { calls = c ∷ r.calls; outcome = r.outcome }

-- What the function is given: the policy and the context's parts, and code outside the crate.
pub record Setting : Type 0 where
  pub policy : HttpRetryPolicy
  pub has_cooldown : Bool
  pub context_max_attempts : Option ℕ
  pub instant_max : ℕ
  pub apply_jitter : ℕ → ℕ → ℕ
  pub http_date : Bytes → Option ℕ

-- The variables of the loop: the time since the start, the shared cooldown's deadline on the same
-- clock, and the attempts without a price.
pub record LoopState : Type 0 where
  pub elapsed : ℕ
  pub until : Option ℕ
  pub unpriced : ℕ

unfoldable pub max_attempts : Setting → ℕ
max_attempts g =
    min (max g.policy.max_attempts 1) (elim g.context_max_attempts [ none ↦ u32_max | some m ↦ m ])

abbrev pub later : Option ℕ → Option ℕ → Option ℕ
later none b = b
later (some a) none = some a
later (some a) (some b) = some (max a b)

abbrev pub defers_cooldown : ℕ → Bool
defers_cooldown status = status == 429 || status == 503

abbrev pub counts_unpriced : ℕ → Bool
counts_unpriced status = is_server_error status || status == 408

-- The wait before the next attempt is scheduled, if it fits the budget.
unfoldable pub schedule :
    Setting → Attempt → ℕ → ℕ → Outcome → Bool → LoopState → (LoopState → Run) → Run
schedule g a number delay give_up no_price s next =
    let s' = record s {
      elapsed = s.elapsed + delay + a.delay_overrun;
      unpriced = if no_price then s.unpriced + 1 else s.unpriced;
    } in
    if retry_fits_budget g.policy s.elapsed delay
    then call (on_retry_scheduled number s.elapsed delay) (next s')
    else stop give_up

abbrev pub delay_for : Setting → Attempt → ℕ → Option ℕ → ℕ
delay_for g a number retry_after =
    let backoff = jittered_backoff_for_retry g.apply_jitter g.policy a.percent number in
    elim retry_after [ none ↦ backoff | some d ↦ max d backoff ]

-- After a response whose `Retry-After` has been parsed and has deferred the cooldown.
unfoldable pub after_response :
    Setting → Attempt → ℕ → Response → Option ℕ → LoopState → (LoopState → Run) → Run
unfolding schedule
after_response g a number r retry_after s next =
    if not (is_retryable_status r.status) || leb (max_attempts g) number
    then stop (responded r)
    else schedule g a number (delay_for g a number retry_after) (responded r)
        (counts_unpriced r.status) s next

-- `none` where `defer` panics.
unfoldable pub defer_for : Setting → Response → Option ℕ → LoopState → Option (Option ℕ)
defer_for g r none s = some s.until
defer_for g r (some d) s =
    if g.has_cooldown && defers_cooldown r.status
    then defer g.instant_max s.until s.elapsed d
    else some s.until

unfoldable pub on_reply : Setting → Attempt → ℕ → Reply → LoopState → (LoopState → Run) → Run
unfolding after_response defer_for schedule
on_reply g a number (response r) s next =
    let retry_after = parse_retry_after g.http_date a.system_now r in
    elim (defer_for g r retry_after s) [
      | none ↦ stop instant_overflow
      | some until ↦ after_response g a number r retry_after (record s { until = until }) next
    ]
on_reply g a number (transport_error e) s next =
    if not (is_retryable_error e) || leb (max_attempts g) number
    then stop (failed e)
    else schedule g a number (delay_for g a number none) (failed e) (not e.is_connect) s next

-- The observer's say, and the request.
unfoldable pub attempt : Setting → Attempt → ℕ → LoopState → (LoopState → Run) → Run
unfolding on_reply
attempt g a number s next = call (before_attempt s.unpriced) (
    if a.permitted
    then on_reply g a number a.reply (record s { elapsed = s.elapsed + a.duration }) next
    else stop refused)

-- One round of the loop: the cooldown first.
unfoldable pub round : Setting → Attempt → ℕ → LoopState → (LoopState → Run) → Run
unfolding attempt
round g a number s next =
    let until = later s.until a.others in
    let remaining = cooldown_remaining until s.elapsed in
    let rested = record s { elapsed = s.elapsed + remaining + a.cooldown_overrun; until = until } in
    if g.has_cooldown
    then (if retry_fits_budget g.policy s.elapsed remaining
        then attempt g a number rested next
        else stop (rate_limited remaining))
    else attempt g a number s next

-- The loop, with `left` attempts to go from `number` on. Behind it stands `unreachable!`.
unfoldable pub loop : Setting → (ℕ → Attempt) → ℕ → ℕ → LoopState → Run
unfolding round
loop g world zero number s = stop unreachable
loop g world (suc left) number s = round g (world number) number s (loop g world left (number + 1))

unfoldable pub send_with_retry : Setting → (ℕ → Attempt) → Option ℕ → Run
unfolding loop
send_with_retry g world until =
    loop g world (max_attempts g) 1 (record { elapsed = 0; until = until; unpriced = 0 })
