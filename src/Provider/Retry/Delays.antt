-- ===== src/Provider/Retry/Delays.antt =====
-- How long `send_with_retry` of http_retry.rs waits between its attempts.
use kraai.Base.{
  ℕ, zero, suc, ◌+◌, ◌-◌, ◌*◌, ◌≤◌, ◌<◌, ◌≡◌, refl, ap, ◌∙◌, Bool, true, false, not, ◌||◌, List, [],
  ◌∷◌, Option, none, some, inl, inr, if◌then◌else◌, leb, min, max, Bool-cases, arith,
}
use kraai.Provider.Retry.Policy.{
  HttpRetryPolicy, backoff_for_retry, jittered_backoff_for_retry, retry_fits_budget,
  cooldown_remaining, is_retryable_status, is_retryable_error, Response, parse_retry_after,
  duration_max,
}
use kraai.Provider.Retry.Send.{
  Reply, response, transport_error, Attempt, Call, before_attempt, on_retry_scheduled, Outcome,
  responded, rate_limited, failed, Run, stop, Setting, LoopState, max_attempts, schedule, delay_for,
  counts_unpriced, after_response, defer_for, on_reply, attempt, round, loop, send_with_retry,
  later,
}
use kraai.Provider.Retry.Backoff.{backoff_doubles}

-- The initial backoff, doubled the given number of times, and never above the longest delay.
abbrev pub doubled : HttpRetryPolicy → ℕ → ℕ
doubled policy zero = min policy.initial_backoff policy.max_delay
doubled policy (suc n) = min (2 * doubled policy n) policy.max_delay

-- What a reply asks to wait.
abbrev pub asked : Setting → Attempt → Reply → Option ℕ
asked g a (response r) = parse_retry_after g.http_date a.system_now r
asked g a (transport_error e) = none

abbrev pub at_least : Option ℕ → ℕ → ℕ
at_least none n = n
at_least (some d) n = max d n

-- The wait behind the attempt `n`: the doubled backoff with its random jitter, not above the longest
-- delay, and not below what the reply asks.
abbrev pub wait : Setting → Attempt → ℕ → ℕ
wait g a n =
    at_least (asked g a a.reply)
      (min (g.apply_jitter (doubled g.policy (n - 1)) a.percent) g.policy.max_delay)

-- The retries are numbered from `n` on, and the delay of each is the wait behind its attempt.
abbrev pub Delays : Setting → (ℕ → Attempt) → ℕ → List Call → Type 0
Delays g world n [] = Unit
Delays g world n (before_attempt u ∷ cs) = Delays g world n cs
Delays g world n (on_retry_scheduled k t d ∷ cs) =
    (k ≡ n) × (d ≡ wait g (world n) n) × Delays g world (n + 1) cs

doubled-backoff :
    (policy : HttpRetryPolicy) (n : ℕ)
    → policy.max_delay ≤ duration_max
    → n < 31
    → backoff_for_retry policy (suc n) ≡ doubled policy n
doubled-backoff policy zero h k = (backoff_doubles policy 1 h (omega arith) (omega arith)).0
doubled-backoff policy (suc n) h k =
    let next : suc (suc n) ≡ suc n + 1 = omega arith in
    rw next (
      (backoff_doubles policy (suc n) h (omega arith) k).1
      ∙ ap (λ b. min (2 * b) policy.max_delay) (doubled-backoff policy n h (omega arith)))

module _ (g : Setting) (world : ℕ → Attempt) (capped : g.policy.max_delay ≤ duration_max)
    (few : max_attempts g ≤ 32) where
  delay_for-wait :
      (n : ℕ) (retry_after : Option ℕ)
      → suc n < max_attempts g
      → retry_after ≡ asked g (world (suc n)) (world (suc n)).reply
      → delay_for g (world (suc n)) (suc n) retry_after ≡ wait g (world (suc n)) (suc n)
  unfolding jittered_backoff_for_retry
  delay_for-wait n none h e =
      let one : suc n - 1 ≡ n = omega arith in
      rw (← e, one, doubled-backoff g.policy n capped (omega (arith, few, h))) refl
  delay_for-wait n (some d) h e =
      let one : suc n - 1 ≡ n = omega arith in
      rw (← e, one, doubled-backoff g.policy n capped (omega (arith, few, h))) refl

  module _ (n : ℕ) (next : LoopState → Run)
      (later_runs : suc n < max_attempts g
        → (s : LoopState) → Delays g world (suc n + 1) (next s).calls) where
    abbrev DelaysOf : Run → Type 0
    DelaysOf r = Delays g world (suc n) r.calls

    if-Delays : (b : Bool) (x y : Run) → DelaysOf x → DelaysOf y → DelaysOf (if b then x else y)
    if-Delays true x y p q = p
    if-Delays false x y p q = q

    schedule-Delays :
        (delay : ℕ) (o : Outcome) (no_price : Bool) (s : LoopState)
        → suc n < max_attempts g
        → delay ≡ wait g (world (suc n)) (suc n)
        → DelaysOf (schedule g (world (suc n)) (suc n) delay o no_price s next)
    unfolding schedule
    schedule-Delays delay o no_price s k e =
        elim (Bool-cases (retry_fits_budget g.policy s.elapsed delay)) [
          | inr late ↦ rw late tt
          | inl fits ↦ rw fits (refl, e, later_runs k _)
        ]

    after_response-Delays :
        (r : Response) (s : LoopState)
        → (world (suc n)).reply ≡ response r
        → DelaysOf (
            after_response g
              (world (suc n))
              (suc n)
              r
              (parse_retry_after g.http_date (world (suc n)).system_now r)
              s
              next)
    unfolding after_response
    after_response-Delays r s e =
        elim (Bool-cases (not (is_retryable_status r.status) || leb (max_attempts g) (suc n))) [
          | inl done ↦ rw done tt
          | inr more ↦
              let k : suc n < max_attempts g = ground (arith, more) in
              rw more (
                schedule-Delays _ (responded r) (counts_unpriced r.status) s k
                  (delay_for-wait n _ k (rw e refl)))
        ]

    on_reply-Delays :
        (reply : Reply) (s : LoopState)
        → (world (suc n)).reply ≡ reply
        → DelaysOf (on_reply g (world (suc n)) (suc n) reply s next)
    unfolding on_reply
    on_reply-Delays (response r) s e =
        go (defer_for g r (parse_retry_after g.http_date (world (suc n)).system_now r) s)
      where
        go :
            (d : Option (Option ℕ))
            → DelaysOf (elim d [
              | none ↦ stop Outcome.instant_overflow
              | some until ↦
                  after_response g
                    (world (suc n))
                    (suc n)
                    r
                    (parse_retry_after g.http_date (world (suc n)).system_now r)
                    (record s { until = until })
                    next
            ])
        go none = tt
        go (some until) = after_response-Delays r (record s { until = until }) e
    on_reply-Delays (transport_error x) s e =
        elim (Bool-cases (not (is_retryable_error x) || leb (max_attempts g) (suc n))) [
          | inl done ↦ rw done tt
          | inr more ↦
              let k : suc n < max_attempts g = ground (arith, more) in
              rw more (
                schedule-Delays _ (failed x) (not x.is_connect) s k
                  (delay_for-wait n none k (rw e refl)))
        ]

    attempt-Delays : (s : LoopState) → DelaysOf (attempt g (world (suc n)) (suc n) s next)
    unfolding attempt
    attempt-Delays s =
        if-Delays (world (suc n)).permitted _ _ (on_reply-Delays (world (suc n)).reply _ refl) tt

    round-Delays : (s : LoopState) → DelaysOf (round g (world (suc n)) (suc n) s next)
    unfolding round
    round-Delays s =
        let until = later s.until (world (suc n)).others in
        let remaining = cooldown_remaining until s.elapsed in
        let rested : LoopState = record s {
          elapsed = s.elapsed + remaining + (world (suc n)).cooldown_overrun;
          until = until;
        } in
        let attempted = attempt g (world (suc n)) (suc n) rested next in
        let fits = retry_fits_budget g.policy s.elapsed remaining in
        if-Delays g.has_cooldown _ _
          (if-Delays fits attempted (stop (rate_limited remaining)) (attempt-Delays rested) tt)
          (attempt-Delays s)

  loop-Delays :
      (left n : ℕ) (s : LoopState) → Delays g world (suc n) (loop g world left (suc n) s).calls
  unfolding loop
  loop-Delays zero n s = tt
  loop-Delays (suc left) n s =
      let next : suc n + 1 ≡ suc (suc n) = omega arith in
      round-Delays n (loop g world left (suc n + 1)) (λ k t. rw next (loop-Delays left (suc n) t)) s

  -- Where at most 32 attempts are allowed and the longest delay is a `Duration`, a request numbers its
  -- retries from one on, and the delay that it schedules for each is the initial backoff, doubled for
  -- each retry before and never above the longest delay, then with the random jitter of this attempt,
  -- again not above the longest delay, or what the response asks in `Retry-After`, if that is longer.
  pub send_with_retry-Delays :
      (until : Option ℕ) → Delays g world 1 (send_with_retry g world until).calls
  unfolding send_with_retry
  send_with_retry-Delays until = loop-Delays (max_attempts g) 0 _
