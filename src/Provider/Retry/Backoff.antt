-- ===== src/Provider/Retry/Backoff.antt =====
-- The delays between the attempts of http_retry.rs.
use kraai.Base.{
  ℕ, zero, suc, ◌+◌, ◌-◌, ◌*◌, ◌≤◌, ◌<◌, ◌≡◌, refl, ap, ◌∙◌, Bool, true, none, some, if◌then◌else◌,
  leb, min, arith,
}
use native.Mathlib.Nat.{pow-suc}
use kraai.Provider.Retry.Policy.{
  HttpRetryPolicy, backoff_multiplier, backoff_for_retry, defer, retry_fits_budget,
  cooldown_remaining, parse_retry_after, Response, duration_max,
}
use kraai.Provider.Retry.Send.{
  response, Attempt, Run, instant_overflow, Setting, LoopState, max_attempts, defer_for,
  defers_cooldown, on_reply, attempt, round, loop, send_with_retry, later,
}

multiplier_doubles :
    (n : ℕ) → 1 ≤ n → n < 31 → backoff_multiplier (n + 1) ≡ 2 * backoff_multiplier n
unfolding backoff_multiplier
multiplier_doubles zero h k = elim h [ ]
multiplier_doubles (suc n) h k =
    let e : suc n + 1 - 1 ≡ suc (suc n - 1) = omega arith in
    rw e (ground (arith, pow-suc 2 (suc n - 1)))

backoff_lem :
    (policy : HttpRetryPolicy) (n : ℕ)
    → policy.max_delay ≤ duration_max
    → backoff_for_retry policy n
      ≡ min (policy.initial_backoff * backoff_multiplier n) policy.max_delay
unfolding backoff_for_retry
backoff_lem policy n h = capped (policy.initial_backoff * backoff_multiplier n)
  where
    capped :
        (p : ℕ)
        → min (if leb p duration_max then p else duration_max) policy.max_delay
          ≡ min p policy.max_delay
    capped p = ground arith

-- Before its jitter, the backoff of the first retry is the initial one, that of each of the next
-- thirty twice the one before, and none is above the policy's limit, the limit being a `Duration`.
pub backoff_doubles :
    (policy : HttpRetryPolicy) (n : ℕ)
    → policy.max_delay ≤ duration_max
    → 1 ≤ n
    → n < 31
    → (backoff_for_retry policy 1 ≡ min policy.initial_backoff policy.max_delay)
      × (backoff_for_retry policy (n + 1) ≡ min (2 * backoff_for_retry policy n) policy.max_delay)
backoff_doubles policy n h k l = (
  backoff_lem policy 1 h ∙ first,
  backoff_lem policy (n + 1) h
      ∙ rw (multiplier_doubles n k l, backoff_lem policy n h) (twice (backoff_multiplier n)),
)
  where
    first :
        min (policy.initial_backoff * backoff_multiplier 1) policy.max_delay
        ≡ min policy.initial_backoff policy.max_delay
    first =
        let one : backoff_multiplier 1 ≡ 1 = unfold backoff_multiplier in refl in
        rw one (omega arith)

    twice :
        (m : ℕ)
        → min (policy.initial_backoff * (2 * m)) policy.max_delay
          ≡ min (2 * min (policy.initial_backoff * m) policy.max_delay) policy.max_delay
    twice m = omega arith

taken :
    {b c : Bool} (x y z : Run) → b ≡ true → c ≡ true → (if b then (if c then x else y) else z) ≡ x
taken x y z h k = ground arith

module _ (g : Setting) (a : Attempt) (r : Response) (d : ℕ) (shared : g.has_cooldown ≡ true)
    (permitted : a.permitted ≡ true) (replied : a.reply ≡ response r)
    (defers : defers_cooldown r.status ≡ true)
    (asked : parse_retry_after g.http_date a.system_now r ≡ some d) (far : g.instant_max < d) where
  defer_overflows : (s : LoopState) → defer_for g r (some d) s ≡ none
  unfolding defer_for
  defer_overflows s = rw (shared, defers) (unfold defer in ground arith)

  reply_overflows :
      (number : ℕ) (s : LoopState) (next : LoopState → Run)
      → (on_reply g a number (response r) s next).outcome ≡ instant_overflow
  unfolding on_reply
  reply_overflows number s next =
      let none_left : defer_for g r (parse_retry_after g.http_date a.system_now r) s ≡ none =
        rw asked (defer_overflows s) in
      rw (none_left, on_reply) refl

  attempt_overflows :
      (number : ℕ) (s : LoopState) (next : LoopState → Run)
      → (attempt g a number s next).outcome ≡ instant_overflow
  unfolding attempt
  attempt_overflows number s next =
      rw (permitted, replied)
        (reply_overflows number (record s { elapsed = s.elapsed + a.duration }) next)

  round_overflows :
      (number : ℕ) (unpriced : ℕ) (next : LoopState → Run)
      → a.others ≡ none
      → (round g a number (record { elapsed = 0; until = none; unpriced = unpriced }) next).outcome
        ≡ instant_overflow
  unfolding round
  round_overflows number unpriced next alone =
      let fits : retry_fits_budget g.policy 0 (cooldown_remaining (later none a.others) 0) ≡ true =
        rw alone (unfold retry_fits_budget cooldown_remaining in ground arith) in
      ap (λ (run : Run). run.outcome) (taken _ _ _ shared fits) ∙ attempt_overflows number _ next

-- A response with status 429 or 503 whose `Retry-After` lies behind the last instant that the
-- platform can represent makes the first attempt panic, when requests share a cooldown.
pub huge_retry_after_panics :
    (g : Setting) (world : ℕ → Attempt) (r : Response) (d : ℕ)
    → g.has_cooldown ≡ true
    → 1 ≤ max_attempts g
    → (world 1).permitted ≡ true
    → (world 1).reply ≡ response r
    → (world 1).others ≡ none
    → defers_cooldown r.status ≡ true
    → parse_retry_after g.http_date (world 1).system_now r ≡ some d
    → g.instant_max < d
    → (send_with_retry g world none).outcome ≡ instant_overflow
unfolding send_with_retry loop
huge_retry_after_panics g world r d c m p q o f e h = go (max_attempts g) m
  where
    go :
        (n : ℕ)
        → 1 ≤ n
        → (loop g world n 1 (record { elapsed = 0; until = none; unpriced = 0 })).outcome
          ≡ instant_overflow
    go zero k = elim k [ ]
    go (suc n) k = round_overflows g (world 1) r d c p q f e h 1 0 (loop g world n 2) o
