-- ===== src/Provider/Retry/Attempts.antt =====
-- What the observer of `send_with_retry` sees, and how the function ends.
use kraai.Base.{
  ℕ, zero, suc, ◌+◌, ◌≤◌, ◌<◌, ◌≡◌, refl, ◌≢◌, Bool, true, false, not, ◌||◌, List, [], ◌∷◌, Option,
  none, some, inl, inr, if◌then◌else◌, leb, Bool-cases, arith,
}
use kraai.Provider.Retry.Policy.{
  retry_fits_budget, cooldown_remaining, is_retryable_status, is_retryable_error, Response,
  parse_retry_after,
}
use kraai.Provider.Retry.Send.{
  Reply, response, transport_error, Attempt, Call, before_attempt, on_retry_scheduled, Outcome,
  responded, rate_limited, refused, failed, instant_overflow, unreachable, Run, stop, call, Setting,
  LoopState, max_attempts, schedule, delay_for, counts_unpriced, after_response, defer_for,
  on_reply, attempt, round, loop, send_with_retry, later,
}

abbrev pub attempts : List Call → ℕ
attempts [] = 0
attempts (before_attempt u ∷ cs) = suc (attempts cs)
attempts (on_retry_scheduled k t d ∷ cs) = attempts cs

-- Each scheduled delay ends within the policy's time, and is scheduled before the last attempt.
abbrev pub InBudget : Setting → List Call → Type 0
InBudget g [] = Unit
InBudget g (before_attempt u ∷ cs) = InBudget g cs
InBudget g (on_retry_scheduled k t d ∷ cs) =
    (t + d ≤ g.policy.max_elapsed) × (k < max_attempts g) × InBudget g cs

-- The attempts are told at most as many unpriced ones as there were retries before them.
abbrev pub Counted : ℕ → List Call → Type 0
Counted prior [] = Unit
Counted prior (before_attempt u ∷ cs) = (u ≤ prior) × Counted prior cs
Counted prior (on_retry_scheduled k t d ∷ cs) = Counted (suc prior) cs

-- A run of at most `left` attempts, the first of which is told at most `prior` unpriced ones.
pub record IsSound (g : Setting) (left prior : ℕ) (r : Run) : Type 0 where
  pub bounded : attempts r.calls ≤ left
  pub in_budget : InBudget g r.calls
  pub counted : Counted prior r.calls
  pub ends : r.outcome ≢ unreachable

module _ (g : Setting) (a : Attempt) (number left prior : ℕ) (next : LoopState → Run)
    (later_runs : number < max_attempts g
      → (s : LoopState) → s.unpriced ≤ suc prior
      → IsSound g left (suc prior) (next s)) where
  stop-IsSound : (o : Outcome) → o ≢ unreachable → IsSound g left prior (stop o)
  stop-IsSound o h = record { bounded = omega arith; in_budget = tt; counted = tt; ends = h }

  schedule-IsSound :
      (delay : ℕ) (o : Outcome) (no_price : Bool) (s : LoopState)
      → o ≢ unreachable
      → number < max_attempts g
      → s.unpriced ≤ prior
      → IsSound g left prior (schedule g a number delay o no_price s next)
  unfolding schedule
  schedule-IsSound delay o no_price s h k p =
      elim (Bool-cases (retry_fits_budget g.policy s.elapsed delay)) [
        | inr late ↦ rw late (stop-IsSound o h)
        | inl fits ↦
            let s' : LoopState = record s {
              elapsed = s.elapsed + delay + a.delay_overrun;
              unpriced = if no_price then s.unpriced + 1 else s.unpriced;
            } in
            let rest = later_runs k s' (ground arith) in
            rw fits (record {
              bounded = rest.bounded;
              in_budget = (unfold retry_fits_budget in ground arith, k, rest.in_budget);
              counted = rest.counted;
              ends = rest.ends;
            })
      ]

  after_response-IsSound :
      (r : Response) (retry_after : Option ℕ) (s : LoopState)
      → s.unpriced ≤ prior
      → IsSound g left prior (after_response g a number r retry_after s next)
  unfolding after_response
  after_response-IsSound r retry_after s p =
      elim (Bool-cases (not (is_retryable_status r.status) || leb (max_attempts g) number)) [
        | inl done ↦ rw done (stop-IsSound (responded r) (λ e. cc))
        | inr more ↦ rw more (
            schedule-IsSound (delay_for g a number retry_after) (responded r)
              (counts_unpriced r.status) s (λ e. cc) (ground arith) p)
      ]

  on_reply-IsSound :
      (reply : Reply) (s : LoopState)
      → s.unpriced ≤ prior
      → IsSound g left prior (on_reply g a number reply s next)
  unfolding on_reply
  on_reply-IsSound (response r) s p =
      go (defer_for g r (parse_retry_after g.http_date a.system_now r) s)
    where
      go :
          (d : Option (Option ℕ))
          → IsSound g left prior (elim d [
            | none ↦ stop instant_overflow
            | some until ↦
                after_response g a number r
                  (parse_retry_after g.http_date a.system_now r)
                  (record s { until = until })
                  next
          ])
      go none = stop-IsSound instant_overflow (λ e. cc)
      go (some until) = after_response-IsSound r _ (record s { until = until }) p
  on_reply-IsSound (transport_error e) s p =
      elim (Bool-cases (not (is_retryable_error e) || leb (max_attempts g) number)) [
        | inl done ↦ rw done (stop-IsSound (failed e) (λ e. cc))
        | inr more ↦ rw more (
            schedule-IsSound (delay_for g a number none) (failed e) (not e.is_connect) s (λ e. cc)
              (ground arith) p)
      ]

  attempt-IsSound :
      (s : LoopState) → s.unpriced ≤ prior → IsSound g (suc left) prior (attempt g a number s next)
  unfolding attempt
  attempt-IsSound s p = go a.permitted
    where
      told :
          (r : Run)
          → IsSound g left prior r
          → IsSound g (suc left) prior (call (before_attempt s.unpriced) r)
      told r h = record {
        bounded = omega (arith, h.bounded);
        in_budget = h.in_budget;
        counted = (p, h.counted);
        ends = h.ends;
      }

      go :
          (b : Bool)
          → IsSound g (suc left) prior (
              call (before_attempt s.unpriced) (
                if b
                then on_reply g a number a.reply
                    (record s { elapsed = s.elapsed + a.duration })
                    next
                else stop refused))
      go true = told _ (on_reply-IsSound a.reply (record s { elapsed = s.elapsed + a.duration }) p)
      go false = told _ (stop-IsSound refused (λ e. cc))

  round-IsSound :
      (s : LoopState) → s.unpriced ≤ prior → IsSound g (suc left) prior (round g a number s next)
  unfolding round
  round-IsSound s p = go g.has_cooldown
    where
      until : Option ℕ
      until = later s.until a.others

      rested : LoopState
      rested = record s {
        elapsed = s.elapsed + cooldown_remaining until s.elapsed + a.cooldown_overrun;
        until = until;
      }

      paused :
          (b : Bool)
          → IsSound g (suc left) prior (
              if b
              then attempt g a number rested next
              else stop (rate_limited (cooldown_remaining until s.elapsed)))
      paused true = attempt-IsSound rested p
      paused false = record { bounded = omega arith; in_budget = tt; counted = tt; ends = λ e. cc }

      go :
          (b : Bool)
          → IsSound g (suc left) prior (
              if b
              then (if retry_fits_budget g.policy s.elapsed (cooldown_remaining until s.elapsed)
                  then attempt g a number rested next
                  else stop (rate_limited (cooldown_remaining until s.elapsed)))
              else attempt g a number s next)
      go true = paused (retry_fits_budget g.policy s.elapsed (cooldown_remaining until s.elapsed))
      go false = attempt-IsSound s p

loop-IsSound :
    (g : Setting) (world : ℕ → Attempt) (left number prior : ℕ) (s : LoopState)
    → number + left ≡ max_attempts g
    → s.unpriced ≤ prior
    → IsSound g (suc left) prior (loop g world (suc left) number s)
unfolding loop
loop-IsSound g world zero number prior s e p =
    round-IsSound g (world number) number zero prior (loop g world zero (number + 1))
      (λ k. absurd (omega arith)) s p
loop-IsSound g world (suc left) number prior s e p =
    round-IsSound g (world number) number (suc left) prior (loop g world (suc left) (number + 1))
      (λ k s' p'. loop-IsSound g world left (number + 1) (suc prior) s' (omega arith) p') s p

-- Whatever the transport, the clock, other requests and the random percentages do, a request makes
-- at most the allowed number of attempts, is told of at most as many unpriced attempts as it
-- retried, schedules no delay that ends behind the policy's time, and comes to an end of its own,
-- the context's own limit, if it has one, being at least one.
pub send_with_retry-IsSound :
    (g : Setting) (world : ℕ → Attempt) (until : Option ℕ)
    → 1 ≤ max_attempts g
    → IsSound g (max_attempts g) 0 (send_with_retry g world until)
unfolding send_with_retry
send_with_retry-IsSound g world until h = go (max_attempts g) refl h
  where
    start : LoopState
    start = record { elapsed = 0; until = until; unpriced = 0 }

    go : (n : ℕ) → n ≡ max_attempts g → 1 ≤ n → IsSound g n 0 (loop g world n 1 start)
    go zero e k = absurd (omega arith)
    go (suc n) e k = loop-IsSound g world n 1 0 start (omega arith) (omega arith)
