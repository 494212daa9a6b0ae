-- ===== src/Types/Cost/Summary.antt =====
-- What a summary tells of the requests that were added to it.
use kraai.Base.{
  ℕ, ◌+◌, ◌≤◌, ◌<◌, ◌≡◌, ap, ◌∙◌, ◌⊎◌, ◌↔◌, inl, inr, Bool, true, false, not, Bool-cases, ◌||◌,
  List, [], ◌∷◌, Option, none, some, min, u64_max, usize_max, any, arith,
}
use native.Mathlib.Nat.{add_assoc}
use kraai.Types.Cost.{
  Usd, RequestCost, RequestUsage, CostSummary, empty_summary, is_some, cost_of, add_cost, add,
}

-- Requests added one after another.
unfoldable pub add_all : CostSummary → List RequestUsage → CostSummary
add_all s [] = s
add_all s (r ∷ rs) = add_all (add s r) rs

abbrev pub amount_of : Option RequestCost → ℕ
amount_of none = 0
amount_of (some c) = c.amount

abbrev or_zero : Option Usd → ℕ
or_zero none = 0
or_zero (some a) = a

abbrev pub upstream_of : Option RequestCost → ℕ
upstream_of none = 0
upstream_of (some c) = or_zero c.upstream

-- The exact sums over the requests.
abbrev pub sum_by : (RequestUsage → ℕ) → List RequestUsage → ℕ
sum_by f [] = 0
sum_by f (r ∷ rs) = f r + sum_by f rs

abbrev pub amounts : List RequestUsage → ℕ
amounts = sum_by (λ r. amount_of (cost_of r))

abbrev pub upstreams : List RequestUsage → ℕ
upstreams = sum_by (λ r. upstream_of (cost_of r))

-- How a summary stands to the exact sums of what was added.
record Tracks (s : CostSummary) (a u : ℕ) : Type 0 where
  amount_fits : s.amount ≤ u64_max
  upstream_fits : s.upstream ≤ u64_max
  amount_le : s.amount ≤ a
  upstream_le : s.upstream ≤ u
  exact : s.overflow ≡ false → (s.amount ≡ a) × (s.upstream ≡ u)
  over : s.overflow ≡ true → (u64_max < a) ⊎ (u64_max < u)

add_cost-Tracks :
    (b : Bool) (c : Option RequestCost) (s : CostSummary) (a u : ℕ)
    → Tracks s a u
    → Tracks (add_cost b c s) (a + amount_of c) (u + upstream_of c)
unfolding add_cost
add_cost-Tracks b none s a u h = ground arith
add_cost-Tracks b (some c) s a u h = ground arith

add-Tracks :
    (s : CostSummary) (r : RequestUsage) (a u : ℕ)
    → Tracks s a u
    → Tracks (add s r) (a + amount_of (cost_of r)) (u + upstream_of (cost_of r))
unfolding add
add-Tracks s r a u h = add_cost-Tracks r.subscription (cost_of r) _ a u (ground arith)

add_all-Tracks :
    (s : CostSummary) (rs : List RequestUsage) (a u : ℕ)
    → Tracks s a u
    → Tracks (add_all s rs) (a + amounts rs) (u + upstreams rs)
unfolding add_all
add_all-Tracks s [] a u h = ground arith
add_all-Tracks s (r ∷ rs) a u h =
    rw
      (
        ← add_assoc a (amount_of (cost_of r)) (amounts rs),
        ← add_assoc u (upstream_of (cost_of r)) (upstreams rs),
      )
      (add_all-Tracks (add s r) rs (a + amount_of (cost_of r)) (u + upstream_of (cost_of r))
        (add-Tracks s r a u h))

start-Tracks : Tracks empty_summary 0 0
unfolding empty_summary
start-Tracks = ground arith

-- The summary of some requests.
abbrev pub summary : List RequestUsage → CostSummary
summary = add_all empty_summary

-- The summary reports an overflow exactly if the costs, or the upstream costs, add up to more than
-- a `u64` holds; if it reports none, both of its amounts are the exact sums.
pub summary-amounts :
    (rs : List RequestUsage)
    → (((summary rs).overflow ≡ true) ↔ ((u64_max < amounts rs) ⊎ (u64_max < upstreams rs)))
      × ((summary rs).overflow ≡ false
          → ((summary rs).amount ≡ amounts rs) × ((summary rs).upstream ≡ upstreams rs))
summary-amounts rs =
    let tracks = add_all-Tracks empty_summary rs 0 0 start-Tracks in
    elim (Bool-cases (summary rs).overflow) [
      | inl over ↦ ((λ _. ground (arith, tracks.over over), λ _. over), λ e. cc)
      | inr exact ↦ (
        (
          λ e. cc,
          λ more.
              absurd (ground (arith, tracks.exact exact, tracks.amount_fits, tracks.upstream_fits)),
        ),
        λ _. ground (arith, tracks.exact exact),
      )
    ]

abbrev one_if : Bool → ℕ
one_if true = 1
one_if false = 0

-- Requests with no cost and the attempts without a price; requests with a cost; subscriptions.
abbrev pub unknowns : List RequestUsage → ℕ
unknowns = sum_by (λ r. r.unpriced_attempts + one_if (not (is_some (cost_of r))))

abbrev pub reports : List RequestUsage → ℕ
reports = sum_by (λ r. one_if (is_some (cost_of r)))

abbrev pub subscribed : List RequestUsage → ℕ
subscribed = sum_by (λ r. one_if r.subscription)

-- Whether a request's cost is an estimate.
abbrev pub is_estimate : RequestUsage → Bool
is_estimate r = elim (cost_of r) [ none ↦ false | some c ↦ r.subscription || is_some c.rates ]

-- How the counters stand to the exact counts: they stop at the largest `usize`.
record Counts (s : CostSummary) (x y z : ℕ) (e : Bool) : Type 0 where
  unknown : s.unknown ≡ min usize_max x
  reported : s.reported ≡ min usize_max y
  subscriptions : s.subscriptions ≡ min usize_max z
  estimated : s.estimated ≡ e

abbrev estimates : Bool → Option RequestCost → Bool
estimates b none = false
estimates b (some c) = b || is_some c.rates

add_cost-Counts :
    (b : Bool) (c : Option RequestCost) (s : CostSummary) (x y z : ℕ) (e : Bool)
    → Counts s x y z e
    → Counts
        (add_cost b c s)
        (x + one_if (not (is_some c)))
        (y + one_if (is_some c))
        z
        (e || estimates b c)
unfolding add_cost
add_cost-Counts b none s x y z e h = ground arith
add_cost-Counts b (some c) s x y z e h = ground arith

add-Counts :
    (s : CostSummary) (r : RequestUsage) (x y z : ℕ) (e : Bool)
    → Counts s x y z e
    → Counts
        (add s r)
        (x + r.unpriced_attempts + one_if (not (is_some (cost_of r))))
        (y + one_if (is_some (cost_of r)))
        (z + one_if r.subscription)
        (e || estimates r.subscription (cost_of r))
unfolding add
add-Counts s r x y z e h =
    add_cost-Counts r.subscription (cost_of r) _ (x + r.unpriced_attempts) y
      (z + one_if r.subscription) e (ground arith)

estimates-is_estimate : (r : RequestUsage) → estimates r.subscription (cost_of r) ≡ is_estimate r
estimates-is_estimate r = ground arith

add_all-Counts :
    (s : CostSummary) (rs : List RequestUsage) (x y z : ℕ) (e : Bool)
    → Counts s x y z e
    → Counts
        (add_all s rs)
        (x + unknowns rs)
        (y + reports rs)
        (z + subscribed rs)
        (e || any is_estimate rs)
unfolding add_all
add_all-Counts s [] x y z e h = ground arith
add_all-Counts s (r ∷ rs) x y z e h =
    let rest =
      add_all-Counts (add s r) rs (x + r.unpriced_attempts + one_if (not (is_some (cost_of r))))
        (y + one_if (is_some (cost_of r))) (z + one_if r.subscription)
        (e || estimates r.subscription (cost_of r)) (add-Counts s r x y z e h) in
    record {
      unknown = rest.unknown ∙ ap (min usize_max) (omega arith);
      reported = rest.reported ∙ ap (min usize_max) (omega arith);
      subscriptions = rest.subscriptions ∙ ap (min usize_max) (omega arith);
      estimated = rest.estimated ∙ ground (arith, estimates-is_estimate r);
    }

start-Counts : Counts empty_summary 0 0 0 false
unfolding empty_summary
start-Counts = ground arith

-- The counters are the exact counts, stopped at the largest `usize`: what has no price (requests
-- with no cost, and unpriced attempts), the requests with a cost, and those on a subscription. The
-- summary is marked as an estimate exactly if some cost is one.
pub summary_counts :
    (rs : List RequestUsage)
    → ((summary rs).unknown ≡ min usize_max (unknowns rs))
      × ((summary rs).reported ≡ min usize_max (reports rs))
      × ((summary rs).subscriptions ≡ min usize_max (subscribed rs))
      × ((summary rs).estimated ≡ any is_estimate rs)
summary_counts rs =
    let h = add_all-Counts empty_summary rs 0 0 0 false start-Counts in
    (
      h.unknown ∙ ap (min usize_max) (omega arith),
      h.reported ∙ ap (min usize_max) (omega arith),
      h.subscriptions ∙ ap (min usize_max) (omega arith),
      h.estimated,
    )
