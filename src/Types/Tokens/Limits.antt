-- ===== src/Types/Tokens/Limits.antt =====
-- How the estimates bound an answer.
use kraai.Base.{ℕ, ◌+◌, ◌≤◌, ◌<◌, List, Option, none, some, ◌≡◌, arith}
use kraai.Types.Conversation.{ConversationItem}
use kraai.Types.Tokens.{sum, estimated_tokens, compaction_point, max_output, output_limit}

-- A number is within a limit that may be absent.
abbrev pub Within : Option ℕ → ℕ → Type 0
Within none n = Unit {0}
Within (some limit) n = n ≤ limit

-- The greatest positive length of an answer that is within the limit of the model and, with the
-- tokens of the request, within the window.
pub record IsOutputLimit (most window : Option ℕ) (request n : ℕ) : Type 0 where
  pub positive_ : 0 < n
  pub most_ : Within most n
  pub window_ : Within window (n + request)
  pub greatest : (k : ℕ) → Within most k → Within window (k + request) → k ≤ n

-- An output limit, of a model of which the greatest output, the context window or both are known, is
-- the greatest positive length for which the answer is within the greatest output and, with the
-- estimated tokens of the request, within the window.
pub output_limit-IsOutputLimit :
    (most window : Option ℕ) (messages : List ConversationItem) {n : ℕ}
    → output_limit most window messages ≡ some n
    → IsOutputLimit most window (sum estimated_tokens messages) n
unfolding output_limit
output_limit-IsOutputLimit none none messages h = absurd (cc h)
output_limit-IsOutputLimit (some most) none messages h = record {
  positive_ = ground (arith, h);
  most_ = ground (arith, h);
  window_ = tt;
  greatest = λ k a b. ground (arith, h, a);
}
output_limit-IsOutputLimit none (some window) messages h = record {
  positive_ = ground (arith, h);
  most_ = tt;
  window_ = ground (arith, h);
  greatest = λ k a b. ground (arith, h, b);
}
output_limit-IsOutputLimit (some most) (some window) messages h = record {
  positive_ = ground (arith, h);
  most_ = ground (arith, h);
  window_ = ground (arith, h);
  greatest = λ k a b. ground (arith, h, a, b);
}

-- Without a configured limit, an answer and the part of the context window at which a conversation
-- is compacted are together within the window.
pub max_output-fits :
    (catalog : Option ℕ) (window : ℕ) {n : ℕ}
    → max_output none catalog (some window) ≡ some n
    → n + compaction_point window ≤ window
unfolding max_output compaction_point
max_output-fits none window h = ground (arith, h)
max_output-fits (some c) window h = ground (arith, h)
