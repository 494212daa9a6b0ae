-- ===== src/Types/Tokens/Tests.antt =====
-- Runs of the estimates, and instances of their theorems.
use kraai.Base.{◌+◌, ◌≤◌, refl, List, [], ◌∷◌, some}
use kraai.Types.Conversation.{ConversationItem, user, text}
use kraai.Types.Tokens.{sum, estimated_tokens, compaction_point, max_output, output_limit}
use kraai.Types.Tokens.Limits.{IsOutputLimit, output_limit-IsOutputLimit, max_output-fits}

abbrev greeting : List ConversationItem
greeting = user (text (104 ∷ 101 ∷ 108 ∷ 108 ∷ 111 ∷ []) ∷ []) ∷ []

output_limit-IsOutputLimit_example :
    IsOutputLimit (some 500) (some 100) (sum estimated_tokens greeting) 94
unfolding output_limit estimated_tokens kraai.Types.Tokens.estimate_text_tokens
output_limit-IsOutputLimit_example = output_limit-IsOutputLimit (some 500) (some 100) greeting refl

max_output-fits_example : 2000 + compaction_point 10000 ≤ 10000
unfolding max_output compaction_point
max_output-fits_example = max_output-fits (some 3000) 10000 refl
