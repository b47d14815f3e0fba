-- ===== src/ThreadName/Tests.antt =====
-- The theorem on titles at a text with a surrogate pair on the cut.
use discord_copilot_sdk.Base.{ℕ, List, [], ◌∷◌, arith}
use discord_copilot_sdk.ThreadName.{truncate}
use discord_copilot_sdk.ThreadName.Truncated.{IsTruncated, truncate-IsTruncated}

abbrev text : List ℕ
text = 97 ∷ 0x1f600 ∷ 98 ∷ 99 ∷ []

truncate-IsTruncated_example : IsTruncated text 3 (truncate text 3)
truncate-IsTruncated_example = truncate-IsTruncated text 3 (omega arith)
