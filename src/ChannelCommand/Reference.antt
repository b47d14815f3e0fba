-- ===== src/ChannelCommand/Reference.antt =====
-- platforms/discord/channel-command.ts: `parseChannelRef`, on texts as lists of UTF-16 code units.
use discord_copilot_sdk.Base.{
  ℕ, Bool, ◌&&◌, [], ◌∷◌, Option, none, some, ◌==◌, nat_eq, leb, length, if◌then◌else◌,
}
use discord_copilot_sdk.Decimal.{all_digits}
use discord_copilot_sdk.Chunk.{Text}
use discord_copilot_sdk.TurnRender.Items.{is_space, is_blank}

abbrev pub trim_start : Text → Text
trim_start [] = []
trim_start (c ∷ s) = let rest = trim_start s in if is_space c then rest else c ∷ s

abbrev pub trim_end : Text → Text
trim_end [] = []
trim_end (c ∷ s) = let rest = trim_end s in if is_blank (c ∷ s) then [] else c ∷ rest

-- `(raw ?? "").trim()`
abbrev pub trimmed : Option Text → Text
trimmed none = []
trimmed (some raw) = trim_end (trim_start raw)

-- `\d{5,25}`
abbrev pub is_id : Text → Bool
is_id s = all_digits s && (leb 5 (length s) && leb (length s) 25)

abbrev pub and_first : ℕ → Option Text → Option Text
and_first c none = none
and_first c (some s) = some (c ∷ s)

-- What stands before the bracket at the end.
abbrev pub before_end : Text → Option Text
before_end [] = none
before_end (c ∷ []) = if c == b'>' then some [] else none
before_end (c ∷ d ∷ s) = and_first c (before_end (d ∷ s))

abbrev pub unmention : Text → Option Text
unmention (a ∷ b ∷ s) = if a == b'<' && b == b'#' then before_end s else none
unmention _ = none

abbrev pub matched : Option Text → Text → Option Text
matched (some id) t = if is_id id then some id else if is_id t then some t else none
matched none t = if is_id t then some t else none

-- The empty text is no id.
unfoldable pub parse_channel_ref : Option Text → Option Text
parse_channel_ref raw = let t = trimmed raw in matched (unmention t) t
