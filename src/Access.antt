-- ===== src/Access.antt =====
-- platforms/discord/auth.ts: who may act, and where.
pub mod Laws
use discord_copilot_sdk.Base.{
  Bool, true, false, ◌&&◌, ◌||◌, String, List, [], ◌∷◌, Option, none, some, ◌==◌, string_eq,
  if◌then◌else◌,
}

pub record AuthContext : Type 0 where
  pub user_id : String
  pub guild_id : Option String
  pub channel_id : String
  pub parent_id : Option String

-- The sets of the policy, as the lists of their members.
pub record AuthPolicy : Type 0 where
  pub allowed_user_ids : List String
  pub guild_id : String
  pub parent_channel_ids : List String

abbrev pub contains : String → List String → Bool
contains a [] = false
contains a (x ∷ xs) = x == a || contains a xs

-- `o !== null && p(o)`
abbrev pub holds_of : Option String → (String → Bool) → Bool
holds_of none p = false
holds_of (some s) p = p s

unfoldable pub is_owner : AuthContext → AuthPolicy → Bool
is_owner ctx policy =
    if contains ctx.user_id policy.allowed_user_ids
    then holds_of ctx.guild_id (λ g. g == policy.guild_id)
    else false

unfoldable pub is_authorized : AuthContext → AuthPolicy → Bool
is_authorized ctx policy =
    if is_owner ctx policy
    then contains ctx.channel_id policy.parent_channel_ids
      || holds_of ctx.parent_id (λ p. contains p policy.parent_channel_ids)
    else false
