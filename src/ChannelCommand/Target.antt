-- ===== src/ChannelCommand/Target.antt =====
-- platforms/discord/channel-fetch.ts, and `inspectChannelTarget` of
-- platforms/discord/channel-command.ts: may a channel be enabled.
use discord_copilot_sdk.Base.{
  ℕ, ◌/◌, ◌%◌, Bool, true, false, ◌&&◌, ◌||◌, not, String, List, [], ◌∷◌, Option, none, some, ◌==◌,
  string_eq, if◌then◌else◌, nat_eq,
}
use discord_copilot_sdk.Access.{holds_of}

pub data Permission : Type 0 where
  view_channel send_messages create_public_threads send_messages_in_threads attach_files embed_links
        read_message_history :
      Permission

-- A number, large or small, or a bit field, which is asked for one flag; `no_flags` for a value
-- that is neither.
pub data Flags : Type 0 where
  no_flags : Flags
  number : ℕ → Flags
  bit_field : (ℕ → Bool) → Flags

-- `permissions_for` is what the method `permissionsFor` gives for the bot: `none` where there is no
-- such method, or the guild does not know the bot, and `some none` where it gives null.
pub record Channel : Type 0 where
  pub name : Option String
  pub flags : Flags
  pub guild_id : Option String
  pub is_guild_text : Bool
  pub permissions_for : Option (Option (Permission → Bool))

-- What `channels.fetch` answers: an exception with its code and its status, where these are
-- numbers, a value that is no object, or a channel.
pub data Answer : Type 0 where
  threw : Option ℕ → Option ℕ → Answer
  nothing : Answer
  found : Channel → Answer

pub data Fetched : Type 0 where
  channel : Channel → Fetched
  gone no_access transient : Fetched

abbrev pub channel_obfuscated : ℕ
channel_obfuscated = 131072

abbrev pub is_hidden : Flags → Bool
is_hidden no_flags = false
is_hidden (number n) = not (n / channel_obfuscated % 2 == 0)
is_hidden (bit_field has) = has channel_obfuscated

unfoldable pub is_obfuscated_channel : Channel → Bool
is_obfuscated_channel c = holds_of c.name (λ n. n == "___hidden___") || is_hidden c.flags

abbrev is_code : ℕ → Option ℕ → Bool
is_code n none = false
is_code n (some code) = code == n

unfoldable pub fetch_channel_safe : Answer → Fetched
fetch_channel_safe (threw code status) =
    if is_code 10003 code
    then gone
    else if is_code 403 status || is_code 50001 code
    then no_access
    else transient
fetch_channel_safe nothing = gone
fetch_channel_safe (found c) = if is_obfuscated_channel c then no_access else channel c

-- Why a channel is refused; each has its own text.
pub data Refusal : Type 0 where
  missing_channel private_channel unread foreign_guild not_text unaudited : Refusal

pub record Inspection : Type 0 where
  pub error : Option Refusal
  pub missing : List Permission

-- Each with whether it is needed for the delivery of files only.
abbrev pub required_channel_permissions : List (Permission × Bool)
required_channel_permissions =
    (view_channel, false)
    ∷ (send_messages, false)
    ∷ (create_public_threads, false)
    ∷ (send_messages_in_threads, false)
    ∷ (attach_files, true)
    ∷ (embed_links, false)
    ∷ (read_message_history, false)
    ∷ []

abbrev pub lacking : Bool → (Permission → Bool) → List (Permission × Bool) → List Permission
lacking available has [] = []
lacking available has ((p, for_files) ∷ ps) =
    let rest = lacking available has ps in
    if (not for_files || available) && not (has p) then p ∷ rest else rest

abbrev pub refuses : Refusal → Inspection
refuses reason = record { error = some reason; missing = [] }

abbrev pub inspected_permissions : Bool → Option (Option (Permission → Bool)) → Inspection
inspected_permissions available none = refuses unaudited
inspected_permissions available (some none) = refuses private_channel
inspected_permissions available (some (some has)) =
    if has view_channel
    then record { error = none; missing = lacking available has required_channel_permissions }
    else refuses private_channel

abbrev pub inspected : String → Bool → Fetched → Inspection
inspected guild available gone = refuses missing_channel
inspected guild available no_access = refuses private_channel
inspected guild available transient = refuses unread
inspected guild available (channel c) =
    if is_obfuscated_channel c
    then refuses private_channel
    else if not (holds_of c.guild_id (λ g. g == guild))
    then refuses foreign_guild
    else if not c.is_guild_text
    then refuses not_text
    else inspected_permissions available c.permissions_for

unfoldable pub inspect_channel_target : String → Bool → Answer → Inspection
inspect_channel_target guild available answer =
    inspected guild available (fetch_channel_safe answer)
