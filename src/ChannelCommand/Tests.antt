-- ===== src/ChannelCommand/Tests.antt =====
-- `/channel enable` of a channel that is named by a mention, and `/channel disable`.
use discord_copilot_sdk.Base.{Bool, true, false, [], ◌∷◌, none, some, ◌≡◌, ◌↔◌, ◌⊎◌, refl, All, map}
use discord_copilot_sdk.ChannelRegistry.{is_enabled, enable, commit}
use discord_copilot_sdk.Access.{is_owner}
use discord_copilot_sdk.Dict.{has}
use discord_copilot_sdk.TurnRender.Items.{is_blank}
use discord_copilot_sdk.Disk.{renamed, written}
use discord_copilot_sdk.Json.{missing}
use discord_copilot_sdk.Lifecycle.{created, decline_reason}
use discord_copilot_sdk.SessionStore.State.{empty_store}
use discord_copilot_sdk.Base.{pos}
use discord_copilot_sdk.Chunk.{Text}
use Prim.Native.String.{String}
use discord_copilot_sdk.ChannelCommand.{
  Host, Command, Awaits, Subcommand, enabling, defers, says, announced, enabled, enables,
  handle_channel_command, target_of, channel_enable,
}
use discord_copilot_sdk.ChannelCommand.Target.{
  inspect_channel_target, fetch_channel_safe, is_obfuscated_channel, Channel, no_flags, found,
  Permission, attach_files,
}
use discord_copilot_sdk.ChannelCommand.Reference.{trimmed, is_id, parse_channel_ref}
use discord_copilot_sdk.ChannelCommand.Spelled.{mentioned, parse_channel_ref_iff}
use discord_copilot_sdk.ChannelCommand.Gates.{IsLicensed, handle_channel_command-Licensed}

-- A spelling of the one id that the tests use.
abbrev spell : Text → String
spell t = "55555"

abbrev five : Text
five = b'5' ∷ b'5' ∷ b'5' ∷ b'5' ∷ b'5' ∷ []

abbrev mention : Text
mention = b' ' ∷ b'<' ∷ b'#' ∷ b'5' ∷ b'5' ∷ b'5' ∷ b'5' ∷ b'5' ∷ b'>' ∷ []

abbrev command : Subcommand → Command
command subcommand = record {
  auth_context = record { user_id = "u"; guild_id = some "g"; channel_id = "c"; parent_id = none };
  auth_policy = record { allowed_user_ids = "u" ∷ []; guild_id = "g"; parent_channel_ids = [] };
  config = record { default_channel = "c"; guild_id = "g" };
  scope = "c";
  subcommand = subcommand;
  raw = some mention;
  channel_id = "c";
  user_id = "u";
}

abbrev host : Host
host = record {
  channels = record {
    registry = record { enabled = []; corrupt = false; epoch = 0 };
    disk = missing;
  };
  sessions = ("t", "55555") ∷ [];
  store = record { store = empty_store; disk = missing };
  ownership = created;
}

abbrev may : Permission → Bool
may attach_files = false
may _ = true

abbrev target : Channel
target = record {
  name = some "work";
  flags = no_flags;
  guild_id = some "g";
  is_guild_text = true;
  permissions_for = some (some may);
}

abbrev awaits : Awaits
awaits = record {
  defer = λ h. (h, true);
  say = λ r h. (h, true);
  fetch = λ id h. (h, found target);
  list = λ h. h;
  file_delivery_available = true;
  io = record { now = pos 5; mkdir_ok = true; temp_ok = true; rename = λ i. renamed };
}

enables_named : map (λ p. p.1) (handle_channel_command spell (command enabling) awaits host).log ≡ (
    defers
    ∷ says (announced (attach_files ∷ []))
    ∷ enables "55555"
    ∷ says (enabled (attach_files ∷ []))
    ∷ [])
unfolding handle_channel_command is_owner target_of parse_channel_ref is_blank channel_enable
    is_enabled has inspect_channel_target fetch_channel_safe is_obfuscated_channel decline_reason
    enable commit written
enables_named = refl

handle_channel_command-Licensed_example :
    All
      (IsLicensed spell (command enabling) awaits)
      (handle_channel_command spell (command enabling) awaits host).log
handle_channel_command-Licensed_example =
    handle_channel_command-Licensed spell (command enabling) awaits host

-- With a space before it.
parse_channel_ref_iff_example : (parse_channel_ref (some mention) ≡ some five) ↔ (
    (is_id five ≡ true)
    × ((trimmed (some mention) ≡ five) ⊎ (trimmed (some mention) ≡ mentioned five)))
parse_channel_ref_iff_example = parse_channel_ref_iff (some mention) five
