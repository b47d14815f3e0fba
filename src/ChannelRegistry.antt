-- ===== src/ChannelRegistry.antt =====
-- core/channel-registry.ts: the durable set of channels that the bot acts in.
pub mod File
pub mod Restart
use discord_copilot_sdk.Base.{
  ℕ, ◌+◌, ℤ, pos, Bool, true, false, ◌||◌, String, List, [], ◌∷◌, Option, none, some, ◌==◌,
  string_eq, int_eq, if◌then◌else◌, not, suc,
}
use discord_copilot_sdk.Dict.{Dict, get, has, set, delete, values, keys, index_from}
use discord_copilot_sdk.Json.{Content, missing, unreadable, malformed, parsed}
use discord_copilot_sdk.Disk.{Io, write}
use File.{ChannelEntry, RegistryFile, render, read_registry, schema_version_now, legacy_version}

pub record Config : Type 0 where
  pub default_channel : String
  pub guild_id : String

pub record Registry : Type 0 where
  pub enabled : Dict String ChannelEntry
  pub corrupt : Bool
  pub epoch : ℕ

-- The registry in memory, and its file.
pub record World : Type 0 where
  pub registry : Registry
  pub disk : Content

abbrev pub corrupted : Content → World
corrupted disk = record {
  registry = record { enabled = []; corrupt = true; epoch = 0 };
  disk = disk;
}

abbrev pub seed_entry : Config → ℤ → ChannelEntry
seed_entry c now = record { id = c.default_channel; added_by = "configuration"; added_at = now }

abbrev pub candidate : Config → Dict String ChannelEntry → RegistryFile
candidate c m = record { version = schema_version_now; guild_id = c.guild_id; channels = values m }

abbrev pub index : List ChannelEntry → Dict String ChannelEntry
index = index_from (λ e. e.id) []

-- `writeRequired`, then the map in memory; `none` stands for the exception that stops the start.
unfoldable pub write_required : Io → Config → Dict String ChannelEntry → Content → Option World
write_required io c m disk =
    let (ok, disk') = write io (render (candidate c m)) disk in
    if ok
    then some
        (record { registry = record { enabled = m; corrupt = false; epoch = 0 }; disk = disk' })
    else none

abbrev pub with_default : Config → ℤ → Dict String ChannelEntry → Dict String ChannelEntry
with_default c now m =
    if has c.default_channel m then m else set c.default_channel (seed_entry c now) m

-- A file that was understood.
unfoldable pub accept : Io → Config → Content → RegistryFile → Option World
accept io c disk f =
    if not (f.guild_id == c.guild_id)
    then some (corrupted disk)
    else if f.version == legacy_version
    then write_required io c (with_default c io.now (index f.channels)) disk
    else if not (f.version == schema_version_now)
    then some (corrupted disk)
    else some (record {
      registry = record { enabled = index f.channels; corrupt = false; epoch = 0 };
      disk = disk;
    })

-- The constructor.
unfoldable pub open_registry : Io → Config → Content → Option World
open_registry io c missing =
    write_required io c ((c.default_channel, seed_entry c io.now) ∷ []) missing
open_registry io c unreadable = some (corrupted unreadable)
open_registry io c malformed = some (corrupted malformed)
open_registry io c (parsed v) = elim (read_registry v) [
  | none ↦ some (corrupted (parsed v))
  | some f ↦ accept io c (parsed v) f
]

abbrev pub enabled_set : Registry → List String
enabled_set r = if r.corrupt then [] else keys r.enabled

unfoldable pub is_enabled : String → Registry → Bool
is_enabled channel r = if r.corrupt then false else has channel r.enabled

-- Persist first: memory changes only after the write has succeeded.
unfoldable pub commit : Io → Config → Dict String ChannelEntry → World → Bool × World
commit io c next w =
    let (ok, disk') = write io (render (candidate c next)) w.disk in
    if ok
    then (
      true,
      record {
        registry = record {
          enabled = next;
          corrupt = w.registry.corrupt;
          epoch = w.registry.epoch + 1;
        };
        disk = disk';
      },
    )
    else (false, w)

unfoldable pub enable : Io → Config → String → String → World → Bool × World
enable io c channel added_by w =
    if w.registry.corrupt
    then (false, w)
    else if has channel w.registry.enabled
    then (true, w)
    else commit io c
        (set channel (record { id = channel; added_by = added_by; added_at = io.now })
          w.registry.enabled)
        w

unfoldable pub disable : Io → Config → String → World → Bool × World
disable io c channel w =
    if w.registry.corrupt
    then (false, w)
    else if has channel w.registry.enabled
    then commit io c (delete channel w.registry.enabled) w
    else (true, w)
