-- ===== src/ChannelRegistry/File.antt =====
-- core/channel-registry.ts: the file format, and its strict reader.
use discord_copilot_sdk.Base.{
  ℤ, pos, Bool, true, String, List, [], ◌∷◌, Option, some, ◌==◌, string_eq, not, map, ◌≡◌, refl,
  ◌>>=◌, ◌>>◌, guard, All,
}
use discord_copilot_sdk.Json.{
  elems-items_of, Json, num, str, arr, obj, end, field, items_of, prop, as_object, str_prop,
  num_prop, arr_prop,
}

pub record ChannelEntry : Type 0 where
  pub id : String
  pub added_by : String
  pub added_at : ℤ

pub record RegistryFile : Type 0 where
  pub version : ℤ
  pub guild_id : String
  pub channels : List ChannelEntry

abbrev pub schema_version_now : ℤ
schema_version_now = pos 2

abbrev pub legacy_version : ℤ
legacy_version = pos 1

abbrev pub render_entry : ChannelEntry → Json
render_entry e = obj (
    field "id" (str e.id) (field "addedBy" (str e.added_by) (field "addedAt" (num e.added_at) end)))

unfoldable pub render : RegistryFile → Json
render f = obj (
    field "version" (num f.version) (
      field "guildId" (str f.guild_id)
        (field "channels" (arr (items_of (map render_entry f.channels))) end)))

-- `typeof id !== "string" || !id`
abbrev pub nonempty : String → Bool
nonempty s = not (s == "")

unfoldable pub read_entry : Json → Option ChannelEntry
read_entry v = do
  e ← as_object v
  id ← str_prop "id" e
  guard (nonempty id)
  added_by ← str_prop "addedBy" e
  added_at ← num_prop "addedAt" e
  some (record { id = id; added_by = added_by; added_at = added_at })

unfoldable pub read_entries : List Json → Option (List ChannelEntry)
read_entries [] = some []
read_entries (v ∷ vs) = do e ← read_entry v; es ← read_entries vs; some (e ∷ es)

unfoldable pub read_registry : Json → Option RegistryFile
read_registry v = do
  o ← as_object v
  version ← num_prop "version" o
  guild_id ← str_prop "guildId" o
  guard (nonempty guild_id)
  raw ← arr_prop "channels" o
  channels ← read_entries raw
  some (record { version = version; guild_id = guild_id; channels = channels })

read_entries-render :
    (es : List ChannelEntry)
    → All (λ e. nonempty e.id ≡ true) es
    → read_entries (map render_entry es) ≡ some es
unfolding read_entries read_entry prop
read_entries-render [] h = refl
read_entries-render (e ∷ es) (p, h) = rw (p, read_entries-render es h) refl

pub read_registry-render :
    (f : RegistryFile)
    → nonempty f.guild_id ≡ true
    → All (λ e. nonempty e.id ≡ true) f.channels
    → read_registry (render f) ≡ some f
unfolding read_registry render prop
read_registry-render f g h =
    rw (elems-items_of (map render_entry f.channels), g, read_entries-render f.channels h) refl
