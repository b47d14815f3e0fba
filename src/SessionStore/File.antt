-- ===== src/SessionStore/File.antt =====
-- core/session-store.ts: the file format. `render` is the candidate that `mutate` writes; the
-- readers are `readRecords` and `asRecord`, with the migrations of versions 1 to 4.
use discord_copilot_sdk.Base.{
  ℤ, pos, Bool, true, false, ◌&&◌, ◌||◌, not, String, List, [], ◌∷◌, Option, none, some, map, ◌==◌,
  leb_ℤ, max_ℤ, is_safe_integer, or_else, if◌then◌else◌, int_eq, string_eq, ◌>>=◌, ◌>>◌, guard,
  is_some,
}
use discord_copilot_sdk.Json.{
  Json, num, str, arr, obj, Fields, end, field, items_of, prop, as_object, as_array, str_prop,
  num_prop, arr_prop,
}
use discord_copilot_sdk.SessionStore.Record.{
  SessionState, creating, active, orphaned, blocked, DevMode, local, worktree, SessionRecord,
  SessionIdentity, identity_eq, identity_of, if_truthy, is_file_delivery_bytes, is_rebind_reason,
  schema_version_now,
}

pub record StoreFile : Type 0 where
  pub schema_version : ℤ
  pub generation_high_water : ℤ
  pub sessions : List SessionRecord
  pub stale_rebinds : List SessionRecord

abbrev pub state_text : SessionState → String
state_text creating = "creating"
state_text active = "active"
state_text orphaned = "orphaned"
state_text blocked = "blocked"

abbrev pub mode_text : DevMode → String
mode_text local = "local"
mode_text worktree = "worktree"

-- A property whose value is `undefined` is not written.
abbrev pub field_if : String → Option String → Fields → Fields
field_if key none fs = fs
field_if key (some v) fs = field key (str v) fs

unfoldable pub render_record : SessionRecord → Json
render_record r = obj (
    field "schemaVersion" (num r.schema_version) (
      field "threadId" (str r.thread_id) (
        field "sessionId" (str r.session_id) (
          field "generation" (num r.generation) (
            field "repoPath" (str r.repo_path) (
              field "guildId" (str r.guild_id) (
                field "parentChannelId" (str r.parent_channel_id) (
                  field "workDir" (str r.work_dir) (
                    field "devMode" (str (mode_text r.dev_mode)) (
                      field "fileDeliveryBytes" (num r.file_delivery_bytes) (
                        field_if "branch" r.branch (
                          field "state" (str (state_text r.state)) (
                            field "updatedAt" (num r.updated_at)
                              (field_if "reason" r.reason end))))))))))))))

unfoldable pub render : StoreFile → Json
render f = obj (
    field "schemaVersion" (num f.schema_version) (
      field "generationHighWater" (num f.generation_high_water) (
        field "sessions" (arr (items_of (map render_record f.sessions)))
          (field "staleRebinds" (arr (items_of (map render_record f.stale_rebinds))) end))))

abbrev pub is_dev_mode : Option Json → Option DevMode
is_dev_mode (some (str s)) =
    if s == "local" then some local else if s == "worktree" then some worktree else none
is_dev_mode _ = none

abbrev pub state_of : String → Option SessionState
state_of s =
    if s == "creating"
    then some creating
    else if s == "active"
    then some active
    else if s == "orphaned"
    then some orphaned
    else if s == "blocked"
    then some blocked
    else none

abbrev pub read_schema_version : Option Json → Option ℤ
read_schema_version (some (num n)) = if is_safe_integer n then some n else none
read_schema_version _ = none

-- `isDevMode(rawMode) ? rawMode : containerVersion >= 3 ? undefined : branch ? "worktree" : "local"`
unfoldable pub read_dev_mode : Option Json → ℤ → Option String → Option DevMode
read_dev_mode raw version branch = elim (is_dev_mode raw) [
  | some m ↦ some m
  | none ↦
      if leb_ℤ (pos 3) version
      then none
      else some (if is_some (if_truthy branch) then worktree else local)
]

unfoldable pub read_file_delivery_bytes : Option Json → ℤ → Option ℤ
unfolding is_file_delivery_bytes
read_file_delivery_bytes none version = if leb_ℤ (pos 4) version then none else some (pos 0)
read_file_delivery_bytes (some (num n)) version = if is_file_delivery_bytes n then some n else none
read_file_delivery_bytes (some _) version = none

unfoldable pub as_record : Json → ℤ → Option SessionRecord
as_record v version = do
  fs ← as_object v
  declared ← read_schema_version (prop "schemaVersion" fs)
  thread_id ← str_prop "threadId" fs
  session_id ← str_prop "sessionId" fs
  generation ← num_prop "generation" fs
  repo_path ← str_prop "repoPath" fs
  guild_id ← str_prop "guildId" fs
  parent_channel_id ← str_prop "parentChannelId" fs
  updated_at ← num_prop "updatedAt" fs
  state ← str_prop "state" fs >>= state_of
  guard (declared == version)
  let work_dir = or_else (str_prop "workDir" fs) repo_path
  let branch = str_prop "branch" fs
  dev_mode ← read_dev_mode (prop "devMode" fs) version branch
  bytes ← read_file_delivery_bytes (prop "fileDeliveryBytes" fs) version
  some (record {
    schema_version = schema_version_now;
    thread_id = thread_id;
    session_id = session_id;
    generation = generation;
    repo_path = repo_path;
    guild_id = guild_id;
    parent_channel_id = parent_channel_id;
    work_dir = work_dir;
    dev_mode = dev_mode;
    file_delivery_bytes = bytes;
    branch = if_truthy branch;
    state = state;
    reason = if_truthy (str_prop "reason" fs);
    updated_at = updated_at;
  })

pub record Loaded : Type 0 where
  pub sessions : List SessionRecord
  pub stale_rebinds : List SessionRecord
  pub high_water : ℤ

-- One bad row invalidates the file.
unfoldable pub read_sessions : ℤ → List Json → Option (List SessionRecord)
read_sessions version [] = some []
read_sessions version (v ∷ vs) = do
  r ← as_record v version
  rs ← read_sessions version vs
  some (r ∷ rs)

abbrev pub is_blocked : SessionState → Bool
is_blocked blocked = true
is_blocked _ = false

-- `r.reason?.startsWith("rebind-")`
abbrev pub has_rebind_reason : Option String → Bool
has_rebind_reason none = false
has_rebind_reason (some s) = is_rebind_reason s

abbrev pub contains_key : SessionIdentity → List SessionIdentity → Bool
contains_key k [] = false
contains_key k (j ∷ js) = j == k || contains_key k js

-- The loop over `staleItems`, with the keys that it has seen.
unfoldable pub read_stale : ℤ → List SessionIdentity → List Json → Option (List SessionRecord)
read_stale version seen [] = some []
read_stale version seen (v ∷ vs) = do
  r ← as_record v version
  guard (is_blocked r.state && has_rebind_reason r.reason)
  guard (not (contains_key (identity_of r) seen))
  rs ← read_stale version (identity_of r ∷ seen) vs
  some (r ∷ rs)

-- `Math.max(bound, ...records.map((r) => r.generation))`
unfoldable pub max_generation : ℤ → List SessionRecord → ℤ
max_generation bound [] = bound
max_generation bound (r ∷ rs) = max_generation (max_ℤ bound r.generation) rs

unfoldable pub read_container : Fields → List Json → Option Loaded
read_container fs rows = do
  version ← read_schema_version (prop "schemaVersion" fs)
  guard (leb_ℤ (pos 2) version && leb_ℤ version schema_version_now)
  out ← read_sessions version rows
  stale_items ← (if leb_ℤ (pos 5) version then arr_prop "staleRebinds" fs else some [])
  stale ← read_stale version [] stale_items
  let hw = or_else (num_prop "generationHighWater" fs) (pos 0)
  some (record {
    sessions = out;
    stale_rebinds = stale;
    high_water = max_ℤ (max_generation (max_generation hw out) stale) (pos 0);
  })

-- A bare record: a file of version 1.
unfoldable pub read_bare : Json → Fields → Option Loaded
read_bare v fs = do
  version ← read_schema_version (prop "schemaVersion" fs)
  guard (version == pos 1)
  single ← as_record v (pos 1)
  some (record { sessions = single ∷ []; stale_rebinds = []; high_water = single.generation })

unfoldable pub read_records : Json → Option Loaded
unfolding read_container read_bare
read_records v = do
  fs ← as_object v
  elim (prop "sessions" fs) [
    | none ↦ read_bare v fs
    | some rows ↦ as_array rows >>= read_container fs
  ]
