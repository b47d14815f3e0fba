-- ===== src/Tests.antt =====
-- The theorems on the broker, the chunks, the gate, the channels, the plan of a restart and the
-- efforts at concrete inputs.
use discord_copilot_sdk.Base.{
  pos, ◌+◌, Bool, true, false, String, List, [], ◌∷◌, some, ◌≡◌, ◌≢◌, ◌⊎◌, ◌↔◌, refl, arith,
  string_eq,
}
use mathlib.Core.Bool.{false≢true}
use discord_copilot_sdk.Dict.{has, set, delete}
use discord_copilot_sdk.Json.{missing, parsed}
use discord_copilot_sdk.Disk.{Io, renamed, failed, written, rename_with_retry, rename_from}
use discord_copilot_sdk.Broker.{RegisterOpts, idle, register}
use discord_copilot_sdk.Broker.Once.{
  Event, settles, fires, aborts_session, run, times, one_if, register-run_once,
}
use discord_copilot_sdk.Chunk.{Text, chunk_text}
use discord_copilot_sdk.Chunk.Lossless.{AreChunks, chunk_text-AreChunks}
use discord_copilot_sdk.Access.{AuthContext, AuthPolicy, is_authorized}
use discord_copilot_sdk.Access.Laws.{ActsAsOwner, IsInScope, is_authorized_iff}
use discord_copilot_sdk.ChannelRegistry.{
  candidate, Config, World, open_registry, enable, disable, is_enabled, seed_entry, write_required,
  commit,
}
use discord_copilot_sdk.ChannelRegistry.Restart.{Call, enables, disables, is_enabled-reopened}
use discord_copilot_sdk.ChannelRegistry.Restart
use discord_copilot_sdk.ChannelRegistry.File.{render}
use discord_copilot_sdk.SessionStore.Record.{active, creating, orphaned, blocked}
use discord_copilot_sdk.Reconcile.{
  ThreadStatus, valid, gone, resume, block, reapable, plan_reconcile, classify_record_disposition,
}
use discord_copilot_sdk.Reconcile.Laws.{
  IsDefinitive, plan_reconcile-resume_iff, plan_reconcile-block,
  classify_record_disposition-reapable_iff,
}
use discord_copilot_sdk.Effort.{should_reset_effort, validate_effort, ok}
use discord_copilot_sdk.Effort.Laws.{should_reset_effort-validate_effort}

abbrev opts : RegisterOpts Bool
opts = record {
  session_key = "thread";
  generation = 1;
  kind = "permission";
  timeout_ms = 60000;
  on_default = false;
}

-- A timeout, then a decision that comes too late, then an abort.
abbrev events : List (Event Bool)
events = fires "n1" ∷ settles "n1" true (some 1) ∷ aborts_session "thread" ∷ []

new_nonce : 0 + one_if (has "n1" (idle {R = Bool}).entries) ≡ 0
unfolding has
new_nonce = refl

register-run_once_example :
    times "n1" (run events (register "n1" 5 opts idle)).resolved
      + one_if (has "n1" (run events (register "n1" 5 opts idle)).entries)
    ≡ 1
register-run_once_example =
    register-run_once "n1" 5 opts events idle (record { waiting = tt; distinct = tt }) new_nonce
      (tt, (tt, (tt, tt)))

-- "ab cd" in messages of at most three.
abbrev text : Text
text = 97 ∷ 98 ∷ 32 ∷ 99 ∷ 100 ∷ []

chunk_text-AreChunks_example :
    (cs : List Text) × (chunk_text text 3 ≡ some cs) × AreChunks text 3 cs
chunk_text-AreChunks_example = chunk_text-AreChunks text 3 (omega arith)

abbrev in_thread : AuthContext
in_thread = record {
  user_id = "u";
  guild_id = some "g";
  channel_id = "thread";
  parent_id = some "c";
}

abbrev policy : AuthPolicy
policy = record { allowed_user_ids = "u" ∷ []; guild_id = "g"; parent_channel_ids = "b" ∷ "c" ∷ [] }

is_authorized_iff_example :
    (is_authorized in_thread policy ≡ true)
    ↔ (ActsAsOwner in_thread policy × IsInScope in_thread policy)
is_authorized_iff_example = is_authorized_iff in_thread policy

plan_reconcile-resume_iff_example :
    (plan_reconcile false (some active) (some true) (some valid) ≡ resume) ↔ (
      (false ≡ false)
      × (some active ≡ some active)
      × (some true ≢ some false)
      × (some valid ≡ some valid))
plan_reconcile-resume_iff_example =
    plan_reconcile-resume_iff false (some active) (some true) (some valid)

planned : plan_reconcile false (some active) (some true) (some gone) ≡ block "thread-gone"
unfolding plan_reconcile
planned = refl

plan_reconcile-block_example :
    (some active ≡ some active)
    × ((some true ≡ some false) ⊎ ((s : ThreadStatus) × (some gone ≡ some s) × IsDefinitive s))
plan_reconcile-block_example =
    plan_reconcile-block false (some active) (some true) (some gone) "thread-gone" planned

classify_record_disposition-reapable_iff_example :
    (classify_record_disposition creating false false ≡ reapable) ↔ (
      (false ≡ false)
      × ((creating ≡ orphaned)
          ⊎ ((creating ≡ blocked) ⊎ ((creating ≡ creating) × (false ≡ false)))))
classify_record_disposition-reapable_iff_example =
    classify_record_disposition-reapable_iff creating false false

abbrev high : String
high = "high"

named_level : high ≢ ""
named_level h = false≢true ((string_eq.beq_iff high "").1 h)

should_reset_effort-validate_effort_example :
    (should_reset_effort (some high) (some ("low" ∷ [])) ≡ true)
    ↔ (validate_effort (some "m") high (some ("low" ∷ [])) ≢ ok)
should_reset_effort-validate_effort_example =
    should_reset_effort-validate_effort (some "m") high (some ("low" ∷ [])) named_level

abbrev io : Io
io = record { now = pos 100; mkdir_ok = true; temp_ok = true; rename = λ i. renamed }

abbrev io_lost : Io
io_lost = record io { rename = λ i. failed "EROFS" }

abbrev config : Config
config = record { default_channel = "c"; guild_id = "g" }

abbrev calls : List (Io × Call)
calls = (io, enables "d" "admin") ∷ (io_lost, disables "c") ∷ (io, disables "c") ∷ []

abbrev opened : World
opened = record {
  registry = record {
    enabled = ("c", seed_entry config (pos 100)) ∷ [];
    corrupt = false;
    epoch = 0;
  };
  disk = parsed (render (candidate config (("c", seed_entry config (pos 100)) ∷ [])));
}

opened_first : open_registry io config missing ≡ some opened
unfolding open_registry write_required written rename_with_retry rename_from
opened_first = refl

is_enabled-reopened_example :
    (w' : World) × (open_registry io_lost config (Restart.run config calls opened).disk ≡ some w')
    × ((channel : String)
        → is_enabled channel w'.registry
          ≡ is_enabled channel (Restart.run config calls opened).registry)
is_enabled-reopened_example =
    is_enabled-reopened io io_lost config opened calls refl refl opened_first (refl, (tt, (tt, tt)))

abbrev channel_c : String
channel_c = "c"

abbrev channel_d : String
channel_d = "d"

enabled_now : (enable io config "d" "admin" opened).0 ≡ true
unfolding enable commit has set written rename_with_retry rename_from
enabled_now = refl

disabled_now : (disable io config "c" opened).0 ≡ true
unfolding disable commit has delete written rename_with_retry rename_from
disabled_now = refl
