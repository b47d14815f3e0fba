-- ===== src/Leases/Tests.antt =====
-- The theorem on leases at concrete records.
use discord_copilot_sdk.Base.{pos, true, String, List, [], ◌∷◌, none, some, ◌≡◌, refl}
use mathlib.Core.List.{Memᴰ}
use discord_copilot_sdk.Dict.{get, set}
use discord_copilot_sdk.Disk.{Io, renamed}
use discord_copilot_sdk.Json.{missing}
use discord_copilot_sdk.SessionStore.Record.{SessionRecord, active, local}
use discord_copilot_sdk.SessionStore.State.{World, empty_store}
use discord_copilot_sdk.Leases.{Leases, acquire_local_lease, scan_record, scan}
use discord_copilot_sdk.Leases.Scan.{scan-exclusive}

abbrev pub works : Io
works = record { now = pos 5; mkdir_ok = true; temp_ok = true; rename = λ i. renamed }

abbrev pub local_record : String → String → SessionRecord
local_record thread repo = record {
  schema_version = pos 5;
  thread_id = thread;
  session_id = "s";
  generation = pos 1;
  repo_path = repo;
  guild_id = "g";
  parent_channel_id = "c";
  work_dir = repo;
  dev_mode = local;
  file_delivery_bytes = pos 0;
  branch = none;
  state = active;
  reason = none;
  updated_at = pos 0;
}

abbrev before : Leases × World
before = ([], record { store = empty_store; disk = missing })

abbrev one_record : List (Io × SessionRecord)
one_record = (works, local_record "t" "/r") ∷ []

abbrev after : Leases × World
after = (("/r", "t") ∷ [], record { store = empty_store; disk = missing })

scanned : scan (λ p. p) (λ r. true) one_record before ≡ some after
unfolding scan scan_record acquire_local_lease get set
scanned = refl

scan-exclusive_example : ◌≡◌ {A = String} "t" "t"
unfolding get
scan-exclusive_example =
    scan-exclusive (λ p. p) (λ r. true) one_record before after (works, local_record "t" "/r")
      (works, local_record "t" "/r") scanned (Memᴰ.head refl) (Memᴰ.head refl) (refl, refl) refl
      (refl, refl)
