-- ===== src/Resume/Tests.antt =====
-- The theorems on an attempt at concrete replies.
use discord_copilot_sdk.Base.{pos, true, false, [], ◌∷◌, none, some, ◌≡◌, All}
use discord_copilot_sdk.Disk.{renamed}
use discord_copilot_sdk.Json.{missing}
use discord_copilot_sdk.Lifecycle.{created}
use discord_copilot_sdk.Reconcile.{valid}
use discord_copilot_sdk.SessionStore.Record.{SessionRecord, active, local}
use discord_copilot_sdk.SessionStore.State.{empty_store}
use discord_copilot_sdk.Resume.Host.{Host}
use discord_copilot_sdk.Resume.Attempt
use discord_copilot_sdk.Resume.Attempt.{Answers, captured, startup, access_retry, resume_record}
use discord_copilot_sdk.Resume.Record.{reconcile_record}
use discord_copilot_sdk.Resume.Custody.{held_after, nothing_held}
use discord_copilot_sdk.Resume.Answered.{IsAnswered, reconcile_record-IsAnswered}
use discord_copilot_sdk.Resume.Fences.{IsLicensed, resume_record-Licensed}

abbrev rec : SessionRecord
rec = record {
  schema_version = pos 5;
  thread_id = "t";
  session_id = "s";
  generation = pos 1;
  repo_path = "/r";
  guild_id = "g";
  parent_channel_id = "c";
  work_dir = "/r";
  dev_mode = local;
  file_delivery_bytes = pos 0;
  branch = none;
  state = active;
  reason = some "thread-no-access";
  updated_at = pos 0;
}

abbrev host : Host
host = record {
  shutting_down = false;
  ownership = created;
  store = record { store = record empty_store { sessions = ("t", rec) ∷ [] }; disk = missing };
  sessions = [];
  leases = [];
  superseded_seq = 0;
  noticed = [];
}

-- The thread is claimed by a teardown while the runtime is created.
abbrev replies : Answers
replies = record {
  work_dir_exists = true;
  rebuild = λ h. (h, true);
  undo = λ h. h;
  capture = λ h. (h, captured (some 4));
  close = λ h. h;
  create = λ h. (
    record h { ownership = record h.ownership { teardown_claims = ("t", 1) ∷ [] } },
    Attempt.created 9,
  );
  disconnect = λ h. (h, false);
  io = record { now = pos 5; mkdir_ok = true; temp_ok = true; rename = λ i. renamed };
}

resume_record-Licensed_example :
    All (IsLicensed rec) (resume_record rec access_retry replies host).log
resume_record-Licensed_example = resume_record-Licensed rec access_retry replies host

reconcile_record-IsAnswered_example :
    (held_after
        (reconcile_record rec access_retry true (λ h. (h, valid)) replies host).log
        nothing_held
      ≡ nothing_held)
    × IsAnswered "t" (reconcile_record rec access_retry true (λ h. (h, valid)) replies host).log
reconcile_record-IsAnswered_example =
    reconcile_record-IsAnswered rec access_retry replies true (λ h. (h, valid)) host (λ h v. v)
      (λ h v. v) (λ h v. v) (λ h v. v) tt
