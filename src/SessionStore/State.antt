-- ===== src/SessionStore/State.antt =====
-- core/session-store.ts: the state of `SessionStore`, its constructor, and `mutate`, through which
-- every method changes it.
use discord_copilot_sdk.Base.{
  ℤ, pos, Bool, true, false, String, [], Option, none, some, map, if◌then◌else◌, int_eq, string_eq,
}
use discord_copilot_sdk.Dict.{index_from, Dict, values}
use discord_copilot_sdk.Json.{Content, missing, unreadable, malformed, parsed}
use discord_copilot_sdk.Disk.{Io, write}
use discord_copilot_sdk.SessionStore.Record.{
  SessionRecord, SessionIdentity, identity_eq, identity_of, canonicalize_record, schema_version_now,
}
use discord_copilot_sdk.SessionStore.File.{StoreFile, Loaded, render, read_records}

pub record Store : Type 0 where
  pub sessions : Dict String SessionRecord
  pub stale : Dict SessionIdentity SessionRecord
  pub high_water : ℤ
  pub corrupt : Bool

-- The store in memory, and its file.
pub record World : Type 0 where
  pub store : Store
  pub disk : Content

abbrev pub empty_store : Store
empty_store = record { sessions = []; stale = []; high_water = pos 0; corrupt = false }

abbrev pub corrupt_store : Store
corrupt_store = record empty_store { corrupt = true }

unfoldable pub adopt : Option Loaded → Store
adopt none = corrupt_store
adopt (some l) = record {
  sessions = index_from (λ r. r.thread_id) [] l.sessions;
  stale = index_from identity_of [] l.stale_rebinds;
  high_water = l.high_water;
  corrupt = false;
}

unfoldable pub load : Content → Store
load missing = empty_store
load unreadable = corrupt_store
load malformed = corrupt_store
load (parsed v) = adopt (read_records v)

-- The constructor.
abbrev pub open_store : Content → World
open_store disk = record { store = load disk; disk = disk }

-- What a method asks of `mutate`: the two maps and the high-water mark to write.
pub record Draft : Type 0 where
  pub sessions : Dict String SessionRecord
  pub stale : Dict SessionIdentity SessionRecord
  pub high_water : ℤ

abbrev pub draft_of : Store → Draft
draft_of s = record { sessions = s.sessions; stale = s.stale; high_water = s.high_water }

unfoldable pub candidate : ℤ → Draft → StoreFile
candidate now d = record {
  schema_version = schema_version_now;
  generation_high_water = d.high_water;
  sessions = map (canonicalize_record now) (values d.sessions);
  stale_rebinds = map (canonicalize_record now) (values d.stale);
}

-- Persist first: memory changes only after the write has succeeded.
unfoldable pub mutate : Io → (Draft → Draft) → World → Bool × World
mutate io f w =
    let d = f (draft_of w.store) in
    let (ok, disk') = write io (render (candidate io.now d)) w.disk in
    if ok
    then (
      true,
      record {
        store = record {
          sessions = d.sessions;
          stale = d.stale;
          high_water = d.high_water;
          corrupt = false;
        };
        disk = disk';
      },
    )
    else (false, w)
