-- ===== src/Leases.antt =====
-- app.ts: the leases of checkouts in local mode, and their pre-scan in `reconcileStartup` of
-- core/reconciliation-engine.ts.
pub mod Scan
mod Tests
use discord_copilot_sdk.Base.{
  Bool, true, false, ◌&&◌, not, String, List, [], ◌∷◌, Option, none, some, ◌==◌, if◌then◌else◌,
  string_eq,
}
use discord_copilot_sdk.Dict.{Dict, get, set}
use discord_copilot_sdk.Disk.{Io}
use discord_copilot_sdk.SessionStore.Record.{
  SessionRecord, SessionState, active, blocked, DevMode, local, worktree,
}
use discord_copilot_sdk.SessionStore.State.{World}
use discord_copilot_sdk.SessionStore.Ops.{set_state}

-- The keys are canonical paths, in lower case on Windows.
abbrev pub Leases : Type 0
Leases = Dict String String

abbrev holds_not : String → Option String → Bool
holds_not thread none = false
holds_not thread (some holder) = not (holder == thread)

unfoldable pub acquire_local_lease : String → String → Leases → Bool × Leases
acquire_local_lease key thread m =
    if holds_not thread (get key m) then (false, m) else (true, set key thread m)

unfoldable pub release_local_lease : String → Leases → Leases
release_local_lease thread [] = []
release_local_lease thread ((key, holder) ∷ m) =
    if holder == thread
    then release_local_lease thread m
    else (key, holder) ∷ release_local_lease thread m

abbrev pub is_local : DevMode → Bool
is_local local = true
is_local worktree = false

abbrev pub is_active : SessionState → Bool
is_active active = true
is_active _ = false

-- The record is in local mode, active, and its binding is proven.
abbrev pub claims_checkout : (SessionRecord → Bool) → SessionRecord → Bool
claims_checkout binding_ok r = is_local r.dev_mode && (is_active r.state && binding_ok r)

module _ (lease_key : String → String) (binding_ok : SessionRecord → Bool) where
  -- The body of the loop; `none` is the failure that stops the start.
  unfoldable pub scan_record : Io → SessionRecord → Leases × World → Option (Leases × World)
  scan_record io r (m, w) =
      let (ok, m') = acquire_local_lease (lease_key r.repo_path) r.thread_id m in
      let (kept, w') = set_state io r.thread_id blocked (some "local-conflict") w in
      if not (claims_checkout binding_ok r)
      then some (m, w)
      else if ok
      then some (m', w)
      else if kept
      then some (m, w')
      else none

  -- The loop over the records of the store; each write has its answers of the file system.
  unfoldable pub scan : List (Io × SessionRecord) → Leases × World → Option (Leases × World)
  scan [] s = some s
  scan ((io, r) ∷ rs) s = elim (scan_record io r s) [ none ↦ none | some s' ↦ scan rs s' ]
