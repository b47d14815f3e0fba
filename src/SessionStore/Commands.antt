-- ===== src/SessionStore/Commands.antt =====
-- The calls of a store as data, so that histories of calls can be spoken of.
use discord_copilot_sdk.Base.{ℤ, String, Option, ◌≡◌, true, ◌≤ℤ◌, Bool}
use discord_copilot_sdk.Disk.{Io}
use discord_copilot_sdk.SessionStore.Record.{
  SessionState, SessionRecord, SessionBinding, SessionIdentity, is_file_delivery_bytes,
}
use discord_copilot_sdk.SessionStore.State.{World}
use discord_copilot_sdk.SessionStore.Ops.{
  retain_stale_rebind, remove_stale_rebind, reserve, commit, set_state, reserve_file_delivery_bytes,
  remove, remove_if_current, clear, restore,
}
use discord_copilot_sdk.SessionStore.Fallback.{
  restore_if_current, FallbackPrimaryAction, restoring, removing, reconcile_fallback_primary,
}

pub data Command : Type 0 where
  retains_stale : SessionRecord → String → Command
  removes_stale : SessionIdentity → Command
  reserves : SessionBinding → Command
  commits : String → Command
  sets_state : String → SessionState → Option String → Command
  reserves_bytes : String → String → ℤ → ℤ → ℤ → Command
  removes : String → Command
  removes_if_current : String → String → ℤ → Command
  clears : Command
  restores : SessionRecord → Command
  restores_if_current : SessionRecord → String → ℤ → Command
  reconciles : SessionIdentity → FallbackPrimaryAction → Command

-- What a call returns (of a conditional restore its `ok`), and the world after it.
unfoldable pub perform : Io → Command → World → Bool × World
perform io (retains_stale r reason) w = retain_stale_rebind io r reason w
perform io (removes_stale key) w = remove_stale_rebind io key w
perform io (reserves b) w = reserve io b w
perform io (commits t) w = commit io t w
perform io (sets_state t state reason) w = set_state io t state reason w
perform io (reserves_bytes t sid g expected next) w =
    reserve_file_delivery_bytes io t sid g expected next w
perform io (removes t) w = remove io t w
perform io (removes_if_current t sid g) w = remove_if_current io t sid g w
perform io clears w = clear io w
perform io (restores r) w = restore io r w
perform io (restores_if_current r sid g) w =
    let done = restore_if_current io r sid g w in (done.0.ok, done.1)
perform io (reconciles target action) w =
    let done = reconcile_fallback_primary io target action w in (done.0.ok, done.1)

unfoldable pub step : Io → Command → World → World
unfolding perform
step io c w = (perform io c w).1

abbrev pub IsAdmissibleAction : FallbackPrimaryAction → World → Type 0
IsAdmissibleAction (restoring r ids) w = r.generation ≤ℤ w.store.high_water
IsAdmissibleAction (removing ids) w = Unit

-- What the callers owe: a record to restore has a total that was reserved, and a fallback restores
-- an incarnation that the store has numbered.
abbrev pub IsAdmissible : Command → World → Type 0
IsAdmissible (restores r) w = is_file_delivery_bytes r.file_delivery_bytes ≡ true
IsAdmissible (restores_if_current r sid g) w = is_file_delivery_bytes r.file_delivery_bytes ≡ true
IsAdmissible (reconciles target action) w = IsAdmissibleAction action w
IsAdmissible _ w = Unit

-- The worlds that calls lead to, whatever the file system answers.
pub data Reach (start : World) : World → Type 0 where
  here : Reach start start
  call :
      {w : World}
      → Reach start w
      → (io : Io) (c : Command) → IsAdmissible c w
      → Reach start (step io c w)
