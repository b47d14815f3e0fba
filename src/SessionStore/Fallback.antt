-- ===== src/SessionStore/Fallback.antt =====
-- core/session-store.ts: the conditional restores that undo a rebind.
use discord_copilot_sdk.Base.{
  ℤ, pos, Bool, true, false, ◌&&◌, not, String, List, [], ◌∷◌, Option, none, some, ◌==◌, max_ℤ,
  if◌then◌else◌, int_eq, string_eq, every,
}
use discord_copilot_sdk.Dict.{Dict, get, set, delete}
use discord_copilot_sdk.Disk.{Io}
use discord_copilot_sdk.SessionStore.Record.{
  SessionState, creating, SessionRecord, SessionIdentity, identity_eq, identity_of,
  is_file_delivery_bytes, is_session_identity,
}
use discord_copilot_sdk.SessionStore.State.{World, mutate}
use discord_copilot_sdk.SessionStore.Ops.{is_current, bytes_of, restored}

pub record ConditionalRestoreResult : Type 0 where
  pub ok : Bool
  pub quota_advanced : Bool

abbrev pub refused : ConditionalRestoreResult
refused = record { ok = false; quota_advanced = false }

unfoldable pub restore_if_current :
    Io → SessionRecord → String → ℤ → World → ConditionalRestoreResult × World
restore_if_current io r sid g w =
    let current = get r.thread_id w.store.sessions in
    let bytes = max_ℤ r.file_delivery_bytes (bytes_of current) in
    let done =
      mutate io
        (λ d. record d {
          sessions = set r.thread_id (restored io.now r bytes) d.sessions;
          high_water = max_ℤ d.high_water r.generation;
        })
        w in
    if is_current current sid g
    then (record { ok = done.0; quota_advanced = not (bytes == r.file_delivery_bytes) }, done.1)
    else (refused, w)

pub data FallbackPrimaryAction : Type 0 where
  restoring : SessionRecord → List SessionIdentity → FallbackPrimaryAction
  removing : List SessionIdentity → FallbackPrimaryAction

abbrev pub paired_stale : FallbackPrimaryAction → List SessionIdentity
paired_stale (restoring r ids) = ids
paired_stale (removing ids) = ids

abbrev pub is_creating : SessionState → Bool
is_creating creating = true
is_creating _ = false

abbrev pub is_reserved : Option SessionRecord → Bool
is_reserved none = false
is_reserved (some r) = is_creating r.state

abbrev pub is_restorable : FallbackPrimaryAction → String → Bool
is_restorable (removing ids) t = true
is_restorable (restoring r ids) t =
    is_session_identity (identity_of r)
    && (r.thread_id == t && is_file_delivery_bytes r.file_delivery_bytes)

unfoldable pub can_reconcile : SessionIdentity → FallbackPrimaryAction → Option SessionRecord → Bool
can_reconcile target action current =
    is_session_identity target
    && (every (λ id. is_session_identity id && id.thread_id == target.thread_id)
          (paired_stale action)
        && (is_current current target.session_id target.generation
            && (is_reserved current && is_restorable action target.thread_id)))

unfoldable pub delete_all {ℓ} :
    {V : Type ℓ} → List SessionIdentity → Dict SessionIdentity V → Dict SessionIdentity V
delete_all [] m = m
delete_all (id ∷ ids) m = delete_all ids (delete id m)

-- The reserved total that a restore of the original record writes.
abbrev pub fallback_bytes : FallbackPrimaryAction → Option SessionRecord → ℤ
fallback_bytes (restoring r ids) current = max_ℤ r.file_delivery_bytes (bytes_of current)
fallback_bytes (removing ids) current = pos 0

abbrev pub fallback_advanced : FallbackPrimaryAction → Option SessionRecord → Bool
fallback_advanced (restoring r ids) current =
    not (max_ℤ r.file_delivery_bytes (bytes_of current) == r.file_delivery_bytes)
fallback_advanced (removing ids) current = false

abbrev pub fallback_sessions :
    ℤ → String → FallbackPrimaryAction → ℤ → Dict String SessionRecord → Dict String SessionRecord
fallback_sessions now t (restoring r ids) bytes m = set t (restored now r bytes) m
fallback_sessions now t (removing ids) bytes m = delete t m

unfoldable pub reconcile_fallback_primary :
    Io → SessionIdentity → FallbackPrimaryAction → World → ConditionalRestoreResult × World
reconcile_fallback_primary io target action w =
    let current = get target.thread_id w.store.sessions in
    let done =
      mutate io
        (λ d. record d {
          sessions =
              fallback_sessions io.now target.thread_id action (fallback_bytes action current)
                d.sessions;
          stale = delete_all (paired_stale action) d.stale;
        })
        w in
    if can_reconcile target action current
    then (
      record { ok = done.0; quota_advanced = done.0 && fallback_advanced action current },
      done.1,
    )
    else (refused, w)
