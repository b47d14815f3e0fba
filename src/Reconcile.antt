-- ===== src/Reconcile.antt =====
-- core/reconcile.ts: what a restart does with a record, and what may be done with a record that has
-- no live session.
pub mod Laws
use discord_copilot_sdk.Base.{Bool, true, false, String, Option, none, some, if◌then◌else◌}
use discord_copilot_sdk.SessionStore.Record.{SessionState, creating, active, orphaned, blocked}

pub data ThreadStatus : Type 0 where
  valid gone no_access inaccessible archived_unarchivable transient : ThreadStatus

pub data ReconcileAction : Type 0 where
  fresh fail_corrupt orphan_interrupted retain resume : ReconcileAction
  block skip : String → ReconcileAction

pub data RecordDisposition : Type 0 where
  live in_flight retry_pending reapable : RecordDisposition

-- By the state, for a record that is not live.
abbrev dormant : SessionState → Bool → RecordDisposition
dormant creating new_in_flight = if new_in_flight then in_flight else reapable
dormant active new_in_flight = retry_pending
dormant _ new_in_flight = reapable

unfoldable pub classify_record_disposition : SessionState → Bool → Bool → RecordDisposition
classify_record_disposition state is_live new_in_flight =
    if is_live then live else dormant state new_in_flight

abbrev by_thread : Option ThreadStatus → ReconcileAction
by_thread (some valid) = resume
by_thread (some gone) = block "thread-gone"
by_thread (some no_access) = skip "thread-no-access"
by_thread (some inaccessible) = block "thread-inaccessible"
by_thread (some archived_unarchivable) = block "thread-archived"
by_thread (some transient) = skip "transient-thread-fetch"
by_thread none = skip "unknown-thread-status"

-- `bindingOk === false`
abbrev is_false : Option Bool → Bool
is_false (some false) = true
is_false _ = false

abbrev by_state : SessionState → Option Bool → Option ThreadStatus → ReconcileAction
by_state creating binding_ok thread_status = orphan_interrupted
by_state orphaned binding_ok thread_status = retain
by_state blocked binding_ok thread_status = retain
by_state active binding_ok thread_status =
    if is_false binding_ok then block "config-mismatch" else by_thread thread_status

unfoldable pub plan_reconcile :
    Bool → Option SessionState → Option Bool → Option ThreadStatus → ReconcileAction
plan_reconcile true state binding_ok thread_status = fail_corrupt
plan_reconcile false none binding_ok thread_status = fresh
plan_reconcile false (some state) binding_ok thread_status = by_state state binding_ok thread_status
