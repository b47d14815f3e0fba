-- ===== src/Resume/Host.antt =====
-- core/reconciliation-engine.ts: what the engine and the app keep, and whether an attempt still
-- speaks for its thread.
use discord_copilot_sdk.Base.{
  ℕ, Bool, true, false, not, String, List, [], ◌∷◌, Option, none, some, if◌then◌else◌, string_eq,
  int_eq,
}
use discord_copilot_sdk.Dict.{Dict, get, has}
use discord_copilot_sdk.Leases.{Leases, is_active}
use discord_copilot_sdk.Lifecycle.{
  ObligationHandle, Ownership, Refusal, decline_reason, runtime, key_eq,
}
use discord_copilot_sdk.SessionStore.Record.{SessionRecord, SessionState}
use discord_copilot_sdk.SessionStore.State.{World}
use discord_copilot_sdk.SessionStore.Ops.{is_current}

-- A live session is its runtime's number. `superseded_seq` is `supersededResumeSeq`, and `noticed`
-- is `accessRetryNoticed`.
pub record Host : Type 0 where
  pub shutting_down : Bool
  pub ownership : Ownership
  pub store : World
  pub sessions : Dict String ℕ
  pub leases : Leases
  pub superseded_seq : ℕ
  pub noticed : List String

-- Why an attempt has lost its thread.
pub data Loss : Type 0 where
  stopping : Loss
  scope_lost : Refusal → Loss
  unconfirmed_runtime : Loss
  other_session : Loss
  record_removed : Loss
  record_is : SessionState → Loss
  record_moved : Loss

abbrev pub record_loss : SessionRecord → Option SessionRecord → Option Loss
record_loss rec none = some record_removed
record_loss rec (some now) =
    if not (is_active now.state)
    then some (record_is now.state)
    else if is_current (some now) rec.session_id rec.generation
    then none
    else some record_moved

abbrev pub scope_loss : Option Refusal → Option Loss → Option Loss
scope_loss (some reason) rest = some (scope_lost reason)
scope_loss none rest = rest

-- In an attempt under a scope of its thread.
unfoldable pub resume_ownership_lost : SessionRecord → Host → Option Loss
resume_ownership_lost rec h =
    if h.shutting_down
    then some stopping
    else scope_loss (decline_reason rec.thread_id h.ownership) (
        if has (runtime rec.thread_id) h.ownership.obligations
        then some unconfirmed_runtime
        else if has rec.thread_id h.sessions
        then some other_session
        else record_loss rec (get rec.thread_id h.store.store.sessions))

pub data Notice : Type 0 where
  no_access unreachable not_restored no_checkout binding_refused session_lost transient_failure
        recovered :
      Notice

-- What an attempt does. A captured root is a number, where there is one; `none` where the platform
-- has none.
pub data Act : Type 0 where
  rebuilds undoes captures : Act
  opens : Option ℕ → Act
  closes : ℕ → Act
  hands : Option ℕ → Act
  creates : ℕ → Act
  discards : ℕ → Act
  retains : ℕ → ObligationHandle → Act
  commits : Act
  registers : ℕ → Act
  terminalizes : SessionState → String → Act
  parks : String → Act
  frees : Act
  notices : Notice → Act

-- The acts in order, each with the host as it stood, the host in the end, and whether the attempt
-- ended with a `FatalReconcileError`.
pub record Run : Type 0 where
  pub log : List (Host × Act)
  pub host : Host
  pub fatal : Bool

abbrev pub ended : Host → Run
ended h = record { log = []; host = h; fatal = false }

abbrev pub failed : Host → Run
failed h = record { log = []; host = h; fatal = true }

abbrev pub act : Host → Act → Run → Run
act h a r = record r { log = (h, a) ∷ r.log }

-- The attempt stops where something is lost.
abbrev pub fenced {ℓ} : {A : Type ℓ} → Option A → Run → Run → Run
fenced (some reason) stop go = stop
fenced none stop go = go
