-- ===== src/Reconcile/Laws.antt =====
-- Which records a restart resumes, blocks, or leaves as they are.
use Prim.Native.String.{String}
use discord_copilot_sdk.Base.{
  Bool, true, false, Option, none, some, ◌≡◌, refl, ◌↔◌, ◌≢◌, ◌⊎◌, inl, inr, arith,
}
use discord_copilot_sdk.SessionStore.Record.{SessionState, creating, active, orphaned, blocked}
use discord_copilot_sdk.Reconcile.{
  ThreadStatus, valid, gone, inaccessible, archived_unarchivable, resume, block, reapable,
  classify_record_disposition, plan_reconcile,
}

-- A record is resumed exactly when the file is readable, the record is active, its binding was not
-- refused, and its thread is valid.
pub plan_reconcile-resume_iff :
    (corrupt : Bool) (state : Option SessionState) (ok : Option Bool) (status : Option ThreadStatus)
    → (plan_reconcile corrupt state ok status ≡ resume)
      ↔ ((corrupt ≡ false) × (state ≡ some active) × (ok ≢ some false) × (status ≡ some valid))
unfolding plan_reconcile
plan_reconcile-resume_iff corrupt state ok status = ground arith

-- The thread's state is known, and rules a resume out for good.
abbrev pub IsDefinitive : ThreadStatus → Type 0
IsDefinitive gone = Unit
IsDefinitive inaccessible = Unit
IsDefinitive archived_unarchivable = Unit
IsDefinitive _ = ⊥

-- A record is blocked only if it was active and its binding was refused or its thread is gone,
-- structurally wrong or cannot be unarchived: never on a transient failure, on missing access or on
-- a status that is not known.
pub plan_reconcile-block :
    (corrupt : Bool) (state : Option SessionState) (ok : Option Bool) (status : Option ThreadStatus)
    (reason : String)
    → plan_reconcile corrupt state ok status ≡ block reason
    → (state ≡ some active)
      × ((ok ≡ some false) ⊎ ((s : ThreadStatus) × (status ≡ some s) × IsDefinitive s))
unfolding plan_reconcile
plan_reconcile-block true state ok status reason h = cc
plan_reconcile-block false none ok status reason h = cc
plan_reconcile-block false (some creating) ok status reason h = cc
plan_reconcile-block false (some orphaned) ok status reason h = cc
plan_reconcile-block false (some blocked) ok status reason h = cc
plan_reconcile-block false (some active) (some false) status reason h = (refl, inl refl)
plan_reconcile-block false (some active) ok (some gone) reason h = (refl, inr (gone, refl, tt))
plan_reconcile-block false (some active) ok (some inaccessible) reason h =
    (refl, inr (inaccessible, refl, tt))
plan_reconcile-block false (some active) ok (some archived_unarchivable) reason h =
    (refl, inr (archived_unarchivable, refl, tt))
plan_reconcile-block false (some active) ok status reason h = absurd (ground arith)

-- Only what is not live, not waiting for a retry and not being created may be reaped: a terminal
-- record, or one whose creation nobody is running.
pub classify_record_disposition-reapable_iff :
    (state : SessionState) (is_live new_in_flight : Bool)
    → (classify_record_disposition state is_live new_in_flight ≡ reapable) ↔ (
        (is_live ≡ false)
        × ((state ≡ orphaned)
            ⊎ ((state ≡ blocked) ⊎ ((state ≡ creating) × (new_in_flight ≡ false)))))
unfolding classify_record_disposition
classify_record_disposition-reapable_iff state is_live new_in_flight = ground arith
