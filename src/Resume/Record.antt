-- ===== src/Resume/Record.antt =====
-- core/reconciliation-engine.ts: `reconcileRecord`.
use discord_copilot_sdk.Base.{
  Bool, false, ◌&&◌, String, Option, none, some, ◌==◌, if◌then◌else◌, string_eq,
}
use discord_copilot_sdk.Leases.{is_active}
use discord_copilot_sdk.Lifecycle.{decline_reason}
use discord_copilot_sdk.Reconcile.{
  ThreadStatus, ReconcileAction, fresh, fail_corrupt, orphan_interrupted, retain, resume, block,
  skip, plan_reconcile,
}
use discord_copilot_sdk.SessionStore.Record.{SessionRecord, active, orphaned, blocked}
use discord_copilot_sdk.SessionStore.Ops.{set_state}
use discord_copilot_sdk.Resume.Host.{
  Host, no_access, unreachable, not_restored, terminalizes, parks, notices, Run, ended, failed, act,
  fenced,
}
use discord_copilot_sdk.Resume.Attempt.{
  Via, startup, access_retry, Answers, terminalize, resume_record,
}

abbrev pub skip_notice : String → Run → Host → Run
skip_notice reason r h =
    act h (notices (if reason == "thread-no-access" then no_access else unreachable)) r

-- A `skip` at the start keeps the record active, with the reason.
abbrev pub parked : SessionRecord → Answers → String → Host → Run
parked rec a reason h =
    let (ok, w) = set_state a.io rec.thread_id active (some reason) h.store in
    let h' = record h { store = w } in
    act h (parks reason) (if ok then skip_notice reason (ended h') h' else failed h')

abbrev pub orphan : SessionRecord → Answers → Host → Run
orphan rec a h =
    let (ok, w) = set_state a.io rec.thread_id orphaned (some "interrupted-create") h.store in
    let h' = record h { store = w } in
    act h (terminalizes orphaned "interrupted-create") (if ok then ended h' else failed h')

abbrev pub carry_out : SessionRecord → Via → Answers → ReconcileAction → Host → Run
carry_out rec via a fresh h = ended h
carry_out rec via a fail_corrupt h = ended h
carry_out rec via a retain h = ended h
carry_out rec via a orphan_interrupted h = orphan rec a h
carry_out rec startup a (skip reason) h = parked rec a reason h
carry_out rec access_retry a (skip reason) h = ended h
carry_out rec via a (block reason) h = terminalize rec a.io blocked reason not_restored h
carry_out rec via a resume h = resume_record rec via a h

-- What is known of the record and its thread: only an active record is asked about, and its thread
-- only when its binding is proven.
abbrev pub classified :
    SessionRecord → Bool → (Host → Host × ThreadStatus) → Host → Host × Option ThreadStatus
classified rec binding_ok classify h =
    if is_active rec.state && binding_ok
    then (let (h', status) = classify h in (h', some status))
    else (h, none)

unfoldable pub reconcile_record :
    SessionRecord → Via → Bool → (Host → Host × ThreadStatus) → Answers → Host → Run
reconcile_record rec via binding_ok classify a h =
    let (h', status) = classified rec binding_ok classify h in
    fenced (decline_reason rec.thread_id h'.ownership) (ended h') (
      carry_out rec via a
        (plan_reconcile false (some rec.state)
          (if is_active rec.state then some binding_ok else none) status)
        h')
