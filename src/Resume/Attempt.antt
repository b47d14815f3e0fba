-- ===== src/Resume/Attempt.antt =====
-- core/reconciliation-engine.ts: `resumeRecord` and `discardResumedActor`, and `reconcileRecord`.
use discord_copilot_sdk.Base.{
  ℕ, ◌+◌, Bool, true, false, ◌&&◌, not, String, ◌∷◌, ◌++◌, Option, none, some, ◌==◌, if◌then◌else◌,
  string_eq,
}
use discord_copilot_sdk.Access.{contains}
use discord_copilot_sdk.Dict.{has, set}
use discord_copilot_sdk.Disk.{Io}
use discord_copilot_sdk.Leases.{release_local_lease}
use discord_copilot_sdk.Lifecycle.{
  Key, runtime, superseded, key_eq, retain, begin_attempt, end_attempt,
}
use discord_copilot_sdk.SessionStore.Record.{
  SessionRecord, SessionState, orphaned, blocked, DevMode, local, worktree,
}
use discord_copilot_sdk.SessionStore.Ops.{commit, set_state}
use discord_copilot_sdk.Resume.Host.{
  Host, resume_ownership_lost, Notice, no_checkout, binding_refused, session_lost,
  transient_failure, recovered, rebuilds, undoes, captures, opens, closes, hands, creates, discards,
  retains, commits, registers, terminalizes, frees, notices, Run, ended, failed, act, fenced,
}

pub data Via : Type 0 where
  startup access_retry : Via

-- `captureValidatedRoot`: an exception, a verdict with its text `binding-…`, or a root.
pub data Capture : Type 0 where
  capture_threw : Capture
  refused : String → Capture
  captured : Option ℕ → Capture

-- `resumeActor`: an exception, with whether `classifyResumeError` says that the session is lost, or
-- a runtime.
pub data Creation : Type 0 where
  creation_threw : Bool → Creation
  created : ℕ → Creation

-- What the awaits answer, each with the host as others left it, and what the file system answers to
-- `existsSync` and to the one write.
pub record Answers : Type 0 where
  pub work_dir_exists : Bool
  pub rebuild : Host → Host × Bool
  pub undo : Host → Host
  pub capture : Host → Host × Capture
  pub close : Host → Host
  pub create : Host → Host × Creation
  pub disconnect : Host → Host × Bool
  pub io : Io

-- A required transition to a terminal state, the lease given up, and the notice.
abbrev pub terminalized : SessionRecord → Notice → Bool → Host → Run
terminalized rec notice false h = failed h
terminalized rec notice true h =
    let free = record h { leases = release_local_lease rec.thread_id h.leases } in
    act h frees (act free (notices notice) (ended free))

unfoldable pub terminalize : SessionRecord → Io → SessionState → String → Notice → Host → Run
terminalize rec io state reason notice h =
    let (ok, w) = set_state io rec.thread_id state (some reason) h.store in
    act h (terminalizes state reason) (terminalized rec notice ok (record h { store = w }))

unfoldable pub notice_transient_resume_failure : String → Via → Host → Run
notice_transient_resume_failure thread startup h = act h (notices transient_failure) (ended h)
notice_transient_resume_failure thread access_retry h =
    if contains thread h.noticed
    then ended h
    else act h (notices transient_failure) (ended (record h { noticed = thread ∷ h.noticed }))

-- The key that a discarded runtime is retained under, and the host that has given it.
abbrev pub own_key : String → Bool → Host → Key × Host
own_key thread false h = (runtime thread, h)
own_key thread true h =
    (superseded thread (h.superseded_seq + 1), record h { superseded_seq = h.superseded_seq + 1 })

-- The runtime is retained and the first attempt to disconnect it starts, with no await between.
abbrev pub retained_runtime : ℕ → Key × Host → Answers → Run
retained_runtime rt (key, h) a =
    let (handle, o) = retain key h.ownership in
    let h' = record h { ownership = begin_attempt handle o } in
    let (h'', ok) = a.disconnect h' in
    act h' (retains rt handle)
      (ended (record h'' { ownership = end_attempt handle ok h''.ownership }))

unfoldable pub discard_resumed_actor : SessionRecord → ℕ → Answers → Host → Run
discard_resumed_actor rec rt a h = act h (discards rt) (
    retained_runtime rt
      (own_key rec.thread_id (has (runtime rec.thread_id) h.ownership.obligations) h) a)

abbrev pub then_run : Run → (Host → Run) → Run
then_run r f = let next = f r.host in record next { log = r.log ++ next.log }

-- `commit` and what follows it without an await.
abbrev pub committed : SessionRecord → Via → Answers → ℕ → Bool → Host → Run
committed rec via a rt false h =
    then_run (discard_resumed_actor rec rt a h) (notice_transient_resume_failure rec.thread_id via)
committed rec via a rt true h =
    let live = record h { sessions = set rec.thread_id rt h.sessions } in
    act h (registers rt) (act live (notices recovered) (ended live))

abbrev pub creation_at : SessionRecord → Via → Answers → Creation → Host → Run
creation_at rec via a (creation_threw lost) h = fenced (resume_ownership_lost rec h) (ended h) (
    if lost
    then terminalize rec a.io orphaned "session-lost" session_lost h
    else notice_transient_resume_failure rec.thread_id via h)
creation_at rec via a (created rt) h = act h (creates rt) (
    fenced (resume_ownership_lost rec h) (discard_resumed_actor rec rt a h) (
      let (ok, w) = commit a.io rec.thread_id h.store in
      act h commits (committed rec via a rt ok (record h { store = w }))))

abbrev pub closed_root : Option ℕ → Answers → Host → Run
closed_root none a h = ended h
closed_root (some root) a h = act h (closes root) (ended (a.close h))

abbrev pub captured_at : SessionRecord → Via → Answers → Capture → Host → Run
captured_at rec via a capture_threw h =
    fenced (resume_ownership_lost rec h) (ended h)
      (notice_transient_resume_failure rec.thread_id via h)
captured_at rec via a (refused problem) h =
    fenced (resume_ownership_lost rec h) (ended h)
      (terminalize rec a.io blocked problem binding_refused h)
captured_at rec via a (captured root) h = act h (opens root) (
    fenced (resume_ownership_lost rec h) (closed_root root a h)
      (let (h', c) = a.create h in act h (hands root) (creation_at rec via a c h')))

unfoldable pub capture_stage : SessionRecord → Via → Answers → Host → Run
capture_stage rec via a h =
    fenced (resume_ownership_lost rec h) (ended h)
      (let (h', c) = a.capture h in act h captures (captured_at rec via a c h'))

abbrev pub rebuilt_at : SessionRecord → Via → Answers → Bool → Host → Run
rebuilt_at rec via a false h =
    fenced (resume_ownership_lost rec h) (ended h)
      (terminalize rec a.io blocked "worktree-missing" no_checkout h)
rebuilt_at rec via a true h =
    fenced (resume_ownership_lost rec h) (act h undoes (ended (a.undo h)))
      (capture_stage rec via a h)

abbrev pub has_branch : Option String → Bool
has_branch none = false
has_branch (some b) = not (b == "")

abbrev pub is_worktree : DevMode → Bool
is_worktree worktree = true
is_worktree local = false

unfoldable pub resume_record : SessionRecord → Via → Answers → Host → Run
resume_record rec via a h = fenced (resume_ownership_lost rec h) (ended h) (
    if is_worktree rec.dev_mode && (has_branch rec.branch && not a.work_dir_exists)
    then (let (h', ok) = a.rebuild h in act h rebuilds (rebuilt_at rec via a ok h'))
    else capture_stage rec via a h)
