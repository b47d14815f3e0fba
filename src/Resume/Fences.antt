-- ===== src/Resume/Fences.antt =====
-- What an attempt does, it does while it still speaks for its thread.
use discord_copilot_sdk.Base.{
  ℕ, Bool, true, false, Option, none, some, string_eq, int_eq, if◌then◌else◌, ◌≡◌, refl, arith, inl,
  inr, Bool-cases, Option-cases, All, ◌∙◌, ◌&&◌, not, String, ap, sym, ◌⊎◌,
}
use mathlib.Core.Bool.{false≢true}
use mathlib.Core.Path.{subst}
use discord_copilot_sdk.SessionStore.State.{World}
use discord_copilot_sdk.Access.{contains}
use discord_copilot_sdk.Dict.{get, has}
use discord_copilot_sdk.Disk.{Io}
use discord_copilot_sdk.Leases.{is_active}
use discord_copilot_sdk.Lifecycle.{Refusal, runtime, key_eq, decline_reason}
use discord_copilot_sdk.SessionStore.Record.{SessionRecord, SessionState, active, orphaned, blocked}
use discord_copilot_sdk.SessionStore.Ops.{is_current, update_record, commit, set_state}
use discord_copilot_sdk.SessionStore.Reads.{IsUpdated, update_record-cases}
use discord_copilot_sdk.Resume.Host.{
  Host, Loss, stopping, unconfirmed_runtime, other_session, record_loss, scope_loss,
  resume_ownership_lost, Notice, Act, rebuilds, captures, hands, commits, registers, terminalizes,
  frees, Run, act, fenced,
}
use discord_copilot_sdk.Resume.Attempt.{
  Via, startup, access_retry, Capture, capture_threw, refused, captured, Creation, creation_threw,
  created, Answers, terminalized, terminalize, notice_transient_resume_failure,
  discard_resumed_actor, committed, creation_at, closed_root, captured_at, capture_stage,
  rebuilt_at, is_worktree, has_branch, resume_record,
}

-- No one else may act for the thread: the process goes on, no teardown has claimed the thread, no
-- earlier runtime of it is unconfirmed, and it has no live session.
pub record IsAlone (rec : SessionRecord) (h : Host) : Type 0 where
  pub stays : h.shutting_down ≡ false
  pub unclaimed : decline_reason rec.thread_id h.ownership ≡ none
  pub confirmed : has (runtime rec.thread_id) h.ownership.obligations ≡ false
  pub vacant : has rec.thread_id h.sessions ≡ false

-- The durable record of the thread is still the one that the attempt resumes.
abbrev pub IsSame : SessionRecord → Option SessionRecord → Type 0
IsSame rec none = ⊥
IsSame rec (some now) =
    (now.state ≡ active) × (now.session_id ≡ rec.session_id) × (now.generation ≡ rec.generation)

abbrev pub Owns : SessionRecord → Host → Type 0
Owns rec h = IsAlone rec h × IsSame rec (get rec.thread_id h.store.store.sessions)

record_loss-none :
    (rec : SessionRecord) (o : Option SessionRecord) → record_loss rec o ≡ none → IsSame rec o
unfolding is_current
record_loss-none rec none e = cc
record_loss-none rec (some now) e = ground (
  arith,
  string_eq.beq_iff now.session_id rec.session_id,
  int_eq.beq_iff now.generation rec.generation,
)

-- The five questions in their order.
all_none :
    (stops : Bool) (scope : Option Refusal) (retained live : Bool) (rest : Option Loss)
    → (if stops
        then some stopping
        else scope_loss scope (
            if retained
            then some unconfirmed_runtime
            else if live
            then some other_session
            else rest))
      ≡ none
    → (stops ≡ false) × (scope ≡ none) × (retained ≡ false) × (live ≡ false) × (rest ≡ none)
all_none true scope retained live rest e = cc
all_none false (some reason) retained live rest e = cc
all_none false none true live rest e = cc
all_none false none false true rest e = cc
all_none false none false false rest e = (refl, refl, refl, refl, e)

resume_ownership_lost-none :
    (rec : SessionRecord) (h : Host) → resume_ownership_lost rec h ≡ none → Owns rec h
unfolding resume_ownership_lost
resume_ownership_lost-none rec h e =
    let (stays, unclaimed, confirmed, vacant, same) = all_none h.shutting_down _ _ _ _ e in
    (
      record { stays = stays; unclaimed = unclaimed; confirmed = confirmed; vacant = vacant },
      record_loss-none rec _ same,
    )

-- A record that is not active gives its lease up; a session is registered over the record that
-- says that it is active, with no reason, after the write of it has succeeded.
abbrev pub IsRecovered : SessionRecord → Option SessionRecord → Type 0
IsRecovered rec none = ⊥
IsRecovered rec (some now) = IsSame rec (some now) × (now.reason ≡ none)

abbrev pub IsTerminal : Option SessionRecord → Type 0
IsTerminal none = ⊥
IsTerminal (some now) = is_active now.state ≡ false

abbrev pub IsLicensed : SessionRecord → Host × Act → Type 0
IsLicensed rec (h, rebuilds) = Owns rec h
IsLicensed rec (h, captures) = Owns rec h
IsLicensed rec (h, hands root) = Owns rec h
IsLicensed rec (h, commits) = Owns rec h
IsLicensed rec (h, terminalizes state reason) = Owns rec h
IsLicensed rec (h, frees) = IsTerminal (get rec.thread_id h.store.store.sessions)
IsLicensed rec (h, registers rt) =
    IsAlone rec h × IsRecovered rec (get rec.thread_id h.store.store.sessions)
IsLicensed rec _ = Unit

module _ (rec : SessionRecord) where
  abbrev Licensed : Run → Type 0
  Licensed r = All (IsLicensed rec) r.log

  fenced-Licensed :
      (h : Host) (stop go : Run)
      → Licensed stop
      → (Owns rec h → Licensed go)
      → Licensed (fenced (resume_ownership_lost rec h) stop go)
  fenced-Licensed h stop go s g = elim (Option-cases (resume_ownership_lost rec h)) [
    | inl owned ↦ rw owned (g (resume_ownership_lost-none rec h owned))
    | inr (reason, lost) ↦ rw lost s
  ]

  abbrev updated_as : Io → SessionState → Option String → SessionRecord → SessionRecord
  updated_as io state reason r = record r { state = state; reason = reason; updated_at = io.now }

  -- The record of the thread after an update of it.
  reads_own :
      (f : SessionRecord → SessionRecord) (v w : World) (ok : Bool)
      (u : IsUpdated rec.thread_id f v (ok, w))
      → get rec.thread_id w.store.sessions ≡ some (f u.before)
  reads_own f v w ok u =
      u.reads rec.thread_id ∙ rw ((string_eq.beq_iff rec.thread_id rec.thread_id).1 refl) refl

  terminalized-Licensed :
      (f : SessionRecord → SessionRecord) (notice : Notice) (h : Host) (p : Bool × World)
      → ((r : SessionRecord) → is_active (f r).state ≡ false)
      → (p ≡ (false, h.store)) ⊎ IsUpdated rec.thread_id f h.store p
      → Licensed (terminalized rec notice p.0 (record h { store = p.1 }))
  terminalized-Licensed f notice h (false, w) over c = tt
  terminalized-Licensed f notice h (true, w) over (inl e) =
      absurd (false≢true (sym (ap (λ q. q.0) e)))
  terminalized-Licensed f notice h (true, w) over (inr u) =
      (subst IsTerminal (sym (reads_own f h.store w true u)) (over u.before), (tt, tt))

  terminalize-Licensed :
      (io : Io) (state : SessionState) (reason : String) (notice : Notice) (h : Host)
      → is_active state ≡ false
      → Owns rec h
      → Licensed (terminalize rec io state reason notice h)
  unfolding terminalize set_state
  terminalize-Licensed io state reason notice h over owns =
      let f = updated_as io state (some reason) in
      (
        owns,
        terminalized-Licensed f notice h (update_record io rec.thread_id f h.store) (λ r. over)
            (update_record-cases io rec.thread_id f h.store),
      )

  notice-Licensed :
      (via : Via) (h : Host) → Licensed (notice_transient_resume_failure rec.thread_id via h)
  unfolding notice_transient_resume_failure
  notice-Licensed startup h = (tt, tt)
  notice-Licensed access_retry h = elim (Bool-cases (contains rec.thread_id h.noticed)) [
    | inl told ↦ rw told tt
    | inr first ↦ rw first (tt, tt)
  ]

  module _ (via : Via) (a : Answers) where
    committed-Licensed :
        (rt : ℕ) (h : Host) (p : Bool × World)
        → Owns rec h
        → (p ≡ (false, h.store)) ⊎ IsUpdated rec.thread_id (updated_as a.io active none) h.store p
        → Licensed (committed rec via a rt p.0 (record h { store = p.1 }))
    unfolding discard_resumed_actor
    committed-Licensed rt h (false, w) owns c = (tt, (tt, notice-Licensed via _))
    committed-Licensed rt h (true, w) owns (inl e) = absurd (false≢true (sym (ap (λ q. q.0) e)))
    committed-Licensed rt h (true, w) (alone, same) (inr u) =
        let f = updated_as a.io active none in
        (
          (
            record {
              stays = alone.stays;
              unclaimed = alone.unclaimed;
              confirmed = alone.confirmed;
              vacant = alone.vacant;
            },
            subst (IsRecovered rec) (sym (reads_own f h.store w true u)) (
                let before = subst (IsSame rec) u.there same in ((refl, before.1, before.2), refl)),
          ),
          (tt, tt),
        )

    creation_at-Licensed : (n : Creation) (h : Host) → Licensed (creation_at rec via a n h)
    unfolding discard_resumed_actor commit
    creation_at-Licensed (creation_threw true) h =
        fenced-Licensed h _ _ tt (terminalize-Licensed a.io orphaned _ _ h refl)
    creation_at-Licensed (creation_threw false) h =
        fenced-Licensed h _ _ tt (λ owns. notice-Licensed via h)
    creation_at-Licensed (created rt) h = (
      tt,
      fenced-Licensed h _ _ (tt, (tt, tt))
          (λ owns. (
            owns,
            committed-Licensed rt h _ owns
                (update_record-cases a.io rec.thread_id (updated_as a.io active none) h.store),
          )),
    )

    closed_root-Licensed : (root : Option ℕ) (h : Host) → Licensed (closed_root root a h)
    closed_root-Licensed none h = tt
    closed_root-Licensed (some root) h = (tt, tt)

    captured_at-Licensed : (n : Capture) (h : Host) → Licensed (captured_at rec via a n h)
    captured_at-Licensed capture_threw h = fenced-Licensed h _ _ tt (λ owns. notice-Licensed via h)
    captured_at-Licensed (refused problem) h =
        fenced-Licensed h _ _ tt (terminalize-Licensed a.io blocked problem _ h refl)
    captured_at-Licensed (captured root) h = (
      tt,
      fenced-Licensed h _ _ (closed_root-Licensed root h)
          (λ owns. (owns, creation_at-Licensed (a.create h).1 (a.create h).0)),
    )

    capture_stage-Licensed : (h : Host) → Licensed (capture_stage rec via a h)
    unfolding capture_stage
    capture_stage-Licensed h =
        fenced-Licensed h _ _ tt
          (λ owns. (owns, captured_at-Licensed (a.capture h).1 (a.capture h).0))

    rebuilt_at-Licensed : (ok : Bool) (h : Host) → Licensed (rebuilt_at rec via a ok h)
    rebuilt_at-Licensed false h =
        fenced-Licensed h _ _ tt (terminalize-Licensed a.io blocked _ _ h refl)
    rebuilt_at-Licensed true h = fenced-Licensed h _ _ (tt, tt) (λ owns. capture_stage-Licensed h)

    -- Whatever others do at the awaits of an attempt, each of its acts is done while it still speaks
    -- for its thread: a rebuild of the checkout, the capture of the root, the creation of a runtime,
    -- the commit and a transition to a terminal state start only while the process goes on, no
    -- teardown has claimed the thread, no earlier runtime of it is unconfirmed, it has no live
    -- session, and its record is active and of the same session and generation; a lease is given up
    -- only when the record is no longer active; and a session is registered only when, besides, the
    -- record reads as active with no reason.
    pub resume_record-Licensed : (h : Host) → All (IsLicensed rec) (resume_record rec via a h).log
    unfolding resume_record
    resume_record-Licensed h = fenced-Licensed h _ _ tt (λ owns.
        by_checkout owns
          (is_worktree rec.dev_mode && (has_branch rec.branch && not a.work_dir_exists)))
      where
        by_checkout :
            Owns rec h
            → (missing : Bool)
            → Licensed (
                if missing
                then (let (h', ok) = a.rebuild h in act h rebuilds (rebuilt_at rec via a ok h'))
                else capture_stage rec via a h)
        by_checkout owns true = (owns, rebuilt_at-Licensed (a.rebuild h).1 (a.rebuild h).0)
        by_checkout owns false = capture_stage-Licensed h
