-- ===== src/Resume/Answered.antt =====
-- What an attempt lets go of, somebody else has.
use discord_copilot_sdk.Base.{
  ℕ, ◌+◌, ◌≤◌, Bool, true, false, String, List, [], ◌∷◌, Option, none, some, ◌≡◌, refl, inl, inr,
  Bool-cases, Option-cases, is_some, arith, string_eq, nat_eq, if◌then◌else◌, sym, ◌∙◌, ap,
  beq_refl,
}
use mathlib.Core.Bool.{false≢true}
use discord_copilot_sdk.Access.{contains}
use discord_copilot_sdk.Dict.{get, has}
use discord_copilot_sdk.Dict.Laws.{has-get, get-set}
use discord_copilot_sdk.Dict.Entries.{Entries, Entries-get}
use discord_copilot_sdk.Disk.{Io}
use discord_copilot_sdk.Lifecycle.{
  Key, runtime, superseded, key_eq, Ownership, retain, is_retained, begin_attempt, decline_reason,
}
use discord_copilot_sdk.Reconcile.{
  ThreadStatus, ReconcileAction, fresh, fail_corrupt, orphan_interrupted, retain as retained,
  resume, block, skip,
}
use discord_copilot_sdk.SessionStore.Record.{SessionRecord, SessionState, active, orphaned, blocked}
use discord_copilot_sdk.SessionStore.Ops.{commit, set_state}
use discord_copilot_sdk.Resume.Host.{
  Host, resume_ownership_lost, Notice, Act, rebuilds, discards, retains, registers, Run, act,
  fenced,
}
use discord_copilot_sdk.Resume.Attempt.{
  Via, startup, access_retry, Capture, capture_threw, refused, captured, Creation, creation_threw,
  created, Answers, terminalized, terminalize, notice_transient_resume_failure, own_key,
  retained_runtime, discard_resumed_actor, committed, creation_at, closed_root, captured_at,
  capture_stage, rebuilt_at, resume_record,
}
use discord_copilot_sdk.Resume.Record.{parked, orphan, carry_out, classified, reconcile_record}
use discord_copilot_sdk.Resume.Custody.{held_after, nothing_held, reconcile_record-held}

-- The runtime is retained, in the host that its first attempt starts from, under a key that was
-- free when it was discarded: no earlier registration is taken for its own.
abbrev pub IsRegistered : ℕ → Host → List (Host × Act) → Type 0
IsRegistered rt h ((h', retains rt' handle) ∷ log) =
    (rt' ≡ rt)
    × (get handle.key h.ownership.obligations ≡ none)
    × (is_retained handle h'.ownership ≡ true)
IsRegistered rt h _ = ⊥

-- The runtime is the live session of the thread from then on.
abbrev pub IsLive : String → ℕ → List (Host × Act) → Type 0
IsLive thread rt [] = ⊥
IsLive thread rt ((h, a) ∷ log) = get thread h.sessions ≡ some rt

-- Every runtime that is discarded is registered, and every one that is registered is live.
abbrev pub IsAnswered : String → List (Host × Act) → Type 0
IsAnswered thread [] = Unit
IsAnswered thread ((h, discards rt) ∷ log) = IsRegistered rt h log × IsAnswered thread log
IsAnswered thread ((h, registers rt) ∷ log) = IsLive thread rt log × IsAnswered thread log
IsAnswered thread ((h, a) ∷ log) = IsAnswered thread log

-- No number has been given that is still to come.
abbrev pub IsGiven : ℕ → Key → Type 0
IsGiven seq (superseded thread n) = n ≤ seq
IsGiven seq _ = Unit

abbrev pub IsNumbered : Host → Type 0
IsNumbered h = Entries (λ key entry. IsGiven h.superseded_seq key) h.ownership.obligations

abbrev pub KeepsNumbers : (Host → Host) → Type 0
KeepsNumbers f = (h : Host) → IsNumbered h → IsNumbered (f h)

has-none :
    (key : Key) (o : Ownership) → has key o.obligations ≡ false → get key o.obligations ≡ none
has-none key o e = elim (Option-cases (get key o.obligations)) [
  | inl absent ↦ absent
  | inr (entry, there) ↦ absurd (false≢true (sym e ∙ has-get key o.obligations ∙ ap is_some there))
]

next-none :
    (thread : String) (h : Host)
    → IsNumbered h
    → get (superseded thread (h.superseded_seq + 1)) h.ownership.obligations ≡ none
next-none thread h v =
    let key = superseded thread (h.superseded_seq + 1) in
    elim (Option-cases (get key h.ownership.obligations)) [
      | inl absent ↦ absent
      | inr (entry, there) ↦ absurd (
          let given : h.superseded_seq + 1 ≤ h.superseded_seq =
            Entries-get (λ k n. IsGiven h.superseded_seq k) key entry h.ownership.obligations v
              there in
          omega arith)
    ]

-- A free key is retained.
retain-is_retained :
    (key : Key) (o : Ownership)
    → get key o.obligations ≡ none
    → ((retain key o).0.key ≡ key)
      × (is_retained (retain key o).0 (begin_attempt (retain key o).0 (retain key o).1) ≡ true)
unfolding retain is_retained begin_attempt
retain-is_retained key o e =
    ground (arith, get-set key key o.next_entry o.obligations, key_eq.beq_iff key key)

retained-IsRegistered :
    (rt : ℕ) (key : Key) (before h : Host)
    → h.ownership ≡ before.ownership
    → get key before.ownership.obligations ≡ none
    → (get (retain key h.ownership).0.key before.ownership.obligations ≡ none)
      × (is_retained
            (retain key h.ownership).0
            (begin_attempt (retain key h.ownership).0 (retain key h.ownership).1)
          ≡ true)
retained-IsRegistered rt key before h same free =
    let (own, there) =
      retain-is_retained key h.ownership (ap (λ o. get key o.obligations) same ∙ free) in
    (ap (λ k. get k before.ownership.obligations) own ∙ free, there)

fenced-IsAnswered {ℓ} :
    {A : Type ℓ} (thread : String) (o : Option A) (stop go : Run)
    → IsAnswered thread stop.log
    → IsAnswered thread go.log
    → IsAnswered thread (fenced o stop go).log
fenced-IsAnswered thread (some a) stop go s g = s
fenced-IsAnswered thread none stop go s g = g

module _ (rec : SessionRecord) where
  abbrev Answered : Run → Type 0
  Answered r = IsAnswered rec.thread_id r.log

  terminalize-IsAnswered :
      (io : Io) (state : SessionState) (reason : String) (notice : Notice) (h : Host)
      → Answered (terminalize rec io state reason notice h)
  unfolding terminalize
  terminalize-IsAnswered io state reason notice h = by_answer _ _
    where
      by_answer : (ok : Bool) (k : Host) → Answered (terminalized rec notice ok k)
      by_answer false k = tt
      by_answer true k = tt

  notice-IsAnswered :
      (via : Via) (h : Host) → Answered (notice_transient_resume_failure rec.thread_id via h)
  unfolding notice_transient_resume_failure
  notice-IsAnswered startup h = tt
  notice-IsAnswered access_retry h = elim (Bool-cases (contains rec.thread_id h.noticed)) [
    | inl told ↦ rw told tt
    | inr first ↦ rw first tt
  ]

  module _ (via : Via) (a : Answers) where
    discard-IsRegistered :
        (rt : ℕ) (h : Host) (unconfirmed : Bool)
        → IsNumbered h
        → has (runtime rec.thread_id) h.ownership.obligations ≡ unconfirmed
        → IsRegistered rt h (retained_runtime rt (own_key rec.thread_id unconfirmed h) a).log
    discard-IsRegistered rt h false v e =
        let (free, there) =
          retained-IsRegistered rt (runtime rec.thread_id) h h refl
            (has-none (runtime rec.thread_id) h.ownership e) in
        (refl, free, there)
    discard-IsRegistered rt h true v e =
        let (free, there) =
          retained-IsRegistered rt (superseded rec.thread_id (h.superseded_seq + 1)) h h refl
            (next-none rec.thread_id h v) in
        (refl, free, there)

    discard-IsAnswered :
        (rt : ℕ) (h : Host) → IsNumbered h → Answered (discard_resumed_actor rec rt a h)
    unfolding discard_resumed_actor
    discard-IsAnswered rt h v = (discard-IsRegistered rt h _ v refl, tt)

    committed-IsAnswered :
        (rt : ℕ) (ok : Bool) (h : Host) → IsNumbered h → Answered (committed rec via a rt ok h)
    unfolding discard_resumed_actor
    committed-IsAnswered rt false h v =
        (discard-IsRegistered rt h _ v refl, notice-IsAnswered via _)
    committed-IsAnswered rt true h v =
        (get-set rec.thread_id rec.thread_id rt h.sessions ∙ rw (beq_refl rec.thread_id) refl, tt)

    creation_at-IsAnswered :
        (n : Creation) (h : Host) → IsNumbered h → Answered (creation_at rec via a n h)
    creation_at-IsAnswered (creation_threw true) h v =
        fenced-IsAnswered rec.thread_id (resume_ownership_lost rec h) _ _ tt
          (terminalize-IsAnswered a.io _ _ _ h)
    creation_at-IsAnswered (creation_threw false) h v =
        fenced-IsAnswered rec.thread_id (resume_ownership_lost rec h) _ _ tt
          (notice-IsAnswered via h)
    creation_at-IsAnswered (created rt) h v =
        fenced-IsAnswered rec.thread_id (resume_ownership_lost rec h) _ _
          (discard-IsAnswered rt h v)
          (committed-IsAnswered rt (commit a.io rec.thread_id h.store).0 _ v)

    closed_root-IsAnswered : (root : Option ℕ) (h : Host) → Answered (closed_root root a h)
    closed_root-IsAnswered none h = tt
    closed_root-IsAnswered (some root) h = tt

    module _ (create_keeps : KeepsNumbers (λ h. (a.create h).0)) where
      captured_at-IsAnswered :
          (n : Capture) (h : Host) → IsNumbered h → Answered (captured_at rec via a n h)
      captured_at-IsAnswered capture_threw h v =
          fenced-IsAnswered rec.thread_id (resume_ownership_lost rec h) _ _ tt
            (notice-IsAnswered via h)
      captured_at-IsAnswered (refused problem) h v =
          fenced-IsAnswered rec.thread_id (resume_ownership_lost rec h) _ _ tt
            (terminalize-IsAnswered a.io _ problem _ h)
      captured_at-IsAnswered (captured root) h v =
          fenced-IsAnswered rec.thread_id (resume_ownership_lost rec h) _ _
            (closed_root-IsAnswered root h)
            (creation_at-IsAnswered (a.create h).1 (a.create h).0 (create_keeps h v))

      module _ (capture_keeps : KeepsNumbers (λ h. (a.capture h).0)) where
        capture_stage-IsAnswered : (h : Host) → IsNumbered h → Answered (capture_stage rec via a h)
        unfolding capture_stage
        capture_stage-IsAnswered h v =
            fenced-IsAnswered rec.thread_id (resume_ownership_lost rec h) _ _ tt
              (captured_at-IsAnswered (a.capture h).1 (a.capture h).0 (capture_keeps h v))

        rebuilt_at-IsAnswered :
            (ok : Bool) (h : Host) → IsNumbered h → Answered (rebuilt_at rec via a ok h)
        rebuilt_at-IsAnswered false h v =
            fenced-IsAnswered rec.thread_id (resume_ownership_lost rec h) _ _ tt
              (terminalize-IsAnswered a.io _ _ _ h)
        rebuilt_at-IsAnswered true h v =
            fenced-IsAnswered rec.thread_id (resume_ownership_lost rec h) _ _ tt
              (capture_stage-IsAnswered h v)

        module _ (rebuild_keeps : KeepsNumbers (λ h. (a.rebuild h).0)) where
          resume_record-IsAnswered :
              (h : Host) → IsNumbered h → Answered (resume_record rec via a h)
          unfolding resume_record
          resume_record-IsAnswered h v =
              fenced-IsAnswered rec.thread_id (resume_ownership_lost rec h) _ _ tt (by_checkout _)
            where
              by_checkout :
                  (missing : Bool)
                  → Answered (
                      if missing
                      then (let (h', ok) = a.rebuild h in
                          act h rebuilds (rebuilt_at rec via a ok h'))
                      else capture_stage rec via a h)
              by_checkout true =
                  rebuilt_at-IsAnswered (a.rebuild h).1 (a.rebuild h).0 (rebuild_keeps h v)
              by_checkout false = capture_stage-IsAnswered h v

          parked-IsAnswered : (reason : String) (h : Host) → Answered (parked rec a reason h)
          parked-IsAnswered reason h =
              elim (Bool-cases (set_state a.io rec.thread_id active (some reason) h.store).0) [
                | inl kept ↦ rw kept tt
                | inr not_kept ↦ rw not_kept tt
              ]

          orphan-IsAnswered : (h : Host) → Answered (orphan rec a h)
          orphan-IsAnswered h =
              elim (Bool-cases
                (set_state a.io rec.thread_id orphaned (some "interrupted-create") h.store).0) [
                  | inl kept ↦ rw kept tt
                  | inr not_kept ↦ rw not_kept tt
                ]

carry_out-IsAnswered :
    (rec : SessionRecord) (via : Via) (a : Answers) (n : ReconcileAction) (h : Host)
    → KeepsNumbers (λ h. (a.create h).0)
    → KeepsNumbers (λ h. (a.capture h).0)
    → KeepsNumbers (λ h. (a.rebuild h).0)
    → IsNumbered h
    → IsAnswered rec.thread_id (carry_out rec via a n h).log
carry_out-IsAnswered rec via a fresh h k l m v = tt
carry_out-IsAnswered rec via a fail_corrupt h k l m v = tt
carry_out-IsAnswered rec via a retained h k l m v = tt
carry_out-IsAnswered rec via a orphan_interrupted h k l m v = orphan-IsAnswered rec via a k l m h
carry_out-IsAnswered rec startup a (skip reason) h k l m v =
    parked-IsAnswered rec startup a k l m reason h
carry_out-IsAnswered rec access_retry a (skip reason) h k l m v = tt
carry_out-IsAnswered rec via a (block reason) h k l m v =
    terminalize-IsAnswered rec a.io blocked reason _ h
carry_out-IsAnswered rec via a resume h k l m v = resume_record-IsAnswered rec via a k l m h v

classified-IsNumbered :
    (rec : SessionRecord) (binding_ok : Bool) (classify : Host → Host × ThreadStatus) (h : Host)
    → KeepsNumbers (λ h. (classify h).0)
    → IsNumbered h
    → IsNumbered (classified rec binding_ok classify h).0
classified-IsNumbered rec binding_ok classify h keeps v = asked _
  where
    asked :
        (asks : Bool)
        → let r : Host × Option ThreadStatus =
            if asks then (let (h', status) = classify h in (h', some status)) else (h, none) in
          IsNumbered r.0
    asked true = keeps h v
    asked false = v

-- On every path of `reconcileRecord`, the resumption included, each root that is opened is closed
-- or handed to the actor, and each runtime that is created is registered or discarded. One that is
-- registered is the live session of the thread; one that is discarded is retained as an obligation
-- when its first attempt starts, under a key that no other obligation had. This holds whatever the
-- awaits answer and others do meanwhile, where they keep the numbers of the superseded runtimes: no
-- obligation has a number that is still to be given.
pub reconcile_record-IsAnswered :
    (rec : SessionRecord) (via : Via) (a : Answers) (binding_ok : Bool)
    (classify : Host → Host × ThreadStatus) (h : Host)
    → KeepsNumbers (λ h. (classify h).0)
    → KeepsNumbers (λ h. (a.create h).0)
    → KeepsNumbers (λ h. (a.capture h).0)
    → KeepsNumbers (λ h. (a.rebuild h).0)
    → IsNumbered h
    → (held_after (reconcile_record rec via binding_ok classify a h).log nothing_held
        ≡ nothing_held)
      × IsAnswered rec.thread_id (reconcile_record rec via binding_ok classify a h).log
unfolding reconcile_record
reconcile_record-IsAnswered rec via a binding_ok classify h j k l m v = (
  reconcile_record-held rec via a binding_ok classify h,
  fenced-IsAnswered rec.thread_id
      (decline_reason rec.thread_id (classified rec binding_ok classify h).0.ownership) _ _ tt
      (carry_out-IsAnswered rec via a _ _ k l m
        (classified-IsNumbered rec binding_ok classify h j v)),
)
