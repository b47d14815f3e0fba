-- ===== src/Resume/Custody.antt =====
-- Nothing that an attempt opens or starts is dropped.
use discord_copilot_sdk.Base.{
  ℕ, Bool, true, false, List, [], ◌∷◌, ◌++◌, Option, none, some, ◌==◌, nat_eq, if◌then◌else◌, ◌≡◌,
  refl, inl, inr, Bool-cases, beq_refl, ◌∙◌, String, ap,
}
use discord_copilot_sdk.Access.{contains}
use discord_copilot_sdk.Disk.{Io}
use discord_copilot_sdk.SessionStore.Record.{SessionRecord, SessionState, active, orphaned, blocked}
use discord_copilot_sdk.SessionStore.Ops.{commit, set_state}
use discord_copilot_sdk.Resume.Host.{
  Host, resume_ownership_lost, Notice, Act, rebuilds, opens, closes, hands, creates, retains,
  registers, Run, act, fenced,
}
use discord_copilot_sdk.Lifecycle.{decline_reason}
use discord_copilot_sdk.Reconcile.{
  ThreadStatus, ReconcileAction, fresh, fail_corrupt, orphan_interrupted, retain, resume, block,
  skip,
}
use discord_copilot_sdk.Resume.Record.{parked, orphan, carry_out, classified, reconcile_record}
use discord_copilot_sdk.Resume.Attempt.{
  Via, startup, access_retry, Capture, capture_threw, refused, captured, Creation, creation_threw,
  created, Answers, terminalized, terminalize, notice_transient_resume_failure,
  discard_resumed_actor, committed, creation_at, closed_root, captured_at, capture_stage,
  rebuilt_at, resume_record,
}

-- The roots that are open and the runtimes that run, for which the attempt alone answers.
pub record Held : Type 0 where
  pub roots : List ℕ
  pub runtimes : List ℕ

abbrev pub nothing_held : Held
nothing_held = record { roots = []; runtimes = [] }

abbrev pub let_go : ℕ → List ℕ → List ℕ
let_go n [] = []
let_go n (m ∷ ms) = if m == n then ms else m ∷ let_go n ms

-- A root is closed, or goes over to the actor; a runtime becomes a live session, or an obligation.
abbrev pub after_act : Act → Held → Held
after_act (opens (some root)) c = record c { roots = root ∷ c.roots }
after_act (closes root) c = record c { roots = let_go root c.roots }
after_act (hands (some root)) c = record c { roots = let_go root c.roots }
after_act (creates rt) c = record c { runtimes = rt ∷ c.runtimes }
after_act (retains rt handle) c = record c { runtimes = let_go rt c.runtimes }
after_act (registers rt) c = record c { runtimes = let_go rt c.runtimes }
after_act _ c = c

abbrev pub held_after : List (Host × Act) → Held → Held
held_after [] c = c
held_after ((h, a) ∷ log) c = held_after log (after_act a c)

held_after-append :
    (xs ys : List (Host × Act)) (c : Held)
    → held_after (xs ++ ys) c ≡ held_after ys (held_after xs c)
held_after-append [] ys c = refl
held_after-append ((h, a) ∷ xs) ys c = held_after-append xs ys (after_act a c)

-- The parts that hold nothing.
fenced-held {ℓ} :
    {A : Type ℓ} (o : Option A) (stop go : Run) (c d : Held)
    → held_after stop.log c ≡ d
    → held_after go.log c ≡ d
    → held_after (fenced o stop go).log c ≡ d
fenced-held (some a) stop go c d s g = s
fenced-held none stop go c d s g = g

terminalize-held :
    (rec : SessionRecord) (io : Io) (state : SessionState) (reason : String) (notice : Notice)
    (h : Host) (c : Held)
    → held_after (terminalize rec io state reason notice h).log c ≡ c
unfolding terminalize
terminalize-held rec io state reason notice h c = by_answer _ _
  where
    by_answer : (ok : Bool) (k : Host) → held_after (terminalized rec notice ok k).log c ≡ c
    by_answer false k = refl
    by_answer true k = refl

notice-held :
    (thread : String) (via : Via) (h : Host) (c : Held)
    → held_after (notice_transient_resume_failure thread via h).log c ≡ c
unfolding notice_transient_resume_failure
notice-held thread startup h c = refl
notice-held thread access_retry h c = elim (Bool-cases (contains thread h.noticed)) [
  | inl told ↦ rw told refl
  | inr first ↦ rw first refl
]

module _ (rec : SessionRecord) (via : Via) (a : Answers) where
  committed-held :
      (rt : ℕ) (ok : Bool) (h : Host)
      → held_after (committed rec via a rt ok h).log (record nothing_held { runtimes = rt ∷ [] })
        ≡ nothing_held
  unfolding discard_resumed_actor
  committed-held rt true h = rw (beq_refl rt) refl
  committed-held rt false h =
      notice-held rec.thread_id via _ (record nothing_held { runtimes = let_go rt (rt ∷ []) })
      ∙ rw (beq_refl rt) refl

  creation_at-held :
      (n : Creation) (h : Host)
      → held_after (creation_at rec via a n h).log nothing_held ≡ nothing_held
  unfolding discard_resumed_actor
  creation_at-held (creation_threw true) h =
      fenced-held (resume_ownership_lost rec h) _ _ nothing_held nothing_held refl
        (terminalize-held rec a.io _ _ _ h nothing_held)
  creation_at-held (creation_threw false) h =
      fenced-held (resume_ownership_lost rec h) _ _ nothing_held nothing_held refl
        (notice-held rec.thread_id via h nothing_held)
  creation_at-held (created rt) h =
      fenced-held (resume_ownership_lost rec h) _ _ (record nothing_held { runtimes = rt ∷ [] })
        nothing_held (rw (beq_refl rt) refl)
        (committed-held rt (commit a.io rec.thread_id h.store).0 _)

  handed-held :
      (root : Option ℕ)
      → after_act (hands root) (after_act (opens root) nothing_held) ≡ nothing_held
  handed-held none = refl
  handed-held (some root) = rw (beq_refl root) refl

  closed_root-held :
      (root : Option ℕ) (h : Host)
      → held_after (closed_root root a h).log (after_act (opens root) nothing_held) ≡ nothing_held
  closed_root-held none h = refl
  closed_root-held (some root) h = rw (beq_refl root) refl

  captured_at-held :
      (n : Capture) (h : Host)
      → held_after (captured_at rec via a n h).log nothing_held ≡ nothing_held
  captured_at-held capture_threw h =
      fenced-held (resume_ownership_lost rec h) _ _ nothing_held nothing_held refl
        (notice-held rec.thread_id via h nothing_held)
  captured_at-held (refused problem) h =
      fenced-held (resume_ownership_lost rec h) _ _ nothing_held nothing_held refl
        (terminalize-held rec a.io _ problem _ h nothing_held)
  captured_at-held (captured root) h =
      fenced-held (resume_ownership_lost rec h) _ _ (after_act (opens root) nothing_held)
        nothing_held (closed_root-held root h)
        (ap (held_after (creation_at rec via a (a.create h).1 (a.create h).0).log)
            (handed-held root)
          ∙ creation_at-held (a.create h).1 (a.create h).0)

  capture_stage-held :
      (h : Host) → held_after (capture_stage rec via a h).log nothing_held ≡ nothing_held
  unfolding capture_stage
  capture_stage-held h =
      fenced-held (resume_ownership_lost rec h) _ _ nothing_held nothing_held refl
        (captured_at-held (a.capture h).1 (a.capture h).0)

  rebuilt_at-held :
      (ok : Bool) (h : Host)
      → held_after (rebuilt_at rec via a ok h).log nothing_held ≡ nothing_held
  rebuilt_at-held false h =
      fenced-held (resume_ownership_lost rec h) _ _ nothing_held nothing_held refl
        (terminalize-held rec a.io _ _ _ h nothing_held)
  rebuilt_at-held true h =
      fenced-held (resume_ownership_lost rec h) _ _ nothing_held nothing_held refl
        (capture_stage-held h)

  resume_record-held :
      (h : Host) → held_after (resume_record rec via a h).log nothing_held ≡ nothing_held
  unfolding resume_record
  resume_record-held h =
      fenced-held (resume_ownership_lost rec h) _ _ nothing_held nothing_held refl (by_checkout _)
    where
      by_checkout :
          (missing : Bool)
          → held_after
              (if missing
                then (let (h', ok) = a.rebuild h in act h rebuilds (rebuilt_at rec via a ok h'))
                else capture_stage rec via a h).log
              nothing_held
            ≡ nothing_held
      by_checkout true = rebuilt_at-held (a.rebuild h).1 (a.rebuild h).0
      by_checkout false = capture_stage-held h

  parked-held :
      (reason : String) (h : Host)
      → held_after (parked rec a reason h).log nothing_held ≡ nothing_held
  parked-held reason h =
      elim (Bool-cases (set_state a.io rec.thread_id active (some reason) h.store).0) [
        | inl kept ↦ rw kept refl
        | inr not_kept ↦ rw not_kept refl
      ]

  orphan-held : (h : Host) → held_after (orphan rec a h).log nothing_held ≡ nothing_held
  orphan-held h =
      elim (Bool-cases
        (set_state a.io rec.thread_id orphaned (some "interrupted-create") h.store).0) [
          | inl kept ↦ rw kept refl
          | inr not_kept ↦ rw not_kept refl
        ]

carry_out-held :
    (rec : SessionRecord) (via : Via) (a : Answers) (n : ReconcileAction) (h : Host)
    → held_after (carry_out rec via a n h).log nothing_held ≡ nothing_held
carry_out-held rec via a fresh h = refl
carry_out-held rec via a fail_corrupt h = refl
carry_out-held rec via a retain h = refl
carry_out-held rec via a orphan_interrupted h = orphan-held rec via a h
carry_out-held rec startup a (skip reason) h = parked-held rec startup a reason h
carry_out-held rec access_retry a (skip reason) h = refl
carry_out-held rec via a (block reason) h =
    terminalize-held rec a.io blocked reason _ h nothing_held
carry_out-held rec via a resume h = resume_record-held rec via a h

-- On every path of `reconcileRecord`, the resumption included, whatever the awaits answer and
-- others do meanwhile, each root that is opened is closed or handed to the actor, and each runtime
-- that is created becomes the live session of the thread or is retained as an obligation.
pub reconcile_record-held :
    (rec : SessionRecord) (via : Via) (a : Answers) (binding_ok : Bool)
    (classify : Host → Host × ThreadStatus) (h : Host)
    → held_after (reconcile_record rec via binding_ok classify a h).log nothing_held ≡ nothing_held
unfolding reconcile_record
reconcile_record-held rec via a binding_ok classify h =
    fenced-held (decline_reason rec.thread_id (classified rec binding_ok classify h).0.ownership) _
      _ nothing_held nothing_held refl (carry_out-held rec via a _ _)
