-- ===== src/SessionStore/Preserved.antt =====
-- Every call keeps the store sound and its file in step with it.
use discord_copilot_sdk.Base.{
  ℤ, pos, true, ◌&&◌, String, List, Option, ◌≡◌, refl, ◌≤ℤ◌, max_ℤ_bounds, arith, Bool-cases,
  Option-cases, inl, inr, or_else, ◌==◌, string_eq, int_eq,
}
use discord_copilot_sdk.Dict.{get, has}
use discord_copilot_sdk.Dict.Entries.{Entries-get}
use discord_copilot_sdk.Disk.{Io}
use discord_copilot_sdk.SessionStore.Record.{
  SessionRecord, SessionBinding, SessionIdentity, identity_eq, identity_of, is_file_delivery_bytes,
  to_record, is_rebind_reason, SessionState,
}
use discord_copilot_sdk.SessionStore.State.{World, draft_of}
use discord_copilot_sdk.SessionStore.Invariant.{
  IsPrimary, IsSound, IsRestartable, mutate-IsRestartable,
}
use discord_copilot_sdk.SessionStore.Drafts.{
  set-IsSound, retain-IsSound, delete-IsSound, forget-IsSound, clear-IsSound, forget_all-IsSound,
  max_ℤ-is_file_delivery_bytes, bytes_of-primary, bytes_of-stale,
}
use discord_copilot_sdk.SessionStore.Ops.{
  bytes_of, can_retain, retain_stale_rebind, remove_stale_rebind, reserve, update_record, commit,
  set_state, is_current, can_reserve_bytes, reserve_file_delivery_bytes, remove, remove_if_current,
  clear, restored, restore, owned_by_other,
}
use discord_copilot_sdk.SessionStore.Fallback.{
  restore_if_current, FallbackPrimaryAction, restoring, removing, paired_stale, delete_all,
  can_reconcile, fallback_sessions, fallback_bytes, reconcile_fallback_primary,
}
use discord_copilot_sdk.SessionStore.Commands.{
  IsAdmissibleAction, Command, step, IsAdmissible, Reach, here, call, retains_stale, removes_stale,
  reserves, commits, sets_state, reserves_bytes, removes, removes_if_current, clears, restores,
  restores_if_current, reconciles,
}

can_retain-parts :
    (r : SessionRecord) (reason : String)
    → can_retain r reason ≡ true
    → (is_file_delivery_bytes r.file_delivery_bytes ≡ true) × (is_rebind_reason reason ≡ true)
unfolding can_retain
can_retain-parts r reason h = ground arith

can_reserve_bytes-next :
    (sid : String) (g expected next : ℤ)
    → can_reserve_bytes sid g expected next ≡ true
    → is_file_delivery_bytes next ≡ true
unfolding can_reserve_bytes
can_reserve_bytes-next sid g expected next h = ground arith

restoring-parts :
    (target : SessionIdentity) (r : SessionRecord) (ids : List SessionIdentity)
    (current : Option SessionRecord)
    → can_reconcile target (restoring r ids) current ≡ true
    → (target.thread_id ≡ r.thread_id) × (is_file_delivery_bytes r.file_delivery_bytes ≡ true)
unfolding can_reconcile
restoring-parts target r ids current h =
    ground (arith, string_eq.beq_iff r.thread_id target.thread_id)

module _ (io : Io) (w : World) (v : IsRestartable w) where
  retain_stale_rebind-IsRestartable :
      (r : SessionRecord) (reason : String) → IsRestartable (retain_stale_rebind io r reason w).1
  unfolding retain_stale_rebind to_record
  retain_stale_rebind-IsRestartable r reason = elim (Bool-cases (can_retain r reason)) [
    | inr bad ↦ rw bad v
    | inl good ↦ rw good (
        mutate-IsRestartable io _ w v (
          retain-IsSound (draft_of w.store) v.sound _ (identity_of r) _ (max_ℤ_bounds _ _).0
            (record {
              keyed = refl;
              bytes =
                  max_ℤ-is_file_delivery_bytes _ _
                    (bytes_of-stale (draft_of w.store) (identity_of r) v.sound)
                    (can_retain-parts r reason good).0;
              fenced = (max_ℤ_bounds w.store.high_water r.generation).1;
              terminal = record { blocked = refl; reason = (can_retain-parts r reason good).1 };
            })))
  ]

  remove_stale_rebind-IsRestartable :
      (k : SessionIdentity) → IsRestartable (remove_stale_rebind io k w).1
  unfolding remove_stale_rebind
  remove_stale_rebind-IsRestartable k = elim (Bool-cases (has k w.store.stale)) [
    | inr none_such ↦ rw none_such v
    | inl present ↦
        rw present (mutate-IsRestartable io _ w v (forget-IsSound (draft_of w.store) v.sound k))
  ]

  pub reserve-IsRestartable : (b : SessionBinding) → IsRestartable (reserve io b w).1
  unfolding reserve to_record
  reserve-IsRestartable b =
      elim (Bool-cases (is_file_delivery_bytes (or_else b.file_delivery_bytes (pos 0)))) [
        | inr bad ↦ rw bad v
        | inl good ↦ rw good (
            mutate-IsRestartable io _ w v (
              set-IsSound (draft_of w.store) v.sound _ b.thread_id _ (max_ℤ_bounds _ _).0 (record {
                keyed = refl;
                bytes = good;
                fenced = (max_ℤ_bounds w.store.high_water b.generation).1;
              })))
      ]

  -- An update that keeps the thread, the incarnation and a reserved total.
  update_record-IsRestartable :
      (t : String) (f : SessionRecord → SessionRecord)
      → ((r : SessionRecord)
          → IsPrimary w.store.high_water t r
          → IsPrimary w.store.high_water t (f r))
      → IsRestartable (update_record io t f w).1
  unfolding update_record
  update_record-IsRestartable t f keep = elim (Option-cases (get t w.store.sessions)) [
    | inl e ↦ rw (e, update_record) v
    | inr (r, e) ↦
        rw (e, update_record)
          (mutate-IsRestartable io _ w v (
            set-IsSound (draft_of w.store) v.sound w.store.high_water t (f r) (omega arith) (
              keep r (
                Entries-get (IsPrimary w.store.high_water) t r w.store.sessions v.sound.primary
                  e))))
  ]

  commit-IsRestartable : (t : String) → IsRestartable (commit io t w).1
  unfolding commit
  commit-IsRestartable t =
      update_record-IsRestartable t _
        (λ r p. record { keyed = p.keyed; bytes = p.bytes; fenced = p.fenced })

  set_state-IsRestartable :
      (t : String) (state : SessionState) (reason : Option String)
      → IsRestartable (set_state io t state reason w).1
  unfolding set_state
  set_state-IsRestartable t state reason =
      update_record-IsRestartable t _
        (λ r p. record { keyed = p.keyed; bytes = p.bytes; fenced = p.fenced })

  reserve_file_delivery_bytes-IsRestartable :
      (t sid : String) (g expected next : ℤ)
      → IsRestartable (reserve_file_delivery_bytes io t sid g expected next w).1
  unfolding reserve_file_delivery_bytes
  reserve_file_delivery_bytes-IsRestartable t sid g expected next =
      elim (Bool-cases (can_reserve_bytes sid g expected next)) [
        | inr bad ↦ rw bad v
        | inl good ↦
            elim (Bool-cases (
              is_current (get t w.store.sessions) sid g
              && bytes_of (get t w.store.sessions) == expected)) [
                | inr moved ↦ rw (good, moved) v
                | inl same ↦
                    rw (good, same)
                      (update_record-IsRestartable t _ (λ r p. record {
                        keyed = p.keyed;
                        bytes = can_reserve_bytes-next sid g expected next good;
                        fenced = p.fenced;
                      }))
              ]
      ]

  remove-IsRestartable : (t : String) → IsRestartable (remove io t w).1
  unfolding remove
  remove-IsRestartable t =
      mutate-IsRestartable io _ w v (delete-IsSound (draft_of w.store) v.sound t)

  remove_if_current-IsRestartable :
      (t sid : String) (g : ℤ) → IsRestartable (remove_if_current io t sid g w).1
  unfolding remove_if_current
  remove_if_current-IsRestartable t sid g =
      elim (Bool-cases (is_current (get t w.store.sessions) sid g)) [
        | inr moved ↦ rw moved v
        | inl same ↦
            rw same (mutate-IsRestartable io _ w v (delete-IsSound (draft_of w.store) v.sound t))
      ]

  clear-IsRestartable : IsRestartable (clear io w).1
  unfolding clear
  clear-IsRestartable = mutate-IsRestartable io _ w v (clear-IsSound (draft_of w.store) v.sound)

  restored-IsPrimary :
      (hw : ℤ) (r : SessionRecord) (bytes : ℤ)
      → is_file_delivery_bytes bytes ≡ true
      → r.generation ≤ℤ hw
      → IsPrimary hw r.thread_id (restored io.now r bytes)
  unfolding to_record
  restored-IsPrimary hw r bytes p le = record { keyed = refl; bytes = p; fenced = le }

  restore-IsRestartable :
      (r : SessionRecord)
      → is_file_delivery_bytes r.file_delivery_bytes ≡ true
      → IsRestartable (restore io r w).1
  unfolding restore
  restore-IsRestartable r p =
      elim (Bool-cases (owned_by_other (get r.thread_id w.store.sessions) r)) [
        | inl other ↦ rw other v
        | inr free ↦ rw free (
            mutate-IsRestartable io _ w v (
              set-IsSound (draft_of w.store) v.sound _ r.thread_id _ (max_ℤ_bounds _ _).0 (
                restored-IsPrimary _ r _
                  (max_ℤ-is_file_delivery_bytes _ _
                    (bytes_of-primary (draft_of w.store) r.thread_id v.sound) p)
                  (max_ℤ_bounds w.store.high_water r.generation).1)))
      ]

  restore_if_current-IsRestartable :
      (r : SessionRecord) (sid : String) (g : ℤ)
      → is_file_delivery_bytes r.file_delivery_bytes ≡ true
      → IsRestartable (restore_if_current io r sid g w).1
  unfolding restore_if_current
  restore_if_current-IsRestartable r sid g p =
      elim (Bool-cases (is_current (get r.thread_id w.store.sessions) sid g)) [
        | inr moved ↦ rw moved v
        | inl same ↦ rw same (
            mutate-IsRestartable io _ w v (
              set-IsSound (draft_of w.store) v.sound _ r.thread_id _ (max_ℤ_bounds _ _).0 (
                restored-IsPrimary _ r _
                  (max_ℤ-is_file_delivery_bytes _ _ p
                    (bytes_of-primary (draft_of w.store) r.thread_id v.sound))
                  (max_ℤ_bounds w.store.high_water r.generation).1)))
      ]

  fallback-IsSound :
      (target : SessionIdentity) (action : FallbackPrimaryAction)
      → IsAdmissibleAction action w
      → can_reconcile target action (get target.thread_id w.store.sessions) ≡ true
      → IsSound (record (draft_of w.store) {
        sessions =
            fallback_sessions io.now target.thread_id action
              (fallback_bytes action (get target.thread_id w.store.sessions))
              w.store.sessions;
        stale = delete_all (paired_stale action) w.store.stale;
      })
  fallback-IsSound target (removing ids) a ok =
      forget_all-IsSound ids _ (delete-IsSound (draft_of w.store) v.sound target.thread_id)
  fallback-IsSound target (restoring r ids) a ok =
      let parts = restoring-parts target r ids (get target.thread_id w.store.sessions) ok in
      forget_all-IsSound ids _ (
        rw parts.0 (
          set-IsSound (draft_of w.store) v.sound w.store.high_water r.thread_id _ (omega arith) (
            restored-IsPrimary _ r _
              (max_ℤ-is_file_delivery_bytes _ _ parts.1
                (bytes_of-primary (draft_of w.store) r.thread_id v.sound))
              a)))

  reconcile_fallback_primary-IsRestartable :
      (target : SessionIdentity) (action : FallbackPrimaryAction)
      → IsAdmissibleAction action w
      → IsRestartable (reconcile_fallback_primary io target action w).1
  unfolding reconcile_fallback_primary
  reconcile_fallback_primary-IsRestartable target action a =
      elim (Bool-cases (can_reconcile target action (get target.thread_id w.store.sessions))) [
        | inr refusal ↦ rw refusal v
        | inl ok ↦ rw ok (mutate-IsRestartable io _ w v (fallback-IsSound target action a ok))
      ]

  pub step-IsRestartable : (c : Command) → IsAdmissible c w → IsRestartable (step io c w)
  unfolding step
  step-IsRestartable (retains_stale r reason) a = retain_stale_rebind-IsRestartable r reason
  step-IsRestartable (removes_stale key) a = remove_stale_rebind-IsRestartable key
  step-IsRestartable (reserves b) a = reserve-IsRestartable b
  step-IsRestartable (commits t) a = commit-IsRestartable t
  step-IsRestartable (sets_state t state reason) a = set_state-IsRestartable t state reason
  step-IsRestartable (reserves_bytes t sid g expected next) a =
      reserve_file_delivery_bytes-IsRestartable t sid g expected next
  step-IsRestartable (removes t) a = remove-IsRestartable t
  step-IsRestartable (removes_if_current t sid g) a = remove_if_current-IsRestartable t sid g
  step-IsRestartable clears a = clear-IsRestartable
  step-IsRestartable (restores r) a = restore-IsRestartable r a
  step-IsRestartable (restores_if_current r sid g) a = restore_if_current-IsRestartable r sid g a
  step-IsRestartable (reconciles target action) a =
      reconcile_fallback_primary-IsRestartable target action a

-- Whatever the file system answers, after any history of calls a restart from the file gives the
-- store in memory, each record in the form in which it is written.
pub Reach-IsRestartable : {s w : World} → IsRestartable s → Reach s w → IsRestartable w
Reach-IsRestartable v here = v
Reach-IsRestartable v (call {w} r io c a) = step-IsRestartable io w (Reach-IsRestartable v r) c a
