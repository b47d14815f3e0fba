-- ===== src/SessionStore/Durable.antt =====
-- Persist first: a call whose write fails, or that is refused, changes nothing.
use discord_copilot_sdk.Base.{
  Bool, true, false, String, ◌≡◌, refl, arith, Bool-cases, Option-cases, inl, inr, if◌then◌else◌,
  or_else, pos, int_eq, string_eq,
}
use discord_copilot_sdk.Dict.{get, has}
use discord_copilot_sdk.Disk.{Io, written}
use discord_copilot_sdk.SessionStore.Record.{SessionRecord, identity_eq, is_file_delivery_bytes}
use discord_copilot_sdk.SessionStore.State.{World, Draft, mutate}
use discord_copilot_sdk.SessionStore.Ops.{
  can_retain, retain_stale_rebind, remove_stale_rebind, reserve, update_record, commit, set_state,
  is_current, reserve_file_delivery_bytes, remove, remove_if_current, clear, restore,
  owned_by_other,
}
use discord_copilot_sdk.SessionStore.Fallback.{
  restore_if_current, can_reconcile, reconcile_fallback_primary,
}
use discord_copilot_sdk.SessionStore.Commands.{
  Command, perform, retains_stale, removes_stale, reserves, commits, sets_state, reserves_bytes,
  removes, removes_if_current, clears, restores, restores_if_current, reconciles,
}

mutate-false :
    (io : Io) (f : Draft → Draft) (w : World) → (mutate io f w).0 ≡ false → (mutate io f w).1 ≡ w
unfolding mutate
mutate-false io f w h = ground arith

mutate-unwritten :
    (io : Io) (f : Draft → Draft) (w : World) → written io ≡ false → mutate io f w ≡ (false, w)
unfolding mutate
mutate-unwritten io f w h = rw h refl

update_record-false :
    (io : Io) (t : String) (f : SessionRecord → SessionRecord) (w : World)
    → (update_record io t f w).0 ≡ false
    → (update_record io t f w).1 ≡ w
unfolding update_record
update_record-false io t f w h = elim (Option-cases (get t w.store.sessions)) [
  | inl e ↦ rw (e, update_record) refl
  | inr (r, e) ↦ rw (e, update_record) (mutate-false io _ w (rw (e, update_record) at h))
]

guarded-false :
    (b : Bool) (p : Bool × World) (w : World)
    → (p.0 ≡ false → p.1 ≡ w)
    → (if b then p else (false, w)).0 ≡ false
    → (if b then p else (false, w)).1 ≡ w
guarded-false true p w f h = f h
guarded-false false p w f h = refl

-- A call that answers `false` has changed nothing: neither the store in memory nor its file.
pub perform-false :
    (io : Io) (c : Command) (w : World) → (perform io c w).0 ≡ false → (perform io c w).1 ≡ w
unfolding perform retain_stale_rebind remove_stale_rebind reserve commit set_state
    reserve_file_delivery_bytes remove remove_if_current clear restore restore_if_current
    reconcile_fallback_primary
perform-false io (retains_stale r reason) w h =
    guarded-false (can_retain r reason) _ w (mutate-false io _ w) h
perform-false io (removes_stale key) w h = elim (Bool-cases (has key w.store.stale)) [
  | inl present ↦ rw present (mutate-false io _ w (rw present at h))
  | inr absent ↦ rw absent refl
]
perform-false io (reserves b) w h =
    guarded-false (is_file_delivery_bytes (or_else b.file_delivery_bytes (pos 0))) _ w
      (mutate-false io _ w) h
perform-false io (commits t) w h = update_record-false io t _ w h
perform-false io (sets_state t state reason) w h = update_record-false io t _ w h
perform-false io (reserves_bytes t sid g expected next) w h =
    guarded-false _ _ w (update_record-false io t _ w) h
perform-false io (removes t) w h = mutate-false io _ w h
perform-false io (removes_if_current t sid g) w h =
    guarded-false (is_current (get t w.store.sessions) sid g) _ w (mutate-false io _ w) h
perform-false io clears w h = mutate-false io _ w h
perform-false io (restores r) w h =
    elim (Bool-cases (owned_by_other (get r.thread_id w.store.sessions) r)) [
      | inl other ↦ rw other refl
      | inr free ↦ rw free (mutate-false io _ w (rw free at h))
    ]
perform-false io (restores_if_current r sid g) w h =
    elim (Bool-cases (is_current (get r.thread_id w.store.sessions) sid g)) [
      | inr moved ↦ rw moved refl
      | inl same ↦ rw same (mutate-false io _ w (rw (same, perform) at h))
    ]
perform-false io (reconciles target action) w h =
    elim (Bool-cases (can_reconcile target action (get target.thread_id w.store.sessions))) [
      | inr refusal ↦ rw refusal refl
      | inl ok ↦ rw ok (mutate-false io _ w (rw (ok, perform) at h))
    ]
