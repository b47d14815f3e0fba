-- ===== src/SessionStore/Fences.antt =====
-- A call on behalf of an incarnation that no longer owns its thread does nothing.
use discord_copilot_sdk.Base.{
  ℤ, Bool, true, false, String, Option, none, some, ◌≡◌, refl, ◌≢◌, ◌⊎◌, arith, int_eq, string_eq,
  ◌&&◌, ap, of_some-eq,
}
use mathlib.Core.Path.{subst}
use discord_copilot_sdk.Dict.{get}
use discord_copilot_sdk.Disk.{Io}
use discord_copilot_sdk.SessionStore.Record.{
  SessionRecord, SessionIdentity, identity_eq, identity_of, stale_rebind_key, is_session_identity,
}
use discord_copilot_sdk.SessionStore.State.{World}
use discord_copilot_sdk.SessionStore.Ops.{
  is_current, reserve_file_delivery_bytes, remove_if_current, restore, owned_by_other,
}
use discord_copilot_sdk.SessionStore.Fallback.{
  refused, FallbackPrimaryAction, restore_if_current, can_reconcile, reconcile_fallback_primary,
}
use discord_copilot_sdk.SessionStore.Commands.{
  Command, perform, reserves_bytes, removes_if_current, restores, restores_if_current, reconciles,
}

-- The incarnation for which a call acts, where it names one.
abbrev pub acts_for : Command → Option SessionIdentity
acts_for (reserves_bytes t sid g expected next) = some (stale_rebind_key t sid g)
acts_for (removes_if_current t sid g) = some (stale_rebind_key t sid g)
acts_for (restores r) = some (identity_of r)
acts_for (restores_if_current r sid g) = some (stale_rebind_key r.thread_id sid g)
acts_for (reconciles target action) = some target
acts_for _ = none

not_current :
    (cur : SessionRecord) (sid : String) (g : ℤ)
    → (cur.session_id ≢ sid) ⊎ (cur.generation ≢ g)
    → is_current (some cur) sid g ≡ false
unfolding is_current
not_current cur sid g h =
    ground (arith, string_eq.beq_iff cur.session_id sid, int_eq.beq_iff cur.generation g)

is_other :
    (cur r : SessionRecord)
    → (cur.session_id ≢ r.session_id) ⊎ (cur.generation ≢ r.generation)
    → owned_by_other (some cur) r ≡ true
is_other cur r h = ground (
  arith,
  string_eq.beq_iff cur.session_id r.session_id,
  int_eq.beq_iff cur.generation r.generation,
)

right-false : (a : Bool) → (a && false) ≡ false
right-false true = refl
right-false false = refl

and-false : (a b : Bool) → (a && (false && b)) ≡ false
and-false true b = refl
and-false false b = refl

-- Another session or another generation holds the record of the thread.
abbrev pub HasMoved : World → SessionIdentity → Type 0
HasMoved w id =
    (cur : SessionRecord) × (get id.thread_id w.store.sessions ≡ some cur)
    × ((cur.session_id ≢ id.session_id) ⊎ (cur.generation ≢ id.generation))

module _ (io : Io) (w : World) where
  reserve-fenced :
      (t sid : String) (g expected next : ℤ)
      → HasMoved w (stale_rebind_key t sid g)
      → reserve_file_delivery_bytes io t sid g expected next w ≡ (false, w)
  unfolding reserve_file_delivery_bytes
  reserve-fenced t sid g expected next (cur, listed, other) =
      rw (listed, not_current cur sid g other, and-false) refl

  remove-fenced :
      (t sid : String) (g : ℤ)
      → HasMoved w (stale_rebind_key t sid g)
      → remove_if_current io t sid g w ≡ (false, w)
  unfolding remove_if_current
  remove-fenced t sid g (cur, listed, other) = rw (listed, not_current cur sid g other) refl

  restore-fenced : (r : SessionRecord) → HasMoved w (identity_of r) → restore io r w ≡ (false, w)
  unfolding restore
  restore-fenced r (cur, listed, other) = rw listed (rw (is_other cur r other) refl)

  restore_if_current-fenced :
      (r : SessionRecord) (sid : String) (g : ℤ)
      → HasMoved w (stale_rebind_key r.thread_id sid g)
      → restore_if_current io r sid g w ≡ (refused, w)
  unfolding restore_if_current
  restore_if_current-fenced r sid g (cur, listed, other) =
      rw (listed, not_current cur sid g other) refl

  reconcile-fenced :
      (target : SessionIdentity) (action : FallbackPrimaryAction)
      → HasMoved w target
      → reconcile_fallback_primary io target action w ≡ (refused, w)
  unfolding reconcile_fallback_primary can_reconcile
  reconcile-fenced target action (cur, listed, other) =
      rw (listed, not_current cur target.session_id target.generation other, and-false)
        (rw (right-false (is_session_identity target)) refl)

  fenced_at :
      (c : Command) (id at : SessionIdentity)
      → (HasMoved w at → perform io c w ≡ (false, w))
      → some at ≡ some id
      → HasMoved w id
      → perform io c w ≡ (false, w)
  fenced_at c id at here e =
      subst (λ i. HasMoved w i → perform io c w ≡ (false, w)) (of_some-eq e) here

  -- A call for an incarnation answers `false` and changes nothing, in memory or in the file, once
  -- another session or another generation holds the record of the thread.
  pub perform-fenced :
      (c : Command) (id : SessionIdentity)
      → acts_for c ≡ some id
      → HasMoved w id
      → perform io c w ≡ (false, w)
  unfolding perform
  perform-fenced (reserves_bytes t sid g expected next) id e m =
      fenced_at (reserves_bytes t sid g expected next) id (stale_rebind_key t sid g)
        (reserve-fenced t sid g expected next) e m
  perform-fenced (removes_if_current t sid g) id e m =
      fenced_at (removes_if_current t sid g) id (stale_rebind_key t sid g) (remove-fenced t sid g) e
        m
  perform-fenced (restores r) id e m =
      fenced_at (restores r) id (identity_of r) (restore-fenced r) e m
  perform-fenced (restores_if_current r sid g) id e m =
      fenced_at (restores_if_current r sid g) id (stale_rebind_key r.thread_id sid g)
        (λ h. ap (λ p. (p.0.ok, p.1)) (restore_if_current-fenced r sid g h)) e m
  perform-fenced (reconciles target action) id e m =
      fenced_at (reconciles target action) id target
        (λ h. ap (λ p. (p.0.ok, p.1)) (reconcile-fenced target action h)) e m
  perform-fenced _ id e m = cc
