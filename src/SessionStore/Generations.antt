-- ===== src/SessionStore/Generations.antt =====
-- Generations are never used again.
use discord_copilot_sdk.Base.{
  ℤ, pos, Bool, true, false, String, ◌≡◌, ◌≤ℤ◌, ◌<ℤ◌, max_ℤ_bounds, suc_ℤ-lt, IsSafe, arith,
  Bool-cases, if◌then◌else◌, Option-cases, inl, inr, or_else, int_eq, string_eq,
}
use discord_copilot_sdk.Dict.{get, has}
use discord_copilot_sdk.Dict.Entries.{Entries, Entries-mono}
use discord_copilot_sdk.Disk.{Io, written}
use discord_copilot_sdk.SessionStore.Record.{
  SessionRecord, SessionBinding, SessionIdentity, identity_eq, is_file_delivery_bytes,
}
use discord_copilot_sdk.SessionStore.State.{World, Draft, draft_of, mutate}
use discord_copilot_sdk.SessionStore.Ops.{
  next_generation, can_retain, retain_stale_rebind, remove_stale_rebind, reserve, update_record,
  commit, set_state, is_current, reserve_file_delivery_bytes, remove, remove_if_current, clear,
  restore, owned_by_other,
}
use discord_copilot_sdk.SessionStore.Fallback.{
  FallbackPrimaryAction, restore_if_current, can_reconcile, reconcile_fallback_primary,
}
use discord_copilot_sdk.SessionStore.Invariant.{IsRestartable}
use discord_copilot_sdk.SessionStore.Commands.{
  Command, step, Reach, here, call, retains_stale, removes_stale, reserves, commits, sets_state,
  reserves_bytes, removes, removes_if_current, clears, restores, restores_if_current, reconciles,
}

abbrev Raises : World → World → Type 0
Raises w w' = w.store.high_water ≤ℤ w'.store.high_water

stays : (w : World) → Raises w w
stays w = omega arith

mutate-Raises :
    (io : Io) (f : Draft → Draft) (w : World)
    → w.store.high_water ≤ℤ (f (draft_of w.store)).high_water
    → Raises w (mutate io f w).1
unfolding mutate
mutate-Raises io f w h = elim (Bool-cases (written io)) [
  | inl ok ↦ rw ok h
  | inr lost ↦ rw lost (omega arith)
]

update_record-Raises :
    (io : Io) (t : String) (f : SessionRecord → SessionRecord) (w : World)
    → Raises w (update_record io t f w).1
unfolding update_record
update_record-Raises io t f w = elim (Option-cases (get t w.store.sessions)) [
  | inl e ↦ rw (e, update_record) (omega arith)
  | inr (r, e) ↦ rw (e, update_record) (mutate-Raises io _ w (omega arith))
]

if-Raises :
    (b : Bool) (p : Bool × World) (q : Bool × World) (w : World)
    → Raises w p.1
    → Raises w q.1
    → Raises w (if b then p else q).1
if-Raises true p q w h k = h
if-Raises false p q w h k = k

restore_if_current-Raises :
    (io : Io) (r : SessionRecord) (sid : String) (g : ℤ) (w : World)
    → Raises w (restore_if_current io r sid g w).1
unfolding restore_if_current
restore_if_current-Raises io r sid g w =
    elim (Bool-cases (is_current (get r.thread_id w.store.sessions) sid g)) [
      | inr moved ↦ rw moved (stays w)
      | inl same ↦ rw same (mutate-Raises io _ w (max_ℤ_bounds w.store.high_water r.generation).0)
    ]

reconcile-Raises :
    (io : Io) (target : SessionIdentity) (action : FallbackPrimaryAction) (w : World)
    → Raises w (reconcile_fallback_primary io target action w).1
unfolding reconcile_fallback_primary
reconcile-Raises io target action w =
    elim (Bool-cases (can_reconcile target action (get target.thread_id w.store.sessions))) [
      | inr refusal ↦ rw refusal (stays w)
      | inl ok ↦ rw ok (mutate-Raises io _ w (stays w))
    ]

step-Raises : (io : Io) (c : Command) (w : World) → Raises w (step io c w)
unfolding step retain_stale_rebind remove_stale_rebind reserve commit set_state
    reserve_file_delivery_bytes remove remove_if_current clear restore
step-Raises io (retains_stale r reason) w =
    if-Raises (can_retain r reason) _ _ w
      (mutate-Raises io _ w (max_ℤ_bounds w.store.high_water r.generation).0) (stays w)
step-Raises io (removes_stale key) w =
    if-Raises (has key w.store.stale) _ _ w (mutate-Raises io _ w (stays w)) (stays w)
step-Raises io (reserves b) w =
    if-Raises (is_file_delivery_bytes (or_else b.file_delivery_bytes (pos 0))) _ _ w
      (mutate-Raises io _ w (max_ℤ_bounds w.store.high_water b.generation).0) (stays w)
step-Raises io (commits t) w = update_record-Raises io t _ w
step-Raises io (sets_state t state reason) w = update_record-Raises io t _ w
step-Raises io (reserves_bytes t sid g expected next) w =
    if-Raises _ _ _ w (update_record-Raises io t _ w) (stays w)
step-Raises io (removes t) w = mutate-Raises io _ w (stays w)
step-Raises io (removes_if_current t sid g) w =
    if-Raises (is_current (get t w.store.sessions) sid g) _ _ w (mutate-Raises io _ w (stays w))
      (stays w)
step-Raises io clears w = mutate-Raises io _ w (stays w)
step-Raises io (restores r) w =
    if-Raises (owned_by_other (get r.thread_id w.store.sessions) r) _ _ w (stays w)
      (mutate-Raises io _ w (max_ℤ_bounds w.store.high_water r.generation).0)
step-Raises io (restores_if_current r sid g) w = restore_if_current-Raises io r sid g w
step-Raises io (reconciles target action) w = reconcile-Raises io target action w

Reach-Raises : {w w' : World} → Reach w w' → Raises w w'
Reach-Raises here = omega arith
Reach-Raises (call {w} r io c a) = omega (arith, Reach-Raises r, step-Raises io c w)

-- From a restartable world whose high-water mark is a safe integer, the number that the store gives
-- to the next incarnation, after any history of admissible calls, is greater than that of every
-- record which it held at that time, primary or stale, also when the record is gone.
pub next_generation-fresh :
    (w w' : World)
    → IsRestartable w
    → IsSafe w.store.high_water
    → Reach w w'
    → Entries (λ t r. r.generation <ℤ next_generation w'.store) w.store.sessions
      × Entries (λ k r. r.generation <ℤ next_generation w'.store) w.store.stale
unfolding next_generation
next_generation-fresh w w' v safe reached =
    let above = suc_ℤ-lt w.store.high_water w'.store.high_water safe (Reach-Raises reached) in
    (
      Entries-mono w.store.sessions (λ t r p. omega (arith, p.fenced, above)) v.sound.primary,
      Entries-mono w.store.stale (λ k r p. omega (arith, p.fenced, above)) v.sound.stale,
    )

reserve-high_water :
    (io : Io) (b : SessionBinding) (w : World)
    → (reserve io b w).0 ≡ true
    → b.generation ≤ℤ (reserve io b w).1.store.high_water
unfolding reserve mutate
reserve-high_water io b w ok = ground (arith, (max_ℤ_bounds w.store.high_water b.generation).1)

-- A generation that is a safe integer and was reserved with success is smaller than every number
-- that the store gives later, whatever admissible calls follow and whatever the file system
-- answers.
pub reserve-next_generation :
    (io : Io) (b : SessionBinding) (w w' : World)
    → IsSafe b.generation
    → (reserve io b w).0 ≡ true
    → Reach (reserve io b w).1 w'
    → b.generation <ℤ next_generation w'.store
unfolding next_generation
reserve-next_generation io b w w' safe ok reached =
    suc_ℤ-lt b.generation w'.store.high_water safe
      (omega (arith, reserve-high_water io b w ok, Reach-Raises reached))
