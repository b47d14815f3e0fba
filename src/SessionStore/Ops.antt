-- ===== src/SessionStore/Ops.antt =====
-- core/session-store.ts: the methods of `SessionStore` on one record, each as a step on the store
-- and its file. The result is what the method returns.
use discord_copilot_sdk.Base.{
  ℤ, pos, Bool, true, false, ◌&&◌, ◌||◌, not, String, List, [], ◌∷◌, Option, none, some, ◌==◌,
  max_ℤ, suc_ℤ, leb_ℤ, is_safe_integer, or_else, if◌then◌else◌, int_eq, string_eq,
}
use discord_copilot_sdk.Dict.{get, has, set, delete}
use discord_copilot_sdk.Disk.{Io}
use discord_copilot_sdk.SessionStore.Record.{
  SessionState, creating, active, blocked, SessionRecord, SessionBinding, SessionIdentity,
  identity_eq, identity_of, binding_of, if_truthy, is_file_delivery_bytes, is_session_identity,
  is_rebind_reason, to_record,
}
use discord_copilot_sdk.SessionStore.State.{Store, World, mutate}

unfoldable pub next_generation : Store → ℤ
next_generation s = suc_ℤ s.high_water

abbrev pub stale_rebinds_for_thread : String → List SessionRecord → List SessionRecord
stale_rebinds_for_thread t [] = []
stale_rebinds_for_thread t (r ∷ rs) =
    let rest = stale_rebinds_for_thread t rs in if r.thread_id == t then r ∷ rest else rest

-- `prior?.fileDeliveryBytes ?? 0`
abbrev pub bytes_of : Option SessionRecord → ℤ
bytes_of none = pos 0
bytes_of (some r) = r.file_delivery_bytes

-- The record that `retainStaleRebind` keeps.
abbrev pub stale_record : ℤ → SessionRecord → String → ℤ → SessionRecord
stale_record now r reason bytes = record (to_record now (binding_of r bytes)) {
  state = blocked;
  reason = some reason;
  updated_at = now;
}

unfoldable pub can_retain : SessionRecord → String → Bool
can_retain r reason =
    is_session_identity (identity_of r)
    && (is_file_delivery_bytes r.file_delivery_bytes && is_rebind_reason reason)

unfoldable pub retain_stale_rebind : Io → SessionRecord → String → World → Bool × World
retain_stale_rebind io r reason w =
    if can_retain r reason
    then mutate io
        (λ d.
          let key = identity_of r in
          let bytes = max_ℤ (bytes_of (get key d.stale)) r.file_delivery_bytes in
          record d {
            stale = set key (stale_record io.now r reason bytes) d.stale;
            high_water = max_ℤ d.high_water r.generation;
          })
        w
    else (false, w)

unfoldable pub remove_stale_rebind : Io → SessionIdentity → World → Bool × World
remove_stale_rebind io key w =
    if has key w.store.stale
    then mutate io (λ d. record d { stale = delete key d.stale }) w
    else (true, w)

unfoldable pub reserve : Io → SessionBinding → World → Bool × World
reserve io b w =
    if is_file_delivery_bytes (or_else b.file_delivery_bytes (pos 0))
    then mutate io
        (λ d. record d {
          sessions = set b.thread_id (record (to_record io.now b) { state = creating }) d.sessions;
          high_water = max_ℤ d.high_water b.generation;
        })
        w
    else (false, w)

-- The record of a thread replaced by an update of itself; `false` when there is none.
unfoldable pub update_record : Io → String → (SessionRecord → SessionRecord) → World → Bool × World
update_record io t f w = elim (get t w.store.sessions) [
  | none ↦ (false, w)
  | some cur ↦ mutate io (λ d. record d { sessions = set t (f cur) d.sessions }) w
]

unfoldable pub commit : Io → String → World → Bool × World
commit io t w =
    update_record io t (λ cur. record cur { state = active; reason = none; updated_at = io.now }) w

unfoldable pub set_state : Io → String → SessionState → Option String → World → Bool × World
set_state io t state reason w =
    update_record io t (λ cur. record cur { state = state; reason = reason; updated_at = io.now }) w

-- The record is still the incarnation that the caller knows.
unfoldable pub is_current : Option SessionRecord → String → ℤ → Bool
is_current none sid g = false
is_current (some cur) sid g = cur.session_id == sid && cur.generation == g

unfoldable pub can_reserve_bytes : String → ℤ → ℤ → ℤ → Bool
can_reserve_bytes sid g expected next =
    not (sid == "")
    && (is_safe_integer g
        && (leb_ℤ (pos 1) g
            && (is_file_delivery_bytes expected
                && (is_file_delivery_bytes next && not (leb_ℤ next expected)))))

unfoldable pub reserve_file_delivery_bytes : Io → String → String → ℤ → ℤ → ℤ → World → Bool × World
reserve_file_delivery_bytes io t sid g expected next w =
    let current = get t w.store.sessions in
    if can_reserve_bytes sid g expected next
      && (is_current current sid g && bytes_of current == expected)
    then update_record io t (λ r. record r { file_delivery_bytes = next; updated_at = io.now }) w
    else (false, w)

unfoldable pub remove : Io → String → World → Bool × World
remove io t w = mutate io (λ d. record d { sessions = delete t d.sessions }) w

unfoldable pub remove_if_current : Io → String → String → ℤ → World → Bool × World
remove_if_current io t sid g w =
    if is_current (get t w.store.sessions) sid g
    then mutate io (λ d. record d { sessions = delete t d.sessions }) w
    else (false, w)

unfoldable pub clear : Io → World → Bool × World
clear io w = mutate io (λ d. record d { sessions = [] }) w

-- The record that a restore writes: a fresh stamp, the state and a non-empty reason kept.
abbrev pub restored : ℤ → SessionRecord → ℤ → SessionRecord
restored now r bytes = record (to_record now (binding_of r bytes)) {
  state = r.state;
  reason = if_truthy r.reason;
}

abbrev pub owned_by_other : Option SessionRecord → SessionRecord → Bool
owned_by_other none r = false
owned_by_other (some cur) r =
    not (cur.session_id == r.session_id) || not (cur.generation == r.generation)

unfoldable pub restore : Io → SessionRecord → World → Bool × World
restore io r w =
    let current = get r.thread_id w.store.sessions in
    if owned_by_other current r
    then (false, w)
    else mutate io
        (λ d. record d {
          sessions =
              set r.thread_id (restored io.now r (max_ℤ (bytes_of current) r.file_delivery_bytes))
                d.sessions;
          high_water = max_ℤ d.high_water r.generation;
        })
        w
