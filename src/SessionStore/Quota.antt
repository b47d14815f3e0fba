-- ===== src/SessionStore/Quota.antt =====
-- The reserved total of a thread's attachments: a compare-and-set that only one caller wins.
use discord_copilot_sdk.Base.{
  ℤ, Bool, true, false, String, Option, none, some, ◌≡◌, refl, ◌<ℤ◌, arith, Bool-cases, inl, inr,
  ◌==◌, int_eq, string_eq, beq_refl, if◌then◌else◌, ap, pos_part, neg_part,
}
use mathlib.Core.Bool.{and-eq-true_iff, false≢true}
use discord_copilot_sdk.Dict.{get, set}
use discord_copilot_sdk.Dict.Laws.{get-set}
use discord_copilot_sdk.Disk.{Io, written}
use discord_copilot_sdk.SessionStore.Record.{SessionRecord, identity_eq}
use discord_copilot_sdk.SessionStore.State.{World, mutate}
use discord_copilot_sdk.SessionStore.Ops.{
  update_record, is_current, can_reserve_bytes, reserve_file_delivery_bytes, bytes_of,
}

can_reserve_bytes-lt :
    (sid : String) (g expected next : ℤ)
    → can_reserve_bytes sid g expected next ≡ true
    → expected <ℤ next
unfolding can_reserve_bytes
can_reserve_bytes-lt sid g expected next h = ground arith

is_current-some :
    (o : Option SessionRecord) (sid : String) (g : ℤ)
    → is_current o sid g ≡ true
    → (r : SessionRecord) × (o ≡ some r) × (r.session_id ≡ sid) × (r.generation ≡ g)
unfolding is_current
is_current-some none sid g h = cc
is_current-some (some r) sid g h = (
  r,
  refl,
  ground (arith, string_eq.beq_iff r.session_id sid),
  ground (arith, int_eq.beq_iff r.generation g),
)

guarded-true :
    (b : Bool) (p : Bool × World) (w : World) → (if b then p else (false, w)).0 ≡ true → b ≡ true
guarded-true true p w h = refl
guarded-true false p w h = cc

-- The record that a reservation with success found, and what it left.
pub record Reserved (io : Io) (t sid : String) (g expected next : ℤ) (w w' : World) : Type 0 where
  pub found : SessionRecord
  pub listed : get t w.store.sessions ≡ some found
  pub session : found.session_id ≡ sid
  pub generation : found.generation ≡ g
  pub unspent : found.file_delivery_bytes ≡ expected
  pub grows : expected <ℤ next
  pub others :
      (j : String)
      → get j w'.store.sessions ≡ (
          if t == j
          then some (record found { file_delivery_bytes = next; updated_at = io.now })
          else get j w.store.sessions)

lt-not_eqb : (a b : ℤ) → a <ℤ b → (b == a) ≡ false
lt-not_eqb a b h = elim (Bool-cases (b == a)) [
  | inr other ↦ other
  | inl same ↦
      absurd
        (let e : b ≡ a = (int_eq.beq_iff b a).0 same in omega (arith, ap pos_part e, ap neg_part e))
]

reserve_file_delivery_bytes-moved :
    (io : Io) (t sid : String) (g expected next : ℤ) (w : World)
    → (bytes_of (get t w.store.sessions) == expected) ≡ false
    → (reserve_file_delivery_bytes io t sid g expected next w).0 ≡ false
unfolding reserve_file_delivery_bytes
reserve_file_delivery_bytes-moved io t sid g expected next w h =
    rw h (elim (Bool-cases (can_reserve_bytes sid g expected next)) [
      | inr bad ↦ rw bad refl
      | inl good ↦ rw good (elim (Bool-cases (is_current (get t w.store.sessions) sid g)) [
        | inr moved ↦ rw moved refl
        | inl same ↦ rw same refl
      ])
    ])

module _ (io : Io) (t sid : String) (g expected next : ℤ) (w : World) where
  update_record-true :
      (f : SessionRecord → SessionRecord) (r : SessionRecord)
      → get t w.store.sessions ≡ some r
      → (update_record io t f w).0 ≡ true
      → (j : String)
      → get j (update_record io t f w).1.store.sessions
        ≡ (if t == j then some (f r) else get j w.store.sessions)
  unfolding update_record mutate
  update_record-true f r listed done j =
      rw (listed, update_record) (stored (written io) refl (rw (listed, update_record) at done))
    where
      after : Bool × World
      after = mutate io (λ d. record d { sessions = set t (f r) d.sessions }) w

      stored :
          (b : Bool)
          → written io ≡ b
          → after.0 ≡ true
          → get j after.1.store.sessions ≡ (if t == j then some (f r) else get j w.store.sessions)
      stored true ok h = rw ok (get-set t j (f r) w.store.sessions)
      stored false lost h = absurd (false≢true (rw lost at h))

  -- A reservation that answers `true` found the incarnation that it names with the total that it
  -- expects, raised that total, and left the record of every other thread as it was.
  pub reserve_file_delivery_bytes-Reserved :
      (reserve_file_delivery_bytes io t sid g expected next w).0 ≡ true
      → Reserved io t sid g expected next w
          (reserve_file_delivery_bytes io t sid g expected next w).1
  unfolding reserve_file_delivery_bytes
  reserve_file_delivery_bytes-Reserved done =
      let slot = get t w.store.sessions in
      let pass = guarded-true _ _ w done in
      let (allowed, rest) = (and-eq-true_iff (can_reserve_bytes sid g expected next) _).0 pass in
      let (current, unspent) = (and-eq-true_iff _ (bytes_of slot == expected)).0 rest in
      let (r, listed, session, generation) = is_current-some slot sid g current in
      rw pass (record {
        found = r;
        listed = listed;
        session = session;
        generation = generation;
        unspent = (int_eq.beq_iff _ expected).0 (rw listed at unspent);
        grows = can_reserve_bytes-lt sid g expected next allowed;
        others = update_record-true _ r listed (rw pass at done);
      })

  -- Of two callers that expect the same total of one thread, the second to reserve is refused once
  -- the first has succeeded.
  pub reserve_file_delivery_bytes_exclusive :
      (io' : Io) (sid' : String) (g' next' : ℤ)
      → (reserve_file_delivery_bytes io t sid g expected next w).0 ≡ true
      → (reserve_file_delivery_bytes io' t sid' g' expected next'
          (reserve_file_delivery_bytes io t sid g expected next w).1).0
        ≡ false
  reserve_file_delivery_bytes_exclusive io' sid' g' next' done =
      let won = reserve_file_delivery_bytes-Reserved done in
      let now_next : bytes_of
            (get t (reserve_file_delivery_bytes io t sid g expected next w).1.store.sessions)
          ≡ next =
        rw (won.others t, beq_refl t) refl in
      reserve_file_delivery_bytes-moved io' t sid' g' expected next' _
        (rw now_next (lt-not_eqb expected next won.grows))
