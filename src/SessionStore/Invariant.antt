-- ===== src/SessionStore/Invariant.antt =====
-- The invariant of a store, and that a restart from its file gives the store back.
use mathlib.Core.Path.{fun_ext, subst}
use discord_copilot_sdk.Base.{
  ℤ, pos, true, false, String, [], Option, none, some, ◌≡◌, refl, ◌≤ℤ◌, Bool-cases, inl, inr, ◌==◌,
  string_eq,
}
use discord_copilot_sdk.Dict.Entries.{
  Entries, Distinct, Entries-map_values, Distinct-map_values, All-values-map_values, map_values,
  values-map_values, index-values,
}
use discord_copilot_sdk.Json.{parsed}
use discord_copilot_sdk.Disk.{Io, written}
use discord_copilot_sdk.SessionStore.Record.{
  SessionRecord, SessionIdentity, identity_eq, identity_of, is_file_delivery_bytes,
  canonicalize_record, if_truthy,
}
use discord_copilot_sdk.SessionStore.File.{render, has_rebind_reason}
use discord_copilot_sdk.SessionStore.State.{
  Store, World, Draft, draft_of, candidate, load, adopt, mutate,
}
use discord_copilot_sdk.SessionStore.RoundTrip.{
  IsTerminal, IsWritable, IsUnseen, read_records-render, canonicalize_record-IsCanonical,
}

-- A primary row under a high-water mark.
pub record IsPrimary (hw : ℤ) (t : String) (r : SessionRecord) : Type 0 where
  pub keyed : t ≡ r.thread_id
  pub bytes : is_file_delivery_bytes r.file_delivery_bytes ≡ true
  pub fenced : r.generation ≤ℤ hw

-- A row of an old incarnation.
pub record IsStale (hw : ℤ) (k : SessionIdentity) (r : SessionRecord) : Type 0 where
  pub keyed : k ≡ identity_of r
  pub bytes : is_file_delivery_bytes r.file_delivery_bytes ≡ true
  pub fenced : r.generation ≤ℤ hw
  pub terminal : IsTerminal r

-- What holds of the two maps and the high-water mark between calls.
pub record IsSound (d : Draft) : Type 0 where
  pub primary : Entries (IsPrimary d.high_water) d.sessions
  pub stale : Entries (IsStale d.high_water) d.stale
  pub one_per_thread : Distinct d.sessions
  pub one_per_incarnation : Distinct d.stale
  pub natural : pos 0 ≤ℤ d.high_water

abbrev pub canonical : SessionRecord → SessionRecord
canonical = canonicalize_record (pos 0)

-- The store as the file has it.
abbrev pub canonical_store : Store → Store
canonical_store s = record {
  sessions = map_values canonical s.sessions;
  stale = map_values canonical s.stale;
  high_water = s.high_water;
  corrupt = s.corrupt;
}

abbrev pub saved : Draft → Store
saved d = record {
  sessions = d.sessions;
  stale = d.stale;
  high_water = d.high_water;
  corrupt = false;
}

canonicalize_record-now : (now : ℤ) → canonicalize_record now ≡ canonical
unfolding canonicalize_record
canonicalize_record-now now = fun_ext (λ r. refl)

canonical-IsWritable :
    (r : SessionRecord)
    → is_file_delivery_bytes r.file_delivery_bytes ≡ true
    → IsWritable (canonical r)
unfolding canonicalize_record
canonical-IsWritable r h = record {
  canonical = canonicalize_record-IsCanonical (pos 0) r;
  bytes = h;
}

if_truthy-has_rebind_reason : (o : Option String) → has_rebind_reason o ≡ true → if_truthy o ≡ o
if_truthy-has_rebind_reason none h = refl
if_truthy-has_rebind_reason (some s) h = elim (Bool-cases (s == "")) [
  | inl empty ↦
      let at_empty : has_rebind_reason (some "") ≡ true =
        subst (λ t. has_rebind_reason (some t) ≡ true) ((string_eq.beq_iff s "").0 empty) h in
      cc at_empty
  | inr some_text ↦ rw some_text refl
]

canonical-IsUnseen :
    {hw : ℤ} (k : SessionIdentity) (r : SessionRecord)
    → IsStale hw k r
    → IsUnseen [] k (canonical r)
unfolding canonicalize_record
canonical-IsUnseen k r h = (
  h.keyed,
  canonical-IsWritable r h.bytes,
  record {
    blocked = h.terminal.blocked;
    reason = rw (if_truthy-has_rebind_reason r.reason h.terminal.reason) h.terminal.reason;
  },
  refl,
)

-- What the file holds after a successful write is what a restart reads.
load-candidate :
    (now : ℤ) (d : Draft)
    → IsSound d
    → load (parsed (render (candidate now d))) ≡ canonical_store (saved d)
unfolding load adopt candidate canonicalize_record
load-candidate now d h =
    let ss = map_values canonical d.sessions in
    let stale = map_values canonical d.stale in
    let read =
      read_records-render d.high_water ss stale
        (All-values-map_values canonical IsWritable d.sessions
          (λ t r p. canonical-IsWritable r p.bytes) h.primary)
        (Entries-map_values canonical (IsStale d.high_water) (IsUnseen []) d.stale
          (λ k r p. canonical-IsUnseen k r p) h.stale)
        (Distinct-map_values canonical d.stale h.one_per_incarnation)
        (All-values-map_values canonical (λ r. r.generation ≤ℤ d.high_water) d.sessions
          (λ t r p. p.fenced) h.primary)
        (All-values-map_values canonical (λ r. r.generation ≤ℤ d.high_water) d.stale
          (λ k r p. p.fenced) h.stale)
        h.natural in
    rw
      (
        canonicalize_record-now now,
        ← values-map_values canonical d.sessions,
        ← values-map_values canonical d.stale,
        read,
        index-values (λ r. r.thread_id) ss
            (Entries-map_values canonical (IsPrimary d.high_water) (λ t r. t ≡ r.thread_id)
              d.sessions (λ t r p. p.keyed) h.primary)
            (Distinct-map_values canonical d.sessions h.one_per_thread),
        index-values identity_of stale
            (Entries-map_values canonical (IsStale d.high_water) (λ k r. k ≡ identity_of r) d.stale
              (λ k r p. p.keyed) h.stale)
            (Distinct-map_values canonical d.stale h.one_per_incarnation),
      )
      refl

-- A restart from the file gives the store in memory, each record in canonical form.
pub record IsRestartable (w : World) : Type 0 where
  pub sound : IsSound (draft_of w.store)
  pub restart : load w.disk ≡ canonical_store w.store

pub mutate-IsRestartable :
    (io : Io) (f : Draft → Draft) (w : World)
    → IsRestartable w
    → IsSound (f (draft_of w.store))
    → IsRestartable (mutate io f w).1
unfolding mutate
mutate-IsRestartable io f w v h = elim (Bool-cases (written io)) [
  | inl ok ↦ rw ok (record { sound = h; restart = load-candidate io.now (f (draft_of w.store)) h })
  | inr lost ↦ rw lost v
]
