-- ===== src/SessionStore/Restart.antt =====
-- A restart at any point of a history of calls.
use discord_copilot_sdk.Base.{
  ℤ, pos, String, List, [], ◌∷◌, some, ◌≡◌, refl, ◌≤ℤ◌, arith, All, inl, inr, Option-cases,
  string_eq,
}
use discord_copilot_sdk.Dict.{index_from}
use discord_copilot_sdk.Dict.Entries.{
  Entries, index_from-Entries, index_from-Distinct, map_values_fixed, Entries-mono,
}
use discord_copilot_sdk.Json.{Content, missing, parsed}
use discord_copilot_sdk.SessionStore.Record.{
  SessionRecord, SessionIdentity, identity_eq, identity_of,
}
use discord_copilot_sdk.SessionStore.File.{Loaded, read_records}
use discord_copilot_sdk.SessionStore.State.{World, draft_of, load, adopt, open_store}
use discord_copilot_sdk.SessionStore.RoundTrip.{
  IsCanonical, IsWritable, IsTerminal, canonicalize_record_fixed,
}
use discord_copilot_sdk.SessionStore.Invariant.{
  IsPrimary, IsStale, IsSound, IsRestartable, canonical, canonical_store,
}
use discord_copilot_sdk.SessionStore.Opened.{IsLoaded, read_records-IsLoaded}
use discord_copilot_sdk.SessionStore.Commands.{Reach}
use discord_copilot_sdk.SessionStore.Preserved.{Reach-IsRestartable}

All-zip :
    {A : Type 0} (P Q R : A → Type 0) (xs : List A)
    → ((x : A) → P x → Q x → R x)
    → All P xs
    → All Q xs
    → All R xs
All-zip P Q R [] f _ _ = tt
All-zip P Q R (x ∷ xs) f (p, ps) (q, qs) = (f x p q, All-zip P Q R xs f ps qs)

abbrev IsReadPrimary : ℤ → String → SessionRecord → Type 0
IsReadPrimary hw t r = IsPrimary hw t r × IsCanonical r

abbrev IsReadStale : ℤ → SessionIdentity → SessionRecord → Type 0
IsReadStale hw k r = IsStale hw k r × IsCanonical r

module _ (l : Loaded) (h : IsLoaded l) where
  adopted_sessions :
      Entries (IsReadPrimary l.high_water) (index_from (λ r. r.thread_id) [] l.sessions)
  adopted_sessions =
      index_from-Entries (IsReadPrimary l.high_water) (λ r. r.thread_id) [] l.sessions
        (All-zip IsWritable (λ r. r.generation ≤ℤ l.high_water)
          (λ r. IsReadPrimary l.high_water r.thread_id r) l.sessions
          (λ r p q. (record { keyed = refl; bytes = p.bytes; fenced = q }, p.canonical)) h.sessions
          h.sessions_fenced)
        tt

  adopted_stale : Entries (IsReadStale l.high_water) (index_from identity_of [] l.stale_rebinds)
  adopted_stale =
      index_from-Entries (IsReadStale l.high_water) identity_of [] l.stale_rebinds
        (All-zip (λ r. IsWritable r × IsTerminal r) (λ r. r.generation ≤ℤ l.high_water)
          (λ r. IsReadStale l.high_water (identity_of r) r) l.stale_rebinds
          (λ r p q.
            (record { keyed = refl; bytes = p.0.bytes; fenced = q; terminal = p.1 }, p.0.canonical))
          h.stale h.stale_fenced)
        tt

  adopt-IsSound : pos 0 ≤ℤ l.high_water → IsSound (draft_of (adopt (some l)))
  unfolding adopt
  adopt-IsSound natural = record {
    primary = Entries-mono _ (λ t r p. p.0) adopted_sessions;
    stale = Entries-mono _ (λ k r p. p.0) adopted_stale;
    one_per_thread = index_from-Distinct (λ r. r.thread_id) [] l.sessions tt;
    one_per_incarnation = index_from-Distinct identity_of [] l.stale_rebinds tt;
    natural = natural;
  }

  adopt-canonical : adopt (some l) ≡ canonical_store (adopt (some l))
  unfolding adopt
  adopt-canonical =
      rw
        (
          map_values_fixed canonical (index_from (λ r. r.thread_id) [] l.sessions)
              (λ t r p. canonicalize_record_fixed (pos 0) r p.1) adopted_sessions,
          map_values_fixed canonical (index_from identity_of [] l.stale_rebinds)
              (λ k r p. canonicalize_record_fixed (pos 0) r p.1) adopted_stale,
        )
        refl

load-IsSound :
    (disk : Content)
    → pos 0 ≤ℤ (load disk).high_water
    → IsSound (draft_of (load disk)) × (load disk ≡ canonical_store (load disk))
unfolding load adopt
load-IsSound (parsed v) natural = elim (Option-cases (read_records v)) [
  | inl bad ↦ rw bad (
    record {
      primary = tt;
      stale = tt;
      one_per_thread = tt;
      one_per_incarnation = tt;
      natural = omega arith;
    },
    refl,
  )
  | inr (l, good) ↦
      let h = read_records-IsLoaded v l good in
      rw good (adopt-IsSound l h (rw good at natural), adopt-canonical l h)
]
load-IsSound missing natural = (
  record {
    primary = tt;
    stale = tt;
    one_per_thread = tt;
    one_per_incarnation = tt;
    natural = omega arith;
  },
  refl,
)
load-IsSound _ natural = (
  record {
    primary = tt;
    stale = tt;
    one_per_thread = tt;
    one_per_incarnation = tt;
    natural = omega arith;
  },
  refl,
)

pub open_store-IsRestartable :
    (disk : Content) → pos 0 ≤ℤ (load disk).high_water → IsRestartable (open_store disk)
open_store-IsRestartable disk natural = record {
  sound = (load-IsSound disk natural).0;
  restart = (load-IsSound disk natural).1;
}

-- Whatever the file held at the start and whatever the file system answers to the writes, after
-- any history of admissible calls a restart reads from the file the store that is in memory, each
-- record in the form in which it is written. The start needs a high-water mark that is not
-- negative.
pub restart-Reach :
    (disk : Content) (w : World)
    → pos 0 ≤ℤ (load disk).high_water
    → Reach (open_store disk) w
    → load w.disk ≡ canonical_store w.store
restart-Reach disk w natural r =
    (Reach-IsRestartable (open_store-IsRestartable disk natural) r).restart
