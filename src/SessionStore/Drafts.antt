-- ===== src/SessionStore/Drafts.antt =====
-- The drafts that the methods write keep the invariant.
use discord_copilot_sdk.Base.{
  ℤ, true, String, List, [], ◌∷◌, ◌≡◌, refl, ◌≤ℤ◌, max_ℤ, max_ℤ_cases, arith, Option-cases, inl,
  inr, string_eq, int_eq,
}
use discord_copilot_sdk.Dict.{get, set, delete}
use discord_copilot_sdk.Dict.Entries.{
  Entries, Entries-set, Entries-delete, Entries-get, Entries-mono, Distinct-set, Distinct-delete,
}
use discord_copilot_sdk.SessionStore.Record.{
  SessionRecord, SessionIdentity, identity_eq, is_file_delivery_bytes,
}
use discord_copilot_sdk.SessionStore.State.{Draft}
use discord_copilot_sdk.SessionStore.Invariant.{IsPrimary, IsStale, IsSound}
use discord_copilot_sdk.SessionStore.Ops.{bytes_of}
use discord_copilot_sdk.SessionStore.Fallback.{delete_all}

module _ (d : Draft) (h : IsSound d) where
  pub raise-IsPrimary : (hw : ℤ) → d.high_water ≤ℤ hw → Entries (IsPrimary hw) d.sessions
  raise-IsPrimary hw le =
      Entries-mono d.sessions
        (λ t r p. record { keyed = p.keyed; bytes = p.bytes; fenced = omega (arith, p.fenced, le) })
        h.primary

  pub raise-IsStale : (hw : ℤ) → d.high_water ≤ℤ hw → Entries (IsStale hw) d.stale
  raise-IsStale hw le =
      Entries-mono d.stale
        (λ t r p. record {
          keyed = p.keyed;
          bytes = p.bytes;
          fenced = omega (arith, p.fenced, le);
          terminal = p.terminal;
        })
        h.stale

  pub set-IsSound :
      (hw : ℤ) (t : String) (r : SessionRecord)
      → d.high_water ≤ℤ hw
      → IsPrimary hw t r
      → IsSound (record d { sessions = set t r d.sessions; high_water = hw })
  set-IsSound hw t r le p = record {
    primary = Entries-set (IsPrimary hw) t r d.sessions p (raise-IsPrimary hw le);
    stale = raise-IsStale hw le;
    one_per_thread = Distinct-set t r d.sessions h.one_per_thread;
    one_per_incarnation = h.one_per_incarnation;
    natural = omega (arith, h.natural, le);
  }

  pub retain-IsSound :
      (hw : ℤ) (k : SessionIdentity) (r : SessionRecord)
      → d.high_water ≤ℤ hw
      → IsStale hw k r
      → IsSound (record d { stale = set k r d.stale; high_water = hw })
  retain-IsSound hw k r le p = record {
    primary = raise-IsPrimary hw le;
    stale = Entries-set (IsStale hw) k r d.stale p (raise-IsStale hw le);
    one_per_thread = h.one_per_thread;
    one_per_incarnation = Distinct-set k r d.stale h.one_per_incarnation;
    natural = omega (arith, h.natural, le);
  }

  pub delete-IsSound : (t : String) → IsSound (record d { sessions = delete t d.sessions })
  delete-IsSound t = record {
    primary = Entries-delete (IsPrimary d.high_water) t d.sessions h.primary;
    stale = h.stale;
    one_per_thread = Distinct-delete t d.sessions h.one_per_thread;
    one_per_incarnation = h.one_per_incarnation;
    natural = h.natural;
  }

  pub forget-IsSound : (k : SessionIdentity) → IsSound (record d { stale = delete k d.stale })
  forget-IsSound k = record {
    primary = h.primary;
    stale = Entries-delete (IsStale d.high_water) k d.stale h.stale;
    one_per_thread = h.one_per_thread;
    one_per_incarnation = Distinct-delete k d.stale h.one_per_incarnation;
    natural = h.natural;
  }

  pub clear-IsSound : IsSound (record d { sessions = [] })
  clear-IsSound = record {
    primary = tt;
    stale = h.stale;
    one_per_thread = tt;
    one_per_incarnation = h.one_per_incarnation;
    natural = h.natural;
  }

pub forget_all-IsSound :
    (ids : List SessionIdentity) (d : Draft)
    → IsSound d
    → IsSound (record d { stale = delete_all ids d.stale })
unfolding delete_all
forget_all-IsSound [] d h = h
forget_all-IsSound (id ∷ ids) d h =
    forget_all-IsSound ids (record d { stale = delete id d.stale }) (forget-IsSound d h id)

-- The larger of two reserved totals is one.
pub max_ℤ-is_file_delivery_bytes :
    (a b : ℤ)
    → is_file_delivery_bytes a ≡ true
    → is_file_delivery_bytes b ≡ true
    → is_file_delivery_bytes (max_ℤ a b) ≡ true
max_ℤ-is_file_delivery_bytes a b p q = elim (max_ℤ_cases a b) [ inl e ↦ rw e p | inr e ↦ rw e q ]

pub bytes_of-primary :
    (d : Draft) (t : String)
    → IsSound d
    → is_file_delivery_bytes (bytes_of (get t d.sessions)) ≡ true
bytes_of-primary d t h = elim (Option-cases (get t d.sessions)) [
  | inl e ↦ rw e (unfold is_file_delivery_bytes in refl)
  | inr (r, e) ↦ rw e (Entries-get (IsPrimary d.high_water) t r d.sessions h.primary e).bytes
]

pub bytes_of-stale :
    (d : Draft) (k : SessionIdentity)
    → IsSound d
    → is_file_delivery_bytes (bytes_of (get k d.stale)) ≡ true
bytes_of-stale d k h = elim (Option-cases (get k d.stale)) [
  | inl e ↦ rw e (unfold is_file_delivery_bytes in refl)
  | inr (r, e) ↦ rw e (Entries-get (IsStale d.high_water) k r d.stale h.stale e).bytes
]
