-- ===== src/SessionStore/Opened.antt =====
-- A store that was opened on a file, whatever the file holds.
use mathlib.Core.Path.{subst}
use mathlib.Core.Bool.{and-eq-true_iff}
use discord_copilot_sdk.Base.{
  guard, ◌==◌, leb_ℤ, int_eq, string_eq, if◌then◌else◌, ◌&&◌, not, >>=-eq-some, of_some-eq,
  guard-eq-some, ℤ, pos, true, List, [], ◌∷◌, Option, none, some, ◌≡◌, refl, ◌≤ℤ◌, max_ℤ,
  max_ℤ_bounds, arith, All, Option-cases, inl, inr, ◌>>=◌, or_else,
}
use discord_copilot_sdk.Json.{Json, Fields, as_object, prop, as_array, str_prop, num_prop, arr_prop}
use discord_copilot_sdk.SessionStore.Record.{
  schema_version_now, identity_eq, SessionRecord, SessionIdentity, identity_of,
  is_file_delivery_bytes, SessionState, blocked, creating,
}
use discord_copilot_sdk.SessionStore.File.{
  read_schema_version, state_of, read_dev_mode, has_rebind_reason, contains_key, is_blocked, Loaded,
  as_record, read_sessions, read_stale, max_generation, read_container, read_bare, read_records,
  read_file_delivery_bytes,
}
use discord_copilot_sdk.SessionStore.RoundTrip.{IsWritable, IsTerminal, if_truthy_idem}

read_file_delivery_bytes_valid :
    (raw : Option Json) (version n : ℤ)
    → read_file_delivery_bytes raw version ≡ some n
    → is_file_delivery_bytes n ≡ true
unfolding read_file_delivery_bytes is_file_delivery_bytes
read_file_delivery_bytes_valid none version n h = ground arith
read_file_delivery_bytes_valid (some j) version n h = ground arith

as_record-IsWritable :
    (v : Json) (version : ℤ) (r : SessionRecord) → as_record v version ≡ some r → IsWritable r
unfolding as_record
as_record-IsWritable v version r h =
    let (fs, _, h1) = >>=-eq-some (as_object v) _ h in
    let (declared, _, h2) = >>=-eq-some (read_schema_version (prop "schemaVersion" fs)) _ h1 in
    let (_, _, h3) = >>=-eq-some (str_prop "threadId" fs) _ h2 in
    let (_, _, h4) = >>=-eq-some (str_prop "sessionId" fs) _ h3 in
    let (_, _, h5) = >>=-eq-some (num_prop "generation" fs) _ h4 in
    let (_, _, h6) = >>=-eq-some (str_prop "repoPath" fs) _ h5 in
    let (_, _, h7) = >>=-eq-some (str_prop "guildId" fs) _ h6 in
    let (_, _, h8) = >>=-eq-some (str_prop "parentChannelId" fs) _ h7 in
    let (_, _, h9) = >>=-eq-some (num_prop "updatedAt" fs) _ h8 in
    let (_, _, h10) = >>=-eq-some (str_prop "state" fs >>= state_of) _ h9 in
    let (_, _, h11) = >>=-eq-some (guard (declared == version)) _ h10 in
    let (_, _, h12) =
      >>=-eq-some (read_dev_mode (prop "devMode" fs) version (str_prop "branch" fs)) _ h11 in
    let (n, read, h13) =
      >>=-eq-some (read_file_delivery_bytes (prop "fileDeliveryBytes" fs) version) _ h12 in
    subst IsWritable (of_some-eq h13) (record {
      canonical = record {
        branch = if_truthy_idem (str_prop "branch" fs);
        reason = if_truthy_idem (str_prop "reason" fs);
        version = refl;
      };
      bytes = read_file_delivery_bytes_valid (prop "fileDeliveryBytes" fs) version n read;
    })

read_sessions-All :
    (version : ℤ) (vs : List Json) (rs : List SessionRecord)
    → read_sessions version vs ≡ some rs
    → All IsWritable rs
unfolding read_sessions
read_sessions-All version [] rs h = subst (All IsWritable) (of_some-eq h) tt
read_sessions-All version (v ∷ vs) rs h =
    let (r, row, h1) = >>=-eq-some (as_record v version) _ h in
    let (rest, rows, h2) = >>=-eq-some (read_sessions version vs) _ h1 in
    subst (All IsWritable) (of_some-eq h2)
      (as_record-IsWritable v version r row, read_sessions-All version vs rest rows)

is_blocked-eq : (s : SessionState) → is_blocked s ≡ true → s ≡ blocked
is_blocked-eq blocked h = refl
is_blocked-eq creating h = cc
is_blocked-eq _ h = cc

read_stale-All :
    (version : ℤ) (seen : List SessionIdentity) (vs : List Json) (rs : List SessionRecord)
    → read_stale version seen vs ≡ some rs
    → All (λ r. IsWritable r × IsTerminal r) rs
unfolding read_stale
read_stale-All version seen [] rs h =
    subst (All (λ r. IsWritable r × IsTerminal r)) (of_some-eq h) tt
read_stale-All version seen (v ∷ vs) rs h =
    let (r, row, h1) = >>=-eq-some (as_record v version) _ h in
    let (_, fits, h2) =
      >>=-eq-some (guard (is_blocked r.state && has_rebind_reason r.reason)) _ h1 in
    let (_, _, h3) = >>=-eq-some (guard (not (contains_key (identity_of r) seen))) _ h2 in
    let (rest, rows, h4) = >>=-eq-some (read_stale version (identity_of r ∷ seen) vs) _ h3 in
    let both = (and-eq-true_iff _ _).0 (guard-eq-some _ fits) in
    subst (All (λ r. IsWritable r × IsTerminal r)) (of_some-eq h4) (
      (
        as_record-IsWritable v version r row,
        record { blocked = is_blocked-eq r.state both.0; reason = both.1 },
      ),
      read_stale-All version (identity_of r ∷ seen) vs rest rows,
    )

max_generation-bound : (b : ℤ) (rs : List SessionRecord) → b ≤ℤ max_generation b rs
unfolding max_generation
max_generation-bound b [] = omega arith
max_generation-bound b (r ∷ rs) =
    omega (arith, (max_ℤ_bounds b r.generation).0, max_generation-bound (max_ℤ b r.generation) rs)

max_generation-All :
    (b hw : ℤ) (rs : List SessionRecord)
    → max_generation b rs ≤ℤ hw
    → All (λ r. r.generation ≤ℤ hw) rs
unfolding max_generation
max_generation-All b hw [] h = tt
max_generation-All b hw (r ∷ rs) h = (
  omega (arith, (max_ℤ_bounds b r.generation).1, max_generation-bound (max_ℤ b r.generation) rs, h),
  max_generation-All (max_ℤ b r.generation) hw rs h,
)

-- What the readers have checked of a file that they accept.
pub record IsLoaded (l : Loaded) : Type 0 where
  pub sessions : All IsWritable l.sessions
  pub stale : All (λ r. IsWritable r × IsTerminal r) l.stale_rebinds
  pub sessions_fenced : All (λ r. r.generation ≤ℤ l.high_water) l.sessions
  pub stale_fenced : All (λ r. r.generation ≤ℤ l.high_water) l.stale_rebinds

read_container-IsLoaded :
    (fs : Fields) (rows : List Json) (l : Loaded) → read_container fs rows ≡ some l → IsLoaded l
unfolding read_container
read_container-IsLoaded fs rows l h =
    let (version, _, h1) = >>=-eq-some (read_schema_version (prop "schemaVersion" fs)) _ h in
    let (_, _, h2) =
      >>=-eq-some (guard (leb_ℤ (pos 2) version && leb_ℤ version schema_version_now)) _ h1 in
    let (out, sessions, h3) = >>=-eq-some (read_sessions version rows) _ h2 in
    let (items, _, h4) =
      >>=-eq-some (if leb_ℤ (pos 5) version then arr_prop "staleRebinds" fs else some []) _ h3 in
    let (stale, rebinds, h5) = >>=-eq-some (read_stale version [] items) _ h4 in
    let start = or_else (num_prop "generationHighWater" fs) (pos 0) in
    let above = (max_ℤ_bounds (max_generation (max_generation start out) stale) (pos 0)).0 in
    subst IsLoaded (of_some-eq h5) (record {
      sessions = read_sessions-All version rows out sessions;
      stale = read_stale-All version [] _ stale rebinds;
      sessions_fenced =
          max_generation-All start _ out
            (omega (arith, max_generation-bound (max_generation start out) stale, above));
      stale_fenced = max_generation-All (max_generation start out) _ stale above;
    })

read_bare-IsLoaded : (v : Json) (fs : Fields) (l : Loaded) → read_bare v fs ≡ some l → IsLoaded l
unfolding read_bare
read_bare-IsLoaded v fs l h =
    let (version, _, h1) = >>=-eq-some (read_schema_version (prop "schemaVersion" fs)) _ h in
    let (_, _, h2) = >>=-eq-some (guard (version == pos 1)) _ h1 in
    let (r, row, h3) = >>=-eq-some (as_record v (pos 1)) _ h2 in
    subst IsLoaded (of_some-eq h3) (record {
      sessions = (as_record-IsWritable v (pos 1) r row, tt);
      stale = tt;
      sessions_fenced = (omega arith, tt);
      stale_fenced = tt;
    })

pub read_records-IsLoaded : (v : Json) (l : Loaded) → read_records v ≡ some l → IsLoaded l
unfolding read_records
read_records-IsLoaded v l h =
    let (fs, _, h1) = >>=-eq-some (as_object v) _ h in
    elim (Option-cases (prop "sessions" fs)) [
      | inl bare ↦ read_bare-IsLoaded v fs l (rw (← h1, bare) refl)
      | inr (rows, found) ↦
          let (items, _, h2) =
            >>=-eq-some (as_array rows) (read_container fs) (rw (← h1, found) refl) in
          read_container-IsLoaded fs items l h2
    ]
