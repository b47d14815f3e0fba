-- ===== src/ChannelRegistry/Restart.antt =====
-- A channel that is authorized in memory is authorized in the file, and the other way round.
use discord_copilot_sdk.Base.{
  true, false, String, List, [], ◌∷◌, Option, none, some, ◌==◌, string_eq, ◌≡◌, refl, All, arith,
  Bool-cases, inl, inr, beq_refl, ◌||◌, if◌then◌else◌, of_some-eq,
}
use mathlib.Core.Path.{subst}
use discord_copilot_sdk.Dict.{Dict, has}
use discord_copilot_sdk.Dict.Laws.{has-set, has-delete}
use discord_copilot_sdk.Dict.Entries.{
  Entries, Distinct, Entries-set, Entries-delete, Entries-mono, Distinct-set, Distinct-delete,
  All-values, index-values,
}
use discord_copilot_sdk.Json.{parsed, missing}
use discord_copilot_sdk.Disk.{Io, written}
use discord_copilot_sdk.ChannelRegistry.File.{ChannelEntry, render, nonempty, read_registry-render}
use discord_copilot_sdk.ChannelRegistry.{
  Config, World, candidate, accept, open_registry, write_required, seed_entry, commit, enable,
  disable, is_enabled,
}

abbrev IsListed : String → ChannelEntry → Type 0
IsListed k e = (k ≡ e.id) × (nonempty e.id ≡ true)

-- What a restart makes of the file: the same channels.
abbrev pub reopened : World → World
reopened w = record w {
  registry = record { enabled = w.registry.enabled; corrupt = false; epoch = 0 };
}

pub record IsFaithful (c : Config) (w : World) : Type 0 where
  pub healthy : w.registry.corrupt ≡ false
  pub listed : Entries IsListed w.registry.enabled
  pub distinct : Distinct w.registry.enabled
  pub restart : (io : Io) → open_registry io c w.disk ≡ some (reopened w)

module _ (c : Config) (guild : nonempty c.guild_id ≡ true) where
  open-candidate :
      (io : Io) (m : Dict String ChannelEntry)
      → Entries IsListed m
      → Distinct m
      → open_registry io c (parsed (render (candidate c m)))
        ≡ some (record {
          registry = record { enabled = m; corrupt = false; epoch = 0 };
          disk = parsed (render (candidate c m));
        })
  unfolding open_registry accept
  open-candidate io m listed distinct =
      rw
        (
          read_registry-render (candidate c m) guild
              (All-values (λ e. nonempty e.id ≡ true) m (λ k e p. p.1) listed),
          open_registry,
        )
        (rw
          (
            beq_refl c.guild_id,
            index-values (λ e. e.id) m (Entries-mono m (λ k e p. p.0) listed) distinct,
          )
          refl)

  commit-IsFaithful :
      (io : Io) (m : Dict String ChannelEntry) (w : World)
      → IsFaithful c w
      → Entries IsListed m
      → Distinct m
      → IsFaithful c (commit io c m w).1
  unfolding commit
  commit-IsFaithful io m w v listed distinct = elim (Bool-cases (written io)) [
    | inr lost ↦ rw lost v
    | inl ok ↦ rw ok (record {
      healthy = v.healthy;
      listed = listed;
      distinct = distinct;
      restart = λ io'. open-candidate io' m listed distinct;
    })
  ]

  -- Enabling a channel keeps the registry and its file in step, whether or not the write succeeds.
  pub enable-IsFaithful :
      (io : Io) (channel added_by : String) (w : World)
      → nonempty channel ≡ true
      → IsFaithful c w
      → IsFaithful c (enable io c channel added_by w).1
  unfolding enable
  enable-IsFaithful io channel added_by w named v =
      elim (Bool-cases (has channel w.registry.enabled)) [
        | inl there ↦ simp (v.healthy, there) v
        | inr new ↦
            simp (v.healthy, new)
              (commit-IsFaithful io _ w v
                (Entries-set IsListed channel _ w.registry.enabled (refl, named) v.listed)
                (Distinct-set channel _ w.registry.enabled v.distinct))
      ]

  pub disable-IsFaithful :
      (io : Io) (channel : String) (w : World)
      → IsFaithful c w
      → IsFaithful c (disable io c channel w).1
  unfolding disable
  disable-IsFaithful io channel w v = elim (Bool-cases (has channel w.registry.enabled)) [
    | inr absent ↦ simp (v.healthy, absent) v
    | inl there ↦
        simp (v.healthy, there)
          (commit-IsFaithful io _ w v (Entries-delete IsListed channel w.registry.enabled v.listed)
            (Distinct-delete channel w.registry.enabled v.distinct))
  ]

-- The answer `true` of `enable` means that the channel is authorized, and that no other channel's
-- authorization has changed.
pub enable-true :
    (io : Io) (c : Config) (channel added_by : String) (w : World)
    → (enable io c channel added_by w).0 ≡ true
    → (other : String)
    → is_enabled other (enable io c channel added_by w).1.registry
      ≡ (channel == other || is_enabled other w.registry)
unfolding enable commit is_enabled
enable-true io c channel added_by w h other = ground (
  arith,
  has-set channel other (record { id = channel; added_by = added_by; added_at = io.now })
      w.registry.enabled,
  string_eq.beq_iff channel other,
)

-- The answer `true` of `disable` means that the channel is not authorized any more, and that no
-- other channel's authorization has changed.
pub disable-true :
    (io : Io) (c : Config) (channel : String) (w : World)
    → (disable io c channel w).0 ≡ true
    → (other : String)
    → is_enabled other (disable io c channel w).1.registry
      ≡ (if channel == other then false else is_enabled other w.registry)
unfolding disable commit is_enabled
disable-true io c channel w h other =
    ground (arith, has-delete channel other w.registry.enabled, string_eq.beq_iff channel other)

pub data Call : Type 0 where
  enables : String → String → Call
  disables : String → Call

-- A channel id is not empty.
abbrev pub IsNamed : Io × Call → Type 0
IsNamed (io, enables channel added_by) = nonempty channel ≡ true
IsNamed (io, disables channel) = Unit

unfoldable pub step : Config → Io × Call → World → World
step c (io, enables channel added_by) w = (enable io c channel added_by w).1
step c (io, disables channel) w = (disable io c channel w).1

unfoldable pub run : Config → List (Io × Call) → World → World
unfolding step
run c [] w = w
run c (x ∷ xs) w = run c xs (step c x w)

run-IsFaithful :
    (c : Config) (xs : List (Io × Call)) (w : World)
    → nonempty c.guild_id ≡ true
    → All IsNamed xs
    → IsFaithful c w
    → IsFaithful c (run c xs w)
unfolding run
run-IsFaithful c [] w guild h v = v
run-IsFaithful c ((io, enables channel by) ∷ xs) w guild (p, h) v =
    run-IsFaithful c xs _ guild h (enable-IsFaithful c guild io channel by w p v)
run-IsFaithful c ((io, disables channel) ∷ xs) w guild (p, h) v =
    run-IsFaithful c xs _ guild h (disable-IsFaithful c guild io channel w v)

-- The first start, on a missing file.
pub open_registry-IsFaithful :
    (io : Io) (c : Config) (w : World)
    → nonempty c.guild_id ≡ true
    → nonempty c.default_channel ≡ true
    → open_registry io c missing ≡ some w
    → IsFaithful c w
unfolding open_registry write_required
open_registry-IsFaithful io c w guild named h = elim (Bool-cases (written io)) [
  | inr lost ↦ absurd (let bad : ◌≡◌ {A = Option World} none (some w) = rw lost at h in cc)
  | inl ok ↦ subst (IsFaithful c) (of_some-eq (rw ok at h)) (record {
    healthy = refl;
    listed = ((refl, named), tt);
    distinct = (unfold has in refl, tt);
    restart = λ later.
        open-candidate c guild later ((c.default_channel, seed_entry c io.now) ∷ [])
          ((refl, named), tt) (unfold has in refl, tt);
  })
]

-- From a first start on a missing file, with a guild and a default channel that are named, after
-- any calls of `enable` and `disable` on named channels and whatever the file system answers, a restart succeeds and authorizes exactly the channels that are authorized
-- in memory.
pub is_enabled-reopened :
    (first later : Io) (c : Config) (start : World) (xs : List (Io × Call))
    → nonempty c.guild_id ≡ true
    → nonempty c.default_channel ≡ true
    → open_registry first c missing ≡ some start
    → All IsNamed xs
    → (w' : World) × (open_registry later c (run c xs start).disk ≡ some w')
      × ((channel : String)
          → is_enabled channel w'.registry ≡ is_enabled channel (run c xs start).registry)
unfolding is_enabled
is_enabled-reopened first later c start xs guild named opened h =
    let after =
      run-IsFaithful c xs start guild h
        (open_registry-IsFaithful first c start guild named opened) in
    (reopened (run c xs start), after.restart later, λ channel. rw after.healthy refl)
