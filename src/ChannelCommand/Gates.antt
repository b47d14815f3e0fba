-- ===== src/ChannelCommand/Gates.antt =====
-- What `/channel` does, it may do, and what it says of the channel is true.
use discord_copilot_sdk.Base.{
  Bool, true, false, ◌&&◌, not, String, List, [], ◌∷◌, ◌++◌, Option, none, some, ◌==◌, string_eq,
  if◌then◌else◌, ◌≡◌, ◌≢◌, refl, arith, Bool-cases, inl, inr, ◌⊎◌, ◌∙◌, sym, All,
}
use mathlib.Core.Bool.{false≢true}
use discord_copilot_sdk.Access.{is_owner, contains}
use discord_copilot_sdk.Access.Laws.{ActsAsOwner, is_owner_sound}
use discord_copilot_sdk.ChannelRegistry
use discord_copilot_sdk.ChannelRegistry.{is_enabled, enable, disable, commit}
use discord_copilot_sdk.Chunk.{Text}
use discord_copilot_sdk.Dict.{Dict, values}
use discord_copilot_sdk.Dict.Laws.{has-set, has-delete}
use discord_copilot_sdk.Disk.{Io}
use discord_copilot_sdk.Lifecycle as Lifecycle
use discord_copilot_sdk.SessionStore.Record.{SessionRecord}
use discord_copilot_sdk.ChannelCommand.{
  Host, Subcommand, enabling, disabling, listing, unknown, Command, already_enabled, not_written,
  was_not_enabled, disabled, not_removed, announced, enabled, Act, says, enables, disables, Awaits,
  Run, said, said_safely, lost_reason, has, is_held, add, session_holders, record_holders,
  channel_holders, unless_lost, acknowledged, checked, deferred, channel_enable, unless_held,
  channel_disable, channel_list, target_of, commanded, aimed, is_listing, handle_channel_command,
}
use discord_copilot_sdk.ChannelCommand.Target.{Permission, Refusal}
use discord_copilot_sdk.ChannelCommand.Usable.{IsUsableAnswer, inspect_channel_target-none}

-- `enable` answers whether the channel is authorized afterwards.
is_enabled-enable :
    (io : Io) (c : ChannelRegistry.Config) (channel user : String) (w : ChannelRegistry.World)
    → is_enabled channel (enable io c channel user w).1.registry ≡ (enable io c channel user w).0
unfolding enable commit is_enabled
is_enabled-enable io c channel user w = ground (
  arith,
  has-set channel channel (record { id = channel; added_by = user; added_at = io.now })
      w.registry.enabled,
  string_eq.beq_iff channel channel,
)

is_enabled-disable :
    (io : Io) (c : ChannelRegistry.Config) (channel : String) (w : ChannelRegistry.World)
    → is_enabled channel w.registry ≡ true
    → is_enabled channel (disable io c channel w).1.registry ≡ not (disable io c channel w).0
unfolding disable commit is_enabled
is_enabled-disable io c channel w h =
    ground (arith, has-delete channel channel w.registry.enabled, string_eq.beq_iff channel channel)

-- No live session and no record that is active or being created hangs under the channel.
pub record IsVacant (target : String) (h : Host) : Type 0 where
  pub sessions : All (λ p. p.1 ≢ target) h.sessions
  pub records :
      All
        (λ r. (r.parent_channel_id ≢ target) ⊎ (is_held r.state ≡ false))
        (values h.store.store.sessions)

append-nil : (thread : String) (out : List String) → out ++ (thread ∷ []) ≡ [] → ⊥
append-nil thread [] e = cc
append-nil thread (t ∷ out) e = cc

add-nil : (thread : String) (out : List String) → add thread out ≡ [] → ⊥
add-nil thread [] e = cc
add-nil thread (t ∷ out) e = elim (Bool-cases (contains thread (t ∷ out))) [
  | inl old ↦ (let bad : t ∷ out ≡ [] = rw old at e in cc)
  | inr new ↦ append-nil thread (t ∷ out) (rw new at e)
]

add_if-nil :
    (found : Bool) (thread : String) (rest : List String)
    → (if found then add thread rest else rest) ≡ []
    → (found ≡ false) × (rest ≡ [])
add_if-nil true thread rest e = absurd (add-nil thread rest e)
add_if-nil false thread rest e = (refl, e)

other_if : (target parent : String) → (parent == target) ≡ false → parent ≢ target
other_if target parent e same =
    absurd (false≢true (sym e ∙ (string_eq.beq_iff parent target).1 same))

other_or_free :
    (target parent : String) (held : Bool)
    → (parent == target && held) ≡ false
    → (parent ≢ target) ⊎ (held ≡ false)
other_or_free target parent false e = inr refl
other_or_free target parent true e = elim (Bool-cases (parent == target)) [
  | inl same ↦ absurd (false≢true (sym e ∙ rw same refl))
  | inr other ↦ inl (other_if target parent other)
]

session_holders-nil :
    (target : String) (m : Dict String String) (out : List String)
    → session_holders target m out ≡ []
    → (out ≡ []) × All (λ p. p.1 ≢ target) m
session_holders-nil target [] out e = (e, tt)
session_holders-nil target ((thread, parent) ∷ m) out e =
    let (before, others) = session_holders-nil target m _ e in
    let (other, none_yet) = add_if-nil (parent == target) thread out before in
    (none_yet, (other_if target parent other, others))

record_holders-nil :
    (target : String) (rs : List SessionRecord) (out : List String)
    → record_holders target rs out ≡ []
    → (out ≡ []) × All (λ r. (r.parent_channel_id ≢ target) ⊎ (is_held r.state ≡ false)) rs
record_holders-nil target [] out e = (e, tt)
record_holders-nil target (r ∷ rs) out e =
    let (before, others) = record_holders-nil target rs _ e in
    let (other, none_yet) =
      add_if-nil (r.parent_channel_id == target && is_held r.state) r.thread_id out before in
    (none_yet, (other_or_free target r.parent_channel_id (is_held r.state) other, others))

channel_holders-nil :
    (target : String) (h : Host) → channel_holders target h ≡ [] → IsVacant target h
unfolding channel_holders
channel_holders-nil target h e =
    let (before, records) = record_holders-nil target (values h.store.store.sessions) _ e in
    record { sessions = (session_holders-nil target h.sessions [] before).1; records = records }

-- The command is the owner's.
module _ (spell : Text → String) (c : Command) (a : Awaits) where
  abbrev IsAimed : String → Type 0
  IsAimed target = target_of spell c.raw c.channel_id ≡ some target

  -- The command asks for this on this channel, and the process stays.
  pub record IsOrdered (subcommand : Subcommand) (target : String) (h : Host) : Type 0 where
    pub owned : ActsAsOwner c.auth_context c.auth_policy
    pub told : c.subcommand ≡ subcommand
    pub at_target : IsAimed target
    pub stays : lost_reason c h ≡ none

  -- Discord has answered for this channel, with one that the bot can use, and the acknowledgement has been
  -- delivered, with nothing since.
  pub record IsAudited (target : String) (h : Host) : Type 0 where
    pub before : Host
    pub usable : IsUsableAnswer c.config.guild_id (a.fetch target before).1
    pub missing : List Permission
    pub earlier : Host
    pub delivered : a.say (announced missing) earlier ≡ (h, true)

  -- The channel that the command names is authorized, or is not.
  abbrev Reads : Bool → Host → Type 0
  Reads state h = (target : String) × IsAimed target × (has target h ≡ state)

  abbrev pub IsLicensed : Host × Act → Type 0
  IsLicensed (h, enables target) = IsOrdered enabling target h × IsAudited target h
  IsLicensed (h, disables target) =
      IsOrdered disabling target h × (has target h ≡ true) × IsVacant target h
  IsLicensed (h, says (enabled missing)) = Reads true h
  IsLicensed (h, says already_enabled) = Reads true h
  IsLicensed (h, says not_removed) = Reads true h
  IsLicensed (h, says disabled) = Reads false h
  IsLicensed (h, says was_not_enabled) = Reads false h
  IsLicensed (h, says not_written) = Reads false h
  IsLicensed _ = Unit

  abbrev Licensed : Run → Type 0
  Licensed r = All IsLicensed r.log

  unless_lost-Licensed :
      (lost : Option Lifecycle.Refusal) (stop go : Run)
      → Licensed stop
      → (lost ≡ none → Licensed go)
      → Licensed (unless_lost lost stop go)
  unless_lost-Licensed (some reason) stop go s g = s
  unless_lost-Licensed none stop go s g = g refl

  module _ (owned : ActsAsOwner c.auth_context c.auth_policy) (target : String)
      (at_target : IsAimed target) where
    reported_enable :
        (missing : List Permission) (h : Host) (w : ChannelRegistry.World) (ok : Bool)
        → is_enabled target w.registry ≡ ok
        → Licensed (
            said_safely a (if ok then enabled missing else not_written) (record h { channels = w }))
    reported_enable missing h w true e = ((target, at_target, e), tt)
    reported_enable missing h w false e = ((target, at_target, e), tt)

    reported_disable :
        (h : Host) (w : ChannelRegistry.World) (ok : Bool)
        → is_enabled target w.registry ≡ not ok
        → Licensed (said a (if ok then disabled else not_removed) (record h { channels = w }))
    reported_disable h w true e = ((target, at_target, e), tt)
    reported_disable h w false e = ((target, at_target, e), tt)

    module _ (told : c.subcommand ≡ enabling) where
      acknowledged-Licensed :
          (missing : List Permission) (ok : Bool) (earlier h before : Host)
          → IsUsableAnswer c.config.guild_id (a.fetch target before).1
          → a.say (announced missing) earlier ≡ (h, ok)
          → Licensed (acknowledged c target a missing ok h)
      acknowledged-Licensed missing false earlier h before usable e = tt
      acknowledged-Licensed missing true earlier h before usable e =
          unless_lost-Licensed (lost_reason c h) _ _ (tt, tt)
            (λ stays. (
              (
                record { owned = owned; told = told; at_target = at_target; stays = stays },
                record {
                  before = before;
                  usable = usable;
                  missing = missing;
                  earlier = earlier;
                  delivered = e;
                },
              ),
              reported_enable missing h (enable a.io c.config target c.user_id h.channels).1 _
                  (is_enabled-enable a.io c.config target c.user_id h.channels),
            ))

      checked-Licensed :
          (error : Option Refusal) (missing : List Permission) (h before : Host)
          → (error ≡ none → IsUsableAnswer c.config.guild_id (a.fetch target before).1)
          → Licensed (checked c target a error missing h)
      checked-Licensed (some reason) missing h before usable = (tt, tt)
      checked-Licensed none missing h before usable = (
        tt,
        acknowledged-Licensed missing (a.say (announced missing) h).1 h
            (a.say (announced missing) h).0 before (usable refl) refl,
      )

      deferred-Licensed : (ok : Bool) (h : Host) → Licensed (deferred c target a ok h)
      deferred-Licensed false h = tt
      deferred-Licensed true h = elim (Bool-cases (has target h)) [
        | inl old ↦ rw old ((target, at_target, old), tt)
        | inr new ↦ rw new (
            checked-Licensed _ _ (a.fetch target h).0 h (
              inspect_channel_target-none c.config.guild_id a.file_delivery_available
                (a.fetch target h).1))
      ]

      channel_enable-Licensed : (h : Host) → Licensed (channel_enable c target a h)
      unfolding channel_enable
      channel_enable-Licensed h = (tt, deferred-Licensed (a.defer h).1 (a.defer h).0)

    module _ (told : c.subcommand ≡ disabling) where
      unless_held-Licensed :
          (holders : List String) (h : Host) (go : Run)
          → (holders ≡ [] → Licensed go)
          → Licensed (unless_held holders a h go)
      unless_held-Licensed [] h go g = g refl
      unless_held-Licensed (t ∷ ts) h go g = (tt, tt)

      channel_disable-Licensed : (h : Host) → Licensed (channel_disable c target a h)
      unfolding channel_disable
      channel_disable-Licensed h = elim (Bool-cases (has target h)) [
        | inr off ↦ rw off ((target, at_target, off), tt)
        | inl on ↦ rw on (
            unless_held-Licensed (channel_holders target h) h _ (λ free.
              unless_lost-Licensed (lost_reason c h) _ _ (tt, tt)
                (λ stays. (
                  (
                    record { owned = owned; told = told; at_target = at_target; stays = stays },
                    on,
                    channel_holders-nil target h free,
                  ),
                  reported_disable h (disable a.io c.config target h.channels).1 _
                      (is_enabled-disable a.io c.config target h.channels on),
                ))))
      ]

    commanded-Licensed :
        (h : Host) (subcommand : Subcommand)
        → c.subcommand ≡ subcommand
        → Licensed (commanded subcommand c target a h)
    unfolding channel_list
    commanded-Licensed h enabling e = channel_enable-Licensed e h
    commanded-Licensed h disabling e = channel_disable-Licensed e h
    commanded-Licensed h listing e = (tt, tt)
    commanded-Licensed h unknown e = tt

  aimed-Licensed :
      ActsAsOwner c.auth_context c.auth_policy
      → (h : Host) (target : Option String) → target_of spell c.raw c.channel_id ≡ target
      → Licensed (aimed c target a h)
  aimed-Licensed owned h none e = (tt, tt)
  aimed-Licensed owned h (some target) e = commanded-Licensed owned target e h c.subcommand refl

  listed-Licensed :
      (lists : Bool) (h : Host) (r : Run)
      → Licensed r
      → Licensed (if lists then channel_list a h else r)
  unfolding channel_list
  listed-Licensed true h r l = (tt, tt)
  listed-Licensed false h r l = l

  pub handle_channel_command-Licensed :
      (h : Host) → All IsLicensed (handle_channel_command spell c a h).log
  unfolding handle_channel_command
  handle_channel_command-Licensed h = elim (Bool-cases (is_owner c.auth_context c.auth_policy)) [
    | inr stranger ↦ rw stranger (tt, tt)
    | inl owner ↦ rw owner (
        listed-Licensed (is_listing c.subcommand) h _
          (aimed-Licensed (is_owner_sound c.auth_context c.auth_policy owner) h _ refl))
  ]
