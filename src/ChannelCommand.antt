-- ===== src/ChannelCommand.antt =====
-- platforms/discord/channel-command.ts: `/channel enable | disable | list`. An await gives the host
-- back as others left it, and the acts of a command are kept in a log.
pub mod Reference
pub mod Target
mod Usable
mod Gates
mod Spelled
mod Tests
use discord_copilot_sdk.Base.{
  ℕ, Bool, true, false, ◌&&◌, not, String, List, [], ◌∷◌, ◌++◌, Option, none, some, ◌==◌, string_eq,
  if◌then◌else◌,
}
use discord_copilot_sdk.Access.{AuthContext, AuthPolicy, is_owner, contains}
use discord_copilot_sdk.ChannelRegistry
use discord_copilot_sdk.ChannelRegistry.{Config, is_enabled, enable, disable}
use discord_copilot_sdk.Dict.{Dict, values}
use discord_copilot_sdk.Disk.{Io}
use discord_copilot_sdk.Lifecycle.{Ownership, decline_reason}
use discord_copilot_sdk.Lifecycle as Lifecycle
use discord_copilot_sdk.SessionStore.Record.{SessionRecord, SessionState, active, creating}
use discord_copilot_sdk.SessionStore.State as SessionStore
use discord_copilot_sdk.Chunk.{Text}
use Reference.{trimmed, parse_channel_ref}
use Target.{Answer, Permission, Refusal, Inspection, inspect_channel_target}

-- What the command reads and writes. A live session is the id of its parent channel.
pub record Host : Type 0 where
  pub channels : ChannelRegistry.World
  pub sessions : Dict String String
  pub store : SessionStore.World
  pub ownership : Ownership

pub data Subcommand : Type 0 where
  enabling disabling listing unknown : Subcommand

-- The interaction, with the policy and the configuration of the app. `scope` is the thread of the
-- scope that the command runs in.
pub record Command : Type 0 where
  pub auth_context : AuthContext
  pub auth_policy : AuthPolicy
  pub config : Config
  pub scope : String
  pub subcommand : Subcommand
  pub raw : Option Text
  pub channel_id : String
  pub user_id : String

-- The texts that the command answers with.
pub data Reply : Type 0 where
  not_authorized bad_reference listed already_enabled not_written was_not_enabled declined disabled
        not_removed :
      Reply
  refused : Refusal → Reply
  announced enabled : List Permission → Reply
  held_by : List String → Reply

pub data Act : Type 0 where
  defers : Act
  says : Reply → Act
  enables : String → Act
  disables : String → Act

-- The awaits: the host as others left it, and whether the call worked. `fetch` is what
-- Discord answers to the id of a channel, `list` is what `/channel list` asks of Discord before its reply.
pub record Awaits : Type 0 where
  pub defer : Host → Host × Bool
  pub say : Reply → Host → Host × Bool
  pub fetch : String → Host → Host × Answer
  pub list : Host → Host
  pub file_delivery_available : Bool
  pub io : Io

-- The acts in order, each with the host as it stood, and whether the command ended with an
-- exception.
pub record Run : Type 0 where
  pub log : List (Host × Act)
  pub host : Host
  pub threw : Bool

abbrev pub ended : Host → Bool → Run
ended h threw = record { log = []; host = h; threw = threw }

abbrev pub act : Host → Act → Run → Run
act h a r = record r { log = (h, a) ∷ r.log }

-- The last reply of a command.
abbrev pub said : Awaits → Reply → Host → Run
said a reply h = let (h', ok) = a.say reply h in act h (says reply) (ended h' (not ok))

-- The same with `.catch(() => {})`.
abbrev pub said_safely : Awaits → Reply → Host → Run
said_safely a reply h = act h (says reply) (ended (a.say reply h).0 false)

abbrev pub lost_reason : Command → Host → Option Lifecycle.Refusal
lost_reason c h = decline_reason c.scope h.ownership

abbrev pub has : String → Host → Bool
has target h = is_enabled target h.channels.registry

abbrev pub is_held : SessionState → Bool
is_held active = true
is_held creating = true
is_held _ = false

-- `out.add`
abbrev pub add : String → List String → List String
add thread out = if contains thread out then out else out ++ (thread ∷ [])

abbrev pub session_holders : String → Dict String String → List String → List String
session_holders target [] out = out
session_holders target ((thread, parent) ∷ m) out =
    session_holders target m (if parent == target then add thread out else out)

abbrev pub record_holders : String → List SessionRecord → List String → List String
record_holders target [] out = out
record_holders target (r ∷ rs) out =
    record_holders target rs
      (if r.parent_channel_id == target && is_held r.state then add r.thread_id out else out)

-- The threads of a set, in the order of their insertion.
unfoldable pub channel_holders : String → Host → List String
channel_holders target h =
    record_holders target (values h.store.store.sessions) (session_holders target h.sessions [])

abbrev pub write_enable : Command → String → Awaits → List Permission → Host → Run
write_enable c target a missing h =
    let (ok, w) = enable a.io c.config target c.user_id h.channels in
    act h (enables target)
      (said_safely a (if ok then enabled missing else not_written) (record h { channels = w }))

abbrev pub unless_lost : Option Lifecycle.Refusal → Run → Run → Run
unless_lost (some reason) stop go = stop
unless_lost none stop go = go

-- After the acknowledgement.
abbrev pub acknowledged : Command → String → Awaits → List Permission → Bool → Host → Run
acknowledged c target a missing false h = ended h true
acknowledged c target a missing true h =
    unless_lost (lost_reason c h) (said_safely a declined h) (write_enable c target a missing h)

abbrev pub checked : Command → String → Awaits → Option Refusal → List Permission → Host → Run
checked c target a (some reason) missing h = said a (refused reason) h
checked c target a none missing h =
    let (h', ok) = a.say (announced missing) h in
    act h (says (announced missing)) (acknowledged c target a missing ok h')

abbrev pub audited : Command → String → Awaits → Inspection → Host → Run
audited c target a check h = checked c target a check.error check.missing h

abbrev pub deferred : Command → String → Awaits → Bool → Host → Run
deferred c target a false h = ended h true
deferred c target a true h =
    if has target h
    then said a already_enabled h
    else (let (h', answer) = a.fetch target h in
        audited c target a
          (inspect_channel_target c.config.guild_id a.file_delivery_available answer) h')

unfoldable pub channel_enable : Command → String → Awaits → Host → Run
channel_enable c target a h = let (h', ok) = a.defer h in act h defers (deferred c target a ok h')

abbrev pub write_disable : Command → String → Awaits → Host → Run
write_disable c target a h =
    let (ok, w) = disable a.io c.config target h.channels in
    act h (disables target)
      (said a (if ok then disabled else not_removed) (record h { channels = w }))

abbrev pub unless_held : List String → Awaits → Host → Run → Run
unless_held [] a h go = go
unless_held (t ∷ ts) a h go = said a (held_by (t ∷ ts)) h

unfoldable pub channel_disable : Command → String → Awaits → Host → Run
channel_disable c target a h =
    if not (has target h)
    then said a was_not_enabled h
    else unless_held (channel_holders target h) a h
        (unless_lost (lost_reason c h) (said_safely a declined h) (write_disable c target a h))

-- The text of the list is not modelled.
unfoldable pub channel_list : Awaits → Host → Run
channel_list a h = said a listed (a.list h)

abbrev pub or_here : String → Text → Option String
or_here here [] = some here
or_here here (u ∷ t) = none

abbrev pub commanded : Subcommand → Command → String → Awaits → Host → Run
commanded enabling c target a h = channel_enable c target a h
commanded disabling c target a h = channel_disable c target a h
commanded listing c target a h = channel_list a h
commanded unknown c target a h = ended h false

abbrev pub is_listing : Subcommand → Bool
is_listing listing = true
is_listing _ = false

abbrev pub aimed : Command → Option String → Awaits → Host → Run
aimed c none a h = said a bad_reference h
aimed c (some target) a h = commanded c.subcommand c target a h

-- `spell` is the string of a text of code units.
module _ (spell : Text → String) where
  -- `none` stands for a value that is not understood.
  unfoldable pub target_of : Option Text → String → Option String
  target_of raw here = elim (parse_channel_ref raw) [
    | some id ↦ some (spell id)
    | none ↦ or_here here (trimmed raw)
  ]

  unfoldable pub handle_channel_command : Command → Awaits → Host → Run
  handle_channel_command c a h =
      if not (is_owner c.auth_context c.auth_policy)
      then said a not_authorized h
      else if is_listing c.subcommand
      then channel_list a h
      else aimed c (target_of c.raw c.channel_id) a h
