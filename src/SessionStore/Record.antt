-- ===== src/SessionStore/Record.antt =====
-- core/session-store.ts: the persisted record, its identity, and how one is built.
use text.Mathlib.Text.{starts_with}
use discord_copilot_sdk.Base.{
  ℤ, pos, Bool, true, ◌&&◌, not, String, Option, none, some, ◌≡◌, ◌↔◌, arith, Eq, ◌==◌, leb_ℤ,
  is_safe_integer, or_else, if◌then◌else◌, string_eq, int_eq,
}

pub data SessionState : Type 0 where
  creating active orphaned blocked : SessionState

pub data DevMode : Type 0 where
  local worktree : DevMode

abbrev pub schema_version_now : ℤ
schema_version_now = pos 5

pub record SessionRecord : Type 0 where
  pub schema_version : ℤ
  pub thread_id : String
  pub session_id : String
  pub generation : ℤ
  pub repo_path : String
  pub guild_id : String
  pub parent_channel_id : String
  pub work_dir : String
  pub dev_mode : DevMode
  pub file_delivery_bytes : ℤ
  pub branch : Option String
  pub state : SessionState
  pub reason : Option String
  pub updated_at : ℤ

pub record SessionBinding : Type 0 where
  pub thread_id : String
  pub session_id : String
  pub generation : ℤ
  pub repo_path : String
  pub guild_id : String
  pub parent_channel_id : String
  pub work_dir : String
  pub dev_mode : DevMode
  pub file_delivery_bytes : Option ℤ
  pub branch : Option String

pub record SessionIdentity : Type 0 where
  pub thread_id : String
  pub session_id : String
  pub generation : ℤ

abbrev pub identity_eqb : SessionIdentity → SessionIdentity → Bool
identity_eqb a b =
    a.thread_id == b.thread_id && (a.session_id == b.session_id && a.generation == b.generation)

pub identity_eqb_iff : (a b : SessionIdentity) → (identity_eqb a b ≡ true) ↔ (a ≡ b)
identity_eqb_iff a b = ground (
  arith,
  string_eq.beq_iff a.thread_id b.thread_id,
  string_eq.beq_iff a.session_id b.session_id,
  int_eq.beq_iff a.generation b.generation,
)

instance abbrev pub identity_eq : Eq SessionIdentity
identity_eq = record { beq = identity_eqb; beq_iff = identity_eqb_iff }

-- `staleRebindKey`: the text `JSON.stringify([threadId, sessionId, generation])`, which determines
-- the three values, is modelled by the three values.
abbrev pub stale_rebind_key : String → String → ℤ → SessionIdentity
stale_rebind_key t s g = record { thread_id = t; session_id = s; generation = g }

abbrev pub identity_of : SessionRecord → SessionIdentity
identity_of r = stale_rebind_key r.thread_id r.session_id r.generation

-- A record where a binding is wanted (`toRecord(record)`, `{ ...record, fileDeliveryBytes }`).
abbrev pub binding_of : SessionRecord → ℤ → SessionBinding
binding_of r bytes = record {
  thread_id = r.thread_id;
  session_id = r.session_id;
  generation = r.generation;
  repo_path = r.repo_path;
  guild_id = r.guild_id;
  parent_channel_id = r.parent_channel_id;
  work_dir = r.work_dir;
  dev_mode = r.dev_mode;
  file_delivery_bytes = some bytes;
  branch = r.branch;
}

-- `...(s ? { key: s } : {})`: an empty text is left out.
abbrev pub if_truthy : Option String → Option String
if_truthy none = none
if_truthy (some s) = if s == "" then none else some s

unfoldable pub is_file_delivery_bytes : ℤ → Bool
is_file_delivery_bytes n = is_safe_integer n && leb_ℤ (pos 0) n

unfoldable pub is_session_identity : SessionIdentity → Bool
is_session_identity v =
    not (v.thread_id == "")
    && (not (v.session_id == "") && (is_safe_integer v.generation && leb_ℤ (pos 1) v.generation))

abbrev pub is_rebind_reason : String → Bool
is_rebind_reason reason = starts_with reason "rebind-"

unfoldable pub to_record : ℤ → SessionBinding → SessionRecord
to_record now b = record {
  schema_version = schema_version_now;
  thread_id = b.thread_id;
  session_id = b.session_id;
  generation = b.generation;
  repo_path = b.repo_path;
  guild_id = b.guild_id;
  parent_channel_id = b.parent_channel_id;
  work_dir = b.work_dir;
  dev_mode = b.dev_mode;
  file_delivery_bytes = or_else b.file_delivery_bytes (pos 0);
  branch = if_truthy b.branch;
  state = active;
  reason = none;
  updated_at = now;
}

unfoldable pub canonicalize_record : ℤ → SessionRecord → SessionRecord
unfolding to_record
canonicalize_record now r = record (to_record now (binding_of r r.file_delivery_bytes)) {
  state = r.state;
  reason = if_truthy r.reason;
  updated_at = r.updated_at;
}
