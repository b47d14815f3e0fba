-- ===== src/SessionStore/RoundTrip.antt =====
-- What a store writes is what a restart reads: `load` of the rendered candidate.
use discord_copilot_sdk.Base.{
  ℤ, pos, true, false, String, List, [], ◌∷◌, Option, none, some, map, ◌≡◌, refl, ◌==◌, beq_sym,
  ◌≤ℤ◌, max_ℤ-absorbs, arith, All, string_eq, int_eq,
}
use mathlib.Core.Path.{subst}
use discord_copilot_sdk.Dict.{Dict, values}
use discord_copilot_sdk.Dict.Entries.{not_has-Entries, Entries, Distinct}
use discord_copilot_sdk.Json.{elems-items_of, str, prop}
use discord_copilot_sdk.SessionStore.Record.{
  SessionState, creating, active, orphaned, blocked, DevMode, local, worktree, SessionRecord,
  SessionIdentity, identity_eq, identity_of, if_truthy, schema_version_now, is_file_delivery_bytes,
  canonicalize_record,
}
use discord_copilot_sdk.SessionStore.File.{
  read_file_delivery_bytes, as_record, render_record, read_sessions, read_stale, max_generation,
  read_records, render, contains_key, state_of, state_text, read_dev_mode, mode_text,
  has_rebind_reason,
}

pub if_truthy_idem : (o : Option String) → if_truthy (if_truthy o) ≡ if_truthy o
if_truthy_idem none = refl
if_truthy_idem (some s) = ground arith

-- A record as the writer and the readers make it.
pub record IsCanonical (r : SessionRecord) : Type 0 where
  pub branch : if_truthy r.branch ≡ r.branch
  pub reason : if_truthy r.reason ≡ r.reason
  pub version : r.schema_version ≡ pos 5

pub canonicalize_record-IsCanonical :
    (now : ℤ) (r : SessionRecord) → IsCanonical (canonicalize_record now r)
unfolding canonicalize_record
canonicalize_record-IsCanonical now r = record {
  branch = if_truthy_idem r.branch;
  reason = if_truthy_idem r.reason;
  version = refl;
}

pub canonicalize_record_fixed :
    (now : ℤ) (r : SessionRecord) → IsCanonical r → canonicalize_record now r ≡ r
unfolding canonicalize_record
canonicalize_record_fixed now r c = ground (arith, c.branch, c.reason, c.version)

abbrev row : SessionRecord → Option String → DevMode → SessionState → Option String → SessionRecord
row r branch mode state reason = record r {
  branch = branch;
  dev_mode = mode;
  state = state;
  reason = reason;
}

state_of-state_text : (s : SessionState) → state_of (state_text s) ≡ some s
state_of-state_text creating = refl
state_of-state_text active = refl
state_of-state_text orphaned = refl
state_of-state_text blocked = refl

read_dev_mode-mode_text :
    (m : DevMode) (branch : Option String)
    → read_dev_mode (some (str (mode_text m))) (pos 5) branch ≡ some m
unfolding read_dev_mode
read_dev_mode-mode_text local branch = refl
read_dev_mode-mode_text worktree branch = refl

as_record-row :
    (r : SessionRecord) (branch : Option String) (mode : DevMode) (state : SessionState)
    (reason : Option String)
    → if_truthy branch ≡ branch
    → if_truthy reason ≡ reason
    → r.schema_version ≡ pos 5
    → is_file_delivery_bytes r.file_delivery_bytes ≡ true
    → as_record (render_record (row r branch mode state reason)) (pos 5)
      ≡ some (row r branch mode state reason)
unfolding as_record render_record prop read_file_delivery_bytes
as_record-row r none mode state none b c v d =
    rw (v, d, state_of-state_text state, read_dev_mode-mode_text mode none) refl
as_record-row r none mode state (some f) b c v d =
    rw (v, d, state_of-state_text state, read_dev_mode-mode_text mode none, c) refl
as_record-row r (some e) mode state none b c v d =
    rw (v, d, state_of-state_text state, read_dev_mode-mode_text mode (some e), b) refl
as_record-row r (some e) mode state (some f) b c v d =
    rw (v, d, state_of-state_text state, read_dev_mode-mode_text mode (some e), b, c) refl

-- What a row of the file must meet to be read back.
pub record IsWritable (r : SessionRecord) : Type 0 where
  pub canonical : IsCanonical r
  pub bytes : is_file_delivery_bytes r.file_delivery_bytes ≡ true

as_record-render : (r : SessionRecord) → IsWritable r → as_record (render_record r) (pos 5) ≡ some r
as_record-render r h =
    as_record-row r r.branch r.dev_mode r.state r.reason h.canonical.branch h.canonical.reason
      h.canonical.version h.bytes

pub read_sessions-render :
    (rs : List SessionRecord)
    → All IsWritable rs
    → read_sessions (pos 5) (map render_record rs) ≡ some rs
unfolding read_sessions
read_sessions-render [] h = refl
read_sessions-render (r ∷ rs) (p, h) = rw (as_record-render r p, read_sessions-render rs h) refl

-- A terminal row of an old incarnation.
pub record IsTerminal (r : SessionRecord) : Type 0 where
  pub blocked : r.state ≡ blocked
  pub reason : has_rebind_reason r.reason ≡ true

abbrev pub IsUnseen : List SessionIdentity → SessionIdentity → SessionRecord → Type 0
IsUnseen seen k r =
    (k ≡ identity_of r) × IsWritable r × IsTerminal r × (contains_key k seen ≡ false)

still-IsUnseen :
    (k : SessionIdentity) (r : SessionRecord) (seen : List SessionIdentity)
    (m : Dict SessionIdentity SessionRecord)
    → k ≡ identity_of r
    → Entries (λ j _. (j == k) ≡ false) m
    → Entries (IsUnseen seen) m
    → Entries (IsUnseen (identity_of r ∷ seen)) m
still-IsUnseen k r seen [] at_k new h = tt
still-IsUnseen k r seen ((j, s) ∷ m) at_k (p, new) ((key, w, t, u), h) =
    let apart = subst (λ i. (i == j) ≡ false) at_k (beq_sym j k p) in
    ((key, w, t, rw (apart, u) refl), still-IsUnseen k r seen m at_k new h)

pub read_stale-render :
    (seen : List SessionIdentity) (m : Dict SessionIdentity SessionRecord)
    → Entries (IsUnseen seen) m
    → Distinct m
    → read_stale (pos 5) seen (map render_record (values m)) ≡ some (values m)
unfolding read_stale
read_stale-render seen [] h d = refl
read_stale-render seen ((k, r) ∷ m) ((key, w, t, u), h) (new, d) =
    let unseen : contains_key (identity_of r) seen ≡ false = rw (← key) u in
    let rest =
      read_stale-render (identity_of r ∷ seen) m
        (still-IsUnseen k r seen m key (not_has-Entries k m new) h) d in
    rw (as_record-render r w, t.blocked, t.reason, unseen, rest) refl

pub max_generation_absorbs :
    (hw : ℤ) (rs : List SessionRecord)
    → All (λ r. r.generation ≤ℤ hw) rs
    → max_generation hw rs ≡ hw
unfolding max_generation
max_generation_absorbs hw [] h = refl
max_generation_absorbs hw (r ∷ rs) (p, h) =
    rw (max_ℤ-absorbs hw r.generation p) (max_generation_absorbs hw rs h)

-- A whole file is read back.
pub read_records-render :
    (hw : ℤ) (ss : Dict String SessionRecord) (stale : Dict SessionIdentity SessionRecord)
    → All IsWritable (values ss)
    → Entries (IsUnseen []) stale
    → Distinct stale
    → All (λ r. r.generation ≤ℤ hw) (values ss)
    → All (λ r. r.generation ≤ℤ hw) (values stale)
    → pos 0 ≤ℤ hw
    → read_records (
        render (record {
          schema_version = schema_version_now;
          generation_high_water = hw;
          sessions = values ss;
          stale_rebinds = values stale;
        }))
      ≡ some (record { sessions = values ss; stale_rebinds = values stale; high_water = hw })
unfolding read_records render prop
read_records-render hw ss stale writable unseen distinct below stale_below natural =
    rw
      (
        elems-items_of (map render_record (values ss)),
        elems-items_of (map render_record (values stale)),
        read_sessions-render (values ss) writable,
        read_stale-render [] stale unseen distinct,
        max_generation_absorbs hw (values ss) below,
        max_generation_absorbs hw (values stale) stale_below,
        max_ℤ-absorbs hw (pos 0) natural,
      )
      refl
