-- ===== src/StartupReady.antt =====
-- core/startup-ready.ts: the files that prove that a process has started. A directory is a map of
-- its files; a call that throws answers false. The calls of others stand between
-- the calls of the file system. Files are named by what makes up their names, which
-- tell them apart: a token is 64 hexadecimal digits, and `ready` is none.
pub mod Laws
mod Tests
use discord_copilot_sdk.Base.{
  ℕ, suc, Bool, true, false, ◌&&◌, ◌||◌, List, [], ◌∷◌, Option, none, some, Eq, ◌==◌, nat_eq, leb,
  length, if◌then◌else◌, ◌≡◌, ◌↔◌, arith,
}
use discord_copilot_sdk.Chunk.{Text}
use discord_copilot_sdk.CustomId.{text_eq}
use discord_copilot_sdk.Dict.{Dict, get, has, set, delete}

pub record StartupReadyMarker : Type 0 where
  pub version : ℕ
  pub pid : ℕ
  pub instance_id : Text

-- `startupReadyStatusPath` and `startupReadyMarkerPath`.
pub data Marker : Type 0 where
  ready : Text → Marker
  launch : Text → Text → Marker

abbrev pub marker_eqb : Marker → Marker → Bool
marker_eqb (ready a) (ready b) = a == b
marker_eqb (launch a s) (launch b t) = a == b && s == t
marker_eqb _ _ = false

pub marker_eqb_iff : (a b : Marker) → (marker_eqb a b ≡ true) ↔ (a ≡ b)
marker_eqb_iff (ready a) (ready b) = ground (arith, text_eq.beq_iff a b)
marker_eqb_iff (launch a s) (launch b t) = ground (arith, text_eq.beq_iff a b, text_eq.beq_iff s t)
marker_eqb_iff (ready a) (launch b t) = ground arith
marker_eqb_iff (launch a s) (ready b) = ground arith

instance abbrev pub marker_eq : Eq Marker
marker_eq = record { beq = marker_eqb; beq_iff = marker_eqb_iff }

-- What a file holds: no JSON, the JSON null, a marker, or another value of JSON.
pub data Content : Type 0 where
  malformed null other : Content
  marker : StartupReadyMarker → Content

abbrev pub Directory : Type 0
Directory = Dict Marker Content

abbrev pub every : (ℕ → Bool) → Text → Bool
every f [] = true
every f (c ∷ s) = f c && every f s

abbrev pub is_hexadecimal : ℕ → Bool
is_hexadecimal c = (leb b'0' c && leb c b'9') || (leb b'a' c && leb c b'f')

abbrev pub is_instance_char : ℕ → Bool
is_instance_char c =
    (leb b'A' c && leb c b'Z')
    || ((leb b'a' c && leb c b'z')
        || ((leb b'0' c && leb c b'9') || (c == b'.' || (c == b'_' || c == b'-'))))

-- `TOKEN_RE`, and the expression that an instance id must match.
unfoldable pub is_token : Text → Bool
is_token t = length t == 64 && every is_hexadecimal t

unfoldable pub is_instance : Text → Bool
is_instance s = (leb 1 (length s) && leb (length s) 64) && every is_instance_char s

pub data Request : Type 0 where
  not_requested : Request
  requested : Text → Request
  invalid : Request

-- `startupReadyRequest`, with what the environment says.
unfoldable pub startup_ready_request : Option Text → Request
startup_ready_request none = not_requested
startup_ready_request (some token) = if is_token token then requested token else invalid

-- `writeMarker`, with whether the file is written and renamed.
unfoldable pub write_marker :
    Marker → StartupReadyMarker → Bool → Bool → Directory → Bool × Directory
write_marker m content replace ok d =
    if replace || (if has m d then false else true)
    then if ok then (true, set m (marker content) d) else (false, d)
    else (false, d)

abbrev pub names : Text → ℕ → StartupReadyMarker → Bool
names id pid c = c.version == 1 && (c.pid == pid && c.instance_id == id)

-- The answers in one removal: whether the file is read, the directory as others leave it between
-- the read and the removal, whether the removal works, and what others do until its answer is here.
pub record Removal : Type 0 where
  pub reads : Bool
  pub between : Directory → Directory
  pub removes : Bool
  pub afterwards : Directory → Directory

-- `rm`, which may fail.
abbrev pub rm_marker : Marker → Removal → Directory → Bool × Directory
rm_marker m a d =
    let gone = if a.removes then delete m (a.between d) else a.between d in
    (a.removes, a.afterwards gone)

-- The text is no JSON, or there is none: no removal. Null has no fields, and the call throws.
abbrev pub removed_content :
    Marker → Text → ℕ → Removal → Option Content → Directory → Bool × Directory
removed_content m id pid a none d = (true, d)
removed_content m id pid a (some malformed) d = (true, d)
removed_content m id pid a (some null) d = (false, d)
removed_content m id pid a (some other) d = (true, d)
removed_content m id pid a (some (marker c)) d =
    if names id pid c then rm_marker m a d else (true, d)

-- `false` for an exception.
unfoldable pub remove_owned_marker : Marker → Text → ℕ → Removal → Directory → Bool × Directory
remove_owned_marker m id pid a d = removed_content m id pid a (if a.reads then get m d else none) d

abbrev pub publish_token : Option Text → Text → ℕ → Bool → Bool × Directory → Bool × Directory
publish_token none id pid ok (true, d) = (true, d)
publish_token (some token) id pid ok (true, d) =
    if is_token token
    then write_marker (launch id token) (record { version = 1; pid = pid; instance_id = id }) false
        ok d
    else (false, d)
publish_token request id pid ok (false, d) = (false, d)

unfoldable pub publish_startup_ready :
    Option Text → Text → ℕ → Bool → Bool → Directory → Bool × Directory
publish_startup_ready request id pid ok ok_token d =
    if is_instance id
    then publish_token request id pid ok_token
        (write_marker (ready id) (record { version = 1; pid = pid; instance_id = id }) true ok d)
    else (false, d)

unfoldable pub clear_startup_ready : Text → ℕ → Removal → Directory → Bool × Directory
clear_startup_ready id pid a d =
    if is_instance id then remove_owned_marker (ready id) id pid a d else (false, d)

abbrev pub retract_token : Option Text → Text → ℕ → Removal → Bool × Directory → Bool × Directory
retract_token request id pid a (false, d) = (false, d)
retract_token none id pid a (true, d) = (true, d)
retract_token (some token) id pid a (true, d) =
    if is_token token then remove_owned_marker (launch id token) id pid a d else (false, d)

-- The second removal is under way only when the first has not thrown.
unfoldable pub retract_startup_ready :
    Option Text → Text → ℕ → Removal → Removal → Directory → Bool × Directory
retract_startup_ready request id pid a b d =
    if is_instance id
    then retract_token request id pid b (remove_owned_marker (ready id) id pid a d)
    else (false, d)
