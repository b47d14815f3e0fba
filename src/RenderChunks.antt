-- ===== src/RenderChunks.antt =====
-- platforms/discord/render-chunks.ts: the messages of a turn on the screen.
mod Tracked
mod Tests
use discord_copilot_sdk.Base.{
  ℕ, Bool, true, false, ◌&&◌, ◌||◌, String, List, [], ◌∷◌, ◌++◌, Option, none, some, ◌==◌, nat_eq,
  if◌then◌else◌,
}

-- `code` of an error: absent or null, a number, or another value.
pub data Code : Type 0 where
  no_code : Code
  number : ℕ → Code
  other_code : Code

pub record Failure : Type 0 where
  pub code : Code
  pub status : Option ℕ

abbrev pub is_unknown_message : Code → Bool
is_unknown_message (number n) = n == 10008
is_unknown_message _ = false

abbrev pub is_no_code : Code → Bool
is_no_code no_code = true
is_no_code _ = false

abbrev pub is_not_found : Option ℕ → Bool
is_not_found none = false
is_not_found (some status) = status == 404

unfoldable pub is_message_gone : Failure → Bool
is_message_gone e = is_unknown_message e.code || (is_no_code e.code && is_not_found e.status)

-- A chunk, with the answers while it is written: `stillCurrent()` at the start, after the fetch and
-- after the send, the failures of the fetch and of the edit, and the message that is sent, `none`
-- for an exception.
pub record Chunk : Type 0 where
  pub content : String
  pub current : Bool
  pub fetch : Option Failure
  pub current_fetched : Bool
  pub edit : Option Failure
  pub sent : Option ℕ
  pub current_sent : Bool

pub data Event : Type 0 where
  edits misses posts : ℕ → String → Event
  loses : ℕ → Failure → Event
  discards removes : ℕ → Event

pub data Ending : Type 0 where
  finished abandoned threw : Ending

-- `msgIds` in the end, the events in their order, and how the call ended.
pub record Rendered : Type 0 where
  pub ids : List ℕ
  pub log : List Event
  pub ending : Ending

abbrev pub stopped : List ℕ → Ending → Rendered
stopped ids ending = record { ids = ids; log = []; ending = ending }

abbrev pub noted : Event → Rendered → Rendered
noted e r = record r { log = e ∷ r.log }

-- The anchor of a chunk, and what follows.
abbrev pub anchored : ℕ → Event → Rendered → Rendered
anchored id e r = record r { ids = id ∷ r.ids; log = e ∷ r.log }

abbrev pub recorded : Chunk → ℕ → List ℕ → Bool → Rendered → Rendered
recorded c id old true next = anchored id (posts id c.content) next
recorded c id old false next =
    noted (posts id c.content) (noted (discards id) (stopped old abandoned))

-- `old` are the ids of this chunk and of the later ones, as they stand.
abbrev pub post : Chunk → List ℕ → Option ℕ → Rendered → Rendered
post c old none next = stopped old threw
post c old (some id) next = recorded c id old c.current_sent next

abbrev pub unedited : Chunk → ℕ → List ℕ → Failure → Bool → Rendered → Rendered
unedited c id ids e true next = noted (loses id e) (post c (id ∷ ids) c.sent next)
unedited c id ids e false next = anchored id (misses id c.content) next

abbrev pub edited : Chunk → ℕ → List ℕ → Option Failure → Rendered → Rendered
edited c id ids none next = anchored id (edits id c.content) next
edited c id ids (some e) next = unedited c id ids e (is_message_gone e) next

abbrev pub fetched : Chunk → ℕ → List ℕ → Option Failure → Rendered → Rendered
fetched c id ids none next =
    if c.current_fetched then edited c id ids c.edit next else stopped (id ∷ ids) abandoned
fetched c id ids (some e) next = unedited c id ids e (is_message_gone e) next

abbrev pub unremoved : ℕ → Failure → Bool → List Event → Rendered
unremoved id e true log = record { ids = []; log = log ++ (loses id e ∷ []); ending = finished }
unremoved id e false log = record { ids = id ∷ []; log = log; ending = finished }

-- One round of the loop that trims, on the last id.
abbrev pub popped : ℕ → Option Failure → List Event → Rendered
popped id none log = record { ids = []; log = log ++ (removes id ∷ []); ending = finished }
popped id (some e) log = unremoved id e (is_message_gone e) log

-- Where a later id is kept, the loop has ended.
abbrev pub trimmed_at : ℕ → Option Failure → List ℕ → List Event → Rendered
trimmed_at id failure [] log = popped id failure log
trimmed_at id failure (later ∷ ids) log = record {
  ids = id ∷ later ∷ ids;
  log = log;
  ending = finished;
}

-- `remove` is what the fetch and the deletion of a message answer.
module _ (remove : ℕ → Option Failure) where
  abbrev pub trimmed : List ℕ → Rendered
  trimmed [] = stopped [] finished
  trimmed (id ∷ ids) = let rest = trimmed ids in trimmed_at id (remove id) rest.ids rest.log

  unfoldable pub render_chunks : List Chunk → List ℕ → Rendered
  render_chunks [] ids = trimmed ids
  render_chunks (c ∷ cs) [] =
      let next = render_chunks cs [] in
      if c.current then post c [] c.sent next else stopped [] abandoned
  render_chunks (c ∷ cs) (id ∷ ids) =
      let next = render_chunks cs ids in
      if c.current then fetched c id ids c.fetch next else stopped (id ∷ ids) abandoned
