-- ===== src/RenderChunks/Tests.antt =====
-- Two chunks over three anchors, of which the first is gone.
use discord_copilot_sdk.Base.{
  ℕ, true, List, [], ◌∷◌, Option, none, some, ◌==◌, nat_eq, if◌then◌else◌, ◌≡◌, refl, inl, ◌⊎◌,
}
use mathlib.Core.List.{Memᴰ}
use discord_copilot_sdk.RenderChunks.{
  Failure, number, no_code, Chunk, edits, posts, loses, removes, finished, render_chunks,
  is_message_gone,
}
use discord_copilot_sdk.RenderChunks.Tracked.{Occurs, Ends, render_chunks-Tracked}

abbrev unknown_message : Failure
unknown_message = record { code = number 10008; status = some 404 }

abbrev overloaded : Failure
overloaded = record { code = no_code; status = some 503 }

abbrev chunks : List Chunk
chunks =
    record {
      content = "a";
      current = true;
      fetch = some unknown_message;
      current_fetched = true;
      edit = none;
      sent = some 9;
      current_sent = true;
    }
    ∷ record {
      content = "b";
      current = true;
      fetch = none;
      current_fetched = true;
      edit = none;
      sent = none;
      current_sent = true;
    }
    ∷ []

abbrev remove : ℕ → Option Failure
remove id = if id == 4 then some overloaded else none

reanchors : render_chunks remove chunks (1 ∷ 2 ∷ 3 ∷ 4 ∷ 5 ∷ []) ≡ record {
  ids = 9 ∷ 2 ∷ 3 ∷ 4 ∷ [];
  log = loses 1 unknown_message ∷ posts 9 "a" ∷ edits 2 "b" ∷ removes 5 ∷ [];
  ending = finished;
}
unfolding render_chunks is_message_gone
reanchors = refl

render_chunks-Tracked_example :
    Memᴰ 1 (render_chunks remove chunks (1 ∷ 2 ∷ 3 ∷ 4 ∷ 5 ∷ [])).ids
    ⊎ Occurs (Ends 1) (render_chunks remove chunks (1 ∷ 2 ∷ 3 ∷ 4 ∷ 5 ∷ [])).log
render_chunks-Tracked_example =
    render_chunks-Tracked 1 remove chunks (1 ∷ 2 ∷ 3 ∷ 4 ∷ 5 ∷ []) (inl (Memᴰ.head refl))
