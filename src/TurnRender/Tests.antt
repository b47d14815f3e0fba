-- ===== src/TurnRender/Tests.antt =====
-- The theorems on the timeline at concrete events.
use discord_copilot_sdk.Base.{false, List, [], ◌∷◌, none, ◌≡◌, refl, arith, nat_eq, ◌++◌}
use mathlib.Core.List.{Memᴰ}
use discord_copilot_sdk.Chunk.{Text}
use discord_copilot_sdk.CustomId.{text_eq}
use discord_copilot_sdk.Dict.{get, set}
use discord_copilot_sdk.TurnRender.Items.{
  ToolItem, text, tool, is_blank, TurnRenderer, new_renderer, spliced_out,
}
use discord_copilot_sdk.TurnRender.Ops.{
  reasoning_delta, reasoned, message, tool_complete, apply, apply_reasoning_delta, apply_reasoning,
  close_text, view, carry_of,
}
use discord_copilot_sdk.TurnRender.Status.{adopt_tools}
use discord_copilot_sdk.TurnRender.Answers.{answers, IsRendered}
use discord_copilot_sdk.TurnRender.Stream.{stream, message-stream}
use discord_copilot_sdk.TurnRender.Quiet.{
  Change, aims, audits, notices, run_changes, run_changes-answers,
}
use discord_copilot_sdk.TurnRender.Carry.{
  running, in_flight_tools, IsOnly, complete_tool-in_flight_tools,
}

abbrev hello : Text
hello = b'h' ∷ b'i' ∷ []

abbrev id_r : Text
id_r = b'r' ∷ []

abbrev space : Text
space = b' ' ∷ []

hello_is_shown : is_blank hello ≡ false
unfolding is_blank
hello_is_shown = refl

message-stream_example :
    view (apply none (message hello) (stream ((b'h' ∷ []) ∷ (b'o' ∷ []) ∷ []) new_renderer))
    ≡ view new_renderer ++ text hello false ∷ []
message-stream_example =
    message-stream new_renderer ((b'h' ∷ []) ∷ (b'o' ∷ []) ∷ []) hello refl tt hello_is_shown

-- A timeline of one closed answer.
abbrev answered : TurnRenderer
answered = record new_renderer { objects = λ n. text hello false; items = 0 ∷ []; next_object = 1 }

answered-IsRendered : IsRendered answered
answered-IsRendered = record {
  allocated = (omega arith, tt);
  active = tt;
  reasonings = tt;
  tools = tt;
}

abbrev later_changes : List Change
later_changes = notices hello ∷ audits hello hello ∷ audits hello hello ∷ aims hello ∷ []

run_changes-answers_example :
    IsRendered (run_changes later_changes answered)
    × (answers (run_changes later_changes answered) ≡ answers answered)
run_changes-answers_example =
    run_changes-answers later_changes answered answered-IsRendered (tt, (tt, (tt, (tt, tt))))

-- The second end of a reasoning that has no text takes the answer off the timeline.
answer_taken_off :
    view (
      apply none
        (reasoned id_r [])
        (apply none (reasoned id_r []) (apply none (reasoning_delta id_r space) answered)))
    ≡ []
unfolding apply apply_reasoning_delta apply_reasoning close_text get set is_blank spliced_out
answer_taken_off = refl

abbrev build : ToolItem
build = record {
  id = id_r;
  name = hello;
  status = running;
  arguments = none;
  possible_paths = hello ∷ [];
  description = [];
  error = [];
}

abbrev building : TurnRenderer
building = record new_renderer {
  objects = λ n. tool build;
  items = 0 ∷ [];
  tool_by_id = (id_r, 0) ∷ [];
  next_object = 1;
}

build-IsOnly : IsOnly (carry_of build) (in_flight_tools building)
unfolding in_flight_tools
build-IsOnly d (Memᴰ.head e) same = e
build-IsOnly d (Memᴰ.tail m) same = elim m [ ]

complete_tool-in_flight_tools_example :
    view (
      apply none
        (tool_complete id_r hello [])
        (adopt_tools (in_flight_tools building) new_renderer))
    ≡ tool (record build { status = hello; error = [] }) ∷ []
complete_tool-in_flight_tools_example =
    complete_tool-in_flight_tools building 0 build hello [] refl refl refl build-IsOnly
