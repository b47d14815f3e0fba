-- ===== src/TurnRender/Ops.antt =====
-- core/turn-render.ts: the methods of `TurnRenderer`.
use discord_copilot_sdk.Base.{
  ℕ, Bool, true, false, not, List, [], ◌∷◌, ◌++◌, Option, none, some, map, if◌then◌else◌,
}
use discord_copilot_sdk.Chunk.{Text}
use discord_copilot_sdk.CustomId.{text_eq}
use discord_copilot_sdk.Json.{Json}
use discord_copilot_sdk.Dict.{get, set, delete}
use discord_copilot_sdk.TurnRender.Items.{
  ToolItem, ToolCarry, TimelineItem, text, reasoning, intent, tool, todos, is_blank, TurnRenderer,
  pushed, updated, spliced_out,
}

pub record ToolStart : Type 0 where
  pub id : Text
  pub name : Text
  pub arguments : Option Json
  pub possible_paths : List Text
  pub description : Text

pub data NormEvent : Type 0 where
  message_delta : Text → NormEvent
  message : Text → NormEvent
  reasoning_delta : Text → Text → NormEvent
  reasoned : Text → Text → NormEvent
  intends : Text → NormEvent
  tool_start : ToolStart → NormEvent
  tool_complete : Text → Text → Text → NormEvent

abbrev pub closed : TimelineItem → TimelineItem
closed (text s o) = text s false
closed (reasoning id s o) = reasoning id s false
closed x = x

abbrev pub is_empty : Text → Bool
is_empty [] = true
is_empty (c ∷ s) = false

abbrev pub close_at : Option ℕ → TurnRenderer → TurnRenderer
close_at none r = r
close_at (some n) r = record (updated n closed r) { active_text = none }

unfoldable pub close_text : TurnRenderer → TurnRenderer
close_text r = close_at r.active_text r

-- `openText().text += t`
abbrev pub appended : Text → TimelineItem → TimelineItem
appended t (text s o) = text (s ++ t) o
appended t (reasoning id s o) = reasoning id (s ++ t) o
appended t x = x

-- `item.text = t`
abbrev pub replaced : Text → TimelineItem → TimelineItem
replaced t (text s o) = text t o
replaced t (reasoning id s o) = reasoning id t o
replaced t (todos s) = todos t
replaced t x = x

-- The text of an item that has one.
abbrev pub text_of : TimelineItem → Text
text_of (text s o) = s
text_of (reasoning id s o) = s
text_of x = []

unfoldable pub apply_delta : Text → TurnRenderer → TurnRenderer
apply_delta [] r = r
apply_delta (c ∷ t) r = elim r.active_text [
  | some n ↦ updated n (appended (c ∷ t)) r
  | none ↦ record (pushed (text (c ∷ t) true) r) { active_text = some r.next_object }
]

unfoldable pub apply_message : Text → TurnRenderer → TurnRenderer
apply_message content r = elim r.active_text [
  | none ↦ if is_blank content then r else pushed (text content false) r
  | some n ↦ close_text (
      if not (is_blank content)
      then updated n (replaced content) r
      else if is_blank (text_of (r.objects n))
      then record r { items = spliced_out n r.items }
      else r)
]

-- A new item of reasoning, under its id.
abbrev pub push_reasoning : Text → Text → Bool → TurnRenderer → TurnRenderer
push_reasoning id s o r = record (pushed (reasoning id s o) r) {
  reasoning_by_id = set id r.next_object r.reasoning_by_id;
}

-- The part of the two methods on reasoning after `closeText`.
abbrev pub reasoning_delta_at : Text → Text → Option ℕ → TurnRenderer → TurnRenderer
reasoning_delta_at id t (some n) r = updated n (appended t) r
reasoning_delta_at id t none r = push_reasoning id t true r

unfoldable pub apply_reasoning_delta : Text → Text → TurnRenderer → TurnRenderer
apply_reasoning_delta id t r =
    let c = close_text r in
    if is_empty t then c else reasoning_delta_at id t (get id c.reasoning_by_id) c

abbrev pub reasoning_at : Text → Text → Option ℕ → TurnRenderer → TurnRenderer
reasoning_at id content none r = if is_blank content then r else push_reasoning id content false r
reasoning_at id content (some n) r = updated n closed (
    if not (is_blank content)
    then updated n (replaced content) r
    else if is_blank (text_of (r.objects n))
    then record r { items = spliced_out n r.items }
    else r)

unfoldable pub apply_reasoning : Text → Text → TurnRenderer → TurnRenderer
apply_reasoning id content r =
    let c = close_text r in reasoning_at id content (get id c.reasoning_by_id) c

unfoldable pub add_intent : Text → TurnRenderer → TurnRenderer
add_intent t r = let c = close_text r in if is_blank t then c else pushed (intent t) c

abbrev pub carry_of : ToolItem → ToolCarry
carry_of t = record {
  id = t.id;
  name = t.name;
  arguments = t.arguments;
  possible_paths = t.possible_paths;
  description = t.description;
}

-- `a || b`, on texts, optional objects and lists.
abbrev pub or_text : Text → Text → Text
or_text a b = if is_empty a then b else a

abbrev pub or_arguments : Option Json → Option Json → Option Json
or_arguments none b = b
or_arguments (some a) b = some a

abbrev pub or_paths : List Text → List Text → List Text
or_paths [] b = b
or_paths (p ∷ ps) b = p ∷ ps

abbrev pub restarted : ToolStart → ToolItem → ToolItem
restarted e t = record t {
  name = or_text e.name t.name;
  arguments = or_arguments e.arguments t.arguments;
  possible_paths = or_paths e.possible_paths t.possible_paths;
  description = or_text e.description t.description;
}

abbrev pub on_tool : (ToolItem → ToolItem) → TimelineItem → TimelineItem
on_tool f (tool t) = tool (f t)
on_tool f x = x

abbrev pub remembered : TimelineItem → TurnRenderer → TurnRenderer
remembered (tool t) r = record r { carried_tools = set t.id (carry_of t) r.carried_tools }
remembered x r = r

abbrev pub started : ToolStart → ToolItem
started e = record {
  id = e.id;
  name = e.name;
  status = b'r' ∷ b'u' ∷ b'n' ∷ b'n' ∷ b'i' ∷ b'n' ∷ b'g' ∷ [];
  arguments = e.arguments;
  possible_paths = e.possible_paths;
  description = e.description;
  error = [];
}

abbrev pub push_tool : ToolItem → TurnRenderer → TurnRenderer
push_tool t r = record (pushed (tool t) r) { tool_by_id = set t.id r.next_object r.tool_by_id }

abbrev pub tool_at : ToolStart → Option ℕ → TurnRenderer → TurnRenderer
tool_at e (some n) r =
    remembered (on_tool (restarted e) (r.objects n)) (updated n (on_tool (restarted e)) r)
tool_at e none r = remembered (tool (started e)) (push_tool (started e) r)

unfoldable pub add_tool : ToolStart → TurnRenderer → TurnRenderer
add_tool e r = let c = close_text r in tool_at e (get e.id c.tool_by_id) c

-- A tool that completes without a start in this block, with what was carried over to it.
abbrev pub completed : Text → Text → Text → Option ToolCarry → ToolItem
completed id status error none = record {
  id = id;
  name = [];
  status = status;
  arguments = none;
  possible_paths = [];
  description = [];
  error = error;
}
completed id status error (some c) = record {
  id = id;
  name = c.name;
  status = status;
  arguments = c.arguments;
  possible_paths = c.possible_paths;
  description = c.description;
  error = error;
}

abbrev pub finished : Text → Text → ToolItem → ToolItem
finished status error t = record t { status = status; error = or_text error t.error }

abbrev pub complete_at : Text → Text → Text → Option ℕ → TurnRenderer → TurnRenderer
complete_at id status error (some n) r = updated n (on_tool (finished status error)) r
complete_at id status error none r =
    push_tool (completed id status error (get id r.carried_tools)) r

unfoldable pub complete_tool : Text → Text → Text → TurnRenderer → TurnRenderer
complete_tool id status error r =
    let c = close_text r in
    let d = complete_at id status error (get id c.tool_by_id) c in
    record d { carried_tools = delete id d.carried_tools }

abbrev pub dispatch : NormEvent → TurnRenderer → TurnRenderer
dispatch (message_delta t) r = apply_delta t r
dispatch (message content) r = apply_message content r
dispatch (reasoning_delta id t) r = apply_reasoning_delta id t r
dispatch (reasoned id content) r = apply_reasoning id content r
dispatch (intends t) r = add_intent t r
dispatch (tool_start e) r = add_tool e r
dispatch (tool_complete id status error) r = complete_tool id status error r

-- Events of sub-agents are left out.
unfoldable pub apply : Option Text → NormEvent → TurnRenderer → TurnRenderer
apply (some agent) e r = r
apply none e r = dispatch e r

-- The items of `state()`.
abbrev pub view : TurnRenderer → List TimelineItem
view r = map r.objects r.items
