-- ===== src/TurnRender/Status.antt =====
-- core/turn-render.ts: audits, notices and todos, which stand before the last answer, and the tools
-- that a card carries over.
use discord_copilot_sdk.Base.{
  ℕ, ◌+◌, Bool, false, List, [], ◌∷◌, Option, none, some, ◌==◌, if◌then◌else◌,
}
use discord_copilot_sdk.Chunk.{Text}
use discord_copilot_sdk.CustomId.{text_eq}
use discord_copilot_sdk.Dict.{set}
use discord_copilot_sdk.TurnRender.Items.{
  ToolCarry, TimelineItem, audit, notice, todos, is_blank, TurnRenderer, created, updated,
  spliced_out, insert_status, before_status, find_todos,
}
use discord_copilot_sdk.TurnRender.Ops.{close_text, replaced}

abbrev pub counted_once_more : TimelineItem → TimelineItem
counted_once_more (audit raw display n) = audit raw display (n + 1)
counted_once_more x = x

abbrev pub is_audit_of : Text → TimelineItem → Bool
is_audit_of raw (audit r display n) = r == raw
is_audit_of raw x = false

-- A new item before the last text, or at the end.
abbrev pub inserted : TimelineItem → TurnRenderer → TurnRenderer
inserted v r = record (created v r) { items = insert_status r.next_object r.objects r.items }

abbrev pub audit_after : Text → Text → Option ℕ → TurnRenderer → TurnRenderer
audit_after raw display none r = inserted (audit raw display 1) r
audit_after raw display (some n) r =
    if is_audit_of raw (r.objects n)
    then updated n counted_once_more r
    else inserted (audit raw display 1) r

unfoldable pub add_audit : Text → Text → TurnRenderer → TurnRenderer
add_audit [] display r = close_text r
add_audit (c ∷ raw) [] r = close_text r
add_audit (c ∷ raw) (d ∷ display) r =
    let q = close_text r in
    audit_after (c ∷ raw) (d ∷ display) (before_status none q.objects q.items) q

unfoldable pub add_notice : Text → TurnRenderer → TurnRenderer
add_notice t r = let c = close_text r in if is_blank t then c else inserted (notice t) c

abbrev pub todos_at : Text → Option ℕ → TurnRenderer → TurnRenderer
todos_at t (some n) r = updated n (replaced t) r
todos_at t none r = if is_blank t then r else inserted (todos t) r

unfoldable pub set_todos : Text → TurnRenderer → TurnRenderer
set_todos t r = let c = close_text r in todos_at t (find_todos c.objects c.items) c

abbrev pub remove_at : Option ℕ → TurnRenderer → TurnRenderer
remove_at none r = r
remove_at (some n) r = record r { items = spliced_out n r.items }

unfoldable pub clear_todos : TurnRenderer → TurnRenderer
clear_todos r = remove_at (find_todos r.objects r.items) r

unfoldable pub adopt_tools : List ToolCarry → TurnRenderer → TurnRenderer
adopt_tools [] r = r
adopt_tools (t ∷ ts) r = adopt_tools ts (record r { carried_tools = set t.id t r.carried_tools })
