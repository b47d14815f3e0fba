-- ===== src/TurnRender/Carry.antt =====
-- core/turn-render.ts: the tools that a card cuts off, and their completion below it.
use discord_copilot_sdk.Base.{
  ℕ, true, List, [], ◌∷◌, none, some, ◌==◌, if◌then◌else◌, ◌≡◌, refl, ◌⊎◌, inl, inr, ap, ◌∙◌, sym,
  Bool-cases, nat_eq,
}
use mathlib.Core.List.{Memᴰ}
use mathlib.Core.Bool.{false≢true}
use discord_copilot_sdk.Chunk.{Text}
use discord_copilot_sdk.CustomId.{text_eq}
use discord_copilot_sdk.Dict.{Dict, get, set}
use discord_copilot_sdk.Dict.Laws.{get-set}
use discord_copilot_sdk.TurnRender.Items.{
  ToolItem, ToolCarry, TimelineItem, text, reasoning, intent, tool, audit, notice, todos, lists,
  TurnRenderer, new_renderer,
}
use discord_copilot_sdk.TurnRender.Ops.{
  tool_complete, apply, carry_of, close_text, completed, complete_tool, view,
}
use discord_copilot_sdk.TurnRender.Status.{adopt_tools}

abbrev pub running : Text
running = b'r' ∷ b'u' ∷ b'n' ∷ b'n' ∷ b'i' ∷ b'n' ∷ b'g' ∷ []

abbrev pub with_running : TimelineItem → List ToolCarry → List ToolCarry
with_running (tool t) rest = if t.status == running then carry_of t ∷ rest else rest
with_running _ rest = rest

abbrev pub running_of : (ℕ → TimelineItem) → List ℕ → List ToolCarry
running_of objects [] = []
running_of objects (m ∷ ms) = with_running (objects m) (running_of objects ms)

unfoldable pub in_flight_tools : TurnRenderer → List ToolCarry
in_flight_tools r = running_of r.objects r.items

-- The tools of a list under one id are the same.
abbrev pub IsOnly : ToolCarry → List ToolCarry → Type 0
IsOnly c ts = (d : ToolCarry) → Memᴰ d ts → d.id ≡ c.id → d ≡ c

-- What is under the id once the first tool is adopted.
adopted_first :
    (c t : ToolCarry) (ts : List ToolCarry) (r : TurnRenderer)
    → IsOnly c (t ∷ ts)
    → (get c.id r.carried_tools ≡ some c) ⊎ Memᴰ c (t ∷ ts)
    → (get c.id (set t.id t r.carried_tools) ≡ some c) ⊎ Memᴰ c ts
adopted_first c t ts r only h = elim (Bool-cases (t.id == c.id)) [
  | inl same ↦
      let is = only t (Memᴰ.head refl) ((text_eq.beq_iff t.id c.id).0 same) in
      inl (get-set t.id c.id t r.carried_tools ∙ rw same (ap some is))
  | inr other ↦ elim h [
    | inl e ↦ inl (get-set t.id c.id t r.carried_tools ∙ rw other e)
    | inr m ↦ elim m [
      | Memᴰ.head e ↦
          absurd (false≢true (sym other ∙ (text_eq.beq_iff t.id c.id).1 (ap (λ d. d.id) (sym e))))
      | Memᴰ.tail l ↦ inr l
    ]
  ]
]

adopt_tools-get :
    (c : ToolCarry) (ts : List ToolCarry) (r : TurnRenderer)
    → IsOnly c ts
    → (get c.id r.carried_tools ≡ some c) ⊎ Memᴰ c ts
    → get c.id (adopt_tools ts r).carried_tools ≡ some c
unfolding adopt_tools
adopt_tools-get c [] r only (inl e) = e
adopt_tools-get c [] r only (inr m) = elim m [ ]
adopt_tools-get c (t ∷ ts) r only h =
    adopt_tools-get c ts (record r { carried_tools = set t.id t r.carried_tools })
      (λ d m. only d (Memᴰ.tail m)) (adopted_first c t ts r only h)

-- Nothing else is adopted.
adopt_tools_only :
    (ts : List ToolCarry) (r : TurnRenderer)
    → adopt_tools ts r ≡ record r { carried_tools = (adopt_tools ts r).carried_tools }
unfolding adopt_tools
adopt_tools_only [] r = refl
adopt_tools_only (t ∷ ts) r =
    adopt_tools_only ts (record r { carried_tools = set t.id t r.carried_tools })

with_running-Memᴰ :
    (c : ToolCarry) (v : TimelineItem) (rest : List ToolCarry)
    → Memᴰ c rest
    → Memᴰ c (with_running v rest)
with_running-Memᴰ c (tool t) rest m = elim (Bool-cases (t.status == running)) [
  | inl runs ↦ rw runs (Memᴰ.tail m)
  | inr over ↦ rw over m
]
with_running-Memᴰ c (text s o) rest m = m
with_running-Memᴰ c (reasoning id s o) rest m = m
with_running-Memᴰ c (intent s) rest m = m
with_running-Memᴰ c (audit raw display n) rest m = m
with_running-Memᴰ c (notice s) rest m = m
with_running-Memᴰ c (todos s) rest m = m

running_of-Memᴰ :
    (t : ToolItem) (f : ℕ → TimelineItem) (n : ℕ) (ms : List ℕ)
    → lists n ms ≡ true
    → f n ≡ tool t
    → t.status ≡ running
    → Memᴰ (carry_of t) (running_of f ms)
running_of-Memᴰ t f n [] listed is runs = cc
running_of-Memᴰ t f n (m ∷ ms) listed is runs = elim (Bool-cases (m == n)) [
  | inr other ↦
      with_running-Memᴰ (carry_of t) (f m) (running_of f ms)
        (running_of-Memᴰ t f n ms (rw other at listed) is runs)
  | inl same ↦
      let here : f m ≡ tool t = ap f ((nat_eq.beq_iff m n).0 same) ∙ is in
      rw (here, (text_eq.beq_iff t.status running).1 runs) (Memᴰ.head refl)
]

complete_tool_named :
    (t : ToolItem) (status error : Text) (m : Dict Text ToolCarry)
    → get t.id m ≡ some (carry_of t)
    → view (complete_tool t.id status error (record new_renderer { carried_tools = m }))
      ≡ tool (record t { status = status; error = error }) ∷ []
unfolding complete_tool close_text get
complete_tool_named t status error m e = ap (λ o. tool (completed t.id status error o) ∷ []) e

-- A tool that is running when a card cuts the turn off completes in the new block with its name,
-- arguments, paths and description, as the one item of that block, where the tools in flight under
-- its id are that tool.
pub complete_tool-in_flight_tools :
    (r : TurnRenderer) (n : ℕ) (t : ToolItem) (status error : Text)
    → lists n r.items ≡ true
    → r.objects n ≡ tool t
    → t.status ≡ running
    → IsOnly (carry_of t) (in_flight_tools r)
    → view (
        apply none (tool_complete t.id status error) (adopt_tools (in_flight_tools r) new_renderer))
      ≡ tool (record t { status = status; error = error }) ∷ []
unfolding apply in_flight_tools
complete_tool-in_flight_tools r n t status error listed is runs only =
    let ts = in_flight_tools r in
    ap (λ s. view (complete_tool t.id status error s)) (adopt_tools_only ts new_renderer)
    ∙ complete_tool_named t status error (adopt_tools ts new_renderer).carried_tools (
        adopt_tools-get (carry_of t) ts new_renderer only
          (inr (running_of-Memᴰ t r.objects n r.items listed is runs)))
