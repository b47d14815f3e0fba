-- ===== src/TurnRender/Quiet.antt =====
-- No status, tool, intent or reasoning changes the answer.
use discord_copilot_sdk.Base.{
  ℕ, false, List, [], ◌∷◌, Option, none, some, ◌≡◌, refl, arith, All, ◌∙◌, Bool-cases, inl, inr,
}
use discord_copilot_sdk.Chunk.{Text}
use discord_copilot_sdk.Dict.{get, set}
use discord_copilot_sdk.Dict.Entries.{Entries-get}
use discord_copilot_sdk.TurnRender.Items.{
  ToolCarry, intent, notice, is_blank, TurnRenderer, updated,
}
use discord_copilot_sdk.TurnRender.Ops.{
  ToolStart, reasoning_delta, reasoned, intends, tool_start, tool_complete, closed, close_text,
  replaced, apply_reasoning_delta, reasoning_at, apply_reasoning, add_intent, add_tool,
  complete_tool, apply,
}
use discord_copilot_sdk.TurnRender.Status.{
  add_audit, add_notice, set_todos, clear_todos, adopt_tools,
}
use discord_copilot_sdk.TurnRender.Answers.{
  answers, IsRendered, Keeps, Keeps-trans, Keeps-refl, pushed-Keeps, inserted-Keeps,
}
use discord_copilot_sdk.TurnRender.Kinds.{closed-kind, replaced-kind}
use discord_copilot_sdk.CustomId.{text_eq}
use discord_copilot_sdk.TurnRender.Keeps.{
  silent_update, push_reasoning-Keeps, carried-Keeps, close_text-Keeps, reasoning_delta_at-Keeps,
  tool_at-Keeps, complete_at-Keeps, audit_after-Keeps, todos_at-Keeps, remove_at-Keeps,
}

-- The changes of a timeline that are no part of an answer.
pub data Change : Type 0 where
  reasons : Text → Text → Change
  concludes : Text → Text → Change
  aims : Text → Change
  starts : ToolStart → Change
  completes : Text → Text → Text → Change
  audits : Text → Text → Change
  notices : Text → Change
  sets_todos : Text → Change
  clears_todos : Change
  adopts : List ToolCarry → Change

unfoldable pub change : Change → TurnRenderer → TurnRenderer
change (reasons id t) r = apply none (reasoning_delta id t) r
change (concludes id content) r = apply none (reasoned id content) r
change (aims t) r = apply none (intends t) r
change (starts e) r = apply none (tool_start e) r
change (completes id status error) r = apply none (tool_complete id status error) r
change (audits raw display) r = add_audit raw display r
change (notices t) r = add_notice t r
change (sets_todos t) r = set_todos t r
change clears_todos r = clear_todos r
change (adopts ts) r = adopt_tools ts r

unfoldable pub run_changes : List Change → TurnRenderer → TurnRenderer
run_changes [] r = r
run_changes (c ∷ cs) r = run_changes cs (change c r)

-- A final reasoning has some text.
abbrev pub IsWorded : Change → Type 0
IsWorded (concludes id content) = is_blank content ≡ false
IsWorded _ = Unit

module _ (r : TurnRenderer) (w : IsRendered r) where
  reasoning_at-Keeps :
      (id content : Text) (o : Option ℕ)
      → is_blank content ≡ false
      → get id r.reasoning_by_id ≡ o
      → Keeps r (reasoning_at id content o r)
  reasoning_at-Keeps id content none worded e =
      rw worded (push_reasoning-Keeps r w id content false)
  reasoning_at-Keeps id content (some n) worded e =
      let kind = (Entries-get _ id n r.reasoning_by_id w.reasonings e).0 in
      let said =
        silent_update r w n (replaced content) (ground arith)
          (replaced-kind content (r.objects n)) in
      let q = updated n (replaced content) r in
      rw worded (
        Keeps-trans r q (updated n closed q) said
          (silent_update q said.rendered n closed (ground arith) (closed-kind (q.objects n))))

-- Each method closes the text first.
module _ (r : TurnRenderer) (w : IsRendered r) where
  after_close :
      (s : TurnRenderer) → (IsRendered (close_text r) → Keeps (close_text r) s) → Keeps r s
  after_close s next =
      let c = close_text-Keeps r w in Keeps-trans r (close_text r) s c (next c.rendered)

  add_intent-Keeps : (t : Text) → Keeps r (add_intent t r)
  unfolding add_intent
  add_intent-Keeps t = after_close (add_intent t r) (λ v. elim (Bool-cases (is_blank t)) [
    | inl blank ↦ rw blank (Keeps-refl (close_text r) v)
    | inr shown ↦ rw shown (pushed-Keeps (close_text r) v (intent t) (λ rest. refl))
  ])

  add_notice-Keeps : (t : Text) → Keeps r (add_notice t r)
  unfolding add_notice
  add_notice-Keeps t = after_close (add_notice t r) (λ v. elim (Bool-cases (is_blank t)) [
    | inl blank ↦ rw blank (Keeps-refl (close_text r) v)
    | inr shown ↦ rw shown (inserted-Keeps (close_text r) v (notice t) (λ rest. refl))
  ])

  apply_reasoning_delta-Keeps : (id t : Text) → Keeps r (apply_reasoning_delta id t r)
  unfolding apply_reasoning_delta
  apply_reasoning_delta-Keeps id [] = close_text-Keeps r w
  apply_reasoning_delta-Keeps id (c ∷ t) =
      after_close (apply_reasoning_delta id (c ∷ t) r)
        (λ v. reasoning_delta_at-Keeps (close_text r) v id (c ∷ t) _ refl)

  apply_reasoning-Keeps :
      (id content : Text) → is_blank content ≡ false → Keeps r (apply_reasoning id content r)
  unfolding apply_reasoning
  apply_reasoning-Keeps id content worded =
      after_close (apply_reasoning id content r)
        (λ v. reasoning_at-Keeps (close_text r) v id content _ worded refl)

  add_tool-Keeps : (e : ToolStart) → Keeps r (add_tool e r)
  unfolding add_tool
  add_tool-Keeps e = after_close (add_tool e r) (λ v. tool_at-Keeps (close_text r) v e _ refl)

  complete_tool-Keeps : (id status error : Text) → Keeps r (complete_tool id status error r)
  unfolding complete_tool
  complete_tool-Keeps id status error = after_close (complete_tool id status error r) (λ v.
      carried-Keeps (close_text r) _ (complete_at-Keeps (close_text r) v id status error _ refl) _)

  add_audit-Keeps : (raw display : Text) → Keeps r (add_audit raw display r)
  unfolding add_audit
  add_audit-Keeps [] display = close_text-Keeps r w
  add_audit-Keeps (c ∷ raw) [] = close_text-Keeps r w
  add_audit-Keeps (c ∷ raw) (d ∷ display) =
      after_close (add_audit (c ∷ raw) (d ∷ display) r)
        (λ v. audit_after-Keeps (close_text r) v (c ∷ raw) (d ∷ display) _)

  set_todos-Keeps : (t : Text) → Keeps r (set_todos t r)
  unfolding set_todos
  set_todos-Keeps t = after_close (set_todos t r) (λ v. todos_at-Keeps (close_text r) v t _ refl)

  clear_todos-Keeps : Keeps r (clear_todos r)
  unfolding clear_todos
  clear_todos-Keeps = remove_at-Keeps r w _ refl

adopt_tools-Keeps :
    (r : TurnRenderer) → IsRendered r → (ts : List ToolCarry) → Keeps r (adopt_tools ts r)
unfolding adopt_tools
adopt_tools-Keeps r w [] = Keeps-refl r w
adopt_tools-Keeps r w (t ∷ ts) =
    let c = carried-Keeps r r (Keeps-refl r w) (set t.id t r.carried_tools) in
    let s = record r { carried_tools = set t.id t r.carried_tools } in
    Keeps-trans r s (adopt_tools ts s) c (adopt_tools-Keeps s c.rendered ts)

change-Keeps : (c : Change) (r : TurnRenderer) → IsRendered r → IsWorded c → Keeps r (change c r)
unfolding change apply
change-Keeps (reasons id t) r w h = apply_reasoning_delta-Keeps r w id t
change-Keeps (concludes id content) r w h = apply_reasoning-Keeps r w id content h
change-Keeps (aims t) r w h = add_intent-Keeps r w t
change-Keeps (starts e) r w h = add_tool-Keeps r w e
change-Keeps (completes id status error) r w h = complete_tool-Keeps r w id status error
change-Keeps (audits raw display) r w h = add_audit-Keeps r w raw display
change-Keeps (notices t) r w h = add_notice-Keeps r w t
change-Keeps (sets_todos t) r w h = set_todos-Keeps r w t
change-Keeps clears_todos r w h = clear_todos-Keeps r w
change-Keeps (adopts ts) r w h = adopt_tools-Keeps r w ts

-- No sequence of tools, intents, reasoning, audits, notices and todos changes the texts of the
-- answer or their order, and the timeline stays well formed: its items are allocated, what is
-- active is a text, and the ids lead to reasoning and to tools. A final reasoning in the sequence
-- is not blank.
pub run_changes-answers :
    (cs : List Change) (r : TurnRenderer)
    → IsRendered r
    → All IsWorded cs
    → IsRendered (run_changes cs r) × (answers (run_changes cs r) ≡ answers r)
unfolding run_changes
run_changes-answers [] r w h = (w, refl)
run_changes-answers (c ∷ cs) r w (worded, h) =
    let k = change-Keeps c r w worded in
    let (well, same) = run_changes-answers cs (change c r) k.rendered h in (well, same ∙ k.same)
