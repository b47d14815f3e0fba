-- ===== src/TurnRender/Keeps.antt =====
-- The changes of a timeline that keep its answer.
use discord_copilot_sdk.Base.{
  ℕ, ◌<◌, Bool, true, Option, none, some, nat_eq, ◌≡◌, ◌≢◌, refl, arith, ◌∙◌, Bool-cases, inl, inr,
  sym, beq_refl,
}
use discord_copilot_sdk.Chunk.{Text}
use discord_copilot_sdk.CustomId.{text_eq}
use discord_copilot_sdk.Dict.{Dict, get, set}
use discord_copilot_sdk.Dict.Entries.{Entries-set, Entries-get}
use discord_copilot_sdk.TurnRender.Items.{
  ToolItem, ToolCarry, TimelineItem, text, reasoning, intent, tool, audit, notice, todos, is_blank,
  TurnRenderer, pushed, updated, find_todos,
}
use discord_copilot_sdk.TurnRender.Ops.{
  ToolStart, closed, close_at, close_text, appended, replaced, push_reasoning, reasoning_delta_at,
  on_tool, restarted, remembered, carry_of, started, push_tool, tool_at, completed, finished,
  complete_at,
}
use discord_copilot_sdk.TurnRender.Status.{
  remove_at, audit_after, todos_at, counted_once_more, is_audit_of,
}
use discord_copilot_sdk.TurnRender.Answers.{
  of_text, of_reasoning, of_tool, kind_of, IsRendered, Keeps, Keeps-refl, updated-Keeps,
  pushed-Keeps, inserted-Keeps, spliced_out-Keeps,
}
use discord_copilot_sdk.TurnRender.Kinds.{
  closed-kind, closed-answer, not_text-IsSilent, appended-kind, replaced-kind, counted-kind,
  on_tool-kind, audit-not_text, todos-not_text, find_todos-some,
}

-- The maps and what is active do not look at the carried tools, nor at an answer that is closed.
module _ (r s : TurnRenderer) (k : Keeps r s) where
  pub carried-Keeps : (m : Dict Text ToolCarry) → Keeps r (record s { carried_tools = m })
  carried-Keeps m = record {
    rendered = record {
      allocated = k.rendered.allocated;
      active = k.rendered.active;
      reasonings = k.rendered.reasonings;
      tools = k.rendered.tools;
    };
    same = k.same;
  }

  remembered-Keeps : (v : TimelineItem) → Keeps r (remembered v s)
  remembered-Keeps (tool t) = carried-Keeps (set t.id (carry_of t) s.carried_tools)
  remembered-Keeps (text t o) = k
  remembered-Keeps (reasoning id t o) = k
  remembered-Keeps (intent t) = k
  remembered-Keeps (audit raw display n) = k
  remembered-Keeps (notice t) = k
  remembered-Keeps (todos t) = k

  closed-Keeps : Keeps r (record s { active_text = none })
  closed-Keeps = record {
    rendered = record {
      allocated = k.rendered.allocated;
      active = tt;
      reasonings = k.rendered.reasonings;
      tools = k.rendered.tools;
    };
    same = k.same;
  }

  reasoning-Keeps :
      (id : Text) (n : ℕ)
      → kind_of (s.objects n) ≡ of_reasoning
      → n < s.next_object
      → Keeps r (record s { reasoning_by_id = set id n s.reasoning_by_id })
  reasoning-Keeps id n kind old = record {
    rendered = record {
      allocated = k.rendered.allocated;
      active = k.rendered.active;
      reasonings =
          Entries-set (λ i m. (kind_of (s.objects m) ≡ of_reasoning) × (m < s.next_object)) id n
            s.reasoning_by_id (kind, old) k.rendered.reasonings;
      tools = k.rendered.tools;
    };
    same = k.same;
  }

  tool-Keeps :
      (id : Text) (n : ℕ)
      → kind_of (s.objects n) ≡ of_tool
      → n < s.next_object
      → Keeps r (record s { tool_by_id = set id n s.tool_by_id })
  tool-Keeps id n kind old = record {
    rendered = record {
      allocated = k.rendered.allocated;
      active = k.rendered.active;
      reasonings = k.rendered.reasonings;
      tools =
          Entries-set (λ i m. (kind_of (s.objects m) ≡ of_tool) × (m < s.next_object)) id n
            s.tool_by_id (kind, old) k.rendered.tools;
    };
    same = k.same;
  }

module _ (r : TurnRenderer) (w : IsRendered r) where
  close_at-Keeps : (o : Option ℕ) → Keeps r (close_at o r)
  close_at-Keeps none = Keeps-refl r w
  close_at-Keeps (some n) =
      closed-Keeps r (updated n closed r)
        (updated-Keeps r w n closed (closed-kind (r.objects n)) (closed-answer (r.objects n)))

  pub close_text-Keeps : Keeps r (close_text r)
  unfolding close_text
  close_text-Keeps = close_at-Keeps r.active_text

  -- A change of an object that is no text, which stays of its kind.
  pub silent_update :
      (n : ℕ) (f : TimelineItem → TimelineItem)
      → kind_of (r.objects n) ≢ of_text
      → kind_of (f (r.objects n)) ≡ kind_of (r.objects n)
      → Keeps r (updated n f r)
  silent_update n f other kind = updated-Keeps r w n f kind (λ rest.
      not_text-IsSilent (f (r.objects n)) (λ e. other (sym kind ∙ e)) rest
      ∙ sym (not_text-IsSilent (r.objects n) other rest))

  pub push_reasoning-Keeps : (id t : Text) (o : Bool) → Keeps r (push_reasoning id t o r)
  push_reasoning-Keeps id t o =
      reasoning-Keeps r (pushed (reasoning id t o) r)
        (pushed-Keeps r w (reasoning id t o) (λ rest. refl)) id r.next_object
        (rw (beq_refl r.next_object) refl) (omega arith)

  push_tool-Keeps : (t : ToolItem) → Keeps r (push_tool t r)
  push_tool-Keeps t =
      tool-Keeps r (pushed (tool t) r) (pushed-Keeps r w (tool t) (λ rest. refl)) t.id r.next_object
        (rw (beq_refl r.next_object) refl) (omega arith)

-- What each method does once the text is closed.
module _ (r : TurnRenderer) (w : IsRendered r) where
  pub reasoning_delta_at-Keeps :
      (id t : Text) (o : Option ℕ)
      → get id r.reasoning_by_id ≡ o
      → Keeps r (reasoning_delta_at id t o r)
  reasoning_delta_at-Keeps id t none e = push_reasoning-Keeps r w id t true
  reasoning_delta_at-Keeps id t (some n) e =
      let kind = (Entries-get _ id n r.reasoning_by_id w.reasonings e).0 in
      silent_update r w n (appended t) (ground arith) (appended-kind t (r.objects n))

  pub tool_at-Keeps :
      (e : ToolStart) (o : Option ℕ) → get e.id r.tool_by_id ≡ o → Keeps r (tool_at e o r)
  tool_at-Keeps e none h =
      carried-Keeps r (push_tool (started e) r) (push_tool-Keeps r w (started e)) _
  tool_at-Keeps e (some n) h =
      let kind = (Entries-get _ e.id n r.tool_by_id w.tools h).0 in
      remembered-Keeps r (updated n (on_tool (restarted e)) r)
        (silent_update r w n (on_tool (restarted e)) (ground arith)
          (on_tool-kind (restarted e) (r.objects n)))
        (on_tool (restarted e) (r.objects n))

  pub complete_at-Keeps :
      (id status error : Text) (o : Option ℕ)
      → get id r.tool_by_id ≡ o
      → Keeps r (complete_at id status error o r)
  complete_at-Keeps id status error none h =
      push_tool-Keeps r w (completed id status error (get id r.carried_tools))
  complete_at-Keeps id status error (some n) h =
      let kind = (Entries-get _ id n r.tool_by_id w.tools h).0 in
      silent_update r w n (on_tool (finished status error)) (ground arith)
        (on_tool-kind (finished status error) (r.objects n))

  pub audit_after-Keeps :
      (raw display : Text) (o : Option ℕ) → Keeps r (audit_after raw display o r)
  audit_after-Keeps raw display none = inserted-Keeps r w (audit raw display 1) (λ rest. refl)
  audit_after-Keeps raw display (some n) = elim (Bool-cases (is_audit_of raw (r.objects n))) [
    | inl again ↦ rw again (
        silent_update r w n counted_once_more (audit-not_text raw (r.objects n) again)
          (counted-kind (r.objects n)))
    | inr other ↦ rw other (inserted-Keeps r w (audit raw display 1) (λ rest. refl))
  ]

  pub todos_at-Keeps :
      (t : Text) (o : Option ℕ) → find_todos r.objects r.items ≡ o → Keeps r (todos_at t o r)
  todos_at-Keeps t none h = elim (Bool-cases (is_blank t)) [
    | inl blank ↦ rw blank (Keeps-refl r w)
    | inr shown ↦ rw shown (inserted-Keeps r w (todos t) (λ rest. refl))
  ]
  todos_at-Keeps t (some n) h =
      let (there, is) = find_todos-some n r.objects r.items h in
      silent_update r w n (replaced t) (todos-not_text (r.objects n) is)
        (replaced-kind t (r.objects n))

  pub remove_at-Keeps : (o : Option ℕ) → find_todos r.objects r.items ≡ o → Keeps r (remove_at o r)
  remove_at-Keeps none h = Keeps-refl r w
  remove_at-Keeps (some n) h =
      let (there, is) = find_todos-some n r.objects r.items h in
      spliced_out-Keeps r w n there
        (not_text-IsSilent (r.objects n) (todos-not_text (r.objects n) is))
