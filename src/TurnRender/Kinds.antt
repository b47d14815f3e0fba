-- ===== src/TurnRender/Kinds.antt =====
-- What each change of an item keeps of it.
use discord_copilot_sdk.Base.{
  ℕ, true, List, [], ◌∷◌, some, nat_eq, ◌≡◌, ◌≢◌, refl, arith, Bool-cases, inl, inr, of_some-eq,
}
use mathlib.Core.Path.{subst}
use discord_copilot_sdk.Chunk.{Text}
use discord_copilot_sdk.CustomId.{text_eq}
use discord_copilot_sdk.TurnRender.Items.{
  ToolItem, TimelineItem, text, reasoning, intent, tool, audit, notice, todos, is_todos, lists,
  find_todos,
}
use discord_copilot_sdk.TurnRender.Ops.{closed, appended, replaced, on_tool}
use discord_copilot_sdk.TurnRender.Status.{counted_once_more, is_audit_of}
use discord_copilot_sdk.TurnRender.Answers.{of_text, kind_of, with_answer, IsSilent}

pub closed-kind : (v : TimelineItem) → kind_of (closed v) ≡ kind_of v
closed-kind (text s o) = refl
closed-kind (reasoning id s o) = refl
closed-kind (intent s) = refl
closed-kind (tool t) = refl
closed-kind (audit raw display n) = refl
closed-kind (notice s) = refl
closed-kind (todos s) = refl

pub closed-answer :
    (v : TimelineItem) (rest : List Text) → with_answer (closed v) rest ≡ with_answer v rest
closed-answer (text s o) rest = refl
closed-answer (reasoning id s o) rest = refl
closed-answer (intent s) rest = refl
closed-answer (tool t) rest = refl
closed-answer (audit raw display n) rest = refl
closed-answer (notice s) rest = refl
closed-answer (todos s) rest = refl

pub not_text-IsSilent : (v : TimelineItem) → kind_of v ≢ of_text → IsSilent v
not_text-IsSilent (text s o) h rest = absurd (h refl)
not_text-IsSilent (reasoning id s o) h rest = refl
not_text-IsSilent (intent s) h rest = refl
not_text-IsSilent (tool t) h rest = refl
not_text-IsSilent (audit raw display n) h rest = refl
not_text-IsSilent (notice s) h rest = refl
not_text-IsSilent (todos s) h rest = refl

pub appended-kind : (t : Text) (v : TimelineItem) → kind_of (appended t v) ≡ kind_of v
appended-kind t v = ground arith

pub replaced-kind : (t : Text) (v : TimelineItem) → kind_of (replaced t v) ≡ kind_of v
replaced-kind t v = ground arith

pub counted-kind : (v : TimelineItem) → kind_of (counted_once_more v) ≡ kind_of v
counted-kind v = ground arith

pub on_tool-kind : (f : ToolItem → ToolItem) (v : TimelineItem) → kind_of (on_tool f v) ≡ kind_of v
on_tool-kind f (tool t) = refl
on_tool-kind f (text s o) = refl
on_tool-kind f (reasoning id s o) = refl
on_tool-kind f (intent s) = refl
on_tool-kind f (audit raw display n) = refl
on_tool-kind f (notice s) = refl
on_tool-kind f (todos s) = refl

pub audit-not_text :
    (raw : Text) (v : TimelineItem) → is_audit_of raw v ≡ true → kind_of v ≢ of_text
audit-not_text raw v h = ground arith

pub todos-not_text : (v : TimelineItem) → is_todos v ≡ true → kind_of v ≢ of_text
todos-not_text v h = ground arith

pub find_todos-some :
    (n : ℕ) (f : ℕ → TimelineItem) (ms : List ℕ)
    → find_todos f ms ≡ some n
    → (lists n ms ≡ true) × (is_todos (f n) ≡ true)
unfolding find_todos
find_todos-some n f [] h = cc
find_todos-some n f (m ∷ ms) h = elim (Bool-cases (is_todos (f m))) [
  | inl here ↦
      let same : m ≡ n = of_some-eq (rw here at h) in
      (ground (arith, nat_eq.beq_iff m n), subst (λ k. is_todos (f k) ≡ true) same here)
  | inr later ↦ let rest = find_todos-some n f ms (rw later at h) in (ground arith, rest.1)
]
