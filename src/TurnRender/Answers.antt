-- ===== src/TurnRender/Answers.antt =====
-- What is well formed in a timeline, and how each change of it keeps the texts of the answer.
use discord_copilot_sdk.Base.{
  ℕ, ◌+◌, ◌≤◌, ◌<◌, true, false, ◌&&◌, not, List, [], ◌∷◌, ◌++◌, Option, none, some, ◌==◌, nat_eq,
  ◌≡◌, refl, arith, All, All-append, ap, ◌∙◌, Bool-cases, inl, inr, beq_refl,
}
use mathlib.Core.Path.{subst, sym}
use discord_copilot_sdk.Chunk.{Text}
use discord_copilot_sdk.CustomId.{text_eq}
use discord_copilot_sdk.Dict.{Dict}
use discord_copilot_sdk.Dict.Entries.{Entries, Entries-mono}
use discord_copilot_sdk.TurnRender.Status.{inserted}
use discord_copilot_sdk.TurnRender.Items.{
  TimelineItem, text, reasoning, tool, is_text, TurnRenderer, created, pushed, updated, assign,
  lists, spliced_out, remove_first, has_text, insert_status,
}

-- The `kind` of an item.
pub data Kind : Type 0 where
  of_text of_reasoning of_tool of_status : Kind

abbrev pub kind_of : TimelineItem → Kind
kind_of (text s o) = of_text
kind_of (reasoning id s o) = of_reasoning
kind_of (tool t) = of_tool
kind_of _ = of_status

-- The texts of the answer: what `assistantText` joins.
abbrev pub with_answer : TimelineItem → List Text → List Text
with_answer (text s o) rest = s ∷ rest
with_answer _ rest = rest

abbrev pub answers_of : (ℕ → TimelineItem) → List ℕ → List Text
answers_of objects [] = []
answers_of objects (m ∷ ms) = with_answer (objects m) (answers_of objects ms)

abbrev pub answers : TurnRenderer → List Text
answers r = answers_of r.objects r.items

-- The objects under the ids of a map are of one kind.
abbrev pub AreOf : Kind → TurnRenderer → Dict Text ℕ → Type 0
AreOf k r m = Entries (λ id n. (kind_of (r.objects n) ≡ k) × (n < r.next_object)) m

abbrev pub IsActive : TurnRenderer → Option ℕ → Type 0
IsActive r none = Unit
IsActive r (some n) = (kind_of (r.objects n) ≡ of_text) × (n < r.next_object)

pub record IsRendered (r : TurnRenderer) : Type 0 where
  pub allocated : All (λ n. n < r.next_object) r.items
  pub active : IsActive r r.active_text
  pub reasonings : AreOf of_reasoning r r.reasoning_by_id
  pub tools : AreOf of_tool r r.tool_by_id

-- Objects keep their kind, and new ones come at the end.
pub record Grows (r s : TurnRenderer) : Type 0 where
  pub more : r.next_object ≤ s.next_object
  pub kept : (n : ℕ) → n < r.next_object → kind_of (s.objects n) ≡ kind_of (r.objects n)

pub AreOf-Grows :
    (k : Kind) (r s : TurnRenderer) (m : Dict Text ℕ) → Grows r s → AreOf k r m → AreOf k s m
AreOf-Grows k r s m g h = Entries-mono m (λ id n p. (g.kept n p.1 ∙ p.0, omega (arith, g.more))) h

pub IsActive-Grows : (r s : TurnRenderer) (o : Option ℕ) → Grows r s → IsActive r o → IsActive s o
IsActive-Grows r s none g h = tt
IsActive-Grows r s (some n) g h = (g.kept n h.1 ∙ h.0, omega (arith, g.more))

allocated-Grows :
    (r s : TurnRenderer) (ms : List ℕ)
    → Grows r s
    → All (λ n. n < r.next_object) ms
    → All (λ n. n < s.next_object) ms
allocated-Grows r s [] g h = tt
allocated-Grows r s (m ∷ ms) g (p, h) = (omega (arith, g.more), allocated-Grows r s ms g h)

pub created-Grows : (v : TimelineItem) (r : TurnRenderer) → Grows r (created v r)
created-Grows v r = record { more = omega arith; kept = λ n h. ground arith }

pub updated-Grows :
    (n : ℕ) (f : TimelineItem → TimelineItem) (r : TurnRenderer)
    → kind_of (f (r.objects n)) ≡ kind_of (r.objects n)
    → Grows r (updated n f r)
updated-Grows n f r same = record { more = omega arith; kept = λ m h. ground (arith, ap r.objects) }

-- The item adds nothing to the answer.
abbrev pub IsSilent : TimelineItem → Type 0
IsSilent v = (rest : List Text) → with_answer v rest ≡ rest

answers_of-assign :
    (n : ℕ) (v : TimelineItem) (f : ℕ → TimelineItem) (ms : List ℕ)
    → ((rest : List Text) → with_answer v rest ≡ with_answer (f n) rest)
    → answers_of (assign n v f) ms ≡ answers_of f ms
answers_of-assign n v f [] h = refl
answers_of-assign n v f (m ∷ ms) h = elim (Bool-cases (n == m)) [
  | inr other ↦ rw other (ap (with_answer (f m)) (answers_of-assign n v f ms h))
  | inl same ↦ rw same (
      h (answers_of (assign n v f) ms)
      ∙ ap (with_answer (f n)) (answers_of-assign n v f ms h)
      ∙ ap (λ k. with_answer (f k) (answers_of f ms)) ((nat_eq.beq_iff n m).0 same))
]

answers_of_fresh :
    (n : ℕ) (v : TimelineItem) (f : ℕ → TimelineItem) (ms : List ℕ)
    → All (λ m. m < n) ms
    → answers_of (assign n v f) ms ≡ answers_of f ms
answers_of_fresh n v f [] h = refl
answers_of_fresh n v f (m ∷ ms) (p, h) =
    let other : (n == m) ≡ false = ground arith in
    rw other (ap (with_answer (f m)) (answers_of_fresh n v f ms h))

answers_of-push :
    (n : ℕ) (f : ℕ → TimelineItem) (ms : List ℕ)
    → IsSilent (f n)
    → answers_of f (ms ++ n ∷ []) ≡ answers_of f ms
answers_of-push n f [] h = h []
answers_of-push n f (m ∷ ms) h = ap (with_answer (f m)) (answers_of-push n f ms h)

answers_of-insert_status :
    (n : ℕ) (f g : ℕ → TimelineItem) (ms : List ℕ)
    → IsSilent (f n)
    → answers_of f (insert_status n g ms) ≡ answers_of f ms
unfolding insert_status
answers_of-insert_status n f g [] h = h []
answers_of-insert_status n f g (m ∷ ms) h =
    elim (Bool-cases (is_text (g m) && not (has_text g ms))) [
      | inl last ↦ rw last (h (answers_of f (m ∷ ms)))
      | inr more ↦ rw more (ap (with_answer (f m)) (answers_of-insert_status n f g ms h))
    ]

answers_of-remove_first :
    (n : ℕ) (f : ℕ → TimelineItem) (ms : List ℕ)
    → IsSilent (f n)
    → answers_of f (remove_first n ms) ≡ answers_of f ms
answers_of-remove_first n f [] h = refl
answers_of-remove_first n f (m ∷ ms) h = elim (Bool-cases (m == n)) [
  | inr other ↦ rw other (ap (with_answer (f m)) (answers_of-remove_first n f ms h))
  | inl same ↦ rw same (
      sym (
        ap (λ k. with_answer (f k) (answers_of f ms)) ((nat_eq.beq_iff m n).0 same)
        ∙ h (answers_of f ms)))
]

All-insert_status :
    (P : ℕ → Type 0) (n : ℕ) (g : ℕ → TimelineItem) (ms : List ℕ)
    → P n
    → All P ms
    → All P (insert_status n g ms)
unfolding insert_status
All-insert_status P n g [] p h = (p, tt)
All-insert_status P n g (m ∷ ms) p (q, h) =
    elim (Bool-cases (is_text (g m) && not (has_text g ms))) [
      | inl last ↦ rw last (p, (q, h))
      | inr more ↦ rw more (q, All-insert_status P n g ms p h)
    ]

All-remove_first : (P : ℕ → Type 0) (n : ℕ) (ms : List ℕ) → All P ms → All P (remove_first n ms)
All-remove_first P n [] h = tt
All-remove_first P n (m ∷ ms) (q, h) = elim (Bool-cases (m == n)) [
  | inl same ↦ rw same h
  | inr other ↦ rw other (q, All-remove_first P n ms h)
]

-- A well-formed timeline with the answer of `r`.
pub record Keeps (r s : TurnRenderer) : Type 0 where
  pub rendered : IsRendered s
  pub same : answers s ≡ answers r

pub Keeps-trans : (r s t : TurnRenderer) → Keeps r s → Keeps s t → Keeps r t
Keeps-trans r s t p q = record { rendered = q.rendered; same = q.same ∙ p.same }

module _ (r : TurnRenderer) (w : IsRendered r) where
  pub Keeps-refl : Keeps r r
  Keeps-refl = record { rendered = w; same = refl }

  -- The state with other objects and items.
  IsRendered-as :
      (s : TurnRenderer)
      → Grows r s
      → All (λ n. n < s.next_object) s.items
      → s.active_text ≡ r.active_text
      → s.reasoning_by_id ≡ r.reasoning_by_id
      → s.tool_by_id ≡ r.tool_by_id
      → IsRendered s
  IsRendered-as s g listed active reasonings tools = record {
    allocated = listed;
    active = subst (IsActive s) (sym active) (IsActive-Grows r s r.active_text g w.active);
    reasonings =
        subst (AreOf of_reasoning s) (sym reasonings)
          (AreOf-Grows of_reasoning r s r.reasoning_by_id g w.reasonings);
    tools = subst (AreOf of_tool s) (sym tools) (AreOf-Grows of_tool r s r.tool_by_id g w.tools);
  }

  pub updated-Keeps :
      (n : ℕ) (f : TimelineItem → TimelineItem)
      → kind_of (f (r.objects n)) ≡ kind_of (r.objects n)
      → ((rest : List Text) → with_answer (f (r.objects n)) rest ≡ with_answer (r.objects n) rest)
      → Keeps r (updated n f r)
  updated-Keeps n f kind says = record {
    rendered = IsRendered-as (updated n f r) (updated-Grows n f r kind) w.allocated refl refl refl;
    same = answers_of-assign n (f (r.objects n)) r.objects r.items says;
  }

  IsSilent-fresh :
      (v : TimelineItem) → IsSilent v → IsSilent (assign r.next_object v r.objects r.next_object)
  IsSilent-fresh v h = rw (beq_refl r.next_object) h

  pub pushed-Keeps : (v : TimelineItem) → IsSilent v → Keeps r (pushed v r)
  pushed-Keeps v h =
      let g = created-Grows v r in
      record {
        rendered =
            IsRendered-as (pushed v r) (record { more = g.more; kept = g.kept })
              (All-append (λ n. n < r.next_object + 1) r.items (r.next_object ∷ [])
                (allocated-Grows r (created v r) r.items g w.allocated) (omega arith, tt))
              refl refl refl;
        same =
            answers_of-push r.next_object (assign r.next_object v r.objects) r.items
              (IsSilent-fresh v h)
            ∙ answers_of_fresh r.next_object v r.objects r.items w.allocated;
      }

  pub inserted-Keeps : (v : TimelineItem) → IsSilent v → Keeps r (inserted v r)
  inserted-Keeps v h =
      let g = created-Grows v r in
      record {
        rendered =
            IsRendered-as (inserted v r) (record { more = g.more; kept = g.kept })
              (All-insert_status (λ n. n < r.next_object + 1) r.next_object r.objects r.items
                (omega arith) (allocated-Grows r (created v r) r.items g w.allocated))
              refl refl refl;
        same =
            answers_of-insert_status r.next_object (assign r.next_object v r.objects) r.objects
              r.items (IsSilent-fresh v h)
            ∙ answers_of_fresh r.next_object v r.objects r.items w.allocated;
      }

  pub spliced_out-Keeps :
      (n : ℕ)
      → lists n r.items ≡ true
      → IsSilent (r.objects n)
      → Keeps r (record r { items = spliced_out n r.items })
  unfolding spliced_out
  spliced_out-Keeps n listed h = rw listed (record {
    rendered =
        IsRendered-as (record r { items = remove_first n r.items })
          (record { more = omega arith; kept = λ m p. refl })
          (All-remove_first (λ m. m < r.next_object) n r.items w.allocated) refl refl refl;
    same = answers_of-remove_first n r.objects r.items h;
  })
