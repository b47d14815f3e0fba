-- ===== src/TurnRender/Stream.antt =====
-- A streamed answer ends as the final event says it.
use discord_copilot_sdk.Base.{
  ℕ, ◌<◌, true, false, List, [], ◌∷◌, ◌++◌, none, some, map, ◌==◌, nat_eq, ◌≡◌, refl, ◌⊎◌, inl, inr,
  arith, All, ap, ◌∙◌, beq_refl,
}
use mathlib.Core.List.{map-append}
use mathlib.Core.Path.{ap₂}
use discord_copilot_sdk.Chunk.{Text}
use discord_copilot_sdk.TurnRender.Items.{
  TimelineItem, text, is_blank, TurnRenderer, pushed, updated, assign,
}
use discord_copilot_sdk.TurnRender.Ops.{
  message_delta, message, apply, apply_delta, apply_message, close_text, closed, appended, replaced,
  view,
}

-- The deltas of an answer, one after another.
unfoldable pub stream : List Text → TurnRenderer → TurnRenderer
stream [] r = r
stream (t ∷ ts) r = stream ts (apply none (message_delta t) r)

-- `p` is `o` with an open text at the end.
record IsStreaming (o p : TurnRenderer) : Type 0 where
  written : Text
  listed : p.items ≡ o.items ++ o.next_object ∷ []
  active : p.active_text ≡ some o.next_object
  here : p.objects o.next_object ≡ text written true
  elsewhere : (m : ℕ) → (o.next_object == m) ≡ false → p.objects m ≡ o.objects m

assign_at : (n : ℕ) (v : TimelineItem) (f : ℕ → TimelineItem) → assign n v f n ≡ v
assign_at n v f = rw (beq_refl n) refl

apply_delta-IsStreaming :
    (o p : TurnRenderer) (t : Text) → IsStreaming o p → IsStreaming o (apply_delta t p)
unfolding apply_delta
apply_delta-IsStreaming o p [] s = s
apply_delta-IsStreaming o p (c ∷ t) s =
    rw (s.active, apply_delta)
      (record {
        written = s.written ++ c ∷ t;
        listed = s.listed;
        active = s.active;
        here = assign_at o.next_object _ p.objects ∙ ap (appended (c ∷ t)) s.here;
        elsewhere = λ m other. rw other (s.elsewhere m other);
      })

apply_delta-starts :
    (o : TurnRenderer) (t : Text)
    → o.active_text ≡ none
    → (apply_delta t o ≡ o) ⊎ IsStreaming o (apply_delta t o)
unfolding apply_delta
apply_delta-starts o [] idle = inl refl
apply_delta-starts o (c ∷ t) idle = inr (
    rw (idle, apply_delta)
      (record {
        written = c ∷ t;
        listed = refl;
        active = refl;
        here = assign_at o.next_object (text (c ∷ t) true) o.objects;
        elsewhere = λ m other. rw other refl;
      }))

stream-IsStreaming :
    (o p : TurnRenderer) (ts : List Text) → IsStreaming o p → IsStreaming o (stream ts p)
unfolding stream apply
stream-IsStreaming o p [] s = s
stream-IsStreaming o p (t ∷ ts) s =
    stream-IsStreaming o (apply_delta t p) ts (apply_delta-IsStreaming o p t s)

stream-cases :
    (o : TurnRenderer) (ts : List Text)
    → o.active_text ≡ none
    → (stream ts o ≡ o) ⊎ IsStreaming o (stream ts o)
unfolding stream apply
stream-cases o [] idle = inl refl
stream-cases o (t ∷ ts) idle = elim (apply_delta-starts o t idle) [
  | inr s ↦ inr (stream-IsStreaming o (apply_delta t o) ts s)
  | inl same ↦ rw same (stream-cases o ts idle)
]

map_listed :
    (f g : ℕ → TimelineItem) (n : ℕ) (ms : List ℕ)
    → All (λ m. m < n) ms
    → ((m : ℕ) → (n == m) ≡ false → f m ≡ g m)
    → map f ms ≡ map g ms
map_listed f g n [] h same = refl
map_listed f g n (m ∷ ms) (p, h) same = ap₂ ◌∷◌ (same m (ground arith)) (map_listed f g n ms h same)

-- The items of a state whose items are those of `o` and one more.
view_after :
    (o p : TurnRenderer) (v : TimelineItem)
    → All (λ m. m < o.next_object) o.items
    → p.items ≡ o.items ++ o.next_object ∷ []
    → p.objects o.next_object ≡ v
    → ((m : ℕ) → (o.next_object == m) ≡ false → p.objects m ≡ o.objects m)
    → view p ≡ view o ++ v ∷ []
view_after o p v listed items here elsewhere =
    ap (map p.objects) items
    ∙ map-append p.objects o.items (o.next_object ∷ [])
    ∙ ap₂ ◌++◌ (map_listed p.objects o.objects o.next_object o.items listed elsewhere)
        (ap (λ x. x ∷ []) here)

message-streaming :
    (o p : TurnRenderer) (content : Text)
    → All (λ m. m < o.next_object) o.items
    → is_blank content ≡ false
    → IsStreaming o p
    → view (apply_message content p) ≡ view o ++ text content false ∷ []
unfolding apply_message close_text
message-streaming o p content listed some_content s =
    rw (s.active, apply_message)
      (rw some_content (
        rw s.active (
          view_after o
            (record (updated o.next_object closed (updated o.next_object (replaced content) p)) {
              active_text = none;
            })
            (text content false) listed s.listed
            (assign_at o.next_object _ (updated o.next_object (replaced content) p).objects
              ∙ ap closed (assign_at o.next_object _ p.objects ∙ ap (replaced content) s.here))
            (λ m other. rw other (s.elsewhere m other)))))

message-idle :
    (o : TurnRenderer) (content : Text)
    → o.active_text ≡ none
    → All (λ m. m < o.next_object) o.items
    → is_blank content ≡ false
    → view (apply_message content o) ≡ view o ++ text content false ∷ []
unfolding apply_message
message-idle o content idle listed some_content =
    rw (idle, apply_message)
      (rw some_content (
        view_after o (pushed (text content false) o) (text content false) listed refl
          (assign_at o.next_object (text content false) o.objects) (λ m other. rw other refl)))

-- However an answer was streamed, in any number of parts or none, a final event that is not blank
-- leaves the timeline as it was before, with one closed text at the end that holds exactly the
-- final event's content; the answer before it was closed, and the items are allocated.
pub message-stream :
    (o : TurnRenderer) (ts : List Text) (content : Text)
    → o.active_text ≡ none
    → All (λ m. m < o.next_object) o.items
    → is_blank content ≡ false
    → view (apply none (message content) (stream ts o)) ≡ view o ++ text content false ∷ []
unfolding apply
message-stream o ts content idle listed some_content = elim (stream-cases o ts idle) [
  | inr s ↦ message-streaming o (stream ts o) content listed some_content s
  | inl same ↦ rw same (message-idle o content idle listed some_content)
]
