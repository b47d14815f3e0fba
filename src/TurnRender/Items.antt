-- ===== src/TurnRender/Items.antt =====
-- core/turn-render.ts: the items of a timeline. Items are shared objects, so that they stand in a
-- heap and are named by numbers; a text is the list of its UTF-16 code units.
use discord_copilot_sdk.Base.{
  ℕ, ◌+◌, Bool, true, false, ◌&&◌, ◌||◌, not, List, [], ◌∷◌, ◌++◌, Option, none, some, ◌==◌, nat_eq,
  leb, if◌then◌else◌,
}
use discord_copilot_sdk.Chunk.{Text}
use discord_copilot_sdk.Json.{Json}
use discord_copilot_sdk.Dict.{Dict}

pub record ToolItem : Type 0 where
  pub id : Text
  pub name : Text
  pub status : Text
  pub arguments : Option Json
  pub possible_paths : List Text
  pub description : Text
  pub error : Text

-- An optional list or text is as good as absent when it is empty, and stands as empty here.
pub record ToolCarry : Type 0 where
  pub id : Text
  pub name : Text
  pub arguments : Option Json
  pub possible_paths : List Text
  pub description : Text

pub data TimelineItem : Type 0 where
  text : Text → Bool → TimelineItem
  reasoning : Text → Text → Bool → TimelineItem
  intent : Text → TimelineItem
  tool : ToolItem → TimelineItem
  audit : Text → Text → ℕ → TimelineItem
  notice : Text → TimelineItem
  todos : Text → TimelineItem

-- The white space and line ends that `trim` takes off.
abbrev pub is_space : ℕ → Bool
is_space c =
    (leb 9 c && leb c 13)
    || (c == 32
        || (c == 0xa0
            || (c == 0x1680
                || ((leb 0x2000 c && leb c 0x200a)
                    || (c == 0x2028
                        || (c == 0x2029
                            || (c == 0x202f || (c == 0x205f || (c == 0x3000 || c == 0xfeff)))))))))

-- `!s.trim()`
unfoldable pub is_blank : Text → Bool
is_blank [] = true
is_blank (c ∷ s) = is_space c && is_blank s

abbrev pub is_text : TimelineItem → Bool
is_text (text s o) = true
is_text _ = false

abbrev pub is_todos : TimelineItem → Bool
is_todos (todos s) = true
is_todos _ = false

pub record TurnRenderer : Type 0 where
  pub objects : ℕ → TimelineItem
  pub items : List ℕ
  pub active_text : Option ℕ
  pub reasoning_by_id : Dict Text ℕ
  pub tool_by_id : Dict Text ℕ
  pub carried_tools : Dict Text ToolCarry
  pub next_object : ℕ

abbrev pub new_renderer : TurnRenderer
new_renderer = record {
  objects = λ n. intent [];
  items = [];
  active_text = none;
  reasoning_by_id = [];
  tool_by_id = [];
  carried_tools = [];
  next_object = 0;
}

abbrev pub assign : ℕ → TimelineItem → (ℕ → TimelineItem) → ℕ → TimelineItem
assign n v objects m = if n == m then v else objects m

-- An object that is not listed yet.
abbrev pub created : TimelineItem → TurnRenderer → TurnRenderer
created v r = record r {
  objects = assign r.next_object v r.objects;
  next_object = r.next_object + 1;
}

-- `this.items.push({…})`
abbrev pub pushed : TimelineItem → TurnRenderer → TurnRenderer
pushed v r = record r {
  objects = assign r.next_object v r.objects;
  items = r.items ++ r.next_object ∷ [];
  next_object = r.next_object + 1;
}

-- A field of an object is set.
abbrev pub updated : ℕ → (TimelineItem → TimelineItem) → TurnRenderer → TurnRenderer
updated n f r = record r { objects = assign n (f (r.objects n)) r.objects }

abbrev pub lists : ℕ → List ℕ → Bool
lists n [] = false
lists n (m ∷ ms) = m == n || lists n ms

abbrev pub remove_first : ℕ → List ℕ → List ℕ
remove_first n [] = []
remove_first n (m ∷ ms) = if m == n then ms else m ∷ remove_first n ms

abbrev pub drop_last : List ℕ → List ℕ
drop_last [] = []
drop_last (m ∷ []) = []
drop_last (m ∷ k ∷ ms) = m ∷ drop_last (k ∷ ms)

-- `items.splice(items.indexOf(x), 1)`: of an object that is not listed the index is -1, which takes
-- off the last item.
unfoldable pub spliced_out : ℕ → List ℕ → List ℕ
spliced_out n ms = if lists n ms then remove_first n ms else drop_last ms

-- Whether an item is a text, by its number.
abbrev pub has_text : (ℕ → TimelineItem) → List ℕ → Bool
has_text objects [] = false
has_text objects (m ∷ ms) = is_text (objects m) || has_text objects ms

-- `this.items.splice(this.statusInsertIndex(), 0, {…})`: before the last text, or at the end. The
-- second list is the item before that place, if there is one.
unfoldable pub insert_status : ℕ → (ℕ → TimelineItem) → List ℕ → List ℕ
insert_status n objects [] = n ∷ []
insert_status n objects (m ∷ ms) =
    if is_text (objects m) && not (has_text objects ms)
    then n ∷ m ∷ ms
    else m ∷ insert_status n objects ms

-- `this.items[this.statusInsertIndex() - 1]`, after an item that is already passed.
unfoldable pub before_status : Option ℕ → (ℕ → TimelineItem) → List ℕ → Option ℕ
before_status passed objects [] = passed
before_status passed objects (m ∷ ms) =
    if is_text (objects m) && not (has_text objects ms)
    then passed
    else before_status (some m) objects ms

-- The first of the items that is a list of todos.
unfoldable pub find_todos : (ℕ → TimelineItem) → List ℕ → Option ℕ
find_todos objects [] = none
find_todos objects (m ∷ ms) = if is_todos (objects m) then some m else find_todos objects ms
