-- ===== src/Effort.antt =====
-- core/effort.ts: validation of a reasoning effort against what a model supports. The supported
-- set is three-state: `none` for a model that is not known, `[]` for one without efforts.
pub mod Laws
use discord_copilot_sdk.Base.{
  Bool, true, false, ◌||◌, not, String, List, [], ◌∷◌, Option, none, some, ◌==◌, string_eq,
  if◌then◌else◌,
}

abbrev pub includes : List String → String → Bool
includes [] a = false
includes (x ∷ xs) a = x == a || includes xs a

-- `!currentEffort`
abbrev is_empty : Option String → Bool
is_empty none = true
is_empty (some s) = s == ""

abbrev drops : Option String → Option (List String) → Bool
drops current none = false
drops none (some xs) = false
drops (some level) (some xs) = not (includes xs level)

unfoldable pub should_reset_effort : Option String → Option (List String) → Bool
should_reset_effort current supported = if is_empty current then false else drops current supported

abbrev pub effort_levels : List String
effort_levels = "none" ∷ "minimal" ∷ "low" ∷ "medium" ∷ "high" ∷ "xhigh" ∷ "max" ∷ []

-- The text of a refusal is made of the model and the supported set, which stand in its place.
pub data EffortValidation : Type 0 where
  ok : EffortValidation
  refused : Option String → List String → EffortValidation

unfoldable pub validate_effort : Option String → String → Option (List String) → EffortValidation
validate_effort model level none = ok
validate_effort model level (some supported) =
    if includes supported level then ok else refused model supported
