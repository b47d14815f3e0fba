-- ===== src/Effort/Laws.antt =====
-- Dropping an effort on a change of model agrees with what `/effort` would accept.
use discord_copilot_sdk.Base.{true, String, List, Option, some, ◌≡◌, ◌≢◌, ◌↔◌, arith, string_eq}
use discord_copilot_sdk.Effort.{should_reset_effort, validate_effort, ok}

-- A current effort is dropped on a change of model exactly when `/effort` would refuse it for the
-- new model: never for a model that is not known, always for one without efforts.
pub should_reset_effort-validate_effort :
    (model : Option String) (level : String) (supported : Option (List String))
    → level ≢ ""
    → (should_reset_effort (some level) supported ≡ true)
      ↔ (validate_effort model level supported ≢ ok)
unfolding should_reset_effort validate_effort
should_reset_effort-validate_effort model level supported h =
    ground (arith, string_eq.beq_iff level "")
