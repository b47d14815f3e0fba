-- ===== src/Retry/Tests.antt =====
-- The theorems on the retry loop at concrete events.
use discord_copilot_sdk.Base.{false, List, [], ◌∷◌, some, ◌≡◌, refl}
use discord_copilot_sdk.Retry.{
  new_loop, candidates, Event, arms, nudges, fires, settles, happen, run, arm, nudge, fire, settle,
  run_access_retry_tick, schedule_access_retry, clear_access_retry_timer,
}
use discord_copilot_sdk.Retry.Wakeful.{IsWakeful, new_loop-IsWakeful, run-IsWakeful}
use discord_copilot_sdk.Retry.Refines.{labels, Steps, view, run-Steps}

-- A wake-up that finds candidates and resumes none, with a poke meanwhile.
abbrev fruitless : List Event
fruitless = arms ∷ fires 0 candidates ∷ nudges candidates ∷ settles (some false) ∷ []

-- The next wait is longer.
longer_wait : (run fruitless new_loop).scheduled ≡ (1, 30000) ∷ []
unfolding run happen arm nudge fire settle run_access_retry_tick schedule_access_retry
    clear_access_retry_timer
longer_wait = refl

run-IsWakeful_example : IsWakeful (run fruitless new_loop)
run-IsWakeful_example = run-IsWakeful fruitless new_loop new_loop-IsWakeful

run-Steps_example :
    Steps (labels fruitless new_loop) (view new_loop) (view (run fruitless new_loop))
run-Steps_example = run-Steps fruitless new_loop new_loop-IsWakeful
